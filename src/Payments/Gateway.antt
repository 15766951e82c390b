-- ===== src/Payments/Gateway.antt =====
-- payments/infrastructure/mock_gateway.py and `get_payment_gateway`. What the gateway takes from
-- `hashlib`, `random` and `uuid` are arguments: `digest` is the SHA-256 of the request's JSON
-- text, `approved` whether the draw was at least the failure rate, `charge_id` the new charge's name.
use chargeflow.Prelude.{
  ℕ, ℤ, String, Bool, ◌||◌, not, none, some, add, find_row, any_entry, same_text, if◌then◌else◌,
}
use chargeflow.Schema.{Json, empty, field, MockChargeReceipt, ChargeRequest, ChargeResult}
use chargeflow.Db.{
  Error, does_not_exist, value_error, integrity_error, unique_provider_charge, ok, err, M, pure,
  raise, handle, ◌>>=◌, ◌>>◌, raise_if,
}

abbrev pub Digest : Type 0
Digest = ℤ → String → String → String → String

-- The parts of the request that the fingerprint covers; the idempotency key is not one.
unfoldable pub fingerprint : Digest → ChargeRequest → String
fingerprint digest r =
    digest r.amount r.currency r.provider_customer_id r.provider_payment_method_id

abbrev pub has_key : String → MockChargeReceipt → Bool
has_key k r = same_text r.provider_idempotency_key k

abbrev pub is_taken : String → String → ℕ → MockChargeReceipt → Bool
is_taken k charge_id _ r =
    same_text r.provider_idempotency_key k || same_text r.provider_charge_id charge_id

-- `MockChargeReceipt.objects.get(provider_idempotency_key=...)`
unfoldable pub stored_receipt : String → M MockChargeReceipt
stored_receipt k db = elim (find_row (has_key k) db.receipts) [
  | none ↦ err does_not_exist
  | some (_, r) ↦ ok (r, db)
]

-- `MockChargeReceipt.objects.create`, with its two unique columns.
unfoldable pub create_receipt : MockChargeReceipt → M MockChargeReceipt
create_receipt r db =
    if any_entry (is_taken r.provider_idempotency_key r.provider_charge_id) db.receipts
    then err (integrity_error unique_provider_charge)
    else ok (r, record db { receipts = add r db.receipts })

abbrev pub on_conflict : M MockChargeReceipt → Error → M MockChargeReceipt
on_conflict m (integrity_error c) = m
on_conflict m e = raise e

unfoldable pub new_receipt : Digest → Bool → String → ChargeRequest → MockChargeReceipt
new_receipt digest approved charge_id r = record {
  provider_idempotency_key = r.idempotency_key;
  request_fingerprint = fingerprint digest r;
  success = approved;
  provider_charge_id = charge_id;
  provider_response = field "status" (Json.str (if approved then "ok" else "declined")) empty;
}

-- The branch of a key that was not seen: another process may have stored the key since.
unfoldable pub create_or_replay : Digest → Bool → String → ChargeRequest → M MockChargeReceipt
create_or_replay digest approved charge_id r =
    handle (create_receipt (new_receipt digest approved charge_id r))
      (on_conflict (stored_receipt r.idempotency_key))

-- The receipt of the request's key: the stored one, or a new one.
unfoldable pub find_or_create : Digest → Bool → String → ChargeRequest → M MockChargeReceipt
find_or_create digest approved charge_id r db =
    elim (find_row (has_key r.idempotency_key) db.receipts) [
      | some (_, old) ↦ ok (old, db)
      | none ↦ create_or_replay digest approved charge_id r db
    ]

-- The test of the fingerprint, and the result.
unfoldable pub answer : Digest → ChargeRequest → MockChargeReceipt → M ChargeResult
answer digest r receipt =
    raise_if (not (same_text receipt.request_fingerprint (fingerprint digest r))) value_error
    >> pure (record {
      success = receipt.success;
      provider_charge_id = receipt.provider_charge_id;
      provider_response = receipt.provider_response;
    })

-- `MockPaymentGateway.charge`
unfoldable pub charge : Digest → Bool → String → ChargeRequest → M ChargeResult
charge digest approved charge_id r = find_or_create digest approved charge_id r >>= answer digest r

-- `get_payment_gateway`: the one gateway is the mock.
unfoldable pub require_gateway : String → M (Unit {0})
require_gateway provider = raise_if (not (same_text provider "mock")) value_error
