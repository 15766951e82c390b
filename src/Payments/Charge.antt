-- ===== src/Payments/Charge.antt =====
-- `attempt`, `charge_issued`, `recover_pending` and `_charge` of payments/application/services.py:
-- the three phases. Each phase is a transaction of its own, so what a phase has committed stays when
-- a later one raises.
use chargeflow.Prelude.{
  ℕ, String, Bool, true, false, not, Option, none, some, lookup, if◌then◌else◌,
}
use chargeflow.Calendar.{DateTime}
use chargeflow.Schema.{PaymentAttempt, ChargeRequest}
use chargeflow.Db.{Db, runtime_error, Result, ok, err, M, get}
use chargeflow.Payments.Gateway.{Digest, require_gateway, charge}
use chargeflow.Payments.Prepare.{is_chargeable, Prepared, prepare}
use chargeflow.Payments.Settle.{settle}

-- Code outside a transaction: the database comes back also after an exception.
abbrev pub Proc : Type 0 → Type 0
Proc A = Db → Result A × Db

-- A transaction commits, or it raises and leaves the database as it was.
abbrev pub atomically : {A : Type 0} → M A → Proc A
atomically m db = elim (m db) [ ok (a, db') ↦ (ok a, db') | err e ↦ (err e, db) ]

infixl 5 ◌>>=◌ ◌>>◌
abbrev pub ◌>>=◌ : {A B : Type 0} → Proc A → (A → Proc B) → Proc B
◌>>=◌ m f db = let (r, db') = m db in elim r [ ok a ↦ f a db' | err e ↦ (err e, db') ]

abbrev pub ◌>>◌ : {A B : Type 0} → Proc A → Proc B → Proc B
m >> k = m >>= λ _. k

abbrev pub return : {A : Type 0} → A → Proc A
return a db = (ok a, db)

-- What a run takes from outside: the new provider key, the draw and the new charge's name of the
-- mock gateway, and the clock in the first and in the last phase.
pub record World : Type 0 where
  pub digest : Digest
  pub provider_key : String
  pub approved : Bool
  pub charge_id : String
  pub prepared_at : DateTime
  pub settled_at : DateTime

unfoldable pub charge_request : PaymentAttempt → ChargeRequest
charge_request a = record {
  amount = a.amount;
  currency = a.currency;
  provider_customer_id = a.provider_customer_id;
  provider_payment_method_id = a.provider_payment_method_id;
  idempotency_key = a.provider_idempotency_key;
}

-- The part of `_charge` behind its guard: the call of the gateway and the settlement.
unfoldable pub charge_and_settle : World → ℕ → PaymentAttempt → Proc PaymentAttempt
charge_and_settle w pk a = do
  atomically (require_gateway a.provider)
  result ← atomically (charge w.digest w.approved w.charge_id (charge_request a))
  atomically
      (settle pk result.success result.provider_response result.provider_charge_id w.settled_at)
  atomically (get (λ db. db.attempts) pk)

-- `PaymentService._charge`
unfoldable pub charge_pending : World → ℕ → Proc PaymentAttempt
charge_pending w pk = do
  a ← atomically (get (λ db. db.attempts) pk)
  if not (is_chargeable a) then return a else charge_and_settle w pk a

abbrev pub charge_prepared : World → Prepared → Proc (Option PaymentAttempt)
charge_prepared w (none, _) = return none
charge_prepared w (some (pk, a), false) = return (some a)
charge_prepared w (some (pk, a), true) = charge_pending w pk >>= λ r. return (some r)

abbrev pub refuse_atomic : Bool → Proc (Unit {0})
refuse_atomic in_atomic_block db = (if in_atomic_block then err runtime_error else ok tt, db)

-- `PaymentService.attempt`
unfoldable pub attempt : World → Bool → ℕ → Option String → Proc (Option PaymentAttempt)
attempt w in_atomic_block invoice_pk key = do
  refuse_atomic in_atomic_block
  prepared ← atomically (prepare invoice_pk key false w.provider_key w.prepared_at)
  charge_prepared w prepared

-- `PaymentService.charge_issued`, which the task `charge_invoice` calls.
unfoldable pub charge_issued : World → Bool → ℕ → Proc (Option PaymentAttempt)
charge_issued w in_atomic_block invoice_pk = do
  refuse_atomic in_atomic_block
  prepared ← atomically (prepare invoice_pk none true w.provider_key w.prepared_at)
  charge_prepared w prepared

-- The filter of `recover_pending`.
unfoldable pub find_recoverable : ℕ → Db → Option PaymentAttempt
find_recoverable pk db = elim (lookup pk db.attempts) [
  | none ↦ none
  | some a ↦ if is_chargeable a then some a else none
]

abbrev pub recover_found : World → ℕ → Option PaymentAttempt → Proc (Option PaymentAttempt)
recover_found w pk none = return none
recover_found w pk (some a) = charge_pending w pk >>= λ r. return (some r)

-- `PaymentService.recover_pending`
unfoldable pub recover_pending : World → Bool → ℕ → Proc (Option PaymentAttempt)
recover_pending w in_atomic_block pk = do
  refuse_atomic in_atomic_block
  found ← λ db. (ok (find_recoverable pk db), db)
  recover_found w pk found
