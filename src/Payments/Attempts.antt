-- ===== src/Payments/Attempts.antt =====
-- `PaymentAttempt` of payments/domain/models.py: `clean`, `save`, and the unique constraints.
use chargeflow.Prelude.{
  ℕ, String, Bool, true, false, ◌&&◌, not, Option, none, some, Table, lookup, put, add, fresh,
  any_entry, ◌==◌, same_int, same_text, is_blank, if◌then◌else◌,
}
use chargeflow.Schema.{PaymentStatus, PaymentAttempt, same_payment_status}
use chargeflow.Db.{
  Constraint, unique_project_payment_key, one_success_per_invoice, unique_provider_payment_key,
  unique_provider_charge, validation_error, integrity_error, ok, err, M, get, ◌>>=◌, ◌>>◌, raise_if,
}

-- A database NULL equals nothing.
abbrev pub same_key : Option String → Option String → Bool
same_key (some a) (some b) = same_text a b
same_key _ _ = false

-- Python's `==` on `str | None`.
abbrev pub same_option : Option String → Option String → Bool
same_option none none = true
same_option (some a) (some b) = same_text a b
same_option _ _ = false

-- `key or None`
abbrev pub or_none : Option String → Option String
or_none none = none
or_none (some k) = if is_blank k then none else some k

abbrev pub is_success : PaymentStatus → Bool
is_success s = same_payment_status s PaymentStatus.success

abbrev pub is_pending : PaymentStatus → Bool
is_pending s = same_payment_status s PaymentStatus.pending

-- Another row that agrees with `row` on a key.
abbrev pub other_row :
    (PaymentAttempt → PaymentAttempt → Bool) → ℕ → PaymentAttempt → ℕ → PaymentAttempt → Bool
other_row agrees pk row k other = not (k == pk) && agrees row other

abbrev pub agrees_on_key : PaymentAttempt → PaymentAttempt → Bool
agrees_on_key row other =
    row.organization == other.organization && same_key row.idempotency_key other.idempotency_key

abbrev pub agrees_on_success : PaymentAttempt → PaymentAttempt → Bool
agrees_on_success row other =
    row.invoice == other.invoice && (is_success row.status && is_success other.status)

abbrev pub agrees_on_provider_key : PaymentAttempt → PaymentAttempt → Bool
agrees_on_provider_key row other =
    same_text row.provider other.provider
    && same_text row.provider_idempotency_key other.provider_idempotency_key

abbrev pub agrees_on_charge : PaymentAttempt → PaymentAttempt → Bool
agrees_on_charge row other =
    not (is_blank row.provider_charge_id)
    && (same_text row.provider other.provider
        && same_text row.provider_charge_id other.provider_charge_id)

-- `Meta.constraints`: the constraint that the row would violate under its key.
unfoldable pub conflict : Table PaymentAttempt → ℕ → PaymentAttempt → Option Constraint
conflict t pk row =
    if any_entry (other_row agrees_on_key pk row) t
    then some unique_project_payment_key
    else if any_entry (other_row agrees_on_success pk row) t
    then some one_success_per_invoice
    else if any_entry (other_row agrees_on_provider_key pk row) t
    then some unique_provider_payment_key
    else if any_entry (other_row agrees_on_charge pk row) t
    then some unique_provider_charge
    else none

-- The columns of the request that `clean` compares with the stored row.
unfoldable pub same_snapshot : PaymentAttempt → PaymentAttempt → Bool
same_snapshot self row =
    self.organization == row.organization
    && self.invoice == row.invoice
    && same_int self.amount row.amount
    && same_text self.currency row.currency
    && same_text self.provider row.provider
    && same_text self.provider_idempotency_key row.provider_idempotency_key
    && same_text self.provider_customer_id row.provider_customer_id
    && same_text self.provider_payment_method_id row.provider_payment_method_id
    && same_option self.idempotency_key row.idempotency_key

-- `original and current != original`
unfoldable pub snapshot_changed : PaymentAttempt → Option PaymentAttempt → Bool
unfolding same_snapshot
snapshot_changed self none = false
snapshot_changed self (some row) = not (same_snapshot self row)

-- `clean` of a stored attempt.
unfoldable pub clean : ℕ → PaymentAttempt → M (Unit {0})
clean pk self = do
  invoice ← get (λ db. db.invoices) self.invoice
  raise_if (not (self.organization == invoice.organization)) validation_error
  λ db. raise_if (snapshot_changed self (lookup pk db.attempts)) validation_error db

-- The UPDATE of one row, under the constraints.
unfoldable pub update : ℕ → (PaymentAttempt → PaymentAttempt) → M (Unit {0})
update pk write db = elim (lookup pk db.attempts) [
  | none ↦ ok (tt, db)
  | some row ↦ elim (conflict db.attempts pk (write row)) [
    | some c ↦ err (integrity_error c)
    | none ↦ ok (tt, record db { attempts = put pk (write row) db.attempts })
  ]
]

-- `save(update_fields=...)`; `write` sets the columns named to their values in the object.
unfoldable pub save : ℕ → PaymentAttempt → (PaymentAttempt → PaymentAttempt) → M (Unit {0})
save pk self write =
    let cleaned = record self { idempotency_key = or_none self.idempotency_key } in
    clean pk cleaned >> update pk write

-- The INSERT of a row, under the constraints.
unfoldable pub inserted : PaymentAttempt → M (ℕ × PaymentAttempt)
inserted a db = elim (conflict db.attempts (fresh db.attempts) a) [
  | some c ↦ err (integrity_error c)
  | none ↦ ok ((fresh db.attempts, a), record db { attempts = add a db.attempts })
]

-- `PaymentAttempt.objects.create`: `clean` fills the organization in from the invoice.
unfoldable pub create : (ℕ → PaymentAttempt) → ℕ → M (ℕ × PaymentAttempt)
create row invoice_pk = do
  invoice ← get (λ db. db.invoices) invoice_pk
  inserted (row invoice.organization)
