-- ===== src/Evolution/Charge.antt =====
-- The relation for the three phases of a charge, also where the run ends in an exception.
use chargeflow.Prelude.{
  ℕ, String, Bool, true, false, not, Option, none, some, find_row, any_entry, same_text,
  if◌then◌else◌,
}
use chargeflow.Schema.{PaymentAttempt, MockChargeReceipt, ChargeRequest}
use chargeflow.Db.{Db, Error, Result, ok, err, M, get, raise_if, value_error, ◌>>◌}
use chargeflow.Payments.Gateway.{
  Digest, fingerprint, has_key, is_taken, stored_receipt, create_receipt, new_receipt,
  create_or_replay, find_or_create, answer, charge, require_gateway, on_conflict,
}
use chargeflow.Payments.Prepare.{Prepared, is_chargeable, prepare}
use chargeflow.Payments.Settle.{settle}
use chargeflow.Payments.Charge.{
  Proc, atomically, ◌>>=◌, return, World, charge_request, charge_and_settle, charge_pending,
  charge_prepared, attempt, charge_issued, find_recoverable, recover_found, recover_pending,
  refuse_atomic,
}
use chargeflow.Evolution.Events.{EventsLe-refl}
use chargeflow.Evolution.Rules.{
  Evolves, Evolves-refl, Evolves-trans, Grows, Grows-bind, Grows-if_result, Grows-option,
  Grows-handle, others_evolve, Grows-get,
}
use chargeflow.Evolution.Prepare.{prepare-Grows}
use chargeflow.Evolution.Settle.{settle-Grows}

-- Code outside a transaction, whether it returns or raises.
pub record Keeps {A : Type 0} (db : Db) (r : Result A × Db) : Type 0 where
  pub evolves : Evolves db r.1

pub Keeps-atomically :
    {A : Type 0} (m : M A) (db : Db) → Grows db (m db) → Keeps db (atomically m db)
Keeps-atomically {A} m db g = by_result (m db) g
  where
    by_result :
        (r : Result (A × Db))
        → Grows db r
        → Keeps {A = A} db (elim r [ ok (a, db') ↦ (ok a, db') | err e ↦ (err e, db) ])
    by_result (ok (a, db')) g = record { evolves = g }
    by_result (err e) g = record { evolves = Evolves-refl db }

module _ {A B : Type 0} where
  pub Keeps-bind :
      (m : Proc A) (f : A → Proc B) (db : Db)
      → Keeps db (m db)
      → ((a : A) (db' : Db) → Keeps db' (f a db'))
      → Keeps db ((m >>= f) db)
  Keeps-bind m f db p q = by_result (m db).0 (m db).1 p.evolves
    where
      by_result :
          (r : Result A) (db' : Db)
          → Evolves db db'
          → Keeps {A = B} db (elim r [ ok a ↦ f a db' | err e ↦ (err e, db') ])
      by_result (ok a) db' p = record { evolves = Evolves-trans p (q a db').evolves }
      by_result (err e) db' p = record { evolves = p }

stored_receipt-Grows : (k : String) (db : Db) → Grows db (stored_receipt k db)
unfolding stored_receipt
stored_receipt-Grows k db =
    Grows-option (find_row (has_key k) db.receipts) _ _ db (λ _. tt) (λ _ _. Evolves-refl db)

create_receipt-Grows : (r : MockChargeReceipt) (db : Db) → Grows db (create_receipt r db)
unfolding create_receipt
create_receipt-Grows r db =
    Grows-if_result
      (any_entry (is_taken r.provider_idempotency_key r.provider_charge_id) db.receipts) _ _ db
      (λ _. tt) (λ _. others_evolve db db.events _ db.queue (EventsLe-refl db.events))

on_conflict-Grows :
    (m : M MockChargeReceipt) (e : Error) (db : Db)
    → Grows db (m db)
    → Grows db (on_conflict m e db)
on_conflict-Grows m (Error.integrity_error c) db g = g
on_conflict-Grows m _ db g = tt

find_or_create-Grows :
    (digest : Digest) (approved : Bool) (charge_id : String) (r : ChargeRequest) (db : Db)
    → Grows db (find_or_create digest approved charge_id r db)
unfolding find_or_create create_or_replay
find_or_create-Grows digest approved charge_id r db =
    Grows-option (find_row (has_key r.idempotency_key) db.receipts) _ _ db
      (λ _.
        Grows-handle (create_receipt (new_receipt digest approved charge_id r))
          (on_conflict (stored_receipt r.idempotency_key)) db
          (create_receipt-Grows (new_receipt digest approved charge_id r) db)
          (λ e _.
            on_conflict-Grows (stored_receipt r.idempotency_key) e db
              (stored_receipt-Grows r.idempotency_key db)))
      (λ _ _. Evolves-refl db)

refused_or :
    {A : Type 0} (b : Bool) (m : M A) (db : Db)
    → Grows db (m db)
    → Grows db ((raise_if b value_error >> m) db)
refused_or true m db g = tt
refused_or false m db g = g

answer-Grows :
    (digest : Digest) (r : ChargeRequest) (receipt : MockChargeReceipt) (db : Db)
    → Grows db (answer digest r receipt db)
unfolding answer
answer-Grows digest r receipt db =
    refused_or (not (same_text receipt.request_fingerprint (fingerprint digest r))) _ db
      (Evolves-refl db)

require_gateway-Grows : (provider : String) (db : Db) → Grows db (require_gateway provider db)
unfolding require_gateway
require_gateway-Grows provider db = by_test (not (same_text provider "mock"))
  where
    by_test : (b : Bool) → Grows db (raise_if b value_error db)
    by_test true = tt
    by_test false = Evolves-refl db

pub charge-Grows :
    (digest : Digest) (approved : Bool) (charge_id : String) (r : ChargeRequest) (db : Db)
    → Grows db (charge digest approved charge_id r db)
unfolding charge
charge-Grows digest approved charge_id r db =
    Grows-bind (find_or_create digest approved charge_id r) _ db
      (find_or_create-Grows digest approved charge_id r db)
      (λ receipt db' _. answer-Grows digest r receipt db')

charge_and_settle-Keeps :
    (w : World) (pk : ℕ) (a : PaymentAttempt) (db : Db) → Keeps db (charge_and_settle w pk a db)
unfolding charge_and_settle
charge_and_settle-Keeps w pk a db =
    Keeps-bind (atomically (require_gateway a.provider)) _ db
      (Keeps-atomically (require_gateway a.provider) db (require_gateway-Grows a.provider db))
      λ _ known.
        Keeps-bind (atomically (charge w.digest w.approved w.charge_id (charge_request a))) _ known
          (Keeps-atomically (charge w.digest w.approved w.charge_id (charge_request a)) known
            (charge-Grows w.digest w.approved w.charge_id (charge_request a) known))
          λ result charged.
            Keeps-bind
              (atomically (
                settle pk result.success result.provider_response result.provider_charge_id
                  w.settled_at))
              _ charged
              (Keeps-atomically
                (settle pk result.success result.provider_response result.provider_charge_id
                  w.settled_at)
                charged
                (settle-Grows pk result.success result.provider_response result.provider_charge_id
                  w.settled_at charged))
              λ _ settled.
                Keeps-atomically (get (λ db. db.attempts) pk) settled
                  (Grows-get (λ db. db.attempts) pk settled)

charge_pending-Keeps : (w : World) (pk : ℕ) (db : Db) → Keeps db (charge_pending w pk db)
unfolding charge_pending
charge_pending-Keeps w pk db =
    Keeps-bind (atomically (get (λ db. db.attempts) pk)) _ db
      (Keeps-atomically (get (λ db. db.attempts) pk) db (Grows-get (λ db. db.attempts) pk db))
      λ a read. either (is_chargeable a) a read
  where
    either :
        (b : Bool) (a : PaymentAttempt) (read : Db)
        → Keeps read ((if not b then return a else charge_and_settle w pk a) read)
    either true a read = charge_and_settle-Keeps w pk a read
    either false a read = record { evolves = Evolves-refl read }

charge_prepared-Keeps : (w : World) (p : Prepared) (db : Db) → Keeps db (charge_prepared w p db)
charge_prepared-Keeps w (none, _) db = record { evolves = Evolves-refl db }
charge_prepared-Keeps w (some (pk, a), false) db = record { evolves = Evolves-refl db }
charge_prepared-Keeps w (some (pk, a), true) db =
    Keeps-bind (charge_pending w pk) (λ r. return (some r)) db (charge_pending-Keeps w pk db)
      (λ _ done. record { evolves = Evolves-refl done })

refuse_atomic-Keeps : (b : Bool) (db : Db) → Keeps db (refuse_atomic b db)
refuse_atomic-Keeps b db = record { evolves = Evolves-refl db }

pub attempt-Keeps :
    (w : World) (in_atomic_block : Bool) (invoice_pk : ℕ) (key : Option String) (db : Db)
    → Keeps db (attempt w in_atomic_block invoice_pk key db)
unfolding attempt
attempt-Keeps w in_atomic_block invoice_pk key db =
    Keeps-bind (refuse_atomic in_atomic_block) _ db (refuse_atomic-Keeps in_atomic_block db)
      λ _ free.
        Keeps-bind (atomically (prepare invoice_pk key false w.provider_key w.prepared_at)) _ free
          (Keeps-atomically (prepare invoice_pk key false w.provider_key w.prepared_at) free
            (prepare-Grows invoice_pk key false w.provider_key w.prepared_at free))
          (charge_prepared-Keeps w)

pub charge_issued-Keeps :
    (w : World) (in_atomic_block : Bool) (invoice_pk : ℕ) (db : Db)
    → Keeps db (charge_issued w in_atomic_block invoice_pk db)
unfolding charge_issued
charge_issued-Keeps w in_atomic_block invoice_pk db =
    Keeps-bind (refuse_atomic in_atomic_block) _ db (refuse_atomic-Keeps in_atomic_block db)
      λ _ free.
        Keeps-bind (atomically (prepare invoice_pk none true w.provider_key w.prepared_at)) _ free
          (Keeps-atomically (prepare invoice_pk none true w.provider_key w.prepared_at) free
            (prepare-Grows invoice_pk none true w.provider_key w.prepared_at free))
          (charge_prepared-Keeps w)

recover_found-Keeps :
    (w : World) (pk : ℕ) (o : Option PaymentAttempt) (db : Db) → Keeps db (recover_found w pk o db)
recover_found-Keeps w pk none db = record { evolves = Evolves-refl db }
recover_found-Keeps w pk (some a) db =
    Keeps-bind (charge_pending w pk) (λ r. return (some r)) db (charge_pending-Keeps w pk db)
      (λ _ done. record { evolves = Evolves-refl done })

pub recover_pending-Keeps :
    (w : World) (in_atomic_block : Bool) (pk : ℕ) (db : Db)
    → Keeps db (recover_pending w in_atomic_block pk db)
unfolding recover_pending
recover_pending-Keeps w in_atomic_block pk db =
    Keeps-bind (refuse_atomic in_atomic_block) _ db (refuse_atomic-Keeps in_atomic_block db)
      λ _ free. recover_found-Keeps w pk (find_recoverable pk free) free
