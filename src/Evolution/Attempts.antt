-- ===== src/Evolution/Attempts.antt =====
-- The relation for `clean` and `save` of payments/domain/models.py.
use chargeflow.Prelude.{
  ℕ, String, Bool, true, not, ◌&&◌, ◌≡◌, refl, Option, none, some, lookup, put, arith, is_blank,
  lookup-put_self, inl, inr,
}
use chargeflow.Schema.{Fields, PaymentAttempt}
use chargeflow.Db.{Db, Constraint, Error, ok, M, pure, >>-eq-ok, handle-eq-ok, if-eq, handle}
use chargeflow.Payments.Attempts.{clean, update, save, conflict, or_none}
use chargeflow.Payments.Settle.{
  write_flag, write_charge_id, write_unapplied, write_status, taken_response, is_unbound, claim,
  refuse, on_taken, bind_charge_id,
}
use chargeflow.Evolution.Rows.{AttemptLe, status_le}
use chargeflow.Evolution.Writes.{update_attempt-Evolves}
use chargeflow.Evolution.Rules.{
  Evolves-refl, Grows, Grows-bind, Grows-if, Grows-handle, Grows-intro,
}

clean-eq-ok :
    (pk : ℕ) (self : PaymentAttempt) (db : Db) {u : Unit {0}} {db' : Db}
    → clean pk self db ≡ ok (u, db')
    → db' ≡ db
unfolding clean
clean-eq-ok pk self db h = ground arith

update-eq-ok :
    (pk : ℕ) (write : PaymentAttempt → PaymentAttempt) (db : Db) (row : PaymentAttempt)
    → lookup pk db.attempts ≡ some row
    → {u : Unit {0}} {db' : Db} → update pk write db ≡ ok (u, db')
    → (conflict db.attempts pk (write row) ≡ none)
      × (db' ≡ record db { attempts = put pk (write row) db.attempts })
unfolding update
update-eq-ok pk write db row e h = ground arith

-- A `save` that went through has written its columns into the stored row and nothing else, and the
-- new row violates no constraint.
pub save-eq-ok :
    (pk : ℕ) (self : PaymentAttempt) (write : PaymentAttempt → PaymentAttempt) (db : Db)
    (row : PaymentAttempt)
    → lookup pk db.attempts ≡ some row
    → {u : Unit {0}} {db' : Db} → save pk self write db ≡ ok (u, db')
    → (conflict db.attempts pk (write row) ≡ none)
      × (db' ≡ record db { attempts = put pk (write row) db.attempts })
unfolding save
save-eq-ok pk self write db row e h =
    let (u, between, cleaned, updated) =
      >>-eq-ok (clean pk (record self { idempotency_key = or_none self.idempotency_key }))
        (update pk write) db h in
    update-eq-ok pk write db row e (rw (clean-eq-ok pk _ db cleaned) at updated)

pub save-Grows :
    (pk : ℕ) (self : PaymentAttempt) (write : PaymentAttempt → PaymentAttempt) (db : Db)
    (row : PaymentAttempt)
    → lookup pk db.attempts ≡ some row
    → AttemptLe row (write row)
    → Grows db (save pk self write db)
save-Grows pk self write db row e h = Grows-intro db _ λ u db' saved.
    let (free, same) = save-eq-ok pk self write db row e saved in
    rw same (update_attempt-Evolves db pk row (write row) e h free)

-- The object `a` and the stored row agree but for the response.
pub record Holds (pk : ℕ) (a : PaymentAttempt) (db : Db) : Type 0 where
  pub row : PaymentAttempt
  pub stored : lookup pk db.attempts ≡ some row
  pub status : row.status ≡ a.status
  pub charge_id : row.provider_charge_id ≡ a.provider_charge_id
  pub flag : row.needs_reconciliation ≡ a.needs_reconciliation

-- The four writes of `settle`.
pub flag-AttemptLe :
    (self row : PaymentAttempt)
    → self.needs_reconciliation ≡ true
    → AttemptLe row (write_flag self row)
flag-AttemptLe self row h = ground arith

charge_id-AttemptLe :
    (self row : PaymentAttempt)
    → is_blank row.provider_charge_id ≡ true
    → AttemptLe row (write_charge_id self row)
charge_id-AttemptLe self row h = ground arith

pub unapplied-AttemptLe :
    (self row : PaymentAttempt)
    → row.provider_charge_id ≡ self.provider_charge_id
    → self.needs_reconciliation ≡ true
    → AttemptLe row (write_unapplied self row)
unapplied-AttemptLe self row c h = ground arith

pub status-AttemptLe :
    (self row : PaymentAttempt)
    → row.provider_charge_id ≡ self.provider_charge_id
    → status_le row.status self.status ≡ true
    → AttemptLe row (write_status self row)
status-AttemptLe self row c h = ground arith

and_right : (b c : Bool) → b && c ≡ true → c ≡ true
and_right b c h = ground arith

on_taken-Grows :
    (m : M (Option PaymentAttempt)) (e : Error) (db : Db)
    → Grows db (m db)
    → Grows db (on_taken m e db)
on_taken-Grows m (Error.integrity_error Constraint.unique_provider_charge) db g = g
on_taken-Grows m _ db g = tt

claim-Grows :
    (pk : ℕ) (a : PaymentAttempt) (incoming : String) (db : Db)
    → Holds pk a db
    → is_unbound a incoming ≡ true
    → Grows db (claim pk a incoming db)
unfolding claim is_unbound
claim-Grows pk a incoming db h free =
    let claimed = record a { provider_charge_id = incoming } in
    Grows-bind (save pk claimed (write_charge_id claimed)) _ db
      (save-Grows pk claimed (write_charge_id claimed) db h.row h.stored (
        charge_id-AttemptLe claimed h.row (
          rw h.charge_id
            (and_right (not (is_blank incoming)) (is_blank a.provider_charge_id) free))))
      (λ _ saved _. Evolves-refl saved)

refuse-Grows :
    (pk : ℕ) (a : PaymentAttempt) (response : Fields) (incoming : String) (db : Db)
    → Holds pk a db
    → Grows db (refuse pk a response incoming db)
unfolding refuse
refuse-Grows pk a response incoming db h =
    let refused = record a {
      provider_charge_id = "";
      provider_response = taken_response response incoming;
      needs_reconciliation = true;
    } in
    Grows-bind (save pk refused (write_flag refused)) _ db
      (save-Grows pk refused (write_flag refused) db h.row h.stored
        (flag-AttemptLe refused h.row refl))
      (λ _ saved _. Evolves-refl saved)

pub bind_charge_id-Grows :
    (pk : ℕ) (a : PaymentAttempt) (response : Fields) (incoming : String) (db : Db)
    → Holds pk a db
    → Grows db (bind_charge_id pk a response incoming db)
unfolding bind_charge_id
bind_charge_id-Grows pk a response incoming db h =
    Grows-if (is_unbound a incoming)
      (handle (claim pk a incoming) (on_taken (refuse pk a response incoming))) (pure (some a)) db
      (λ free.
        Grows-handle (claim pk a incoming) (on_taken (refuse pk a response incoming)) db
          (claim-Grows pk a incoming db h free)
          (λ e _.
            on_taken-Grows (refuse pk a response incoming) e db
              (refuse-Grows pk a response incoming db h)))
      (λ _. Evolves-refl db)

-- A claim that went through returns the object with the name, and has stored the name.
claim-Holds :
    (pk : ℕ) (a : PaymentAttempt) (incoming : String) (db : Db)
    → Holds pk a db
    → {b : PaymentAttempt} {db' : Db} → claim pk a incoming db ≡ ok (some b, db')
    → Holds pk b db' × (b.status ≡ a.status)
unfolding claim
claim-Holds pk a incoming db h {b} {db'} e =
    let (u, saved, went, rest) =
      >>-eq-ok (save pk claimed (write_charge_id claimed)) (pure (some claimed)) db e in
    let (_, same) = save-eq-ok pk claimed (write_charge_id claimed) db h.row h.stored went in
    let object : b ≡ claimed = ground arith in
    let after : db' ≡ record db { attempts = put pk (write_charge_id claimed h.row) db.attempts } =
      ground arith in
    rw (object, after) (holds, refl)
  where
    claimed : PaymentAttempt
    claimed = record a { provider_charge_id = incoming }

    holds :
        Holds pk claimed
          (record db { attempts = put pk (write_charge_id claimed h.row) db.attempts })
    holds = record {
      row = write_charge_id claimed h.row;
      stored = lookup-put_self pk (write_charge_id claimed h.row) h.row db.attempts h.stored;
      status = h.status;
      charge_id = refl;
      flag = h.flag;
    }

refuse-ne-some :
    (pk : ℕ) (a : PaymentAttempt) (response : Fields) (incoming : String) (e : Error) (db : Db)
    {b : PaymentAttempt} {db' : Db}
    → on_taken (refuse pk a response incoming) e db ≡ ok (some b, db')
    → ⊥
unfolding refuse
refuse-ne-some pk a response incoming (Error.integrity_error Constraint.unique_provider_charge) db
      h =
    let refused = record a {
      provider_charge_id = "";
      provider_response = taken_response response incoming;
      needs_reconciliation = true;
    } in
    let (u, saved, went, rest) = >>-eq-ok (save pk refused (write_flag refused)) (pure none) db h in
    cc rest
refuse-ne-some pk a response incoming _ db h = cc h

-- Once the charge's name is bound, the rest of `settle` still works on the stored row.
pub bind_charge_id-Holds :
    (pk : ℕ) (a : PaymentAttempt) (response : Fields) (incoming : String) (db : Db)
    → Holds pk a db
    → {b : PaymentAttempt} {db' : Db} → bind_charge_id pk a response incoming db ≡ ok (some b, db')
    → Holds pk b db' × (b.status ≡ a.status)
unfolding bind_charge_id
bind_charge_id-Holds pk a response incoming db h {b} {db'} e =
    elim (if-eq (is_unbound a incoming)
      (handle (claim pk a incoming) (on_taken (refuse pk a response incoming))) (pure (some a)) db
      e) [
        | inl (free, went) ↦
            elim (handle-eq-ok (claim pk a incoming) (on_taken (refuse pk a response incoming)) db
              went) [
                | inl claimed ↦ claim-Holds pk a incoming db h claimed
                | inr (x, _, refused) ↦ absurd (refuse-ne-some pk a response incoming x db refused)
              ]
        | inr (bound, same) ↦
            let object : b ≡ a = ground arith in
            let after : db' ≡ db = ground arith in rw (object, after) (h, refl)
      ]
