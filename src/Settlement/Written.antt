-- ===== src/Settlement/Written.antt =====
-- The `save`s of `PaymentService.settle` on a sound database: which constraints they can violate.
use chargeflow.Prelude.{
  ℕ, String, Bool, true, false, ◌≡◌, sym, none, some, lookup, put, any_entry, arith,
}
use chargeflow.Schema.{Fields, PaymentStatus, PaymentAttempt}
use chargeflow.Db.{Db, ok, err, Constraint, Error}
use chargeflow.Payments.Attempts.{
  conflict, save, other_row, agrees_on_success, agrees_on_charge, agrees_on_key,
  agrees_on_provider_key,
}
use chargeflow.Evolution.Unique.{IsFree-conflict, unchanged}
use chargeflow.Evolution.Sound.{IsSound}
use chargeflow.Settlement.Saves.{save-eq, save-refused, snapshot-kept}

-- A stored attempt `a` with other values in the columns that `settle` writes.
abbrev pub written : PaymentStatus → String → Fields → Bool → PaymentAttempt → PaymentAttempt
written status charge_id response flag a = record a {
  status = status;
  provider_charge_id = charge_id;
  provider_response = response;
  needs_reconciliation = flag;
}

abbrev pub stored_as : ℕ → PaymentAttempt → Db → Db
stored_as pk a db = record db { attempts = put pk a db.attempts }

module _ (pk : ℕ) (a : PaymentAttempt) (db : Db) (sound : IsSound db)
    (has_attempt : lookup pk db.attempts ≡ some a) (status : PaymentStatus) (charge_id : String)
    (response : Fields) (flag : Bool) where
  key_free :
      any_entry (other_row agrees_on_key pk (written status charge_id response flag a)) db.attempts
      ≡ false
  key_free =
      unchanged agrees_on_key db.attempts pk a (written status charge_id response flag a)
        sound.unique.keyed sound.unique.key has_attempt (λ b h. h)

  provider_key_free :
      any_entry
        (other_row agrees_on_provider_key pk (written status charge_id response flag a))
        db.attempts
      ≡ false
  provider_key_free =
      unchanged agrees_on_provider_key db.attempts pk a (written status charge_id response flag a)
        sound.unique.keyed sound.unique.provider_key has_attempt (λ b h. h)

  -- No second success, unless the write makes one.
  pub success_free :
      ((b : PaymentAttempt)
        → agrees_on_success (written status charge_id response flag a) b ≡ true
        → agrees_on_success a b ≡ true)
      → any_entry
          (other_row agrees_on_success pk (written status charge_id response flag a))
          db.attempts
        ≡ false
  success_free less =
      unchanged agrees_on_success db.attempts pk a (written status charge_id response flag a)
        sound.unique.keyed sound.unique.success has_attempt less

  pub charge_free :
      ((b : PaymentAttempt)
        → agrees_on_charge (written status charge_id response flag a) b ≡ true
        → agrees_on_charge a b ≡ true)
      → any_entry
          (other_row agrees_on_charge pk (written status charge_id response flag a))
          db.attempts
        ≡ false
  charge_free less =
      unchanged agrees_on_charge db.attempts pk a (written status charge_id response flag a)
        sound.unique.keyed sound.unique.charge has_attempt less

  pub written_free :
      any_entry
          (other_row agrees_on_success pk (written status charge_id response flag a))
          db.attempts
        ≡ false
      → any_entry
          (other_row agrees_on_charge pk (written status charge_id response flag a))
          db.attempts
        ≡ false
      → conflict db.attempts pk (written status charge_id response flag a) ≡ none
  written_free success charge =
      IsFree-conflict db.attempts pk (written status charge_id response flag a) (record {
        key = key_free;
        success = success;
        provider_key = provider_key_free;
        charge = charge;
      })

  pub written_taken :
      any_entry
          (other_row agrees_on_success pk (written status charge_id response flag a))
          db.attempts
        ≡ false
      → any_entry
          (other_row agrees_on_charge pk (written status charge_id response flag a))
          db.attempts
        ≡ true
      → conflict db.attempts pk (written status charge_id response flag a)
        ≡ some Constraint.unique_provider_charge
  unfolding conflict
  written_taken success charge = ground (arith, key_free, provider_key_free)

  -- A `save` of the object `written ...` by any of the `update_fields` of `settle`.
  pub save_sound :
      (write : PaymentAttempt → PaymentAttempt)
      → conflict db.attempts pk (write a) ≡ none
      → save pk (written status charge_id response flag a) write db
        ≡ ok (tt, stored_as pk (write a) db)
  save_sound write free =
      let row = sound.attempts.at pk a has_attempt in
      save-eq pk a (written status charge_id response flag a) row.invoice.parent write db
        has_attempt row.invoice.stored (sym row.invoice.same_organization)
        (snapshot-kept a status charge_id response flag row.key) free

  pub save-taken :
      (write : PaymentAttempt → PaymentAttempt) (c : Constraint)
      → conflict db.attempts pk (write a) ≡ some c
      → save pk (written status charge_id response flag a) write db ≡ err (Error.integrity_error c)
  save-taken write c taken =
      let row = sound.attempts.at pk a has_attempt in
      save-refused pk a (written status charge_id response flag a) row.invoice.parent write db c
        has_attempt row.invoice.stored (sym row.invoice.same_organization)
        (snapshot-kept a status charge_id response flag row.key) taken
