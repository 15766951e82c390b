-- ===== src/Settlement/Total.antt =====
-- The whole of `PaymentService.settle` on a sound database.
use chargeflow.Prelude.{
  ℕ, String, Bool, true, false, not, ◌&&◌, ◌≡◌, refl, ◌⊎◌, inl, inr, none, some, lookup, any_entry,
  arith, Bool-cases, is_blank, lookup-put_self,
}
use chargeflow.Calendar.{DateTime}
use chargeflow.Schema.{Fields, PaymentAttempt, Subscription, Invoice}
use chargeflow.Db.{Db, ok, Constraint, ◌>>=◌}
use chargeflow.Payments.Attempts.{conflict, save, other_row, agrees_on_charge, agrees_on_success}
use chargeflow.Payments.Prepare.{is_chargeable}
use chargeflow.Payments.Settle.{
  is_final, is_mismatch, is_unbound, mismatch_response, taken_response, write_flag, write_charge_id,
  claim, refuse, bind_charge_id, apply_bound, apply_result, settle_open, settle_matching,
  settle_locked, settle, incoming_charge_id,
}
use chargeflow.Evolution.Sound.{IsSound, update_attempt-IsSound}
use chargeflow.Settlement.{settle-locked}
use chargeflow.Settlement.Written.{
  written, stored_as, success_free, charge_free, written_free, written_taken, save_sound,
  save-taken,
}
use chargeflow.Settlement.Decides.{Decides, decided_by}
use chargeflow.Settlement.Results.{result-Decides}

module _ (pk : ℕ) (a : PaymentAttempt) (i : Invoice) (s : Subscription) (now : DateTime) (db : Db)
    (sound : IsSound db) (has_attempt : lookup pk db.attempts ≡ some a)
    (has_invoice : lookup a.invoice db.invoices ≡ some i)
    (has_subscription : lookup i.subscription db.subscriptions ≡ some s) where
  -- The flag, whichever charge's name the object has.
  flag-Decides :
      (charge_id : String) (response : Fields)
      → Decides pk (
          save pk
            (written a.status charge_id response true a)
            (write_flag (written a.status charge_id response true a))
            db)
  unfolding is_chargeable
  flag-Decides charge_id response =
      decided_by pk a (written a.status a.provider_charge_id response true a) db _ has_attempt
        (save_sound pk a db sound has_attempt a.status charge_id response true _ (
          written_free pk a db sound has_attempt a.status a.provider_charge_id response true
            (success_free pk a db sound has_attempt a.status a.provider_charge_id response true
              (λ b h. h))
            (charge_free pk a db sound has_attempt a.status a.provider_charge_id response true
              (λ b h. h))))
        (ground arith)

  final-Decides : is_final a ≡ true → Decides pk (ok (tt, db))
  unfolding is_final is_chargeable
  final-Decides final = record {
    after = db;
    through = refl;
    attempt = a;
    stored = has_attempt;
    decided = ground arith;
  }

  module _ (success : Bool) (response : Fields) (incoming : String)
      (unfinal : is_final a ≡ false) where
    claimed : PaymentAttempt
    claimed = written a.status incoming response a.needs_reconciliation a

    one_success : any_entry (other_row agrees_on_success pk claimed) db.attempts ≡ false
    unfolding claimed
    one_success =
        success_free pk a db sound has_attempt a.status incoming response a.needs_reconciliation
          (λ b h. h)

    claimed-Decides :
        is_blank a.provider_charge_id ≡ true
        → conflict db.attempts pk claimed ≡ none
        → Decides pk (
            apply_result i.subscription s a.invoice i pk claimed success now
              (stored_as pk claimed db))
    unfolding claimed is_final
    claimed-Decides unnamed free =
        result-Decides pk claimed i s response success now (stored_as pk claimed db)
          (update_attempt-IsSound db sound pk a claimed has_attempt (ground arith) free)
          (lookup-put_self pk claimed a db.attempts has_attempt) has_invoice has_subscription
          unfinal

    -- The name is new, or another attempt has it.
    unbound-Decides :
        is_unbound a incoming ≡ true
        → Decides pk (
            (bind_charge_id pk (record a { provider_response = response }) response incoming
                >>= apply_bound i.subscription s a.invoice i pk success now)
              db)
    unfolding bind_charge_id claim refuse claimed is_unbound
    unbound-Decides unbound =
        elim (Bool-cases (any_entry (other_row agrees_on_charge pk claimed) db.attempts)) [
          | inl taken ↦
              let clash =
                written_taken pk a db sound has_attempt a.status incoming response
                  a.needs_reconciliation one_success taken in
              let refused =
                save-taken pk a db sound has_attempt a.status incoming response
                  a.needs_reconciliation (write_charge_id claimed) Constraint.unique_provider_charge
                  clash in
              let flagged = flag-Decides "" (taken_response response incoming) in
              record {
                after = flagged.after;
                through = let e = flagged.through in ground arith;
                attempt = flagged.attempt;
                stored = flagged.stored;
                decided = flagged.decided;
              }
          | inr free_name ↦
              let free =
                written_free pk a db sound has_attempt a.status incoming response
                  a.needs_reconciliation one_success free_name in
              let saved =
                save_sound pk a db sound has_attempt a.status incoming response
                  a.needs_reconciliation (write_charge_id claimed) free in
              let applied = claimed-Decides (ground arith) free in
              record {
                after = applied.after;
                through = let e = applied.through in ground arith;
                attempt = applied.attempt;
                stored = applied.stored;
                decided = applied.decided;
              }
        ]

    open-Decides :
        Decides pk (settle_open i.subscription s a.invoice i pk a success response incoming now db)
    unfolding settle_open bind_charge_id
    open-Decides = elim (Bool-cases (is_unbound a incoming)) [
      | inl unbound ↦ rw unfinal (unbound-Decides unbound)
      | inr bound ↦
          let applied =
            result-Decides pk a i s response success now db sound has_attempt has_invoice
              has_subscription unfinal in
          record {
            after = applied.after;
            through = let e = applied.through in let u = unbound_kept bound in ground arith;
            attempt = applied.attempt;
            stored = applied.stored;
            decided = applied.decided;
          }
    ]
      where
        unbound_kept :
            is_unbound a incoming ≡ false
            → is_unbound (record a { provider_response = response }) incoming ≡ false
        unbound_kept h = unfold is_unbound in h

  matching-Decides :
      (success : Bool) (response : Fields) (incoming : String)
      → Decides pk
          (settle_matching i.subscription s a.invoice i pk a success response incoming now db)
  unfolding settle_matching
  matching-Decides success response incoming =
      by_test (Bool-cases (is_mismatch a incoming)) (Bool-cases (is_final a))
    where
      by_test :
          (is_mismatch a incoming ≡ true) ⊎ (is_mismatch a incoming ≡ false)
          → (is_final a ≡ true) ⊎ (is_final a ≡ false)
          → Decides pk
              (settle_matching i.subscription s a.invoice i pk a success response incoming now db)
      by_test (inl differs) _ =
          unfold settle_matching in
          rw differs (flag-Decides a.provider_charge_id (mismatch_response a response incoming))
      by_test (inr agrees) (inl final) =
          unfold settle_matching settle_open in rw (agrees, final) (final-Decides final)
      by_test (inr agrees) (inr unfinal) =
          unfold settle_matching in rw agrees (open-Decides success response incoming unfinal)

  locked-Decides :
      (success : Bool) (response : Fields) (incoming : String)
      → Decides pk
          (settle_locked i.subscription s a.invoice i pk a success response incoming now db)
  unfolding settle_locked
  locked-Decides success response incoming = by_test (Bool-cases (not success && is_final a))
    where
      by_test :
          (not success && is_final a ≡ true) ⊎ (not success && is_final a ≡ false)
          → Decides pk
              (settle_locked i.subscription s a.invoice i pk a success response incoming now db)
      by_test (inl late) = unfold settle_locked in rw late (final-Decides (ground arith))
      by_test (inr due) =
          unfold settle_locked in rw due (matching-Decides success response incoming)

-- On a sound database, settle of an attempt that exists always goes through, whatever result it is
-- given, and leaves the attempt decided: it has succeeded, failed or is flagged, and no call charges
-- it again.
pub settle-Decides :
    (db : Db) (pk : ℕ) (a : PaymentAttempt)
    → IsSound db
    → lookup pk db.attempts ≡ some a
    → (success : Bool) (response : Fields) (charge_id : String) (now : DateTime)
    → Decides pk (settle pk success response charge_id now db)
settle-Decides db pk a sound has_attempt success response charge_id now =
    let invoice = (sound.attempts.at pk a has_attempt).invoice in
    let subscription = sound.invoices.at a.invoice invoice.parent invoice.stored in
    let i = invoice.parent in
    let s = subscription.parent in
    rw
      (settle-locked db pk a i s has_attempt invoice.stored subscription.stored success response
        charge_id now)
      (locked-Decides pk a i s now db sound has_attempt invoice.stored subscription.stored success
        response (incoming_charge_id charge_id response))
