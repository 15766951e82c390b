-- ===== src/Settlement/Decides.antt =====
-- `PaymentService.settle` on a sound database: that it goes through, and what it leaves behind.
use chargeflow.Prelude.{
  ℕ, String, Bool, true, false, ◌≡◌, refl, ◌⊎◌, inl, inr, some, Table, lookup, put, any_entry,
  arith, Bool-cases, lookup-put_self, any_entry-none, any_entry-lookup,
}
use chargeflow.Calendar.{DateTime}
use chargeflow.Schema.{
  Fields, PaymentStatus, PaymentAttempt, Subscription, Invoice, InvoiceStatus, invoice_status_in,
  payable_invoice_statuses,
}
use chargeflow.Db.{Db, ok, Result, ◌>>◌}
use chargeflow.Payments.Attempts.{save, other_row, agrees_on_success, is_success}
use chargeflow.Payments.Prepare.{is_chargeable}
use chargeflow.Payments.Settle.{is_other_success}
use chargeflow.Evolution.Unique.{IsUnique}
use chargeflow.Evolution.Sound.{IsSound}
use chargeflow.Settlement.Saves.{
  mark_paid-eq, mark_failed-through, mark_overdue-through, reactivate-through,
}
use chargeflow.Settlement.Written.{
  written, stored_as, success_free, charge_free, written_free, save_sound,
}
use chargeflow.Payments.Settle.{
  write_unapplied, write_status, is_success_of, is_unapplicable, is_pursued, finish_success,
  apply_success, finish_failure, apply_failure,
}
use chargeflow.Invoices
use chargeflow.Subscriptions.Services

-- A transaction that went through and left the attempt `pk` with its result: it will not be charged
-- again.
pub record Decides (pk : ℕ) (r : Result (Unit {0} × Db)) : Type 0 where
  pub after : Db
  pub through : r ≡ ok (tt, after)
  pub attempt : PaymentAttempt
  pub stored : lookup pk after.attempts ≡ some attempt
  pub decided : is_chargeable attempt ≡ false

pub decided_by :
    (pk : ℕ) (old new : PaymentAttempt) (db : Db) (r : Result (Unit {0} × Db))
    → lookup pk db.attempts ≡ some old
    → r ≡ ok (tt, stored_as pk new db)
    → is_chargeable new ≡ false
    → Decides pk r
decided_by pk old new db r has_attempt e decided = record {
  after = stored_as pk new db;
  through = e;
  attempt = new;
  stored = lookup-put_self pk new old db.attempts has_attempt;
  decided = decided;
}

-- A query of the code that found nothing, for the rows that the constraint looks at.
no_other_success :
    (pk : ℕ) (a : PaymentAttempt) (t : Table PaymentAttempt)
    → IsUnique t
    → (charge_id : String) (response : Fields) (flag : Bool)
    → any_entry (is_other_success a.invoice pk) t ≡ false
    → any_entry
        (other_row agrees_on_success pk (written PaymentStatus.success charge_id response flag a))
        t
      ≡ false
unfolding is_other_success
no_other_success pk a t unique charge_id response flag none_paid =
    any_entry-none
      (other_row agrees_on_success pk (written PaymentStatus.success charge_id response flag a)) t
      unique.keyed
      λ k b e.
        let misses = any_entry-lookup (is_other_success a.invoice pk) k b t e none_paid in
        ground arith

module _ (pk : ℕ) (a : PaymentAttempt) (i : Invoice) (s : Subscription) (response : Fields)
    (now : DateTime) (db : Db) (sound : IsSound db) (has_attempt : lookup pk db.attempts ≡ some a)
    (has_invoice : lookup a.invoice db.invoices ≡ some i)
    (has_subscription : lookup i.subscription db.subscriptions ≡ some s)
    (unflagged : a.needs_reconciliation ≡ false) where
  unapplied-Decides : Decides pk (
      save pk
        (written a.status a.provider_charge_id response true a)
        (write_unapplied (written a.status a.provider_charge_id response true a))
        db)
  unfolding is_chargeable
  unapplied-Decides =
      decided_by pk a (written a.status a.provider_charge_id response true a) db _ has_attempt
        (save_sound pk a db sound has_attempt a.status a.provider_charge_id response true _ (
          written_free pk a db sound has_attempt a.status a.provider_charge_id response true
            (success_free pk a db sound has_attempt a.status a.provider_charge_id response true
              (λ b h. h))
            (charge_free pk a db sound has_attempt a.status a.provider_charge_id response true
              (λ b h. h))))
        (ground arith)

  applied-Decides :
      any_entry (is_other_success a.invoice pk) db.attempts ≡ false
      → invoice_status_in i.status payable_invoice_statuses ≡ true
      → Decides pk (
          (save pk
                (written PaymentStatus.success a.provider_charge_id response a.needs_reconciliation
                  a)
                (write_status (
                  written PaymentStatus.success a.provider_charge_id response a.needs_reconciliation
                    a))
              >> (Invoices.mark_paid a.invoice now >> Services.reactivate i.subscription now))
            db)
  unfolding is_chargeable
  applied-Decides alone payable =
      let paid =
        written PaymentStatus.success a.provider_charge_id response a.needs_reconciliation a in
      let saved =
        save_sound pk a db sound has_attempt PaymentStatus.success a.provider_charge_id response
          a.needs_reconciliation (write_status paid)
          (written_free pk a db sound has_attempt PaymentStatus.success a.provider_charge_id
            response a.needs_reconciliation
            (no_other_success pk a db.attempts sound.unique a.provider_charge_id response
              a.needs_reconciliation alone)
            (charge_free pk a db sound has_attempt PaymentStatus.success a.provider_charge_id
              response a.needs_reconciliation (λ b h. h))) in
      let marked = mark_paid-eq a.invoice i now (stored_as pk paid db) has_invoice payable in
      let (t, reactivated) =
        reactivate-through i.subscription s now
          (record (stored_as pk paid db) {
            invoices = put a.invoice (Invoices.stamp InvoiceStatus.paid now i) db.invoices;
          })
          has_subscription in
      record {
        after = record (stored_as pk paid db) {
          invoices = put a.invoice (Invoices.stamp InvoiceStatus.paid now i) db.invoices;
          subscriptions = t;
        };
        through = ground arith;
        attempt = paid;
        stored = lookup-put_self pk paid a db.attempts has_attempt;
        decided = ground arith;
      }

  pub success-Decides : Decides pk (
      apply_success i.subscription s a.invoice i pk
        (record a { provider_response = response })
        now
        db)
  unfolding apply_success finish_success is_unapplicable
  success-Decides = by_test (any_entry (is_other_success a.invoice pk) db.attempts) refl (
      Bool-cases (
        is_unapplicable i.subscription s a.invoice i pk
          (any_entry (is_other_success a.invoice pk) db.attempts)))
    where
      by_test :
          (another : Bool)
          → any_entry (is_other_success a.invoice pk) db.attempts ≡ another
          → (is_unapplicable i.subscription s a.invoice i pk another ≡ true)
            ⊎ (is_unapplicable i.subscription s a.invoice i pk another ≡ false)
          → Decides pk (
              finish_success i.subscription s a.invoice i pk another
                (record a { provider_response = response })
                now
                db)
      by_test another e (inl late) = rw late unapplied-Decides
      by_test another e (inr due) = rw due (applied-Decides (ground arith) (ground arith))

  pub failure-Decides :
      is_success a.status ≡ false
      → Decides pk (
          apply_failure i.subscription s a.invoice i pk
            (record a { provider_response = response })
            now
            db)
  unfolding apply_failure finish_failure is_chargeable
  failure-Decides unpaid =
      let failed =
        written PaymentStatus.failed a.provider_charge_id response a.needs_reconciliation a in
      let saved =
        save_sound pk a db sound has_attempt PaymentStatus.failed a.provider_charge_id response
          a.needs_reconciliation (write_status failed)
          (written_free pk a db sound has_attempt PaymentStatus.failed a.provider_charge_id response
            a.needs_reconciliation
            (success_free pk a db sound has_attempt PaymentStatus.failed a.provider_charge_id
              response a.needs_reconciliation (λ b h. ground arith))
            (charge_free pk a db sound has_attempt PaymentStatus.failed a.provider_charge_id
              response a.needs_reconciliation (λ b h. h))) in
      let (t, marked) = mark_failed-through a.invoice i now (stored_as pk failed db) has_invoice in
      let (u, overdue) =
        mark_overdue-through i.subscription s now (record (stored_as pk failed db) { invoices = t })
          has_subscription in
      elim (Bool-cases (
        is_pursued i.subscription s a.invoice i pk
          (any_entry (is_success_of a.invoice) (put pk failed db.attempts)))) [
            | inl pursued ↦ record {
              after = record (stored_as pk failed db) { invoices = t; subscriptions = u };
              through = ground arith;
              attempt = failed;
              stored = lookup-put_self pk failed a db.attempts has_attempt;
              decided = ground arith;
            }
            | inr dropped ↦ decided_by pk a failed db _ has_attempt (ground arith) (ground arith)
          ]
