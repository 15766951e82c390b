-- ===== src/Evolution/Settle.antt =====
-- The relation for `PaymentService.settle`.
use chargeflow.Prelude.{
  ℕ, String, Bool, true, false, not, ◌&&◌, ◌≡◌, refl, Option, none, some, lookup, any_entry, arith,
}
use chargeflow.Calendar.{DateTime}
use chargeflow.Schema.{
  Fields, PaymentStatus, PaymentAttempt, same_payment_status, Subscription, Invoice,
}
use chargeflow.Db.{Db, ok, pure, ◌>>◌}
use chargeflow.Invoices
use chargeflow.Subscriptions.Services
use chargeflow.Payments.Attempts.{save}
use chargeflow.Payments.Settle.{
  write_flag, write_unapplied, write_status, is_final, is_mismatch, incoming_charge_id,
  mismatch_response, apply_bound, settle_open, settle_matching, is_other_success, is_success_of,
  bind_charge_id, is_unapplicable, is_pursued, finish_success, apply_success, finish_failure,
  apply_failure, apply_result, settle_locked, settle,
}
use chargeflow.Evolution.Rows.{status_le}
use chargeflow.Evolution.Rules.{Evolves-refl, Grows, Grows-bind, Grows-if, Grows-get_bind}
use chargeflow.Evolution.Invoices.{mark_paid-Grows, mark_failed-Grows}
use chargeflow.Evolution.Subscriptions.{mark_overdue-Grows, reactivate-Grows}
use chargeflow.Evolution.Attempts.{
  Holds, save-Grows, flag-AttemptLe, unapplied-AttemptLe, status-AttemptLe, bind_charge_id-Grows,
  bind_charge_id-Holds,
}

to_success : (s : PaymentStatus) → status_le s PaymentStatus.success ≡ true
to_success s = ground arith

to_failed :
    (s : PaymentStatus)
    → same_payment_status s PaymentStatus.success ≡ false
    → status_le s PaymentStatus.failed ≡ true
to_failed s h = ground arith

module _ (subscription_pk : ℕ) (s : Subscription) (invoice_pk : ℕ) (invoice : Invoice)
    (pk : ℕ) where
  finish_success-Grows :
      (another : Bool) (a : PaymentAttempt) (now : DateTime) (db : Db)
      → Holds pk a db
      → Grows db (finish_success subscription_pk s invoice_pk invoice pk another a now db)
  unfolding finish_success
  finish_success-Grows another a now db h =
      let flagged = record a { needs_reconciliation = true } in
      let paid = record a { status = PaymentStatus.success } in
      Grows-if (is_unapplicable subscription_pk s invoice_pk invoice pk another)
        (save pk flagged (write_unapplied flagged))
        (save pk paid (write_status paid)
          >> (Invoices.mark_paid invoice_pk now >> Services.reactivate subscription_pk now))
        db
        (λ _.
          save-Grows pk flagged (write_unapplied flagged) db h.row h.stored
            (unapplied-AttemptLe flagged h.row h.charge_id refl))
        (λ _.
          Grows-bind (save pk paid (write_status paid)) _ db
            (save-Grows pk paid (write_status paid) db h.row h.stored
              (status-AttemptLe paid h.row h.charge_id (to_success h.row.status)))
            (λ _ saved _.
              Grows-bind (Invoices.mark_paid invoice_pk now) _ saved
                (mark_paid-Grows invoice_pk now saved)
                (λ _ settled _. reactivate-Grows subscription_pk now settled)))

  apply_success-Grows :
      (a : PaymentAttempt) (now : DateTime) (db : Db)
      → Holds pk a db
      → Grows db (apply_success subscription_pk s invoice_pk invoice pk a now db)
  unfolding apply_success
  apply_success-Grows a now db h =
      finish_success-Grows (any_entry (is_other_success invoice_pk pk) db.attempts) a now db h

  finish_failure-Grows :
      (paid : Bool) (now : DateTime) (db : Db)
      → Grows db (finish_failure subscription_pk s invoice_pk invoice pk paid now db)
  unfolding finish_failure
  finish_failure-Grows paid now db =
      Grows-if (is_pursued subscription_pk s invoice_pk invoice pk paid)
        (Invoices.mark_failed invoice_pk now >> Services.mark_overdue subscription_pk now) (pure tt)
        db
        (λ _.
          Grows-bind (Invoices.mark_failed invoice_pk now) _ db
            (mark_failed-Grows invoice_pk now db)
            (λ _ marked _. mark_overdue-Grows subscription_pk now marked))
        (λ _. Evolves-refl db)

  apply_failure-Grows :
      (a : PaymentAttempt) (now : DateTime) (db : Db)
      → Holds pk a db
      → same_payment_status a.status PaymentStatus.success ≡ false
      → Grows db (apply_failure subscription_pk s invoice_pk invoice pk a now db)
  unfolding apply_failure
  apply_failure-Grows a now db h unpaid =
      let failed = record a { status = PaymentStatus.failed } in
      Grows-bind (save pk failed (write_status failed)) _ db
        (save-Grows pk failed (write_status failed) db h.row h.stored
          (status-AttemptLe failed h.row h.charge_id (to_failed h.row.status (rw h.status unpaid))))
        (λ _ saved _.
          finish_failure-Grows (any_entry (is_success_of invoice_pk) saved.attempts) now saved)

  apply_result-Grows :
      (a : PaymentAttempt) (success : Bool) (now : DateTime) (db : Db)
      → Holds pk a db
      → same_payment_status a.status PaymentStatus.success ≡ false
      → Grows db (apply_result subscription_pk s invoice_pk invoice pk a success now db)
  unfolding apply_result
  apply_result-Grows a success now db h unpaid =
      Grows-if (not success && same_payment_status a.status PaymentStatus.failed) _ _ db
        (λ _. Evolves-refl db)
        (λ _.
          Grows-if success _ _ db (λ _. apply_success-Grows a now db h)
            (λ _. apply_failure-Grows a now db h unpaid))

not_final :
    (a : PaymentAttempt)
    → is_final a ≡ false
    → same_payment_status a.status PaymentStatus.success ≡ false
unfolding is_final
not_final a h = ground arith

module _ (subscription_pk : ℕ) (s : Subscription) (invoice_pk : ℕ) (invoice : Invoice)
    (pk : ℕ) where
  settle_open-Grows :
      (a : PaymentAttempt) (success : Bool) (response : Fields) (incoming : String) (now : DateTime)
      (db : Db)
      → lookup pk db.attempts ≡ some a
      → Grows db
          (settle_open subscription_pk s invoice_pk invoice pk a success response incoming now db)
  unfolding settle_open
  settle_open-Grows a success response incoming now db e =
      let a' = record a { provider_response = response } in
      let holds : Holds pk a' db = record {
        row = a;
        stored = e;
        status = refl;
        charge_id = refl;
        flag = refl;
      } in
      Grows-if (is_final a) _ _ db (λ _. Evolves-refl db)
        (λ open_still.
          Grows-bind (bind_charge_id pk a' response incoming) _ db
            (bind_charge_id-Grows pk a' response incoming db holds)
            (λ o db' bound. bound_rest o db' holds open_still bound))
    where
      bound_rest :
          (o : Option PaymentAttempt) (db' : Db)
          → Holds pk (record a { provider_response = response }) db
          → is_final a ≡ false
          → bind_charge_id pk (record a { provider_response = response }) response incoming db
            ≡ ok (o, db')
          → Grows db' (apply_bound subscription_pk s invoice_pk invoice pk success now o db')
      bound_rest none db' holds still bound = Evolves-refl db'
      bound_rest (some b) db' holds still bound =
          let (holds', status) =
            bind_charge_id-Holds pk (record a { provider_response = response }) response incoming db
              holds bound in
          apply_result-Grows subscription_pk s invoice_pk invoice pk b success now db' holds'
            (rw status (not_final a still))

  settle_matching-Grows :
      (a : PaymentAttempt) (success : Bool) (response : Fields) (incoming : String) (now : DateTime)
      (db : Db)
      → lookup pk db.attempts ≡ some a
      → Grows db (
          settle_matching subscription_pk s invoice_pk invoice pk a success response incoming now
            db)
  unfolding settle_matching
  settle_matching-Grows a success response incoming now db e =
      let flagged = record a {
        needs_reconciliation = true;
        provider_response = mismatch_response a response incoming;
      } in
      Grows-if (is_mismatch a incoming) _ _ db
        (λ _. save-Grows pk flagged (write_flag flagged) db a e (flag-AttemptLe flagged a refl))
        (λ _. settle_open-Grows a success response incoming now db e)

  settle_locked-Grows :
      (a : PaymentAttempt) (success : Bool) (response : Fields) (incoming : String) (now : DateTime)
      (db : Db)
      → lookup pk db.attempts ≡ some a
      → Grows db
          (settle_locked subscription_pk s invoice_pk invoice pk a success response incoming now db)
  unfolding settle_locked
  settle_locked-Grows a success response incoming now db e =
      Grows-if (not success && is_final a) _ _ db (λ _. Evolves-refl db)
        (λ _. settle_matching-Grows a success response incoming now db e)

pub settle-Grows :
    (pk : ℕ) (success : Bool) (response : Fields) (charge_id : String) (now : DateTime) (db : Db)
    → Grows db (settle pk success response charge_id now db)
unfolding settle
settle-Grows pk success response charge_id now db =
    Grows-get_bind (λ db. db.attempts) pk _ db
      λ found e.
        Grows-get_bind (λ db. db.invoices) found.invoice _ db
          λ found_invoice _.
            Grows-get_bind (λ db. db.subscriptions) found_invoice.subscription _ db
              λ s _.
                Grows-get_bind (λ db. db.invoices) found.invoice _ db
                  λ invoice _.
                    Grows-get_bind (λ db. db.attempts) pk _ db
                      λ a e'.
                        settle_locked-Grows found_invoice.subscription s found.invoice invoice pk a
                          success response (incoming_charge_id charge_id response) now db e'
