-- ===== src/Settlement/Results.antt =====
-- A result of `PaymentService.settle`, from the test for a repeated failure.
use chargeflow.Prelude.{
  ℕ, Bool, true, false, not, ◌&&◌, ◌≡◌, ◌⊎◌, inl, inr, some, lookup, arith, Bool-cases,
}
use chargeflow.Calendar.{DateTime}
use chargeflow.Schema.{
  Fields, PaymentStatus, PaymentAttempt, same_payment_status, Subscription, Invoice,
}
use chargeflow.Db.{Db}
use chargeflow.Payments.Attempts.{is_success}
use chargeflow.Payments.Prepare.{is_chargeable}
use chargeflow.Payments.Settle.{is_final}
use chargeflow.Evolution.Sound.{IsSound}
use chargeflow.Payments.Settle.{apply_result}
use chargeflow.Settlement.Decides.{Decides, success-Decides, failure-Decides}

module _ (pk : ℕ) (a : PaymentAttempt) (i : Invoice) (s : Subscription) (response : Fields)
    (success : Bool) (now : DateTime) (db : Db) (sound : IsSound db)
    (has_attempt : lookup pk db.attempts ≡ some a)
    (has_invoice : lookup a.invoice db.invoices ≡ some i)
    (has_subscription : lookup i.subscription db.subscriptions ≡ some s)
    (unfinal : is_final a ≡ false) where
  unflagged : a.needs_reconciliation ≡ false
  unfolding is_final
  unflagged = ground arith

  unpaid : is_success a.status ≡ false
  unfolding is_final
  unpaid = ground arith

  same_result :
      not success && same_payment_status a.status PaymentStatus.failed ≡ true
      → Decides pk (
          apply_result i.subscription s a.invoice i pk
            (record a { provider_response = response })
            success
            now
            db)
  unfolding apply_result is_chargeable
  same_result repeated = record {
    after = db;
    through = ground arith;
    attempt = a;
    stored = has_attempt;
    decided = ground arith;
  }

  pub result-Decides : Decides pk (
      apply_result i.subscription s a.invoice i pk
        (record a { provider_response = response })
        success
        now
        db)
  result-Decides =
      by_test (Bool-cases (not success && same_payment_status a.status PaymentStatus.failed))
        (Bool-cases success)
    where
      by_test :
          ((not success && same_payment_status a.status PaymentStatus.failed) ≡ true)
            ⊎ ((not success && same_payment_status a.status PaymentStatus.failed) ≡ false)
          → (success ≡ true) ⊎ (success ≡ false)
          → Decides pk (
              apply_result i.subscription s a.invoice i pk
                (record a { provider_response = response })
                success
                now
                db)
      by_test (inl repeated) _ = same_result repeated
      by_test (inr fresh) (inl succeeded) =
          unfold apply_result in
          rw (fresh, succeeded)
            (success-Decides pk a i s response now db sound has_attempt has_invoice has_subscription
              unflagged)
      by_test (inr fresh) (inr not_yet) =
          unfold apply_result in
          rw (fresh, not_yet)
            (failure-Decides pk a i s response now db sound has_attempt has_invoice has_subscription
              unflagged unpaid)
