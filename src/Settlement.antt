-- ===== src/Settlement.antt =====
-- What `PaymentService.settle` does with a result that it has seen, or that comes too late.
pub mod Saves
pub mod Written
pub mod Decides
pub mod Results
pub mod Total
use chargeflow.Prelude.{ℕ, String, Bool, true, false, ◌≡◌, ◌∙◌, ◌⊎◌, some, lookup, arith}
use chargeflow.Calendar.{DateTime}
use chargeflow.Schema.{Fields, PaymentAttempt, Subscription, Invoice}
use chargeflow.Db.{Db, ok}
use chargeflow.Payments.Settle.{
  is_final, is_mismatch, incoming_charge_id, settle_open, settle_matching, settle_locked, settle,
}

module _ (db : Db) (pk : ℕ) (a : PaymentAttempt) (i : Invoice) (s : Subscription)
    (has_attempt : lookup pk db.attempts ≡ some a)
    (has_invoice : lookup a.invoice db.invoices ≡ some i)
    (has_subscription : lookup i.subscription db.subscriptions ≡ some s) where
  pub settle-locked :
      (success : Bool) (response : Fields) (charge_id : String) (now : DateTime)
      → settle pk success response charge_id now db
        ≡ settle_locked i.subscription s a.invoice i pk a success response
            (incoming_charge_id charge_id response)
            now
            db
  unfolding settle
  settle-locked success response charge_id now =
      ground (arith, has_attempt, has_invoice, has_subscription)

  locked-final :
      (incoming : String) (success : Bool) (response : Fields) (now : DateTime)
      → is_final a ≡ true
      → (success ≡ false) ⊎ (is_mismatch a incoming ≡ false)
      → settle_locked i.subscription s a.invoice i pk a success response incoming now db
        ≡ ok (tt, db)
  unfolding settle_locked settle_matching settle_open
  locked-final incoming success response now final late = ground arith

  -- An attempt that has succeeded or is flagged takes no failure, under any charge's name and with
  -- any response, and no success but one under another charge's name: the run goes through and
  -- changes nothing.
  pub settle-final :
      (success : Bool) (response : Fields) (charge_id : String) (now : DateTime)
      → is_final a ≡ true
      → (success ≡ false) ⊎ (is_mismatch a (incoming_charge_id charge_id response) ≡ false)
      → settle pk success response charge_id now db ≡ ok (tt, db)
  settle-final success response charge_id now final late =
      settle-locked success response charge_id now
      ∙ locked-final (incoming_charge_id charge_id response) success response now final late
