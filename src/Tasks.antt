-- ===== src/Tasks.antt =====
-- The Celery tasks: invoices/tasks.py, subscriptions/tasks.py and payments/tasks.py. A cycle reads
-- the keys that are due, then runs one transaction for each; `handler k` is that transaction. Logging
-- changes nothing and is left out.
use chargeflow.Prelude.{
  ℕ, ◌+◌, Bool, true, false, ◌&&◌, not, none, some, List, [], ◌∷◌, ◌==◌, leb, any_entry, count_rows,
  keys_where, if◌then◌else◌,
}
use chargeflow.Calendar.{DateTime, instant, not_after}
use chargeflow.Schema.{
  SubscriptionStatus, CancellationReason, Subscription, same_subscription_status, InvoiceStatus,
  Invoice, same_invoice_status, PaymentStatus, PaymentAttempt, same_payment_status,
}
use chargeflow.Db.{
  Db, Error, operational_error, Result, ok, err, M, pure, get, ◌>>=◌, ◌>>◌, hand_off,
}
use chargeflow.Invoices
use chargeflow.Subscriptions.Services
use chargeflow.Payments.Charge.{Proc, World, atomically, recover_pending}

abbrev pub is_operational : Error → Bool
is_operational operational_error = true
is_operational e = false

abbrev pub after_item : Result (Unit {0}) → Proc (Unit {0}) → Proc (Unit {0})
after_item (ok _) rest db = rest db
after_item (err e) rest db = if is_operational e then (err e, db) else rest db

-- `for k in keys: try: handler(k)` of the three cycles: a database error ends the batch, any other
-- exception is logged and the batch goes on.
unfoldable pub run_batch : (ℕ → Proc (Unit {0})) → List ℕ → Proc (Unit {0})
run_batch handler [] db = (ok tt, db)
run_batch handler (k ∷ ks) db =
    let (r, db') = handler k db in after_item r (run_batch handler ks) db'

abbrev pub max_dunning_attempts : ℕ
max_dunning_attempts = 3

abbrev pub is_failed_charge_of : ℕ → PaymentAttempt → Bool
is_failed_charge_of pk a = a.invoice == pk && same_payment_status a.status PaymentStatus.failed

-- The branch of `_dun_invoice` that gives up.
unfoldable pub give_up : ℕ → ℕ → Subscription → DateTime → M (Unit {0})
give_up invoice_pk subscription_pk s now =
    Invoices.mark_overdue invoice_pk now
    >> (if not (same_subscription_status s.status SubscriptionStatus.canceled)
        then Services.cancel subscription_pk CancellationReason.non_payment now
        else pure tt)

-- `_dun_invoice`, behind the test that the invoice is still FAILED.
unfoldable pub dun_failed : ℕ → ℕ → Subscription → DateTime → M (Unit {0})
dun_failed pk subscription_pk s now db =
    if leb max_dunning_attempts (count_rows (is_failed_charge_of pk) db.attempts)
    then give_up pk subscription_pk s now db
    else Invoices.reissue_for_retry pk now db

-- `_dun_invoice`
unfoldable pub dun_invoice : ℕ → DateTime → M (Unit {0})
dun_invoice pk now = do
  found ← get (λ db. db.invoices) pk
  s ← get (λ db. db.subscriptions) found.subscription
  invoice ← get (λ db. db.invoices) pk
  if not (same_invoice_status invoice.status InvoiceStatus.failed)
      then pure tt
      else dun_failed pk found.subscription s now

-- `run_dunning`
unfoldable pub run_dunning : (ℕ → DateTime) → Proc (Unit {0})
run_dunning clock db =
    run_batch (λ k. atomically (dun_invoice k (clock k)))
      (keys_where (λ _ i. same_invoice_status i.status InvoiceStatus.failed) db.invoices) db

-- `_renew_if_still_due`
unfoldable pub renew_if_still_due : ℕ → DateTime → M (Unit {0})
renew_if_still_due pk now = do
  s ← get (λ db. db.subscriptions) pk
  if not (Services.is_due_for_renewal s now) then pure tt else Services.renew pk now

-- `_activate_if_still_expired`
unfoldable pub activate_if_still_expired : ℕ → DateTime → M (Unit {0})
activate_if_still_expired pk now = do
  s ← get (λ db. db.subscriptions) pk
  if not (Services.is_trial_to_activate s)
      then pure tt
      else if not (not_after s.current_period_end now)
      then pure tt
      else Services.activate pk now

abbrev pub is_due : SubscriptionStatus → DateTime → ℕ → Subscription → Bool
is_due status now _ s =
    same_subscription_status s.status status && not_after s.current_period_end now

-- `run_renewals`; `now` is the clock of the query, `clock k` that of the transaction of `k`.
unfoldable pub run_renewals : DateTime → (ℕ → DateTime) → Proc (Unit {0})
run_renewals now clock db =
    run_batch (λ k. atomically (renew_if_still_due k (clock k)))
      (keys_where (is_due SubscriptionStatus.active now) db.subscriptions) db

-- `run_trial_activations`
unfoldable pub run_trial_activations : DateTime → (ℕ → DateTime) → Proc (Unit {0})
run_trial_activations now clock db =
    run_batch (λ k. atomically (activate_if_still_expired k (clock k)))
      (keys_where (is_due SubscriptionStatus.trial now) db.subscriptions) db

-- `STUCK_CHARGE_AFTER`, in microseconds.
abbrev pub stuck_charge_after : ℕ
stuck_charge_after = 600000000

-- `t <= now - STUCK_CHARGE_AFTER`
unfoldable pub is_stale : DateTime → DateTime → Bool
is_stale now t = leb (instant t + stuck_charge_after) (instant now)

unfoldable pub is_stuck_attempt : DateTime → ℕ → PaymentAttempt → Bool
unfolding is_stale
is_stuck_attempt now _ a =
    same_payment_status a.status PaymentStatus.pending
    && not a.needs_reconciliation
    && is_stale now a.attempted_at

abbrev pub is_attempt_since : ℕ → DateTime → ℕ → PaymentAttempt → Bool
is_attempt_since pk issued_at _ a = a.invoice == pk && not_after issued_at a.attempted_at

unfoldable pub is_stuck_invoice : DateTime → Db → ℕ → Invoice → Bool
unfolding is_stale
is_stuck_invoice now db pk i =
    same_invoice_status i.status InvoiceStatus.issued && elim i.issued_at [
      | none ↦ false
      | some t ↦ is_stale now t && not (any_entry (is_attempt_since pk t) db.attempts)
    ]

-- `charge_invoice.delay` of the second loop, outside a transaction.
abbrev pub hand_off_now : ℕ → Proc (Unit {0})
hand_off_now k = atomically (hand_off k)

abbrev pub ignore_result : {A : Type 0} → Proc A → Proc (Unit {0})
ignore_result m db = let (r, db') = m db in (elim r [ ok _ ↦ ok tt | err e ↦ err e ], db')

abbrev pub then_proc : Proc (Unit {0}) → Proc (Unit {0}) → Proc (Unit {0})
then_proc m k db = let (r, db') = m db in elim r [ ok _ ↦ k db' | err e ↦ (err e, db') ]

-- `reconcile_stuck`; `now` and `later` are the clock of its two queries, `world k` is what the run for
-- attempt `k` takes from outside.
unfoldable pub reconcile_stuck : DateTime → DateTime → (ℕ → World) → Proc (Unit {0})
reconcile_stuck now later world db =
    then_proc
      (run_batch (λ k. ignore_result (recover_pending (world k) false k))
        (keys_where (is_stuck_attempt now) db.attempts))
      (λ db'. run_batch hand_off_now (keys_where (is_stuck_invoice later db') db'.invoices) db') db
