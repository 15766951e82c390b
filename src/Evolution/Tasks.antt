-- ===== src/Evolution/Tasks.antt =====
-- The relation for the cycles of invoices/tasks.py and subscriptions/tasks.py.
use chargeflow.Prelude.{
  ℕ, Bool, true, false, not, List, [], ◌∷◌, count_rows, keys_where, leb, if◌then◌else◌,
}
use chargeflow.Calendar.{DateTime, not_after}
use chargeflow.Schema.{
  SubscriptionStatus, CancellationReason, Subscription, same_subscription_status, InvoiceStatus,
  same_invoice_status,
}
use chargeflow.Db.{Db, Error, Result, ok, err, pure, hand_off}
use chargeflow.Invoices
use chargeflow.Subscriptions.Services
use chargeflow.Payments.Charge.{Proc, World, atomically, recover_pending}
use chargeflow.Tasks.{
  is_operational, after_item, run_batch, max_dunning_attempts, is_failed_charge_of, give_up,
  dun_invoice, run_dunning, renew_if_still_due, activate_if_still_expired, is_due, run_renewals,
  run_trial_activations, is_stuck_attempt, is_stuck_invoice, reconcile_stuck, ignore_result,
  then_proc, hand_off_now, dun_failed,
}
use chargeflow.Evolution.Rules.{
  Evolves, Evolves-refl, Evolves-trans, Grows, Grows-bind, Grows-if, Grows-if_result,
  Grows-get_bind, Grows-hand_off,
}
use chargeflow.Evolution.Invoices.{mark_overdue-Grows, reissue_for_retry-Grows}
use chargeflow.Evolution.Billing.{cancel-Grows, renew-Grows, activate-Grows}
use chargeflow.Evolution.Charge.{Keeps, Keeps-atomically, recover_pending-Keeps}

give_up-Grows :
    (invoice_pk subscription_pk : ℕ) (s : Subscription) (now : DateTime) (db : Db)
    → Grows db (give_up invoice_pk subscription_pk s now db)
unfolding give_up
give_up-Grows invoice_pk subscription_pk s now db =
    Grows-bind (Invoices.mark_overdue invoice_pk now) _ db (mark_overdue-Grows invoice_pk now db)
      λ _ marked _.
        Grows-if (not (same_subscription_status s.status SubscriptionStatus.canceled))
          (Services.cancel subscription_pk CancellationReason.non_payment now) (pure tt) marked
          (λ _. cancel-Grows subscription_pk CancellationReason.non_payment now marked)
          (λ _. Evolves-refl marked)

dun_failed-Grows :
    (pk subscription_pk : ℕ) (s : Subscription) (now : DateTime) (db : Db)
    → Grows db (dun_failed pk subscription_pk s now db)
unfolding dun_failed
dun_failed-Grows pk subscription_pk s now db =
    Grows-if_result (leb max_dunning_attempts (count_rows (is_failed_charge_of pk) db.attempts)) _ _
      db (λ _. give_up-Grows pk subscription_pk s now db) (λ _. reissue_for_retry-Grows pk now db)

pub dun_invoice-Grows : (pk : ℕ) (now : DateTime) (db : Db) → Grows db (dun_invoice pk now db)
unfolding dun_invoice
dun_invoice-Grows pk now db =
    Grows-get_bind (λ db. db.invoices) pk _ db
      λ found _.
        Grows-get_bind (λ db. db.subscriptions) found.subscription _ db
          λ s _.
            Grows-get_bind (λ db. db.invoices) pk _ db
              λ invoice _.
                Grows-if (not (same_invoice_status invoice.status InvoiceStatus.failed)) _ _ db
                  (λ _. Evolves-refl db) (λ _. dun_failed-Grows pk found.subscription s now db)

pub renew_if_still_due-Grows :
    (pk : ℕ) (now : DateTime) (db : Db) → Grows db (renew_if_still_due pk now db)
unfolding renew_if_still_due
renew_if_still_due-Grows pk now db =
    Grows-get_bind (λ db. db.subscriptions) pk _ db
      λ s _.
        Grows-if (not (Services.is_due_for_renewal s now)) _ _ db (λ _. Evolves-refl db)
          (λ _. renew-Grows pk now db)

pub activate_if_still_expired-Grows :
    (pk : ℕ) (now : DateTime) (db : Db) → Grows db (activate_if_still_expired pk now db)
unfolding activate_if_still_expired
activate_if_still_expired-Grows pk now db =
    Grows-get_bind (λ db. db.subscriptions) pk _ db
      λ s _.
        Grows-if (not (Services.is_trial_to_activate s)) _ _ db (λ _. Evolves-refl db)
          (λ _.
            Grows-if (not (not_after s.current_period_end now)) _ _ db (λ _. Evolves-refl db)
              (λ _. activate-Grows pk now db))

stop :
    {db : Db} (b : Bool) (e : Error) (db' : Db) {r : Result (Unit {0}) × Db}
    → Evolves db db'
    → Keeps db' r
    → Keeps db (if b then (err e, db') else r)
stop true e db' p q = record { evolves = p }
stop false e db' p q = record { evolves = Evolves-trans p q.evolves }

run_batch-Keeps :
    (handler : ℕ → Proc (Unit {0}))
    → ((k : ℕ) (db : Db) → Keeps db (handler k db))
    → (ks : List ℕ) (db : Db) → Keeps db (run_batch handler ks db)
unfolding run_batch
run_batch-Keeps handler keeps [] db = record { evolves = Evolves-refl db }
run_batch-Keeps handler keeps (k ∷ ks) db =
    after (handler k db).0 (handler k db).1 (keeps k db).evolves (run_batch-Keeps handler keeps ks)
  where
    after :
        (r : Result (Unit {0})) (db' : Db)
        → Evolves db db'
        → ((db : Db) → Keeps db (run_batch handler ks db))
        → Keeps db (after_item r (run_batch handler ks) db')
    after (ok _) db' p rest = record { evolves = Evolves-trans p (rest db').evolves }
    after (err e) db' p rest = stop (is_operational e) e db' p (rest db')

-- Each cycle keeps the relation over the whole batch, whichever items raise, and also where a database
-- error ends it.
pub run_dunning-Keeps : (clock : ℕ → DateTime) (db : Db) → Keeps db (run_dunning clock db)
unfolding run_dunning
run_dunning-Keeps clock db =
    run_batch-Keeps (λ k. atomically (dun_invoice k (clock k)))
      (λ k db. Keeps-atomically (dun_invoice k (clock k)) db (dun_invoice-Grows k (clock k) db))
      (keys_where (λ _ i. same_invoice_status i.status InvoiceStatus.failed) db.invoices) db

pub run_renewals-Keeps :
    (now : DateTime) (clock : ℕ → DateTime) (db : Db) → Keeps db (run_renewals now clock db)
unfolding run_renewals
run_renewals-Keeps now clock db =
    run_batch-Keeps (λ k. atomically (renew_if_still_due k (clock k)))
      (λ k db.
        Keeps-atomically (renew_if_still_due k (clock k)) db
          (renew_if_still_due-Grows k (clock k) db))
      (keys_where (is_due SubscriptionStatus.active now) db.subscriptions) db

pub run_trial_activations-Keeps :
    (now : DateTime) (clock : ℕ → DateTime) (db : Db)
    → Keeps db (run_trial_activations now clock db)
unfolding run_trial_activations
run_trial_activations-Keeps now clock db =
    run_batch-Keeps (λ k. atomically (activate_if_still_expired k (clock k)))
      (λ k db.
        Keeps-atomically (activate_if_still_expired k (clock k)) db
          (activate_if_still_expired-Grows k (clock k) db))
      (keys_where (is_due SubscriptionStatus.trial now) db.subscriptions) db

ignore_result-Keeps :
    {A : Type 0} (m : Proc A) (db : Db) → Keeps db (m db) → Keeps db (ignore_result m db)
ignore_result-Keeps m db p = record { evolves = p.evolves }

then_proc-Keeps :
    (m k : Proc (Unit {0})) (db : Db)
    → Keeps db (m db)
    → ((db' : Db) → Keeps db' (k db'))
    → Keeps db (then_proc m k db)
then_proc-Keeps m k db p q = after (m db).0 (m db).1 p.evolves
  where
    after :
        (r : Result (Unit {0})) (db' : Db)
        → Evolves db db'
        → Keeps {A = Unit {0}} db (elim r [ ok _ ↦ k db' | err e ↦ (err e, db') ])
    after (ok _) db' p = record { evolves = Evolves-trans p (q db').evolves }
    after (err e) db' p = record { evolves = p }

pub reconcile_stuck-Keeps :
    (now later : DateTime) (world : ℕ → World) (db : Db)
    → Keeps db (reconcile_stuck now later world db)
unfolding reconcile_stuck
reconcile_stuck-Keeps now later world db =
    then_proc-Keeps
      (run_batch (λ k. ignore_result (recover_pending (world k) false k))
        (keys_where (is_stuck_attempt now) db.attempts))
      (λ db'. run_batch hand_off_now (keys_where (is_stuck_invoice later db') db'.invoices) db') db
      (run_batch-Keeps (λ k. ignore_result (recover_pending (world k) false k))
        (λ k db.
          ignore_result-Keeps (recover_pending (world k) false k) db
            (recover_pending-Keeps (world k) false k db))
        (keys_where (is_stuck_attempt now) db.attempts) db)
      (λ db'.
        run_batch-Keeps hand_off_now
          (λ k db. Keeps-atomically (hand_off k) db (Grows-hand_off k db))
          (keys_where (is_stuck_invoice later db') db'.invoices) db')
