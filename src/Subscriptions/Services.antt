-- ===== src/Subscriptions/Services.antt =====
-- subscriptions/application/services.py.
use chargeflow.Prelude.{
  ℕ, zero, suc, pos, negsuc, ℤ, Bool, true, false, ◌&&◌, not, none, some, [], ◌∷◌, add, fresh,
  any_entry, ◌==◌, if◌then◌else◌,
}
use chargeflow.Calendar.{DateTime, add_days, add_months, not_after}
use chargeflow.Schema.{
  PlanStatus, PlanInterval, Plan, SubscriptionStatus, CancellationReason, Subscription,
  same_subscription_status, InvoiceStatus, Invoice, invoice_status_in,
}
use chargeflow.Db.{
  Error, invalid_status_transition, value_error, ok, M, pure, raise, gets, handle, get, ◌>>=◌, ◌>>◌,
  raise_if,
}
use chargeflow.Invoices
use chargeflow.Subscriptions.{lock_parents, clean, save, transition_to}

-- `SubscriptionService._compute_period_end`
unfoldable pub compute_period_end : DateTime → Plan → DateTime
compute_period_end start plan = elim plan.interval [
  | PlanInterval.day ↦ add_days 1 start
  | PlanInterval.week ↦ add_days 7 start
  | PlanInterval.month ↦ add_months start 1
  | PlanInterval.year ↦ add_months start 12
  | PlanInterval.other _ ↦ add_days 30 start
]

abbrev is_positive : ℤ → Bool
is_positive (pos zero) = false
is_positive (pos (suc n)) = true
is_positive (negsuc n) = false

abbrev days_of : ℤ → ℕ
days_of (pos n) = n
days_of (negsuc n) = 0

-- The row that `create` inserts.
unfoldable pub new_subscription : ℕ → ℕ → ℕ → Plan → DateTime → Subscription
new_subscription organization customer_pk plan_pk plan now =
    let has_trial = is_positive plan.trial_period_days in
    record {
      organization = organization;
      customer = customer_pk;
      plan = plan_pk;
      status = if has_trial then SubscriptionStatus.trial else SubscriptionStatus.active;
      current_period_start = now;
      current_period_end =
          if has_trial
          then add_days (days_of plan.trial_period_days) now
          else compute_period_end now plan;
      canceled_at = none;
      canceled_reason = none;
      updated_at = now;
    }

-- `Subscription.objects.create`: `save` of a new object locks the parents and cleans.
unfoldable pub insert : ℕ → ℕ → (ℕ → Subscription) → M ℕ
unfolding clean lock_parents
insert customer_pk plan_pk row = do
  lock_parents customer_pk plan_pk
  organization ← clean none none customer_pk plan_pk
  λ db. ok (
    fresh db.subscriptions,
    record db { subscriptions = add (row organization) db.subscriptions },
  )

-- `SubscriptionService.create`; it returns the new key.
unfoldable pub create : ℕ → ℕ → DateTime → M ℕ
unfolding lock_parents
create customer_pk plan_pk now = do
  parents ← lock_parents customer_pk plan_pk
  let customer = parents.0
  let plan = parents.1
  raise_if (not (customer.organization == plan.organization)) value_error
  raise_if (elim plan.status [ PlanStatus.active ↦ false | PlanStatus.archived ↦ true ]) value_error
  pk ← insert customer_pk plan_pk (λ o. new_subscription o customer_pk plan_pk plan now)
  Invoices.generate_for_subscription pk now
  pure pk

-- `SubscriptionService.is_due_for_renewal`
unfoldable pub is_due_for_renewal : Subscription → DateTime → Bool
is_due_for_renewal s now =
    same_subscription_status s.status SubscriptionStatus.active
    && not_after s.current_period_end now

-- `SubscriptionService.is_trial_to_activate`
unfoldable pub is_trial_to_activate : Subscription → Bool
is_trial_to_activate s = same_subscription_status s.status SubscriptionStatus.trial

-- The assignments to the period and the `save` of them, in `activate` and in `renew`.
unfoldable pub start_period : ℕ → Subscription → Plan → DateTime → M (Unit {0})
start_period pk s plan now = save pk s λ row. record row {
  current_period_start = now;
  current_period_end = compute_period_end now plan;
  updated_at = now;
}

-- `SubscriptionService.activate`
unfoldable pub activate : ℕ → DateTime → M (Unit {0})
activate pk now = do
  s ← get (λ db. db.subscriptions) pk
  plan ← get (λ db. db.plans) s.plan
  raise_if (not (is_trial_to_activate s)) value_error
  s' ← transition_to pk s SubscriptionStatus.active now
  start_period pk s' plan now
  Invoices.generate_for_subscription pk now
  pure tt

-- `SubscriptionService.mark_overdue`
unfoldable pub mark_overdue : ℕ → DateTime → M (Unit {0})
mark_overdue pk now = do
  s ← get (λ db. db.subscriptions) pk
  if not (same_subscription_status s.status SubscriptionStatus.active)
      then pure tt
      else (transition_to pk s SubscriptionStatus.overdue now >> pure tt)

-- The invoices that keep a subscription from becoming active again.
unfoldable pub is_arrear_of : ℕ → ℕ → Invoice → Bool
is_arrear_of pk _ row =
    row.subscription == pk
    && invoice_status_in row.status (InvoiceStatus.failed ∷ InvoiceStatus.overdue ∷ [])

abbrev pub or_keep_newer : Error → M (Unit {0})
or_keep_newer invalid_status_transition = pure tt
or_keep_newer e = raise e

-- `SubscriptionService.reactivate`
unfoldable pub reactivate : ℕ → DateTime → M (Unit {0})
unfolding is_arrear_of
reactivate pk now = do
  s ← get (λ db. db.subscriptions) pk
  arrears ← gets (λ db. any_entry (is_arrear_of pk) db.invoices)
  if not (same_subscription_status s.status SubscriptionStatus.overdue)
      then pure tt
      else if arrears
      then pure tt
      else handle (transition_to pk s SubscriptionStatus.active now >> pure tt) or_keep_newer

-- `SubscriptionService.cancel`
unfoldable pub cancel : ℕ → CancellationReason → DateTime → M (Unit {0})
cancel pk reason now = do
  s ← get (λ db. db.subscriptions) pk
  s' ← transition_to pk s SubscriptionStatus.canceled now
  save pk s' (λ row. record row { canceled_reason = some reason; updated_at = now })
  Invoices.cancel_open_for_subscription pk now

-- `SubscriptionService.renew`
unfoldable pub renew : ℕ → DateTime → M (Unit {0})
unfolding is_due_for_renewal
renew pk now = do
  s ← get (λ db. db.subscriptions) pk
  plan ← get (λ db. db.plans) s.plan
  raise_if (not (same_subscription_status s.status SubscriptionStatus.active)) value_error
  raise_if (not (is_due_for_renewal s now)) value_error
  start_period pk s plan now
  Invoices.generate_for_subscription pk now
  pure tt
