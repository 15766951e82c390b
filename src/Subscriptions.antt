-- ===== src/Subscriptions.antt =====
-- subscriptions/domain/models.py: `clean`, `save` and `transition_to`. A subscription in memory is
-- its key and the row that was read; `now` is the transaction's reading of the clock.
pub mod Services
use chargeflow.Prelude.{
  ℕ, Bool, true, false, ◌&&◌, not, Option, none, some, lookup, put, ◌==◌, if◌then◌else◌,
}
use chargeflow.Calendar.{DateTime}
use chargeflow.Schema.{
  Customer, Plan, SubscriptionStatus, Subscription, subscription_transitions,
  same_subscription_status, subscription_status_in,
}
use chargeflow.Db.{
  invalid_status_transition, validation_error, ok, err, M, pure, raise, gets, get, ◌>>=◌, ◌>>◌,
  modify, raise_if,
}

-- `Subscription.lock_parents`
unfoldable pub lock_parents : ℕ → ℕ → M (Customer × Plan)
lock_parents customer_pk plan_pk = do
  customer ← get (λ db. db.customers) customer_pk
  plan ← get (λ db. db.plans) plan_pk
  pure (customer, plan)

-- Whether the stored row under a key belongs to another organization.
unfoldable pub is_moved : Option Subscription → ℕ → Bool
is_moved none organization = false
is_moved (some row) organization = not (row.organization == organization)

abbrev differs : Option ℕ → ℕ → Bool
differs none organization = false
differs (some o) organization = not (o == organization)

-- `Subscription.clean` of an object with the given parents and organization, which may be stored
-- already. It returns the organization that the object gets.
unfoldable pub clean : Option Subscription → Option ℕ → ℕ → ℕ → M ℕ
unfolding is_moved
clean stored organization customer_pk plan_pk = do
  customer ← get (λ db. db.customers) customer_pk
  plan ← get (λ db. db.plans) plan_pk
  raise_if (not (plan.organization == customer.organization)) validation_error
  raise_if (differs organization customer.organization) validation_error
  raise_if (is_moved stored customer.organization) validation_error
  pure customer.organization

-- `persisted_parents != (self.customer_id, self.plan_id)`
unfoldable pub has_other_parents : Option Subscription → Subscription → Bool
has_other_parents none self = true
has_other_parents (some row) self = not ((row.customer == self.customer) && (row.plan == self.plan))

-- `Subscription.save(update_fields=...)` of a stored object; `write` sets the columns named.
unfoldable pub save : ℕ → Subscription → (Subscription → Subscription) → M (Unit {0})
unfolding clean has_other_parents lock_parents
save pk self write = do
  stored ← gets (λ db. lookup pk db.subscriptions)
  if has_other_parents stored self
      then (lock_parents self.customer self.plan >> pure tt)
      else pure tt
  clean stored (some self.organization) self.customer self.plan
  modify λ db. record db {
    subscriptions = elim (lookup pk db.subscriptions) [
      | none ↦ db.subscriptions
      | some row ↦ put pk (write row) db.subscriptions
    ];
  }

-- The columns that a transition writes.
unfoldable pub stamp : SubscriptionStatus → DateTime → Subscription → Subscription
stamp new now row = record row {
  status = new;
  updated_at = now;
  canceled_at =
      if same_subscription_status new SubscriptionStatus.canceled
      then some now
      else row.canceled_at;
}

-- The UPDATE filtered by key and by the status that was read.
unfoldable pub compare_and_set : ℕ → Subscription → SubscriptionStatus → DateTime → M Subscription
compare_and_set pk self new now db = elim (lookup pk db.subscriptions) [
  | none ↦ err invalid_status_transition
  | some row ↦
      if same_subscription_status row.status self.status
      then ok (
        stamp new now self,
        record db { subscriptions = put pk (stamp new now row) db.subscriptions },
      )
      else err invalid_status_transition
]

-- `Subscription.transition_to`
unfoldable pub transition_to : ℕ → Subscription → SubscriptionStatus → DateTime → M Subscription
transition_to pk self new now =
    if subscription_status_in new (subscription_transitions self.status)
    then compare_and_set pk self new now
    else raise invalid_status_transition
