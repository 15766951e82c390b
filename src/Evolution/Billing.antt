-- ===== src/Evolution/Billing.antt =====
-- The relation for the subscription services that bill: renewal, activation, cancellation, creation.
use chargeflow.Prelude.{
  ℕ, Bool, true, false, not, ◌≡◌, ◌≢◌, refl, some, lookup, add, fresh, arith, Option-cases, inl,
  inr, ◌==◌,
}
use chargeflow.Calendar.{DateTime}
use chargeflow.Schema.{
  PlanStatus, Plan, Customer, SubscriptionStatus, Subscription, CancellationReason,
  same_subscription_status,
}
use chargeflow.Db.{Db, ok, M, pure, ◌>>◌, raise_if, Error}
use chargeflow.Invoices
use chargeflow.Subscriptions.{lock_parents, save, stamp, transition_to}
use chargeflow.Subscriptions.Services.{
  compute_period_end, new_subscription, insert, create, is_due_for_renewal, is_trial_to_activate,
  start_period, activate, cancel, renew,
}
use chargeflow.Evolution.Rows.{SubscriptionLe, here}
use chargeflow.Evolution.Sound.{SubscriptionIsSound}
use chargeflow.Evolution.Writes.{insert_subscription-Evolves}
use chargeflow.Evolution.Rules.{Evolves-refl, Grows, Grows-bind, Grows-get_bind, Grows-intro}
use chargeflow.Evolution.Invoices.{
  cancel_open_for_subscription-Grows, generate_for_subscription-Grows,
}
use chargeflow.Evolution.Subscriptions.{transition_to-Grows, transition_to-stored, save-Grows}

-- The columns that `cancel` and `start_period` write are not those that a state freezes.
period-SubscriptionLe :
    (s : Subscription) (plan : Plan) (now : DateTime)
    → s.status ≢ SubscriptionStatus.canceled
    → SubscriptionLe s (record s {
      current_period_start = now;
      current_period_end = compute_period_end now plan;
      updated_at = now;
    })
period-SubscriptionLe s plan now h = record {
  organization = refl;
  customer = refl;
  plan = refl;
  path = here;
  canceled = λ e. absurd (h e);
}

start_period-Grows :
    (pk : ℕ) (self : Subscription) (plan : Plan) (now : DateTime) (db : Db) (row : Subscription)
    → lookup pk db.subscriptions ≡ some row
    → row.status ≢ SubscriptionStatus.canceled
    → Grows db (start_period pk self plan now db)
unfolding start_period
start_period-Grows pk self plan now db row e h =
    save-Grows pk self _ db row e (period-SubscriptionLe row plan now h)

then_generate-Grows :
    (pk : ℕ) (self : Subscription) (plan : Plan) (now : DateTime) (db : Db) (row : Subscription)
    → lookup pk db.subscriptions ≡ some row
    → row.status ≢ SubscriptionStatus.canceled
    → Grows db (
        (start_period pk self plan now >> (Invoices.generate_for_subscription pk now >> pure tt))
          db)
then_generate-Grows pk self plan now db row e h =
    Grows-bind (start_period pk self plan now) _ db (start_period-Grows pk self plan now db row e h)
      λ _ db' _.
        Grows-bind (Invoices.generate_for_subscription pk now) _ db'
          (generate_for_subscription-Grows pk now db') (λ _ db'' _. Evolves-refl db'')

raise_if_then :
    {A : Type 0} (b : Bool) (e : Error) (m : M A) (db : Db)
    → (b ≡ false → Grows db (m db))
    → Grows db ((raise_if b e >> m) db)
raise_if_then true e m db h = tt
raise_if_then false e m db h = h refl

active_not_canceled :
    (s : SubscriptionStatus)
    → not (same_subscription_status s SubscriptionStatus.active) ≡ false
    → s ≢ SubscriptionStatus.canceled
active_not_canceled s h e = ground arith

pub renew-Grows : (pk : ℕ) (now : DateTime) (db : Db) → Grows db (renew pk now db)
unfolding renew
renew-Grows pk now db =
    Grows-get_bind (λ db. db.subscriptions) pk _ db
      λ s e.
        Grows-get_bind (λ db. db.plans) s.plan _ db
          λ plan e'.
            raise_if_then (not (same_subscription_status s.status SubscriptionStatus.active)) _ _ db
              λ h.
                raise_if_then (not (is_due_for_renewal s now)) _ _ db
                  λ _. then_generate-Grows pk s plan now db s e (active_not_canceled s.status h)

stamped_not_canceled :
    (now : DateTime) (s : Subscription)
    → (stamp SubscriptionStatus.active now s).status ≢ SubscriptionStatus.canceled
unfolding stamp
stamped_not_canceled now s h = cc

pub activate-Grows : (pk : ℕ) (now : DateTime) (db : Db) → Grows db (activate pk now db)
unfolding activate
activate-Grows pk now db =
    Grows-get_bind (λ db. db.subscriptions) pk _ db
      λ s e.
        Grows-get_bind (λ db. db.plans) s.plan _ db
          λ plan e'. raise_if_then (not (is_trial_to_activate s)) _ _ db λ _.
            Grows-bind (transition_to pk s SubscriptionStatus.active now) _ db
              (transition_to-Grows pk s SubscriptionStatus.active now db)
              (λ t db' moved.
                let (_, stored) =
                  transition_to-stored pk s SubscriptionStatus.active now db e moved in
                then_generate-Grows pk t plan now db' (stamp SubscriptionStatus.active now s) stored
                  (stamped_not_canceled now s))

abbrev with_reason : CancellationReason → DateTime → Subscription → Subscription
with_reason reason now row = record row { canceled_reason = some reason; updated_at = now }

with_reason-SubscriptionLe :
    (reason : CancellationReason) (now : DateTime) (s : Subscription)
    → SubscriptionLe s (with_reason reason now s)
with_reason-SubscriptionLe reason now s = record {
  organization = refl;
  customer = refl;
  plan = refl;
  path = here;
  canceled = λ h. (h, refl, refl, refl);
}

pub cancel-Grows :
    (pk : ℕ) (reason : CancellationReason) (now : DateTime) (db : Db)
    → Grows db (cancel pk reason now db)
unfolding cancel
cancel-Grows pk reason now db =
    Grows-get_bind (λ db. db.subscriptions) pk _ db
      λ s e.
        Grows-bind (transition_to pk s SubscriptionStatus.canceled now) _ db
          (transition_to-Grows pk s SubscriptionStatus.canceled now db)
          (λ t db' moved.
            let (_, stored) =
              transition_to-stored pk s SubscriptionStatus.canceled now db e moved in
            Grows-bind (save pk t (with_reason reason now)) _ db'
              (save-Grows pk t (with_reason reason now) db'
                (stamp SubscriptionStatus.canceled now s) stored
                (with_reason-SubscriptionLe reason now (stamp SubscriptionStatus.canceled now s)))
              (λ _ db'' _. cancel_open_for_subscription-Grows pk now db''))

lock_parents-Grows : (c p : ℕ) (db : Db) → Grows db (lock_parents c p db)
unfolding lock_parents
lock_parents-Grows c p db =
    Grows-get_bind (λ db. db.customers) c _ db
      λ customer e. Grows-get_bind (λ db. db.plans) p _ db λ plan e'. Evolves-refl db

-- An insertion that went through has added one row, in the organization of the customer and the plan.
pub insert-eq-ok :
    (c p : ℕ) (row : ℕ → Subscription) (db : Db)
    → {k : ℕ} {db' : Db} → insert c p row db ≡ ok (k, db')
    → (customer : Customer) × (plan : Plan) × (lookup c db.customers ≡ some customer)
      × (lookup p db.plans ≡ some plan)
      × (plan.organization ≡ customer.organization)
      × (k ≡ fresh db.subscriptions)
      × (db' ≡ record db { subscriptions = add (row customer.organization) db.subscriptions })
unfolding insert
insert-eq-ok c p row db h = elim (Option-cases (lookup c db.customers)) [
  | inl e ↦ ground arith
  | inr (customer, e) ↦ elim (Option-cases (lookup p db.plans)) [
    | inl e' ↦ ground arith
    | inr (plan, e') ↦ (customer, plan, e, e', ground arith, ground arith, ground arith)
  ]
]

new_subscription-IsSound :
    (c p : ℕ) (plan : Plan) (now : DateTime) (db : Db) (customer : Customer) (stored_plan : Plan)
    → lookup c db.customers ≡ some customer
    → lookup p db.plans ≡ some stored_plan
    → stored_plan.organization ≡ customer.organization
    → SubscriptionIsSound db.customers db.plans
        (new_subscription customer.organization c p plan now)
unfolding new_subscription
new_subscription-IsSound c p plan now db customer stored_plan has_customer has_plan agree = record {
  customer = record { parent = customer; stored = has_customer; same_organization = refl };
  plan = record { parent = stored_plan; stored = has_plan; same_organization = agree };
}

insert-Grows :
    (c p : ℕ) (plan : Plan) (now : DateTime) (db : Db)
    → Grows db (insert c p (λ o. new_subscription o c p plan now) db)
insert-Grows c p plan now db = Grows-intro db _ λ k db' done.
    let (customer, stored_plan, has_customer, has_plan, agree, _, same) =
      insert-eq-ok c p (λ o. new_subscription o c p plan now) db done in
    rw same (
      insert_subscription-Evolves db (new_subscription customer.organization c p plan now)
        (new_subscription-IsSound c p plan now db customer stored_plan has_customer has_plan agree))

pub create-Grows :
    (customer_pk plan_pk : ℕ) (now : DateTime) (db : Db)
    → Grows db (create customer_pk plan_pk now db)
unfolding create
create-Grows customer_pk plan_pk now db =
    Grows-bind (lock_parents customer_pk plan_pk) _ db (lock_parents-Grows customer_pk plan_pk db)
      λ parents after_lock _.
        raise_if_then (not (parents.0.organization == parents.1.organization)) _ _ after_lock λ _.
          raise_if_then
            (elim parents.1.status [ PlanStatus.active ↦ false | PlanStatus.archived ↦ true ]) _ _
            after_lock
            λ _.
              let row = λ (o : ℕ). new_subscription o customer_pk plan_pk parents.1 now in
              Grows-bind (insert customer_pk plan_pk row) _ after_lock
                (insert-Grows customer_pk plan_pk parents.1 now after_lock)
                (λ pk inserted _.
                  Grows-bind (Invoices.generate_for_subscription pk now) _ inserted
                    (generate_for_subscription-Grows pk now inserted)
                    (λ _ billed _. Evolves-refl billed))
