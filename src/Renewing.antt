-- ===== src/Renewing.antt =====
-- `SubscriptionService.renew` of subscriptions/application/services.py.
use Prim.Native.String.{count}
use chargeflow.Prelude.{
  ◌≤◌, ℕ, true, ◌≡◌, ◌≢◌, ◌<◌, inl, inr, none, some, lookup, put, find_row, lookup-put_self, arith,
  ==_refl, Option-cases,
}
use chargeflow.Calendar.{DateTime, instant, not_after}
use chargeflow.Schema.{SubscriptionStatus, Subscription, Plan, same_subscription_status_eq}
use chargeflow.Db.{Db, ok, err, value_error}
use chargeflow.Invoices.{is_for_period}
use chargeflow.Subscriptions
use chargeflow.Subscriptions.Services.{compute_period_end, is_due_for_renewal, start_period, renew}
use chargeflow.Evolution.Sound.{IsSound}
use chargeflow.Invoicing.{invoiced, invoiced-found, generate-found, generate-creates}

-- The subscription in its next period.
abbrev pub renewed : Subscription → Plan → DateTime → Subscription
renewed s plan now = record s {
  current_period_start = now;
  current_period_end = compute_period_end now plan;
  updated_at = now;
}

-- A subscription whose period is not over is not renewed.
renew-early :
    (pk : ℕ) (s : Subscription) (plan : Plan) (later : DateTime) (db : Db)
    → lookup pk db.subscriptions ≡ some s
    → lookup s.plan db.plans ≡ some plan
    → instant later < instant s.current_period_end
    → renew pk later db ≡ err value_error
unfolding renew is_due_for_renewal not_after
renew-early pk s plan later db stored has_plan early = ground arith

module _ (pk : ℕ) (s : Subscription) (plan : Plan) (now : DateTime) (db : Db) (sound : IsSound db)
    (stored : lookup pk db.subscriptions ≡ some s) (has_plan : lookup s.plan db.plans ≡ some plan)
    (due : is_due_for_renewal s now ≡ true) (fits : count plan.name ≤ 229) where
  abbrev moved : Db
  moved = record db { subscriptions = put pk (renewed s plan now) db.subscriptions }

  moved-stored : lookup pk moved.subscriptions ≡ some (renewed s plan now)
  moved-stored = lookup-put_self pk (renewed s plan now) s db.subscriptions stored

  start_period-eq : start_period pk s plan now db ≡ ok (tt, moved)
  unfolding start_period Subscriptions.save Subscriptions.clean Subscriptions.has_other_parents
      Subscriptions.lock_parents Subscriptions.is_moved
  start_period-eq =
      let parents = sound.subscriptions.at pk s stored in
      let has_customer = parents.customer.stored in
      let its_plan = parents.plan.stored in
      let of_customer = parents.customer.same_organization in
      let of_plan = parents.plan.same_organization in
      ground (arith, ==_refl s.organization, ==_refl s.customer, ==_refl s.plan)

  is_active : s.status ≡ SubscriptionStatus.active
  unfolding is_due_for_renewal
  is_active = same_subscription_status_eq s.status SubscriptionStatus.active (ground arith)

  -- On a sound database, the renewal of an active subscription whose period is over, with a plan whose
  -- name has at most 229 characters, goes through: the subscription is in a period that starts now, an
  -- invoice is there for it, and a second renewal is refused with a ValueError at any time before the
  -- new period ends.
  pub renew_once :
      (db' : Db) × (renew pk now db ≡ ok (tt, db'))
      × (lookup pk db'.subscriptions ≡ some (renewed s plan now))
      × (find_row (is_for_period pk (renewed s plan now)) db'.invoices ≢ none)
      × ((later : DateTime)
          → instant later < instant (compute_period_end now plan)
          → renew pk later db' ≡ err value_error)
  unfolding renew
  renew_once = elim (Option-cases (find_row (is_for_period pk (renewed s plan now)) db.invoices)) [
    | inl missing ↦
        let last = invoiced pk (renewed s plan now) plan now moved in
        (
          last,
          ground (
            arith,
            start_period-eq,
            generate-creates pk (renewed s plan now) plan moved moved-stored has_plan is_active now
                missing,
          ),
          moved-stored,
          invoiced-found pk (renewed s plan now) plan now moved,
          λ later early.
              renew-early pk (renewed s plan now) plan later last moved-stored has_plan early,
        )
    | inr (found, billed) ↦ (
      moved,
      ground (
        arith,
        start_period-eq,
        generate-found pk (renewed s plan now) plan moved moved-stored has_plan is_active now found
            billed,
      ),
      moved-stored,
      λ no. absurd (ground arith),
      λ later early.
          renew-early pk (renewed s plan now) plan later moved moved-stored has_plan early,
    )
  ]
