-- ===== src/Canceling.antt =====
-- `SubscriptionService.cancel` with the invoices that it closes.
pub mod OpenInvoices
use chargeflow.Prelude.{
  ℕ, Bool, true, false, ◌≡◌, refl, sym, ◌⊎◌, inl, inr, Option, none, some, List, [], ◌∷◌, Table,
  lookup, put, any_entry, select, lookup-put, lookup-put_self, lookup-select, any_entry-none, arith,
  ◌==◌, ==_eq, ==_refl, Bool-cases, Option-cases, IsKeyed, put-IsKeyed,
}
use chargeflow.Calendar.{DateTime}
use chargeflow.Schema.{
  InvoiceStatus, Invoice, invoice_status_in, invoice_transitions, SubscriptionStatus, Subscription,
  CancellationReason, subscription_status_in, subscription_transitions, same_subscription_status,
}
use chargeflow.Db.{Db, ok}
use chargeflow.Invoices.{
  stamp, compare_and_set, transition_to, is_open_of, cancel_each, cancel_open_for_subscription,
}
use chargeflow.Subscriptions
use chargeflow.Subscriptions.Services.{cancel}
use chargeflow.Evolution.Sound.{IsSound}
use chargeflow.Canceling.OpenInvoices.{
  Canceled, none_open, cancel_open-through, HasNoneOpen, none_open-HasNoneOpen,
}

module _ (pk : ℕ) (now : DateTime) where
  -- The subscription behind its cancellation.
  abbrev pub ended : CancellationReason → Subscription → Subscription
  ended reason s = record s {
    status = SubscriptionStatus.canceled;
    canceled_at = some now;
    canceled_reason = some reason;
    updated_at = now;
  }

  module _ (reason : CancellationReason) (s : Subscription) (db : Db) (sound : IsSound db)
      (stored : lookup pk db.subscriptions ≡ some s)
      (live : same_subscription_status s.status SubscriptionStatus.canceled ≡ false) where
    subscription-eq :
        Subscriptions.transition_to pk s SubscriptionStatus.canceled now db
        ≡ ok (
          Subscriptions.stamp SubscriptionStatus.canceled now s,
          record db {
            subscriptions =
                put pk (Subscriptions.stamp SubscriptionStatus.canceled now s) db.subscriptions;
          },
        )
    unfolding Subscriptions.transition_to Subscriptions.compare_and_set subscription_status_in
        subscription_transitions
    subscription-eq = ground arith

    abbrev moved : Db
    moved = record db {
      subscriptions =
          put pk (Subscriptions.stamp SubscriptionStatus.canceled now s) db.subscriptions;
    }

    saved-eq :
        Subscriptions.save pk
          (Subscriptions.stamp SubscriptionStatus.canceled now s)
          (λ row. record row { canceled_reason = some reason; updated_at = now })
          moved
        ≡ ok (tt, record moved { subscriptions = put pk (ended reason s) moved.subscriptions })
    unfolding Subscriptions.save Subscriptions.clean Subscriptions.has_other_parents
        Subscriptions.lock_parents Subscriptions.is_moved Subscriptions.stamp
    saved-eq =
        let parents = sound.subscriptions.at pk s stored in
        let read =
          lookup-put_self pk (Subscriptions.stamp SubscriptionStatus.canceled now s) s
            db.subscriptions stored in
        let has_customer = parents.customer.stored in
        let has_plan = parents.plan.stored in
        let of_customer = parents.customer.same_organization in
        let of_plan = parents.plan.same_organization in
        ground (arith, ==_refl s.organization, ==_refl s.customer, ==_refl s.plan)

    closed :
        (t : Table Invoice) × (cancel pk reason now db
          ≡ ok (
            tt,
            record moved {
              subscriptions = put pk (ended reason s) moved.subscriptions;
              invoices = t;
            },
          ))
        × Canceled pk now (select (is_open_of pk) db.invoices) db.invoices t
    unfolding cancel
    closed =
        let last = record moved { subscriptions = put pk (ended reason s) moved.subscriptions } in
        let (t, went, canceled) = cancel_open-through pk now last sound.keyed_invoices in
        (t, ground (arith, subscription-eq, saved-eq), canceled)

    ended-stored : lookup pk (put pk (ended reason s) moved.subscriptions) ≡ some (ended reason s)
    ended-stored =
        lookup-put_self pk (ended reason s) (Subscriptions.stamp SubscriptionStatus.canceled now s)
          moved.subscriptions
          (lookup-put_self pk (Subscriptions.stamp SubscriptionStatus.canceled now s) s
            db.subscriptions stored)

    -- On a sound database, the cancellation of a subscription that is not yet canceled always goes
    -- through: the subscription is CANCELED with the reason and the time, keeps its other columns but
    -- the time of the update, and no invoice of it is left that is a draft, issued or failed.
    pub cancel-ends :
        (db' : Db) × (cancel pk reason now db ≡ ok (tt, db'))
        × (lookup pk db'.subscriptions ≡ some (ended reason s))
        × HasNoneOpen pk db'.invoices
    cancel-ends =
        let (t, went, canceled) = closed in
        (
          record moved {
            subscriptions = put pk (ended reason s) moved.subscriptions;
            invoices = t;
          },
          went,
          ended-stored,
          none_open-HasNoneOpen pk t (none_open pk now db.invoices t sound.keyed_invoices canceled),
        )

    -- The same, with an invoice that is past collecting and stays as it is.
    pub cancel-keeps :
        (k : ℕ) (i : Invoice)
        → lookup k db.invoices ≡ some i
        → is_open_of pk k i ≡ false
        → (db' : Db) × (cancel pk reason now db ≡ ok (tt, db'))
          × (lookup pk db'.subscriptions ≡ some (ended reason s))
          × HasNoneOpen pk db'.invoices
          × (lookup k db'.invoices ≡ some i)
    cancel-keeps k i found past =
        let (t, went, canceled) = closed in
        let filtered = lookup-select (is_open_of pk) k db.invoices sound.keyed_invoices in
        let kept = canceled.others k (ground arith) in
        (
          record moved {
            subscriptions = put pk (ended reason s) moved.subscriptions;
            invoices = t;
          },
          went,
          ended-stored,
          none_open-HasNoneOpen pk t (none_open pk now db.invoices t sound.keyed_invoices canceled),
          ground arith,
        )
