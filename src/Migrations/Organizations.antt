-- ===== src/Migrations/Organizations.antt =====
-- What the data migrations leave: each billing row has the organization of its parents.
use chargeflow.Prelude.{
  ℕ, ◌≡◌, Option, none, some, lookup, arith, IsKeyed, Option-cases, Bool-cases, false, ◌==◌, ◌⊎◌,
  inl, inr,
}
use chargeflow.Schema.{
  Json, Customer, Plan, Subscription, PaymentAttempt, WebhookEvent, field_value,
}
use chargeflow.Db.{Db, ok, err, value_error}
use chargeflow.Evolution.Growth.{AllRows}
use chargeflow.Evolution.Sound.{SubscriptionIsSound, InvoiceIsSound, LineIsSound, AttemptIsSound}
use chargeflow.Migrations.{
  assign_subscription, backfill_subscriptions, backfill_invoices, backfill_payments,
  assign_organizations,
}
use chargeflow.Migrations.Backfill.{Exists, save_each-refused}
use chargeflow.Migrations.Rows.{
  IsAgreed, subscriptions-through, invoices-through, lines-through, attempts-through,
  events-through,
}

-- The database before the migrations: keys are unique and no foreign key dangles.
pub record IsOld (db : Db) : Type 0 where
  pub subscriptions : AllRows (IsAgreed db) db.subscriptions
  pub invoices : AllRows (λ i. Exists db.subscriptions i.subscription) db.invoices
  pub lines : AllRows (λ l. Exists db.invoices l.invoice) db.lines
  pub attempts : AllRows (λ a. Exists db.invoices a.invoice) db.attempts
  pub keyed_subscriptions : IsKeyed db.subscriptions
  pub keyed_invoices : IsKeyed db.invoices
  pub keyed_lines : IsKeyed db.lines
  pub keyed_attempts : IsKeyed db.attempts
  pub keyed_events : IsKeyed db.events

-- The database behind them.
pub record IsAssigned (to_key : Json → Option ℕ) (db : Db) : Type 0 where
  pub subscriptions : AllRows (SubscriptionIsSound db.customers db.plans) db.subscriptions
  pub invoices : AllRows (InvoiceIsSound db.subscriptions) db.invoices
  pub lines : AllRows (LineIsSound db.invoices) db.lines
  pub attempts : AllRows (AttemptIsSound db.invoices) db.attempts
  pub events :
      (k j : ℕ) (e : WebhookEvent) (a : PaymentAttempt)
      → lookup k db.events ≡ some e
      → to_key (field_value "payment_attempt_id" e.payload) ≡ some j
      → lookup j db.attempts ≡ some a
      → e.organization ≡ some a.organization

module _ (to_key : Json → Option ℕ) (db : Db) (old : IsOld db) where
  -- Where every foreign key leads to a row and no subscription joins a customer and a plan of two
  -- organizations, the three data migrations go through, whatever keys the payloads name, and behind
  -- them every subscription, invoice, line and attempt has the organization of its parents, no client
  -- key is blank, and an event has the organization of the attempt that its payload names.
  pub assign_organizations-IsAssigned :
      (db' : Db) × (assign_organizations to_key db ≡ ok (tt, db')) × IsAssigned to_key db'
  unfolding assign_organizations backfill_invoices backfill_payments
  assign_organizations-IsAssigned =
      let (subscriptions, went1, sound1, stay1) =
        subscriptions-through db old.subscriptions old.keyed_subscriptions in
      let db1 = record db { subscriptions = subscriptions } in
      let (invoices, went2, sound2, stay2) =
        invoices-through db1 (record { at = λ k i e. stay1 i.subscription (old.invoices.at k i e) })
          old.keyed_invoices in
      let db2 = record db1 { invoices = invoices } in
      let (lines, went3, sound3) =
        lines-through db2 (record { at = λ k l e. stay2 l.invoice (old.lines.at k l e) })
          old.keyed_lines in
      let db3 = record db2 { lines = lines } in
      let (attempts, went4, sound4) =
        attempts-through db3 (record { at = λ k a e. stay2 a.invoice (old.attempts.at k a e) })
          old.keyed_attempts in
      let db4 = record db3 { attempts = attempts } in
      let (events, went5, sound5) = events-through db4 to_key old.keyed_events in
      (
        record db4 { events = events },
        ground arith,
        record {
          subscriptions = sound1;
          invoices = sound2;
          lines = sound3;
          attempts = sound4;
          events = λ k j e a stored named found. sound5.at k e stored j a named found;
        },
      )

-- One subscription of a customer and a plan of two organizations stops the migrations with a
-- ValueError, whatever the other rows are, and nothing is assigned.
pub assign_organizations-refuses :
    (to_key : Json → Option ℕ) (db : Db) (k : ℕ) (s : Subscription) (c : Customer) (p : Plan)
    → lookup k db.subscriptions ≡ some s
    → lookup s.customer db.customers ≡ some c
    → lookup s.plan db.plans ≡ some p
    → (c.organization == p.organization) ≡ false
    → assign_organizations to_key db ≡ err value_error
unfolding assign_organizations backfill_subscriptions assign_subscription
assign_organizations-refuses to_key db k s c p stored has_customer has_plan differ =
    let refused =
      save_each-refused (assign_subscription db) value_error only k s (ground arith)
        db.subscriptions db.subscriptions stored in
    ground arith
  where
    only :
        (b : Subscription)
        → ((o : Option Subscription) × (assign_subscription db b ≡ ok o))
          ⊎ (assign_subscription db b ≡ err value_error)
    only b = elim (Option-cases (lookup b.customer db.customers)) [
      | inl no_customer ↦ inl (none, ground arith)
      | inr (c, its_customer) ↦ elim (Option-cases (lookup b.plan db.plans)) [
        | inl no_plan ↦ inl (none, ground arith)
        | inr (p, its_plan) ↦ elim (Bool-cases (c.organization == p.organization)) [
          | inl same ↦ inl (some (record b { organization = c.organization }), ground arith)
          | inr other ↦ inr (ground arith)
        ]
      ]
    ]
