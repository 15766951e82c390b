-- ===== src/Migrations/Rows.antt =====
-- The loops of the data migrations, table by table.
use chargeflow.Prelude.{
  ℕ, String, ◌≡◌, refl, sym, Option, none, some, Table, lookup, arith, IsKeyed, ==_refl,
}
use chargeflow.Schema.{
  Json, Customer, Plan, Subscription, Invoice, InvoiceLine, PaymentAttempt, WebhookEvent,
  field_value,
}
use chargeflow.Db.{Db, ok}
use chargeflow.Payments.Attempts.{or_none}
use chargeflow.Evolution.Growth.{AllRows}
use chargeflow.Evolution.Sound.{SubscriptionIsSound, InvoiceIsSound, LineIsSound, AttemptIsSound}
use chargeflow.Migrations.{
  assign_subscription, assign_invoice, assign_line, assign_attempt, assign_event,
  backfill_subscriptions, backfill_invoice_rows, backfill_lines, backfill_attempts, backfill_events,
}
use chargeflow.Migrations.Backfill.{Exists, left, save_all, save_children}

-- A subscription whose customer and plan exist, in one organization.
pub record IsAgreed (db : Db) (s : Subscription) : Type 0 where
  pub customer : Customer
  pub has_customer : lookup s.customer db.customers ≡ some customer
  pub plan : Plan
  pub has_plan : lookup s.plan db.plans ≡ some plan
  pub agree : customer.organization ≡ plan.organization

or_none-or_none : (k : Option String) → or_none (or_none k) ≡ or_none k
or_none-or_none k = ground arith

module _ (db : Db) where
  pub subscriptions-through :
      AllRows (IsAgreed db) db.subscriptions
      → IsKeyed db.subscriptions
      → (t : Table Subscription) × (backfill_subscriptions db
          ≡ ok (tt, record db { subscriptions = t }))
        × AllRows (SubscriptionIsSound db.customers db.plans) t
        × ((k : ℕ) → Exists db.subscriptions k → Exists t k)
  unfolding backfill_subscriptions assign_subscription
  subscriptions-through agreed keyed =
      let (t, went, sound, stays) =
        save_all (assign_subscription db) new_row (SubscriptionIsSound db.customers db.plans)
          db.subscriptions keyed step in
      (t, ground arith, sound, stays)
    where
      new_row : Subscription → Option Subscription
      new_row s = elim (lookup s.customer db.customers) [
        | none ↦ none
        | some c ↦ some (record s { organization = c.organization })
      ]

      step :
          (k : ℕ) (s : Subscription)
          → lookup k db.subscriptions ≡ some s
          → (assign_subscription db s ≡ ok (new_row s))
            × SubscriptionIsSound db.customers db.plans (left (assign_subscription db) new_row s)
      step k s e =
          let at_row = agreed.at k s e in
          let has_customer = at_row.has_customer in
          let has_plan = at_row.has_plan in
          let agree = at_row.agree in
          let same : left (assign_subscription db) new_row s
              ≡ record s { organization = at_row.customer.organization } =
            ground arith in
          (
            ground (arith, ==_refl at_row.customer.organization),
            rw same (record {
              customer = record {
                parent = at_row.customer;
                stored = has_customer;
                same_organization = refl;
              };
              plan = record {
                parent = at_row.plan;
                stored = has_plan;
                same_organization = sym agree;
              };
            }),
          )

  pub invoices-through :
      AllRows (λ i. Exists db.subscriptions i.subscription) db.invoices
      → IsKeyed db.invoices
      → (t : Table Invoice) × (backfill_invoice_rows db ≡ ok (tt, record db { invoices = t }))
        × AllRows (InvoiceIsSound db.subscriptions) t
        × ((k : ℕ) → Exists db.invoices k → Exists t k)
  unfolding backfill_invoice_rows assign_invoice
  invoices-through existing keyed =
      let (t, went, sound, stays) =
        save_children (assign_invoice db) db.subscriptions (λ i. i.subscription)
          (λ s i. record i { organization = s.organization }) (InvoiceIsSound db.subscriptions)
          (λ i. refl) (λ i s e. record { parent = s; stored = e; same_organization = refl })
          db.invoices keyed existing in
      (t, ground arith, sound, stays)

  pub lines-through :
      AllRows (λ l. Exists db.invoices l.invoice) db.lines
      → IsKeyed db.lines
      → (t : Table InvoiceLine) × (backfill_lines db ≡ ok (tt, record db { lines = t }))
        × AllRows (LineIsSound db.invoices) t
  unfolding backfill_lines assign_line
  lines-through existing keyed =
      let (t, went, sound, _) =
        save_children (assign_line db) db.invoices (λ l. l.invoice)
          (λ i l. record l { organization = i.organization }) (LineIsSound db.invoices) (λ l. refl)
          (λ l i e. record { parent = i; stored = e; same_organization = refl }) db.lines keyed
          existing in
      (t, ground arith, sound)

  pub attempts-through :
      AllRows (λ a. Exists db.invoices a.invoice) db.attempts
      → IsKeyed db.attempts
      → (t : Table PaymentAttempt) × (backfill_attempts db ≡ ok (tt, record db { attempts = t }))
        × AllRows (AttemptIsSound db.invoices) t
  unfolding backfill_attempts assign_attempt
  attempts-through existing keyed =
      let (t, went, sound, _) =
        save_children (assign_attempt db) db.invoices (λ a. a.invoice)
          (λ i a. record a {
            organization = i.organization;
            idempotency_key = or_none a.idempotency_key;
          })
          (AttemptIsSound db.invoices) (λ a. refl)
          (λ a i e. record {
            invoice = record { parent = i; stored = e; same_organization = refl };
            key = or_none-or_none a.idempotency_key;
          })
          db.attempts keyed existing in
      (t, ground arith, sound)

  module _ (to_key : Json → Option ℕ) where
    -- The event has the organization of the attempt that its payload names.
    abbrev pub EventIsAssigned : WebhookEvent → Type 0
    EventIsAssigned e =
        (k : ℕ) (a : PaymentAttempt)
        → to_key (field_value "payment_attempt_id" e.payload) ≡ some k
        → lookup k db.attempts ≡ some a
        → e.organization ≡ some a.organization

    pub events-through :
        IsKeyed db.events
        → (t : Table WebhookEvent) × (backfill_events to_key db ≡ ok (tt, record db { events = t }))
          × AllRows EventIsAssigned t
    unfolding backfill_events assign_event
    events-through keyed =
        let (t, went, sound, _) =
          save_all (assign_event to_key db) new_row EventIsAssigned db.events keyed
            (λ k e _. (ground arith, λ k a named found. ground arith)) in
        (t, ground arith, sound)
      where
        new_row : WebhookEvent → Option WebhookEvent
        new_row e = elim (to_key (field_value "payment_attempt_id" e.payload)) [
          | none ↦ none
          | some k ↦ elim (lookup k db.attempts) [
            | none ↦ none
            | some a ↦ some (record e { organization = some a.organization })
          ]
        ]
