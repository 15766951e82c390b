-- ===== src/Migrations.antt =====
-- The data migrations that give each billing row its organization: `backfill` of
-- subscriptions/migrations/0003_subscription_organization.py,
-- invoices/migrations/0003_invoice_organization.py and
-- payments/migrations/0004_payment_organization.py.
--
-- The column `organization` is new and null before them; nothing here reads it. `select_related` on a
-- foreign key that is never null is an inner join: a row without its parent is not in the query.
-- `to_key` is the coercion of Django's key field, `none` where it refuses the value or takes it for
-- null; a webhook's payload is an object.
pub mod Backfill
pub mod Rows
pub mod Organizations
use chargeflow.Prelude.{
  ℕ, String, Option, none, some, [], ◌∷◌, Table, lookup, put, ◌==◌, if◌then◌else◌,
}
use chargeflow.Schema.{
  Json, Subscription, Invoice, InvoiceLine, PaymentAttempt, WebhookEvent, field_value,
}
use chargeflow.Db.{Db, Result, ok, err, value_error, M, pure, ◌>>◌}
use chargeflow.Payments.Attempts.{or_none}

-- `for row in rows: ...; row.save(update_fields=...)`: `change` gives the row that is saved, `none`
-- where the loop goes on to the next row.
unfoldable pub save_each :
    {A : Type 0} → (A → Result (Option A)) → Table A → Table A → Result (Table A)
save_each change [] t = ok t
save_each change ((k, row) ∷ rows) t = elim (change row) [
  | err e ↦ err e
  | ok none ↦ save_each change rows t
  | ok (some changed) ↦ save_each change rows (put k changed t)
]

-- A step of the loop over the subscriptions.
unfoldable pub assign_subscription : Db → Subscription → Result (Option Subscription)
assign_subscription db row = elim (lookup row.customer db.customers) [
  | none ↦ ok none
  | some c ↦ elim (lookup row.plan db.plans) [
    | none ↦ ok none
    | some p ↦
        if c.organization == p.organization
        then ok (some (record row { organization = c.organization }))
        else err value_error
  ]
]

unfoldable pub backfill_subscriptions : M (Unit {0})
backfill_subscriptions db =
    elim (save_each (assign_subscription db) db.subscriptions db.subscriptions) [
      | err e ↦ err e
      | ok t ↦ ok (tt, record db { subscriptions = t })
    ]

-- Steps of the two loops of the invoices' migration.
unfoldable pub assign_invoice : Db → Invoice → Result (Option Invoice)
assign_invoice db row = elim (lookup row.subscription db.subscriptions) [
  | none ↦ ok none
  | some s ↦ ok (some (record row { organization = s.organization }))
]

unfoldable pub assign_line : Db → InvoiceLine → Result (Option InvoiceLine)
assign_line db row = elim (lookup row.invoice db.invoices) [
  | none ↦ ok none
  | some i ↦ ok (some (record row { organization = i.organization }))
]

unfoldable pub backfill_invoice_rows : M (Unit {0})
backfill_invoice_rows db = elim (save_each (assign_invoice db) db.invoices db.invoices) [
  | err e ↦ err e
  | ok t ↦ ok (tt, record db { invoices = t })
]

unfoldable pub backfill_lines : M (Unit {0})
backfill_lines db = elim (save_each (assign_line db) db.lines db.lines) [
  | err e ↦ err e
  | ok t ↦ ok (tt, record db { lines = t })
]

unfoldable pub backfill_invoices : M (Unit {0})
backfill_invoices = backfill_invoice_rows >> backfill_lines

-- Steps of the two loops of the payments' migration.
unfoldable pub assign_attempt : Db → PaymentAttempt → Result (Option PaymentAttempt)
assign_attempt db row = elim (lookup row.invoice db.invoices) [
  | none ↦ ok none
  | some i ↦ ok (
      some (record row {
        organization = i.organization;
        idempotency_key = or_none row.idempotency_key;
      }))
]

unfoldable pub assign_event : (Json → Option ℕ) → Db → WebhookEvent → Result (Option WebhookEvent)
assign_event to_key db row = elim (to_key (field_value "payment_attempt_id" row.payload)) [
  | none ↦ ok none
  | some k ↦ elim (lookup k db.attempts) [
    | none ↦ ok none
    | some a ↦ ok (some (record row { organization = some a.organization }))
  ]
]

unfoldable pub backfill_attempts : M (Unit {0})
backfill_attempts db = elim (save_each (assign_attempt db) db.attempts db.attempts) [
  | err e ↦ err e
  | ok t ↦ ok (tt, record db { attempts = t })
]

unfoldable pub backfill_events : (Json → Option ℕ) → M (Unit {0})
backfill_events to_key db = elim (save_each (assign_event to_key db) db.events db.events) [
  | err e ↦ err e
  | ok t ↦ ok (tt, record db { events = t })
]

unfoldable pub backfill_payments : (Json → Option ℕ) → M (Unit {0})
backfill_payments to_key = backfill_attempts >> backfill_events to_key

-- The three migrations, in the order of their dependencies.
unfoldable pub assign_organizations : (Json → Option ℕ) → M (Unit {0})
assign_organizations to_key =
    backfill_subscriptions >> (backfill_invoices >> backfill_payments to_key)
