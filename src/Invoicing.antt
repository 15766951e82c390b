-- ===== src/Invoicing.antt =====
-- `InvoiceService.generate_for_subscription`: one invoice for a period.
use Prim.Native.String.{count}
use chargeflow.Prelude.{
  ℕ, ◌≢◌, [], ◌∷◌, ◌++◌, true, false, ◌≡◌, refl, sym, ◌∙◌, none, some, lookup, add, fresh, find_row,
  find_row-lookup, lookup-add_self, put-add, ltb, if◌then◌else◌, arith, ==_refl,
}
use chargeflow.Calendar.{DateTime, same_time}
use chargeflow.Schema.{
  SubscriptionStatus, Subscription, Plan, InvoiceStatus, Invoice, InvoiceLine, invoice_status_in,
  invoice_transitions,
}
use chargeflow.Db.{Db, ok, err, data_error, hand_off}
use chargeflow.Invoices.{
  stamp, compare_and_set, transition_to, is_for_period, new_invoice, new_line, create_line,
  description_length, create_and_issue, generate_for_subscription,
}

same_time_refl : (t : DateTime) → same_time t t ≡ true
unfolding same_time
same_time_refl t = ground arith

absurd_bool : true ≡ false → ⊥
absurd_bool h = cc

-- The invoice of a period: ISSUED, with the plan's price and currency.
abbrev pub billed : ℕ → Subscription → Plan → DateTime → Invoice
billed pk s plan now = record {
  organization = s.organization;
  subscription = pk;
  status = InvoiceStatus.issued;
  total = plan.price;
  currency = plan.currency;
  period_start = s.current_period_start;
  period_end = s.current_period_end;
  issued_at = some now;
  paid_at = none;
  updated_at = now;
}

-- Its one line, with the plan's name and price.
abbrev pub billed_line : ℕ → Subscription → Plan → InvoiceLine
billed_line k s plan = record {
  organization = s.organization;
  invoice = k;
  plan_name = plan.name;
  from_date = s.current_period_start;
  to_date = s.current_period_end;
  amount = plan.price;
}

-- The database with a new invoice for the period: the row, its line, and the hand-off.
abbrev pub invoiced : ℕ → Subscription → Plan → DateTime → Db → Db
invoiced pk s plan now db =
    let k : ℕ = fresh db.invoices in
    record db {
      invoices = add (billed pk s plan now) db.invoices;
      lines = add (billed_line k s plan) db.lines;
      queue = db.queue ++ k ∷ [];
    }

-- The invoice and the line that the code creates, and the invoice behind its transition.
draft :
    (pk : ℕ) (s : Subscription) (plan : Plan) (now : DateTime)
    → ((new_invoice pk s plan now).status ≡ InvoiceStatus.draft)
      × (stamp InvoiceStatus.issued now (new_invoice pk s plan now) ≡ billed pk s plan now)
unfolding new_invoice stamp
draft pk s plan now = (refl, refl)

new_line-eq : (k : ℕ) (s : Subscription) (plan : Plan) → new_line k s plan ≡ billed_line k s plan
unfolding new_line
new_line-eq k s plan = refl

create_line-eq :
    (k : ℕ) (s : Subscription) (plan : Plan) (db : Db)
    → create_line (new_line k s plan) db ≡ (
        if ltb 229 (count plan.name)
        then err data_error
        else ok (tt, record db { lines = add (billed_line k s plan) db.lines }))
unfolding create_line description_length
create_line-eq k s plan db = rw (new_line-eq k s plan) (ground arith)

-- The UPDATE of the row that was just inserted.
issued_row :
    (self : Invoice) (now : DateTime) (db : Db)
    → self.status ≡ InvoiceStatus.draft
    → transition_to
        (fresh db.invoices)
        self
        InvoiceStatus.issued
        now
        (record db { invoices = add self db.invoices })
      ≡ ok (
        stamp InvoiceStatus.issued now self,
        record db { invoices = add (stamp InvoiceStatus.issued now self) db.invoices },
      )
unfolding transition_to compare_and_set invoice_status_in invoice_transitions
issued_row self now db d = ground (
  arith,
  lookup-add_self self db.invoices,
  put-add (stamp InvoiceStatus.issued now self) self db.invoices,
)

create_and_issue-eq :
    (pk : ℕ) (s : Subscription) (plan : Plan) (now : DateTime) (db : Db)
    → create_and_issue pk s plan now db ≡ (
        if ltb 229 (count plan.name)
        then err data_error
        else ok (some (fresh db.invoices, billed pk s plan now), invoiced pk s plan now db))
unfolding create_and_issue hand_off
create_and_issue-eq pk s plan now db =
    let (is_draft, stamped) = draft pk s plan now in
    ground (
      arith,
      stamped,
      create_line-eq (fresh db.invoices) s plan
          (record db { invoices = add (new_invoice pk s plan now) db.invoices }),
      issued_row (new_invoice pk s plan now) now
          (record db { lines = add (billed_line (fresh db.invoices) s plan) db.lines }) is_draft,
    )

billed-period :
    (pk : ℕ) (s : Subscription) (plan : Plan) (now : DateTime)
    → is_for_period pk s (billed pk s plan now) ≡ true
unfolding is_for_period
billed-period pk s plan now =
    ground (
      arith,
      ==_refl pk,
      same_time_refl s.current_period_start,
      same_time_refl s.current_period_end,
    )

pub invoiced-found :
    (pk : ℕ) (s : Subscription) (plan : Plan) (now : DateTime) (db : Db)
    → find_row (is_for_period pk s) (invoiced pk s plan now db).invoices ≢ none
invoiced-found pk s plan now db missing =
    let no =
      find_row-lookup (is_for_period pk s) (fresh db.invoices) (billed pk s plan now)
        (invoiced pk s plan now db).invoices (lookup-add_self (billed pk s plan now) db.invoices)
        missing in
    absurd_bool (sym (billed-period pk s plan now) ∙ no)

module _ (pk : ℕ) (s : Subscription) (plan : Plan) (db : Db)
    (has_subscription : lookup pk db.subscriptions ≡ some s)
    (has_plan : lookup s.plan db.plans ≡ some plan)
    (active : s.status ≡ SubscriptionStatus.active) where
  pub generate-found :
      (now : DateTime) (found : ℕ × Invoice)
      → find_row (is_for_period pk s) db.invoices ≡ some found
      → generate_for_subscription pk now db ≡ ok (some found, db)
  unfolding generate_for_subscription
  generate-found now found h = ground (arith, has_subscription, has_plan, active)

  -- An active subscription without an invoice for its period, with a plan whose name has at most 229
  -- characters, gets exactly one: the invoice is ISSUED with the plan's price and currency for the
  -- subscription's period, it has one line with the plan's name and price, and its charge is handed
  -- off once. With a longer name the description of the line has more than 255 characters, and the
  -- call raises a DataError.
  pub generate-creates :
      (now : DateTime)
      → find_row (is_for_period pk s) db.invoices ≡ none
      → generate_for_subscription pk now db ≡ (
          if ltb 229 (count plan.name)
          then err data_error
          else ok (some (fresh db.invoices, billed pk s plan now), invoiced pk s plan now db))
  unfolding generate_for_subscription
  generate-creates now h =
      ground (arith, has_subscription, has_plan, active, create_and_issue-eq pk s plan now db)
