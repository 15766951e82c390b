-- ===== src/Invoices.antt =====
-- invoices/domain/models.py (`transition_to`) and invoices/application/services.py. An invoice in
-- memory is its key and the row that was read; `now` is the transaction's reading of the clock.
use Prim.Native.String.{count}
use chargeflow.Prelude.{
  ℕ, Bool, ◌&&◌, not, Option, none, some, List, [], ◌∷◌, lookup, put, add, fresh, find_row, select,
  ◌==◌, ltb, ◌+◌, if◌then◌else◌,
}
use chargeflow.Calendar.{DateTime, same_time}
use chargeflow.Schema.{
  SubscriptionStatus, same_subscription_status, Subscription, Plan, InvoiceStatus, Invoice,
  InvoiceLine, invoice_transitions, same_invoice_status, invoice_status_in,
}
use chargeflow.Db.{
  invalid_status_transition, data_error, raise_if, ok, err, M, pure, raise, get, ◌>>=◌, ◌>>◌,
  modify, hand_off,
}

-- The columns that a transition writes.
unfoldable pub stamp : InvoiceStatus → DateTime → Invoice → Invoice
stamp new now row = record row {
  status = new;
  updated_at = now;
  issued_at = if same_invoice_status new InvoiceStatus.issued then some now else row.issued_at;
  paid_at = if same_invoice_status new InvoiceStatus.paid then some now else row.paid_at;
}

-- The UPDATE filtered by key and by the status that was read.
unfoldable pub compare_and_set : ℕ → Invoice → InvoiceStatus → DateTime → M Invoice
compare_and_set pk self new now db = elim (lookup pk db.invoices) [
  | none ↦ err invalid_status_transition
  | some row ↦
      if same_invoice_status row.status self.status
      then ok (stamp new now self, record db { invoices = put pk (stamp new now row) db.invoices })
      else err invalid_status_transition
]

-- `Invoice.transition_to`
unfoldable pub transition_to : ℕ → Invoice → InvoiceStatus → DateTime → M Invoice
transition_to pk self new now =
    if invoice_status_in new (invoice_transitions self.status)
    then compare_and_set pk self new now
    else raise invalid_status_transition

-- The lookup of `get_or_create`.
unfoldable pub is_for_period : ℕ → Subscription → Invoice → Bool
is_for_period pk s row =
    row.subscription == pk
    && same_time row.period_start s.current_period_start
    && same_time row.period_end s.current_period_end

-- The row of the INSERT. `Invoice.clean` fills the organization in from the subscription.
unfoldable pub new_invoice : ℕ → Subscription → Plan → DateTime → Invoice
new_invoice pk s plan now = record {
  organization = s.organization;
  subscription = pk;
  status = InvoiceStatus.draft;
  total = plan.price;
  currency = plan.currency;
  period_start = s.current_period_start;
  period_end = s.current_period_end;
  issued_at = none;
  paid_at = none;
  updated_at = now;
}

unfoldable pub new_line : ℕ → Subscription → Plan → InvoiceLine
new_line invoice_pk s plan = record {
  organization = s.organization;
  invoice = invoice_pk;
  plan_name = plan.name;
  from_date = s.current_period_start;
  to_date = s.current_period_end;
  amount = plan.price;
}

-- The characters of the description, `f"{name} ({start} - {end})"`: a date takes ten.
unfoldable pub description_length : InvoiceLine → ℕ
description_length line = count line.plan_name + 2 + 10 + 3 + 10 + 1

-- `max_length` of the description.
abbrev pub max_description_length : ℕ
max_description_length = 255

-- `InvoiceLine.objects.create`: the column refuses a longer description with a DataError.
unfoldable pub create_line : InvoiceLine → M (Unit {0})
create_line line =
    raise_if (ltb max_description_length (description_length line)) data_error
    >> modify (λ db. record db { lines = add line db.lines })

-- The part behind `if not created: return invoice`.
unfoldable pub create_and_issue : ℕ → Subscription → Plan → DateTime → M (Option (ℕ × Invoice))
create_and_issue pk s plan now = do
  invoice_pk ← λ db. ok (fresh db.invoices, db)
  let invoice = new_invoice pk s plan now
  modify λ db. record db { invoices = add invoice db.invoices }
  create_line (new_line invoice_pk s plan)
  issued ← transition_to invoice_pk invoice InvoiceStatus.issued now
  hand_off invoice_pk
  pure (some (invoice_pk, issued))

-- `InvoiceService.generate_for_subscription`
unfoldable pub generate_for_subscription : ℕ → DateTime → M (Option (ℕ × Invoice))
generate_for_subscription pk now = do
  s ← get (λ db. db.subscriptions) pk
  plan ← get (λ db. db.plans) s.plan
  if same_subscription_status s.status SubscriptionStatus.active
      then (λ db. elim (find_row (is_for_period pk s) db.invoices) [
        | some found ↦ ok (some found, db)
        | none ↦ create_and_issue pk s plan now db
      ])
      else pure none

-- `InvoiceService.mark_paid`
unfoldable pub mark_paid : ℕ → DateTime → M (Unit {0})
mark_paid pk now = do
  invoice ← get (λ db. db.invoices) pk
  if same_invoice_status invoice.status InvoiceStatus.paid
      then pure tt
      else (transition_to pk invoice InvoiceStatus.paid now >> pure tt)

-- `InvoiceService.mark_failed`
unfoldable pub mark_failed : ℕ → DateTime → M (Unit {0})
mark_failed pk now = do
  invoice ← get (λ db. db.invoices) pk
  if not (same_invoice_status invoice.status InvoiceStatus.issued)
      then pure tt
      else (transition_to pk invoice InvoiceStatus.failed now >> pure tt)

-- The invoices that `cancel_open_for_subscription` takes.
unfoldable pub is_open_of : ℕ → ℕ → Invoice → Bool
is_open_of subscription_pk pk row =
    row.subscription == subscription_pk
    && invoice_status_in row.status
        (InvoiceStatus.draft ∷ InvoiceStatus.issued ∷ InvoiceStatus.failed ∷ [])

unfoldable pub cancel_each : List (ℕ × Invoice) → DateTime → M (Unit {0})
cancel_each [] now = pure tt
cancel_each ((pk, invoice) ∷ rest) now =
    transition_to pk invoice InvoiceStatus.canceled now >> cancel_each rest now

-- `InvoiceService.cancel_open_for_subscription`
unfoldable pub cancel_open_for_subscription : ℕ → DateTime → M (Unit {0})
cancel_open_for_subscription subscription_pk now db =
    cancel_each (select (is_open_of subscription_pk) db.invoices) now db

-- `InvoiceService.mark_overdue`
unfoldable pub mark_overdue : ℕ → DateTime → M (Unit {0})
mark_overdue pk now = do
  invoice ← get (λ db. db.invoices) pk
  if not (same_invoice_status invoice.status InvoiceStatus.failed)
      then pure tt
      else (transition_to pk invoice InvoiceStatus.overdue now >> pure tt)

-- `InvoiceService.reissue_for_retry`
unfoldable pub reissue_for_retry : ℕ → DateTime → M (Unit {0})
reissue_for_retry pk now = do
  invoice ← get (λ db. db.invoices) pk
  if not (same_invoice_status invoice.status InvoiceStatus.failed)
      then pure tt
      else (transition_to pk invoice InvoiceStatus.issued now >> hand_off pk)
