-- ===== src/Evolution/Rows.antt =====
-- How the rows of the billing tables may change: the relation that every transaction of the
-- services keeps, and the rules that carry it through `do` blocks.
use chargeflow.Prelude.{Bool, true, false, ◌≡◌, refl, ◌∙◌, arith, is_blank}
use chargeflow.Schema.{
  InvoiceStatus, Invoice, invoice_transitions, invoice_status_in, SubscriptionStatus, Subscription,
  subscription_transitions, subscription_status_in, PaymentStatus, PaymentAttempt,
}

-- A chain of moves that `INVOICE_TRANSITIONS` allows.
pub data InvoicePath (s : InvoiceStatus) : InvoiceStatus → Type 0 where
  here : InvoicePath s s
  step :
      {t u : InvoiceStatus}
      → InvoicePath s t
      → invoice_status_in u (invoice_transitions t) ≡ true
      → InvoicePath s u

-- A chain of moves that `SUBSCRIPTION_TRANSITIONS` allows.
pub data SubscriptionPath (s : SubscriptionStatus) : SubscriptionStatus → Type 0 where
  here : SubscriptionPath s s
  step :
      {t u : SubscriptionStatus}
      → SubscriptionPath s t
      → subscription_status_in u (subscription_transitions t) ≡ true
      → SubscriptionPath s u

-- An attempt moves to a final state and to no other, except that a late success replaces a failure.
abbrev pub status_le : PaymentStatus → PaymentStatus → Bool
status_le PaymentStatus.pending _ = true
status_le PaymentStatus.failed PaymentStatus.pending = false
status_le PaymentStatus.failed _ = true
status_le PaymentStatus.success PaymentStatus.success = true
status_le PaymentStatus.success _ = false

-- What the life of an invoice keeps: its terms, the order of its states, and everything once it is
-- paid or canceled.
pub record InvoiceLe (i j : Invoice) : Type 0 where
  pub organization : j.organization ≡ i.organization
  pub subscription : j.subscription ≡ i.subscription
  pub total : j.total ≡ i.total
  pub currency : j.currency ≡ i.currency
  pub period_start : j.period_start ≡ i.period_start
  pub period_end : j.period_end ≡ i.period_end
  pub path : InvoicePath i.status j.status
  pub paid : i.status ≡ InvoiceStatus.paid → j ≡ i
  pub canceled : i.status ≡ InvoiceStatus.canceled → j ≡ i

-- What the life of a subscription keeps.
pub record SubscriptionLe (s t : Subscription) : Type 0 where
  pub organization : t.organization ≡ s.organization
  pub customer : t.customer ≡ s.customer
  pub plan : t.plan ≡ s.plan
  pub path : SubscriptionPath s.status t.status
  pub canceled :
      s.status ≡ SubscriptionStatus.canceled
      → (t.status ≡ SubscriptionStatus.canceled)
        × (t.canceled_at ≡ s.canceled_at)
        × (t.current_period_start ≡ s.current_period_start)
        × (t.current_period_end ≡ s.current_period_end)

-- What the life of an attempt keeps: the request, the charge's name once it is known, the flag.
pub record AttemptLe (a b : PaymentAttempt) : Type 0 where
  pub organization : b.organization ≡ a.organization
  pub invoice : b.invoice ≡ a.invoice
  pub amount : b.amount ≡ a.amount
  pub currency : b.currency ≡ a.currency
  pub provider : b.provider ≡ a.provider
  pub provider_idempotency_key : b.provider_idempotency_key ≡ a.provider_idempotency_key
  pub provider_customer_id : b.provider_customer_id ≡ a.provider_customer_id
  pub provider_payment_method_id : b.provider_payment_method_id ≡ a.provider_payment_method_id
  pub idempotency_key : b.idempotency_key ≡ a.idempotency_key
  pub attempted_at : b.attempted_at ≡ a.attempted_at
  pub charge_id :
      is_blank a.provider_charge_id ≡ false → b.provider_charge_id ≡ a.provider_charge_id
  pub flag : a.needs_reconciliation ≡ true → b.needs_reconciliation ≡ true
  pub status : status_le a.status b.status ≡ true

InvoicePath-trans : {s t u : InvoiceStatus} → InvoicePath s t → InvoicePath t u → InvoicePath s u
InvoicePath-trans p here = p
InvoicePath-trans p (step q h) = step (InvoicePath-trans p q) h

SubscriptionPath-trans :
    {s t u : SubscriptionStatus}
    → SubscriptionPath s t
    → SubscriptionPath t u
    → SubscriptionPath s u
SubscriptionPath-trans p here = p
SubscriptionPath-trans p (step q h) = step (SubscriptionPath-trans p q) h

pub InvoiceLe-refl : (i : Invoice) → InvoiceLe i i
InvoiceLe-refl i = record {
  organization = refl;
  subscription = refl;
  total = refl;
  currency = refl;
  period_start = refl;
  period_end = refl;
  path = here;
  paid = λ _. refl;
  canceled = λ _. refl;
}

pub InvoiceLe-trans : {i j k : Invoice} → InvoiceLe i j → InvoiceLe j k → InvoiceLe i k
InvoiceLe-trans p q = record {
  organization = q.organization ∙ p.organization;
  subscription = q.subscription ∙ p.subscription;
  total = q.total ∙ p.total;
  currency = q.currency ∙ p.currency;
  period_start = q.period_start ∙ p.period_start;
  period_end = q.period_end ∙ p.period_end;
  path = InvoicePath-trans p.path q.path;
  paid = λ h. q.paid (ap_status (p.paid h) ∙ h) ∙ p.paid h;
  canceled = λ h. q.canceled (ap_status (p.canceled h) ∙ h) ∙ p.canceled h;
}
  where
    ap_status : {i j : Invoice} → j ≡ i → j.status ≡ i.status
    ap_status e = λ x. (e x).status

pub SubscriptionLe-refl : (s : Subscription) → SubscriptionLe s s
SubscriptionLe-refl s = record {
  organization = refl;
  customer = refl;
  plan = refl;
  path = here;
  canceled = λ h. (h, refl, refl, refl);
}

pub SubscriptionLe-trans :
    {s t u : Subscription} → SubscriptionLe s t → SubscriptionLe t u → SubscriptionLe s u
SubscriptionLe-trans p q = record {
  organization = q.organization ∙ p.organization;
  customer = q.customer ∙ p.customer;
  plan = q.plan ∙ p.plan;
  path = SubscriptionPath-trans p.path q.path;
  canceled = λ h.
      let (still, at, start, end) = p.canceled h in
      let (still', at', start', end') = q.canceled still in
      (still', at' ∙ at, start' ∙ start, end' ∙ end);
}

pub AttemptLe-refl : (a : PaymentAttempt) → AttemptLe a a
AttemptLe-refl a = ground arith

status_le_trans :
    (s t u : PaymentStatus) → status_le s t ≡ true → status_le t u ≡ true → status_le s u ≡ true
status_le_trans s t u p q = ground arith

pub AttemptLe-trans : {a b c : PaymentAttempt} → AttemptLe a b → AttemptLe b c → AttemptLe a c
AttemptLe-trans {a} {b} {c} p q = ground (arith, status_le_trans a.status b.status c.status)
