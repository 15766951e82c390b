-- ===== src/Payments/Prepare.antt =====
-- `PaymentService._prepare` of payments/application/services.py: the first phase of a charge. Each
-- definition is the code from one early return to the next.
use chargeflow.Prelude.{
  ℕ, String, Bool, true, false, ◌&&◌, ◌||◌, not, Option, none, some, find_row, ◌==◌, if◌then◌else◌,
}
use chargeflow.Calendar.{DateTime, not_after}
use chargeflow.Schema.{
  empty, Customer, SubscriptionStatus, same_subscription_status, Subscription, InvoiceStatus,
  Invoice, same_invoice_status, invoice_status_in, payable_invoice_statuses, PaymentStatus,
  PaymentAttempt, same_payment_status,
}
use chargeflow.Db.{invoice_not_payable, idempotency_conflict, err, M, pure, raise, get, ◌>>=◌}
use chargeflow.Payments.Attempts.{create, same_key, or_none, is_pending}

-- The attempt, with its key, and whether to charge it.
abbrev pub Prepared : Type 0
Prepared = Option (ℕ × PaymentAttempt) × Bool

-- `status == PENDING and not needs_reconciliation`
unfoldable pub is_chargeable : PaymentAttempt → Bool
is_chargeable a = is_pending a.status && not a.needs_reconciliation

abbrev pub return_attempt : ℕ × PaymentAttempt → Bool → M Prepared
return_attempt found charge = pure (some found, charge)

-- The row of a new attempt: a snapshot of the invoice and of the customer's tokens.
unfoldable pub new_attempt :
    ℕ → Invoice → Customer → Option String → String → DateTime → ℕ → PaymentAttempt
new_attempt invoice_pk invoice customer key provider_key now organization = record {
  organization = organization;
  invoice = invoice_pk;
  status = PaymentStatus.pending;
  amount = invoice.total;
  currency = invoice.currency;
  provider = "mock";
  provider_idempotency_key = provider_key;
  provider_customer_id = customer.provider_customer_id;
  provider_payment_method_id = customer.provider_payment_method_id;
  provider_charge_id = "";
  provider_response = empty;
  idempotency_key = key;
  attempted_at = now;
  needs_reconciliation = false;
}

module _ (invoice_pk : ℕ) (s : Subscription) (invoice : Invoice) (customer : Customer) where
  -- From the test of the subscription to the end.
  unfoldable pub prepare_new : Option String → String → DateTime → M Prepared
  prepare_new key provider_key now =
      if same_subscription_status s.status SubscriptionStatus.canceled
      then raise invoice_not_payable
      else do
        created ← create (new_attempt invoice_pk invoice customer key provider_key now) invoice_pk
        return_attempt created true

  abbrev pub is_live : PaymentAttempt → Bool
  is_live a =
      a.invoice == invoice_pk
      && (is_pending a.status || same_payment_status a.status PaymentStatus.success)

  -- From the look for an attempt that is pending or has succeeded.
  unfoldable pub prepare_existing : Option String → String → DateTime → M Prepared
  prepare_existing key provider_key now db = elim (find_row is_live db.attempts) [
    | some (k, a) ↦ return_attempt (k, a) (is_chargeable a) db
    | none ↦ prepare_new key provider_key now db
  ]

  abbrev pub is_of_issue : DateTime → PaymentAttempt → Bool
  is_of_issue issued_at a = a.invoice == invoice_pk && not_after issued_at a.attempted_at

  -- An attempt of the current issue under another client key is a conflict.
  unfoldable pub return_of_issue : Option String → ℕ × PaymentAttempt → M Prepared
  return_of_issue none (k, a) = return_attempt (k, a) (is_chargeable a)
  return_of_issue (some key) (k, a) =
      if same_key a.idempotency_key (some key)
      then return_attempt (k, a) (is_chargeable a)
      else raise idempotency_conflict

  -- The look for an attempt since the invoice was issued last.
  unfoldable pub prepare_since : DateTime → Option String → String → DateTime → M Prepared
  prepare_since issued_at key provider_key now db =
      elim (find_row (is_of_issue issued_at) db.attempts) [
        | some found ↦ return_of_issue key found db
        | none ↦ prepare_existing key provider_key now db
      ]

  -- `if invoice.status == ISSUED and invoice.issued_at`
  unfoldable pub prepare_issue : Option String → String → DateTime → M Prepared
  prepare_issue key provider_key now db =
      if same_invoice_status invoice.status InvoiceStatus.issued
      then elim invoice.issued_at [
        | none ↦ prepare_existing key provider_key now db
        | some issued_at ↦ prepare_since issued_at key provider_key now db
      ]
      else prepare_existing key provider_key now db

  abbrev pub is_pending_here : PaymentAttempt → Bool
  is_pending_here a = a.invoice == invoice_pk && is_pending a.status

  -- From the test that the invoice is payable.
  unfoldable pub prepare_payable : Option String → String → DateTime → M Prepared
  prepare_payable key provider_key now db =
      if not (invoice_status_in invoice.status payable_invoice_statuses)
      then elim (find_row is_pending_here db.attempts) [
        | some (k, a) ↦ return_attempt (k, a) (not a.needs_reconciliation) db
        | none ↦ err invoice_not_payable
      ]
      else prepare_issue key provider_key now db

  abbrev pub is_replay : String → PaymentAttempt → Bool
  is_replay key a = a.organization == invoice.organization && same_key a.idempotency_key (some key)

  -- From the normalised client key: the same key in the organization is a replay.
  unfoldable pub prepare_keyed : Option String → String → DateTime → M Prepared
  prepare_keyed none provider_key now db = prepare_payable none provider_key now db
  prepare_keyed (some key) provider_key now db = elim (find_row (is_replay key) db.attempts) [
    | some (k, a) ↦
        if not (a.invoice == invoice_pk)
        then err idempotency_conflict
        else return_attempt (k, a) (is_chargeable a) db
    | none ↦ prepare_payable (some key) provider_key now db
  ]

-- `PaymentService._prepare`; `provider_key` is the new `uuid4().hex`.
unfoldable pub prepare : ℕ → Option String → Bool → String → DateTime → M Prepared
prepare invoice_pk key issued_only provider_key now = do
  found ← get (λ db. db.invoices) invoice_pk
  s ← get (λ db. db.subscriptions) found.subscription
  invoice ← get (λ db. db.invoices) invoice_pk
  customer ← get (λ db. db.customers) s.customer
  if issued_only && not (same_invoice_status invoice.status InvoiceStatus.issued)
      then pure (none, false)
      else prepare_keyed invoice_pk s invoice customer (or_none key) provider_key now
