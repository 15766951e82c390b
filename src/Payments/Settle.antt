-- ===== src/Payments/Settle.antt =====
-- `PaymentService.settle` of payments/application/services.py: the third phase of a charge, and the
-- whole of a webhook's effect. Each definition is the code from one early return to the next.
use chargeflow.Prelude.{
  ℕ, String, Bool, true, ◌&&◌, ◌||◌, not, Option, none, some, any_entry, ◌==◌, same_text, is_blank,
  if◌then◌else◌,
}
use chargeflow.Calendar.{DateTime}
use chargeflow.Schema.{
  Json, Fields, empty, field, field_text, SubscriptionStatus, same_subscription_status,
  Subscription, Invoice, invoice_status_in, payable_invoice_statuses, PaymentStatus, PaymentAttempt,
  same_payment_status,
}
use chargeflow.Db.{
  Error, integrity_error, unique_provider_charge, M, pure, raise, gets, handle, get, ◌>>=◌, ◌>>◌,
}
use chargeflow.Invoices
use chargeflow.Subscriptions.Services
use chargeflow.Payments.Attempts.{save, is_success}

-- `update_fields`, by the columns named in each `save`.
abbrev pub write_flag : PaymentAttempt → PaymentAttempt → PaymentAttempt
write_flag self row = record row {
  provider_response = self.provider_response;
  needs_reconciliation = self.needs_reconciliation;
}

abbrev pub write_charge_id : PaymentAttempt → PaymentAttempt → PaymentAttempt
write_charge_id self row = record row {
  provider_response = self.provider_response;
  provider_charge_id = self.provider_charge_id;
}

abbrev pub write_unapplied : PaymentAttempt → PaymentAttempt → PaymentAttempt
write_unapplied self row = record row {
  provider_response = self.provider_response;
  provider_charge_id = self.provider_charge_id;
  needs_reconciliation = self.needs_reconciliation;
}

abbrev pub write_status : PaymentAttempt → PaymentAttempt → PaymentAttempt
write_status self row = record row {
  status = self.status;
  provider_response = self.provider_response;
  provider_charge_id = self.provider_charge_id;
}

-- `payment.status == SUCCESS or payment.needs_reconciliation`
unfoldable pub is_final : PaymentAttempt → Bool
is_final a = is_success a.status || a.needs_reconciliation

-- Both charge names are there and they differ.
unfoldable pub is_mismatch : PaymentAttempt → String → Bool
is_mismatch a incoming =
    not (is_blank a.provider_charge_id)
    && not (is_blank incoming)
    && not (same_text a.provider_charge_id incoming)

-- `provider_charge_id or provider_response.get("provider_charge_id", "")`
unfoldable pub incoming_charge_id : String → Fields → String
incoming_charge_id charge_id response =
    if is_blank charge_id then field_text "provider_charge_id" response else charge_id

unfoldable pub mismatch_response : PaymentAttempt → Fields → String → Fields
mismatch_response a response incoming = field "previous" (Json.object a.provider_response) (
    field "reconciliation" (Json.object response)
      (field "reconciliation_provider_charge_id" (Json.str incoming) empty))

unfoldable pub taken_response : Fields → String → Fields
taken_response response incoming =
    field "reconciliation" (Json.object response)
      (field "reconciliation_provider_charge_id" (Json.str incoming) empty)

unfoldable pub is_other_success : ℕ → ℕ → ℕ → PaymentAttempt → Bool
is_other_success invoice_pk pk k a = a.invoice == invoice_pk && is_success a.status && not (k == pk)

unfoldable pub is_success_of : ℕ → ℕ → PaymentAttempt → Bool
is_success_of invoice_pk _ a = a.invoice == invoice_pk && is_success a.status

-- The `except IntegrityError` around the first save of a charge name.
abbrev pub on_taken : M (Option PaymentAttempt) → Error → M (Option PaymentAttempt)
on_taken m (integrity_error unique_provider_charge) = m
on_taken m e = raise e

-- The first `save` of a charge's name.
unfoldable pub claim : ℕ → PaymentAttempt → String → M (Option PaymentAttempt)
claim pk a incoming =
    let claimed = record a { provider_charge_id = incoming } in
    save pk claimed (write_charge_id claimed) >> pure (some claimed)

-- The branch of a name that another attempt has.
unfoldable pub refuse : ℕ → PaymentAttempt → Fields → String → M (Option PaymentAttempt)
refuse pk a response incoming =
    let refused = record a {
      provider_charge_id = "";
      provider_response = taken_response response incoming;
      needs_reconciliation = true;
    } in
    save pk refused (write_flag refused) >> pure none

-- `incoming_charge_id and not payment.provider_charge_id`
unfoldable pub is_unbound : PaymentAttempt → String → Bool
is_unbound a incoming = not (is_blank incoming) && is_blank a.provider_charge_id

-- The charge's name is saved once, before anything else. `none` is the early return of a name that
-- another attempt has.
unfoldable pub bind_charge_id : ℕ → PaymentAttempt → Fields → String → M (Option PaymentAttempt)
bind_charge_id pk a response incoming =
    if is_unbound a incoming
    then handle (claim pk a incoming) (on_taken (refuse pk a response incoming))
    else pure (some a)

module _ (subscription_pk : ℕ) (s : Subscription) (invoice_pk : ℕ) (invoice : Invoice)
    (pk : ℕ) where
  -- `applicable`, negated.
  unfoldable pub is_unapplicable : Bool → Bool
  is_unapplicable another_success = not (
      not (same_subscription_status s.status SubscriptionStatus.canceled)
      && invoice_status_in invoice.status payable_invoice_statuses
      && not another_success)

  -- The branch of a success, behind its query.
  unfoldable pub finish_success : Bool → PaymentAttempt → DateTime → M (Unit {0})
  finish_success another_success a now =
      let unapplied = record a { needs_reconciliation = true } in
      let succeeded = record a { status = PaymentStatus.success } in
      if is_unapplicable another_success
      then save pk unapplied (write_unapplied unapplied)
      else (save pk succeeded (write_status succeeded)
          >> (Invoices.mark_paid invoice_pk now >> Services.reactivate subscription_pk now))

  -- The branch of a success.
  unfoldable pub apply_success : PaymentAttempt → DateTime → M (Unit {0})
  apply_success a now = do
    another_success ← gets (λ db. any_entry (is_other_success invoice_pk pk) db.attempts)
    finish_success another_success a now

  -- The test behind the `save` of a failure.
  unfoldable pub is_pursued : Bool → Bool
  is_pursued paid =
      invoice_status_in invoice.status payable_invoice_statuses
      && not (same_subscription_status s.status SubscriptionStatus.canceled)
      && not paid

  unfoldable pub finish_failure : Bool → DateTime → M (Unit {0})
  finish_failure paid now =
      if is_pursued paid
      then (Invoices.mark_failed invoice_pk now >> Services.mark_overdue subscription_pk now)
      else pure tt

  -- The branch of a failure.
  unfoldable pub apply_failure : PaymentAttempt → DateTime → M (Unit {0})
  apply_failure a now =
      let failed = record a { status = PaymentStatus.failed } in
      save pk failed (write_status failed) >> λ db.
      finish_failure (any_entry (is_success_of invoice_pk) db.attempts) now db

  -- From the test for a repeated failure.
  unfoldable pub apply_result : PaymentAttempt → Bool → DateTime → M (Unit {0})
  apply_result a success now =
      if not success && same_payment_status a.status PaymentStatus.failed
      then pure tt
      else if success
      then apply_success a now
      else apply_failure a now

  abbrev pub apply_bound : Bool → DateTime → Option PaymentAttempt → M (Unit {0})
  apply_bound success now none = pure tt
  apply_bound success now (some a) = apply_result a success now

  -- From the test for a final attempt.
  unfoldable pub settle_open : PaymentAttempt → Bool → Fields → String → DateTime → M (Unit {0})
  settle_open a success response incoming now =
      if is_final a
      then pure tt
      else bind_charge_id pk (record a { provider_response = response }) response incoming
        >>= apply_bound success now

  -- From the test for a second charge.
  unfoldable pub settle_matching : PaymentAttempt → Bool → Fields → String → DateTime → M (Unit {0})
  settle_matching a success response incoming now =
      let flagged = record a {
        needs_reconciliation = true;
        provider_response = mismatch_response a response incoming;
      } in
      if is_mismatch a incoming
      then save pk flagged (write_flag flagged)
      else settle_open a success response incoming now

  -- The part under the locks.
  unfoldable pub settle_locked : PaymentAttempt → Bool → Fields → String → DateTime → M (Unit {0})
  settle_locked a success response incoming now =
      if not success && is_final a then pure tt else settle_matching a success response incoming now

-- `PaymentService.settle`
unfoldable pub settle : ℕ → Bool → Fields → String → DateTime → M (Unit {0})
settle pk success response charge_id now = do
  found ← get (λ db. db.attempts) pk
  found_invoice ← get (λ db. db.invoices) found.invoice
  s ← get (λ db. db.subscriptions) found_invoice.subscription
  invoice ← get (λ db. db.invoices) found.invoice
  a ← get (λ db. db.attempts) pk
  settle_locked found_invoice.subscription s found.invoice invoice pk a success response
      (incoming_charge_id charge_id response) now
