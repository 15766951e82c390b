-- ===== src/Collecting.antt =====
-- The result of a charge that `PaymentService.settle` applies.
use chargeflow.Prelude.{
  ℕ, String, true, false, ◌≡◌, ◌∙◌, none, some, lookup, put, any_entry, arith, is_blank, Bool, not,
  false, ap, refl, ◌⊎◌, ◌&&◌, ◌||◌, ◌==◌, Table, if◌then◌else◌, lookup-put_self,
}
use chargeflow.Calendar.{DateTime}
use chargeflow.Schema.{
  Fields, PaymentStatus, PaymentAttempt, Subscription, SubscriptionStatus, InvoiceStatus, Invoice,
  invoice_status_in, payable_invoice_statuses, same_invoice_status, same_subscription_status,
  subscription_status_in, subscription_transitions,
}
use chargeflow.Db.{Db, ok}
use chargeflow.Invoices
use chargeflow.Subscriptions
use chargeflow.Subscriptions.Services
use chargeflow.Payments.Attempts.{conflict, or_none}
use chargeflow.Settlement.{settle-locked}
use chargeflow.Settlement.Saves.{save-eq, snapshot-kept, mark_paid-eq}
use chargeflow.Payments.Settle.{
  is_final, is_mismatch, is_unbound, incoming_charge_id, is_other_success, is_unapplicable,
  bind_charge_id, finish_success, apply_success, apply_result, settle_open, settle_matching,
  settle_locked, settle, write_status, write_charge_id, claim,
}

-- A settled attempt of the model: `a` with its final state and the response.
abbrev pub with_result : PaymentStatus → Fields → PaymentAttempt → PaymentAttempt
with_result status response a = record a { status = status; provider_response = response }

-- An attempt with the response and the charge's name of a result.
abbrev pub bound : Fields → String → PaymentAttempt → PaymentAttempt
bound response incoming a = record a { provider_response = response; provider_charge_id = incoming }

-- The database behind the `save` of the charge's name.
abbrev pub with_attempt : ℕ → PaymentAttempt → Db → Db
with_attempt pk a db = record db { attempts = put pk a db.attempts }

-- The states of an invoice that a success pays.
abbrev pub Collectable : InvoiceStatus → Type 0
Collectable status =
    (status ≡ InvoiceStatus.issued)
    ⊎ (status ≡ InvoiceStatus.failed)
    ⊎ (status ≡ InvoiceStatus.overdue)

Collectable-payable :
    (status : InvoiceStatus)
    → Collectable status
    → invoice_status_in status payable_invoice_statuses ≡ true
unfolding invoice_status_in
Collectable-payable status h = ground arith

-- The invoice that is paid now, and the subscription that is active again.
abbrev pub paid_invoice : DateTime → Invoice → Invoice
paid_invoice now i = record i { status = InvoiceStatus.paid; paid_at = some now; updated_at = now }

abbrev pub reactivated : DateTime → Subscription → Subscription
reactivated now s = record s { status = SubscriptionStatus.active; updated_at = now }

-- The invoices of a subscription that a charge has failed for.
abbrev pub is_unpaid_of : ℕ → ℕ → Invoice → Bool
is_unpaid_of pk _ i =
    i.subscription == pk
    && (same_invoice_status i.status InvoiceStatus.failed
        || same_invoice_status i.status InvoiceStatus.overdue)

paid-eq :
    (now : DateTime) (i : Invoice) → Invoices.stamp InvoiceStatus.paid now i ≡ paid_invoice now i
unfolding Invoices.stamp
paid-eq now i = refl

unpaid-eq : (pk : ℕ) → Services.is_arrear_of pk ≡ is_unpaid_of pk
unfolding Services.is_arrear_of invoice_status_in
unpaid-eq pk = λ j k i. at_row k i j
  where
    at_row :
        (k : ℕ) (i : Invoice)
        → (i.subscription == pk
            && (same_invoice_status i.status InvoiceStatus.failed
                || (same_invoice_status i.status InvoiceStatus.overdue || false)))
          ≡ is_unpaid_of pk k i
    at_row k i = ground arith

-- The subscriptions behind the payment: one that is OVERDUE is ACTIVE again where no invoice of it is
-- left that is FAILED or OVERDUE, any other stays.
abbrev pub collected_subscriptions : ℕ → Subscription → DateTime → Db → Table Subscription
collected_subscriptions pk s now db =
    if same_subscription_status s.status SubscriptionStatus.overdue
      && not (any_entry (is_unpaid_of pk) db.invoices)
    then put pk (reactivated now s) db.subscriptions
    else db.subscriptions

reactivate-collects :
    (pk : ℕ) (s : Subscription) (now : DateTime) (db : Db)
    → lookup pk db.subscriptions ≡ some s
    → Services.reactivate pk now db
      ≡ ok (tt, record db { subscriptions = collected_subscriptions pk s now db })
unfolding Services.reactivate Subscriptions.transition_to Subscriptions.compare_and_set
    subscription_status_in subscription_transitions Subscriptions.stamp
reactivate-collects pk s now db h = ground (arith, ap (λ q. any_entry q db.invoices) (unpaid-eq pk))

-- The database with the invoice paid.
abbrev pub with_payment : ℕ → Subscription → ℕ → Invoice → DateTime → Db → Db
with_payment subscription_pk s invoice_pk i now db =
    let paid = record db { invoices = put invoice_pk (paid_invoice now i) db.invoices } in
    record paid { subscriptions = collected_subscriptions subscription_pk s now paid }

module _ (pk : ℕ) (a : PaymentAttempt) (i : Invoice) (s : Subscription) (response : Fields)
    (incoming : String) (db : Db) (has_attempt : lookup pk db.attempts ≡ some a)
    (has_invoice : lookup a.invoice db.invoices ≡ some i) (own : a.organization ≡ i.organization)
    (key : or_none a.idempotency_key ≡ a.idempotency_key) where
  bound-eq :
      is_unbound a incoming ≡ true
      → conflict db.attempts pk (bound response incoming a) ≡ none
      → bind_charge_id pk (record a { provider_response = response }) response incoming db
        ≡ ok (some (bound response incoming a), with_attempt pk (bound response incoming a) db)
  unfolding bind_charge_id claim is_unbound
  bound-eq unbound free = ground (
    arith,
    save-eq pk a (bound response incoming a) i (write_charge_id (bound response incoming a)) db
        has_attempt has_invoice own
        (snapshot-kept a a.status incoming response a.needs_reconciliation key) free,
  )

  finished-eq :
      (now : DateTime)
      → lookup i.subscription db.subscriptions ≡ some s
      → invoice_status_in i.status payable_invoice_statuses ≡ true
      → same_subscription_status s.status SubscriptionStatus.canceled ≡ false
      → conflict db.attempts pk (record a { status = PaymentStatus.success }) ≡ none
      → finish_success i.subscription s a.invoice i pk false a now db
        ≡ ok (
          tt,
          with_payment i.subscription s a.invoice i now
              (with_attempt pk (record a { status = PaymentStatus.success }) db),
        )
  unfolding finish_success is_unapplicable
  finished-eq now hs payable live free =
      let succeeded = record a { status = PaymentStatus.success } in
      ground (
        arith,
        save-eq pk a succeeded i (write_status succeeded) db has_attempt has_invoice own
            (snapshot-kept a PaymentStatus.success a.provider_charge_id a.provider_response
              a.needs_reconciliation key)
            free,
        mark_paid-eq a.invoice i now (with_attempt pk succeeded db) has_invoice payable,
        paid-eq now i,
        reactivate-collects i.subscription s now
            (record (with_attempt pk succeeded db) {
              invoices = put a.invoice (paid_invoice now i) db.invoices;
            })
            hs,
      )

-- The attempt with the result, and the database with the attempt a success and the invoice paid.
abbrev pub collected_attempt : Fields → String → PaymentAttempt → PaymentAttempt
collected_attempt response incoming a = record (bound response incoming a) {
  status = PaymentStatus.success;
}

abbrev pub collected :
    ℕ → PaymentAttempt → Invoice → Subscription → Fields → String → DateTime → Db → Db
collected pk a i s response incoming now db = with_payment i.subscription s a.invoice i now (
    with_attempt pk (collected_attempt response incoming a)
      (with_attempt pk (bound response incoming a) db))

module _ (pk : ℕ) (a : PaymentAttempt) (i : Invoice) (s : Subscription) (response : Fields)
    (charge_id : String) (now : DateTime) (db : Db) (has_attempt : lookup pk db.attempts ≡ some a)
    (has_invoice : lookup a.invoice db.invoices ≡ some i)
    (has_subscription : lookup i.subscription db.subscriptions ≡ some s)
    (own : a.organization ≡ i.organization) (key : or_none a.idempotency_key ≡ a.idempotency_key)
    (pending : a.status ≡ PaymentStatus.pending) (unflagged : a.needs_reconciliation ≡ false)
    (unnamed : is_blank a.provider_charge_id ≡ true) (named : is_blank charge_id ≡ false)
    (payable : Collectable i.status)
    (live : same_subscription_status s.status SubscriptionStatus.canceled ≡ false) where
  locked-collects :
      conflict db.attempts pk (bound response charge_id a) ≡ none
      → conflict
          (put pk (bound response charge_id a) db.attempts)
          pk
          (collected_attempt response charge_id a)
        ≡ none
      → any_entry (is_other_success a.invoice pk) (put pk (bound response charge_id a) db.attempts)
        ≡ false
      → settle_locked i.subscription s a.invoice i pk a true response charge_id now db
        ≡ ok (tt, collected pk a i s response charge_id now db)
  unfolding settle_locked settle_matching settle_open apply_result apply_success is_final
      is_mismatch is_unbound
  locked-collects free_name free_success unpaid =
      let b = bound response charge_id a in
      ground (
        arith,
        bound-eq pk a i s response charge_id db has_attempt has_invoice own key (ground arith)
            free_name,
        finished-eq pk b i s response charge_id (with_attempt pk b db)
            (lookup-put_self pk b a db.attempts has_attempt) has_invoice own key now
            has_subscription (Collectable-payable i.status payable) live free_success,
      )

  -- A first success for a pending attempt without a charge's name, on an invoice that is ISSUED, FAILED
  -- or OVERDUE, of a subscription that is not canceled, where no other attempt for the invoice has
  -- succeeded and neither save violates a constraint: settle goes through, the attempt is a success
  -- under the charge's name with the response, the invoice is PAID at that time, an OVERDUE
  -- subscription is ACTIVE again where no invoice of it is left that is FAILED or OVERDUE, and nothing
  -- else changes.
  pub settle-collects :
      conflict db.attempts pk (bound response charge_id a) ≡ none
      → conflict
          (put pk (bound response charge_id a) db.attempts)
          pk
          (collected_attempt response charge_id a)
        ≡ none
      → any_entry (is_other_success a.invoice pk) (put pk (bound response charge_id a) db.attempts)
        ≡ false
      → settle pk true response charge_id now db
        ≡ ok (tt, collected pk a i s response charge_id now db)
  unfolding incoming_charge_id
  settle-collects free_name free_success unpaid =
      settle-locked db pk a i s has_attempt has_invoice has_subscription true response charge_id now
      ∙ ground (arith, locked-collects free_name free_success unpaid)
