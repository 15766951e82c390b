-- ===== src/Settlement/Saves.antt =====
-- The exact effect of the writes that `PaymentService.settle` makes: `save` of an attempt, `mark_paid`,
-- `mark_failed`, `reactivate` and `mark_overdue`.
use chargeflow.Prelude.{
  ℕ, ℤ, pos, negsuc, String, Bool, true, not, ◌&&◌, ◌≡◌, refl, Option, none, some, Table, lookup,
  put, any_entry, arith, same_text, same_int, eq_iff, ==_refl, Bool-cases, inl, inr,
}
use chargeflow.Calendar.{DateTime}
use chargeflow.Schema.{
  Fields, PaymentStatus, PaymentAttempt, Subscription, SubscriptionStatus, InvoiceStatus, Invoice,
  invoice_status_in, invoice_transitions, payable_invoice_statuses, subscription_status_in,
  subscription_transitions, same_subscription_status, same_invoice_status,
}
use chargeflow.Db.{Db, ok, err, Constraint, Error}
use chargeflow.Invoices
use chargeflow.Subscriptions
use chargeflow.Subscriptions.Services
use chargeflow.Payments.Attempts.{
  conflict, clean, update, save, same_snapshot, snapshot_changed, or_none, same_option,
}

same_text_refl : (s : String) → same_text s s ≡ true
same_text_refl s = (eq_iff s s).1 refl

same_int_refl : (z : ℤ) → same_int z z ≡ true
same_int_refl (pos n) = ground (arith, ==_refl n)
same_int_refl (negsuc n) = ground (arith, ==_refl n)

same_option_refl : (o : Option String) → same_option o o ≡ true
same_option_refl none = refl
same_option_refl (some s) = same_text_refl s

same_snapshot_refl : (a : PaymentAttempt) → same_snapshot a a ≡ true
unfolding same_snapshot
same_snapshot_refl a = ground (
  arith,
  ==_refl a.organization,
  ==_refl a.invoice,
  same_int_refl a.amount,
  same_text_refl a.currency,
  same_text_refl a.provider,
  same_text_refl a.provider_idempotency_key,
  same_text_refl a.provider_customer_id,
  same_text_refl a.provider_payment_method_id,
  same_option_refl a.idempotency_key,
)

pub save-eq :
    (pk : ℕ) (a self : PaymentAttempt) (i : Invoice) (write : PaymentAttempt → PaymentAttempt)
    (db : Db)
    → lookup pk db.attempts ≡ some a
    → lookup self.invoice db.invoices ≡ some i
    → self.organization ≡ i.organization
    → same_snapshot (record self { idempotency_key = or_none self.idempotency_key }) a ≡ true
    → conflict db.attempts pk (write a) ≡ none
    → save pk self write db ≡ ok (tt, record db { attempts = put pk (write a) db.attempts })
unfolding save clean update snapshot_changed
save-eq pk a self i write db ha hi ho hs hc = ground (arith, ==_refl i.organization)

pub save-refused :
    (pk : ℕ) (a self : PaymentAttempt) (i : Invoice) (write : PaymentAttempt → PaymentAttempt)
    (db : Db) (c : Constraint)
    → lookup pk db.attempts ≡ some a
    → lookup self.invoice db.invoices ≡ some i
    → self.organization ≡ i.organization
    → same_snapshot (record self { idempotency_key = or_none self.idempotency_key }) a ≡ true
    → conflict db.attempts pk (write a) ≡ some c
    → save pk self write db ≡ err (Error.integrity_error c)
unfolding save clean update snapshot_changed
save-refused pk a self i write db c ha hi ho hs hc = ground (arith, ==_refl i.organization)

pub snapshot-kept :
    (a : PaymentAttempt) (status : PaymentStatus) (charge_id : String) (response : Fields)
    (flag : Bool)
    → or_none a.idempotency_key ≡ a.idempotency_key
    → same_snapshot
        (record a {
          idempotency_key = or_none a.idempotency_key;
          provider_charge_id = charge_id;
          provider_response = response;
          status = status;
          needs_reconciliation = flag;
        })
        a
      ≡ true
unfolding same_snapshot
snapshot-kept a status charge_id response flag key =
    rw key (unfold same_snapshot in same_snapshot_refl a)

pub mark_paid-eq :
    (pk : ℕ) (i : Invoice) (now : DateTime) (db : Db)
    → lookup pk db.invoices ≡ some i
    → invoice_status_in i.status payable_invoice_statuses ≡ true
    → Invoices.mark_paid pk now db
      ≡ ok (
        tt,
        record db { invoices = put pk (Invoices.stamp InvoiceStatus.paid now i) db.invoices },
      )
unfolding Invoices.mark_paid Invoices.transition_to Invoices.compare_and_set invoice_status_in
    invoice_transitions
mark_paid-eq pk i now db h e = ground arith

pub mark_failed-through :
    (pk : ℕ) (i : Invoice) (now : DateTime) (db : Db)
    → lookup pk db.invoices ≡ some i
    → (t : Table Invoice) × (Invoices.mark_failed pk now db ≡ ok (tt, record db { invoices = t }))
unfolding Invoices.mark_failed Invoices.transition_to Invoices.compare_and_set invoice_status_in
    invoice_transitions
mark_failed-through pk i now db h =
    elim (Bool-cases (same_invoice_status i.status InvoiceStatus.issued)) [
      | inl issued ↦ (put pk (Invoices.stamp InvoiceStatus.failed now i) db.invoices, ground arith)
      | inr other ↦ (db.invoices, ground arith)
    ]

pub mark_overdue-through :
    (pk : ℕ) (s : Subscription) (now : DateTime) (db : Db)
    → lookup pk db.subscriptions ≡ some s
    → (t : Table Subscription) × (Services.mark_overdue pk now db
        ≡ ok (tt, record db { subscriptions = t }))
unfolding Services.mark_overdue Subscriptions.transition_to Subscriptions.compare_and_set
    subscription_status_in subscription_transitions
mark_overdue-through pk s now db h =
    elim (Bool-cases (same_subscription_status s.status SubscriptionStatus.active)) [
      | inl active ↦ (
        put pk (Subscriptions.stamp SubscriptionStatus.overdue now s) db.subscriptions,
        ground arith,
      )
      | inr other ↦ (db.subscriptions, ground arith)
    ]

pub reactivate-through :
    (pk : ℕ) (s : Subscription) (now : DateTime) (db : Db)
    → lookup pk db.subscriptions ≡ some s
    → (t : Table Subscription) × (Services.reactivate pk now db
        ≡ ok (tt, record db { subscriptions = t }))
unfolding Services.reactivate Subscriptions.transition_to Subscriptions.compare_and_set
    subscription_status_in subscription_transitions
reactivate-through pk s now db h =
    elim (Bool-cases (
      same_subscription_status s.status SubscriptionStatus.overdue
      && not (any_entry (Services.is_arrear_of pk) db.invoices))) [
        | inl clear ↦ (
          put pk (Subscriptions.stamp SubscriptionStatus.active now s) db.subscriptions,
          ground arith,
        )
        | inr other ↦ (db.subscriptions, ground arith)
      ]
