-- ===== src/Evolution/Prepare.antt =====
-- The relation for `PaymentService._prepare`.
use chargeflow.Prelude.{
  ℕ, String, Bool, not, ◌&&◌, ◌≡◌, refl, arith, Option, none, some, fresh, find_row, ◌==◌,
}
use chargeflow.Calendar.{DateTime}
use chargeflow.Schema.{
  PaymentAttempt, Subscription, SubscriptionStatus, same_subscription_status, Invoice,
  InvoiceStatus, same_invoice_status, invoice_status_in, payable_invoice_statuses, Customer,
}
use chargeflow.Db.{Db}
use chargeflow.Payments.Attempts.{inserted, create, conflict, or_none, same_key}
use chargeflow.Payments.Prepare.{
  prepare, prepare_keyed, prepare_payable, prepare_issue, prepare_since, return_of_issue,
  prepare_existing, prepare_new, new_attempt, is_live, is_of_issue, is_pending_here, is_replay,
}
use chargeflow.Evolution.Sound.{AttemptIsSound}
use chargeflow.Evolution.Writes.{insert_attempt-Evolves}
use chargeflow.Evolution.Rules.{
  Evolves-refl, Grows, Grows-bind, Grows-if, Grows-if_result, Grows-option, Grows-get_bind,
}

-- A new attempt is an INSERT.
added-Grows :
    (a : PaymentAttempt) (db : Db) → AttemptIsSound db.invoices a → Grows db (inserted a db)
unfolding inserted
added-Grows a db sound =
    Grows-option (conflict db.attempts (fresh db.attempts) a) _ _ db
      (λ free. insert_attempt-Evolves db a sound free) (λ _ _. tt)

-- `clean` has taken the organization from the stored invoice.
create-Grows :
    (invoice_pk : ℕ) (invoice : Invoice) (customer : Customer) (key : Option String)
    (provider_key : String) (now : DateTime) (db : Db)
    → or_none key ≡ key
    → Grows db (create (new_attempt invoice_pk invoice customer key provider_key now) invoice_pk db)
unfolding create new_attempt
create-Grows invoice_pk invoice customer key provider_key now db kept =
    Grows-get_bind (λ db. db.invoices) invoice_pk _ db
      λ i e.
        added-Grows (new_attempt invoice_pk invoice customer key provider_key now i.organization) db
          (record {
            invoice = record { parent = i; stored = e; same_organization = refl };
            key = kept;
          })

module _ (invoice_pk : ℕ) (s : Subscription) (invoice : Invoice) (customer : Customer)
    (key : Option String) (provider_key : String) (now : DateTime) (db : Db)
    (kept : or_none key ≡ key) where
  prepare_new-Grows : Grows db (prepare_new invoice_pk s invoice customer key provider_key now db)
  unfolding prepare_new
  prepare_new-Grows =
      Grows-if (same_subscription_status s.status SubscriptionStatus.canceled) _ _ db (λ _. tt)
        (λ _.
          Grows-bind
            (create (new_attempt invoice_pk invoice customer key provider_key now) invoice_pk) _ db
            (create-Grows invoice_pk invoice customer key provider_key now db kept)
            (λ _ created _. Evolves-refl created))

  prepare_existing-Grows :
      Grows db (prepare_existing invoice_pk s invoice customer key provider_key now db)
  unfolding prepare_existing
  prepare_existing-Grows =
      Grows-option (find_row (is_live invoice_pk s invoice customer) db.attempts) _ _ db
        (λ _. prepare_new-Grows) (λ _ _. Evolves-refl db)

  return_of_issue-Grows :
      (found : ℕ × PaymentAttempt)
      → Grows db (return_of_issue invoice_pk s invoice customer key found db)
  unfolding return_of_issue
  return_of_issue-Grows found = by_key key
    where
      by_key :
          (key : Option String)
          → Grows db (return_of_issue invoice_pk s invoice customer key found db)
      by_key none = Evolves-refl db
      by_key (some k) =
          Grows-if (same_key found.1.idempotency_key (some k)) _ _ db (λ _. Evolves-refl db)
            (λ _. tt)

  issue_query-Grows :
      (issued_at : DateTime)
      → Grows db (prepare_since invoice_pk s invoice customer issued_at key provider_key now db)
  unfolding prepare_since
  issue_query-Grows issued_at =
      Grows-option (find_row (is_of_issue invoice_pk s invoice customer issued_at) db.attempts) _ _
        db (λ _. prepare_existing-Grows) (λ found _. return_of_issue-Grows found)

  prepare_issue-Grows :
      Grows db (prepare_issue invoice_pk s invoice customer key provider_key now db)
  unfolding prepare_issue
  prepare_issue-Grows =
      Grows-if_result (same_invoice_status invoice.status InvoiceStatus.issued) _ _ db
        (λ _.
          Grows-option invoice.issued_at _ _ db (λ _. prepare_existing-Grows)
            (λ issued_at _. issue_query-Grows issued_at))
        (λ _. prepare_existing-Grows)

  prepare_payable-Grows :
      Grows db (prepare_payable invoice_pk s invoice customer key provider_key now db)
  unfolding prepare_payable
  prepare_payable-Grows =
      Grows-if_result (not (invoice_status_in invoice.status payable_invoice_statuses)) _ _ db
        (λ _.
          Grows-option (find_row (is_pending_here invoice_pk s invoice customer) db.attempts) _ _ db
            (λ _. tt) (λ _ _. Evolves-refl db))
        (λ _. prepare_issue-Grows)

prepare_keyed-Grows :
    (invoice_pk : ℕ) (s : Subscription) (invoice : Invoice) (customer : Customer)
    (key : Option String) (provider_key : String) (now : DateTime) (db : Db)
    → or_none key ≡ key
    → Grows db (prepare_keyed invoice_pk s invoice customer key provider_key now db)
unfolding prepare_keyed
prepare_keyed-Grows invoice_pk s invoice customer none provider_key now db kept =
    prepare_payable-Grows invoice_pk s invoice customer none provider_key now db kept
prepare_keyed-Grows invoice_pk s invoice customer (some key) provider_key now db kept =
    Grows-option (find_row (is_replay invoice_pk s invoice customer key) db.attempts) _ _ db
      (λ _. prepare_payable-Grows invoice_pk s invoice customer (some key) provider_key now db kept)
      (λ found _.
        Grows-if_result (not (found.1.invoice == invoice_pk)) _ _ db (λ _. tt)
          (λ _. Evolves-refl db))

or_none-or_none : (key : Option String) → or_none (or_none key) ≡ or_none key
or_none-or_none key = ground arith

pub prepare-Grows :
    (invoice_pk : ℕ) (key : Option String) (issued_only : Bool) (provider_key : String)
    (now : DateTime) (db : Db)
    → Grows db (prepare invoice_pk key issued_only provider_key now db)
unfolding prepare
prepare-Grows invoice_pk key issued_only provider_key now db =
    Grows-get_bind (λ db. db.invoices) invoice_pk _ db
      λ found _.
        Grows-get_bind (λ db. db.subscriptions) found.subscription _ db
          λ s _.
            Grows-get_bind (λ db. db.invoices) invoice_pk _ db
              λ invoice _.
                Grows-get_bind (λ db. db.customers) s.customer _ db
                  λ customer _.
                    Grows-if
                      (issued_only && not (same_invoice_status invoice.status InvoiceStatus.issued))
                      _ _ db (λ _. Evolves-refl db)
                      (λ _.
                        prepare_keyed-Grows invoice_pk s invoice customer (or_none key) provider_key
                          now db (or_none-or_none key))
