-- ===== src/Evolution/Invoices.antt =====
-- The relation for invoices/domain/models.py and invoices/application/services.py.
use chargeflow.Prelude.{
  ℕ, Bool, true, false, ltb, ◌≡◌, refl, some, List, [], ◌∷◌, lookup, put, add, fresh, find_row,
  select, not, lookup-add_self,
}
use chargeflow.Calendar.{DateTime}
use chargeflow.Schema.{
  InvoiceStatus, Invoice, invoice_transitions, invoice_status_in, same_invoice_status,
  same_invoice_status_eq, SubscriptionStatus, same_subscription_status, Subscription, Plan,
  InvoiceLine,
}
use chargeflow.Db.{Db, M, ◌>>◌, hand_off, raise_if, data_error, modify}
use chargeflow.Invoices.{
  is_for_period, stamp, compare_and_set, transition_to, new_invoice, new_line, create_line,
  description_length, max_description_length, create_and_issue, generate_for_subscription,
  mark_paid, mark_failed, is_open_of, cancel_each, cancel_open_for_subscription, mark_overdue,
  reissue_for_retry,
}
use chargeflow.Evolution.Sound.{IsSound, LineIsSound}
use chargeflow.Evolution.Rows.{InvoiceLe, here, step}
use chargeflow.Evolution.Writes.{
  update_invoice-Evolves, insert_invoice-Evolves, insert_line-Evolves,
}
use chargeflow.Evolution.Rules.{
  Evolves, Evolves-refl, Grows, Grows-extend, Grows-bind, Grows-if, Grows-if_result, Grows-option,
  Grows-get_bind, Grows-hand_off,
}

-- The columns that a transition writes, when the table of transitions allows it.
stamp-InvoiceLe :
    (new : InvoiceStatus) (now : DateTime) (i : Invoice)
    → invoice_status_in new (invoice_transitions i.status) ≡ true
    → InvoiceLe i (stamp new now i)
unfolding stamp
stamp-InvoiceLe new now i h = record {
  organization = refl;
  subscription = refl;
  total = refl;
  currency = refl;
  period_start = refl;
  period_end = refl;
  path = step here h;
  paid = λ e. absurd (no_move (rw e at h));
  canceled = λ e. absurd (no_move' (rw e at h));
}
  where
    no_move : invoice_status_in new (invoice_transitions InvoiceStatus.paid) ≡ true → ⊥
    no_move e = unfold invoice_status_in invoice_transitions in cc e

    no_move' : invoice_status_in new (invoice_transitions InvoiceStatus.canceled) ≡ true → ⊥
    no_move' e = unfold invoice_status_in invoice_transitions in cc e

compare_and_set-Grows :
    (pk : ℕ) (self : Invoice) (new : InvoiceStatus) (now : DateTime) (db : Db)
    → invoice_status_in new (invoice_transitions self.status) ≡ true
    → Grows db (compare_and_set pk self new now db)
unfolding compare_and_set
compare_and_set-Grows pk self new now db h =
    Grows-option (lookup pk db.invoices) _ _ db (λ _. tt)
      λ row e.
        Grows-if_result (same_invoice_status row.status self.status) _ _ db
          (λ same. written row e (same_invoice_status_eq row.status self.status same)) (λ _. tt)
  where
    written :
        (row : Invoice)
        → lookup pk db.invoices ≡ some row
        → row.status ≡ self.status
        → Evolves db (record db { invoices = put pk (stamp new now row) db.invoices })
    written row e same =
        update_invoice-Evolves db pk row (stamp new now row) e
          (stamp-InvoiceLe new now row (rw same h))

-- Whatever object and state it is called with, `transition_to` changes an invoice only by a move that
-- the table allows.
pub transition_to-Grows :
    (pk : ℕ) (self : Invoice) (new : InvoiceStatus) (now : DateTime) (db : Db)
    → Grows db (transition_to pk self new now db)
unfolding transition_to
transition_to-Grows pk self new now db =
    Grows-if (invoice_status_in new (invoice_transitions self.status)) _ _ db
      (compare_and_set-Grows pk self new now db) (λ _. tt)

transition_and-Grows :
    {A : Type 0} (pk : ℕ) (self : Invoice) (new : InvoiceStatus) (now : DateTime) (k : M A)
    (db : Db)
    → ((db' : Db) → Grows db' (k db'))
    → Grows db ((transition_to pk self new now >> k) db)
transition_and-Grows pk self new now k db h =
    Grows-bind (transition_to pk self new now) (λ _. k) db (transition_to-Grows pk self new now db)
      (λ _ db' _. h db')

pub mark_paid-Grows : (pk : ℕ) (now : DateTime) (db : Db) → Grows db (mark_paid pk now db)
unfolding mark_paid
mark_paid-Grows pk now db =
    Grows-get_bind (λ db. db.invoices) pk _ db
      λ i e.
        Grows-if (same_invoice_status i.status InvoiceStatus.paid) _ _ db (λ _. Evolves-refl db)
          (λ _. transition_and-Grows pk i InvoiceStatus.paid now _ db (λ db'. Evolves-refl db'))

pub mark_failed-Grows : (pk : ℕ) (now : DateTime) (db : Db) → Grows db (mark_failed pk now db)
unfolding mark_failed
mark_failed-Grows pk now db =
    Grows-get_bind (λ db. db.invoices) pk _ db
      λ i e.
        Grows-if (not (same_invoice_status i.status InvoiceStatus.issued)) _ _ db
          (λ _. Evolves-refl db)
          (λ _. transition_and-Grows pk i InvoiceStatus.failed now _ db (λ db'. Evolves-refl db'))

pub mark_overdue-Grows : (pk : ℕ) (now : DateTime) (db : Db) → Grows db (mark_overdue pk now db)
unfolding mark_overdue
mark_overdue-Grows pk now db =
    Grows-get_bind (λ db. db.invoices) pk _ db
      λ i e.
        Grows-if (not (same_invoice_status i.status InvoiceStatus.failed)) _ _ db
          (λ _. Evolves-refl db)
          (λ _. transition_and-Grows pk i InvoiceStatus.overdue now _ db (λ db'. Evolves-refl db'))

pub reissue_for_retry-Grows :
    (pk : ℕ) (now : DateTime) (db : Db) → Grows db (reissue_for_retry pk now db)
unfolding reissue_for_retry
reissue_for_retry-Grows pk now db =
    Grows-get_bind (λ db. db.invoices) pk _ db
      λ i e.
        Grows-if (not (same_invoice_status i.status InvoiceStatus.failed)) _ _ db
          (λ _. Evolves-refl db)
          (λ _. transition_and-Grows pk i InvoiceStatus.issued now _ db (Grows-hand_off pk))

cancel_each-Grows :
    (l : List (ℕ × Invoice)) (now : DateTime) (db : Db) → Grows db (cancel_each l now db)
unfolding cancel_each
cancel_each-Grows [] now db = Evolves-refl db
cancel_each-Grows ((pk, i) ∷ l) now db =
    transition_and-Grows pk i InvoiceStatus.canceled now (cancel_each l now) db
      (cancel_each-Grows l now)

pub cancel_open_for_subscription-Grows :
    (pk : ℕ) (now : DateTime) (db : Db) → Grows db (cancel_open_for_subscription pk now db)
unfolding cancel_open_for_subscription
cancel_open_for_subscription-Grows pk now db =
    cancel_each-Grows (select (is_open_of pk) db.invoices) now db

create_line-Grows :
    (line : InvoiceLine) (db : Db)
    → (IsSound db → LineIsSound db.invoices line)
    → Grows db (create_line line db)
unfolding create_line
create_line-Grows line db fits = refused_or (ltb max_description_length (description_length line))
  where
    refused_or :
        (b : Bool)
        → Grows db
            ((raise_if b data_error >> modify (λ db. record db { lines = add line db.lines })) db)
    refused_or true = tt
    refused_or false = insert_line-Evolves db line fits

create_and_issue-Grows :
    (pk : ℕ) (s : Subscription) (plan : Plan) (now : DateTime) (db : Db)
    → lookup pk db.subscriptions ≡ some s
    → Grows db (create_and_issue pk s plan now db)
unfolding create_and_issue new_invoice new_line
create_and_issue-Grows pk s plan now db stored =
    Grows-extend
      (insert_invoice-Evolves db invoice
        λ _. record { parent = s; stored = stored; same_organization = refl })
      _
      (Grows-bind (create_line (new_line k s plan)) _ with_invoice
        (create_line-Grows (new_line k s plan) with_invoice λ _. record {
          parent = invoice;
          stored = lookup-add_self invoice db.invoices;
          same_organization = refl;
        })
        (λ _ lined _.
          Grows-bind (transition_to k invoice InvoiceStatus.issued now) _ lined
            (transition_to-Grows k invoice InvoiceStatus.issued now lined)
            (λ i db' _.
              Grows-bind (hand_off k) _ db' (Grows-hand_off k db')
                (λ _ db'' _. Evolves-refl db''))))
  where
    k : ℕ
    k = fresh db.invoices

    invoice : Invoice
    invoice = new_invoice pk s plan now

    with_invoice : Db
    with_invoice = record db { invoices = add invoice db.invoices }

pub generate_for_subscription-Grows :
    (pk : ℕ) (now : DateTime) (db : Db) → Grows db (generate_for_subscription pk now db)
unfolding generate_for_subscription
generate_for_subscription-Grows pk now db =
    Grows-get_bind (λ db. db.subscriptions) pk _ db
      λ s e.
        Grows-get_bind (λ db. db.plans) s.plan _ db
          λ plan e'.
            Grows-if (same_subscription_status s.status SubscriptionStatus.active) _ _ db
              (λ _.
                Grows-option (find_row (is_for_period pk s) db.invoices) _ _ db
                  (λ _. create_and_issue-Grows pk s plan now db e) (λ _ _. Evolves-refl db))
              (λ _. Evolves-refl db)
