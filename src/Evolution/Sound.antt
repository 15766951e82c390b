-- ===== src/Evolution/Sound.antt =====
-- The foreign keys of the billing tables, and the organization that `clean` of each model compares
-- with that of the parent.
use chargeflow.Prelude.{
  ℕ, ◌≡◌, ◌∙◌, some, none, fresh, Table, lookup, put, add, IsKeyed, put-IsKeyed, add-IsKeyed,
}
use chargeflow.Schema.{Customer, Plan, Subscription, Invoice, InvoiceLine, PaymentAttempt}
use chargeflow.Db.{Db}
use chargeflow.Payments.Attempts.{or_none, conflict}
use chargeflow.Evolution.Unique.{IsUnique, put-IsUnique, add-IsUnique}
use chargeflow.Evolution.Rows.{
  InvoiceLe, InvoiceLe-refl, SubscriptionLe, SubscriptionLe-refl, AttemptLe,
}
use chargeflow.Evolution.Growth.{
  TableLe, TableLe-put, TableLe-add, AllRows, AllRows-put, AllRows-add, AllRows-map,
}

-- The row `k` of the parent table exists and belongs to the organization `o`.
pub record HasParent {A : Type 0} (organization : A → ℕ) (t : Table A) (k o : ℕ) : Type 0 where
  pub parent : A
  pub stored : lookup k t ≡ some parent
  pub same_organization : organization parent ≡ o

HasParent-le :
    {A : Type 0} {organization : A → ℕ} {R : A → A → Type 0}
    → ((a b : A) → R a b → organization b ≡ organization a)
    → {t u : Table A} → TableLe R t u
    → {k o : ℕ} → HasParent organization t k o
    → HasParent organization u k o
HasParent-le keeps le {k} h =
    let (b, stored, ab) = le.at k h.parent h.stored in
    record { parent = b; stored = stored; same_organization = keeps _ b ab ∙ h.same_organization }

pub record SubscriptionIsSound (customers : Table Customer) (plans : Table Plan) (s : Subscription)
    : Type 0 where
  pub customer : HasParent (λ c. c.organization) customers s.customer s.organization
  pub plan : HasParent (λ p. p.organization) plans s.plan s.organization

abbrev pub InvoiceIsSound : Table Subscription → Invoice → Type 0
InvoiceIsSound t i = HasParent (λ s. s.organization) t i.subscription i.organization

abbrev pub LineIsSound : Table Invoice → InvoiceLine → Type 0
LineIsSound t l = HasParent (λ i. i.organization) t l.invoice l.organization

pub record AttemptIsSound (t : Table Invoice) (a : PaymentAttempt) : Type 0 where
  pub invoice : HasParent (λ i. i.organization) t a.invoice a.organization
  pub key : or_none a.idempotency_key ≡ a.idempotency_key

-- No foreign key dangles, none crosses from one organization to another, no client key is blank,
-- the attempts obey their constraints, and no two subscriptions, invoices or attempts share a key.
pub record IsSound (db : Db) : Type 0 where
  pub subscriptions : AllRows (SubscriptionIsSound db.customers db.plans) db.subscriptions
  pub invoices : AllRows (InvoiceIsSound db.subscriptions) db.invoices
  pub lines : AllRows (LineIsSound db.invoices) db.lines
  pub attempts : AllRows (AttemptIsSound db.invoices) db.attempts
  pub unique : IsUnique db.attempts
  pub keyed_subscriptions : IsKeyed db.subscriptions
  pub keyed_invoices : IsKeyed db.invoices

invoice_organization : (a b : Invoice) → InvoiceLe a b → b.organization ≡ a.organization
invoice_organization a b le = le.organization

subscription_organization :
    (a b : Subscription) → SubscriptionLe a b → b.organization ≡ a.organization
subscription_organization a b le = le.organization

AttemptIsSound-le :
    {t u : Table Invoice}
    → TableLe InvoiceLe t u
    → (a : PaymentAttempt) → AttemptIsSound t a
    → AttemptIsSound u a
AttemptIsSound-le le a h = record {
  invoice = HasParent-le invoice_organization le h.invoice;
  key = h.key;
}

-- The writes of the services.
module _ (db : Db) (h : IsSound db) where
  put_invoice-IsSound :
      (t : Table Invoice)
      → TableLe InvoiceLe db.invoices t
      → AllRows (InvoiceIsSound db.subscriptions) t
      → IsKeyed t
      → IsSound (record db { invoices = t })
  put_invoice-IsSound t le rows keyed = record {
    subscriptions = h.subscriptions;
    invoices = rows;
    lines = AllRows-map (λ l. HasParent-le invoice_organization le) h.lines;
    attempts = AllRows-map (AttemptIsSound-le le) h.attempts;
    unique = h.unique;
    keyed_subscriptions = h.keyed_subscriptions;
    keyed_invoices = keyed;
  }

  pub update_invoice-IsSound :
      (pk : ℕ) (a b : Invoice)
      → lookup pk db.invoices ≡ some a
      → InvoiceLe a b
      → IsSound (record db { invoices = put pk b db.invoices })
  update_invoice-IsSound pk a b e le =
      put_invoice-IsSound (put pk b db.invoices)
        (TableLe-put InvoiceLe-refl pk a b db.invoices e le)
        (AllRows-put pk b db.invoices (rw (le.organization, le.subscription) (h.invoices.at pk a e))
          h.invoices)
        (put-IsKeyed pk b db.invoices h.keyed_invoices)

  pub insert_invoice-IsSound :
      (i : Invoice)
      → InvoiceIsSound db.subscriptions i
      → IsSound (record db { invoices = add i db.invoices })
  insert_invoice-IsSound i sound =
      put_invoice-IsSound (add i db.invoices) (TableLe-add InvoiceLe-refl i db.invoices)
        (AllRows-add i db.invoices sound h.invoices) (add-IsKeyed i db.invoices h.keyed_invoices)

  pub insert_line-IsSound :
      (l : InvoiceLine) → LineIsSound db.invoices l → IsSound (record db { lines = add l db.lines })
  insert_line-IsSound l sound = record {
    subscriptions = h.subscriptions;
    invoices = h.invoices;
    lines = AllRows-add l db.lines sound h.lines;
    attempts = h.attempts;
    unique = h.unique;
    keyed_subscriptions = h.keyed_subscriptions;
    keyed_invoices = h.keyed_invoices;
  }

  put_subscription-IsSound :
      (t : Table Subscription)
      → TableLe SubscriptionLe db.subscriptions t
      → AllRows (SubscriptionIsSound db.customers db.plans) t
      → IsKeyed t
      → IsSound (record db { subscriptions = t })
  put_subscription-IsSound t le rows keyed = record {
    subscriptions = rows;
    invoices = AllRows-map (λ i. HasParent-le subscription_organization le) h.invoices;
    lines = h.lines;
    attempts = h.attempts;
    unique = h.unique;
    keyed_subscriptions = keyed;
    keyed_invoices = h.keyed_invoices;
  }

  pub update_subscription-IsSound :
      (pk : ℕ) (a b : Subscription)
      → lookup pk db.subscriptions ≡ some a
      → SubscriptionLe a b
      → IsSound (record db { subscriptions = put pk b db.subscriptions })
  update_subscription-IsSound pk a b e le =
      put_subscription-IsSound (put pk b db.subscriptions)
        (TableLe-put SubscriptionLe-refl pk a b db.subscriptions e le)
        (AllRows-put pk b db.subscriptions kept h.subscriptions)
        (put-IsKeyed pk b db.subscriptions h.keyed_subscriptions)
    where
      old : SubscriptionIsSound db.customers db.plans a
      old = h.subscriptions.at pk a e

      kept : SubscriptionIsSound db.customers db.plans b
      kept = record {
        customer = rw (le.organization, le.customer) old.customer;
        plan = rw (le.organization, le.plan) old.plan;
      }

  pub insert_subscription-IsSound :
      (s : Subscription)
      → SubscriptionIsSound db.customers db.plans s
      → IsSound (record db { subscriptions = add s db.subscriptions })
  insert_subscription-IsSound s sound =
      put_subscription-IsSound (add s db.subscriptions)
        (TableLe-add SubscriptionLe-refl s db.subscriptions)
        (AllRows-add s db.subscriptions sound h.subscriptions)
        (add-IsKeyed s db.subscriptions h.keyed_subscriptions)

  put_attempts-IsSound :
      (t : Table PaymentAttempt)
      → AllRows (AttemptIsSound db.invoices) t
      → IsUnique t
      → IsSound (record db { attempts = t })
  put_attempts-IsSound t rows unique = record {
    subscriptions = h.subscriptions;
    invoices = h.invoices;
    lines = h.lines;
    attempts = rows;
    unique = unique;
    keyed_subscriptions = h.keyed_subscriptions;
    keyed_invoices = h.keyed_invoices;
  }

  pub update_attempt-IsSound :
      (pk : ℕ) (a b : PaymentAttempt)
      → lookup pk db.attempts ≡ some a
      → AttemptLe a b
      → conflict db.attempts pk b ≡ none
      → IsSound (record db { attempts = put pk b db.attempts })
  update_attempt-IsSound pk a b e le free =
      put_attempts-IsSound (put pk b db.attempts) (AllRows-put pk b db.attempts kept h.attempts)
        (put-IsUnique pk b db.attempts free h.unique)
    where
      old : AttemptIsSound db.invoices a
      old = h.attempts.at pk a e

      kept : AttemptIsSound db.invoices b
      kept = record {
        invoice = rw (le.organization, le.invoice) old.invoice;
        key = rw le.idempotency_key old.key;
      }

  pub insert_attempt-IsSound :
      (a : PaymentAttempt)
      → AttemptIsSound db.invoices a
      → conflict db.attempts (fresh db.attempts) a ≡ none
      → IsSound (record db { attempts = add a db.attempts })
  insert_attempt-IsSound a sound free =
      put_attempts-IsSound (add a db.attempts) (AllRows-add a db.attempts sound h.attempts)
        (add-IsUnique a db.attempts free h.unique)
