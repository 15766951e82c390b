-- ===== src/Evolution/Writes.antt =====
-- The INSERT and the UPDATE of one row of a billing table.
use chargeflow.Prelude.{ℕ, ◌≡◌, none, some, lookup, put, add, fresh}
use chargeflow.Schema.{Subscription, Invoice, InvoiceLine, PaymentAttempt}
use chargeflow.Db.{Db}
use chargeflow.Payments.Attempts.{conflict}
use chargeflow.Evolution.Unique.{put-HasOneSuccess, add-HasOneSuccess}
use chargeflow.Evolution.Rows.{
  InvoiceLe, InvoiceLe-refl, SubscriptionLe, SubscriptionLe-refl, AttemptLe, AttemptLe-refl,
}
use chargeflow.Evolution.Growth.{TableLe-refl, TableLe-put, TableLe-add}
use chargeflow.Evolution.Sound.{
  InvoiceIsSound, LineIsSound, SubscriptionIsSound, AttemptIsSound, update_invoice-IsSound,
  insert_invoice-IsSound, insert_line-IsSound, update_subscription-IsSound,
  insert_subscription-IsSound, update_attempt-IsSound, insert_attempt-IsSound, IsSound,
}
use chargeflow.Evolution.Events.{EventsLe-refl}
use chargeflow.Evolution.Rules.{Evolves}

module _ (db : Db) where
  pub update_invoice-Evolves :
      (pk : ℕ) (a b : Invoice)
      → lookup pk db.invoices ≡ some a
      → InvoiceLe a b
      → Evolves db (record db { invoices = put pk b db.invoices })
  update_invoice-Evolves pk a b e le = record {
    invoices = TableLe-put InvoiceLe-refl pk a b db.invoices e le;
    subscriptions = TableLe-refl SubscriptionLe-refl db.subscriptions;
    attempts = TableLe-refl AttemptLe-refl db.attempts;
    one_success = λ h. h;
    events = EventsLe-refl db.events;
    sound = λ h. update_invoice-IsSound db h pk a b e le;
  }

  pub insert_invoice-Evolves :
      (i : Invoice)
      → (IsSound db → InvoiceIsSound db.subscriptions i)
      → Evolves db (record db { invoices = add i db.invoices })
  insert_invoice-Evolves i sound = record {
    invoices = TableLe-add InvoiceLe-refl i db.invoices;
    subscriptions = TableLe-refl SubscriptionLe-refl db.subscriptions;
    attempts = TableLe-refl AttemptLe-refl db.attempts;
    one_success = λ h. h;
    events = EventsLe-refl db.events;
    sound = λ h. insert_invoice-IsSound db h i (sound h);
  }

  pub insert_line-Evolves :
      (l : InvoiceLine)
      → (IsSound db → LineIsSound db.invoices l)
      → Evolves db (record db { lines = add l db.lines })
  insert_line-Evolves l sound = record {
    invoices = TableLe-refl InvoiceLe-refl db.invoices;
    subscriptions = TableLe-refl SubscriptionLe-refl db.subscriptions;
    attempts = TableLe-refl AttemptLe-refl db.attempts;
    one_success = λ h. h;
    events = EventsLe-refl db.events;
    sound = λ h. insert_line-IsSound db h l (sound h);
  }

  pub update_subscription-Evolves :
      (pk : ℕ) (a b : Subscription)
      → lookup pk db.subscriptions ≡ some a
      → SubscriptionLe a b
      → Evolves db (record db { subscriptions = put pk b db.subscriptions })
  update_subscription-Evolves pk a b e le = record {
    invoices = TableLe-refl InvoiceLe-refl db.invoices;
    subscriptions = TableLe-put SubscriptionLe-refl pk a b db.subscriptions e le;
    attempts = TableLe-refl AttemptLe-refl db.attempts;
    one_success = λ h. h;
    events = EventsLe-refl db.events;
    sound = λ h. update_subscription-IsSound db h pk a b e le;
  }

  pub insert_subscription-Evolves :
      (s : Subscription)
      → SubscriptionIsSound db.customers db.plans s
      → Evolves db (record db { subscriptions = add s db.subscriptions })
  insert_subscription-Evolves s sound = record {
    invoices = TableLe-refl InvoiceLe-refl db.invoices;
    subscriptions = TableLe-add SubscriptionLe-refl s db.subscriptions;
    attempts = TableLe-refl AttemptLe-refl db.attempts;
    one_success = λ h. h;
    events = EventsLe-refl db.events;
    sound = λ h. insert_subscription-IsSound db h s sound;
  }

  pub update_attempt-Evolves :
      (pk : ℕ) (a b : PaymentAttempt)
      → lookup pk db.attempts ≡ some a
      → AttemptLe a b
      → conflict db.attempts pk b ≡ none
      → Evolves db (record db { attempts = put pk b db.attempts })
  update_attempt-Evolves pk a b e le free = record {
    invoices = TableLe-refl InvoiceLe-refl db.invoices;
    subscriptions = TableLe-refl SubscriptionLe-refl db.subscriptions;
    attempts = TableLe-put AttemptLe-refl pk a b db.attempts e le;
    one_success = put-HasOneSuccess pk b db.attempts free;
    events = EventsLe-refl db.events;
    sound = λ h. update_attempt-IsSound db h pk a b e le free;
  }

  pub insert_attempt-Evolves :
      (a : PaymentAttempt)
      → AttemptIsSound db.invoices a
      → conflict db.attempts (fresh db.attempts) a ≡ none
      → Evolves db (record db { attempts = add a db.attempts })
  insert_attempt-Evolves a sound free = record {
    invoices = TableLe-refl InvoiceLe-refl db.invoices;
    subscriptions = TableLe-refl SubscriptionLe-refl db.subscriptions;
    attempts = TableLe-add AttemptLe-refl a db.attempts;
    one_success = add-HasOneSuccess a db.attempts free;
    events = EventsLe-refl db.events;
    sound = λ h. insert_attempt-IsSound db h a sound free;
  }
