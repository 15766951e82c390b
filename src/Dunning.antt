-- ===== src/Dunning.antt =====
-- `_dun_invoice` of invoices/tasks.py, before the last attempt and behind it.
use chargeflow.Prelude.{
  ℕ, Bool, ◌==◌, ◌&&◌, ◌<◌, ◌≤◌, ◌≡◌, false, lookup-put_self, some, [], ◌∷◌, ◌++◌, lookup, put,
  count_rows, arith, if◌then◌else◌,
}
use chargeflow.Calendar.{DateTime}
use chargeflow.Schema.{PaymentAttempt, PaymentStatus, same_payment_status}
use chargeflow.Schema.{
  Subscription, SubscriptionStatus, same_subscription_status, CancellationReason, InvoiceStatus,
  Invoice, same_invoice_status, invoice_status_in, invoice_transitions,
}
use chargeflow.Db.{Db, ok, hand_off}
use chargeflow.Invoices.{
  stamp, compare_and_set, transition_to, reissue_for_retry, mark_overdue, is_open_of,
}
use chargeflow.Tasks.{dun_failed, dun_invoice, give_up}
use chargeflow.Evolution.Rules.{Evolves, Grows}
use chargeflow.Evolution.Invoices.{mark_overdue-Grows}
use chargeflow.Evolution.Sound.{IsSound}
use chargeflow.Canceling.OpenInvoices.{HasNoneOpen}
use chargeflow.Canceling.{ended, cancel-keeps}

-- A charge of the invoice that has failed.
abbrev pub is_failed_charge : ℕ → PaymentAttempt → Bool
is_failed_charge pk a = a.invoice == pk && same_payment_status a.status PaymentStatus.failed

-- The invoice that is issued again now, and the one that is given up.
abbrev pub reissued_invoice : DateTime → Invoice → Invoice
reissued_invoice now i = record i {
  status = InvoiceStatus.issued;
  issued_at = some now;
  updated_at = now;
}

abbrev pub overdue_invoice : DateTime → Invoice → Invoice
overdue_invoice now i = record i { status = InvoiceStatus.overdue; updated_at = now }

-- The database with the invoice issued again and its charge handed off.
abbrev pub reissued : ℕ → Invoice → DateTime → Db → Db
reissued pk i now db = record db {
  invoices = put pk (reissued_invoice now i) db.invoices;
  queue = db.queue ++ pk ∷ [];
}

reissue-eq :
    (pk : ℕ) (i : Invoice) (now : DateTime) (db : Db)
    → lookup pk db.invoices ≡ some i
    → i.status ≡ InvoiceStatus.failed
    → reissue_for_retry pk now db ≡ ok (tt, reissued pk i now db)
unfolding stamp reissue_for_retry transition_to compare_and_set hand_off invoice_status_in
    invoice_transitions
reissue-eq pk i now db h f = ground arith

-- An invoice with fewer than three failed charges: where it is FAILED it is issued again, with the
-- time of issue, and its charge is handed off once; where it is not, nothing changes.
pub dun_invoice-retry :
    (pk : ℕ) (i : Invoice) (s : Subscription) (now : DateTime) (db : Db)
    → lookup pk db.invoices ≡ some i
    → lookup i.subscription db.subscriptions ≡ some s
    → count_rows (is_failed_charge pk) db.attempts < 3
    → dun_invoice pk now db
      ≡ ok (
        tt,
        if same_invoice_status i.status InvoiceStatus.failed then reissued pk i now db else db,
      )
unfolding dun_invoice dun_failed
dun_invoice-retry pk i s now db hi hs few = ground (arith, reissue-eq pk i now db)

-- What a transaction that went through has kept.
grown : {A : Type 0} (a : A) {db db' : Db} → Grows db (ok (a, db')) → Evolves db db'
grown a h = h

module _ (pk : ℕ) (i : Invoice) (s : Subscription) (now : DateTime) (db : Db) (sound : IsSound db)
    (has_invoice : lookup pk db.invoices ≡ some i) (failed : i.status ≡ InvoiceStatus.failed)
    (has_subscription : lookup i.subscription db.subscriptions ≡ some s)
    (live : same_subscription_status s.status SubscriptionStatus.canceled ≡ false) where
  abbrev overdue : Db
  overdue = record db { invoices = put pk (stamp InvoiceStatus.overdue now i) db.invoices }

  overdue-eq : mark_overdue pk now db ≡ ok (tt, overdue)
  unfolding mark_overdue transition_to compare_and_set invoice_status_in invoice_transitions
  overdue-eq = ground arith

  overdue-IsSound : IsSound overdue
  overdue-IsSound = (grown tt (rw overdue-eq at (mark_overdue-Grows pk now db))).sound sound

  past_collecting : is_open_of i.subscription pk (stamp InvoiceStatus.overdue now i) ≡ false
  unfolding is_open_of stamp invoice_status_in
  past_collecting = ground arith

  -- On a sound database, dunning a FAILED invoice with three failed charges or more, of a subscription
  -- that is not yet canceled, always goes through and gives up: the invoice is OVERDUE, the
  -- subscription is CANCELED for non-payment, and no invoice of it is left that is a draft, issued or
  -- failed.
  pub dun_invoice-ends :
      3 ≤ count_rows (is_failed_charge pk) db.attempts
      → (db' : Db) × (dun_invoice pk now db ≡ ok (tt, db'))
        × (lookup pk db'.invoices ≡ some (overdue_invoice now i))
        × (lookup i.subscription db'.subscriptions
            ≡ some (ended i.subscription now CancellationReason.non_payment s))
        × HasNoneOpen i.subscription db'.invoices
  unfolding stamp dun_invoice dun_failed give_up
  dun_invoice-ends many =
      let (db', went, ended, none_left, kept) =
        cancel-keeps i.subscription now CancellationReason.non_payment s overdue overdue-IsSound
          has_subscription live pk (stamp InvoiceStatus.overdue now i)
          (lookup-put_self pk (stamp InvoiceStatus.overdue now i) i db.invoices has_invoice)
          past_collecting in
      (db', ground (arith, overdue-eq), kept, ended, none_left)
