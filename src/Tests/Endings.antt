-- ===== src/Tests/Endings.antt =====
-- A subscription that is canceled, one that is renewed, and an invoice that has been charged in vain three times.
use chargeflow.Prelude.{
  ℕ, Bool, true, false, ◌≡◌, refl, ◌⊎◌, inl, inr, ◌≢◌, ◌<◌, none, find_row, some, [], ◌∷◌, String,
  Table, lookup, arith, ◌==◌, ==_eq, Bool-cases, count_rows,
}
use chargeflow.Schema.{InvoiceStatus, PaymentStatus, PaymentAttempt, CancellationReason}
use chargeflow.Db.{Db, ok, err, value_error}
use chargeflow.Invoices.{is_for_period}
use chargeflow.Subscriptions.Services.{cancel, renew, compute_period_end, is_due_for_renewal}
use chargeflow.Tasks.{dun_invoice}
use chargeflow.Evolution.Growth.{AllRows}
use chargeflow.Evolution.Unique.{IsUniqueBy}
use chargeflow.Evolution.Sound.{AttemptIsSound, IsSound}
use chargeflow.Renewing.{renewed, renew_once}
use chargeflow.Calendar.{
  DateTime, instant, not_after, days_before_year, days_before_month, days_in_month, is_leap,
}
use chargeflow.Canceling.OpenInvoices.{HasNoneOpen}
use chargeflow.Canceling.{ended, cancel-ends}
use chargeflow.Dunning.{overdue_invoice, dun_invoice-ends}
use chargeflow.Tests.Shop.{monthly, february, running, bill, try, shop}
use chargeflow.Tests.Sound.{AllRows-empty, shop-IsSound}

first_or_rest :
    {A : Type 0} (j k : ℕ) (x a : A) (t : Table A)
    → lookup k ((j, x) ∷ t) ≡ some a
    → ((j ≡ k) × (a ≡ x)) ⊎ (lookup k t ≡ some a)
unfolding lookup
first_or_rest j k x a t e = elim (Bool-cases (j == k)) [
  | inl same ↦ inl (==_eq j k same, ground arith)
  | inr other ↦ inr (ground arith)
]

AllRows-cons :
    {A : Type 0} (P : A → Type 0) (j : ℕ) (x : A) (t : Table A)
    → P x
    → AllRows P t
    → AllRows P ((j, x) ∷ t)
AllRows-cons P j x t p rest = record {
  at = λ k a e. elim (first_or_rest j k x a t e) [
    | inl (_, same) ↦ rw same p
    | inr later ↦ rest.at k a later
  ];
}

-- Two attempts that agree neither way.
abbrev Differs : (PaymentAttempt → PaymentAttempt → Bool) → PaymentAttempt → PaymentAttempt → Type 0
Differs agrees x a = (agrees x a ≡ false) × (agrees a x ≡ false)

IsUniqueBy-empty : (agrees : PaymentAttempt → PaymentAttempt → Bool) → IsUniqueBy agrees []
IsUniqueBy-empty agrees = record { same = λ i k a b hi hk e. absurd (unfold lookup in cc hi) }

IsUniqueBy-cons :
    (agrees : PaymentAttempt → PaymentAttempt → Bool) (j : ℕ) (x : PaymentAttempt)
    (t : Table PaymentAttempt)
    → AllRows (Differs agrees x) t
    → IsUniqueBy agrees t
    → IsUniqueBy agrees ((j, x) ∷ t)
IsUniqueBy-cons agrees j x t differs rest = record {
  same = λ i k a b hi hk e.
      at_rows i k a b e hk hi (first_or_rest j i x a t hi) (first_or_rest j k x b t hk);
}
  where
    at_rows :
        (i k : ℕ) (a b : PaymentAttempt)
        → agrees a b ≡ true
        → lookup k ((j, x) ∷ t) ≡ some b
        → lookup i ((j, x) ∷ t) ≡ some a
        → ((j ≡ i) × (a ≡ x)) ⊎ (lookup i t ≡ some a)
        → ((j ≡ k) × (b ≡ x)) ⊎ (lookup k t ≡ some b)
        → i ≡ k
    at_rows i k a b e hk hi (inl (p, _)) (inl (q, _)) = grind (arith, p, q)
    at_rows i k a b e hk hi (inl (_, same)) (inr later) =
        let e' = rw same at e in let no = (differs.at k b later).0 in absurd (ground arith)
    at_rows i k a b e hk hi (inr later) (inl (_, same)) =
        let e' = rw same at e in let no = (differs.at i a later).1 in absurd (ground arith)
    at_rows i k a b e hk hi (inr p) (inr q) = rest.same i k a b p q e

abbrev failed_try : String → PaymentAttempt
failed_try name = record (try PaymentStatus.failed) {
  provider_idempotency_key = name;
  provider_charge_id = name;
}

abbrev tries : Table PaymentAttempt
tries = (1, failed_try "a") ∷ (2, failed_try "b") ∷ (3, failed_try "c") ∷ []

abbrev failing_shop : Db
failing_shop = record (shop InvoiceStatus.failed PaymentStatus.failed) { attempts = tries }

tries-AllRows :
    (P : PaymentAttempt → Type 0)
    → P (failed_try "a")
    → P (failed_try "b")
    → P (failed_try "c")
    → AllRows P tries
tries-AllRows P a b c =
    AllRows-cons P 1 _ _ a (AllRows-cons P 2 _ _ b (AllRows-cons P 3 _ _ c (AllRows-empty P)))

tries-IsUniqueBy :
    (agrees : PaymentAttempt → PaymentAttempt → Bool)
    → Differs agrees (failed_try "a") (failed_try "b")
    → Differs agrees (failed_try "a") (failed_try "c")
    → Differs agrees (failed_try "b") (failed_try "c")
    → IsUniqueBy agrees tries
tries-IsUniqueBy agrees ab ac bc =
    IsUniqueBy-cons agrees 1 _ _
      (AllRows-cons _ 2 _ _ ab (AllRows-cons _ 3 _ _ ac (AllRows-empty _)))
      (IsUniqueBy-cons agrees 2 _ _ (AllRows-cons _ 3 _ _ bc (AllRows-empty _))
        (IsUniqueBy-cons agrees 3 _ _ (AllRows-empty _) (IsUniqueBy-empty agrees)))

failing_shop-IsSound : IsSound failing_shop
unfolding lookup
failing_shop-IsSound =
    let usual = shop-IsSound InvoiceStatus.failed PaymentStatus.failed in
    record {
      subscriptions = usual.subscriptions;
      invoices = usual.invoices;
      lines = usual.lines;
      keyed_subscriptions = usual.keyed_subscriptions;
      keyed_invoices = usual.keyed_invoices;
      attempts =
          tries-AllRows (AttemptIsSound failing_shop.invoices) (of_bill "a") (of_bill "b")
            (of_bill "c");
      unique = record {
        keyed = (refl, (refl, (refl, tt)));
        key = tries-IsUniqueBy _ (refl, refl) (refl, refl) (refl, refl);
        success = tries-IsUniqueBy _ (refl, refl) (refl, refl) (refl, refl);
        provider_key = tries-IsUniqueBy _ (refl, refl) (refl, refl) (refl, refl);
        charge = tries-IsUniqueBy _ (refl, refl) (refl, refl) (refl, refl);
      };
    }
  where
    of_bill : (name : String) → AttemptIsSound failing_shop.invoices (failed_try name)
    of_bill name = record {
      invoice = record {
        parent = bill InvoiceStatus.failed;
        stored = refl;
        same_organization = refl;
      };
      key = refl;
    }

abbrev issued_shop : Db
issued_shop = shop InvoiceStatus.issued PaymentStatus.failed

cancel-ends_example :
    (db' : Db) × (cancel 1 CancellationReason.voluntary february issued_shop ≡ ok (tt, db'))
    × (lookup 1 db'.subscriptions ≡ some (ended 1 february CancellationReason.voluntary running))
    × HasNoneOpen 1 db'.invoices
unfolding lookup
cancel-ends_example =
    cancel-ends 1 february CancellationReason.voluntary running issued_shop
      (shop-IsSound InvoiceStatus.issued PaymentStatus.failed) refl refl

dun_invoice-ends_example :
    (db' : Db) × (dun_invoice 1 february failing_shop ≡ ok (tt, db'))
    × (lookup 1 db'.invoices ≡ some (overdue_invoice february (bill InvoiceStatus.failed)))
    × (lookup 1 db'.subscriptions ≡ some (ended 1 february CancellationReason.non_payment running))
    × HasNoneOpen 1 db'.invoices
unfolding lookup count_rows
dun_invoice-ends_example =
    dun_invoice-ends 1 (bill InvoiceStatus.failed) running february failing_shop
      failing_shop-IsSound refl refl refl refl (omega arith)

abbrev march : DateTime
march = record { year = 2024; month = 3; day = 1; micros = 0 }

renew_once_example :
    (db' : Db) × (renew 1 march (shop InvoiceStatus.paid PaymentStatus.success) ≡ ok (tt, db'))
    × (lookup 1 db'.subscriptions ≡ some (renewed running monthly march))
    × (find_row (is_for_period 1 (renewed running monthly march)) db'.invoices ≢ none)
    × ((later : DateTime)
        → instant later < instant (compute_period_end march monthly)
        → renew 1 later db' ≡ err value_error)
unfolding lookup is_due_for_renewal not_after instant days_before_year days_before_month
    days_in_month is_leap
renew_once_example =
    renew_once 1 running monthly march (shop InvoiceStatus.paid PaymentStatus.success)
      (shop-IsSound InvoiceStatus.paid PaymentStatus.success) refl refl refl (omega arith)
