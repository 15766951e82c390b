-- ===== src/Canceling/OpenInvoices.antt =====
-- `InvoiceService.cancel_open_for_subscription`: a table through its cancellations.
use chargeflow.Prelude.{
  ℕ, Bool, true, false, ◌≡◌, refl, ◌⊎◌, inl, inr, none, some, List, [], ◌∷◌, Table, lookup, put,
  any_entry, select, lookup-put, lookup-select, any_entry-none, any_entry-lookup, ◌||◌, arith, ◌==◌,
  ==_eq, ==_refl, Bool-cases, Option-cases, IsKeyed, put-IsKeyed,
}
use chargeflow.Calendar.{DateTime}
use chargeflow.Schema.{same_invoice_status}
use chargeflow.Schema.{InvoiceStatus, Invoice, invoice_status_in, invoice_transitions}
use chargeflow.Db.{Db, ok}
use chargeflow.Invoices.{
  stamp, compare_and_set, transition_to, is_open_of, cancel_each, cancel_open_for_subscription,
}

select-IsKeyed : {A : Type 0} (p : ℕ → A → Bool) (t : Table A) → IsKeyed t → IsKeyed (select p t)
unfolding select
select-IsKeyed p [] h = tt
select-IsKeyed p ((j, w) ∷ t) h =
    let rest = select-IsKeyed p t h.1 in
    let filtered = lookup-select p j t h.1 in let gone = h.0 in ground arith

module _ (pk : ℕ) (now : DateTime) where
  -- The table `t'` is `t` with the invoices of `l` canceled.
  pub record Canceled (l t t' : Table Invoice) : Type 0 where
    pub keyed : IsKeyed t'
    pub touched :
        (k : ℕ) (i : Invoice)
        → lookup k l ≡ some i
        → lookup k t' ≡ some (stamp InvoiceStatus.canceled now i)
    pub others : (k : ℕ) → lookup k l ≡ none → lookup k t' ≡ lookup k t

  transition-eq :
      (k : ℕ) (i : Invoice) (db : Db)
      → lookup k db.invoices ≡ some i
      → is_open_of pk k i ≡ true
      → transition_to k i InvoiceStatus.canceled now db
        ≡ ok (
          stamp InvoiceStatus.canceled now i,
          record db { invoices = put k (stamp InvoiceStatus.canceled now i) db.invoices },
        )
  unfolding transition_to compare_and_set is_open_of invoice_status_in invoice_transitions
  transition-eq k i db e is_open = ground arith

  cancel_each-through :
      (l : List (ℕ × Invoice)) (db : Db)
      → IsKeyed db.invoices
      → IsKeyed l
      → ((k : ℕ) (i : Invoice)
          → lookup k l ≡ some i
          → (lookup k db.invoices ≡ some i) × (is_open_of pk k i ≡ true))
      → (t : Table Invoice) × (cancel_each l now db ≡ ok (tt, record db { invoices = t }))
        × Canceled l db.invoices t
  unfolding cancel_each lookup
  cancel_each-through [] db keyed h stored = (
    db.invoices,
    refl,
    record { keyed = keyed; touched = λ k i e. absurd (cc e); others = λ k e. refl },
  )
  cancel_each-through ((k, i) ∷ l) db keyed h stored =
      let canceled = stamp InvoiceStatus.canceled now i in
      let (first, is_open) = stored k i (ground (arith, ==_refl k)) in
      let moved = transition-eq k i db first is_open in
      let (t, went, rest) =
        cancel_each-through l (record db { invoices = put k canceled db.invoices })
          (put-IsKeyed k canceled db.invoices keyed) h.1
          (λ j x e. later j x e (Bool-cases (k == j))) in
      (t, ground arith, all_canceled first t rest)
    where
      later :
          (j : ℕ) (x : Invoice)
          → lookup j l ≡ some x
          → ((k == j) ≡ true) ⊎ ((k == j) ≡ false)
          → (lookup j (put k (stamp InvoiceStatus.canceled now i) db.invoices) ≡ some x)
            × (is_open_of pk j x ≡ true)
      later j x e (inl same) =
          let kj = ==_eq k j same in
          let gone : lookup j l ≡ none = rw kj at (h.0) in absurd (ground arith)
      later j x e (inr other) =
          let (found, is_open) = stored j x (ground arith) in
          (ground (arith, lookup-put j k (stamp InvoiceStatus.canceled now i) db.invoices), is_open)

      all_canceled :
          lookup k db.invoices ≡ some i
          → (t : Table Invoice)
          → Canceled l (put k (stamp InvoiceStatus.canceled now i) db.invoices) t
          → Canceled ((k, i) ∷ l) db.invoices t
      all_canceled first t rest = record {
        keyed = rest.keyed;
        touched = λ j x e. touched_at j x e (Bool-cases (k == j));
        others = λ j e. others_at j e (Bool-cases (k == j));
      }
        where
          touched_at :
              (j : ℕ) (x : Invoice)
              → lookup j ((k, i) ∷ l) ≡ some x
              → ((k == j) ≡ true) ⊎ ((k == j) ≡ false)
              → lookup j t ≡ some (stamp InvoiceStatus.canceled now x)
          touched_at j x e (inl same) =
              let kj = ==_eq k j same in
              let gone : lookup j l ≡ none = rw kj at (h.0) in
              let first' : lookup j db.invoices ≡ some i = rw kj at first in
              let xi : x ≡ i = ground arith in
              let kept = rest.others j gone in
              rw xi
                (ground (arith, lookup-put j k (stamp InvoiceStatus.canceled now i) db.invoices))
          touched_at j x e (inr other) = rest.touched j x (ground arith)

          others_at :
              (j : ℕ)
              → lookup j ((k, i) ∷ l) ≡ none
              → ((k == j) ≡ true) ⊎ ((k == j) ≡ false)
              → lookup j t ≡ lookup j db.invoices
          others_at j e (inl same) = absurd (ground arith)
          others_at j e (inr other) =
              let kept = rest.others j (ground arith) in
              ground (arith, lookup-put j k (stamp InvoiceStatus.canceled now i) db.invoices)

  select-open :
      (t : Table Invoice)
      → IsKeyed t
      → (k : ℕ) (i : Invoice) → lookup k (select (is_open_of pk) t) ≡ some i
      → (lookup k t ≡ some i) × (is_open_of pk k i ≡ true)
  select-open t keyed k i e =
      let filtered = lookup-select (is_open_of pk) k t keyed in
      elim (Option-cases (lookup k t)) [
        | inl missing ↦ absurd (ground arith)
        | inr (x, found) ↦ elim (Bool-cases (is_open_of pk k x)) [
          | inl holds ↦ (ground arith, let same : x ≡ i = ground arith in rw same at holds)
          | inr fails ↦ absurd (ground arith)
        ]
      ]

  -- Behind the cancellations, no invoice of the subscription is still to be collected.
  pub none_open :
      (t t' : Table Invoice)
      → IsKeyed t
      → Canceled (select (is_open_of pk) t) t t'
      → any_entry (is_open_of pk) t' ≡ false
  unfolding is_open_of stamp invoice_status_in
  none_open t t' keyed h =
      any_entry-none (is_open_of pk) t' h.keyed
        λ k b e. at_row k b e (Option-cases (lookup k (select (is_open_of pk) t)))
    where
      at_row :
          (k : ℕ) (b : Invoice)
          → lookup k t' ≡ some b
          → (lookup k (select (is_open_of pk) t) ≡ none)
            ⊎ ((i : Invoice) × (lookup k (select (is_open_of pk) t) ≡ some i))
          → is_open_of pk k b ≡ false
      at_row k b e (inr (i, found)) =
          let now_canceled = h.touched k i found in
          let same : b ≡ stamp InvoiceStatus.canceled now i = ground arith in rw same (ground arith)
      at_row k b e (inl missing) =
          let kept = h.others k missing in
          let filtered = lookup-select (is_open_of pk) k t keyed in
          let before : lookup k t ≡ some b = ground arith in
          elim (Bool-cases (is_open_of pk k b)) [
            | inl holds ↦ absurd (ground arith)
            | inr fails ↦ fails
          ]

  pub cancel_open-through :
      (db : Db)
      → IsKeyed db.invoices
      → (t : Table Invoice) × (cancel_open_for_subscription pk now db
          ≡ ok (tt, record db { invoices = t }))
        × Canceled (select (is_open_of pk) db.invoices) db.invoices t
  unfolding cancel_open_for_subscription
  cancel_open-through db keyed =
      cancel_each-through (select (is_open_of pk) db.invoices) db keyed
        (select-IsKeyed (is_open_of pk) db.invoices keyed) (select-open db.invoices keyed)

-- No invoice of the subscription is left to be collected: each is PAID, OVERDUE or CANCELED.
pub record HasNoneOpen (pk : ℕ) (t : Table Invoice) : Type 0 where
  pub at :
      (k : ℕ) (i : Invoice)
      → lookup k t ≡ some i
      → i.subscription ≡ pk
      → (i.status ≡ InvoiceStatus.paid)
        ⊎ (i.status ≡ InvoiceStatus.overdue)
        ⊎ (i.status ≡ InvoiceStatus.canceled)

pub none_open-HasNoneOpen :
    (pk : ℕ) (t : Table Invoice) → any_entry (is_open_of pk) t ≡ false → HasNoneOpen pk t
unfolding is_open_of invoice_status_in
none_open-HasNoneOpen pk t none_left = record {
  at = λ k i e own.
      let misses = any_entry-lookup (is_open_of pk) k i t e none_left in
      by_status i.status (ground (arith, ==_refl pk));
}
  where
    by_status :
        (status : InvoiceStatus)
        → (same_invoice_status status InvoiceStatus.draft
            || (same_invoice_status status InvoiceStatus.issued
                || (same_invoice_status status InvoiceStatus.failed || false)))
          ≡ false
        → (status ≡ InvoiceStatus.paid)
          ⊎ (status ≡ InvoiceStatus.overdue)
          ⊎ (status ≡ InvoiceStatus.canceled)
    by_status InvoiceStatus.draft h = absurd (ground arith)
    by_status InvoiceStatus.issued h = absurd (ground arith)
    by_status InvoiceStatus.failed h = absurd (ground arith)
    by_status InvoiceStatus.paid h = inl refl
    by_status InvoiceStatus.overdue h = inr (inl refl)
    by_status InvoiceStatus.canceled h = inr (inr refl)
