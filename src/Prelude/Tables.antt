-- ===== src/Prelude/Tables.antt =====
-- A database table: rows under their primary keys, in the order of the keys. New rows take the
-- next key, as from the table's sequence.
use Prim.Native.Nat.{ℕ, ◌+◌, ◌≤◌, max}
use mathlib.Core.Path.{◌≡◌, refl, sym}
use mathlib.Core.Logic.{◌⊎◌, inl, inr, ◌≢◌}
use mathlib.Core.Bool.{Bool, true, false, ◌||◌}
use mathlib.Core.Option.{Option, none, some}
use mathlib.Core.List.{List, [], ◌∷◌, ◌++◌}
use native.Mathlib.Omega.{arith}
use chargeflow.Prelude.Tests.{◌==◌, ==_eq, ==_refl, Bool-cases, if◌then◌else◌}

abbrev pub Table {ℓ} : Type ℓ → Type ℓ
Table A = List (ℕ × A)

module _ {ℓ} {A : Type ℓ} where
  -- `objects.get(pk=k)`, before its DoesNotExist.
  unfoldable pub lookup : ℕ → Table A → Option A
  lookup k [] = none
  lookup k ((j, v) ∷ t) = if j == k then some v else lookup k t

  -- An UPDATE of the row under one key; without such a row it changes nothing.
  unfoldable pub put : ℕ → A → Table A → Table A
  put k v [] = []
  put k v ((j, w) ∷ t) = if j == k then (j, v) ∷ t else (j, w) ∷ put k v t

  -- The key that the sequence gives next.
  unfoldable pub fresh : Table A → ℕ
  fresh [] = 1
  fresh ((j, v) ∷ t) = max (j + 1) (fresh t)

  -- An INSERT.
  unfoldable pub add : A → Table A → Table A
  add v t = t ++ (fresh t, v) ∷ []

  -- `filter(...).exists()`.
  unfoldable pub any_entry : (ℕ → A → Bool) → Table A → Bool
  any_entry p [] = false
  any_entry p ((j, v) ∷ t) = p j v || any_entry p t

  -- `filter(...).first()`.
  unfoldable pub find_row : (A → Bool) → Table A → Option (ℕ × A)
  find_row p [] = none
  find_row p ((j, v) ∷ t) = if p v then some (j, v) else find_row p t

  -- `filter(...).count()`.
  unfoldable pub count_rows : (A → Bool) → Table A → ℕ
  count_rows p [] = 0
  count_rows p ((j, v) ∷ t) = (if p v then 1 else 0) + count_rows p t

  -- `filter(...).values_list("pk", flat=True)`.
  unfoldable pub keys_where : (ℕ → A → Bool) → Table A → List ℕ
  keys_where p [] = []
  keys_where p ((j, v) ∷ t) = let rest = keys_where p t in if p j v then j ∷ rest else rest

  -- The rows of `filter(...)`, with their keys.
  unfoldable pub select : (ℕ → A → Bool) → Table A → Table A
  select p [] = []
  select p ((j, v) ∷ t) = let rest = select p t in if p j v then (j, v) ∷ rest else rest

  -- An UPDATE of the row under one key, or an INSERT under it where there is none: `save` of an object
  -- that has a key.
  unfoldable pub store : ℕ → A → Table A → Table A
  store k v [] = (k, v) ∷ []
  store k v ((j, w) ∷ t) = let rest = store k v t in if j == k then (j, v) ∷ t else (j, w) ∷ rest

  -- A DELETE by key.
  unfoldable pub remove : ℕ → Table A → Table A
  remove k [] = []
  remove k ((j, v) ∷ t) = let rest = remove k t in if j == k then rest else (j, v) ∷ rest

  pub lookup-put :
      (j k : ℕ) (v : A) (t : Table A)
      → lookup j (put k v t)
        ≡ (if k == j then elim (lookup j t) [ none ↦ none | some _ ↦ some v ] else lookup j t)
  unfolding lookup put
  lookup-put j k v [] = ground arith
  lookup-put j k v ((i, w) ∷ t) = ground (arith, lookup-put j k v t)

  pub lookup-store :
      (j k : ℕ) (v : A) (t : Table A)
      → lookup j (store k v t) ≡ (if k == j then some v else lookup j t)
  unfolding lookup store
  lookup-store j k v [] = ground arith
  lookup-store j k v ((i, w) ∷ t) = ground (arith, lookup-store j k v t)

  pub lookup-put_self :
      (k : ℕ) (v w : A) (t : Table A) → lookup k t ≡ some w → lookup k (put k v t) ≡ some v
  lookup-put_self k v w t h = ground (arith, lookup-put k k v t)

  pub lookup-put_ne : (j k : ℕ) (v : A) (t : Table A) → j ≢ k → lookup j (put k v t) ≡ lookup j t
  lookup-put_ne j k v t h = ground (arith, lookup-put j k v t)

  lookup-append :
      (j k : ℕ) (v : A) (t : Table A)
      → lookup j (t ++ (k, v) ∷ [])
        ≡ elim (lookup j t) [ none ↦ (if k == j then some v else none) | some w ↦ some w ]
  unfolding lookup
  lookup-append j k v [] = ground arith
  lookup-append j k v ((i, w) ∷ t) = ground (arith, lookup-append j k v t)

  lookup-past : (j : ℕ) (t : Table A) → fresh t ≤ j → lookup j t ≡ none
  unfolding lookup fresh
  lookup-past j [] h = refl
  lookup-past j ((i, w) ∷ t) h = ground (arith, lookup-past j t)

  pub lookup-fresh : (t : Table A) → lookup (fresh t) t ≡ none
  lookup-fresh t = lookup-past (fresh t) t (omega arith)

  pub lookup-add :
      (j : ℕ) (v : A) (t : Table A)
      → lookup j (add v t) ≡ (if fresh t == j then some v else lookup j t)
  unfolding add
  lookup-add j v t = ground (arith, lookup-append j (fresh t) v t, lookup-fresh t)

  pub lookup-add_self : (v : A) (t : Table A) → lookup (fresh t) (add v t) ≡ some v
  lookup-add_self v t = ground (arith, lookup-add (fresh t) v t)

  put-append :
      (k : ℕ) (v w : A) (t : Table A)
      → lookup k t ≡ none
      → put k v (t ++ (k, w) ∷ []) ≡ t ++ (k, v) ∷ []
  unfolding lookup put
  put-append k v w [] h = ground (arith, ==_refl k)
  put-append k v w ((j, x) ∷ t) h = ground (arith, put-append k v w t)

  -- The UPDATE of the row that was inserted last.
  pub put-add : (v w : A) (t : Table A) → put (fresh t) v (add w t) ≡ add v t
  unfolding add
  put-add v w t = put-append (fresh t) v w t (lookup-fresh t)

  -- What an empty query says of a row.
  pub any_entry-lookup :
      (p : ℕ → A → Bool) (k : ℕ) (v : A) (t : Table A)
      → lookup k t ≡ some v
      → any_entry p t ≡ false
      → p k v ≡ false
  unfolding lookup any_entry
  any_entry-lookup p k v [] h q = ground arith
  any_entry-lookup p k v ((i, w) ∷ t) h q = ground (arith, any_entry-lookup p k v t, ap_key i k w)
    where
      ap_key : (i k : ℕ) (w : A) → i ≡ k → p i w ≡ p k w
      ap_key i k w e = cc

  pub find_row-lookup :
      (p : A → Bool) (k : ℕ) (v : A) (t : Table A)
      → lookup k t ≡ some v
      → find_row p t ≡ none
      → p v ≡ false
  unfolding lookup find_row
  find_row-lookup p k v [] h q = ground arith
  find_row-lookup p k v ((i, w) ∷ t) h q = ground (arith, find_row-lookup p k v t)

  pub find_row-holds :
      (p : A → Bool) (k : ℕ) (v : A) (t : Table A) → find_row p t ≡ some (k, v) → p v ≡ true
  unfolding find_row
  find_row-holds p k v [] h = cc
  find_row-holds p k v ((i, w) ∷ t) h = ground (arith, find_row-holds p k v t)

module _ {ℓ} {A : Type ℓ} where
  -- No two rows share a key.
  abbrev pub IsKeyed : Table A → Type ℓ
  IsKeyed [] = Unit
  IsKeyed ((j, v) ∷ t) = (lookup j t ≡ none) × IsKeyed t

  pub put-IsKeyed : (k : ℕ) (v : A) (t : Table A) → IsKeyed t → IsKeyed (put k v t)
  unfolding put
  put-IsKeyed k v [] h = tt
  put-IsKeyed k v ((j, w) ∷ t) h = ground (arith, put-IsKeyed k v t h.1, lookup-put j k v t)

  append-IsKeyed :
      (k : ℕ) (v : A) (t : Table A) → IsKeyed t → lookup k t ≡ none → IsKeyed (t ++ (k, v) ∷ [])
  unfolding lookup
  append-IsKeyed k v [] h e = (refl, tt)
  append-IsKeyed k v ((j, w) ∷ t) h e =
      ground (arith, append-IsKeyed k v t h.1, lookup-append j k v t)

  pub add-IsKeyed : (v : A) (t : Table A) → IsKeyed t → IsKeyed (add v t)
  unfolding add
  add-IsKeyed v t h = append-IsKeyed (fresh t) v t h (lookup-fresh t)

  pub find_row-lookup_self :
      (p : A → Bool) (k : ℕ) (v : A) (t : Table A)
      → IsKeyed t
      → find_row p t ≡ some (k, v)
      → lookup k t ≡ some v
  unfolding lookup find_row
  find_row-lookup_self p k v [] h e = cc
  find_row-lookup_self p k v ((j, w) ∷ t) h e = ground (arith, find_row-lookup_self p k v t h.1)

  -- The value is in a row: every query that it meets finds one.
  abbrev pub IsEntry : A → Table A → Type ℓ
  IsEntry v t = (q : ℕ → A → Bool) → ((k : ℕ) → q k v ≡ true) → any_entry q t ≡ true

  pub find_row-IsEntry :
      (p : A → Bool) (k : ℕ) (v : A) (t : Table A) → find_row p t ≡ some (k, v) → IsEntry v t
  unfolding find_row any_entry
  find_row-IsEntry p k v [] e q holds = ground arith
  find_row-IsEntry p k v ((j, w) ∷ t) e q holds =
      ground
        (arith, λ (f : find_row p t ≡ some (k, v)). find_row-IsEntry p k v t f q holds, holds j)

  pub select-IsEntry :
      (p : ℕ → A → Bool) (k : ℕ) (v : A) (t rest : Table A)
      → select p t ≡ (k, v) ∷ rest
      → IsEntry v t
  unfolding select any_entry
  select-IsEntry p k v [] rest e q holds = ground arith
  select-IsEntry p k v ((j, w) ∷ t) rest e q holds =
      ground
        (arith, λ (f : select p t ≡ (k, v) ∷ rest). select-IsEntry p k v t rest f q holds, holds j)

  pub select-holds :
      (p : ℕ → A → Bool) (k : ℕ) (v : A) (t rest : Table A)
      → select p t ≡ (k, v) ∷ rest
      → p k v ≡ true
  unfolding select
  select-holds p k v [] rest h = ground arith
  select-holds p k v ((j, w) ∷ t) rest h = ground (arith, select-holds p k v t rest)

  -- An empty query, by its rows.
  pub any_entry-none :
      (p : ℕ → A → Bool) (t : Table A)
      → IsKeyed t
      → ((k : ℕ) (v : A) → lookup k t ≡ some v → p k v ≡ false)
      → any_entry p t ≡ false
  unfolding lookup any_entry
  any_entry-none p [] h misses = refl
  any_entry-none p ((j, w) ∷ t) h misses =
      let here : p j w ≡ false = misses j w (ground (arith, ==_refl j)) in
      let below =
        any_entry-none p t h.1 (λ k v e. misses k v (below_key k v e (Bool-cases (j == k)))) in
      ground arith
    where
      below_key :
          (k : ℕ) (v : A)
          → lookup k t ≡ some v
          → ((j == k) ≡ true) ⊎ ((j == k) ≡ false)
          → lookup k ((j, w) ∷ t) ≡ some v
      below_key k v e (inl same) = let jk = ==_eq j k same in ground (arith, h.0)
      below_key k v e (inr other) = ground arith

  pub lookup-remove :
      (j k : ℕ) (t : Table A) → lookup j (remove k t) ≡ (if k == j then none else lookup j t)
  unfolding lookup remove
  lookup-remove j k [] = ground arith
  lookup-remove j k ((i, w) ∷ t) = ground (arith, lookup-remove j k t)

  -- A row of a filter, by its key.
  pub lookup-select :
      (p : ℕ → A → Bool) (k : ℕ) (t : Table A)
      → IsKeyed t
      → lookup k (select p t)
        ≡ elim (lookup k t) [ none ↦ none | some v ↦ (if p k v then some v else none) ]
  unfolding lookup select
  lookup-select p k [] h = refl
  lookup-select p k ((j, w) ∷ t) h =
      by_tests (lookup-select p k t h.1) (Bool-cases (j == k)) (Bool-cases (p j w))
    where
      by_tests :
          lookup k (select p t)
            ≡ elim (lookup k t) [ none ↦ none | some v ↦ (if p k v then some v else none) ]
          → ((j == k) ≡ true) ⊎ ((j == k) ≡ false)
          → (p j w ≡ true) ⊎ (p j w ≡ false)
          → lookup k (select p ((j, w) ∷ t)) ≡ elim (lookup k ((j, w) ∷ t)) [
            | none ↦ none
            | some v ↦ (if p k v then some v else none)
          ]
      by_tests below (inl same) (inl holds) =
          let jk = ==_eq j k same in let here : p k w ≡ true = rw (sym jk) holds in ground arith
      by_tests below (inl same) (inr fails) =
          let jk = ==_eq j k same in
          let here : p k w ≡ false = rw (sym jk) fails in
          let gone : lookup k t ≡ none = rw (sym jk) h.0 in ground arith
      by_tests below (inr other) _ = ground arith
