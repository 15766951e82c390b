-- ===== src/Evolution/Growth.antt =====
-- Relations between a table before and after a change, and predicates on all rows of a table.
use chargeflow.Prelude.{
  ℕ, true, false, ◌≡◌, ◌⊎◌, inl, inr, some, Table, lookup, put, add, lookup-put, lookup-add,
  lookup-fresh, fresh, arith, ◌==◌, ==_eq, Bool-cases,
}

-- Every row of `t` is in `u`, changed by `R` at most.
pub record TableLe {A : Type 0} (R : A → A → Type 0) (t u : Table A) : Type 0 where
  pub at : (k : ℕ) (a : A) → lookup k t ≡ some a → (b : A) × (lookup k u ≡ some b) × R a b

module _ {A : Type 0} {R : A → A → Type 0} where
  pub TableLe-refl : ((a : A) → R a a) → (t : Table A) → TableLe R t t
  TableLe-refl r t = record { at = λ k a h. (a, h, r a) }

  pub TableLe-trans :
      ((a b c : A) → R a b → R b c → R a c)
      → {t u v : Table A} → TableLe R t u
      → TableLe R u v
      → TableLe R t v
  TableLe-trans trans p q = record {
    at = λ k a h.
        let (b, hb, ab) = p.at k a h in let (c, hc, bc) = q.at k b hb in (c, hc, trans a b c ab bc);
  }

  -- The UPDATE of one row.
  pub TableLe-put :
      ((a : A) → R a a)
      → (k : ℕ) (a b : A) (t : Table A) → lookup k t ≡ some a
      → R a b
      → TableLe R t (put k b t)
  TableLe-put r k a b t h ab = record { at = λ j c hj. at_key j c hj (Bool-cases (k == j)) }
    where
      at_key :
          (j : ℕ) (c : A)
          → lookup j t ≡ some c
          → ((k == j) ≡ true) ⊎ ((k == j) ≡ false)
          → (d : A) × (lookup j (put k b t) ≡ some d) × R c d
      at_key j c hj (inl e) =
          let same : c ≡ a = grind (arith, h, hj, ==_eq k j e) in
          (b, ground (arith, lookup-put j k b t, hj), rw same ab)
      at_key j c hj (inr e) = (c, ground (arith, lookup-put j k b t, hj), r c)

  -- An INSERT.
  pub TableLe-add : ((a : A) → R a a) → (b : A) (t : Table A) → TableLe R t (add b t)
  TableLe-add r b t = record {
    at = λ j c hj. (c, ground (arith, lookup-add j b t, lookup-fresh t, hj), r c);
  }

-- Every row of `t` has `P`.
pub record AllRows {A : Type 0} (P : A → Type 0) (t : Table A) : Type 0 where
  pub at : (k : ℕ) (a : A) → lookup k t ≡ some a → P a

module _ {A : Type 0} {P : A → Type 0} where
  pub AllRows-put : (k : ℕ) (a : A) (t : Table A) → P a → AllRows P t → AllRows P (put k a t)
  AllRows-put k a t p h = record { at = λ j b e. at_key j b e (Bool-cases (k == j)) }
    where
      at_key :
          (j : ℕ) (b : A)
          → lookup j (put k a t) ≡ some b
          → ((k == j) ≡ true) ⊎ ((k == j) ≡ false)
          → P b
      at_key j b e (inl same) = let new : b ≡ a = ground (arith, lookup-put j k a t) in rw new p
      at_key j b e (inr other) = h.at j b (ground (arith, lookup-put j k a t))

  pub AllRows-add : (a : A) (t : Table A) → P a → AllRows P t → AllRows P (add a t)
  AllRows-add a t p h = record { at = λ j b e. at_key j b e (Bool-cases (fresh t == j)) }
    where
      at_key :
          (j : ℕ) (b : A)
          → lookup j (add a t) ≡ some b
          → ((fresh t == j) ≡ true) ⊎ ((fresh t == j) ≡ false)
          → P b
      at_key j b e (inl same) = let new : b ≡ a = ground (arith, lookup-add j a t) in rw new p
      at_key j b e (inr other) = h.at j b (ground (arith, lookup-add j a t))

  pub AllRows-map :
      {Q : A → Type 0} {t : Table A} → ((a : A) → P a → Q a) → AllRows P t → AllRows Q t
  AllRows-map f h = record { at = λ k a e. f a (h.at k a e) }
