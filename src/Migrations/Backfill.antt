-- ===== src/Migrations/Backfill.antt =====
-- `save_each` over a whole table.
use chargeflow.Prelude.{
  ℕ, true, false, ◌≡◌, refl, ◌⊎◌, inl, inr, Option, none, some, [], ◌∷◌, Table, lookup, put,
  lookup-put, lookup-put_self, arith, ◌==◌, ==_eq, ==_refl, Bool-cases, Option-cases, IsKeyed,
}
use chargeflow.Db.{Error, Result, ok, err}
use chargeflow.Evolution.Growth.{AllRows}
use chargeflow.Migrations.{save_each}

module _ {A : Type 0} (change : A → Result (Option A)) (changed : A → Option A) where
  -- The row that the loop leaves.
  abbrev pub left : A → A
  left a = elim (changed a) [ none ↦ a | some b ↦ b ]

  -- Where no row makes the loop raise, it goes through and changes each of its rows by `left`.
  save_each-through :
      (l t : Table A)
      → IsKeyed l
      → ((k : ℕ) (a : A)
          → lookup k l ≡ some a
          → (change a ≡ ok (changed a)) × (lookup k t ≡ some a))
      → (u : Table A) × (save_each change l t ≡ ok u)
        × ((k : ℕ) → lookup k u ≡ elim (lookup k l) [ none ↦ lookup k t | some a ↦ some (left a) ])
  unfolding save_each lookup
  save_each-through [] t h step = (t, refl, λ k. refl)
  save_each-through ((j, a) ∷ l) t h step =
      let (here, stored) = step j a (ground (arith, ==_refl j)) in
      elim (Option-cases (changed a)) [
        | inl skipped ↦
            let (u, went, rows) =
              save_each-through l t h.1
                (λ k b e. later t (λ k e. refl) k b e (Bool-cases (j == k))) in
            (
              u,
              ground arith,
              λ k. row_at t u (λ k e. refl) (ground arith) rows k (Bool-cases (j == k)),
            )
        | inr (b, saved) ↦
            let (u, went, rows) = save_each-through l (put j b t) h.1 (λ k c e.
              later (put j b t) (λ k e. ground (arith, lookup-put k j b t)) k c e
                (Bool-cases (j == k))) in
            (
              u,
              ground arith,
              λ k.
                  row_at (put j b t) u (λ k e. ground (arith, lookup-put k j b t))
                    (ground (arith, lookup-put_self j b a t stored)) rows k (Bool-cases (j == k)),
            )
      ]
    where
      later :
          (v : Table A)
          → ((k : ℕ) → (j == k) ≡ false → lookup k v ≡ lookup k t)
          → (k : ℕ) (b : A) → lookup k l ≡ some b
          → ((j == k) ≡ true) ⊎ ((j == k) ≡ false)
          → (change b ≡ ok (changed b)) × (lookup k v ≡ some b)
      later v frame k b e (inl same) =
          let jk = ==_eq j k same in
          let gone : lookup k l ≡ none = rw jk at (h.0) in absurd (ground arith)
      later v frame k b e (inr other) =
          let (goes, kept) = step k b (ground arith) in (goes, ground (arith, frame k other))

      row_at :
          (v u : Table A)
          → ((k : ℕ) → (j == k) ≡ false → lookup k v ≡ lookup k t)
          → lookup j v ≡ some (left a)
          → ((k : ℕ)
              → lookup k u ≡ elim (lookup k l) [ none ↦ lookup k v | some c ↦ some (left c) ])
          → (k : ℕ) → ((j == k) ≡ true) ⊎ ((j == k) ≡ false)
          → lookup k u ≡ elim (lookup k ((j, a) ∷ l)) [ none ↦ lookup k t | some c ↦ some (left c) ]
      row_at v u frame here rows k (inl same) =
          let jk = ==_eq j k same in
          let gone : lookup k l ≡ none = rw jk at (h.0) in
          let there : lookup k v ≡ some (left a) = rw jk at here in
          let kept = rows k in ground arith
      row_at v u frame here rows k (inr other) =
          let kept = rows k in let same = frame k other in ground arith

-- The row `k` of the table exists.
abbrev pub Exists : {A : Type 0} → Table A → ℕ → Type 0
Exists {A} t k = (a : A) × (lookup k t ≡ some a)

module _ {A : Type 0} (change : A → Result (Option A)) (changed : A → Option A)
    (P : A → Type 0) where
  -- The loop over a whole table, where each row that it leaves has `P`.
  pub save_all :
      (t : Table A)
      → IsKeyed t
      → ((k : ℕ) (a : A)
          → lookup k t ≡ some a
          → (change a ≡ ok (changed a)) × P (left change changed a))
      → (u : Table A) × (save_each change t t ≡ ok u)
        × AllRows P u
        × ((k : ℕ) → Exists t k → Exists u k)
  save_all t h step =
      let (u, went, rows) = save_each-through change changed t t h (λ k a e. ((step k a e).0, e)) in
      (
        u,
        went,
        record { at = λ k b e. at_row u rows k b e (Option-cases (lookup k t)) },
        λ k (a, e). let kept = rows k in (left change changed a, ground arith),
      )
    where
      at_row :
          (u : Table A)
          → ((k : ℕ)
              → lookup k u
                ≡ elim (lookup k t) [ none ↦ lookup k t | some a ↦ some (left change changed a) ])
          → (k : ℕ) (b : A) → lookup k u ≡ some b
          → (lookup k t ≡ none) ⊎ ((a : A) × (lookup k t ≡ some a))
          → P b
      at_row u rows k b e (inl missing) = let kept = rows k in absurd (ground arith)
      at_row u rows k b e (inr (a, found)) =
          let kept = rows k in
          let same : b ≡ left change changed a = ground arith in rw same ((step k a found).1)

-- The loop over a table whose rows all have a parent, and take their new columns from it.
pub save_children :
    {A B : Type 0} (change : A → Result (Option A)) (parents : Table B) (key : A → ℕ)
    (assign : B → A → A) (P : A → Type 0)
    → ((a : A)
        → change a
          ≡ elim (lookup (key a) parents) [ none ↦ ok none | some p ↦ ok (some (assign p a)) ])
    → ((a : A) (p : B) → lookup (key a) parents ≡ some p → P (assign p a))
    → (t : Table A) → IsKeyed t
    → AllRows (λ a. Exists parents (key a)) t
    → (u : Table A) × (save_each change t t ≡ ok u)
      × AllRows P u
      × ((k : ℕ) → Exists t k → Exists u k)
save_children {A} {B} change parents key assign P changes holds t h existing =
    save_all change changed P t h λ k a e.
      let (p, found) = existing.at k a e in
      let goes = changes a in
      let same : left change changed a ≡ assign p a = ground arith in
      (ground arith, rw same (holds a p found))
  where
    changed : A → Option A
    changed a = elim (lookup (key a) parents) [ none ↦ none | some p ↦ some (assign p a) ]

-- A loop that can raise one exception only raises it where one row makes it.
pub save_each-refused :
    {A : Type 0} (change : A → Result (Option A)) (x : Error)
    → ((b : A) → ((o : Option A) × (change b ≡ ok o)) ⊎ (change b ≡ err x))
    → (k : ℕ) (a : A) → change a ≡ err x
    → (l t : Table A) → lookup k l ≡ some a
    → save_each change l t ≡ err x
unfolding save_each lookup
save_each-refused change x only k a e [] t found = absurd (cc found)
save_each-refused change x only k a e ((j, b) ∷ l) t found = elim (only b) [
  | inr raised ↦ ground arith
  | inl (none, skipped) ↦ let below = save_each-refused change x only k a e l t in ground arith
  | inl (some c, saved) ↦
      let below = save_each-refused change x only k a e l (put j c t) in ground arith
]
