-- ===== src/Memberships.antt =====
-- The membership by which accounts/request_context.py resolves a user's request.
use chargeflow.Prelude.{
  ℕ, ℤ, pos, negsuc, ◌≡◌, refl, inl, inr, Option, none, some, [], ◌∷◌, Table, find_row,
  find_row-holds, find_row-IsEntry, select, select-IsEntry, select-holds, IsEntry, arith, ==_eq,
  Option-cases,
}
use chargeflow.Schema.{OrganizationMembership}
use chargeflow.Db.{Db, ok}
use chargeflow.Accounts.{
  Header, absent, unreadable, number, is_membership, is_of_user, by_header, by_membership, of_human,
}

-- A stored membership of the user, in the organization that the header names where it names one.
pub record IsMembership (user : ℕ) (header : Header) (db : Db) (m : OrganizationMembership)
    : Type 0 where
  pub of_user : m.user ≡ user
  pub named : (n : ℤ) → header ≡ number n → n ≡ pos m.organization
  pub stored : IsEntry m db.memberships

-- No membership has a negative number.
no_negative :
    (n user : ℕ) (t : Table OrganizationMembership)
    → find_row (is_membership (negsuc n) user) t ≡ none
unfolding find_row is_membership
no_negative n user [] = refl
no_negative n user ((j, x) ∷ t) = ground (arith, no_negative n user t)

headed :
    (n user : ℕ) (k : ℕ) (m : OrganizationMembership) (db : Db)
    → find_row (is_membership (pos n) user) db.memberships ≡ some (k, m)
    → IsMembership user (number (pos n)) db m
unfolding is_membership
headed n user k m db e =
    let holds = find_row-holds (is_membership (pos n) user) k m db.memberships e in
    record {
      of_user = ground (arith, ==_eq m.user user);
      named = λ i p. ground (arith, ==_eq m.organization n);
      stored = find_row-IsEntry (is_membership (pos n) user) k m db.memberships e;
    }

alone :
    (user k : ℕ) (m : OrganizationMembership) (db : Db)
    → select (is_of_user user) db.memberships ≡ (k, m) ∷ []
    → IsMembership user absent db m
unfolding is_of_user
alone user k m db e =
    let holds = select-holds (is_of_user user) k m db.memberships [] e in
    record {
      of_user = ground (arith, ==_eq m.user user);
      named = λ i p. ground arith;
      stored = select-IsEntry (is_of_user user) k m db.memberships [] e;
    }

-- A user's request that resolves to an organization does so by one of the user's memberships.
pub of_human-IsMembership :
    (user : ℕ) (header : Header) (db : Db) (o : ℕ) (found : Option OrganizationMembership)
    → of_human user header db ≡ ok (some o, found)
    → (m : OrganizationMembership) × (found ≡ some m)
      × (m.organization ≡ o)
      × IsMembership user header db m
unfolding of_human by_header by_membership
of_human-IsMembership user unreadable db o found h = absurd (ground arith)
of_human-IsMembership user (number (negsuc n)) db o found h =
    absurd (ground (arith, no_negative n user db.memberships))
of_human-IsMembership user (number (pos n)) db o found h =
    elim (Option-cases (find_row (is_membership (pos n) user) db.memberships)) [
      | inl missing ↦ absurd (ground arith)
      | inr ((k, m), e) ↦ (m, ground arith, ground arith, headed n user k m db e)
    ]
of_human-IsMembership user absent db o found h =
    by_rows (select (is_of_user user) db.memberships) refl
  where
    by_rows :
        (rows : Table OrganizationMembership)
        → select (is_of_user user) db.memberships ≡ rows
        → (m : OrganizationMembership) × (found ≡ some m)
          × (m.organization ≡ o)
          × IsMembership user absent db m
    by_rows [] e = absurd (ground arith)
    by_rows ((k, m) ∷ []) e = (m, ground arith, ground arith, alone user k m db e)
    by_rows ((k, m) ∷ (j, x) ∷ rest) e = absurd (ground arith)

-- A user's request that resolves to no organization carries no membership.
pub of_human-none :
    (user : ℕ) (header : Header) (db : Db) (found : Option OrganizationMembership)
    → of_human user header db ≡ ok (none, found)
    → found ≡ none
unfolding of_human by_header by_membership
of_human-none user unreadable db found h = absurd (ground arith)
of_human-none user (number n) db found h =
    elim (Option-cases (find_row (is_membership n user) db.memberships)) [
      | inl missing ↦ absurd (ground arith)
      | inr ((k, m), e) ↦ absurd (ground arith)
    ]
of_human-none user absent db found h = by_rows (select (is_of_user user) db.memberships) refl
  where
    by_rows :
        (rows : Table OrganizationMembership)
        → select (is_of_user user) db.memberships ≡ rows
        → found ≡ none
    by_rows [] e = ground arith
    by_rows ((k, m) ∷ []) e = absurd (ground arith)
    by_rows ((k, m) ∷ (j, x) ∷ rest) e = absurd (ground arith)
