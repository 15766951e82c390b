-- ===== src/Throttling.antt =====
-- `OrganizationRateThrottle.get_cache_key` of accounts/throttling.py: which counter a request draws
-- on. `ip` is what the framework's `get_ident` gives.
use chargeflow.Prelude.{
  ℕ, String, Bool, true, ◌≡◌, refl, ◌&&◌, ◌⊎◌, inl, inr, Option, none, some, any_entry, arith, ◌==◌,
  ==_refl, Option-cases,
}
use chargeflow.Schema.{OrganizationMembership}
use chargeflow.Db.{Db, Result, ok, err}
use chargeflow.Memberships.{of_human-IsMembership}
use chargeflow.Accounts.{
  Principal, anonymous, project, human, Header, Request, get_request_organization, of_human,
  of_user,
}

-- The two forms of `ident`.
pub data Budget : Type 0 where
  of_organization : ℕ → Budget
  of_address : String → Budget

unfoldable pub get_cache_key : Request → String → Db → Budget
get_cache_key r ip db = elim (get_request_organization r db) [
  | ok (some o, _) ↦ of_organization o
  | ok (none, _) ↦ of_address ip
  | err _ ↦ of_address ip
]

-- A membership of the user in the organization.
abbrev pub is_member_of : ℕ → ℕ → ℕ → OrganizationMembership → Bool
is_member_of o user _ m = m.organization == o && m.user == user

human-member :
    (user : ℕ) (header : Header) (db : Db) (o : ℕ) (m : Option OrganizationMembership)
    → of_human user header db ≡ ok (some o, m)
    → any_entry (is_member_of o user) db.memberships ≡ true
human-member user header db o found h =
    let (m, _, in_o, membership) = of_human-IsMembership user header db o found h in
    let of_user = membership.of_user in
    membership.stored (is_member_of o user) λ k. ground (arith, ==_refl o, ==_refl user)

abbrev Resolution : Type 0
Resolution = Result (Option ℕ × Option OrganizationMembership)

-- What a counter of an organization says of the resolution.
resolved :
    (ip : String) (o : ℕ) (x : Resolution)
    → elim x [
      | ok (some k, _) ↦ of_organization k
      | ok (none, _) ↦ of_address ip
      | err _ ↦ of_address ip
    ]
      ≡ of_organization o
    → (m : Option OrganizationMembership) × (x ≡ ok (some o, m))
resolved ip o (ok (some k, m)) h = (m, ground arith)
resolved ip o (ok (none, m)) h = ground arith
resolved ip o (err e) h = ground arith

-- A request draws on the counter of an organization only where a key has set the organization on it,
-- or where its user is a member of the organization: whoever names another organization in the
-- header draws on the counter of their own address.
pub get_cache_key_member :
    (r : Request) (ip : String) (db : Db) (o : ℕ)
    → get_cache_key r ip db ≡ of_organization o
    → (r.organization ≡ some o)
      ⊎ ((user : ℕ) × (r.user ≡ human user)
          × (any_entry (is_member_of o user) db.memberships ≡ true))
unfolding get_cache_key get_request_organization
get_cache_key_member r ip db o h =
    let (m, went) = resolved ip o (get_request_organization r db) h in
    elim (Option-cases r.organization) [
      | inr (k, by_key) ↦ inl (ground arith)
      | inl no_key ↦ inr (by_user r.user refl m (ground arith))
    ]
  where
    by_user :
        (u : Principal)
        → r.user ≡ u
        → (m : Option OrganizationMembership) → of_user u r.header db ≡ ok (some o, m)
        → (user : ℕ) × (r.user ≡ human user)
          × (any_entry (is_member_of o user) db.memberships ≡ true)
    by_user anonymous e m h = absurd (unfold of_user in ground arith)
    by_user (project k scope) e m h = absurd (unfold of_user in ground arith)
    by_user (human user) e m h = (user, e, human-member user r.header db o m (unfold of_user in h))
