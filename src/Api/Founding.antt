-- ===== src/Api/Founding.antt =====
-- What `OrganizationViewSet.create` leaves its creator with.
use chargeflow.Prelude.{
  ℕ, pos, String, Bool, true, false, ◌≡◌, refl, none, some, [], ◌∷◌, ◌++◌, Table, add, fresh,
  any_entry, find_row, arith, ◌==◌, ==_refl,
}
use chargeflow.Calendar.{DateTime}
use chargeflow.Schema.{OrganizationMembership, Role, Scope}
use chargeflow.Db.{Db, ok}
use chargeflow.Accounts.{
  Request, Principal, number, is_membership, by_header, of_human, of_user, get_request_organization,
  is_human, is_admin_role, is_admin_membership, is_org_admin, is_member,
}
use chargeflow.Keys.{create_key, new_key, generate_raw_key}
use chargeflow.Api.Organizations.{
  create_membership, is_owner_of, my_role, insert_organization, owner_membership,
  found_organization,
}

-- A query that nothing answered, and a new row that does.
find_row-append :
    {A : Type 0} (p : A → Bool) (k : ℕ) (v : A) (t : Table A)
    → find_row p t ≡ none
    → p v ≡ true
    → find_row p (t ++ (k, v) ∷ []) ≡ some (k, v)
unfolding find_row
find_row-append p k v [] h e = ground arith
find_row-append p k v ((j, w) ∷ t) h e = ground (arith, find_row-append p k v t)

-- Fewer rows answer a narrower query.
find_row-narrow :
    {A : Type 0} (p q : A → Bool) (t : Table A)
    → ((a : A) → p a ≡ false → q a ≡ false)
    → find_row p t ≡ none
    → find_row q t ≡ none
unfolding find_row
find_row-narrow p q [] less h = refl
find_row-narrow p q ((j, w) ∷ t) less h =
    let rest = find_row-narrow p q t less in let here = less w in ground arith

any_entry-narrow :
    {A : Type 0} (p : A → Bool) (q : ℕ → A → Bool) (t : Table A)
    → ((k : ℕ) (a : A) → p a ≡ false → q k a ≡ false)
    → find_row p t ≡ none
    → any_entry q t ≡ false
unfolding find_row any_entry
any_entry-narrow p q [] less h = refl
any_entry-narrow p q ((j, w) ∷ t) less h =
    let rest = any_entry-narrow p q t less in let here = less j w in ground arith

abbrev in_organization : ℕ → OrganizationMembership → Bool
in_organization o m = m.organization == o

-- A request of the user that names the new organization in its header.
abbrev pub request_in : ℕ → ℕ → Bool → Request
request_in o user safe = record {
  user = Principal.human user;
  organization = none;
  header = number (pos o);
  safe_method = safe;
}

module _ (hash : String → String) (user : ℕ) (name drawn : String) (now : DateTime) (db : Db)
    (unused : find_row
        (λ (m : OrganizationMembership). m.organization == fresh db.organizations)
        db.memberships
      ≡ none) where
  o : ℕ
  o = fresh db.organizations

  owner : OrganizationMembership
  owner = owner_membership (fresh db.organizations) user now

  after : Db
  after = record db {
    organizations = add (record { owner = user; name = name }) db.organizations;
    memberships = add owner db.memberships;
    api_keys =
        add (new_key hash o "Default" none Scope.read_write (generate_raw_key drawn)) db.api_keys;
  }

  with_organization : Db
  with_organization = record db {
    organizations = add (record { owner = user; name = name }) db.organizations;
  }

  created_membership :
      create_membership (owner_membership (fresh db.organizations) user now) with_organization
      ≡ ok (
        fresh db.memberships,
        record with_organization {
          memberships = add (owner_membership (fresh db.organizations) user now) db.memberships;
        },
      )
  unfolding create_membership owner_membership is_member with_organization
  created_membership =
      let member_free : any_entry (is_member (fresh db.organizations) user) db.memberships ≡ false =
        any_entry-narrow (in_organization (fresh db.organizations))
          (is_member (fresh db.organizations) user) db.memberships (λ k m h. ground arith) unused in
      let owner_free : any_entry (is_owner_of (fresh db.organizations)) db.memberships ≡ false =
        any_entry-narrow (in_organization (fresh db.organizations))
          (is_owner_of (fresh db.organizations)) db.memberships (λ k m h. ground arith) unused in
      rw (member_free, owner_free) refl

  unlisted :
      (q : OrganizationMembership → Bool)
      → ((m : OrganizationMembership)
          → in_organization (fresh db.organizations) m ≡ false
          → q m ≡ false)
      → q owner ≡ true
      → find_row q (add owner db.memberships) ≡ some (fresh db.memberships, owner)
  unfolding add
  unlisted q less here =
      find_row-append q (fresh db.memberships) owner db.memberships
        (find_row-narrow (in_organization (fresh db.organizations)) q db.memberships less unused)
        here

  founded :
      found_organization hash user name drawn now db
      ≡ ok ((o, (fresh db.api_keys, generate_raw_key drawn)), after)
  unfolding found_organization insert_organization create_key o owner after with_organization
  founded = rw (found_organization, created_membership) refl

  listed : my_role o user after ≡ some Role.owner
  unfolding my_role o after owner owner_membership is_member
  listed =
      let found =
        unlisted (λ m. is_member (fresh db.organizations) user 0 m) (λ m h. ground arith)
          (ground (arith, ==_refl (fresh db.organizations), ==_refl user)) in
      ground arith

  resolved :
      (safe : Bool)
      → get_request_organization (request_in o user safe) after ≡ ok (some o, some owner)
  unfolding get_request_organization of_user of_human by_header o after owner owner_membership
      is_membership
  resolved safe =
      let found =
        unlisted (is_membership (pos (fresh db.organizations)) user) (λ m h. ground arith)
          (ground (arith, ==_refl (fresh db.organizations), ==_refl user)) in
      ground arith

  administers : (safe : Bool) → is_org_admin (request_in o user safe) after ≡ ok true
  unfolding is_org_admin is_human is_admin_membership is_admin_role owner owner_membership
  administers safe = let e = resolved safe in ground arith

  -- Where no membership names the number that the next organization takes, a user's organization is
  -- created with its first key, and from then on the user is its owner: the serializer shows that
  -- role, and a request of the user that names the organization is in its scope, as an administrator.
  pub founder :
      (safe : Bool)
      → (db' : Db) × (m : OrganizationMembership) × (found_organization hash user name drawn now db
          ≡ ok ((fresh db.organizations, (fresh db.api_keys, generate_raw_key drawn)), db'))
        × (m.role ≡ Role.owner)
        × (my_role (fresh db.organizations) user db' ≡ some Role.owner)
        × (get_request_organization (request_in (fresh db.organizations) user safe) db'
            ≡ ok (some (fresh db.organizations), some m))
        × (is_org_admin (request_in (fresh db.organizations) user safe) db' ≡ ok true)
  unfolding o owner owner_membership
  founder safe = (after, owner, founded, refl, listed, resolved safe, administers safe)
