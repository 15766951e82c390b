-- ===== src/Access.antt =====
-- What the permissions of the accounts let through.
use chargeflow.Prelude.{
  ℕ, String, Bool, true, false, ◌≡◌, refl, ◌⊎◌, inl, inr, Option, none, some, Table, find_row,
  find_row-holds, put, ==_eq, ==_refl, arith, Option-cases, [], ◌∷◌,
}
use chargeflow.Calendar.{DateTime}
use chargeflow.Schema.{User, OrganizationMembership, Invitation, Scope, Role}
use chargeflow.Db.{Db, Result, ok, err, validation_error}
use chargeflow.Memberships.{IsMembership, of_human-IsMembership, of_human-none}
use chargeflow.Accounts.{
  Principal, anonymous, project, human, Request, get_request_organization, of_user, of_human,
  is_human, is_admin_role, is_admin_membership, is_org_admin, is_read_write, unsafe_access,
  project_access, is_accepted, has_token, is_refused, join, accept,
}

-- The roles that may write.
pub data IsWriter : Role → Type 0 where
  owner_writes : IsWriter Role.owner
  admin_writes : IsWriter Role.admin

-- Who may write in the organization `o`: a key of the scope READ_WRITE, or a user with a stored
-- membership of `o` that is an owner's or an admin's, where the header names no other organization.
pub data MayWrite (r : Request) (db : Db) : Type 0 where
  by_key : (o : ℕ) → r.user ≡ project o Scope.read_write → MayWrite r db
  by_role :
      (user o : ℕ) (m : OrganizationMembership)
      → r.user ≡ human user
      → get_request_organization r db ≡ ok (some o, some m)
      → m.organization ≡ o
      → IsMembership user r.header db m
      → IsWriter m.role
      → MayWrite r db

scope_cases : (s : Scope) → is_read_write s ≡ true → s ≡ Scope.read_write
unfolding is_read_write
scope_cases s h = ground arith

role_cases : (role : Role) → is_admin_role role ≡ true → IsWriter role
unfolding is_admin_role
role_cases Role.owner h = owner_writes
role_cases Role.admin h = admin_writes
role_cases Role.member h = absurd (ground arith)

admin_result :
    (x : Result (Option ℕ × Option OrganizationMembership))
    → elim x [ ok (_, m) ↦ ok (is_admin_membership m) | err e ↦ err e ] ≡ ok true
    → (o : Option ℕ) × (m : OrganizationMembership) × (x ≡ ok (o, some m))
      × (is_admin_role m.role ≡ true)
unfolding is_admin_membership
admin_result (ok (o, none)) h = ground arith
admin_result (ok (o, some m)) h = (o, m, refl, ground arith)
admin_result (err e) h = ground arith

-- The resolution of a user's request that carries a membership.
human_resolved :
    (r : Request) (db : Db) (user : ℕ) (o : Option ℕ) (m : OrganizationMembership)
    → r.user ≡ human user
    → get_request_organization r db ≡ ok (o, some m)
    → of_human user r.header db ≡ ok (o, some m)
unfolding get_request_organization of_user
human_resolved r db user o m u h = ground (arith, Option-cases r.organization)

member-MayWrite :
    (r : Request) (db : Db) (user : ℕ) (o : Option ℕ) (m : OrganizationMembership)
    → r.user ≡ human user
    → get_request_organization r db ≡ ok (o, some m)
    → is_admin_role m.role ≡ true
    → MayWrite r db
member-MayWrite r db user none m u found admin =
    let gone = of_human-none user r.header db (some m) (human_resolved r db user none m u found) in
    absurd (ground arith)
member-MayWrite r db user (some o) m u found admin =
    let (x, same, in_o, membership) =
      of_human-IsMembership user r.header db o (some m)
        (human_resolved r db user (some o) m u found) in
    let mx : m ≡ x = ground arith in
    by_role user o m u found (rw mx in_o) (rw mx membership) (role_cases m.role admin)

admin-MayWrite :
    (r : Request) (db : Db) (user : ℕ)
    → r.user ≡ human user
    → is_org_admin r db ≡ ok true
    → MayWrite r db
unfolding is_org_admin is_human
admin-MayWrite r db user u h =
    let (o, m, found, admin) = admin_result (get_request_organization r db) (ground arith) in
    member-MayWrite r db user o m u found admin

principal_cases :
    (p : Principal)
    → (p ≡ anonymous)
      ⊎ ((o : ℕ) × (s : Scope) × (p ≡ project o s))
      ⊎ ((user : ℕ) × (p ≡ human user))
principal_cases anonymous = inl refl
principal_cases (project o s) = inr (inl (o, s, refl))
principal_cases (human user) = inr (inr (user, refl))

-- A request with an unsafe method passes `ProjectAccess` only where its principal is a key of the
-- scope READ_WRITE, or a user with a stored membership of the organization of the request, in the role
-- of an owner or an admin; where the header names an organization, it is that one.
pub project_access-MayWrite :
    (r : Request) (db : Db) → r.safe_method ≡ false → project_access r db ≡ ok true → MayWrite r db
unfolding project_access unsafe_access
project_access-MayWrite r db s h = elim (principal_cases r.user) [
  | inl u ↦ ground arith
  | inr (inl (o, scope, u)) ↦ by_key o (rw (scope_cases scope (ground arith)) at u)
  | inr (inr (user, u)) ↦ admin-MayWrite r db user u (ground arith)
]

find_row-put :
    {A : Type 0} (p : A → Bool) (k : ℕ) (v w : A) (t : Table A)
    → find_row p t ≡ some (k, v)
    → p w ≡ true
    → find_row p (put k w t) ≡ some (k, w)
unfolding find_row put
find_row-put p k v w [] h e = ground arith
find_row-put p k v w ((j, x) ∷ t) h e = ground (arith, find_row-put p k v w t, ==_eq j k, ==_refl j)

module _ (lower : String → String) where
  -- What an acceptance that went through has seen and left.
  accept-eq-ok :
      (token : String) (user_pk : ℕ) (user : User) (now : DateTime) (db db' : Db) (k : ℕ)
      → accept lower token user_pk user now db ≡ ok (k, db')
      → (pk : ℕ) × (i : Invitation) × (find_row (has_token token) db.invitations ≡ some (pk, i))
        × (db' ≡ join lower pk i user_pk now db)
  unfolding accept
  accept-eq-ok token user_pk user now db db' k h =
      elim (Option-cases (find_row (has_token token) db.invitations)) [
        | inl missing ↦ ground arith
        | inr ((pk, i), e) ↦ (pk, i, e, ground arith)
      ]

  refuse_accepted :
      (token : String) (user_pk : ℕ) (user : User) (now : DateTime) (db : Db) (pk : ℕ)
      (i : Invitation)
      → find_row (has_token token) db.invitations ≡ some (pk, i)
      → is_accepted i ≡ true
      → accept lower token user_pk user now db ≡ err validation_error
  unfolding accept is_refused
  refuse_accepted token user_pk user now db pk i h e = ground arith

  joined-invitation :
      (token : String) (pk : ℕ) (i : Invitation) (user_pk : ℕ) (now : DateTime) (db : Db)
      → find_row (has_token token) db.invitations ≡ some (pk, i)
      → find_row (has_token token) (join lower pk i user_pk now db).invitations
        ≡ some (pk, record i { accepted_at = some now })
  unfolding join
  joined-invitation token pk i user_pk now db h =
      find_row-put (has_token token) pk i (record i { accepted_at = some now }) db.invitations h
        (find_row-holds (has_token token) pk i db.invitations h)

  -- An invitation is accepted once: behind an acceptance that went through, its token is refused, for
  -- every user and at every time.
  pub accept-once :
      (token : String) (user_pk : ℕ) (user : User) (now : DateTime) (db db' : Db) (k : ℕ)
      → accept lower token user_pk user now db ≡ ok (k, db')
      → (other_pk : ℕ) (other : User) (later : DateTime)
      → accept lower token other_pk other later db' ≡ err validation_error
  accept-once token user_pk user now db db' k h other_pk other later =
      let (pk, i, found, same) = accept-eq-ok token user_pk user now db db' k h in
      rw same (
        refuse_accepted token other_pk other later (join lower pk i user_pk now db) pk
          (record i { accepted_at = some now }) (joined-invitation token pk i user_pk now db found)
          (unfold is_accepted in refl))
