-- ===== src/Accounts.antt =====
-- Who may do what: accounts/request_context.py, accounts/permissions.py, accounts/throttling.py,
-- `Invitation` of accounts/models.py, and the acceptance of an invitation of accounts/api/views.py.
-- `lower` is `str.lower`.
use chargeflow.Prelude.{
  ℕ, ℤ, pos, negsuc, String, Bool, true, false, ◌&&◌, ◌||◌, not, Option, none, some, [], ◌∷◌, put,
  add, fresh, any_entry, find_row, select, ◌==◌, same_text, if◌then◌else◌,
}
use chargeflow.Calendar.{DateTime, add_days, is_before}
use chargeflow.Schema.{User, OrganizationMembership, Invitation, Role, Scope}
use chargeflow.Db.{Db, validation_error, permission_denied, Result, ok, err, M}

-- `request.user`: nobody, a `ProjectPrincipal` of a key, or a user by their key.
pub data Principal : Type 0 where
  anonymous : Principal
  project : ℕ → Scope → Principal
  human : ℕ → Principal

-- The header `X-Organization-Id` by what `int` makes of it; an empty one counts as absent.
pub data Header : Type 0 where
  absent unreadable : Header
  number : ℤ → Header

-- What the code reads of a request: `organization` is set by the key's authentication.
pub record Request : Type 0 where
  pub user : Principal
  pub organization : Option ℕ
  pub header : Header
  pub safe_method : Bool

unfoldable pub is_membership : ℤ → ℕ → OrganizationMembership → Bool
is_membership (pos o) user m = m.organization == o && m.user == user
is_membership (negsuc o) user m = false

unfoldable pub is_of_user : ℕ → ℕ → OrganizationMembership → Bool
is_of_user user _ m = m.user == user

-- The branch of a header.
unfoldable pub by_header : ℤ → ℕ → Db → Result (Option ℕ × Option OrganizationMembership)
by_header o user db = elim (find_row (is_membership o user) db.memberships) [
  | none ↦ err permission_denied
  | some (_, m) ↦ ok (some m.organization, some m)
]

-- The branch without a header: the user's one membership.
unfoldable pub by_membership : ℕ → Db → Result (Option ℕ × Option OrganizationMembership)
by_membership user db = elim (select (is_of_user user) db.memberships) [
  | [] ↦ ok (none, none)
  | (_, m) ∷ rest ↦ elim rest [
    | [] ↦ ok (some m.organization, some m)
    | _ ∷ _ ↦ err validation_error
  ]
]

unfoldable pub of_human : ℕ → Header → Db → Result (Option ℕ × Option OrganizationMembership)
of_human user absent db = by_membership user db
of_human user unreadable db = err permission_denied
of_human user (number o) db = by_header o user db

unfoldable pub of_user : Principal → Header → Db → Result (Option ℕ × Option OrganizationMembership)
of_user anonymous header db = ok (none, none)
of_user (project o scope) header db = ok (none, none)
of_user (human user) header db = of_human user header db

-- `get_request_organization`: the organization, and the membership that it sets on the request. A
-- principal of a key always comes with its organization.
unfoldable pub get_request_organization :
    Request → Db → Result (Option ℕ × Option OrganizationMembership)
get_request_organization r db = elim r.organization [
  | some o ↦ ok (some o, none)
  | none ↦ of_user r.user r.header db
]

-- `IsHuman.has_permission`
unfoldable pub is_human : Request → Bool
is_human r = elim r.user [ human _ ↦ true | _ ↦ false ]

unfoldable pub is_admin_role : Role → Bool
is_admin_role Role.owner = true
is_admin_role Role.admin = true
is_admin_role Role.member = false

unfoldable pub is_admin_membership : Option OrganizationMembership → Bool
is_admin_membership none = false
is_admin_membership (some m) = is_admin_role m.role

-- `IsOrgAdmin.has_permission`
unfoldable pub is_org_admin : Request → Db → Result Bool
is_org_admin r db =
    if is_human r
    then elim (get_request_organization r db) [
      | ok (_, m) ↦ ok (is_admin_membership m)
      | err e ↦ err e
    ]
    else ok false

unfoldable pub is_read_write : Scope → Bool
is_read_write Scope.read = false
is_read_write Scope.read_write = true

unfoldable pub unsafe_access : Request → Db → Result Bool
unsafe_access r db = elim r.user [
  | anonymous ↦ ok false
  | project _ scope ↦ ok (is_read_write scope)
  | human _ ↦ is_org_admin r db
]

-- `ProjectAccess.has_permission`
unfoldable pub project_access : Request → Db → Result Bool
project_access r db = elim r.user [
  | anonymous ↦ ok false
  | project _ _ ↦ if r.safe_method then ok true else unsafe_access r db
  | human _ ↦ if r.safe_method then ok true else unsafe_access r db
]

-- `FailOpenMixin.allow_request`: an exception of the backend lets the request through.
unfoldable pub allow_request : Result Bool → Bool
allow_request (ok verdict) = verdict
allow_request (err e) = true

unfoldable pub is_member : ℕ → ℕ → ℕ → OrganizationMembership → Bool
is_member organization user _ m = m.organization == organization && m.user == user

-- `invitation.is_expired`
unfoldable pub is_expired : Invitation → DateTime → Bool
is_expired i now = is_before i.expires_at now

-- `invitation.is_accepted`
unfoldable pub is_accepted : Invitation → Bool
is_accepted i = elim i.accepted_at [ none ↦ false | some _ ↦ true ]

abbrev pub has_token : String → Invitation → Bool
has_token token i = same_text i.token token

unfoldable pub new_membership : Invitation → ℕ → DateTime → OrganizationMembership
new_membership i user now = record {
  organization = i.organization;
  user = user;
  role = i.role;
  joined_at = now;
}

-- `Invitation.create_for_organization`, of which `token` is the new token.
unfoldable pub new_invitation : ℕ → String → Role → String → DateTime → Invitation
new_invitation organization email role token now = record {
  organization = organization;
  email = email;
  role = role;
  token = token;
  expires_at = add_days 7 now;
  accepted_at = none;
}

module _ (lower : String → String) where
  -- The tests of `AcceptInvitationView.post`, in their order.
  unfoldable pub is_refused : Invitation → ℕ → User → DateTime → Db → Bool
  is_refused i user_pk user now db =
      is_accepted i
      || is_expired i now
      || not (same_text (lower i.email) (lower user.email))
      || any_entry (is_member i.organization user_pk) db.memberships

  -- The part behind the tests.
  unfoldable pub join : ℕ → Invitation → ℕ → DateTime → Db → Db
  join pk i user_pk now db = record db {
    memberships = add (new_membership i user_pk now) db.memberships;
    invitations = put pk (record i { accepted_at = some now }) db.invitations;
  }

  -- `AcceptInvitationView.post` for a valid token text; it returns the new membership's key.
  unfoldable pub accept : String → ℕ → User → DateTime → M ℕ
  accept token user_pk user now db = elim (find_row (has_token token) db.invitations) [
    | none ↦ err validation_error
    | some (pk, i) ↦
        if is_refused i user_pk user now db
        then err validation_error
        else ok (fresh db.memberships, join pk i user_pk now db)
  ]
