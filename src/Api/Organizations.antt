-- ===== src/Api/Organizations.antt =====
-- `OrganizationViewSet`, `ApiKeyViewSet`, `MemberViewSet` and `InvitationViewSet` of
-- accounts/api/views.py, with the validation of `ApiKeyCreateSerializer` and the role of
-- `OrganizationSerializer` of accounts/api/serializers.py. `hash`, `drawn` and the tokens are as in
-- the modules of keys and of invitations; `fold` is the case folding of `iexact`.
use chargeflow.Prelude.{
  ℕ, String, Bool, true, false, ◌&&◌, not, Option, none, some, [], ◌∷◌, Table, lookup, add, fresh,
  any_entry, find_row, select, ◌==◌, same_text, if◌then◌else◌,
}
use chargeflow.Calendar.{DateTime, not_after}
use chargeflow.Schema.{User, Organization, OrganizationMembership, Role, Invitation, Scope, ApiKey}
use chargeflow.Db.{
  Db, validation_error, integrity_error, unique_membership, unique_org_owner, Result, ok, err, M,
}
use chargeflow.Accounts.{Request, is_human, is_org_admin, project_access, is_member, new_invitation}
use chargeflow.Keys.{create_key, revoke}
use chargeflow.Payments.Charge.{Proc, atomically, ◌>>=◌, ◌>>◌}
use chargeflow.Api.{Reply, reading, reply, check_permissions, scope, queryset, get_object}

abbrev pub human_only : Request → Db → Result Bool
human_only r db = ok (is_human r)

abbrev is_owner_role : Role → Bool
is_owner_role Role.owner = true
is_owner_role _ = false

abbrev pub is_owner_of : ℕ → ℕ → OrganizationMembership → Bool
is_owner_of o _ m = m.organization == o && is_owner_role m.role

-- `OrganizationMembership.objects.create`, under the two unique constraints.
unfoldable pub create_membership : OrganizationMembership → M ℕ
create_membership m db =
    if any_entry (is_member m.organization m.user) db.memberships
    then err (integrity_error unique_membership)
    else if is_owner_role m.role && any_entry (is_owner_of m.organization) db.memberships
    then err (integrity_error unique_org_owner)
    else ok (fresh db.memberships, record db { memberships = add m db.memberships })

-- `OrganizationViewSet.get_queryset`: the organizations of the user's memberships.
unfoldable pub organizations_of : ℕ → Db → Table Organization
organizations_of user db =
    select (λ o _. any_entry (is_member o user) db.memberships) db.organizations

-- `OrganizationSerializer.get_my_role`
unfoldable pub my_role : ℕ → ℕ → Db → Option Role
my_role o user db = elim (find_row (λ m. is_member o user 0 m) db.memberships) [
  | none ↦ none
  | some (k, m) ↦ some m.role
]

-- `serializer.save(owner=request.user)`
unfoldable pub insert_organization : ℕ → String → M ℕ
insert_organization user name db = ok (
  fresh db.organizations,
  record db { organizations = add (record { owner = user; name = name }) db.organizations },
)

unfoldable pub owner_membership : ℕ → ℕ → DateTime → OrganizationMembership
owner_membership o user now = record {
  organization = o;
  user = user;
  role = Role.owner;
  joined_at = now;
}

module _ (hash : String → String) where
  -- The transaction of `OrganizationViewSet.create`: the organization, the key's number and its text.
  unfoldable pub found_organization : ℕ → String → String → DateTime → M (ℕ × (ℕ × String))
  found_organization user name drawn now db = elim (insert_organization user name db) [
    | err e ↦ err e
    | ok (o, with_organization) ↦
        elim (create_membership (owner_membership o user now) with_organization) [
          | err e ↦ err e
          | ok (m, with_member) ↦
              elim (create_key hash o "Default" none Scope.read_write drawn with_member) [
                | err e ↦ err e
                | ok (key, with_key) ↦ ok ((o, key), with_key)
              ]
        ]
  ]

  -- `OrganizationViewSet.create`
  unfoldable pub create_organization :
      Request → ℕ → Result String → String → DateTime → Proc (Reply (ℕ × (ℕ × String)))
  create_organization r user name drawn now = do
    check_permissions (human_only r ∷ [])
    valid_name ← reading (λ _. name)
    founded ← atomically (found_organization user valid_name drawn now)
    reply 201 (some founded)

  -- `ApiKeyCreateSerializer.validate_expires_at`
  unfoldable pub validate_expires_at : Option DateTime → DateTime → Result (Option DateTime)
  validate_expires_at none now = ok none
  validate_expires_at (some t) now = if not_after t now then err validation_error else ok (some t)

  abbrev create_key_in_scope :
      Result (String × Option DateTime × Scope)
      → String
      → DateTime
      → Option ℕ
      → Proc (Reply (ℕ × String))
  create_key_in_scope body drawn now none = reply 400 none
  create_key_in_scope body drawn now (some o) = do
    fields ← reading (λ _. body)
    expires_at ← reading (λ _. validate_expires_at fields.1 now)
    key ← atomically (create_key hash o fields.0 expires_at fields.2 drawn)
    reply 201 (some key)

  -- `ApiKeyViewSet.create`; `body` is the name, the expiry and the scope.
  unfoldable pub create_api_key :
      Request
      → Result (String × Option DateTime × Scope)
      → String
      → DateTime
      → Proc (Reply (ℕ × String))
  create_api_key r body drawn now = do
    check_permissions (human_only r ∷ project_access r ∷ [])
    o ← reading (scope r)
    create_key_in_scope body drawn now o

abbrev pub is_live_key_of : ℕ → ApiKey → Bool
is_live_key_of o key = key.organization == o && not key.revoked

-- `ApiKeyViewSet.get_queryset`
unfoldable pub key_queryset : Request → Db → Result (Table ApiKey)
key_queryset = queryset (λ db. db.api_keys) is_live_key_of

-- `ApiKeyViewSet.destroy`
unfoldable pub destroy_api_key : Request → ℕ → Proc (Reply ℕ)
destroy_api_key r pk = do
  check_permissions (human_only r ∷ project_access r ∷ [])
  key ← get_object key_queryset r pk
  atomically (revoke pk)
  reply 204 none

abbrev pub is_membership_of : ℕ → OrganizationMembership → Bool
is_membership_of o m = m.organization == o

-- `MemberViewSet.get_queryset`
unfoldable pub member_queryset : Request → Db → Result (Table OrganizationMembership)
member_queryset = queryset (λ db. db.memberships) is_membership_of

abbrev pub is_open_invitation_of : ℕ → Invitation → Bool
is_open_invitation_of o i =
    i.organization == o && elim i.accepted_at [ none ↦ true | some t ↦ false ]

-- `InvitationViewSet.get_queryset`
unfoldable pub invitation_queryset : Request → Db → Result (Table Invitation)
invitation_queryset = queryset (λ db. db.invitations) is_open_invitation_of

module _ (fold : String → String) where
  -- A membership of the organization whose user has that e-mail.
  unfoldable pub is_member_by_email : Table User → ℕ → String → ℕ → OrganizationMembership → Bool
  is_member_by_email users o email _ m = m.organization == o && elim (lookup m.user users) [
    | none ↦ false
    | some u ↦ same_text (fold u.email) (fold email)
  ]

  abbrev insert_invitation : String → Role → String → DateTime → Option ℕ → M ℕ
  insert_invitation email role token now none db = err validation_error
  insert_invitation email role token now (some o) db =
      if any_entry (is_member_by_email db.users o email) db.memberships
      then err validation_error
      else ok (
        fresh db.invitations,
        record db { invitations = add (new_invitation o email role token now) db.invitations },
      )

  -- `InvitationViewSet.create`; `body` is the e-mail and the role. Its permissions let no request
  -- through that has no organization.
  unfoldable pub create_invitation :
      Request → Result (String × Role) → String → DateTime → Proc (Reply ℕ)
  create_invitation r body token now = do
    check_permissions (human_only r ∷ is_org_admin r ∷ [])
    o ← reading (scope r)
    fields ← reading (λ _. body)
    pk ← atomically (insert_invitation fields.0 fields.1 token now o)
    reply 201 (some pk)
