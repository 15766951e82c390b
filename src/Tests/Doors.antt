-- ===== src/Tests/Doors.antt =====
-- Signatures, permissions, invitations and keys.
use chargeflow.Prelude.{
  ℕ, true, ◌⊎◌, select, pos, String, false, ◌≡◌, refl, none, some, [], ◌∷◌, any_entry, add, fresh,
  find_row, arith, ◌↔◌, ◌++◌,
}
use chargeflow.Calendar.{
  is_before, ordinal, days_before_year, days_before_month, instant, days_in_month,
}
use chargeflow.Db.{Db, validation_error, ok, err}
use chargeflow.Payments.Signature.{Bytes, verify_webhook_signature}
use chargeflow.Accounts
use chargeflow.Accounts.{
  Request, human, number, project_access, unsafe_access, is_org_admin, is_human,
  get_request_organization, of_user, of_human, by_header, is_membership, is_admin_membership,
  is_admin_role, join, accept, is_accepted, is_expired, is_member,
}
use chargeflow.Access.{MayWrite, project_access-MayWrite, accept-once}
use chargeflow.Throttling.{get_cache_key, is_member_of, get_cache_key_member}
use chargeflow.Keys.{authenticate, is_match, is_key_expired, create_key, generate_raw_key, new_key}
use chargeflow.Keys.Validity.{IsCurrent, authenticate-valid, authenticate-create_key}
use chargeflow.Signing.{IsSigned, verify-accepts}
use chargeflow.Tests.Shop.{new_year, february, paid_shop}
use chargeflow.Calendar.{is_leap}
use chargeflow.Schema.{User, OrganizationMembership, Role, Invitation, Scope, ApiKey}

abbrev pub eight : Bytes
eight = b'0' ∷ b'1' ∷ b'2' ∷ b'3' ∷ b'a' ∷ b'b' ∷ b'c' ∷ b'd' ∷ []

abbrev toy_digest : Bytes
toy_digest = eight ++ eight ++ eight ++ eight ++ eight ++ eight ++ eight ++ eight

-- A keyed function in place of the HMAC.
abbrev pub toy_hmac : Bytes → Bytes → Bytes
toy_hmac secret message = toy_digest

abbrev pub header : Bytes
header = b't' ∷ b'=' ∷ b'9' ∷ b'9' ∷ b',' ∷ b'v' ∷ b'1' ∷ b'=' ∷ toy_digest

verify-accepts_example :
    (verify_webhook_signature toy_hmac eight 100 [] header ≡ none)
    ↔ IsSigned toy_hmac eight 100 [] header
verify-accepts_example = verify-accepts toy_hmac eight 100 [] header

abbrev ann : User
ann = record { username = "ann"; email = "a@b.c" }

abbrev owner_of_1 : OrganizationMembership
owner_of_1 = record { organization = 1; user = 5; role = Role.owner; joined_at = new_year }

abbrev invitation : Invitation
invitation = record {
  organization = 1;
  email = "a@b.c";
  role = Role.admin;
  token = "tok";
  expires_at = february;
  accepted_at = none;
}

abbrev pub invited_shop : Db
invited_shop = record paid_shop {
  memberships = (1, owner_of_1) ∷ [];
  invitations = (1, invitation) ∷ [];
}

abbrev pub write_request : Request
write_request = record {
  user = human 5;
  organization = none;
  header = number (pos 1);
  safe_method = false;
}

project_access-MayWrite_example : MayWrite write_request invited_shop
unfolding project_access unsafe_access is_org_admin is_human get_request_organization of_user
    of_human by_header find_row is_membership is_admin_membership is_admin_role
project_access-MayWrite_example = project_access-MayWrite write_request invited_shop refl refl

get_cache_key_member_example :
    (write_request.organization ≡ some 1)
    ⊎ ((user : ℕ) × (write_request.user ≡ human user)
        × (any_entry (is_member_of 1 user) invited_shop.memberships ≡ true))
unfolding get_cache_key get_request_organization of_user of_human by_header find_row is_membership
get_cache_key_member_example = get_cache_key_member write_request "127.0.0.1" invited_shop 1 refl

-- A text as it stands, in place of the lower-case text and of the hash.
abbrev pub same : String → String
same s = s

abbrev joined_shop : Db
joined_shop = join same 1 invitation 6 new_year invited_shop

accept-invited_shop : accept same "tok" 6 ann new_year invited_shop ≡ ok (2, joined_shop)
unfolding accept Accounts.is_refused is_accepted is_expired is_member any_entry find_row fresh
    is_before instant ordinal days_before_year days_before_month days_in_month is_leap
accept-invited_shop = refl

accept-once_example : accept same "tok" 7 ann february joined_shop ≡ err validation_error
accept-once_example =
    accept-once same "tok" 6 ann new_year invited_shop joined_shop 2 accept-invited_shop 7 ann
      february

abbrev pub key : ApiKey
key = record {
  organization = 1;
  name = "main";
  prefix = "cf_";
  key_hash = "cf_";
  scope = Scope.read;
  expires_at = none;
  revoked = false;
}

abbrev pub keyed_shop : Db
keyed_shop = record paid_shop { api_keys = (1, key) ∷ [] }

authenticate-valid_example :
    (key.key_hash ≡ "cf_") × (key.revoked ≡ false) × IsCurrent key.expires_at new_year
unfolding authenticate select is_match is_key_expired
authenticate-valid_example = authenticate-valid same "cf_" new_year keyed_shop 1 key refl

abbrev created_shop : Db
created_shop = record paid_shop {
  api_keys = (1, new_key same 1 "main" (some february) Scope.read "cf_x") ∷ [];
}

authenticate-create_key_example :
    (key : ApiKey) × (authenticate same "cf_x" new_year created_shop ≡ ok (some (1, key)))
    × (key.organization ≡ 1)
    × (key.scope ≡ Scope.read)
    × (key.expires_at ≡ some february)
unfolding create_key generate_raw_key select fresh add instant ordinal days_before_year
    days_before_month days_in_month is_leap
authenticate-create_key_example =
    authenticate-create_key same 1 "main" (some february) Scope.read "x" new_year paid_shop
      created_shop 1 "cf_x" refl refl (omega arith)
