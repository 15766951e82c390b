-- ===== src/Keys.antt =====
-- API keys: `ApiKey` of accounts/models.py, accounts/tokens.py, accounts/authentication.py and the
-- key's views of accounts/api/views.py. `hash` is the SHA-256 of `hash_key`; the part of a new key
-- that `secrets` draws is an argument. The first 12 characters of a raw key are taken by bytes, which
-- are characters in the keys that the program makes.
pub mod Validity
use Prim.Native.String.{slice, ◌++◌}
use text.Mathlib.Text.{starts_with}
use chargeflow.Prelude.{
  ℕ, String, Bool, true, false, ◌&&◌, ◌||◌, not, Option, none, some, List, [], ◌∷◌, Table, lookup,
  put, add, fresh, select, ◌==◌, same_text, is_blank, if◌then◌else◌,
}
use chargeflow.Calendar.{DateTime, is_before}
use chargeflow.Schema.{Scope, ApiKey}
use chargeflow.Db.{
  Db, Error, authentication_failed, does_not_exist, multiple_objects, Result, ok, err, M, pure,
}
use chargeflow.Accounts.{Principal, project}

-- `KEY_PREFIX` and `KEY_PREFIX_LENGTH`
abbrev pub key_prefix : String
key_prefix = "cf_"

abbrev pub key_prefix_length : ℕ
key_prefix_length = 12

-- `generate_raw_key`
unfoldable pub generate_raw_key : String → String
generate_raw_key drawn = key_prefix ++ drawn

abbrev pub prefix_of : String → String
prefix_of raw = slice raw 0 key_prefix_length

abbrev pub expired : Option DateTime → DateTime → Bool
expired none now = false
expired (some t) now = is_before t now

-- `api_key.expires_at and api_key.expires_at < timezone.now()`
unfoldable pub is_key_expired : ApiKey → DateTime → Bool
is_key_expired key now = expired key.expires_at now

module _ (hash : String → String) where
  -- The lookup of `authenticate`.
  unfoldable pub is_match : String → ℕ → ApiKey → Bool
  is_match raw _ key =
      same_text key.prefix (prefix_of raw) && same_text key.key_hash (hash raw) && not key.revoked

  -- `get` over the rows that match, with its two exceptions.
  abbrev pub sole : List (ℕ × ApiKey) → DateTime → Result (Option (ℕ × ApiKey))
  sole [] now = ok none
  sole ((k, key) ∷ []) now = if is_key_expired key now then ok none else ok (some (k, key))
  sole (_ ∷ _ ∷ _) now = err multiple_objects

  -- `ApiKey.authenticate`
  unfoldable pub authenticate : String → DateTime → Db → Result (Option (ℕ × ApiKey))
  authenticate raw now db =
      if not (starts_with raw key_prefix)
      then ok none
      else sole (select (is_match raw) db.api_keys) now

  -- `ApiKeyAuthentication.authenticate` of what the header `Authorization: Bearer` carries; `none`
  -- leaves the request to the next scheme.
  unfoldable pub authenticate_bearer :
      Option String → DateTime → Db → Result (Option (ℕ × Principal))
  authenticate_bearer none now db = ok none
  authenticate_bearer (some raw) now db =
      if is_blank raw then ok none else elim (authenticate raw now db) [
        | err e ↦ err e
        | ok none ↦ err authentication_failed
        | ok (some (k, key)) ↦ ok (some (key.organization, project key.organization key.scope))
      ]

  -- The row that `create_for_organization` inserts.
  unfoldable pub new_key : ℕ → String → Option DateTime → Scope → String → ApiKey
  new_key organization name expires_at scope raw = record {
    organization = organization;
    name = name;
    prefix = prefix_of raw;
    key_hash = hash raw;
    scope = scope;
    expires_at = expires_at;
    revoked = false;
  }

  -- `ApiKey.create_for_organization`; it returns the new key's number and its raw text.
  unfoldable pub create_key : ℕ → String → Option DateTime → Scope → String → M (ℕ × String)
  create_key organization name expires_at scope drawn db =
      let raw = generate_raw_key drawn in
      ok (
        (fresh db.api_keys, raw),
        record db { api_keys = add (new_key organization name expires_at scope raw) db.api_keys },
      )

-- `ApiKeyViewSet.destroy` of a key in the request's scope.
unfoldable pub revoke : ℕ → M (Unit {0})
revoke pk db = elim (lookup pk db.api_keys) [
  | none ↦ err does_not_exist
  | some key ↦ ok (tt, record db { api_keys = put pk (record key { revoked = true }) db.api_keys })
]
