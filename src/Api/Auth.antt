-- ===== src/Api/Auth.antt =====
-- `RegisterView`, `LoginView` and `MeView` of accounts/api/views.py, `RegisterSerializer` of
-- accounts/api/serializers.py and `User.save` of accounts/models.py. The framework's token of a user
-- and its check of a password are parameters; `fold` is the case folding of `iexact`, `normalize` the
-- framework's `normalize_email`.
use chargeflow.Prelude.{
  ℕ, String, Bool, Option, none, some, [], ◌∷◌, add, fresh, any_entry, same_text, is_blank,
  if◌then◌else◌,
}
use chargeflow.Schema.{User, OrganizationMembership, Role}
use chargeflow.Db.{
  Db, validation_error, authentication_failed, integrity_error, unique_user_email, Result, ok, err,
  M,
}
use chargeflow.Accounts.{Request, is_human, get_request_organization}
use chargeflow.Payments.Charge.{Proc, atomically, ◌>>=◌, ◌>>◌}
use chargeflow.Api.{Reply, reading, reply, check_permissions}

-- `if not self.username`
unfoldable pub with_username : User → User
with_username u = if is_blank u.username then record u { username = u.email } else u

abbrev pub has_email : String → ℕ → User → Bool
has_email email _ u = same_text u.email email

-- `User.save` of a new user, under the unique constraint.
unfoldable pub insert_user : User → M ℕ
insert_user u db =
    let row = with_username u in
    if any_entry (has_email row.email) db.users
    then err (integrity_error unique_user_email)
    else ok (fresh db.users, record db { users = add row db.users })

module _ (strip lower fold normalize : String → String) where
  abbrev pub is_same_email : String → ℕ → User → Bool
  is_same_email value _ u = same_text (fold u.email) (fold (strip value))

  -- `RegisterSerializer.validate_email`
  unfoldable pub validate_email : String → Db → Result String
  validate_email value db =
      if any_entry (is_same_email value) db.users
      then err validation_error
      else ok (lower (strip value))

  -- `User.objects.create_user` of `RegisterView.post`.
  unfoldable pub create_user : String → M ℕ
  create_user email = insert_user (record { username = email; email = normalize email })

  abbrev pub register_valid : Result String → M ℕ
  register_valid (err e) db = err e
  register_valid (ok value) db = elim (validate_email value db) [
    | err e ↦ err e
    | ok email ↦ create_user email db
  ]

  -- `RegisterView.post`; `value` is what the other tests of the serializer leave of the e-mail.
  unfoldable pub register : Result String → Proc (Reply ℕ)
  register value = do pk ← atomically (register_valid value); reply 201 (some pk)

  -- `LoginView.post`; `authenticate` is the framework's check of an e-mail, with the password given.
  unfoldable pub login :
      (String → Db → Option ℕ) → (ℕ → String) → Result String → Proc (Reply String)
  login authenticate token value = do
    email ← reading (λ _. value)
    user ← reading (λ db. elim (authenticate (lower (strip email)) db) [
      | none ↦ err authentication_failed
      | some pk ↦ ok pk
    ])
    reply 200 (some (token user))

-- The user, the organization in scope and the role.
pub record Me : Type 0 where
  pub user : ℕ
  pub organization : Option ℕ
  pub role : Option Role

abbrev pub role_of : Option OrganizationMembership → Option Role
role_of none = none
role_of (some m) = some m.role

-- The `try` of `MeView.get`: a request whose scope is refused has none.
unfoldable pub my_scope : Request → Db → Option ℕ × Option OrganizationMembership
my_scope r db = elim (get_request_organization r db) [ ok found ↦ found | err e ↦ (none, none) ]

-- `MeView.get` of a human's request.
unfoldable pub get_me : Request → ℕ → Proc (Reply Me)
get_me r user = do
  check_permissions ((λ _. ok (is_human r)) ∷ [])
  found ← reading (λ db. ok (my_scope r db))
  reply 200 (some (record { user = user; organization = found.0; role = role_of found.1 }))
