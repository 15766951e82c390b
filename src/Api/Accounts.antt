-- ===== src/Api/Accounts.antt =====
-- What the views of the accounts promise: one account for each e-mail, the founder's access, and the
-- end of a revoked key.
use chargeflow.Prelude.{
  ℕ, String, Bool, true, false, ◌≡◌, ◌≢◌, sym, ◌∙◌, ◌⊎◌, inl, inr, some, [], ◌∷◌, Table, lookup,
  put, add, fresh, any_entry, select, lookup-add, lookup-select, lookup-put_self, any_entry-lookup,
  IsKeyed, put-IsKeyed, arith, ◌==◌, ==_eq, ==_refl, Bool-cases, Option-cases, ap, same_text,
  eq_iff,
}
use chargeflow.Calendar.{DateTime}
use chargeflow.Schema.{User, ApiKey}
use chargeflow.Db.{Db, ok}
use chargeflow.Keys.{authenticate, revoke, is_match}
use chargeflow.Keys.Validity.{authenticate-valid, authenticate-selected}
use chargeflow.Api.Auth.{
  with_username, insert_user, validate_email, is_same_email, create_user, register_valid,
}

-- No two users share an e-mail, whatever its case.
pub record HasUniqueEmails (fold : String → String) (t : Table User) : Type 0 where
  pub same :
      (j k : ℕ) (a b : User)
      → lookup j t ≡ some a
      → lookup k t ≡ some b
      → same_text (fold a.email) (fold b.email) ≡ true
      → j ≡ k

same_text_sym : (s t : String) → same_text s t ≡ true → same_text t s ≡ true
same_text_sym s t h = (eq_iff t s).1 (sym ((eq_iff s t).0 h))

module _ (strip lower fold normalize : String → String)
    (folds_lower : (s : String) → fold (lower s) ≡ fold s)
    (folds_normalized : (s : String) → fold (normalize s) ≡ fold s) where
  register-eq-ok :
      (value : String) (db db' : Db) (pk : ℕ)
      → register_valid strip lower fold normalize (ok value) db ≡ ok (pk, db')
      → (u : User) × (u.email ≡ normalize (lower (strip value)))
        × (any_entry (is_same_email strip lower fold normalize value) db.users ≡ false)
        × (db' ≡ record db { users = add u db.users })
  unfolding validate_email create_user insert_user with_username
  register-eq-ok value db db' pk h = (
    with_username
        (record { username = lower (strip value); email = normalize (lower (strip value)) }),
    ground arith,
    ground arith,
    ground arith,
  )

  -- The new user shares an e-mail with nobody.
  fresh_email :
      (value : String) (u v : User) (k : ℕ) (t : Table User)
      → u.email ≡ normalize (lower (strip value))
      → any_entry (is_same_email strip lower fold normalize value) t ≡ false
      → lookup k t ≡ some v
      → same_text (fold u.email) (fold v.email) ≡ true
      → ⊥
  fresh_email value u v k t email unused stored same =
      let folded : fold u.email ≡ fold (strip value) =
        ap fold email ∙ folds_normalized (lower (strip value)) ∙ folds_lower (strip value) in
      let misses =
        any_entry-lookup (is_same_email strip lower fold normalize value) k v t stored unused in
      let hit = same_text_sym (fold u.email) (fold v.email) same in
      let hit' : same_text (fold v.email) (fold (strip value)) ≡ true = rw folded at hit in
      ground arith

  -- A registration that goes through keeps the e-mails of the users different, whatever their case,
  -- where lowering and normalizing an e-mail do not change its case folding.
  pub register-HasUniqueEmails :
      (value : String) (db db' : Db) (pk : ℕ)
      → register_valid strip lower fold normalize (ok value) db ≡ ok (pk, db')
      → HasUniqueEmails fold db.users
      → HasUniqueEmails fold db'.users
  register-HasUniqueEmails value db db' pk h unique =
      let (u, email, unused, same) = register-eq-ok value db db' pk h in
      rw same (record {
        same = λ j k a b hj hk e.
            by_keys u email unused j k a b hj hk e (Bool-cases (fresh db.users == j))
              (Bool-cases (fresh db.users == k));
      })
    where
      by_keys :
          (u : User)
          → u.email ≡ normalize (lower (strip value))
          → any_entry (is_same_email strip lower fold normalize value) db.users ≡ false
          → (j k : ℕ) (a b : User) → lookup j (add u db.users) ≡ some a
          → lookup k (add u db.users) ≡ some b
          → same_text (fold a.email) (fold b.email) ≡ true
          → ((fresh db.users == j) ≡ true) ⊎ ((fresh db.users == j) ≡ false)
          → ((fresh db.users == k) ≡ true) ⊎ ((fresh db.users == k) ≡ false)
          → j ≡ k
      by_keys u email unused j k a b hj hk e (inl p) (inl q) =
          grind (arith, ==_eq (fresh db.users) j p, ==_eq (fresh db.users) k q)
      by_keys u email unused j k a b hj hk e (inl p) (inr q) =
          let new : a ≡ u = ground (arith, lookup-add j u db.users) in
          let old : lookup k db.users ≡ some b = ground (arith, lookup-add k u db.users) in
          absurd (fresh_email value u b k db.users email unused old (rw new at e))
      by_keys u email unused j k a b hj hk e (inr p) (inl q) =
          let new : b ≡ u = ground (arith, lookup-add k u db.users) in
          let old : lookup j db.users ≡ some a = ground (arith, lookup-add j u db.users) in
          absurd (
            fresh_email value u a j db.users email unused old
              (rw new at (same_text_sym (fold a.email) (fold b.email) e)))
      by_keys u email unused j k a b hj hk e (inr p) (inr q) =
          let old : lookup j db.users ≡ some a = ground (arith, lookup-add j u db.users) in
          let old' : lookup k db.users ≡ some b = ground (arith, lookup-add k u db.users) in
          unique.same j k a b old old' e

-- Once a key is revoked, no raw text authenticates as that key, at any time.
pub revoked_key :
    (hash : String → String) (pk : ℕ) (db db' : Db)
    → IsKeyed db.api_keys
    → revoke pk db ≡ ok (tt, db')
    → (raw : String) (now : DateTime) (k : ℕ) (key : ApiKey)
    → authenticate hash raw now db' ≡ ok (some (k, key))
    → k ≢ pk
unfolding revoke
revoked_key hash pk db db' keyed h raw now k key found same =
    elim (Option-cases (lookup pk db.api_keys)) [
      | inl missing ↦ ground arith
      | inr (old, stored) ↦
          let revoked = record old { revoked = true } in
          let after : db' ≡ record db { api_keys = put pk revoked db.api_keys } = ground arith in
          let (_, live, _) = authenticate-valid hash raw now db' k key found in
          let selected = authenticate-selected hash raw now db' k key found in
          let keys : db'.api_keys ≡ put pk revoked db.api_keys = λ i. (after i).api_keys in
          let keyed' : IsKeyed db'.api_keys = rw keys (put-IsKeyed pk revoked db.api_keys keyed) in
          let row : lookup k db'.api_keys ≡ some key =
            kept (is_match hash raw) k key db'.api_keys keyed' selected in
          let dead : lookup pk db'.api_keys ≡ some revoked =
            rw keys (lookup-put_self pk revoked old db.api_keys stored) in
          let row' : lookup pk db'.api_keys ≡ some key = rw same at row in ground arith
    ]
  where
    kept :
        (p : ℕ → ApiKey → Bool) (k : ℕ) (key : ApiKey) (t : Table ApiKey)
        → IsKeyed t
        → select p t ≡ (k, key) ∷ []
        → lookup k t ≡ some key
    kept p k key t keyed e =
        let filtered = lookup-select p k t keyed in
        let found : lookup k (select p t) ≡ some key =
          rw e (unfold lookup in ground (arith, ==_refl k)) in
        ground arith
