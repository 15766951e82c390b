-- ===== src/Keys/Validity.antt =====
-- Which keys authenticate a request.
use text.Mathlib.Text.{starts_with}
use text.Mathlib.TextPositions.{starts_with-append}
use chargeflow.Prelude.{
  select-holds, ℕ, String, Bool, true, false, ◌≡◌, refl, Option, none, ◌≤◌, some, List, [], ◌∷◌,
  ◌++◌, Table, add, fresh, select, arith, eq_iff,
}
use chargeflow.Calendar.{DateTime, instant, is_before}
use chargeflow.Schema.{Scope, ApiKey}
use chargeflow.Db.{Db, ok}
use chargeflow.Keys.{expired}
use chargeflow.Keys.{
  key_prefix, prefix_of, is_key_expired, is_match, sole, authenticate, new_key, create_key,
  generate_raw_key,
}

select-append :
    {A : Type 0} (p : ℕ → A → Bool) (k : ℕ) (v : A) (t : Table A)
    → select p t ≡ []
    → p k v ≡ true
    → select p (t ++ (k, v) ∷ []) ≡ (k, v) ∷ []
unfolding select
select-append p k v [] h e = ground arith
select-append p k v ((j, w) ∷ t) h e = ground (arith, select-append p k v t)

select-add :
    {A : Type 0} (p : ℕ → A → Bool) (v : A) (t : Table A)
    → select p t ≡ []
    → p (fresh t) v ≡ true
    → select p (add v t) ≡ (fresh t, v) ∷ []
unfolding add
select-add p v t h e = select-append p (fresh t) v t h e

-- A key with this expiry is valid at that time.
abbrev pub IsCurrent : Option DateTime → DateTime → Type 0
IsCurrent none now = Unit
IsCurrent (some t) now = instant now ≤ instant t

-- A raw key of the program begins with the prefix that `authenticate` asks for.
raw_key-prefix : (drawn : String) → starts_with (generate_raw_key drawn) key_prefix ≡ true
unfolding generate_raw_key
raw_key-prefix drawn = starts_with-append key_prefix drawn

expired-IsCurrent :
    (expires_at : Option DateTime) (now : DateTime)
    → expired expires_at now ≡ false
    → IsCurrent expires_at now
unfolding is_before
expired-IsCurrent none now h = tt
expired-IsCurrent (some t) now h = ground arith

module _ (hash : String → String) where
  sole-eq-some :
      (rows : List (ℕ × ApiKey)) (now : DateTime) (k : ℕ) (key : ApiKey)
      → sole hash rows now ≡ ok (some (k, key))
      → (rows ≡ (k, key) ∷ []) × (is_key_expired key now ≡ false)
  sole-eq-some [] now k key h = ground arith
  sole-eq-some ((j, x) ∷ []) now k key h = ground arith
  sole-eq-some (_ ∷ _ ∷ _) now k key h = ground arith

  match_row :
      (raw : String) (k : ℕ) (key : ApiKey)
      → is_match hash raw k key ≡ true
      → (key.key_hash ≡ hash raw) × (key.revoked ≡ false)
  unfolding is_match
  match_row raw k key h = ground (arith, eq_iff key.key_hash (hash raw))

  pub authenticate-selected :
      (raw : String) (now : DateTime) (db : Db) (k : ℕ) (key : ApiKey)
      → authenticate hash raw now db ≡ ok (some (k, key))
      → select (is_match hash raw) db.api_keys ≡ (k, key) ∷ []
  unfolding authenticate
  authenticate-selected raw now db k key h =
      (sole-eq-some (select (is_match hash raw) db.api_keys) now k key (ground arith)).0

  -- A key that authenticates is stored with the hash of the raw text, is not revoked and has not
  -- expired.
  pub authenticate-valid :
      (raw : String) (now : DateTime) (db : Db) (k : ℕ) (key : ApiKey)
      → authenticate hash raw now db ≡ ok (some (k, key))
      → (key.key_hash ≡ hash raw) × (key.revoked ≡ false) × IsCurrent key.expires_at now
  unfolding authenticate
  authenticate-valid raw now db k key h =
      let (found, current) =
        sole-eq-some (select (is_match hash raw) db.api_keys) now k key (ground arith) in
      let (hashed, live) =
        match_row raw k key (select-holds (is_match hash raw) k key db.api_keys [] found) in
      (hashed, live, expired-IsCurrent key.expires_at now (unfold is_key_expired in current))

  new_key-match :
      (organization : ℕ) (name : String) (expires_at : Option DateTime) (scope : Scope)
      (raw : String) (k : ℕ)
      → is_match hash raw k (new_key hash organization name expires_at scope raw) ≡ true
  unfolding is_match new_key
  new_key-match organization name expires_at scope raw k = ground (
    arith,
    (eq_iff (prefix_of raw) (prefix_of raw)).1 refl,
    (eq_iff (hash raw) (hash raw)).1 refl,
  )

  create_key-eq-ok :
      (organization : ℕ) (name : String) (expires_at : Option DateTime) (scope : Scope)
      (drawn : String) (db db' : Db) (k : ℕ) (raw : String)
      → create_key hash organization name expires_at scope drawn db ≡ ok ((k, raw), db')
      → (k ≡ fresh db.api_keys)
        × (raw ≡ generate_raw_key drawn)
        × (db'.api_keys ≡ add (new_key hash organization name expires_at scope raw) db.api_keys)
  unfolding create_key
  create_key-eq-ok organization name expires_at scope drawn db db' k raw h = ground arith

  found_alone :
      (raw : String) (now : DateTime) (db : Db) (k : ℕ) (key : ApiKey)
      → starts_with raw key_prefix ≡ true
      → is_key_expired key now ≡ false
      → select (is_match hash raw) db.api_keys ≡ (k, key) ∷ []
      → authenticate hash raw now db ≡ ok (some (k, key))
  unfolding authenticate
  found_alone raw now db k key starts current h = ground arith

  new_key-current :
      (organization : ℕ) (name : String) (expires_at : Option DateTime) (scope : Scope)
      (raw : String) (now : DateTime)
      → IsCurrent expires_at now
      → is_key_expired (new_key hash organization name expires_at scope raw) now ≡ false
  unfolding is_key_expired new_key is_before
  new_key-current organization name none scope raw now current = refl
  new_key-current organization name (some t) scope raw now current = ground arith

  new_key-columns :
      (organization : ℕ) (name : String) (expires_at : Option DateTime) (scope : Scope)
      (raw : String)
      → ((new_key hash organization name expires_at scope raw).organization ≡ organization)
        × ((new_key hash organization name expires_at scope raw).scope ≡ scope)
        × ((new_key hash organization name expires_at scope raw).expires_at ≡ expires_at)
  unfolding new_key
  new_key-columns organization name expires_at scope raw = (refl, refl, refl)

  -- A new key authenticates: the raw text that its creation returns gives its row, with the
  -- organization, the scope and the expiry asked for, from the moment that it is created and up to
  -- its expiry, where no stored key that is not revoked shares its hash and prefix.
  pub authenticate-create_key :
      (organization : ℕ) (name : String) (expires_at : Option DateTime) (scope : Scope)
      (drawn : String) (now : DateTime) (db db' : Db) (k : ℕ) (raw : String)
      → create_key hash organization name expires_at scope drawn db ≡ ok ((k, raw), db')
      → select (is_match hash raw) db.api_keys ≡ []
      → IsCurrent expires_at now
      → (key : ApiKey) × (authenticate hash raw now db' ≡ ok (some (k, key)))
        × (key.organization ≡ organization)
        × (key.scope ≡ scope)
        × (key.expires_at ≡ expires_at)
  authenticate-create_key organization name expires_at scope drawn now db db' k raw h alone
        current =
      let key = new_key hash organization name expires_at scope raw in
      let (number, drawn_from, stored) =
        create_key-eq-ok organization name expires_at scope drawn db db' k raw h in
      let starts : starts_with raw key_prefix ≡ true = rw drawn_from (raw_key-prefix drawn) in
      let (of_organization, of_scope, until) =
        new_key-columns organization name expires_at scope raw in
      (
        key,
        found_alone raw now db' k key starts
            (new_key-current organization name expires_at scope raw now current)
            (rw (stored, number)
              (select-add (is_match hash raw) key db.api_keys alone
                (new_key-match organization name expires_at scope raw (fresh db.api_keys)))),
        of_organization,
        of_scope,
        until,
      )
