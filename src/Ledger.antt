-- ===== src/Ledger.antt =====
-- The mock gateway against what a payment provider promises: a map from idempotency keys to the
-- request that came under the key and its result.
use chargeflow.Prelude.{
  ℕ, String, Bool, true, false, ◌⊎◌, ◌≡◌, refl, Option, none, some, [], ◌∷◌, ◌++◌, Table, add,
  fresh, any_entry, find_row, arith, same_text, eq_iff, Option-cases, Bool-cases, inl, inr,
  if◌then◌else◌,
}
use chargeflow.Schema.{MockChargeReceipt, ChargeRequest, ChargeResult}
use chargeflow.Db.{Db, Result, ok, err, value_error}
use chargeflow.Payments.Gateway.{
  Digest, fingerprint, has_key, is_taken, create_receipt, new_receipt, create_or_replay,
  find_or_create, answer, charge,
}
use chargeflow.Payments.Charge.{atomically}

-- What the provider knows under a key.
pub record Entry : Type 0 where
  pub request : String
  pub result : ChargeResult

abbrev pub Provider : Type 0
Provider = String → Option Entry

-- A charge of the provider: the first request under a key gives the key its result, the same request
-- again gets that result, and another request under the key is refused.
unfoldable pub spec_charge : String → Entry → Provider → Result ChargeResult × Provider
spec_charge key new known = elim (known key) [
  | none ↦ (ok new.result, λ k. if same_text key k then some new else known k)
  | some old ↦
      if same_text old.request new.request then (ok old.result, known) else (err value_error, known)
]

spec_known :
    (key : String) (new old : Entry) (known : Provider) (b : Bool)
    → known key ≡ some old
    → same_text old.request new.request ≡ b
    → spec_charge key new known ≡ (if b then ok old.result else err value_error, known)
unfolding spec_charge
spec_known key new old known b e same = ground arith

spec_unknown :
    (key : String) (new : Entry) (known : Provider)
    → known key ≡ none
    → spec_charge key new known
      ≡ (ok new.result, λ k. if same_text key k then some new else known k)
unfolding spec_charge
spec_unknown key new known e = rw (spec_charge, e) refl

abbrev result_of : MockChargeReceipt → ChargeResult
result_of r = record {
  success = r.success;
  provider_charge_id = r.provider_charge_id;
  provider_response = r.provider_response;
}

abbrev entry_of : MockChargeReceipt → Entry
entry_of r = record { request = r.request_fingerprint; result = result_of r }

-- The provider that the table of receipts stands for.
unfoldable pub provider_of : Table MockChargeReceipt → Provider
provider_of t key = elim (find_row (has_key key) t) [
  | none ↦ none
  | some (_, r) ↦ some (entry_of r)
]

abbrev pub has_name : String → ℕ → MockChargeReceipt → Bool
has_name name _ r = same_text r.provider_charge_id name

find_row-append :
    {A : Type 0} (p : A → Bool) (k : ℕ) (v : A) (t : Table A)
    → find_row p (t ++ (k, v) ∷ [])
      ≡ elim (find_row p t) [ none ↦ (if p v then some (k, v) else none) | some x ↦ some x ]
unfolding find_row
find_row-append p k v [] = ground arith
find_row-append p k v ((j, w) ∷ t) = ground (arith, find_row-append p k v t)

find_row-add :
    {A : Type 0} (p : A → Bool) (v : A) (t : Table A)
    → find_row p (add v t)
      ≡ elim (find_row p t) [ none ↦ (if p v then some (fresh t, v) else none) | some x ↦ some x ]
unfolding add
find_row-add p v t = find_row-append p (fresh t) v t

-- Neither the key nor the name is taken.
not_taken :
    (key name : String) (t : Table MockChargeReceipt)
    → find_row (has_key key) t ≡ none
    → any_entry (has_name name) t ≡ false
    → any_entry (is_taken key name) t ≡ false
unfolding find_row any_entry
not_taken key name [] h e = refl
not_taken key name ((j, r) ∷ t) h e = ground (arith, not_taken key name t)

module _ (digest : Digest) (approved : Bool) (name : String) (r : ChargeRequest) (db : Db)
    (new_name : any_entry (has_name name) db.receipts ≡ false) where
  receipt : MockChargeReceipt
  receipt = new_receipt digest approved name r

  first_charge :
      find_row (has_key r.idempotency_key) db.receipts ≡ none
      → atomically (charge digest approved name r) db
        ≡ (ok (result_of receipt), record db { receipts = add receipt db.receipts })
  unfolding charge find_or_create create_or_replay create_receipt new_receipt answer receipt
  first_charge new_key =
      let free = not_taken r.idempotency_key name db.receipts new_key new_name in
      let same = (eq_iff (fingerprint digest r) (fingerprint digest r)).1 refl in
      ground (arith, free, same)

  later_charge :
      (j : ℕ) (old : MockChargeReceipt)
      → find_row (has_key r.idempotency_key) db.receipts ≡ some (j, old)
      → atomically (charge digest approved name r) db ≡ (
        if same_text old.request_fingerprint (fingerprint digest r)
            then ok (result_of old)
            else err value_error,
        db,
      )
  unfolding charge find_or_create answer
  later_charge j old found = ground arith

  -- The table with the new receipt knows one more key.
  receipts-add :
      find_row (has_key r.idempotency_key) db.receipts ≡ none
      → (k : String)
      → provider_of (add receipt db.receipts) k ≡ (
          if same_text r.idempotency_key k
          then some (entry_of receipt)
          else provider_of db.receipts k)
  unfolding provider_of receipt new_receipt
  receipts-add new_key k = elim (Bool-cases (same_text r.idempotency_key k)) [
    | inl same ↦
        let key = (eq_iff r.idempotency_key k).0 same in
        let none_before : find_row (has_key k) db.receipts ≡ none = rw key at new_key in
        ground (arith, find_row-add (has_key k) receipt db.receipts)
    | inr other ↦ ground (arith, find_row-add (has_key k) receipt db.receipts)
  ]

  unknown_key :
      find_row (has_key r.idempotency_key) db.receipts ≡ none
      → provider_of db.receipts r.idempotency_key ≡ none
  unfolding provider_of
  unknown_key e = ground arith

  known_key :
      (j : ℕ) (old : MockChargeReceipt)
      → find_row (has_key r.idempotency_key) db.receipts ≡ some (j, old)
      → provider_of db.receipts r.idempotency_key ≡ some (entry_of old)
  unfolding provider_of
  known_key j old e = ground arith

  -- Where the gateway's new name for a charge is not in use, a call of the mock gateway does what the
  -- provider does: it gives the same result or the same refusal, and the receipts behind it stand for
  -- the provider behind the charge.
  pub charge-refines :
      ((atomically (charge digest approved name r) db).0
        ≡ (spec_charge r.idempotency_key
            (entry_of (new_receipt digest approved name r))
            (provider_of db.receipts)).0)
      × (provider_of ((atomically (charge digest approved name r) db).1).receipts
          ≡ (spec_charge r.idempotency_key
              (entry_of (new_receipt digest approved name r))
              (provider_of db.receipts)).1)
  unfolding receipt
  charge-refines = elim (Option-cases (find_row (has_key r.idempotency_key) db.receipts)) [
    | inl new_key ↦
        rw
          (
            first_charge new_key,
            spec_unknown r.idempotency_key (entry_of (new_receipt digest approved name r))
                (provider_of db.receipts) (unknown_key new_key),
          )
          (refl, λ i k. receipts-add new_key k i)
    | inr ((j, old), found) ↦
        by_request j old found (known_key j old found)
          (Bool-cases (same_text old.request_fingerprint (fingerprint digest r)))
  ]
    where
      by_request :
          (j : ℕ) (old : MockChargeReceipt)
          → find_row (has_key r.idempotency_key) db.receipts ≡ some (j, old)
          → provider_of db.receipts r.idempotency_key ≡ some (entry_of old)
          → (same_text old.request_fingerprint (fingerprint digest r) ≡ true)
            ⊎ (same_text old.request_fingerprint (fingerprint digest r) ≡ false)
          → ((atomically (charge digest approved name r) db).0
              ≡ (spec_charge r.idempotency_key
                  (entry_of (new_receipt digest approved name r))
                  (provider_of db.receipts)).0)
            × (provider_of ((atomically (charge digest approved name r) db).1).receipts
                ≡ (spec_charge r.idempotency_key
                    (entry_of (new_receipt digest approved name r))
                    (provider_of db.receipts)).1)
      by_request j old found known (inl same) =
          unfold new_receipt in
          rw
            (
              later_charge j old found,
              spec_known r.idempotency_key (entry_of (new_receipt digest approved name r))
                  (entry_of old) (provider_of db.receipts) true known same,
              same,
            )
            (refl, refl)
      by_request j old found known (inr other) =
          unfold new_receipt in
          rw
            (
              later_charge j old found,
              spec_known r.idempotency_key (entry_of (new_receipt digest approved name r))
                  (entry_of old) (provider_of db.receipts) false known other,
              other,
            )
            (refl, refl)
