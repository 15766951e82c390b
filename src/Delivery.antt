-- ===== src/Delivery.antt =====
-- A repeated call of the mock gateway.
use chargeflow.Prelude.{
  ℕ, String, Bool, true, false, ◌≡◌, ◌≢◌, refl, sym, ◌∙◌, eq_iff, ◌⊎◌, inl, inr, none, some,
  find_row, add, arith, same_text, Bool-cases, Option-cases, Table, fresh, ◌++◌, [], ◌∷◌,
}
use chargeflow.Schema.{ChargeRequest, ChargeResult, MockChargeReceipt}
use chargeflow.Db.{Db, Error, value_error, ok, err, >>=-eq-ok, handle-eq-ok}
use chargeflow.Payments.Gateway.{
  Digest, fingerprint, has_key, stored_receipt, create_receipt, on_conflict, new_receipt,
  create_or_replay, find_or_create, answer, charge,
}

find_row-append :
    {A : Type 0} (p : A → Bool) (k : ℕ) (v : A) (t : Table A)
    → find_row p t ≡ none
    → p v ≡ true
    → find_row p (t ++ (k, v) ∷ []) ≡ some (k, v)
unfolding find_row
find_row-append p k v [] h e = ground arith
find_row-append p k v ((j, w) ∷ t) h e = ground (arith, find_row-append p k v t)

find_row-add :
    {A : Type 0} (p : A → Bool) (v : A) (t : Table A)
    → find_row p t ≡ none
    → p v ≡ true
    → find_row p (add v t) ≡ some (fresh t, v)
unfolding add
find_row-add p v t h e = find_row-append p (fresh t) v t h e

same_text_refl : (s : String) → same_text s s ≡ true
same_text_refl s = (eq_iff s s).1 refl

absurd_text : {b : Bool} → b ≡ true → b ≡ false → ⊥
absurd_text p q = cc

text_cases :
    (s t : String) → ((same_text s t ≡ true) × (s ≡ t)) ⊎ ((same_text s t ≡ false) × (s ≢ t))
text_cases s t = elim (Bool-cases (same_text s t)) [
  | inl h ↦ inl (h, (eq_iff s t).0 h)
  | inr h ↦ inr (h, λ e. absurd_text ((eq_iff s t).1 e) h)
]

create_receipt-find :
    (r x : MockChargeReceipt) (db db' : Db)
    → find_row (has_key r.provider_idempotency_key) db.receipts ≡ none
    → create_receipt r db ≡ ok (x, db')
    → (k : ℕ) × (find_row (has_key r.provider_idempotency_key) db'.receipts ≡ some (k, x))
unfolding create_receipt
create_receipt-find r x db db' h e = (
  fresh db.receipts,
  ground (
    arith,
    find_row-add (has_key r.provider_idempotency_key) r db.receipts h
        (same_text_refl r.provider_idempotency_key),
  ),
)

stored_receipt-find :
    (key : String) (x : MockChargeReceipt) (db db' : Db)
    → stored_receipt key db ≡ ok (x, db')
    → (k : ℕ) × (find_row (has_key key) db'.receipts ≡ some (k, x))
unfolding stored_receipt
stored_receipt-find key x db db' e = elim (Option-cases (find_row (has_key key) db.receipts)) [
  | inl h ↦ ground arith
  | inr ((k, y), h) ↦ (k, ground arith)
]

create_or_replay-find :
    (digest : Digest) (approved : Bool) (charge_id : String) (r : ChargeRequest)
    (x : MockChargeReceipt) (db db' : Db)
    → find_row (has_key r.idempotency_key) db.receipts ≡ none
    → create_or_replay digest approved charge_id r db ≡ ok (x, db')
    → (k : ℕ) × (find_row (has_key r.idempotency_key) db'.receipts ≡ some (k, x))
unfolding create_or_replay new_receipt
create_or_replay-find digest approved charge_id r x db db' h e =
    elim (handle-eq-ok (create_receipt (new_receipt digest approved charge_id r))
      (on_conflict (stored_receipt r.idempotency_key)) db e) [
        | inl made ↦ create_receipt-find (new_receipt digest approved charge_id r) x db db' h made
        | inr (error, raised, handled) ↦
            stored_receipt-find r.idempotency_key x db db' (by_error error handled)
      ]
  where
    by_error :
        (error : Error)
        → on_conflict (stored_receipt r.idempotency_key) error db ≡ ok (x, db')
        → stored_receipt r.idempotency_key db ≡ ok (x, db')
    by_error error h = ground arith

find_or_create-find :
    (digest : Digest) (approved : Bool) (charge_id : String) (r : ChargeRequest)
    (x : MockChargeReceipt) (db db' : Db)
    → find_or_create digest approved charge_id r db ≡ ok (x, db')
    → (k : ℕ) × (find_row (has_key r.idempotency_key) db'.receipts ≡ some (k, x))
unfolding find_or_create
find_or_create-find digest approved charge_id r x db db' e =
    elim (Option-cases (find_row (has_key r.idempotency_key) db.receipts)) [
      | inl h ↦ create_or_replay-find digest approved charge_id r x db db' h (ground arith)
      | inr ((k, y), h) ↦ (k, ground arith)
    ]

answer-keeps :
    (digest : Digest) (r : ChargeRequest) (x : MockChargeReceipt) (db : Db) {res : ChargeResult}
    {db' : Db}
    → answer digest r x db ≡ ok (res, db')
    → db ≡ db'
unfolding answer
answer-keeps digest r x db e = ground arith

found_again :
    (digest : Digest) (approved : Bool) (charge_id : String) (r : ChargeRequest) (k : ℕ)
    (x : MockChargeReceipt) (db : Db)
    → find_row (has_key r.idempotency_key) db.receipts ≡ some (k, x)
    → charge digest approved charge_id r db ≡ answer digest r x db
unfolding charge find_or_create
found_again digest approved charge_id r k x db h = ground arith

-- What a charge that went through has left: the receipt of its key, which answers its request.
replayable :
    (digest : Digest) (r : ChargeRequest) (result : ChargeResult) (x : MockChargeReceipt)
    (between db' : Db)
    → (k : ℕ) × (find_row (has_key r.idempotency_key) between.receipts ≡ some (k, x))
    → answer digest r x between ≡ ok (result, db')
    → (y : MockChargeReceipt) × ((k : ℕ) × (find_row (has_key r.idempotency_key) db'.receipts
          ≡ some (k, y)))
      × (answer digest r y db' ≡ ok (result, db'))
replayable digest r result x between db' h answered =
    let same = answer-keeps digest r x between answered in (x, rw same at h, rw same at answered)

charged :
    (digest : Digest) (approved : Bool) (charge_id : String) (r : ChargeRequest)
    (result : ChargeResult) (db db' : Db)
    → charge digest approved charge_id r db ≡ ok (result, db')
    → (y : MockChargeReceipt) × ((k : ℕ) × (find_row (has_key r.idempotency_key) db'.receipts
          ≡ some (k, y)))
      × (answer digest r y db' ≡ ok (result, db'))
unfolding charge
charged digest approved charge_id r result db db' e =
    let (x, between, found, answered) =
      >>=-eq-ok (find_or_create digest approved charge_id r) (answer digest r) db e in
    replayable digest r result x between db'
      (find_or_create-find digest approved charge_id r x db between found) answered

-- A charge that went through, called again with the same request, answers the same again and
-- changes nothing, whatever the second draw and the second name of a charge would be.
pub charge-replay :
    (digest : Digest) (approved approved' : Bool) (charge_id charge_id' : String)
    (r : ChargeRequest) (result : ChargeResult) (db db' : Db)
    → charge digest approved charge_id r db ≡ ok (result, db')
    → charge digest approved' charge_id' r db' ≡ ok (result, db')
charge-replay digest approved approved' charge_id charge_id' r result db db' e =
    let (x, (k, h), answered) = charged digest approved charge_id r result db db' e in
    found_again digest approved' charge_id' r k x db' h ∙ answered

answer-refuse :
    (digest : Digest) (r r' : ChargeRequest) (x : MockChargeReceipt) (db : Db)
    {y : ChargeResult × Db}
    → answer digest r x db ≡ ok y
    → fingerprint digest r' ≢ fingerprint digest r
    → answer digest r' x db ≡ err value_error
unfolding answer
answer-refuse digest r r' x db e other = ground (
  arith,
  text_cases x.request_fingerprint (fingerprint digest r),
  text_cases x.request_fingerprint (fingerprint digest r'),
)

-- A charge under a key that was used for a request of another fingerprint is refused, whatever it
-- asks for.
pub charge-other_request :
    (digest : Digest) (approved approved' : Bool) (charge_id charge_id' : String)
    (r r' : ChargeRequest) (result : ChargeResult) (db db' : Db)
    → charge digest approved charge_id r db ≡ ok (result, db')
    → r'.idempotency_key ≡ r.idempotency_key
    → fingerprint digest r' ≢ fingerprint digest r
    → charge digest approved' charge_id' r' db' ≡ err value_error
charge-other_request digest approved approved' charge_id charge_id' r r' result db db' e key other =
    let (x, (k, h), answered) = charged digest approved charge_id r result db db' e in
    found_again digest approved' charge_id' r' k x db' (rw (sym key) at h)
    ∙ answer-refuse digest r r' x db' answered other
