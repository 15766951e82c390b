-- ===== src/Evolution/Unique.antt =====
-- The unique constraints of payments/domain/models.py over a whole table.
use chargeflow.Prelude.{
  ℕ, Bool, true, false, ◌≡◌, sym, ap, is_blank, ◌⊎◌, inl, inr, none, some, Table, lookup, put, add,
  fresh, any_entry, lookup-put, lookup-add, any_entry-lookup, any_entry-none, arith, ◌==◌, ==_eq,
  ==_refl, Bool-cases, IsKeyed, put-IsKeyed, add-IsKeyed, Option, String, same_text, eq_iff,
}
use chargeflow.Schema.{PaymentAttempt}
use chargeflow.Payments.Attempts.{
  conflict, other_row, same_key, agrees_on_key, agrees_on_success, agrees_on_provider_key,
  agrees_on_charge,
}

-- No two attempts agree.
pub record IsUniqueBy (agrees : PaymentAttempt → PaymentAttempt → Bool) (t : Table PaymentAttempt)
    : Type 0 where
  pub same :
      (j k : ℕ) (a b : PaymentAttempt)
      → lookup j t ≡ some a
      → lookup k t ≡ some b
      → agrees a b ≡ true
      → j ≡ k

module _ (agrees : PaymentAttempt → PaymentAttempt → Bool)
    (agrees_sym : (a b : PaymentAttempt) → agrees a b ≡ true → agrees b a ≡ true) where
  -- A row that the constraint admits agrees with no other row.
  admitted :
      (t : Table PaymentAttempt) (pk : ℕ) (row : PaymentAttempt)
      → any_entry (other_row agrees pk row) t ≡ false
      → (k : ℕ) (b : PaymentAttempt) → lookup k t ≡ some b
      → agrees row b ≡ true
      → k ≡ pk
  admitted t pk row free k b h e =
      let no = any_entry-lookup (other_row agrees pk row) k b t h free in ground (arith, ==_eq k pk)

  -- `u` is `t` with an admitted row under `pk`.
  extend-IsUniqueBy :
      (pk : ℕ) (row : PaymentAttempt) (t u : Table PaymentAttempt)
      → ((j : ℕ) (a : PaymentAttempt)
          → lookup j u ≡ some a
          → (pk == j) ≡ false
          → lookup j t ≡ some a)
      → ((j : ℕ) (a : PaymentAttempt) → lookup j u ≡ some a → (pk == j) ≡ true → a ≡ row)
      → any_entry (other_row agrees pk row) t ≡ false
      → IsUniqueBy agrees t
      → IsUniqueBy agrees u
  extend-IsUniqueBy pk row t u old new free h = record {
    same = λ j k a b hj hk e. by_keys j k a b hj hk e (Bool-cases (pk == j)) (Bool-cases (pk == k));
  }
    where
      by_keys :
          (j k : ℕ) (a b : PaymentAttempt)
          → lookup j u ≡ some a
          → lookup k u ≡ some b
          → agrees a b ≡ true
          → ((pk == j) ≡ true) ⊎ ((pk == j) ≡ false)
          → ((pk == k) ≡ true) ⊎ ((pk == k) ≡ false)
          → j ≡ k
      by_keys j k a b hj hk e (inl p) (inl q) = grind (arith, ==_eq pk j p, ==_eq pk k q)
      by_keys j k a b hj hk e (inl p) (inr q) =
          let same = admitted t pk row free k b (old k b hk q) (rw (new j a hj p) at e) in
          grind (arith, ==_eq pk j p, same)
      by_keys j k a b hj hk e (inr p) (inl q) =
          let e' = agrees_sym a b e in
          let same = admitted t pk row free j a (old j a hj p) (rw (new k b hk q) at e') in
          grind (arith, ==_eq pk k q, same)
      by_keys j k a b hj hk e (inr p) (inr q) = h.same j k a b (old j a hj p) (old k b hk q) e

  put-IsUniqueBy :
      (pk : ℕ) (row : PaymentAttempt) (t : Table PaymentAttempt)
      → any_entry (other_row agrees pk row) t ≡ false
      → IsUniqueBy agrees t
      → IsUniqueBy agrees (put pk row t)
  put-IsUniqueBy pk row t =
      extend-IsUniqueBy pk row t (put pk row t) (λ j a h e. ground (arith, lookup-put j pk row t))
        (λ j a h e. ground (arith, lookup-put j pk row t))

  add-IsUniqueBy :
      (row : PaymentAttempt) (t : Table PaymentAttempt)
      → any_entry (other_row agrees (fresh t) row) t ≡ false
      → IsUniqueBy agrees t
      → IsUniqueBy agrees (add row t)
  add-IsUniqueBy row t =
      extend-IsUniqueBy (fresh t) row t (add row t) (λ j a h e. ground (arith, lookup-add j row t))
        (λ j a h e. ground (arith, lookup-add j row t))

-- A row that agrees with no more rows than the stored one violates nothing.
pub unchanged :
    (agrees : PaymentAttempt → PaymentAttempt → Bool) (t : Table PaymentAttempt) (pk : ℕ)
    (a row : PaymentAttempt)
    → IsKeyed t
    → IsUniqueBy agrees t
    → lookup pk t ≡ some a
    → ((b : PaymentAttempt) → agrees row b ≡ true → agrees a b ≡ true)
    → any_entry (other_row agrees pk row) t ≡ false
unchanged agrees t pk a row keyed h e less =
    any_entry-none (other_row agrees pk row) t keyed
      λ k b hk. other k b hk (Bool-cases (agrees row b))
  where
    other :
        (k : ℕ) (b : PaymentAttempt)
        → lookup k t ≡ some b
        → (agrees row b ≡ true) ⊎ (agrees row b ≡ false)
        → other_row agrees pk row k b ≡ false
    other k b hk (inl agree) =
        let same = h.same pk k a b e hk (less b agree) in ground (arith, ==_refl k)
    other k b hk (inr differ) = ground arith

-- What an INSERT or an UPDATE that violates nothing has looked up.
pub record IsFree (t : Table PaymentAttempt) (pk : ℕ) (row : PaymentAttempt) : Type 0 where
  pub key : any_entry (other_row agrees_on_key pk row) t ≡ false
  pub success : any_entry (other_row agrees_on_success pk row) t ≡ false
  pub provider_key : any_entry (other_row agrees_on_provider_key pk row) t ≡ false
  pub charge : any_entry (other_row agrees_on_charge pk row) t ≡ false

conflict-IsFree :
    (t : Table PaymentAttempt) (pk : ℕ) (row : PaymentAttempt)
    → conflict t pk row ≡ none
    → IsFree t pk row
unfolding conflict
conflict-IsFree t pk row h = ground arith

pub IsFree-conflict :
    (t : Table PaymentAttempt) (pk : ℕ) (row : PaymentAttempt)
    → IsFree t pk row
    → conflict t pk row ≡ none
unfolding conflict
IsFree-conflict t pk row h = ground (arith, h.key, h.success, h.provider_key, h.charge)

same_text_sym : (s t : String) → same_text s t ≡ true → same_text t s ≡ true
same_text_sym s t h = (eq_iff t s).1 (sym ((eq_iff s t).0 h))

same_key_sym : (a b : Option String) → same_key a b ≡ true → same_key b a ≡ true
same_key_sym (some a) (some b) h = same_text_sym a b h
same_key_sym none _ h = ground arith
same_key_sym (some a) none h = ground arith

key_sym : (a b : PaymentAttempt) → agrees_on_key a b ≡ true → agrees_on_key b a ≡ true
key_sym a b h = ground (arith, same_key_sym a.idempotency_key b.idempotency_key)

success_sym : (a b : PaymentAttempt) → agrees_on_success a b ≡ true → agrees_on_success b a ≡ true
success_sym a b h = ground arith

provider_key_sym :
    (a b : PaymentAttempt) → agrees_on_provider_key a b ≡ true → agrees_on_provider_key b a ≡ true
provider_key_sym a b h = ground (
  arith,
  same_text_sym a.provider b.provider,
  same_text_sym a.provider_idempotency_key b.provider_idempotency_key,
)

same_text_blank : (s t : String) → same_text s t ≡ true → is_blank s ≡ is_blank t
same_text_blank s t h = ap is_blank ((eq_iff s t).0 h)

charge_sym : (a b : PaymentAttempt) → agrees_on_charge a b ≡ true → agrees_on_charge b a ≡ true
charge_sym a b h = ground (
  arith,
  same_text_blank a.provider_charge_id b.provider_charge_id,
  same_text_sym a.provider b.provider,
  same_text_sym a.provider_charge_id b.provider_charge_id,
)

-- The constraint `one_success_per_invoice`.
abbrev pub HasOneSuccess : Table PaymentAttempt → Type 0
HasOneSuccess t = IsUniqueBy agrees_on_success t

pub put-HasOneSuccess :
    (pk : ℕ) (row : PaymentAttempt) (t : Table PaymentAttempt)
    → conflict t pk row ≡ none
    → HasOneSuccess t
    → HasOneSuccess (put pk row t)
put-HasOneSuccess pk row t free =
    put-IsUniqueBy agrees_on_success success_sym pk row t (conflict-IsFree t pk row free).success

pub add-HasOneSuccess :
    (row : PaymentAttempt) (t : Table PaymentAttempt)
    → conflict t (fresh t) row ≡ none
    → HasOneSuccess t
    → HasOneSuccess (add row t)
add-HasOneSuccess row t free =
    add-IsUniqueBy agrees_on_success success_sym row t
      (conflict-IsFree t (fresh t) row free).success

-- All four constraints, and the primary key.
pub record IsUnique (t : Table PaymentAttempt) : Type 0 where
  pub keyed : IsKeyed t
  pub key : IsUniqueBy agrees_on_key t
  pub success : IsUniqueBy agrees_on_success t
  pub provider_key : IsUniqueBy agrees_on_provider_key t
  pub charge : IsUniqueBy agrees_on_charge t

pub put-IsUnique :
    (pk : ℕ) (row : PaymentAttempt) (t : Table PaymentAttempt)
    → conflict t pk row ≡ none
    → IsUnique t
    → IsUnique (put pk row t)
put-IsUnique pk row t none_violated h =
    let free = conflict-IsFree t pk row none_violated in
    record {
      keyed = put-IsKeyed pk row t h.keyed;
      key = put-IsUniqueBy agrees_on_key key_sym pk row t free.key h.key;
      success = put-IsUniqueBy agrees_on_success success_sym pk row t free.success h.success;
      provider_key =
          put-IsUniqueBy agrees_on_provider_key provider_key_sym pk row t free.provider_key
            h.provider_key;
      charge = put-IsUniqueBy agrees_on_charge charge_sym pk row t free.charge h.charge;
    }

pub add-IsUnique :
    (row : PaymentAttempt) (t : Table PaymentAttempt)
    → conflict t (fresh t) row ≡ none
    → IsUnique t
    → IsUnique (add row t)
add-IsUnique row t none_violated h =
    let free = conflict-IsFree t (fresh t) row none_violated in
    record {
      keyed = add-IsKeyed row t h.keyed;
      key = add-IsUniqueBy agrees_on_key key_sym row t free.key h.key;
      success = add-IsUniqueBy agrees_on_success success_sym row t free.success h.success;
      provider_key =
          add-IsUniqueBy agrees_on_provider_key provider_key_sym row t free.provider_key
            h.provider_key;
      charge = add-IsUniqueBy agrees_on_charge charge_sym row t free.charge h.charge;
    }
