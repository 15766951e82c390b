-- ===== src/Signing.antt =====
-- The signature of a webhook: what payments/infrastructure/signature.py accepts.
use chargeflow.Prelude.{
  ℕ, ◌+◌, ◌≤◌, Bool, true, not, ◌≡◌, refl, ◌∙◌, ◌↔◌, inl, inr, none, some, [], ◌∷◌, ◌++◌, arith,
  Option-cases, ◌==◌, ==_eq, ==_refl,
}
use chargeflow.Payments.Signature.{
  Bytes, length, same_bytes, cut_at_comma, split_in_two, strip_prefix, all_chars, decimal,
  is_timestamp, is_digest, is_outside, max_digits, is_digit, is_hex, verify_parts, verify_split,
  verify_webhook_signature,
}

same_bytes_eq : (a b : Bytes) → same_bytes a b ≡ true → a ≡ b
same_bytes_eq [] [] h = refl
same_bytes_eq [] (y ∷ b) h = cc
same_bytes_eq (x ∷ a) [] h = cc
same_bytes_eq (x ∷ a) (y ∷ b) h = grind (arith, ==_eq x y, same_bytes_eq a b)

same_bytes_refl : (a : Bytes) → same_bytes a a ≡ true
same_bytes_refl [] = refl
same_bytes_refl (x ∷ a) = ground (arith, ==_refl x, same_bytes_refl a)

cut_at_comma-eq-some : (s a b : Bytes) → cut_at_comma s ≡ some (a, b) → s ≡ a ++ b',' ∷ b
unfolding cut_at_comma
cut_at_comma-eq-some [] a b h = cc
cut_at_comma-eq-some (c ∷ s) a b h = elim (Option-cases (cut_at_comma s)) [
  | inl e ↦ ground (arith, ==_eq c b',')
  | inr ((a', b'), e) ↦ ground (arith, ==_eq c b',', cut_at_comma-eq-some s a' b' e)
]

split_in_two-eq-some : (s a b : Bytes) → split_in_two s ≡ some (a, b) → s ≡ a ++ b',' ∷ b
unfolding split_in_two
split_in_two-eq-some s a b h = elim (Option-cases (cut_at_comma s)) [
  | inl e ↦ ground arith
  | inr ((a', b'), e) ↦ ground (arith, cut_at_comma-eq-some s a' b' e)
]

strip_prefix-eq-some : (p s r : Bytes) → strip_prefix p s ≡ some r → s ≡ p ++ r
unfolding strip_prefix
strip_prefix-eq-some [] s r h = ground arith
strip_prefix-eq-some (x ∷ p) [] r h = cc
strip_prefix-eq-some (x ∷ p) (c ∷ s) r h = ground (arith, ==_eq x c, strip_prefix-eq-some p s r)

-- What the header must be, for a body at a time: the two parts in their order, the time within 300
-- seconds, and the digest of the time and the body under the secret.
pub record IsSigned (hmac : Bytes → Bytes → Bytes) (secret : Bytes) (now : ℕ)
    (body signature : Bytes) : Type 0 where
  pub timestamp : Bytes
  pub digest : Bytes
  pub has_secret : 1 ≤ length secret
  pub header : signature ≡ (b't' ∷ b'=' ∷ timestamp) ++ b',' ∷ b'v' ∷ b'1' ∷ b'=' ∷ digest
  pub digits : is_timestamp timestamp ≡ true
  pub few_digits : length timestamp ≤ max_digits
  pub hexadecimal : is_digest digest ≡ true
  pub not_early : decimal 0 timestamp ≤ now + 300
  pub not_late : now ≤ decimal 0 timestamp + 300
  pub signed : hmac secret (timestamp ++ b'.' ∷ body) ≡ digest

abbrev no_comma : Bytes → Bool
no_comma s = all_chars (λ c. not (c == b',')) s

digits-no_comma : (s : Bytes) → all_chars is_digit s ≡ true → no_comma s ≡ true
unfolding all_chars
digits-no_comma [] h = refl
digits-no_comma (c ∷ s) h = ground (arith, digits-no_comma s)

hex-no_comma : (s : Bytes) → all_chars is_hex s ≡ true → no_comma s ≡ true
unfolding all_chars
hex-no_comma [] h = refl
hex-no_comma (c ∷ s) h = ground (arith, hex-no_comma s)

cut_at_comma-append : (a b : Bytes) → no_comma a ≡ true → cut_at_comma (a ++ b',' ∷ b) ≡ some (a, b)
unfolding cut_at_comma all_chars
cut_at_comma-append [] b h = refl
cut_at_comma-append (c ∷ a) b h = ground (arith, cut_at_comma-append a b)

cut_at_comma-none : (a : Bytes) → no_comma a ≡ true → cut_at_comma a ≡ none
unfolding cut_at_comma all_chars
cut_at_comma-none [] h = refl
cut_at_comma-none (c ∷ a) h = ground (arith, cut_at_comma-none a)

in_two :
    (s a b : Bytes)
    → cut_at_comma s ≡ some (a, b)
    → cut_at_comma b ≡ none
    → split_in_two s ≡ some (a, b)
unfolding split_in_two
in_two s a b h e = ground arith

split_in_two-join :
    (t d : Bytes)
    → is_timestamp t ≡ true
    → is_digest d ≡ true
    → split_in_two ((b't' ∷ b'=' ∷ t) ++ b',' ∷ b'v' ∷ b'1' ∷ b'=' ∷ d)
      ≡ some (b't' ∷ b'=' ∷ t, b'v' ∷ b'1' ∷ b'=' ∷ d)
unfolding is_timestamp is_digest all_chars
split_in_two-join t d h e =
    let first =
      cut_at_comma-append (b't' ∷ b'=' ∷ t) (b'v' ∷ b'1' ∷ b'=' ∷ d)
        (digits-no_comma t (ground arith)) in
    let second = cut_at_comma-none (b'v' ∷ b'1' ∷ b'=' ∷ d) (hex-no_comma d (ground arith)) in
    in_two _ _ _ first second

module _ (hmac : Bytes → Bytes → Bytes) (secret : Bytes) (now : ℕ) (body : Bytes) where
  parts-IsSigned :
      (t d : Bytes)
      → 1 ≤ length secret
      → verify_parts hmac secret now body t d ≡ none
      → IsSigned hmac secret now body ((b't' ∷ b'=' ∷ t) ++ b',' ∷ b'v' ∷ b'1' ∷ b'=' ∷ d)
  unfolding verify_parts is_outside
  parts-IsSigned t d h e = record {
    timestamp = t;
    digest = d;
    has_secret = h;
    header = refl;
    digits = ground arith;
    few_digits = ground arith;
    hexadecimal = ground arith;
    not_early = ground arith;
    not_late = ground arith;
    signed = ground (arith, same_bytes_eq (hmac secret (t ++ b'.' ∷ body)) d);
  }

  split-IsSigned :
      (a b : Bytes)
      → 1 ≤ length secret
      → verify_split hmac secret now body (a, b) ≡ none
      → IsSigned hmac secret now body (a ++ b',' ∷ b)
  unfolding verify_split
  split-IsSigned a b h e = elim (Option-cases (strip_prefix (b't' ∷ b'=' ∷ []) a)) [
    | inl ea ↦ ground arith
    | inr (t, ea) ↦ elim (Option-cases (strip_prefix (b'v' ∷ b'1' ∷ b'=' ∷ []) b)) [
      | inl eb ↦ ground arith
      | inr (d, eb) ↦
          rw
            (
              strip_prefix-eq-some (b't' ∷ b'=' ∷ []) a t ea,
              strip_prefix-eq-some (b'v' ∷ b'1' ∷ b'=' ∷ []) b d eb,
            )
            (parts-IsSigned t d h (ground arith))
    ]
  ]

  accepted-IsSigned :
      (signature : Bytes)
      → verify_webhook_signature hmac secret now body signature ≡ none
      → IsSigned hmac secret now body signature
  unfolding verify_webhook_signature
  accepted-IsSigned signature e = elim (Option-cases (split_in_two signature)) [
    | inl h ↦ ground arith
    | inr ((a, b), h) ↦
        rw (split_in_two-eq-some signature a b h) (split-IsSigned a b (ground arith) (ground arith))
  ]

  signed-parts :
      {signature : Bytes} (h : IsSigned hmac secret now body signature)
      → verify_parts hmac secret now body h.timestamp h.digest ≡ none
  unfolding verify_parts is_outside
  signed-parts h = ground (
    arith,
    h.digits,
    h.few_digits,
    h.hexadecimal,
    h.not_early,
    h.not_late,
    h.signed,
    same_bytes_refl h.digest,
  )

  split-parts :
      (t d : Bytes)
      → verify_split hmac secret now body (b't' ∷ b'=' ∷ t, b'v' ∷ b'1' ∷ b'=' ∷ d)
        ≡ verify_parts hmac secret now body t d
  unfolding verify_split strip_prefix
  split-parts t d = refl

  whole-split :
      (signature : Bytes) (parts : Bytes × Bytes)
      → 1 ≤ length secret
      → split_in_two signature ≡ some parts
      → verify_webhook_signature hmac secret now body signature
        ≡ verify_split hmac secret now body parts
  unfolding verify_webhook_signature
  whole-split signature parts h e = ground arith

  signed-accepted :
      (signature : Bytes)
      → IsSigned hmac secret now body signature
      → verify_webhook_signature hmac secret now body signature ≡ none
  signed-accepted signature h =
      whole-split signature _ h.has_secret
        (rw (h.header) (split_in_two-join h.timestamp h.digest h.digits h.hexadecimal))
      ∙ split-parts h.timestamp h.digest
      ∙ signed-parts h

  -- A webhook's header is accepted exactly when it is `t=`, a time of up to 4300 digits within 300
  -- seconds of the clock, `,v1=` and the 64 hexadecimal digits that sign the time and the body
  -- under a secret that is not empty.
  pub verify-accepts :
      (signature : Bytes)
      → (verify_webhook_signature hmac secret now body signature ≡ none)
        ↔ IsSigned hmac secret now body signature
  verify-accepts signature = (accepted-IsSigned signature, signed-accepted signature)
