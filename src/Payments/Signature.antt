-- ===== src/Payments/Signature.antt =====
-- payments/infrastructure/signature.py. `hmac` is the HMAC-SHA256 of a key and a message, in lower
-- case hexadecimal; texts and bytes are lists of code points and of byte values.
use chargeflow.Prelude.{
  ℕ, suc, ◌+◌, ◌-◌, ◌*◌, Bool, true, false, ◌&&◌, ◌||◌, not, Option, none, some, List, [], ◌∷◌,
  ◌++◌, ◌==◌, leb, ltb, if◌then◌else◌,
}

abbrev pub Bytes : Type 0
Bytes = List ℕ

pub data Refusal : Type 0 where
  not_configured invalid_signature outside_window : Refusal

abbrev pub length : Bytes → ℕ
length [] = 0
length (x ∷ xs) = suc (length xs)

abbrev pub same_bytes : Bytes → Bytes → Bool
same_bytes [] [] = true
same_bytes (x ∷ xs) (y ∷ ys) = x == y && same_bytes xs ys
same_bytes _ _ = false

-- `text.split(",")`, from the left: the parts before and after the first comma.
unfoldable pub cut_at_comma : Bytes → Option (Bytes × Bytes)
cut_at_comma [] = none
cut_at_comma (c ∷ cs) =
    let rest = cut_at_comma cs in
    if c == b',' then some ([], cs) else elim rest [ none ↦ none | some (a, b) ↦ some (c ∷ a, b) ]

-- The two parts of the split, where it has exactly two.
unfoldable pub split_in_two : Bytes → Option (Bytes × Bytes)
unfolding cut_at_comma
split_in_two s = elim (cut_at_comma s) [
  | none ↦ none
  | some (a, b) ↦ elim (cut_at_comma b) [ none ↦ some (a, b) | some _ ↦ none ]
]

-- `part.startswith(prefix)` and `part[len(prefix):]`
unfoldable pub strip_prefix : Bytes → Bytes → Option Bytes
strip_prefix [] s = some s
strip_prefix (p ∷ ps) [] = none
strip_prefix (p ∷ ps) (c ∷ cs) = let rest = strip_prefix ps cs in if p == c then rest else none

abbrev pub is_digit : ℕ → Bool
is_digit c = leb b'0' c && leb c b'9'

abbrev pub is_hex : ℕ → Bool
is_hex c = is_digit c || (leb b'a' c && leb c b'f') || (leb b'A' c && leb c b'F')

unfoldable pub all_chars : (ℕ → Bool) → Bytes → Bool
all_chars p [] = true
all_chars p (c ∷ cs) = p c && all_chars p cs

-- `int(timestamp_text)` of a text of digits.
unfoldable pub decimal : ℕ → Bytes → ℕ
decimal acc [] = acc
decimal acc (c ∷ cs) = decimal (acc * 10 + (c - b'0')) cs

-- `isdigit` fails on the empty text; `int` refuses more than 4300 digits with a ValueError.
unfoldable pub is_timestamp : Bytes → Bool
unfolding all_chars
is_timestamp t = not (length t == 0) && all_chars is_digit t

abbrev pub max_digits : ℕ
max_digits = 4300

unfoldable pub is_digest : Bytes → Bool
unfolding all_chars
is_digest d = length d == 64 && all_chars is_hex d

-- `abs(now - timestamp) > 300`
unfoldable pub is_outside : ℕ → ℕ → Bool
is_outside now t = ltb 300 ((now - t) + (t - now))

module _ (hmac : Bytes → Bytes → Bytes) where
  -- The checks behind the split of the header; `none` accepts.
  unfoldable pub verify_parts : Bytes → ℕ → Bytes → Bytes → Bytes → Option Refusal
  verify_parts secret now body t digest =
      if not (is_timestamp t) || not (is_digest digest)
      then some invalid_signature
      else if ltb max_digits (length t)
      then some invalid_signature
      else if is_outside now (decimal 0 t)
      then some outside_window
      else if same_bytes (hmac secret (t ++ b'.' ∷ body)) digest
      then none
      else some invalid_signature

  unfoldable pub verify_split : Bytes → ℕ → Bytes → Bytes × Bytes → Option Refusal
  verify_split secret now body (a, b) = elim (strip_prefix (b't' ∷ b'=' ∷ []) a) [
    | none ↦ some invalid_signature
    | some t ↦ elim (strip_prefix (b'v' ∷ b'1' ∷ b'=' ∷ []) b) [
      | none ↦ some invalid_signature
      | some digest ↦ verify_parts secret now body t digest
    ]
  ]

  -- `verify_webhook_signature`; `now` is `int(time.time())`.
  unfoldable pub verify_webhook_signature : Bytes → ℕ → Bytes → Bytes → Option Refusal
  verify_webhook_signature secret now body signature =
      if length secret == 0 then some not_configured else elim (split_in_two signature) [
        | none ↦ some invalid_signature
        | some parts ↦ verify_split secret now body parts
      ]
