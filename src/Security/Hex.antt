-- ===== src/Security/Hex.antt =====
-- `hex.EncodeToString` and `hex.DecodeString` of encoding/hex, as the credentials, tokens and keys
-- use them.
use rmm.Base.{
  ℕ, ◌+◌, ◌-◌, ◌*◌, ◌/◌, ◌%◌, ◌<◌, ◌≡◌, refl, ◌≢◌, [], ◌∷◌, Bytes, All, IsByte, ltb, leb,
  if◌then◌else◌, length, ◌&&◌, Option, none, some, arith,
}
use mathlib.Core.Option.{some-injective}

hex_digit : ℕ → ℕ
hex_digit n = if ltb n 10 then b'0' + n else b'a' + n - 10

unfoldable pub encode : Bytes → Bytes
unfolding hex_digit
encode [] = []
encode (b ∷ bs) = hex_digit (b / 16) ∷ hex_digit (b % 16) ∷ encode bs

-- Digits of either case are accepted.
from_hex_char : ℕ → Option ℕ
from_hex_char c =
    if leb b'0' c && leb c b'9'
    then some (c - b'0')
    else if leb b'a' c && leb c b'f'
    then some (c - b'a' + 10)
    else if leb b'A' c && leb c b'F'
    then some (c - b'A' + 10)
    else none

-- `none` is an error: a byte that is no digit, or an odd length.
decode_pair : Option ℕ → Option ℕ → Option Bytes → Option Bytes
decode_pair (some a) (some b) (some bs) = some ((a * 16 + b) ∷ bs)
decode_pair _ _ _ = none

unfoldable pub decode : Bytes → Option Bytes
unfolding from_hex_char decode_pair
decode [] = some []
decode (a ∷ []) = none
decode (a ∷ (b ∷ bs)) = decode_pair (from_hex_char a) (from_hex_char b) (decode bs)

digit_facts :
    (n : ℕ)
    → n < 16
    → (from_hex_char (hex_digit n) ≡ some n) × (hex_digit n ≢ b'.') × IsByte (hex_digit n)
unfolding hex_digit from_hex_char
digit_facts n h = (ground arith, ground arith, ground arith)

-- Decoding undoes encoding.
pub decode-encode : (s : Bytes) → All IsByte s → decode (encode s) ≡ some s
unfolding decode encode
decode-encode [] h = refl
decode-encode (b ∷ s) (hb, h) =
    rw
      (
        (digit_facts (b / 16) (omega arith)).0,
        (digit_facts (b % 16) (omega arith)).0,
        decode-encode s h,
      )
      (ground arith)

-- An encoding has only hexadecimal digits, so no dot.
pub encode-no_dot : (s : Bytes) → All IsByte s → All (λ c. c ≢ b'.') (encode s)
unfolding encode
encode-no_dot [] h = tt
encode-no_dot (b ∷ s) (hb, h) = (
  (digit_facts (b / 16) (omega arith)).1,
  ((digit_facts (b % 16) (omega arith)).1, encode-no_dot s h),
)

pub encode-IsByte : (s : Bytes) → All IsByte s → All IsByte (encode s)
unfolding encode
encode-IsByte [] h = tt
encode-IsByte (b ∷ s) (hb, h) = (
  (digit_facts (b / 16) (omega arith)).2,
  ((digit_facts (b % 16) (omega arith)).2, encode-IsByte s h),
)

pub length-encode : (s : Bytes) → length (encode s) ≡ 2 * length s
unfolding encode
length-encode [] = refl
length-encode (b ∷ s) = omega (arith, length-encode s)

from_hex_char_facts : (c n : ℕ) → from_hex_char c ≡ some n → (n < 16) × (c ≢ b'.')
unfolding from_hex_char
from_hex_char_facts c n e = (ground arith, ground arith)

decode_pair-some :
    (x y : Option ℕ) (r : Option Bytes) (s : Bytes)
    → decode_pair x y r ≡ some s
    → (a : ℕ) × (b : ℕ) × (bs : Bytes) × (x ≡ some a)
      × (y ≡ some b)
      × (r ≡ some bs)
      × ((a * 16 + b) ∷ bs ≡ s)
unfolding decode_pair
decode_pair-some (some a) (some b) (some bs) s e =
    (a, b, bs, refl, refl, refl, some-injective _ _ e)
decode_pair-some none y r s e = absurd (cc)
decode_pair-some (some a) none r s e = absurd (cc)
decode_pair-some (some a) (some b) none s e = absurd (cc)

-- What decodes has no dot, and decodes to bytes.
pub decode_facts : (t s : Bytes) → decode t ≡ some s → All IsByte s × All (λ c. c ≢ b'.') t
unfolding decode
decode_facts [] s e = (rw (← some-injective _ _ e) tt, tt)
decode_facts (x ∷ []) s e = absurd (cc)
decode_facts (x ∷ (y ∷ t)) s e =
    let (a, b, bs, ex, ey, er, es) =
      decode_pair-some (from_hex_char x) (from_hex_char y) (decode t) s e in
    let (ha, nx) = from_hex_char_facts x a ex in
    let (hb, ny) = from_hex_char_facts y b ey in
    let (hs, nt) = decode_facts t bs er in (rw (← es) (omega arith, hs), (nx, (ny, nt)))
