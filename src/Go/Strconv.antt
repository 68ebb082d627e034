-- ===== src/Go/Strconv.antt =====
-- What the program uses of Go's package strconv, base 10 and 64 bits, and the verb %d.
pub mod Laws
use rmm.Base.{
  ℕ, zero, suc, ◌+◌, ◌-◌, ◌*◌, ◌/◌, ◌%◌, ◌^◌, List, [], ◌∷◌, Bytes, ltb, leb, ◌==◌, if◌then◌else◌,
  Bool, true, false, not, ◌&&◌, ◌||◌, Option, none, some,
}
use rmm.Base.Int.{ℤ, pos, negsuc, minus}

abbrev pub is_digit : ℕ → Bool
is_digit c = leb b'0' c && leb c b'9'

-- The digits in front of `rest`; a number has at most as many digits as its value plus one.
unfoldable pub digits : ℕ → ℕ → Bytes → Bytes
digits zero n rest = rest
digits (suc fuel) n rest = elim (ltb n 10) [
  | true ↦ (b'0' + n) ∷ rest
  | false ↦ digits fuel (n / 10) ((b'0' + n % 10) ∷ rest)
]

unfoldable pub format_uint : ℕ → Bytes
format_uint n = digits (suc n) n []

unfoldable pub format_int : ℤ → Bytes
format_int (pos n) = format_uint n
format_int (negsuc n) = b'-' ∷ format_uint (suc n)

-- The value beside the error: `is_ok` is a nil error.
pub record ParsedUint : Type 0 where
  pub value : ℕ
  pub is_ok : Bool
  -- The error is that of a value out of range.
  pub is_range : Bool

abbrev pub max_uint : ℕ
max_uint = 2 ^ 64 - 1

unfoldable pub parse_digits : ℕ → Bytes → ParsedUint
parse_digits n [] = record { value = n; is_ok = true; is_range = false }
parse_digits n (c ∷ s) =
    if is_digit c
    then (let next = 10 * n + (c - b'0') in
        elim (ltb max_uint next) [
          | true ↦ record { value = max_uint; is_ok = false; is_range = true }
          | false ↦ parse_digits next s
        ])
    else record { value = 0; is_ok = false; is_range = false }

unfoldable pub parse_uint : Bytes → ParsedUint
parse_uint [] = record { value = 0; is_ok = false; is_range = false }
parse_uint (c ∷ s) = parse_digits 0 (c ∷ s)

pub record ParsedInt : Type 0 where
  pub value : ℤ
  pub is_ok : Bool

abbrev pub sign_bit : ℕ
sign_bit = 2 ^ 63

-- The value of the digits behind the sign, as a 64-bit integer.
unfoldable pub signed : Bool → ParsedUint → ParsedInt
signed negative u =
    if not (u.is_ok || u.is_range)
    then record { value = pos 0; is_ok = false }
    else if negative
    then (if ltb sign_bit u.value
        then record { value = negsuc (sign_bit - 1); is_ok = false }
        else record { value = minus u.value; is_ok = true })
    else (if leb sign_bit u.value
        then record { value = pos (sign_bit - 1); is_ok = false }
        else record { value = pos u.value; is_ok = true })

-- `ParseInt`, and `Atoi`, which is the same on 64 bits.
unfoldable pub parse_int : Bytes → ParsedInt
unfolding parse_uint signed
parse_int [] = record { value = pos 0; is_ok = false }
parse_int (c ∷ s) =
    if c == b'+'
    then signed false (parse_uint s)
    else if c == b'-'
    then signed true (parse_uint s)
    else signed false (parse_uint (c ∷ s))

-- What the callers take of `Atoi`: its value when the error is nil.
unfoldable pub atoi : Bytes → Option ℤ
unfolding parse_int
atoi s = let r = parse_int s in if r.is_ok then some r.value else none
