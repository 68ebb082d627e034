-- ===== src/Go/Strconv/Laws.antt =====
-- Numbers read back as they were written.
use rmm.Base.{
  ℕ, zero, suc, ◌+◌, ◌-◌, ◌*◌, ◌/◌, ◌%◌, ◌<◌, ◌≤◌, [], ◌∷◌, Bytes, ◌≡◌, refl, ap, ◌∙◌, ◌⊎◌, true,
  false, some, arith, inl, inr,
}
use rmm.Base.Int.{pos}
use rmm.Go.Strings.Laws.{Without}
use rmm.Go.Strconv.{
  digits, format_uint, is_digit, max_uint, parse_digits, parse_uint, signed, parse_int, atoi,
  sign_bit,
}

lt_cases : (a b : ℕ) → (a < b) ⊎ (b ≤ a)
lt_cases a b = omega arith

parse_digits_step :
    (n c : ℕ) (s : Bytes)
    → is_digit c ≡ true
    → 10 * n + (c - b'0') ≤ max_uint
    → parse_digits n (c ∷ s) ≡ parse_digits (10 * n + (c - b'0')) s
unfolding parse_digits
parse_digits_step n c s h b = ground (arith, h)

digits_small : (fuel n : ℕ) (rest : Bytes) → n < 10 → digits (suc fuel) n rest ≡ (b'0' + n) ∷ rest
unfolding digits
digits_small fuel n rest h = ground arith

digits_large :
    (fuel n : ℕ) (rest : Bytes)
    → 10 ≤ n
    → digits (suc fuel) n rest ≡ digits fuel (n / 10) ((b'0' + n % 10) ∷ rest)
unfolding digits
digits_large fuel n rest h = ground arith

is_digit_lem : (n : ℕ) → n < 10 → is_digit (b'0' + n) ≡ true
is_digit_lem n h = ground arith

-- What is read behind the digits of a number starts from the number.
parse_digits-digits :
    (fuel n : ℕ) (rest : Bytes)
    → n < fuel
    → n ≤ max_uint
    → parse_digits 0 (digits fuel n rest) ≡ parse_digits n rest
parse_digits-digits zero n rest h b = absurd (omega arith)
parse_digits-digits (suc fuel) n rest h b = elim (lt_cases n 10) [
  | inl small ↦
      let e : 10 * 0 + (b'0' + n - b'0') ≡ n = omega arith in
      rw (digits_small fuel n rest small) (
        parse_digits_step 0 (b'0' + n) rest (is_digit_lem n small) (omega arith)
        ∙ ap (λ (m : ℕ). parse_digits m rest) e)
  | inr large ↦
      let d = n % 10 in
      let e : 10 * (n / 10) + (b'0' + d - b'0') ≡ n = omega arith in
      rw (digits_large fuel n rest large) (
        parse_digits-digits fuel (n / 10) ((b'0' + d) ∷ rest) (omega arith) (omega arith)
        ∙ (parse_digits_step (n / 10) (b'0' + d) rest (is_digit_lem d (omega arith)) (omega arith)
            ∙ ap (λ (m : ℕ). parse_digits m rest) e))
]

abbrev pub Digits : Bytes → Type 0
Digits [] = Unit
Digits (c ∷ s) = (is_digit c ≡ true) × Digits s

-- Digits, and at least one of them.
abbrev pub IsNumeral : Bytes → Type 0
IsNumeral [] = ⊥
IsNumeral (c ∷ s) = Digits (c ∷ s)

digits-IsNumeral :
    (fuel n : ℕ) (rest : Bytes) → n < fuel → Digits rest → IsNumeral (digits fuel n rest)
digits-IsNumeral zero n rest h w = absurd (omega arith)
digits-IsNumeral (suc fuel) n rest h w = elim (lt_cases n 10) [
  | inl small ↦ rw (digits_small fuel n rest small) (is_digit_lem n small, w)
  | inr large ↦ rw (digits_large fuel n rest large) (
      digits-IsNumeral fuel (n / 10) ((b'0' + n % 10) ∷ rest) (omega arith)
        (is_digit_lem (n % 10) (omega arith), w))
]

pub format_uint-IsNumeral : (n : ℕ) → IsNumeral (format_uint n)
unfolding format_uint
format_uint-IsNumeral n = digits-IsNumeral (suc n) n [] (omega arith) tt

parse_uint_lem : (s : Bytes) → IsNumeral s → parse_uint s ≡ parse_digits 0 s
unfolding parse_uint
parse_uint_lem [] w = absurd w
parse_uint_lem (c ∷ s) w = refl

pub parse_uint-format_uint :
    (n : ℕ)
    → n ≤ max_uint
    → parse_uint (format_uint n) ≡ record { value = n; is_ok = true; is_range = false }
unfolding parse_digits
parse_uint-format_uint n h =
    parse_uint_lem (format_uint n) (format_uint-IsNumeral n)
    ∙ (unfold format_uint in parse_digits-digits (suc n) n [] (omega arith) h)

parse_int_lem : (s : Bytes) → IsNumeral s → parse_int s ≡ signed false (parse_uint s)
unfolding parse_int
parse_int_lem [] w = absurd w
parse_int_lem (c ∷ s) (e, w) = ground (arith, e)

pub atoi-format_uint : (n : ℕ) → n < sign_bit → atoi (format_uint n) ≡ some (pos n)
unfolding atoi signed
atoi-format_uint n h =
    rw
      (
        parse_int_lem (format_uint n) (format_uint-IsNumeral n),
        parse_uint-format_uint n (omega arith),
      )
      (ground arith)

-- A byte that is no digit is not in a number.
Digits-Without : (d : ℕ) (s : Bytes) → is_digit d ≡ false → Digits s → Without d s
Digits-Without d [] h w = tt
Digits-Without d (c ∷ s) h (e, w) = (ground (arith, e, h), Digits-Without d s h w)

pub format_uint-Without : (d n : ℕ) → is_digit d ≡ false → Without d (format_uint n)
format_uint-Without d n h = all (format_uint n) (format_uint-IsNumeral n)
  where
    all : (s : Bytes) → IsNumeral s → Without d s
    all [] w = absurd w
    all (c ∷ s) w = Digits-Without d (c ∷ s) h w
