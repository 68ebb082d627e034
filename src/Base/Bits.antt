-- ===== src/Base/Bits.antt =====
-- The bit operations on bytes, by evaluation over all bytes.
use Prim.Native.Nat.{
  min, digits, bit_and-bitwise, ◌≤◌, ℕ, zero, suc, ◌+◌, ◌*◌, ◌/◌, ◌%◌, ◌<◌, bit_and, bit_or,
  bit_xor,
}
use mathlib.Core.Bool.{not, Bool, true, ◌||◌, ◌&&◌}
use mathlib.Core.Path.{refl, ◌≡◌}
use native.Mathlib.Omega.{arith}
use rmm.Base.Tests.{◌==◌, ==_iff, ltb}

-- A test passes on every number of a range.
pub passes : (ℕ → Bool) → ℕ → Bool
passes test zero = true
passes test (suc top) = passes test top && test top

pub passes_lem :
    (test : ℕ → Bool) (range i : ℕ) → i < range → passes test range ≡ true → test i ≡ true
unfolding passes
passes_lem test zero i below all = absurd (omega arith)
passes_lem test (suc top) i below all = ground (arith, passes_lem test top i)

pub all_pairs_below : ℕ → (ℕ → ℕ → Bool) → Bool
unfolding passes
all_pairs_below n p = passes (λ a. passes (p a) n) n

pub all_pairs_below_sound :
    (n : ℕ) (p : ℕ → ℕ → Bool) (x y : ℕ) → all_pairs_below n p ≡ true → x < n → y < n → p x y ≡ true
unfolding all_pairs_below
all_pairs_below_sound n p x y h hx hy =
    passes_lem (p x) n y hy (passes_lem (λ a. passes (p a) n) n x hx h)

-- Masking twice restores the byte, a mask leaves a byte, and equal bytes alone cancel.
xor_test : ℕ → ℕ → Bool
xor_test a b =
    bit_xor (bit_xor a b) b == a && ltb (bit_xor a b) 256 && (not (bit_xor a b == 0) || a == b)

xor_table : all_pairs_below 256 xor_test ≡ true
unfolding all_pairs_below xor_test
xor_table = refl

xor_facts :
    (a b : ℕ)
    → a < 256
    → b < 256
    → (bit_xor (bit_xor a b) b ≡ a) × (bit_xor a b < 256) × (bit_xor a b ≡ 0 → a ≡ b)
unfolding xor_test
xor_facts a b ha hb =
    let t = all_pairs_below_sound 256 xor_test a b xor_table ha hb in
    (ground arith, ground arith, λ e. ground arith)

pub xor-xor : (a b : ℕ) → a < 256 → b < 256 → bit_xor (bit_xor a b) b ≡ a
xor-xor a b ha hb = (xor_facts a b ha hb).0

pub xor-lt : (a b : ℕ) → a < 256 → b < 256 → bit_xor a b < 256
xor-lt a b ha hb = (xor_facts a b ha hb).1

pub eq_of_xor : (a b : ℕ) → a < 256 → b < 256 → bit_xor a b ≡ 0 → a ≡ b
eq_of_xor a b ha hb = (xor_facts a b ha hb).2

self_test : ℕ → Bool
self_test a = bit_xor a a == 0

pub xor_self : (a : ℕ) → a < 256 → bit_xor a a ≡ 0
xor_self a ha =
    (==_iff _ 0).0 (unfold self_test in passes_lem self_test 256 a ha (unfold passes in refl))

or_test : ℕ → ℕ → Bool
or_test a b = ltb (bit_or a b) 256 && (not (bit_or a b == 0) || (a == 0 && b == 0))

or_table : all_pairs_below 256 or_test ≡ true
unfolding all_pairs_below or_test
or_table = refl

-- An accumulated `|` is a byte, and is 0 only if both parts are.
pub or_facts :
    (a b : ℕ) → a < 256 → b < 256 → (bit_or a b < 256) × (bit_or a b ≡ 0 → (a ≡ 0) × (b ≡ 0))
unfolding or_test
or_facts a b ha hb =
    let t = all_pairs_below_sound 256 or_test a b or_table ha hb in
    (ground arith, λ e. ground arith)

-- The masks of a WebSocket frame's two header bytes.
header_test : ℕ → Bool
header_test h =
    bit_and h 0x0F == h % 16 && bit_and h 0x80 == h / 128 * 128 && bit_and h 0x7F == h % 128

pub header_masks :
    (h : ℕ)
    → h < 256
    → (bit_and h 0x0F ≡ h % 16) × (bit_and h 0x80 ≡ h / 128 * 128) × (bit_and h 0x7F ≡ h % 128)
unfolding header_test
header_masks h lt =
    let t = passes_lem header_test 256 h lt (unfold passes in refl) in
    (ground arith, ground arith, ground arith)

top_test : ℕ → Bool
top_test b = bit_or b 0x80 == b + 128 && bit_or 0x80 b == b + 128

pub set_top_bit : (b : ℕ) → b < 128 → (bit_or b 0x80 ≡ b + 128) × (bit_or 0x80 b ≡ b + 128)
unfolding top_test
set_top_bit b lt =
    let t = passes_lem top_test 128 b lt (unfold passes in refl) in (ground arith, ground arith)

-- `i & 3` is `i % 4` at every width, by the digit recursion that the operation stands for.
abbrev and_digits : ℕ → ℕ → ℕ → ℕ
and_digits = digits (λ b. zero) min

and_digits-zero : (n a : ℕ) → a ≤ n → and_digits n a 0 ≡ 0
and_digits-zero zero zero h = refl
and_digits-zero (suc n) zero h = refl
and_digits-zero zero (suc a) h = absurd (omega arith)
and_digits-zero (suc n) (suc a) h = omega (arith, and_digits-zero n (suc a / 2) (omega arith))

and_digits-one : (n a : ℕ) → a ≤ n → and_digits n a 1 ≡ a % 2
and_digits-one zero zero h = refl
and_digits-one (suc n) zero h = refl
and_digits-one zero (suc a) h = absurd (omega arith)
and_digits-one (suc n) (suc a) h = omega (arith, and_digits-zero n (suc a / 2) (omega arith))

and_digits_three : (n a : ℕ) → a ≤ n → and_digits n a 3 ≡ a % 4
and_digits_three zero zero h = refl
and_digits_three (suc n) zero h = refl
and_digits_three zero (suc a) h = absurd (omega arith)
and_digits_three (suc n) (suc a) h = omega (arith, and_digits-one n (suc a / 2) (omega arith))

pub bit_and_three : (a : ℕ) → bit_and a 3 ≡ a % 4
bit_and_three a = omega (arith, bit_and-bitwise a 3, and_digits_three a a (omega arith))
