-- ===== src/Base/Int.antt =====
-- Go's signed integers where the program tests or divides them.
use Prim.Native.Nat.{ℕ, zero, suc, ◌+◌, ◌-◌, ◌^◌, ◌/◌, ◌%◌}
use mathlib.Core.Bool.{Bool, true, false}
use rmm.Base.Tests.{ltb, ◌==◌, if◌then◌else◌}

-- `negsuc n` is -(n + 1).
pub data ℤ : Type 0 where
  pos : ℕ → ℤ
  negsuc : ℕ → ℤ

-- `n < bound`, for a bound that is a natural number.
abbrev pub lt_ℕ : ℤ → ℕ → Bool
lt_ℕ (pos n) bound = ltb n bound
lt_ℕ (negsuc n) bound = true

-- `n > bound`.
abbrev pub above : ℤ → ℕ → Bool
above (pos n) bound = ltb bound n
above (negsuc n) bound = false

-- -n.
abbrev pub minus : ℕ → ℤ
minus zero = pos zero
minus (suc n) = negsuc n

-- Division by a positive number goes toward zero.
abbrev pub quotient : ℤ → ℕ → ℤ
quotient (pos n) d = pos (n / d)
quotient (negsuc n) d = minus (suc n / d)

-- x + 1 on 64 bits.
abbrev pub next_int : ℤ → ℤ
next_int (pos n) = if suc n == 2 ^ 63 then negsuc (2 ^ 63 - 1) else pos (suc n)
next_int (negsuc zero) = pos zero
next_int (negsuc (suc n)) = negsuc n

abbrev pub eq_ℕ : ℤ → ℕ → Bool
eq_ℕ (pos n) m = n == m
eq_ℕ (negsuc n) m = false

-- A 64-bit integer by its bits.
abbrev pub from_bits : ℕ → ℤ
from_bits n = if ltb n (2 ^ 63) then pos n else negsuc (2 ^ 64 - 1 - n)

abbrev pub bits : ℤ → ℕ
bits (pos n) = n % 2 ^ 64
bits (negsuc n) = 2 ^ 64 - 1 - n % 2 ^ 64

-- a - b on 64 bits.
unfoldable pub sub_int : ℤ → ℤ → ℤ
sub_int a b = from_bits ((bits a + 2 ^ 64 - bits b) % 2 ^ 64)
