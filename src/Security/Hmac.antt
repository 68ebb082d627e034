-- ===== src/Security/Hmac.antt =====
-- internal/security/hmac.go. `sha512.Sum512` is a parameter, with its documented size.
use rmm.Base.{
  ℕ, ◌-◌, ◌<◌, ◌≡◌, refl, ◌↔◌, [], ◌∷◌, ◌++◌, Bytes, All, IsByte, ltb, ◌==◌, if◌then◌else◌, length,
  Bool, true, false, not, arith, map, take, replicate, bit_xor, bit_or,
}
use rmm.Base.Bits.{xor-lt, eq_of_xor, xor_self, or_facts}

-- A cryptographic hash of the standard library: all that is used of it is its output's shape.
pub record Hash : Type 0 where
  pub sum : Bytes → Bytes
  pub size : ℕ
  pub sum-IsByte : (s : Bytes) → All IsByte (sum s)
  pub length-sum : (s : Bytes) → length (sum s) ≡ size

abbrev block_size : ℕ
block_size = 128

-- `copy(padded, key)` into a block of zeros.
pad : Bytes → Bytes
pad key = take block_size key ++ replicate (block_size - length key) 0

unfoldable pub hmac_sha512 : Hash → Bytes → Bytes → Bytes
unfolding pad
hmac_sha512 sha512 key message =
    let block_key = if ltb block_size (length key) then sha512.sum key else key in
    let padded = pad block_key in
    let ipad = map (λ b. bit_xor b 0x36) padded in
    let opad = map (λ b. bit_xor b 0x5c) padded in
    let inner_hash = sha512.sum (ipad ++ message) in sha512.sum (opad ++ inner_hash)

-- `diff |= a[i] ^ b[i]` over two slices of one length.
diff_from : ℕ → Bytes → Bytes → ℕ
diff_from diff [] b = diff
diff_from diff (x ∷ a) [] = diff
diff_from diff (x ∷ a) (y ∷ b) = diff_from (bit_or diff (bit_xor x y)) a b

unfoldable pub hmac_equal : Bytes → Bytes → Bool
unfolding diff_from
hmac_equal a b = if not (length a == length b) then false else diff_from 0 a b == 0

diff_from_sound :
    (diff : ℕ) (a b : Bytes)
    → diff < 256
    → All IsByte a
    → All IsByte b
    → length a ≡ length b
    → diff_from diff a b ≡ 0
    → (diff ≡ 0) × (a ≡ b)
unfolding diff_from
diff_from_sound diff [] [] hd ha hb len e = (e, refl)
diff_from_sound diff [] (y ∷ b) hd ha hb len e = absurd (omega arith)
diff_from_sound diff (x ∷ a) [] hd ha hb len e = absurd (omega arith)
diff_from_sound diff (x ∷ a) (y ∷ b) hd (hx, ha) (hy, hb) len e =
    let step = or_facts diff (bit_xor x y) hd (xor-lt x y hx hy) in
    let (zero_here, same) =
      diff_from_sound (bit_or diff (bit_xor x y)) a b step.0 ha hb (omega arith) e in
    let (diff_zero, xor_zero) = step.1 zero_here in
    (diff_zero, cc (eq_of_xor x y hx hy xor_zero, same))

diff_from_self : (a : Bytes) → All IsByte a → diff_from 0 a a ≡ 0
unfolding diff_from
diff_from_self [] h = refl
diff_from_self (x ∷ a) (hx, h) = rw (xor_self x hx) (diff_from_self a h)

-- The constant-time comparison of two byte slices decides their equality.
pub hmac_equal_iff : (a b : Bytes) → All IsByte a → All IsByte b → (hmac_equal a b ≡ true) ↔ (a ≡ b)
unfolding hmac_equal
hmac_equal_iff a b ha hb = (to, from)
  where
    to : hmac_equal a b ≡ true → a ≡ b
    to e = (diff_from_sound 0 a b (omega arith) ha hb (ground arith) (ground arith)).1

    from : a ≡ b → hmac_equal a b ≡ true
    from e = rw (← e) (ground (arith, diff_from_self a ha))

-- A MAC is the output of the outer hash.
pub hmac_sha512-shape :
    (sha512 : Hash) (key message : Bytes)
    → All IsByte (hmac_sha512 sha512 key message)
      × (length (hmac_sha512 sha512 key message) ≡ sha512.size)
unfolding hmac_sha512
hmac_sha512-shape sha512 key message = (sha512.sum-IsByte _, sha512.length-sum _)
