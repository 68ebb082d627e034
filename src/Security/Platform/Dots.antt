-- ===== src/Security/Platform/Dots.antt =====
-- The search for the last dot.
use rmm.Base.{
  ℕ, zero, suc, ◌+◌, ◌≤◌, ◌<◌, ◌≡◌, refl, ap, ◌≢◌, [], ◌∷◌, ◌++◌, Bytes, All, length, take, drop,
  get_or, some, arith,
}
use native.Mathlib.Numerals.{add-one}
use rmm.Security.Platform.{last_dot_from}

get_or-append_right :
    (xs ys : Bytes) (j i d : ℕ) → j ≡ length xs + i → get_or (xs ++ ys) j d ≡ get_or ys i d
get_or-append_right [] ys j i d e = let same : j ≡ i = omega arith in ap (λ k. get_or ys k d) same
get_or-append_right (x ∷ xs) ys zero i d e = absurd (omega arith)
get_or-append_right (x ∷ xs) ys (suc j) i d e = get_or-append_right xs ys j i d (omega arith)

-- What stands in front of a place, at it and behind it.
split_at_suc : (i : ℕ) (s : Bytes) → i < length s → s ≡ take i s ++ (get_or s i 0 ∷ drop (suc i) s)
split_at_suc i [] h = absurd (omega arith)
split_at_suc zero (x ∷ s) h = refl
split_at_suc (suc i) (x ∷ s) h = ap (◌∷◌ x) (split_at_suc i s (omega arith))

pub split_at : (i : ℕ) (s : Bytes) → i < length s → s ≡ take i s ++ (get_or s i 0 ∷ drop (i + 1) s)
split_at i s h = rw add-one (split_at_suc i s h)

pub last_dot_from_range :
    (n i : ℕ) (s : Bytes) → last_dot_from n s ≡ some i → (3 ≤ i) × (i < n) × (get_or s i 0 ≡ b'.')
unfolding last_dot_from
last_dot_from_range zero i s e = absurd (cc)
last_dot_from_range (suc n) i s e = ground (arith, last_dot_from_range n i s)

get_or-All : (s : Bytes) (i : ℕ) → All (λ c. c ≢ b'.') s → i < length s → get_or s i 0 ≢ b'.'
get_or-All [] i h lt = absurd (omega arith)
get_or-All (c ∷ s) zero (hc, h) lt = hc
get_or-All (c ∷ s) (suc i) (hc, h) lt = get_or-All s i h (omega arith)

-- The places behind the dot hold other bytes, so the search comes to it.
pub last_dot_from_skip :
    (n k : ℕ) (front back : Bytes)
    → 3 ≤ length front
    → All (λ c. c ≢ b'.') back
    → k ≤ length back
    → n ≡ length front + 1 + k
    → last_dot_from n (front ++ (b'.' ∷ back)) ≡ some (length front)
unfolding last_dot_from
last_dot_from_skip zero k front back h hb hk e = absurd (omega arith)
last_dot_from_skip (suc n) zero front back h hb hk e =
    ground (arith, get_or-append_right front (b'.' ∷ back) n 0 0)
last_dot_from_skip (suc n) (suc k) front back h hb hk e = ground (
  arith,
  get_or-append_right front (b'.' ∷ back) n (suc k) 0,
  get_or-All back k hb,
  last_dot_from_skip n k front back h hb,
)
