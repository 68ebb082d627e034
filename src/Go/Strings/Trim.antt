-- ===== src/Go/Strings/Trim.antt =====
-- A text that is trimmed is a part of the text, and what it starts with is found in the text.
use rmm.Base.{ℕ, [], ◌∷◌, ◌++◌, Bytes, ◌≡◌, refl, sym, ap, ◌∙◌, true, ◌||◌, arith, if_rule}
use mathlib.Core.List.{reverse, reverse-append, reverse-reverse}
use rmm.Go.Strings.{is_space, trim_left, trim_space, has_prefix, contains, index}

contains-nil : (p : Bytes) → contains [] p ≡ has_prefix [] p
unfolding contains index
contains-nil p = ground arith

contains-cons : (c : ℕ) (s p : Bytes) → contains (c ∷ s) p ≡ (has_prefix (c ∷ s) p || contains s p)
unfolding contains index
contains-cons c s p = ground arith

pub contains-has_prefix : (s p : Bytes) → has_prefix s p ≡ true → contains s p ≡ true
contains-has_prefix [] p h = contains-nil p ∙ h
contains-has_prefix (c ∷ s) p h = ground (arith, contains-cons c s p, h)

has_prefix-append : (s t p : Bytes) → has_prefix s p ≡ true → has_prefix (s ++ t) p ≡ true
unfolding has_prefix
has_prefix-append s t [] h = refl
has_prefix-append [] t (b ∷ p) h = ground (arith, h)
has_prefix-append (c ∷ s) t (b ∷ p) h = ground (arith, h, has_prefix-append s t p)

contains_suffix : (s t p : Bytes) → contains t p ≡ true → contains (s ++ t) p ≡ true
contains_suffix [] t p h = h
contains_suffix (c ∷ s) t p h = ground (arith, contains-cons c (s ++ t) p, contains_suffix s t p h)

contains_part : (s t p : Bytes) → has_prefix s p ≡ true → contains (s ++ t) p ≡ true
contains_part s t p h = contains-has_prefix (s ++ t) p (has_prefix-append s t p h)

trim_left_part : (s : Bytes) → (a : Bytes) × (s ≡ a ++ trim_left s)
unfolding trim_left
trim_left_part [] = ([], refl)
trim_left_part (c ∷ s) =
    if_rule (λ r. (a : Bytes) × ((c ∷ s) ≡ a ++ r)) (is_space c) (trim_left s) (c ∷ s)
      (λ _. let (a, e) = trim_left_part s in (c ∷ a, ap (◌∷◌ c) e)) (λ _. ([], refl))

trim_space_part : (s : Bytes) → (a : Bytes) × (b : Bytes) × (s ≡ a ++ (trim_space s ++ b))
unfolding trim_space
trim_space_part s =
    let t = trim_left s in
    let (a, e) = trim_left_part s in
    let (b, f) = trim_left_part (reverse t) in
    let u = trim_left (reverse t) in
    let back : t ≡ reverse u ++ reverse b =
      sym (reverse-reverse t) ∙ (ap reverse f ∙ reverse-append b u) in
    (a, reverse b, e ∙ ap (λ r. a ++ r) back)

pub contains-trim_space : (s p : Bytes) → has_prefix (trim_space s) p ≡ true → contains s p ≡ true
contains-trim_space s p h =
    let (a, b, e) = trim_space_part s in
    ap (λ r. contains r p) e
    ∙ contains_suffix a (trim_space s ++ b) p (contains_part (trim_space s) b p h)
