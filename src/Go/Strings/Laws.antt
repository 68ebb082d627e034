-- ===== src/Go/Strings/Laws.antt =====
-- What splitting at a separator gives.
use rmm.Base.{
  ℕ, List, [], ◌∷◌, ◌++◌, Bytes, ◌==◌, ◌≡◌, refl, ap, ◌∙◌, false, arith, Bool-cases, inl, inr, ◌≢◌,
  if_rule,
}
use rmm.Go.Strings.{split, onto_first}

pub data Has {ℓ} {A : Type ℓ} (a : A) : List A → Type ℓ where
  here : (rest : List A) → Has a (a ∷ rest)
  there : (b : A) (rest : List A) → Has a rest → Has a (b ∷ rest)

pub Has-append {ℓ} : {A : Type ℓ} (a : A) (xs ys : List A) → Has a ys → Has a (xs ++ ys)
Has-append a [] ys h = h
Has-append a (x ∷ xs) ys h = there x (xs ++ ys) (Has-append a xs ys h)

-- No byte of the text is `d`.
abbrev pub Without : ℕ → Bytes → Type 0
Without d [] = Unit
Without d (c ∷ s) = ((c == d) ≡ false) × Without d s

onto_first-append :
    (c : ℕ) (xs ys : List Bytes) → xs ≢ [] → onto_first c (xs ++ ys) ≡ onto_first c xs ++ ys
unfolding onto_first
onto_first-append c [] ys h = absurd (h refl)
onto_first-append c (x ∷ xs) ys h = refl

onto_first-ne-nil : (c : ℕ) (xs : List Bytes) → onto_first c xs ≢ []
unfolding onto_first
onto_first-ne-nil c [] = ground arith
onto_first-ne-nil c (x ∷ xs) = ground arith

split-ne-nil : (d : ℕ) (s : Bytes) → split d s ≢ []
unfolding split
split-ne-nil d [] = ground arith
split-ne-nil d (c ∷ s) =
    if_rule (λ r. r ≢ []) (c == d) _ _ (λ _. ground arith) (λ _. onto_first-ne-nil c (split d s))

pub split-append : (d : ℕ) (s rest : Bytes) → split d (s ++ (d ∷ rest)) ≡ split d s ++ split d rest
unfolding split
split-append d [] rest = ground arith
split-append d (c ∷ s) rest = elim (Bool-cases (c == d)) [
  | inl e ↦ rw e (ap (λ (r : List Bytes). [] ∷ r) (split-append d s rest))
  | inr e ↦
      rw e (ap (onto_first c) (split-append d s rest) ∙ onto_first-append c _ _ (split-ne-nil d s))
]

pub split-Without : (d : ℕ) (s : Bytes) → Without d s → split d s ≡ s ∷ []
unfolding split onto_first
split-Without d [] w = refl
split-Without d (c ∷ s) (e, w) = rw e (ap (onto_first c) (split-Without d s w))

-- A text between two separators is a part.
pub split-Has :
    (d : ℕ) (s line rest : Bytes)
    → Without d line
    → Has line (split d (s ++ (d ∷ (line ++ (d ∷ rest)))))
split-Has d s line rest w =
    rw (split-append, split-append, split-Without d line w)
      (Has-append line (split d s) (line ∷ split d rest) (here (split d rest)))
