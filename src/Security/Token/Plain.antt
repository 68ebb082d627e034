-- ===== src/Security/Token/Plain.antt =====
-- internal/security/token.go: codes without their dashes, in any case, and between white space.
use rmm.Base.{
  ℕ, zero, suc, ◌%◌, ◌<◌, ◌≡◌, refl, ap, sym, ◌∙◌, ◌≢◌, List, [], ◌∷◌, ◌++◌, Bytes, length, get_or,
  map, true, arith, All, All-append, append-nil,
}
use mathlib.Core.List.{reverse, reverse-cons, reverse-append, reverse-reverse}
use rmm.Go.Strings.{is_space, trim_left, trim_space}
use rmm.Security.Token.{
  token_alphabet, code_of, parts_of, join_dashes, format_code, remove_dashes, to_upper,
}

-- A character of a code: no dash, and no white space.
abbrev pub IsPlain : ℕ → Type 0
IsPlain c = (c ≢ b'-') × (32 < c)

get_or-All {κ} : (P : ℕ → Type κ) (s : Bytes) (i : ℕ) → All P s → i < length s → P (get_or s i 0)
get_or-All P [] i h lt = absurd (omega arith)
get_or-All P (c ∷ s) zero (hc, h) lt = hc
get_or-All P (c ∷ s) (suc i) (hc, h) lt = get_or-All P s i h (omega arith)

pub code_of-IsPlain : (bytes : Bytes) → All IsPlain (code_of bytes)
unfolding code_of
code_of-IsPlain [] = tt
code_of-IsPlain (b ∷ bytes) =
    (get_or-All IsPlain token_alphabet (b % 31) (omega arith) (omega arith), code_of-IsPlain bytes)

remove_dashes-append : (s t : Bytes) → remove_dashes (s ++ t) ≡ remove_dashes s ++ remove_dashes t
unfolding remove_dashes
remove_dashes-append [] t = refl
remove_dashes-append (c ∷ s) t = ground (arith, remove_dashes-append s t)

remove_dashes-IsPlain : (s : Bytes) → All IsPlain s → remove_dashes s ≡ s
unfolding remove_dashes
remove_dashes-IsPlain [] h = refl
remove_dashes-IsPlain (c ∷ s) (hc, h) = ground (arith, remove_dashes-IsPlain s h)

remove_dashes-join :
    (p : Bytes) (parts : List Bytes)
    → remove_dashes (join_dashes (p ∷ parts)) ≡ remove_dashes p ++ remove_dashes (join_dashes parts)
unfolding join_dashes
remove_dashes-join p [] = unfold remove_dashes in sym (append-nil (remove_dashes p))
remove_dashes-join p (q ∷ parts) =
    remove_dashes-append p (b'-' ∷ join_dashes (q ∷ parts)) ∙ (unfold remove_dashes in refl)

-- Without its dashes the displayed code is the code.
pub remove_dashes-format_code :
    (code : Bytes) → All IsPlain code → remove_dashes (format_code code) ≡ code
unfolding format_code parts_of
remove_dashes-format_code [] h = unfold join_dashes remove_dashes in refl
remove_dashes-format_code (a ∷ []) h = unfold join_dashes in remove_dashes-IsPlain (a ∷ []) h
remove_dashes-format_code (a ∷ (b ∷ [])) h =
    unfold join_dashes in remove_dashes-IsPlain (a ∷ b ∷ []) h
remove_dashes-format_code (a ∷ (b ∷ (c ∷ []))) h =
    unfold join_dashes in remove_dashes-IsPlain (a ∷ b ∷ c ∷ []) h
remove_dashes-format_code (a ∷ (b ∷ (c ∷ (d ∷ code)))) (ha, (hb, (hc, (hd, h)))) =
    rw
      (
        remove_dashes-join (a ∷ b ∷ c ∷ d ∷ []) (parts_of code),
        remove_dashes-IsPlain (a ∷ b ∷ c ∷ d ∷ []) (ha, (hb, (hc, (hd, tt)))),
      )
      (ap (λ t. a ∷ b ∷ c ∷ d ∷ t) (remove_dashes-format_code code h))

-- A character that is not white space.
abbrev pub IsVisible : ℕ → Type 0
IsVisible c = 32 < c

join_dashes-IsVisible :
    (p : Bytes) (parts : List Bytes)
    → All IsVisible p
    → All IsVisible (join_dashes parts)
    → All IsVisible (join_dashes (p ∷ parts))
unfolding join_dashes
join_dashes-IsVisible p [] hp h = hp
join_dashes-IsVisible p (q ∷ parts) hp h = All-append IsVisible p _ hp (omega arith, h)

pub format_code-IsVisible : (code : Bytes) → All IsPlain code → All IsVisible (format_code code)
unfolding format_code parts_of
format_code-IsVisible [] h = unfold join_dashes in tt
format_code-IsVisible (a ∷ []) h = unfold join_dashes in omega arith
format_code-IsVisible (a ∷ (b ∷ [])) h = unfold join_dashes in omega arith
format_code-IsVisible (a ∷ (b ∷ (c ∷ []))) h = unfold join_dashes in omega arith
format_code-IsVisible (a ∷ (b ∷ (c ∷ (d ∷ code)))) (ha, (hb, (hc, (hd, h)))) =
    join_dashes-IsVisible (a ∷ b ∷ c ∷ d ∷ []) (parts_of code) (omega arith)
      (format_code-IsVisible code h)

-- What the user types, in any case, is as visible as what is displayed, and has its dashes.
pub typed-IsVisible : (s : Bytes) → All IsVisible (map to_upper s) → All IsVisible s
typed-IsVisible [] h = tt
typed-IsVisible (c ∷ s) (hc, h) = (ground arith, typed-IsVisible s h)

pub remove_dashes-to_upper :
    (s : Bytes) → map to_upper (remove_dashes s) ≡ remove_dashes (map to_upper s)
unfolding remove_dashes
remove_dashes-to_upper [] = refl
remove_dashes-to_upper (c ∷ s) = ground (arith, remove_dashes-to_upper s)

abbrev pub AllSpace : Bytes → Type 0
AllSpace s = All (λ c. is_space c ≡ true) s

trim_left-AllSpace : (front s : Bytes) → AllSpace front → trim_left (front ++ s) ≡ trim_left s
unfolding trim_left
trim_left-AllSpace [] s h = refl
trim_left-AllSpace (c ∷ front) s (hc, h) = rw hc (trim_left-AllSpace front s h)

pub trim_left-IsVisible : (c : ℕ) (s : Bytes) → IsVisible c → trim_left (c ∷ s) ≡ c ∷ s
unfolding trim_left
trim_left-IsVisible c s h = ground arith

trim_left-All : (s : Bytes) → All IsVisible s → trim_left s ≡ s
trim_left-All [] h = unfold trim_left in refl
trim_left-All (c ∷ s) (hc, h) = trim_left-IsVisible c s hc

All-reverse : (P : ℕ → Type 0) (s : Bytes) → All P s → All P (reverse s)
All-reverse P [] h = tt
All-reverse P (c ∷ s) (hc, h) =
    rw (reverse-cons c s) (All-append P (reverse s) (c ∷ []) (All-reverse P s h) (hc, tt))

trim_right :
    (s back : Bytes)
    → All IsVisible s
    → AllSpace back
    → reverse (trim_left (reverse (s ++ back))) ≡ s
trim_right s back hs hb =
    rw
      (
        reverse-append s back,
        trim_left-AllSpace (reverse back) (reverse s) (All-reverse _ back hb),
        trim_left-All (reverse s) (All-reverse IsVisible s hs),
      )
      (reverse-reverse s)

-- White space around a visible text is trimmed.
pub trim_space-around :
    (front s back : Bytes)
    → AllSpace front
    → All IsVisible s
    → AllSpace back
    → trim_space (front ++ (s ++ back)) ≡ s
unfolding trim_space
trim_space-around front [] back hf hs hb =
    rw (trim_left-AllSpace front back hf, ← append-nil back, trim_left-AllSpace back [] hb)
      (unfold trim_left in refl)
trim_space-around front (c ∷ s) back hf (hc, hs) hb =
    rw (trim_left-AllSpace front (c ∷ (s ++ back)) hf, trim_left-IsVisible c (s ++ back) hc)
      (trim_right (c ∷ s) back (hc, hs) hb)
