-- ===== src/Go/Strings.antt =====
-- What the program uses of Go's package strings, on ASCII text.
pub mod Laws
pub mod Index
pub mod Trim
use rmm.Base.{
  ℕ, suc, ◌+◌, List, [], ◌∷◌, ◌++◌, Bytes, leb, ◌==◌, text_eq, if◌then◌else◌, length, take, drop,
  Bool, true, false, ◌&&◌, ◌||◌, Option, none, some,
}
use mathlib.Core.List.{reverse}

abbrev pub is_space : ℕ → Bool
is_space c = c == 32 || (leb 9 c && leb c 13)

unfoldable pub trim_left : Bytes → Bytes
trim_left [] = []
trim_left (c ∷ s) = if is_space c then trim_left s else c ∷ s

unfoldable pub trim_space : Bytes → Bytes
trim_space s = reverse (trim_left (reverse (trim_left s)))

unfoldable pub has_prefix : Bytes → Bytes → Bool
has_prefix s [] = true
has_prefix [] (p ∷ ps) = false
has_prefix (c ∷ s) (p ∷ ps) = c == p && has_prefix s ps

unfoldable pub trim_prefix : Bytes → Bytes → Bytes
trim_prefix s p = if has_prefix s p then drop (length p) s else s

unfoldable pub trim_suffix : Bytes → Bytes → Bytes
trim_suffix s p = reverse (trim_prefix (reverse s) (reverse p))

-- All bytes `d` at the front.
unfoldable pub trim_byte_left : ℕ → Bytes → Bytes
trim_byte_left d [] = []
trim_byte_left d (c ∷ s) = if c == d then trim_byte_left d s else c ∷ s

-- `TrimRight` and `Trim` with a set of one byte.
unfoldable pub trim_byte_right : ℕ → Bytes → Bytes
trim_byte_right d s = reverse (trim_byte_left d (reverse s))

unfoldable pub trim_byte : ℕ → Bytes → Bytes
trim_byte d s = trim_byte_right d (trim_byte_left d s)

-- `none` is Go's -1.
unfoldable pub index : Bytes → Bytes → Option ℕ
unfolding has_prefix
index [] p = if has_prefix [] p then some 0 else none
index (c ∷ s) p =
    if has_prefix (c ∷ s) p
    then some 0
    else elim (index s p) [ none ↦ none | some i ↦ some (suc i) ]

unfoldable pub contains : Bytes → Bytes → Bool
contains s p = elim (index s p) [ none ↦ false | some _ ↦ true ]

-- Around the first occurrence: `SplitN(s, sep, 2)` has two parts exactly if there is one.
unfoldable pub cut : Bytes → Bytes → Option (Bytes × Bytes)
cut s p = elim (index s p) [ none ↦ none | some i ↦ some (take i s, drop (i + length p) s) ]

-- `Replace(s, old, new, 1)`.
unfoldable pub replace_first : Bytes → Bytes → Bytes → Bytes
replace_first s old new = elim (cut s old) [ none ↦ s | some (a, b) ↦ a ++ (new ++ b) ]

-- One more byte at the front of the first part.
unfoldable pub onto_first : ℕ → List Bytes → List Bytes
onto_first c [] = (c ∷ []) ∷ []
onto_first c (part ∷ parts) = (c ∷ part) ∷ parts

-- `Split` at a separator of one byte.
unfoldable pub split : ℕ → Bytes → List Bytes
split d [] = [] ∷ []
split d (c ∷ s) = if c == d then [] ∷ split d s else onto_first c (split d s)

abbrev pub newline : ℕ
newline = 10

abbrev pub lines : Bytes → List Bytes
lines s = split newline s

-- The parts of `Split` that are not empty, at any white space.
unfoldable pub fields_from : Bytes → Bytes → List Bytes
fields_from word [] = if text_eq word [] then [] else reverse word ∷ []
fields_from word (c ∷ s) =
    if is_space c
    then (if text_eq word [] then fields_from [] s else reverse word ∷ fields_from [] s)
    else fields_from (c ∷ word) s

unfoldable pub fields : Bytes → List Bytes
fields s = fields_from [] s
