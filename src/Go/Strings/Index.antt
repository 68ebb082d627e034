-- ===== src/Go/Strings/Index.antt =====
-- The first occurrence of a byte.
use rmm.Base.{ℕ, [], ◌∷◌, ◌++◌, Bytes, length, ◌≡◌, refl, some, arith}
use rmm.Go.Strings.{index, has_prefix}
use rmm.Go.Strings.Laws.{Without}

pub index_Without :
    (d : ℕ) (s rest : Bytes) → Without d s → index (s ++ (d ∷ rest)) (d ∷ []) ≡ some (length s)
unfolding index has_prefix
index_Without d [] rest w = ground arith
index_Without d (c ∷ s) rest (e, w) = rw (e, index_Without d s rest w) refl

pub Without-append : (d : ℕ) (s t : Bytes) → Without d s → Without d t → Without d (s ++ t)
Without-append d [] t w v = v
Without-append d (c ∷ s) t (e, w) v = (e, Without-append d s t w v)
