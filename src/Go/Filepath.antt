-- ===== src/Go/Filepath.antt =====
-- What the program uses of Go's package path/filepath, on Unix: Clean and Join.
use rmm.Base.{List, [], ◌∷◌, ◌++◌, Bytes, codes, text_eq, if◌then◌else◌, Bool, ◌||◌}
use mathlib.Core.List.{reverse}
use rmm.Go.Strings.{split, has_prefix}

-- The elements with slashes between them.
unfoldable pub with_slashes : List Bytes → Bytes
with_slashes [] = []
with_slashes (s ∷ []) = s
with_slashes (s ∷ (t ∷ parts)) = s ++ (b'/' ∷ with_slashes (t ∷ parts))

-- `..` behind the elements so far, the last first: it goes up, or stays above a relative path.
unfoldable pub up : Bool → List Bytes → List Bytes
up rooted [] = if rooted then [] else codes ".." ∷ []
up rooted (s ∷ done) = if text_eq s (codes "..") then codes ".." ∷ s ∷ done else done

unfoldable pub resolve : Bool → List Bytes → List Bytes → List Bytes
unfolding up
resolve rooted done [] = reverse done
resolve rooted done (s ∷ parts) =
    resolve rooted
      (if text_eq s [] || text_eq s (codes ".")
        then done
        else if text_eq s (codes "..")
        then up rooted done
        else s ∷ done)
      parts

unfoldable pub clean : Bytes → Bytes
clean path =
    let rooted = has_prefix path (codes "/") in
    let text = with_slashes (resolve rooted [] (split b'/' path)) in
    if rooted then b'/' ∷ text else if text_eq text [] then codes "." else text

-- The elements that are not empty.
unfoldable pub non_empty : List Bytes → List Bytes
non_empty [] = []
non_empty (s ∷ parts) = if text_eq s [] then non_empty parts else s ∷ non_empty parts

unfoldable pub join : List Bytes → Bytes
join parts = elim (non_empty parts) [ [] ↦ [] | s ∷ rest ↦ clean (with_slashes (s ∷ rest)) ]
