-- ===== src/Store/Registry/Queries.antt =====
-- internal/store/sqlite.go: what a query by a key finds after each kind of statement.
use rmm.Base.{
  ◌≡◌, refl, List, [], ◌∷◌, ◌++◌, Bytes, text_eq, text_eq_iff, if◌then◌else◌, true, Option, none,
  some, arith,
}
use mathlib.Core.Path.{subst}
use rmm.Store.Table.{find_row, delete_rows, has_key, Absent, Unique, find_row-Absent, Absent-delete}

module _ {ℓ} {R : Type ℓ} where
  pub find_row-append_new :
      (key : R → Bytes) (k : Bytes) (rows : List R) (r : R)
      → Absent key (key r) rows
      → find_row (has_key key k) (rows ++ (r ∷ []))
        ≡ (if text_eq (key r) k then some r else find_row (has_key key k) rows)
  unfolding find_row
  find_row-append_new key k [] r h = refl
  find_row-append_new key k (s ∷ rows) r (hs, h) =
      ground
        (arith, text_eq_iff (key s) k, text_eq_iff (key r) k, find_row-append_new key k rows r h)

  -- The row that was found, unless it has the key.
  abbrev pub unless_key : (R → Bytes) → Bytes → Option R → Option R
  unless_key key k none = none
  unless_key key k (some r) = if text_eq (key r) k then none else some r

  hidden :
      (key other : R → Bytes) (k h : Bytes) (r : R) (rows : List R)
      → text_eq (other r) h ≡ true
      → Absent other (other r) rows
      → find_row (has_key other h) (delete_rows (has_key key k) rows) ≡ none
  hidden key other k h r rows hit absent =
      find_row-Absent other h (delete_rows (has_key key k) rows) (
        Absent-delete other h (has_key key k) rows
          (subst (λ x. Absent other x rows) ((text_eq_iff (other r) h).0 hit) absent))

  -- A deletion by one unique key, seen by another.
  pub find_row-delete_rows :
      (key other : R → Bytes) (k h : Bytes) (rows : List R)
      → Unique other rows
      → find_row (has_key other h) (delete_rows (has_key key k) rows)
        ≡ unless_key key k (find_row (has_key other h) rows)
  unfolding find_row delete_rows
  find_row-delete_rows key other k h [] u = refl
  find_row-delete_rows key other k h (r ∷ rows) (ur, u) = ground (
    arith,
    find_row-delete_rows key other k h rows u,
    λ (hit : text_eq (other r) h ≡ true). hidden key other k h r rows hit ur,
  )
