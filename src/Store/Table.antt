-- ===== src/Store/Table.antt =====
-- The SQL that the store uses, over the rows of one table in the order of their insertion.
pub mod Order
use rmm.Base.{
  ℕ, zero, suc, ◌+◌, ◌≤◌, ◌<◌, ◌≡◌, refl, ap, sym, ◌∙◌, ◌≢◌, List, [], ◌∷◌, ◌++◌, Bytes, All, ltb,
  leb, if◌then◌else◌, length, Bool, true, false, not, ◌||◌, ◌&&◌, Option, none, some, arith, map,
  Bool-cases, inl, inr, text_eq, text_eq_iff, text_eq_refl,
}
use mathlib.Core.List.{Perm}
use mathlib.Core.List.Perm
use mathlib.Core.Option

module _ {ℓ} {R : Type ℓ} where
  -- `SELECT … WHERE test`, read by QueryRow: the first row.
  unfoldable pub find_row : (R → Bool) → List R → Option R
  find_row test [] = none
  find_row test (r ∷ rows) = if test r then some r else find_row test rows

  -- `UPDATE … SET … WHERE test`.
  pub update_rows : (R → Bool) → (R → R) → List R → List R
  update_rows test set [] = []
  update_rows test set (r ∷ rows) = (if test r then set r else r) ∷ update_rows test set rows

  -- `DELETE … WHERE test`.
  unfoldable pub delete_rows : (R → Bool) → List R → List R
  delete_rows test [] = []
  delete_rows test (r ∷ rows) = if test r then delete_rows test rows else r ∷ delete_rows test rows

  -- Whether a row has the value `k` in the column `key`.
  abbrev pub has_key : (R → Bytes) → Bytes → R → Bool
  has_key key k r = text_eq (key r) k

  -- `SELECT … ORDER BY key DESC`. Rows of one key stay in the order of insertion.
  insert_desc : (R → ℕ) → R → List R → List R
  insert_desc key r [] = r ∷ []
  insert_desc key r (s ∷ rows) =
      if ltb (key r) (key s) then s ∷ insert_desc key r rows else r ∷ s ∷ rows

  unfoldable pub order_desc : (R → ℕ) → List R → List R
  unfolding insert_desc
  order_desc key [] = []
  order_desc key (r ∷ rows) = insert_desc key r (order_desc key rows)

  -- No row has the value `k` in the column `key`.
  abbrev pub Absent : (R → Bytes) → Bytes → List R → Type ℓ
  Absent key k [] = Unit
  Absent key k (r ∷ rows) = (key r ≢ k) × Absent key k rows

  -- The constraint `UNIQUE` on a column.
  abbrev pub Unique : (R → Bytes) → List R → Type ℓ
  Unique key [] = Unit
  Unique key (r ∷ rows) = Absent key (key r) rows × Unique key rows

  pub find_row-some :
      (test : R → Bool) (rows : List R) (r : R) → find_row test rows ≡ some r → test r ≡ true
  unfolding find_row
  find_row-some test [] r e = absurd (cc)
  find_row-some test (s ∷ rows) r e = elim (Bool-cases (test s)) [
    | inl hit ↦ ground arith
    | inr miss ↦ find_row-some test rows r (rw miss at e)
  ]

  -- A search by key that finds nothing, and the absence of the key.
  pub find_row-none :
      (key : R → Bytes) (k : Bytes) (rows : List R)
      → find_row (has_key key k) rows ≡ none
      → Absent key k rows
  unfolding find_row
  find_row-none key k [] e = tt
  find_row-none key k (r ∷ rows) e = elim (Bool-cases (text_eq (key r) k)) [
    | inl hit ↦ absurd (ground arith)
    | inr miss ↦
        (λ same. ground (arith, text_eq_iff (key r) k), find_row-none key k rows (rw miss at e))
  ]

  pub find_row-Absent :
      (key : R → Bytes) (k : Bytes) (rows : List R)
      → Absent key k rows
      → find_row (has_key key k) rows ≡ none
  unfolding find_row
  find_row-Absent key k [] h = refl
  find_row-Absent key k (r ∷ rows) (hr, h) =
      ground (arith, text_eq_iff (key r) k, find_row-Absent key k rows h)

  -- A new row is found by its key, behind rows that do not have the key.
  pub find_row-append :
      (key : R → Bytes) (rows : List R) (r : R)
      → Absent key (key r) rows
      → find_row (has_key key (key r)) (rows ++ (r ∷ [])) ≡ some r
  unfolding find_row
  find_row-append key [] r h = rw (text_eq_refl (key r))
  find_row-append key (s ∷ rows) r (hs, h) =
      ground (arith, text_eq_iff (key s) (key r), find_row-append key rows r h)

  -- A row that was found is still found when rows are added.
  pub find_row-append_found :
      (test : R → Bool) (rows more : List R) (r : R)
      → find_row test rows ≡ some r
      → find_row test (rows ++ more) ≡ some r
  unfolding find_row
  find_row-append_found test [] more r e = absurd (cc)
  find_row-append_found test (s ∷ rows) more r e =
      ground (arith, find_row-append_found test rows more r)

  Absent-append :
      (key : R → Bytes) (k : Bytes) (rows : List R) (r : R)
      → Absent key k rows
      → key r ≢ k
      → Absent key k (rows ++ (r ∷ []))
  Absent-append key k [] r h hr = (hr, tt)
  Absent-append key k (s ∷ rows) r (hs, h) hr = (hs, Absent-append key k rows r h hr)

  pub Unique-append :
      (key : R → Bytes) (rows : List R) (r : R)
      → Unique key rows
      → Absent key (key r) rows
      → Unique key (rows ++ (r ∷ []))
  Unique-append key [] r u h = (tt, tt)
  Unique-append key (s ∷ rows) r (us, u) (hs, h) =
      (Absent-append key (key s) rows r us (λ e. hs (sym e)), Unique-append key rows r u h)

  Absent-update :
      (key : R → Bytes) (k : Bytes) (test : R → Bool) (set : R → R) (rows : List R)
      → ((r : R) → key (set r) ≡ key r)
      → Absent key k rows
      → Absent key k (update_rows test set rows)
  unfolding update_rows
  Absent-update key k test set [] keeps h = tt
  Absent-update key k test set (r ∷ rows) keeps (hr, h) =
      (ground (arith, keeps r), Absent-update key k test set rows keeps h)

  pub Unique-update :
      (key : R → Bytes) (test : R → Bool) (set : R → R) (rows : List R)
      → ((r : R) → key (set r) ≡ key r)
      → Unique key rows
      → Unique key (update_rows test set rows)
  unfolding update_rows
  Unique-update key test set [] keeps u = tt
  Unique-update key test set (r ∷ rows) keeps (ur, u) = elim (Bool-cases (test r)) [
    | inl hit ↦
        rw (hit, keeps r)
          (
            Absent-update key (key r) test set rows keeps ur,
            Unique-update key test set rows keeps u,
          )
    | inr miss ↦
        rw miss (
          Absent-update key (key r) test set rows keeps ur,
          Unique-update key test set rows keeps u,
        )
  ]

  pub Absent-delete :
      (key : R → Bytes) (k : Bytes) (test : R → Bool) (rows : List R)
      → Absent key k rows
      → Absent key k (delete_rows test rows)
  unfolding delete_rows
  Absent-delete key k test [] h = tt
  Absent-delete key k test (r ∷ rows) (hr, h) = elim (Bool-cases (test r)) [
    | inl hit ↦ rw hit (Absent-delete key k test rows h)
    | inr miss ↦ rw miss (hr, Absent-delete key k test rows h)
  ]

  pub Unique-delete :
      (key : R → Bytes) (test : R → Bool) (rows : List R)
      → Unique key rows
      → Unique key (delete_rows test rows)
  unfolding delete_rows
  Unique-delete key test [] u = tt
  Unique-delete key test (r ∷ rows) (ur, u) = elim (Bool-cases (test r)) [
    | inl hit ↦ rw hit (Unique-delete key test rows u)
    | inr miss ↦ rw miss (Absent-delete key (key r) test rows ur, Unique-delete key test rows u)
  ]

  -- Deletion by a key leaves no row of the key.
  pub delete_rows-Absent :
      (key : R → Bytes) (k : Bytes) (rows : List R)
      → Absent key k (delete_rows (has_key key k) rows)
  unfolding delete_rows
  delete_rows-Absent key k [] = tt
  delete_rows-Absent key k (r ∷ rows) = elim (Bool-cases (text_eq (key r) k)) [
    | inl hit ↦ rw hit (delete_rows-Absent key k rows)
    | inr miss ↦
        rw miss ((λ same. ground (arith, text_eq_iff (key r) k)), delete_rows-Absent key k rows)
  ]

  -- An update that keeps the column that a search reads: the search finds the row, updated if the
  -- update's test holds of it.
  pub find_row-update :
      (found test : R → Bool) (set : R → R) (rows : List R)
      → ((r : R) → found (set r) ≡ found r)
      → find_row found (update_rows test set rows)
        ≡ Option.map (λ r. if test r then set r else r) (find_row found rows)
  unfolding find_row update_rows
  find_row-update found test set [] keeps = refl
  find_row-update found test set (r ∷ rows) keeps =
      ground (arith, keeps r, find_row-update found test set rows keeps)

  pub update_rows-map :
      (test : R → Bool) (set : R → R) (rows : List R)
      → update_rows test set rows ≡ map (λ r. if test r then set r else r) rows
  unfolding update_rows
  update_rows-map test set [] = refl
  update_rows-map test set (r ∷ rows) =
      ap (λ l. (if test r then set r else r) ∷ l) (update_rows-map test set rows)
