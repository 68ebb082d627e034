-- ===== src/Store/Table/Order.antt =====
-- internal/store/sqlite.go: what `ORDER BY … DESC` makes of a table.
use rmm.Base.{refl, ℕ, ◌≤◌, ◌≢◌, List, [], ◌∷◌, ◌++◌, ltb, arith, Bool-cases, inl, inr}
use mathlib.Core.List.{Perm}
use mathlib.Core.List.Perm
use rmm.Store.Table.{insert_desc, order_desc}

module _ {ℓ} {R : Type ℓ} where
  insert_desc-perm :
      (key : R → ℕ) (r : R) (rows : List R) → Perm (insert_desc key r rows) (r ∷ rows)
  unfolding insert_desc
  insert_desc-perm key r [] = Perm.refl _
  insert_desc-perm key r (s ∷ rows) = elim (Bool-cases (ltb (key r) (key s))) [
    | inl less ↦
        rw less (Perm.trans (Perm.cons s (insert_desc-perm key r rows)) (Perm.swap r s rows))
    | inr other ↦ rw other (Perm.refl _)
  ]

  pub order_desc-perm : (key : R → ℕ) (rows : List R) → Perm (order_desc key rows) rows
  unfolding order_desc
  order_desc-perm key [] = Perm.refl _
  order_desc-perm key (r ∷ rows) =
      Perm.trans (insert_desc-perm key r (order_desc key rows))
        (Perm.cons r (order_desc-perm key rows))

  -- No row has a key above `k`, and each key is at least the next.
  abbrev pub IsDesc : (R → ℕ) → List R → Type 0
  IsDesc key [] = Unit
  IsDesc key (r ∷ []) = Unit
  IsDesc key (r ∷ (s ∷ rows)) = (key s ≤ key r) × IsDesc key (s ∷ rows)

  insert_desc-IsDesc :
      (key : R → ℕ) (r : R) (rows : List R) → IsDesc key rows → IsDesc key (insert_desc key r rows)
  unfolding insert_desc
  insert_desc-IsDesc key r [] h = tt
  insert_desc-IsDesc key r (s ∷ []) h = ground arith
  insert_desc-IsDesc key r (s ∷ (t ∷ rows)) (hs, h) =
      ground (arith, insert_desc-IsDesc key r (t ∷ rows) h)

  pub order_desc-IsDesc : (key : R → ℕ) (rows : List R) → IsDesc key (order_desc key rows)
  unfolding order_desc
  order_desc-IsDesc key [] = tt
  order_desc-IsDesc key (r ∷ rows) =
      insert_desc-IsDesc key r (order_desc key rows) (order_desc-IsDesc key rows)

  insert_desc-nonempty : (key : R → ℕ) (r : R) (rows : List R) → insert_desc key r rows ≢ []
  unfolding insert_desc
  insert_desc-nonempty key r [] e = absurd (cc)
  insert_desc-nonempty key r (s ∷ rows) e = ground arith

  -- A table with a row that was inserted last is not empty in any order.
  pub order_desc-append_nonempty :
      (key : R → ℕ) (rows : List R) (r : R) → order_desc key (rows ++ (r ∷ [])) ≢ []
  unfolding order_desc
  order_desc-append_nonempty key [] r = insert_desc-nonempty key r []
  order_desc-append_nonempty key (s ∷ rows) r = insert_desc-nonempty key s _

  pub order_desc-ne-nil : (key : R → ℕ) (rows : List R) → rows ≢ [] → order_desc key rows ≢ []
  unfolding order_desc
  order_desc-ne-nil key [] ne = absurd (ne refl)
  order_desc-ne-nil key (s ∷ rows) ne = insert_desc-nonempty key s _
