-- ===== src/Base/Map.antt =====
-- Go maps as association lists, whose order stands for the order that a range over the map takes.
use Prim.Native.Nat.{ℕ}
use mathlib.Core.Path.{◌≡◌, refl, ◌∙◌}
use mathlib.Core.Logic.{◌↔◌, ◌≢◌, ◌⊎◌}
use mathlib.Core.Bool.{Bool, true}
use mathlib.Core.Option.{Option, none, some}
use mathlib.Core.List.{List, [], ◌∷◌}
use native.Mathlib.Omega.{arith}
use rmm.Base.Tests.{◌==◌, ==_iff, if◌then◌else◌}
use rmm.Base.Text.{Bytes, text_eq, text_eq_iff}

pub record Key {ℓ} (K : Type ℓ) : Type ℓ where
  pub eqb : K → K → Bool
  pub eqb_iff : (j k : K) → (eqb j k ≡ true) ↔ (j ≡ k)

pub eqb_refl {ℓ} : {A : Type ℓ} ⦃e : Key A⦄ (a : A) → e.eqb a a ≡ true
eqb_refl ⦃e⦄ a = (e.eqb_iff a a).1 refl

instance abbrev pub nat_eq : Key ℕ
nat_eq = record { eqb = ◌==◌; eqb_iff = ==_iff }

instance abbrev pub bytes_eq : Key Bytes
bytes_eq = record { eqb = text_eq; eqb_iff = text_eq_iff }

abbrev pub Map {ℓ κ} : Type ℓ → Type κ → Type (ℓ ⊔ κ)
Map K V = List (K × V)

module _ {ℓ κ} {K : Type ℓ} {V : Type κ} ⦃e : Key K⦄ where
  -- `v, ok := m[k]`
  unfoldable pub get : K → Map K V → Option V
  get k [] = none
  get k ((j, v) ∷ m) = if e.eqb j k then some v else get k m

  -- `delete(m, k)`
  unfoldable pub delete : K → Map K V → Map K V
  delete k [] = []
  delete k ((j, v) ∷ m) = if e.eqb j k then delete k m else (j, v) ∷ delete k m

  -- `m[k] = v`
  unfoldable pub put : K → V → Map K V → Map K V
  put k v m = (k, v) ∷ delete k m

  pub get-delete :
      (k j : K) (m : Map K V) → get j (delete k m) ≡ (if e.eqb k j then none else get j m)
  unfolding get delete
  get-delete k j [] = ground arith
  get-delete k j ((i, v) ∷ m) =
      ground (arith, e.eqb_iff k j, e.eqb_iff i k, e.eqb_iff i j, get-delete k j m)

  pub get-put :
      (k j : K) (v : V) (m : Map K V) → get j (put k v m) ≡ (if e.eqb k j then some v else get j m)
  unfolding put get
  get-put k j v m = ground (arith, get-delete k j m)

  pub get-put_same : (k : K) (v : V) (m : Map K V) → get k (put k v m) ≡ some v
  get-put_same k v m = get-put k k v m ∙ rw (eqb_refl k)

  pub get-put_other : (k j : K) (v : V) (m : Map K V) → k ≢ j → get j (put k v m) ≡ get j m
  get-put_other k j v m ne = ground (arith, get-put k j v m, e.eqb_iff k j)

  -- An entry that is found after a put is the new one, or an old one under another key.
  pub get-put_cases :
      (k j : K) (v x : V) (m : Map K V)
      → get j (put k v m) ≡ some x
      → ((k ≡ j) × (v ≡ x)) ⊎ ((k ≢ j) × (get j m ≡ some x))
  get-put_cases k j v x m found = ground (arith, get-put k j v m, e.eqb_iff k j)

  pub get-delete_other : (k j : K) (m : Map K V) → k ≢ j → get j (delete k m) ≡ get j m
  get-delete_other k j m ne = ground (arith, get-delete k j m, e.eqb_iff k j)

  pub get-delete_same : (k : K) (m : Map K V) → get k (delete k m) ≡ none
  get-delete_same k m = ground (arith, get-delete k k m, e.eqb_iff k k)

  -- An entry that is found after a delete is an old one under another key.
  pub get-delete_found :
      (k j : K) (x : V) (m : Map K V) → get j (delete k m) ≡ some x → (k ≢ j) × (get j m ≡ some x)
  get-delete_found k j x m found = ground (arith, get-delete k j m, e.eqb_iff k j)
