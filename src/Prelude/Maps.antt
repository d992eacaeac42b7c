-- ===== src/Prelude/Maps.antt =====
-- `HashMap` as an association list with distinct keys. Its iteration order is not specified; the
-- model iterates in the list's order, and no theorem rests on that order.
use mathlib.Core.Path.{◌≡◌}
use mathlib.Core.Bool.{Bool}
use mathlib.Core.List.{List, [], ◌∷◌}
use mathlib.Core.Option
use mathlib.Core.Option.{Option, none, some}
use native.Mathlib.Omega.{arith}
use tinybus.Prelude.Tests.{if◌then◌else◌, is_some, Bool-cases}
use mathlib.Core.Logic.{inl, inr}
use tinybus.Prelude.Classes.{Eq, ◌==◌, eq_iff, eq_refl}

abbrev pub Map {ℓ κ} : Type ℓ → Type κ → Type (ℓ ⊔ κ)
Map K V = List (K × V)

module _ {ℓ κ} {K : Type ℓ} {V : Type κ} ⦃e : Eq K⦄ where
  unfoldable pub get : Map K V → K → Option V
  get [] k = none
  get ((j, v) ∷ m) k = let rest = get m k in if j == k then some v else rest

  unfoldable pub remove : Map K V → K → Map K V
  remove [] k = []
  remove ((j, v) ∷ m) k = let rest = remove m k in if j == k then rest else (j, v) ∷ rest

  unfoldable pub insert : Map K V → K → V → Map K V
  insert m k v = (k, v) ∷ remove m k

  -- `if let Some(v) = map.get_mut(&k) { *v = f(v) }`
  unfoldable pub update : Map K V → K → (V → V) → Map K V
  update [] k f = []
  update ((j, v) ∷ m) k f = (j, if j == k then f v else v) ∷ update m k f

  abbrev pub contains_key : Map K V → K → Bool
  contains_key m k = is_some (get m k)

  pub get-remove : (m : Map K V) (k j : K) → get (remove m k) j ≡ (if k == j then none else get m j)
  unfolding get remove
  get-remove [] k j = ground arith
  get-remove ((i, v) ∷ m) k j = ground (arith, eq_iff k j, eq_iff i k, eq_iff i j, get-remove m k j)

  pub get-insert :
      (m : Map K V) (k j : K) (v : V) → get (insert m k v) j ≡ (if k == j then some v else get m j)
  unfolding get insert
  get-insert m k j v = ground (arith, get-remove m k j)

  pub get-update :
      (m : Map K V) (k j : K) (f : V → V)
      → get (update m k f) j ≡ (if k == j then Option.map f (get m j) else get m j)
  unfolding get update
  get-update [] k j f = ground arith
  get-update ((i, v) ∷ m) k j f =
      ground (arith, eq_iff k j, eq_iff i k, eq_iff i j, get-update m k j f)

  -- No key occurs twice.
  abbrev pub IsDistinct : Map K V → Type (ℓ ⊔ κ)
  IsDistinct [] = Unit
  IsDistinct ((k, v) ∷ m) = (get m k ≡ none) × IsDistinct m

  pub remove-IsDistinct : (m : Map K V) (k : K) → IsDistinct m → IsDistinct (remove m k)
  unfolding get remove
  remove-IsDistinct [] k h = tt
  remove-IsDistinct ((j, v) ∷ m) k (e, h) = elim (Bool-cases (j == k)) [
    | inl y ↦ rw y (remove-IsDistinct m k h)
    | inr n ↦ rw n (ground (arith, get-remove m k j), remove-IsDistinct m k h)
  ]

  pub insert-IsDistinct : (m : Map K V) (k : K) (v : V) → IsDistinct m → IsDistinct (insert m k v)
  unfolding insert
  insert-IsDistinct m k v h = (ground (arith, get-remove m k k, eq_refl k), remove-IsDistinct m k h)

  pub update-IsDistinct :
      (m : Map K V) (k : K) (f : V → V) → IsDistinct m → IsDistinct (update m k f)
  unfolding get update
  update-IsDistinct [] k f h = tt
  update-IsDistinct ((j, v) ∷ m) k f (e, h) =
      (ground (arith, get-update m k j f), update-IsDistinct m k f h)
