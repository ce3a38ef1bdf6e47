-- ===== src/Common/HashMap.antt =====
-- `std::collections::HashMap` as an association list: a write to a key that is there replaces its
-- value in place, and a new key goes to the end. The order of iteration is the list's; what is
-- proved of a loop over a map holds for every list.
pub mod Laws
pub mod Sums
use mathlib.Core.Path.{◌≡◌}
use mathlib.Core.Bool.{Bool, true, false}
use mathlib.Core.List.{List, [], ◌∷◌, map}
use mathlib.Core.Option.{Option, none, some}
use ray_rust.Common.Tests.{if◌then◌else◌, is_some}
use ray_rust.Common.Lists.{keep, All}
use ray_rust.Common.Keys.{PartialEq, ◌==◌}

abbrev pub HashMap {ℓ κ} : Type ℓ → Type κ → Type (ℓ ⊔ κ)
HashMap K V = List (K × V)

module _ {ℓ κ} {K : Type ℓ} {V : Type κ} where
  abbrev pub empty : HashMap K V
  empty = []

  abbrev pub values : HashMap K V → List V
  values = map (λ e. e.1)

  -- `retain`: the test sees the key and the value.
  unfoldable pub retain : (K → V → Bool) → HashMap K V → HashMap K V
  retain p = keep (λ e. p e.0 e.1)

module _ {ℓ κ} {K : Type ℓ} {V : Type κ} ⦃e : PartialEq K⦄ where
  unfoldable pub get : HashMap K V → K → Option V
  get [] k = none
  get ((j, v) ∷ m) k = if j == k then some v else get m k

  unfoldable pub contains_key : HashMap K V → K → Bool
  unfolding get
  contains_key m k = is_some (get m k)

  unfoldable pub insert : HashMap K V → K → V → HashMap K V
  insert [] k v = (k, v) ∷ []
  insert ((j, w) ∷ m) k v = if j == k then (j, v) ∷ m else (j, w) ∷ insert m k v

  unfoldable pub remove : HashMap K V → K → HashMap K V
  remove [] k = []
  remove ((j, w) ∷ m) k = let rest = remove m k in if j == k then rest else (j, w) ∷ rest

  -- A write through `get_mut`: nothing happens where the key is missing.
  unfoldable pub modify : HashMap K V → K → (V → V) → HashMap K V
  modify [] k f = []
  modify ((j, w) ∷ m) k f = if j == k then (j, f w) ∷ m else (j, w) ∷ modify m k f

  -- No key occurs twice, as in every map that the methods build.
  abbrev pub Unique : HashMap K V → Type κ
  Unique [] = Unit
  Unique ((k, v) ∷ m) = (get m k ≡ none) × Unique m
