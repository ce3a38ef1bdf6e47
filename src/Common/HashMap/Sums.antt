-- ===== src/Common/HashMap/Sums.antt =====
-- A total over the values of a map, and how each write moves it.
use mathlib.Core.Path.{◌≡◌, refl}
use mathlib.Core.Bool.{Bool}
use mathlib.Core.List.{[], ◌∷◌}
use mathlib.Core.Option.{Option, none, some}
use Prim.Native.Nat.{ℕ, ◌+◌, ◌≤◌}
use native.Mathlib.Omega.{arith}
use ray_rust.Common.Keys.{PartialEq}
use ray_rust.Common.HashMap.{HashMap, get, insert, remove, modify, retain}

abbrev pub sum_values {ℓ κ} : {K : Type ℓ} {V : Type κ} → (V → ℕ) → HashMap K V → ℕ
sum_values w [] = 0
sum_values w ((k, v) ∷ m) = w v + sum_values w m

abbrev pub weight {κ} : {V : Type κ} → (V → ℕ) → Option V → ℕ
weight w none = 0
weight w (some v) = w v

module _ {ℓ κ} {K : Type ℓ} {V : Type κ} ⦃e : PartialEq K⦄ (w : V → ℕ) where
  -- The new value comes in and the one that it replaces goes out.
  pub sum-insert :
      (m : HashMap K V) (k : K) (v : V)
      → sum_values w (insert m k v) + weight w (get m k) ≡ sum_values w m + w v
  unfolding insert get
  sum-insert [] k v = ground arith
  sum-insert ((i, u) ∷ m) k v = ground (arith, sum-insert m k v)

  pub sum-remove-le : (m : HashMap K V) (k : K) → sum_values w (remove m k) ≤ sum_values w m
  unfolding remove
  sum-remove-le [] k = ground arith
  sum-remove-le ((i, u) ∷ m) k = ground (arith, sum-remove-le m k)

  pub sum-modify :
      (m : HashMap K V) (k : K) (f : V → V)
      → ((v : V) → w (f v) ≡ w v)
      → sum_values w (modify m k f) ≡ sum_values w m
  unfolding modify
  sum-modify [] k f h = refl
  sum-modify ((i, u) ∷ m) k f h = ground (arith, h u, sum-modify m k f h)

  -- The changed value comes in and the one before goes out.
  pub sum-modified :
      (m : HashMap K V) (k : K) (v : V) (f : V → V)
      → get m k ≡ some v
      → sum_values w (modify m k f) + w v ≡ sum_values w m + w (f v)
  unfolding modify get
  sum-modified [] k v f h = ground arith
  sum-modified ((i, u) ∷ m) k v f h = ground (arith, sum-modified m k v f)

module _ {ℓ κ} {K : Type ℓ} {V : Type κ} (w : V → ℕ) where
  pub sum-retain-le :
      (p : K → V → Bool) (m : HashMap K V) → sum_values w (retain p m) ≤ sum_values w m
  unfolding retain
  sum-retain-le p [] = ground arith
  sum-retain-le p ((i, u) ∷ m) = ground (arith, sum-retain-le p m)
