-- ===== src/Common/HashMap/Laws.antt =====
-- Lookup after each write, and what a write keeps.
use mathlib.Core.Path.{◌≡◌, refl}
use mathlib.Core.Logic.{◌⊎◌, inl, inr}
use mathlib.Core.Bool.{Bool}
use mathlib.Core.List.{[], ◌∷◌}
use mathlib.Core.Option.{Option, none, some}
use native.Mathlib.Omega.{arith}
use ray_rust.Common.Tests.{if◌then◌else◌, option_map, Bool-cases}
use ray_rust.Common.Lists.{All, All-keep, All-map}
use ray_rust.Common.Keys.{PartialEq, ◌==◌}
use ray_rust.Common.HashMap.{HashMap, get, insert, remove, modify, retain, Unique}

abbrev pub filtered {κ} : {V : Type κ} → (V → Bool) → Option V → Option V
filtered p none = none
filtered p (some v) = if p v then some v else none

-- What holds of every value.
abbrev pub AllValues {ℓ κ μ} : {K : Type ℓ} {V : Type κ} → (V → Type μ) → HashMap K V → Type μ
AllValues P = All (λ x. P x.1)

module _ {ℓ κ} {K : Type ℓ} {V : Type κ} ⦃e : PartialEq K⦄ where
  pub get-insert :
      (m : HashMap K V) (k : K) (v : V) (j : K)
      → get (insert m k v) j ≡ (if k == j then some v else get m j)
  unfolding get insert
  get-insert [] k v j = refl
  get-insert ((i, w) ∷ m) k v j =
      ground (arith, e.beq_iff k j, e.beq_iff i k, e.beq_iff i j, get-insert m k v j)

  pub get-remove :
      (m : HashMap K V) (k j : K) → get (remove m k) j ≡ (if k == j then none else get m j)
  unfolding get remove
  get-remove [] k j = ground arith
  get-remove ((i, w) ∷ m) k j =
      ground (arith, e.beq_iff k j, e.beq_iff i k, e.beq_iff i j, get-remove m k j)

  pub get-modify :
      (m : HashMap K V) (k : K) (f : V → V) (j : K)
      → get (modify m k f) j ≡ (if k == j then option_map f (get m j) else get m j)
  unfolding get modify
  get-modify [] k f j = ground arith
  get-modify ((i, w) ∷ m) k f j =
      ground (arith, e.beq_iff k j, e.beq_iff i k, e.beq_iff i j, get-modify m k f j)

  -- What is found after a write was written, or found before.
  pub insert-cases :
      (m : HashMap K V) (k : K) (v : V) (j : K) (w : V)
      → get (insert m k v) j ≡ some w
      → ((k ≡ j) × (v ≡ w)) ⊎ (get m j ≡ some w)
  insert-cases m k v j w h = elim (Bool-cases (k == j)) [
    | inl same ↦ inl ((e.beq_iff k j).0 same, ground (arith, get-insert m k v j))
    | inr other ↦ inr (ground (arith, get-insert m k v j))
  ]

  pub remove-found :
      (m : HashMap K V) (k j : K) (w : V) → get (remove m k) j ≡ some w → get m j ≡ some w
  remove-found m k j w h = ground (arith, get-remove m k j)

  pub Unique-insert : (m : HashMap K V) (k : K) (v : V) → Unique m → Unique (insert m k v)
  unfolding insert get
  Unique-insert [] k v u = (refl, tt)
  Unique-insert ((i, w) ∷ m) k v u =
      ground (arith, e.beq_iff i k, e.beq_iff k i, Unique-insert m k v u.1, get-insert m k v i)

  pub Unique-remove : (m : HashMap K V) (k : K) → Unique m → Unique (remove m k)
  unfolding remove
  Unique-remove [] k u = tt
  Unique-remove ((i, w) ∷ m) k u = ground (arith, Unique-remove m k u.1, get-remove m k i)

  pub Unique-modify : (m : HashMap K V) (k : K) (f : V → V) → Unique m → Unique (modify m k f)
  unfolding modify
  Unique-modify [] k f u = tt
  Unique-modify ((i, w) ∷ m) k f u = ground (arith, Unique-modify m k f u.1, get-modify m k f i)

  get-retain-none :
      (p : K → V → Bool) (m : HashMap K V) (k : K) → get m k ≡ none → get (retain p m) k ≡ none
  unfolding retain get
  get-retain-none p [] k h = refl
  get-retain-none p ((i, w) ∷ m) k h = ground (arith, get-retain-none p m k)

  pub Unique-retain : (p : K → V → Bool) (m : HashMap K V) → Unique m → Unique (retain p m)
  unfolding retain
  Unique-retain p [] u = tt
  Unique-retain p ((i, w) ∷ m) u = ground (arith, Unique-retain p m u.1, get-retain-none p m i u.0)

  -- With distinct keys, `retain` forgets the entries that fail the test and no other.
  pub get-retain :
      (p : K → V → Bool) (m : HashMap K V) (k : K)
      → Unique m
      → get (retain p m) k ≡ filtered (p k) (get m k)
  unfolding retain get
  get-retain p [] k u = refl
  get-retain p ((i, w) ∷ m) k u =
      ground (arith, e.beq_iff i k, get-retain p m k u.1, get-retain-none p m i u.0)

  pub AllValues-get {μ} :
      (P : V → Type μ) (m : HashMap K V) (k : K) (v : V) → AllValues P m → get m k ≡ some v → P v
  unfolding get
  AllValues-get P [] k v a h = cc
  AllValues-get P ((i, w) ∷ m) k v a h = ground (arith, AllValues-get P m k v a.1)

  pub AllValues-insert {μ} :
      (P : V → Type μ) (m : HashMap K V) (k : K) (v : V)
      → P v
      → AllValues P m
      → AllValues P (insert m k v)
  unfolding insert
  AllValues-insert P [] k v h a = (h, tt)
  AllValues-insert P ((i, w) ∷ m) k v h a = ground (arith, AllValues-insert P m k v h a.1)

  pub AllValues-remove {μ} :
      (P : V → Type μ) (m : HashMap K V) (k : K) → AllValues P m → AllValues P (remove m k)
  unfolding remove
  AllValues-remove P [] k a = tt
  AllValues-remove P ((i, w) ∷ m) k a = ground (arith, AllValues-remove P m k a.1)

  pub AllValues-modify {μ ν} :
      (P : V → Type μ) (Q : V → Type ν) (f : V → V) (m : HashMap K V) (k : K)
      → ((v : V) → P v → Q v)
      → ((v : V) → P v → Q (f v))
      → AllValues P m
      → AllValues Q (modify m k f)
  unfolding modify
  AllValues-modify P Q f [] k g h a = tt
  AllValues-modify P Q f ((i, w) ∷ m) k g h a = ground (
    arith,
    h w a.0,
    g w a.0,
    All-map (λ x. P x.1) (λ x. Q x.1) m (λ x. g x.1) a.1,
    AllValues-modify P Q f m k g h a.1,
  )

  pub AllValues-retain {μ} :
      (P : V → Type μ) (p : K → V → Bool) (m : HashMap K V)
      → AllValues P m
      → AllValues P (retain p m)
  unfolding retain
  AllValues-retain P p m a = All-keep (λ x. P x.1) (λ x. p x.0 x.1) m a

  pub remove-insert : (m : HashMap K V) (k : K) (v : V) → remove (insert m k v) k ≡ remove m k
  unfolding remove insert
  remove-insert [] k v = ground (arith, e.beq_iff k k)
  remove-insert ((i, w) ∷ m) k v = ground (arith, remove-insert m k v)

  pub remove-modify : (m : HashMap K V) (k : K) (f : V → V) → remove (modify m k f) k ≡ remove m k
  unfolding remove modify
  remove-modify [] k f = refl
  remove-modify ((i, w) ∷ m) k f = ground (arith, remove-modify m k f)
