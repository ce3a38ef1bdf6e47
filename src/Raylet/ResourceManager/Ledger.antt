-- ===== src/Raylet/ResourceManager/Ledger.antt =====
-- The books of crates/ray-raylet/src/resource_manager.rs: the total, what is available, and what is
-- held.
use ray_rust.Common.{
  String, ◌≡◌, refl, sym, ap, ◌∙◌, Bool, true, false, List, [], ◌∷◌, ◌++◌, ◌⊎◌, Bool-cases, inl,
  inr, Option, none, some, string_eq, arith,
}
use ray_rust.Common.Int.{ℤ, pos, ◌+ℤ◌, ◌-ℤ◌, ◌≤ℤ◌, int_laws, +ℤ_zero}
use ray_rust.Common.HashMap
use ray_rust.Core.Error.{RayResult, ok}
use ray_rust.Core.Resources
use ray_rust.Core.Resources.{Resources}
use ray_rust.Core.Resources.Laws.{IsProper, get-add, get-subtract, subtract_exact, floor0, minus}
use ray_rust.Raylet.ResourceManager.{ResourceManager, new, try_allocate, release}

-- How much of a resource is held in all.
unfoldable pub holding : String → List Resources → ℤ
holding name [] = pos 0
holding name (r ∷ held) = Resources.get r name +ℤ holding name held

-- For every resource, the available and the held quantities add up to the total.
abbrev pub Balanced : ResourceManager → List Resources → Type 0
Balanced rm held =
    (name : String)
    → Resources.get rm.total name ≡ Resources.get rm.available name +ℤ holding name held

pub new-Balanced : (total : Resources) → Balanced (new total) []
unfolding new holding
new-Balanced total name = sym (+ℤ_zero _)

+ℤ_assoc' : (a b c : ℤ) → a +ℤ (b +ℤ c) ≡ a +ℤ b +ℤ c
+ℤ_assoc' a b c = omega int_laws

regroup : (a b h : ℤ) → a +ℤ h ≡ a -ℤ b +ℤ (b +ℤ h)
regroup a b h = omega int_laws

-- The answer of `try_allocate`, with what it leaves.
abbrev pub Allocation :
    ResourceManager → Resources → List Resources → RayResult Bool × ResourceManager → Type 0
Allocation rm required held r =
    ((r.0 ≡ ok true) × (r.1.total ≡ rm.total) × Balanced r.1 (required ∷ held))
    ⊎ ((r.0 ≡ ok false) × (r.1 ≡ rm))

allocated :
    (rm : ResourceManager) (required : Resources) (held : List Resources)
    → IsProper required
    → Balanced rm held
    → Resources.can_satisfy rm.available required ≡ true
    → Balanced
        (record rm { available = Resources.subtract rm.available required })
        (required ∷ held)
unfolding holding
allocated rm required held u b fits name =
    b name
    ∙ regroup _ (Resources.get required name) _
    ∙ ap (λ x. x +ℤ (Resources.get required name +ℤ holding name held))
        (sym (subtract_exact rm.available required name u fits))

pub granted-Balanced :
    (rm : ResourceManager) (required : Resources) (held : List Resources)
    → IsProper required
    → Balanced rm held
    → Resources.can_satisfy rm.available required ≡ true
    → ((try_allocate rm required).1.total ≡ rm.total)
      × Balanced (try_allocate rm required).1 (required ∷ held)
unfolding try_allocate
granted-Balanced rm required held u b fits = rw fits (refl, allocated rm required held u b fits)

pub allocate-Balanced :
    (rm : ResourceManager) (required : Resources) (held : List Resources)
    → IsProper required
    → Balanced rm held
    → Allocation rm required held (try_allocate rm required)
unfolding try_allocate
allocate-Balanced rm required held u b =
    elim (Bool-cases (Resources.can_satisfy rm.available required)) [
      | inl fits ↦ rw fits (inl (refl, refl, allocated rm required held u b fits))
      | inr short ↦ rw short (inr (refl, refl))
    ]

pub holding-append :
    (name : String) (xs ys : List Resources)
    → holding name (xs ++ ys) ≡ holding name xs +ℤ holding name ys
unfolding holding
holding-append name [] ys = omega int_laws
holding-append name (x ∷ xs) ys = rw (holding-append name xs ys) (+ℤ_assoc' _ _ _)

swap_in : (a x q y : ℤ) → a +ℤ (x +ℤ (q +ℤ y)) ≡ a +ℤ q +ℤ (x +ℤ y)
swap_in a x q y = omega int_laws

pub release-Balanced :
    (rm : ResourceManager) (q : Resources) (xs ys : List Resources)
    → IsProper q
    → Balanced rm (xs ++ q ∷ ys)
    → Balanced (release rm q) (xs ++ ys)
unfolding release holding
release-Balanced rm q xs ys u b name =
    b name
    ∙ rw (holding-append name xs (q ∷ ys), holding-append name xs ys, get-add rm.available q name u)
        (swap_in _ _ _ _)

-- No quantity is negative.
abbrev pub NonNegative : Resources → Type 0
NonNegative r = (name : String) → pos 0 ≤ℤ Resources.get r name

floor0_nonneg : (x : ℤ) → pos 0 ≤ℤ floor0 x
floor0_nonneg x = ground arith

subtract-NonNegative :
    (r o : Resources) → IsProper o → NonNegative r → NonNegative (Resources.subtract r o)
subtract-NonNegative r o u h name = rw (get-subtract r o name u) (cases (HashMap.get o.map name))
  where
    cases : (found : Option ℤ) → pos 0 ≤ℤ minus found (Resources.get r name)
    cases none = h name
    cases (some q) = floor0_nonneg (Resources.get r name -ℤ q)

pub allocate-NonNegative :
    (rm : ResourceManager) (required : Resources)
    → IsProper required
    → NonNegative rm.available
    → NonNegative (try_allocate rm required).1.available
unfolding try_allocate
allocate-NonNegative rm required u h =
    elim (Bool-cases (Resources.can_satisfy rm.available required)) [
      | inl fits ↦ rw fits (subtract-NonNegative rm.available required u h)
      | inr short ↦ rw short h
    ]

pub release-NonNegative :
    (rm : ResourceManager) (q : Resources)
    → IsProper q
    → NonNegative q
    → NonNegative rm.available
    → NonNegative (release rm q).available
unfolding release
release-NonNegative rm q u n h name =
    rw (get-add rm.available q name u) (sum_nonneg _ _ (h name) (n name))
  where
    sum_nonneg : (a b : ℤ) → pos 0 ≤ℤ a → pos 0 ≤ℤ b → pos 0 ≤ℤ a +ℤ b
    sum_nonneg a b ha hb = omega int_laws

at_most : (t a h : ℤ) → t ≡ a +ℤ h → pos 0 ≤ℤ a → h ≤ℤ t
at_most t a h e p = rw e (omega int_laws)

-- With balanced books and nothing negative available, no resource is held beyond the total.
pub holding-le-total :
    (rm : ResourceManager) (held : List Resources)
    → Balanced rm held
    → NonNegative rm.available
    → (name : String) → holding name held ≤ℤ Resources.get rm.total name
holding-le-total rm held b h name = at_most _ _ _ (b name) (h name)
