-- ===== src/Common/Membership.antt =====
-- Membership in a list, and what a filter keeps.
use mathlib.Core.Path.{◌≡◌, refl, sym, subst}
use mathlib.Core.Logic.{◌⊎◌, inl, inr}
use mathlib.Core.Bool.{Bool, true, false}
use mathlib.Core.List.{List, [], ◌∷◌}
use native.Mathlib.Omega.{arith}
use ray_rust.Common.Tests.{Bool-cases}
use ray_rust.Common.Lists.{keep, All, All-map}

pub true_ne_false : {b : Bool} → b ≡ true → b ≡ false → ⊥
true_ne_false h k = ground arith

module _ {A : Type 0} where
  keep_hit : (p : A → Bool) (x : A) (xs : List A) → p x ≡ true → keep p (x ∷ xs) ≡ x ∷ keep p xs
  keep_hit p x xs h = rw h refl

  keep_miss : (p : A → Bool) (x : A) (xs : List A) → p x ≡ false → keep p (x ∷ xs) ≡ keep p xs
  keep_miss p x xs h = rw h refl

  -- Membership, as one equation per place.
  abbrev pub In : A → List A → Type 0
  In a [] = ⊥
  In a (x ∷ xs) = (a ≡ x) ⊎ In a xs

  pub All-In {κ} : (P : A → Type κ) (xs : List A) (a : A) → All P xs → In a xs → P a
  All-In P [] a h i = absurd i
  All-In P (x ∷ xs) a h (inl e) = rw e h.0
  All-In P (x ∷ xs) a h (inr i) = All-In P xs a h.1 i

  pub In-keep : (p : A → Bool) (xs : List A) (a : A) → In a (keep p xs) → (p a ≡ true) × In a xs
  In-keep p [] a i = absurd i
  In-keep p (x ∷ xs) a i = elim (Bool-cases (p x)) [
    | inr fails ↦
        let (e, there) = In-keep p xs a (rw (sym (keep_miss p x xs fails)) i) in (e, inr there)
    | inl passes ↦ here passes (In-keep p xs a) (subst (λ l. In a l) (keep_hit p x xs passes) i)
  ]
    where
      here :
          p x ≡ true
          → (In a (keep p xs) → (p a ≡ true) × In a xs)
          → (a ≡ x) ⊎ In a (keep p xs)
          → (p a ≡ true) × In a (x ∷ xs)
      here passes f (inl e) = (rw e passes, inl e)
      here passes f (inr j) = let (e, there) = f j in (e, inr there)

  -- What holds of the entries that a filter keeps holds of all that pass.
  pub All-keep_inv {κ} :
      (P : A → Type κ) (p : A → Bool) (xs : List A)
      → All P (keep p xs)
      → All (λ a. p a ≡ true → P a) xs
  All-keep_inv P p [] h = tt
  All-keep_inv P p (x ∷ xs) h = elim (Bool-cases (p x)) [
    | inr fails ↦ (
      λ h'. absurd (true_ne_false h' fails),
      All-keep_inv P p xs (rw (sym (keep_miss p x xs fails)) h),
    )
    | inl passes ↦
        let hit : All P (x ∷ keep p xs) = subst (λ l. All P l) (keep_hit p x xs passes) h in
        (λ _. hit.0, All-keep_inv P p xs hit.1)
  ]

  pub All-In_self : (xs : List A) → All (λ a. In a xs) xs
  All-In_self [] = tt
  All-In_self (x ∷ xs) =
      (inl refl, All-map (λ a. In a xs) (λ a. In a (x ∷ xs)) xs (λ _ i. inr i) (All-In_self xs))
