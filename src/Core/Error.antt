-- ===== src/Core/Error.antt =====
-- crates/ray-core/src/error.rs. An error is its variant: the text that a variant carries is
-- formatted for people, and no code reads it back.
use ray_rust.Common.{◌≡◌, refl, ◌⊎◌, inl, inr, Bool, true, false, Option, none, some}

pub data RayError : Type 0 where
  object_not_found object_already_exists : RayError
  task_failed task_not_found : RayError
  actor_not_found actor_died : RayError
  node_not_found : RayError
  insufficient_resources scheduling_failed : RayError
  serialization_error deserialization_error : RayError
  shared_memory_error timeout transport gcs_error internal io other : RayError

pub data RayResult {ℓ} (A : Type ℓ) : Type ℓ where
  ok : A → RayResult A
  err : RayError → RayResult A

infixl 5 ◌>>=◌
abbrev pub ◌>>=◌ {ℓ κ} : {A : Type ℓ} {B : Type κ} → RayResult A → (A → RayResult B) → RayResult B
ok a >>= f = f a
err e >>= f = err e

pub RayResult-cases {ℓ} :
    {A : Type ℓ} → (r : RayResult A) → ((a : A) × (r ≡ ok a)) ⊎ ((e : RayError) × (r ≡ err e))
RayResult-cases (ok a) = inl (a, refl)
RayResult-cases (err e) = inr (e, refl)

-- `ok_or_else`
abbrev pub ok_or {ℓ} : {A : Type ℓ} → Option A → RayError → RayResult A
ok_or none e = err e
ok_or (some a) e = ok a

-- `is_ok`
abbrev pub is_ok {ℓ} : {A : Type ℓ} → RayResult A → Bool
is_ok (ok a) = true
is_ok (err e) = false

-- `unwrap_or` of a result
abbrev pub ok_unwrap_or {ℓ} : {A : Type ℓ} → RayResult A → A → A
ok_unwrap_or (ok a) d = a
ok_unwrap_or (err e) d = d
