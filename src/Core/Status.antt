-- ===== src/Core/Status.antt =====
-- `tonic::Status`, as far as the servers build it: a code, and for `internal` the error whose text
-- it carries. `Reply` is the result of a handler.
use ray_rust.Common.{Option, none, some}
use ray_rust.Core.Error.{RayError, RayResult, ok as done, err as failed}

pub data Status : Type 0 where
  invalid_argument not_found : Status
  internal : RayError → Status

pub data Reply {ℓ} (A : Type ℓ) : Type ℓ where
  ok : A → Reply A
  err : Status → Reply A

infixl 5 ◌>>=◌
abbrev pub ◌>>=◌ {ℓ κ} : {A : Type ℓ} {B : Type κ} → Reply A → (A → Reply B) → Reply B
ok a >>= f = f a
err e >>= f = err e

-- `.ok_or_else(|| Status::invalid_argument(..))`
abbrev pub required {ℓ} : {A : Type ℓ} → Option A → Reply A
required none = err invalid_argument
required (some a) = ok a

-- `.map_err(|e| Status::internal(..))`
abbrev pub or_internal {ℓ} : {A : Type ℓ} → RayResult A → Reply A
or_internal (done a) = ok a
or_internal (failed e) = err (internal e)

-- `.map_err(|e| Status::invalid_argument(..))`
abbrev pub or_invalid {ℓ} : {A : Type ℓ} → RayResult A → Reply A
or_invalid (done a) = ok a
or_invalid (failed e) = err invalid_argument
