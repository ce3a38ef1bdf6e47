-- ===== src/Python.antt =====
-- crates/ray-py/src/runtime.rs: the functions and classes of the Python module. The three global
-- cells are the fields of a record; of the asynchronous runtime only that its cell is set is seen,
-- for it just runs one call to its end. A function holds the interpreter lock while it waits, so
-- that no other call of Python changes the store in between. The address and the number of
-- processors are only logged; the bytes of fresh identifiers and the clock are arguments.
pub mod Objects
pub mod Lifecycle
mod Tests
use ray_rust.Common.{
  ℕ, ◌*◌, Bool, true, false, Option, none, some, List, [], ◌∷◌, ◌++◌, map, length, take, ◌==◌,
  nat_beq, list_beq, option_map, unwrap_or, if◌then◌else◌,
}
use ray_rust.Common.Decimal.{char_codes, decimal}
use ray_rust.Common.Int.{ℤ}
use ray_rust.Core.Error.{RayError, RayResult, ok, err}
use ray_rust.Core.Id
use ray_rust.Core.Id.{ObjectId}
use ray_rust.Core.Id.Hex.{encode}
use ray_rust.ObjectStore
use ray_rust.ObjectStore.{InMemoryObjectStore}
use ray_rust.ObjectStore.Polling
use ray_rust.ObjectStore.Polling.{Schedule}

-- The exception `RuntimeError`, by its cause.
pub data PyRuntimeError : Type 0 where
  not_initialized runtime_already_set object_store_already_set no_runtime : PyRuntimeError
  failed : RayError → PyRuntimeError

pub data PyResult {ℓ} (A : Type ℓ) : Type ℓ where
  returned : A → PyResult A
  raised : PyRuntimeError → PyResult A

infixl 5 ◌>>=◌
abbrev pub ◌>>=◌ {ℓ κ} : {A : Type ℓ} {B : Type κ} → PyResult A → (A → PyResult B) → PyResult B
returned a >>= f = f a
raised e >>= f = raised e

-- `.map_err(|e| PyRuntimeError::new_err(e.to_string()))`
abbrev pub or_raise {ℓ} : {A : Type ℓ} → RayResult A → PyResult A
or_raise (ok a) = returned a
or_raise (err e) = raised (failed e)

-- The global cells `RUNTIME`, `OBJECT_STORE` and `INITIALIZED`.
pub record Globals : Type 0 where
  pub runtime_set : Bool
  pub object_store : Option InMemoryObjectStore
  pub initialized : Bool

unfoldable pub at_import : Globals
at_import = record { runtime_set = false; object_store = none; initialized = false }

unfoldable pub get_runtime : Globals → PyResult (Unit {0})
get_runtime g = if g.runtime_set then returned tt else raised not_initialized

unfoldable pub get_object_store : Globals → PyResult InMemoryObjectStore
get_object_store g = elim g.object_store [ none ↦ raised not_initialized | some s ↦ returned s ]

-- `OnceLock::set` of the store, once the runtime is set, and the flag.
set_store : Globals → PyResult (Unit {0}) × Globals
set_store g = elim g.object_store [
  | some s ↦ (raised object_store_already_set, g)
  | none ↦ (
    returned tt,
    record g { object_store = some (ObjectStore.new (2 * 1024 * 1024 * 1024)); initialized = true },
  )
]

-- `OnceLock::set` of the runtime.
set_runtime : Globals → PyResult (Unit {0}) × Globals
unfolding set_store
set_runtime g =
    if g.runtime_set
    then (raised runtime_already_set, g)
    else set_store (record g { runtime_set = true })

-- `started`: whether `Runtime::new` succeeds.
unfoldable pub py_init : Globals → Bool → PyResult (Unit {0}) × Globals
unfolding set_runtime
py_init g started =
    if g.initialized
    then (returned tt, g)
    else (if started then set_runtime g else (raised no_runtime, g))

unfoldable pub py_shutdown : Globals → PyResult (Unit {0}) × Globals
py_shutdown g = (returned tt, record g { initialized = false })

unfoldable pub py_is_initialized : Globals → PyResult Bool
py_is_initialized g = returned g.initialized

pub record PyObjectRef : Type 0 where
  pub object_id : List ℕ

-- The reference to an object that is put, or the exception, and the store in its cell.
put_into :
    Globals → PyResult InMemoryObjectStore → ObjectId → List ℕ → ℕ → PyResult PyObjectRef × Globals
put_into g (raised e) object_id bytes now = (raised e, g)
put_into g (returned s) object_id bytes now =
    let (result, s') = ObjectStore.put s object_id bytes now in
    (
      or_raise result >>= (λ _. returned (record { object_id = Id.to_vec object_id })),
      record g { object_store = some s' },
    )

unfoldable pub py_put : Globals → List ℕ → List ℕ → ℕ → PyResult PyObjectRef × Globals
unfolding put_into
py_put g bytes uuid_bytes now =
    put_into g (get_runtime g >>= λ _. get_object_store g) (Id.new _ uuid_bytes) bytes now

-- The rounds of a call that waits: the store as it is, and the clock.
unfoldable pub rounds_of : InMemoryObjectStore → (ℕ → ℕ) → Schedule
rounds_of s clock i = record { objects = s.objects; now = clock i }

unfoldable pub id_of : PyObjectRef → ObjectId
id_of r = Id.from_vec _ r.object_id

unfoldable pub py_get : Globals → (ℕ → ℕ) → ℕ → PyObjectRef → ℤ → ℕ → Option (PyResult (List ℕ))
py_get g clock start object_ref timeout_ms fuel = elim (get_runtime g >>= λ _. get_object_store g) [
  | raised e ↦ some (raised e)
  | returned s ↦
      option_map or_raise (Polling.get (rounds_of s clock) start (id_of object_ref) timeout_ms fuel)
]

-- The loop over the references and their flags: those that are ready, and those that are not.
unfoldable pub split_ready :
    List PyObjectRef
    → List Bool
    → List PyObjectRef
    → List PyObjectRef
    → List PyObjectRef × List PyObjectRef
split_ready [] flags ready not_ready = (ready, not_ready)
split_ready (r ∷ refs) [] ready not_ready = (ready, not_ready)
split_ready (r ∷ refs) (true ∷ flags) ready not_ready =
    split_ready refs flags (ready ++ r ∷ []) not_ready
split_ready (r ∷ refs) (false ∷ flags) ready not_ready =
    split_ready refs flags ready (not_ready ++ r ∷ [])

unfoldable pub py_wait :
    Globals
    → (ℕ → ℕ)
    → ℕ
    → List PyObjectRef
    → ℤ
    → ℤ
    → ℕ
    → Option (PyResult (List PyObjectRef × List PyObjectRef))
py_wait g clock start object_refs num_returns timeout_ms fuel =
    elim (get_runtime g >>= λ _. get_object_store g) [
      | raised e ↦ some (raised e)
      | returned s ↦
          option_map
            (λ result. or_raise result >>= λ flags. returned (split_ready object_refs flags [] []))
            (Polling.wait (rounds_of s clock) start (map id_of object_refs) num_returns timeout_ms
              fuel)
    ]

-- `__repr__` and `__eq__` of a reference.
unfoldable pub ref_repr : PyObjectRef → List ℕ
ref_repr r = char_codes "ObjectRef(" ++ (encode (take 4 r.object_id) ++ char_codes ")")

unfoldable pub ref_eq : PyObjectRef → PyObjectRef → Bool
ref_eq r other = list_beq nat_beq r.object_id other.object_id

pub record PyTaskResult : Type 0 where
  pub success : Bool
  pub bytes : Option (List ℕ)
  pub error : Option (List ℕ)

-- `__repr__` of a result.
unfoldable pub result_repr : PyTaskResult → List ℕ
result_repr r =
    if r.success
    then char_codes "TaskResult(success, data_len="
      ++ (decimal (unwrap_or (option_map length r.bytes) 0) ++ char_codes ")")
    else char_codes "TaskResult(failed: "
      ++ (unwrap_or r.error (char_codes "unknown") ++ char_codes ")")
