-- ===== src/Python/Lifecycle.antt =====
-- Starting and stopping the Python module (crates/ray-py/src/runtime.rs).
use mathlib.Core.Path.{subst}
use ray_rust.Common.{
  sym, ℕ, ◌≡◌, refl, ap, Bool, true, false, List, [], ◌∷◌, if◌then◌else◌, arith, Option-cases, inl,
  inr,
}
use ray_rust.Core.Id
use ray_rust.ObjectStore.{InMemoryObjectStore}
use ray_rust.Python.{
  Globals, at_import, PyResult, returned, raised, runtime_already_set, no_runtime, py_init,
  set_runtime, set_store, py_shutdown, py_is_initialized, py_put, put_into, get_runtime,
  get_object_store, ◌>>=◌,
}

-- What a program calls.
pub data Call : Type 0 where
  inits : Bool → Call
  shuts_down : Call
  puts : List ℕ → List ℕ → ℕ → Call

unfoldable pub step : Globals → Call → Globals
step g (inits started) = (py_init g started).1
step g shuts_down = (py_shutdown g).1
step g (puts bytes uuid_bytes now) = (py_put g bytes uuid_bytes now).1

unfoldable pub run : Globals → List Call → Globals
run g [] = g
run g (c ∷ cs) = run (step g c) cs

-- Stopped for good: the runtime's cell is taken and the flag is down.
record IsStopped (g : Globals) : Type 0 where
  set : g.runtime_set ≡ true
  down : g.initialized ≡ false

put_into-same :
    (g : Globals) (found : PyResult InMemoryObjectStore) (id : Id.ObjectId) (bytes : List ℕ)
    (now : ℕ)
    → let g' = (put_into g found id bytes now).1 in
      (g'.runtime_set ≡ g.runtime_set) × (g'.initialized ≡ g.initialized)
unfolding put_into
put_into-same g (raised e) id bytes now = (refl, refl)
put_into-same g (returned s) id bytes now = (refl, refl)

init_stopped :
    (g : Globals) (started : Bool)
    → IsStopped g
    → py_init g started ≡ (if started then raised runtime_already_set else raised no_runtime, g)
unfolding py_init set_runtime
init_stopped g true h = ground (arith, h.set, h.down)
init_stopped g false h = ground (arith, h.set, h.down)

step-IsStopped : (g : Globals) (c : Call) → IsStopped g → IsStopped (step g c)
unfolding step py_shutdown py_put
step-IsStopped g (inits started) h = subst (λ p. IsStopped p.1) (sym (init_stopped g started h)) h
step-IsStopped g shuts_down h = record { set = h.set; down = refl }
step-IsStopped g (puts bytes uuid_bytes now) h =
    let found = get_runtime g >>= λ _. get_object_store g in
    let same = put_into-same g found (Id.new _ uuid_bytes) bytes now in
    record { set = rw same.0 h.set; down = rw same.1 h.down }

run-IsStopped : (g : Globals) (cs : List Call) → IsStopped g → IsStopped (run g cs)
unfolding run
run-IsStopped g [] h = h
run-IsStopped g (c ∷ cs) h = run-IsStopped (step g c) cs (step-IsStopped g c h)

-- The flag is up only once the runtime's cell is taken.
abbrev IsFlagged : Globals → Type 0
IsFlagged g = g.initialized ≡ true → g.runtime_set ≡ true

init-IsFlagged : (g : Globals) (started : Bool) → IsFlagged g → IsFlagged (py_init g started).1
unfolding py_init set_runtime set_store
init-IsFlagged g started h = elim (Option-cases g.object_store) [
  | inl absent ↦ λ e. ground (arith, h, absent)
  | inr (s, there) ↦ λ e. ground (arith, h, there)
]

step-IsFlagged : (g : Globals) (c : Call) → IsFlagged g → IsFlagged (step g c)
unfolding step py_shutdown py_put
step-IsFlagged g (inits started) h = init-IsFlagged g started h
step-IsFlagged g shuts_down h = λ e. cc
step-IsFlagged g (puts bytes uuid_bytes now) h =
    let found = get_runtime g >>= λ _. get_object_store g in
    let same = put_into-same g found (Id.new _ uuid_bytes) bytes now in
    λ e. rw same.0 (h (rw same.1 at e))

run-IsFlagged : (g : Globals) (cs : List Call) → IsFlagged g → IsFlagged (run g cs)
unfolding run
run-IsFlagged g [] h = h
run-IsFlagged g (c ∷ cs) h = run-IsFlagged (step g c) cs (step-IsFlagged g c h)

stops :
    (g : Globals)
    → IsFlagged g
    → py_is_initialized g ≡ returned true
    → IsStopped (step g shuts_down)
unfolding step py_shutdown py_is_initialized
stops g h up = record {
  set = h (ap (λ r. elim r [ returned b ↦ b | raised e ↦ false ]) up);
  down = refl;
}

-- After a shutdown of the initialized module, whatever is called before and after it, the module is
-- never initialized again in the same process: `init` raises, whether or not a new asynchronous
-- runtime can be made, and changes nothing.
pub never_restarts :
    (before after : List Call) (started : Bool)
    → py_is_initialized (run at_import before) ≡ returned true
    → let g = run (step (run at_import before) shuts_down) after in
      (py_is_initialized g ≡ returned false)
      × (py_init g started ≡ (if started then raised runtime_already_set else raised no_runtime, g))
unfolding py_is_initialized at_import
never_restarts before after started up =
    let stopped =
      run-IsStopped (step (run at_import before) shuts_down) after
        (stops (run at_import before) (run-IsFlagged at_import before fresh) up) in
    (ap returned stopped.down, init_stopped _ started stopped)
  where
    fresh : IsFlagged at_import
    fresh e = cc
