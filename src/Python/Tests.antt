-- ===== src/Python/Tests.antt =====
-- The theorems about the Python module at concrete values.
use ray_rust.Common.{
  ℕ, ◌*◌, ◌≡◌, refl, true, false, not, some, none, List, [], ◌∷◌, keep, replicate, if◌then◌else◌,
  arith,
}
use ray_rust.Common.Decimal.{char_codes, decimal}
use ray_rust.Common.HashMap
use ray_rust.Common.Int.{pos}
use ray_rust.Core.Id
use ray_rust.Core.Id.{id_eq}
use ray_rust.Core.Id.Hex.{encode}
use ray_rust.ObjectStore
use ray_rust.ObjectStore.{InMemoryObjectStore, commit, get_entry, total_size}
use ray_rust.ObjectStore.Polling.{as_u64}
use ray_rust.Python.{
  Globals, at_import, returned, raised, runtime_already_set, no_runtime, PyObjectRef, get_runtime,
  get_object_store, py_init, py_is_initialized, py_put, py_get, py_wait, ref_repr, result_repr,
  id_of,
}
use ray_rust.Python.Lifecycle.{Call, inits, shuts_down, puts, step, run, never_restarts}
use ray_rust.Python.Objects.{IsReady, answer, is_stored, py_get_lem, py_wait_lem, py_get-py_put}

repr_of_ref :
    ref_repr (record { object_id = 0 ∷ 255 ∷ 16 ∷ 7 ∷ 9 ∷ [] }) ≡ char_codes "ObjectRef(00ff1007)"
unfolding ref_repr encode
repr_of_ref = refl

repr_of_result :
    result_repr (record { success = true; bytes = some (replicate 120 0); error = none })
    ≡ char_codes "TaskResult(success, data_len=120)"
unfolding result_repr decimal
repr_of_result = refl

repr_of_failure :
    result_repr (record { success = false; bytes = none; error = none })
    ≡ char_codes "TaskResult(failed: unknown)"
unfolding result_repr
repr_of_failure = refl

abbrev some_store : InMemoryObjectStore
some_store = commit (ObjectStore.new 2147483648) (Id.new 28 (replicate 16 1)) (3 ∷ 4 ∷ []) 5

abbrev some_globals : Globals
some_globals = record { runtime_set = true; object_store = some some_store; initialized = true }

some_globals-IsReady : IsReady some_globals some_store
some_globals-IsReady = record { set = refl; stored = refl }

abbrev every_ten : ℕ → ℕ
every_ten i = 10 * i

abbrev some_ref : PyObjectRef
some_ref = record { object_id = Id.to_vec (Id.new 28 (replicate 16 1)) }

abbrev lost_ref : PyObjectRef
lost_ref = record { object_id = replicate 28 2 }

py_get_lem_example :
    py_get some_globals every_ten 0 lost_ref (pos 100) 12
    ≡ some (answer (get_entry some_store (id_of lost_ref)))
unfolding as_u64
py_get_lem_example =
    py_get_lem some_globals some_store every_ten 0 lost_ref (pos 100) 12 some_globals-IsReady
      (λ i. omega arith) (omega arith) (omega arith)

py_wait_lem_example :
    let refs = lost_ref ∷ some_ref ∷ [] in
    py_wait some_globals every_ten 0 refs (pos 1) (pos 100) 12
    ≡ some
        (returned (keep (is_stored some_store) refs, keep (λ r. not (is_stored some_store r)) refs))
unfolding as_u64
py_wait_lem_example =
    py_wait_lem some_globals some_store every_ten 0 (lost_ref ∷ some_ref ∷ []) (pos 1) (pos 100) 12
      some_globals-IsReady (λ i. omega arith) (omega arith) (omega arith)

py_get-py_put_example :
    let r : PyObjectRef = record { object_id = Id.to_vec (Id.new 28 (replicate 16 7)) } in
    let g' = (py_put some_globals (8 ∷ []) (replicate 16 7) 6).1 in
    ((py_put some_globals (8 ∷ []) (replicate 16 7) 6).0 ≡ returned r)
    × (py_get g' every_ten 0 r (pos 100) 12 ≡ some (returned (8 ∷ [])))
    × (py_get g' every_ten 0 some_ref (pos 100) 12
        ≡ py_get some_globals every_ten 0 some_ref (pos 100) 12)
unfolding as_u64 total_size commit ObjectStore.new HashMap.insert id_of Id.new Id.from_vec
    Id.from_slice Id.to_vec
py_get-py_put_example =
    py_get-py_put some_globals some_store (8 ∷ []) (replicate 16 7) 6 every_ten 0 some_ref (pos 100)
      12 some_globals-IsReady refl refl (λ i. omega arith) (omega arith) (omega arith)

abbrev before : List Call
before = inits true ∷ puts (1 ∷ []) (replicate 16 3) 1 ∷ []

abbrev after : List Call
after = inits true ∷ puts (2 ∷ []) (replicate 16 4) 2 ∷ []

is_up : py_is_initialized (run at_import before) ≡ returned true
unfolding run step py_init py_put py_is_initialized at_import get_runtime get_object_store
is_up = refl

never_restarts_example :
    let g = run (step (run at_import before) shuts_down) after in
    (py_is_initialized g ≡ returned false)
    × (py_init g true ≡ (if true then raised runtime_already_set else raised no_runtime, g))
never_restarts_example = never_restarts before after true is_up
