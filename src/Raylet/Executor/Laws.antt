-- ===== src/Raylet/Executor/Laws.antt =====
-- Registration and execution in crates/ray-raylet/src/executor.rs.
use ray_rust.Common.{
  ℕ, String, List, ◌≡◌, ap, some, inl, inr, Option-cases, ◌==◌, string_eq, if◌then◌else◌, arith,
}
use ray_rust.Common.HashMap.Laws.{get-insert, get-remove}
use ray_rust.Common.HashMap
use ray_rust.Core.Error.{ok, err, task_failed}
use ray_rust.Core.Types.{TaskSpec}
use ray_rust.Raylet.Executor.{
  FunctionRegistryExecutor, TaskFn, FnOutcome, returns, panics, register_fn, unregister_fn,
  join_blocking, execute,
}

-- A task runs the function that was registered last under its name, a panic being the error
-- `TaskFailed`; after the name is unregistered it fails; and neither call matters to a task that
-- names another function.
pub execute_registered :
    (x : FunctionRegistryExecutor) (name : String) (f : TaskFn) (task : TaskSpec)
    → (execute (register_fn x name f) task ≡ (
        if name == task.function_name
        then join_blocking (f task.function_payload)
        else execute x task))
      × (execute (unregister_fn x name) task
          ≡ (if name == task.function_name then err task_failed else execute x task))
unfolding execute register_fn unregister_fn
execute_registered x name f task = (
  ground (arith, get-insert x.fns name f task.function_name),
  ground (arith, get-remove x.fns name task.function_name),
)

outcome_ok : (o : FnOutcome) (bytes : List ℕ) → join_blocking o ≡ ok bytes → o ≡ returns (ok bytes)
unfolding join_blocking
outcome_ok (returns r) bytes h = ap returns h
outcome_ok panics bytes h = cc

-- A result is one that the registered function gave.
pub executed :
    (x : FunctionRegistryExecutor) (spec : TaskSpec) (bytes : List ℕ)
    → execute x spec ≡ ok bytes
    → (f : TaskFn) × (HashMap.get x.fns spec.function_name ≡ some f)
      × (f spec.function_payload ≡ returns (ok bytes))
unfolding execute
executed x spec bytes h = elim (Option-cases (HashMap.get x.fns spec.function_name)) [
  | inl missing ↦ ground arith
  | inr (f, there) ↦ (f, there, outcome_ok (f spec.function_payload) bytes (rw there at h))
]
