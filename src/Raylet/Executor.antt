-- ===== src/Raylet/Executor.antt =====
-- crates/ray-raylet/src/executor.rs. A registered function is a Rust closure, of which only its
-- outcomes are seen: a result, or a panic that the blocking thread reports.
pub mod Laws
use ray_rust.Common.{ℕ, String, Bool, Option, none, some, List, string_eq}
use ray_rust.Common.HashMap
use ray_rust.Common.HashMap.{HashMap}
use ray_rust.Core.Error.{RayResult, ok, err, task_failed, ok_or, ◌>>=◌}
use ray_rust.Core.Types.{TaskSpec}

pub data FnOutcome : Type 0 where
  returns : RayResult (List ℕ) → FnOutcome
  panics : FnOutcome

abbrev pub TaskFn : Type 0
TaskFn = List ℕ → FnOutcome

pub record FunctionRegistryExecutor : Type 0 where
  pub fns : HashMap String TaskFn

unfoldable pub new : FunctionRegistryExecutor
new = record { fns = HashMap.empty }

unfoldable pub register_fn : FunctionRegistryExecutor → String → TaskFn → FunctionRegistryExecutor
register_fn x name f = record { fns = HashMap.insert x.fns name f }

unfoldable pub unregister_fn : FunctionRegistryExecutor → String → FunctionRegistryExecutor
unregister_fn x name = record { fns = HashMap.remove x.fns name }

unfoldable pub has_fn : FunctionRegistryExecutor → String → Bool
has_fn x name = HashMap.contains_key x.fns name

-- `spawn_blocking(..).await.map_err(..)??`
unfoldable pub join_blocking : FnOutcome → RayResult (List ℕ)
join_blocking (returns r) = r
join_blocking panics = err task_failed

unfoldable pub execute : FunctionRegistryExecutor → TaskSpec → RayResult (List ℕ)
execute x task_spec = do
  f ← ok_or (HashMap.get x.fns task_spec.function_name) task_failed
  join_blocking (f task_spec.function_payload)

-- `LocalExecutor`: the payload comes back.
unfoldable pub execute_local : TaskSpec → RayResult (List ℕ)
execute_local task_spec = ok task_spec.function_payload
