-- ===== src/Runtime.antt =====
-- crates/ray-runtime/src/lib.rs: the runtime of one process. The scheduler's channel is a queue of
-- commands, of which its event loop takes the oldest; the channel is never closed, since the event
-- loop ends only with the runtime. The bytes of fresh identifiers and the clock are arguments.
pub mod Delivery
pub mod Failure
pub mod Traces
pub mod Origins
pub mod Permanence
mod Tests
use ray_rust.Common.{
  ℕ, suc, ◌*◌, String, Option, none, some, List, [], ◌∷◌, ◌++◌, take, drop, get_elem?, unwrap_or,
  string_eq,
}
use ray_rust.Common.Cells.{get_or}
use ray_rust.Common.Int.{ℤ, pos}
use ray_rust.Core.Error.{RayResult, ok, err}
use ray_rust.Core.Id
use ray_rust.Core.Id.{ObjectId, TaskId, NodeId, WorkerId, id_eq}
use ray_rust.Core.Resources
use ray_rust.Core.Types.{TaskSpec, TaskStatus}
use ray_rust.Gcs.Store
use ray_rust.Gcs.Store.{InMemoryGcsStore}
use ray_rust.ObjectStore
use ray_rust.ObjectStore.Polling
use ray_rust.ObjectStore.Polling.{Schedule}
use ray_rust.Raylet.Executor
use ray_rust.Raylet.Executor.{FunctionRegistryExecutor, TaskFn}
use ray_rust.Raylet.ResourceManager
use ray_rust.Raylet.Scheduler
use ray_rust.Raylet.Scheduler.{
  Command, Node, Job, spawned, executing, start_node, process, start_at, finish_at, status,
}
use ray_rust.Raylet.Worker

pub record RuntimeConfig : Type 0 where
  pub num_cpus : ℕ
  pub max_workers : ℕ
  pub object_store_memory : ℕ

-- `available_parallelism` is the argument; without an answer the number of processors is four.
unfoldable pub default_config : Option ℕ → RuntimeConfig
default_config available_parallelism =
    let num_cpus = unwrap_or available_parallelism 4 in
    record { num_cpus = num_cpus; max_workers = num_cpus * 2; object_store_memory = 0 }

-- The resource manager, the worker pool and the object store are those of the scheduler's node,
-- which shares them with the runtime. `earlier` has the registries that the executor had before,
-- the last one first: a task that is running may have looked up its function in one of them.
pub record LocalRuntime : Type 0 where
  pub gcs : InMemoryGcsStore
  pub node : Node
  pub channel : List Command
  pub executor : FunctionRegistryExecutor
  pub earlier : List FunctionRegistryExecutor
  pub node_id : NodeId

unfoldable pub new : RuntimeConfig → List ℕ → RayResult LocalRuntime
new config uuid_bytes = ok (record {
  gcs = Store.new;
  node =
      start_node (ResourceManager.new (Resources.set Resources.new "CPU" (pos config.num_cpus)))
        (Worker.new config.max_workers) (ObjectStore.new config.object_store_memory);
  channel = [];
  executor = Executor.new;
  earlier = [];
  node_id = Id.new _ uuid_bytes;
})

-- `cmd_tx.send`
unfoldable pub send : LocalRuntime → Command → RayResult (Unit {0}) × LocalRuntime
send rt c = (ok tt, record rt { channel = rt.channel ++ c ∷ [] })

unfoldable pub submit_task : LocalRuntime → TaskSpec → RayResult (Unit {0}) × LocalRuntime
submit_task rt spec = send rt (Command.submit_task spec)

-- The random bytes of the three identifiers of one submission.
pub record FreshBytes : Type 0 where
  pub return_bytes : List ℕ
  pub task_bytes : List ℕ
  pub job_bytes : List ℕ

unfoldable pub fn_spec : String → List ℕ → FreshBytes → TaskSpec
fn_spec function_name payload fresh = record {
  task_id = Id.new _ fresh.task_bytes;
  job_id = Id.new _ fresh.job_bytes;
  function_name = function_name;
  function_payload = payload;
  return_ids = Id.new _ fresh.return_bytes ∷ [];
  dependency_ids = [];
  required_resources = Resources.set Resources.new "CPU" (pos 1);
  max_retries = pos 0;
}

-- `self.scheduler.submit_task(spec).await?; Ok(return_id)`
unfoldable pub answer_id :
    RayResult (Unit {0}) × LocalRuntime → ObjectId → RayResult ObjectId × LocalRuntime
answer_id (ok _, rt) return_id = (ok return_id, rt)
answer_id (err e, rt) return_id = (err e, rt)

unfoldable pub submit_fn :
    LocalRuntime → String → List ℕ → FreshBytes → RayResult ObjectId × LocalRuntime
unfolding answer_id
submit_fn rt function_name payload fresh =
    answer_id (submit_task rt (fn_spec function_name payload fresh)) (Id.new _ fresh.return_bytes)

-- What a call that waits sees: the runtime in each of its rounds, and the clock.
unfoldable pub rounds_of : (ℕ → LocalRuntime) → (ℕ → ℕ) → Schedule
rounds_of history clock i = record {
  objects = (history i).node.object_store.objects;
  now = clock i;
}

unfoldable pub get_object :
    (ℕ → LocalRuntime) → (ℕ → ℕ) → ℕ → ObjectId → ℤ → ℕ → Option (RayResult (List ℕ))
get_object history clock start id timeout_ms fuel =
    Polling.get (rounds_of history clock) start id timeout_ms fuel

unfoldable pub put_object : LocalRuntime → List ℕ → List ℕ → ℕ → RayResult ObjectId × LocalRuntime
unfolding answer_id
put_object rt bytes uuid_bytes now =
    let id = Id.new _ uuid_bytes in
    let (result, s) = ObjectStore.put rt.node.object_store id bytes now in
    answer_id (result, record rt { node = record rt.node { object_store = s } }) id

unfoldable pub cancel_task : LocalRuntime → TaskId → RayResult (Unit {0}) × LocalRuntime
cancel_task rt task_id = send rt (Command.cancel_task task_id)

-- The event loop takes the oldest command.
unfoldable pub take_command : LocalRuntime → List Command → LocalRuntime
take_command rt [] = rt
take_command rt (c ∷ rest) = record rt { node = process rt.node c; channel = rest }

-- The event loop handles what is in the channel, in order.
unfoldable pub handle_all : LocalRuntime → List Command → LocalRuntime
handle_all rt [] = record rt { channel = [] }
handle_all rt (c ∷ rest) = handle_all (record rt { node = process rt.node c }) rest

-- The question is answered when the commands before it are done, and the runtime is the one after.
unfoldable pub get_task_status : LocalRuntime → TaskId → RayResult TaskStatus × LocalRuntime
get_task_status rt task_id =
    let rt' = handle_all rt rt.channel in
    (status rt'.node task_id, record rt' { node = process rt'.node (Command.get_status task_id) })

unfoldable pub register_function : LocalRuntime → String → TaskFn → LocalRuntime
register_function rt name f = record rt {
  executor = Executor.register_fn rt.executor name f;
  earlier = rt.executor ∷ rt.earlier;
}

unfoldable pub unregister_function : LocalRuntime → String → LocalRuntime
unregister_function rt name = record rt {
  executor = Executor.unregister_fn rt.executor name;
  earlier = rt.executor ∷ rt.earlier;
}

-- The registry as it was so many changes ago.
unfoldable pub registry : LocalRuntime → ℕ → FunctionRegistryExecutor
registry rt age = get_or (rt.executor ∷ rt.earlier) age rt.executor

-- A dispatched task ends with what the executor answers for it, which looked up its function when
-- the registry was `age` changes younger.
unfoldable pub end_job : LocalRuntime → ℕ → Option Job → ℕ → ℕ → LocalRuntime
end_job rt i none age now = rt
end_job rt i (some job) age now = record rt {
  node = finish_at rt.node i (some job) (Executor.execute (registry rt age) job.spec) now;
}

-- What happens in the process: the calls of its client, a round of the event loop, and the `i`-th
-- dispatched task that takes a worker or ends: `ends i age now`. The call `get_task_status` is
-- either its question alone, which waits in the channel for a round of the event loop, or the whole
-- call up to its answer, `awaits_status`.
pub data Event : Type 0 where
  submits : TaskSpec → Event
  cancels asks_status awaits_status : TaskId → Event
  registers : String → TaskFn → Event
  unregisters : String → Event
  puts : List ℕ → List ℕ → ℕ → Event
  loops : Event
  starts : ℕ → WorkerId → ℕ → Event
  ends : ℕ → ℕ → ℕ → Event

unfoldable pub step : LocalRuntime → Event → LocalRuntime
step rt (submits spec) = (submit_task rt spec).1
step rt (cancels task_id) = (cancel_task rt task_id).1
step rt (asks_status task_id) = (send rt (Command.get_status task_id)).1
step rt (awaits_status task_id) = (get_task_status rt task_id).1
step rt (registers name f) = register_function rt name f
step rt (unregisters name) = unregister_function rt name
step rt (puts bytes uuid_bytes now) = (put_object rt bytes uuid_bytes now).1
step rt loops = take_command rt rt.channel
step rt (starts i worker_id pid) = record rt {
  node = start_at rt.node i (get_elem? rt.node.jobs i) worker_id pid;
}
step rt (ends i age now) = end_job rt i (get_elem? rt.node.jobs i) age now

unfoldable pub run : LocalRuntime → List Event → LocalRuntime
run rt [] = rt
run rt (e ∷ es) = run (step rt e) es
