-- ===== src/Raylet/Scheduler.antt =====
-- crates/ray-raylet/src/scheduler.rs. The event loop handles one command at a time and then drains
-- its queue; a dispatched task runs beside it. The node's state is a record, and what happens on
-- the node is a list of events: a command, a dispatched task that takes a worker, one that
-- finishes, and a lease that the server grants from the same resources.
pub mod Books
pub mod Statuses
pub mod Queue
pub mod Jobs
pub mod Dispatch
pub mod Tasks
pub mod Oversubscription
pub mod Steps
use ray_rust.Common.{
  ℕ, suc, Bool, true, false, not, Option, none, some, List, [], ◌∷◌, ◌++◌, keep, take, drop,
  get_elem?, ◌==◌, if◌then◌else◌,
}
use ray_rust.Common.HashMap
use ray_rust.Common.HashMap.{HashMap}
use ray_rust.Core.Error.{RayResult, ok, err, task_not_found, ok_or, ok_unwrap_or}
use ray_rust.Core.Id.{TaskId, WorkerId, id_eq}
use ray_rust.Core.Resources.{Resources}
use ray_rust.Core.Types.{TaskStatus, TaskSpec}
use ray_rust.ObjectStore
use ray_rust.ObjectStore.{InMemoryObjectStore}
use ray_rust.Raylet.ResourceManager
use ray_rust.Raylet.ResourceManager.{ResourceManager}
use ray_rust.Raylet.Worker
use ray_rust.Raylet.Worker.{WorkerHandle, WorkerPool}

-- `get_status` answers through its own channel: see `status`.
pub data Command : Type 0 where
  submit_task : TaskSpec → Command
  cancel_task get_status : TaskId → Command

-- How far a dispatched task is: about to ask for a worker, or executing, with the worker that it
-- got or with none.
pub data Phase : Type 0 where
  spawned : Phase
  executing : Option WorkerHandle → Phase

pub record Job : Type 0 where
  pub spec : TaskSpec
  pub phase : Phase

pub record Node : Type 0 where
  pub resource_manager : ResourceManager
  pub task_statuses : HashMap TaskId TaskStatus
  pub pending_queue : List TaskSpec
  pub jobs : List Job
  pub worker_pool : WorkerPool
  pub object_store : InMemoryObjectStore

unfoldable pub start_node : ResourceManager → WorkerPool → InMemoryObjectStore → Node
start_node resource_manager worker_pool object_store = record {
  resource_manager = resource_manager;
  task_statuses = HashMap.empty;
  pending_queue = [];
  jobs = [];
  worker_pool = worker_pool;
  object_store = object_store;
}

unfoldable pub set_status : Node → TaskId → TaskStatus → Node
set_status n task_id status = record n {
  task_statuses = HashMap.insert n.task_statuses task_id status;
}

unfoldable pub dispatch_task : Node → TaskSpec → Node
dispatch_task n spec = record n { jobs = n.jobs ++ record { spec = spec; phase = spawned } ∷ [] }

-- `try_allocate(..).unwrap_or(false)`, and the node that it leaves.
unfoldable pub allocate : Node → TaskSpec → Bool × Node
allocate n spec =
    let (result, rm) = ResourceManager.try_allocate n.resource_manager spec.required_resources in
    (ok_unwrap_or result false, record n { resource_manager = rm })

-- A task that got its resources.
unfoldable pub run_task : Node → TaskSpec → Node
run_task n spec = dispatch_task (set_status n spec.task_id TaskStatus.running) spec

unfoldable pub submit : Bool × Node → TaskSpec → Node
submit (true, n) spec = run_task n spec
submit (false, n) spec =
    let n' = set_status n spec.task_id TaskStatus.pending in
    record n' { pending_queue = n'.pending_queue ++ spec ∷ [] }

unfoldable pub cancel : Node → TaskId → Node
cancel n task_id = record n {
  task_statuses = HashMap.modify n.task_statuses task_id (λ _. TaskStatus.cancelled);
  pending_queue = keep (λ s. not (s.task_id == task_id)) n.pending_queue;
}

unfoldable pub status : Node → TaskId → RayResult TaskStatus
status n task_id = ok_or (HashMap.get n.task_statuses task_id) task_not_found

unfoldable pub handle : Node → Command → Node
handle n (submit_task spec) = submit (allocate n spec) spec
handle n (cancel_task task_id) = cancel n task_id
handle n (get_status task_id) = n

-- The queue is gone through once, in order; what does not fit is kept.
unfoldable pub drain_one : Bool × Node → TaskSpec → List TaskSpec → Node × List TaskSpec
drain_one (true, n) spec still_pending = (run_task n spec, still_pending)
drain_one (false, n) spec still_pending = (n, still_pending ++ spec ∷ [])

unfoldable pub drain_loop : Node → List TaskSpec → List TaskSpec → Node
drain_loop n [] still_pending = record n { pending_queue = still_pending }
drain_loop n (spec ∷ rest) still_pending =
    let (n', still) = drain_one (allocate n spec) spec still_pending in drain_loop n' rest still

unfoldable pub drain : Node → Node
drain n = drain_loop n n.pending_queue []

-- One round of the event loop, from a command to the next, with nothing in between: no task that ends
-- while the queue is drained.
unfoldable pub process : Node → Command → Node
process n c = drain (handle n c)

-- A spawned task asks the pool for a worker; it goes on also if it gets none.
unfoldable pub start_job : Node → List Job → TaskSpec → List Job → WorkerId → ℕ → Node
start_job n before spec after worker_id pid =
    let (worker, pool) = Worker.get_worker n.worker_pool worker_id pid in
    record n {
      jobs = before ++ record { spec = spec; phase = executing worker } ∷ after;
      worker_pool = pool;
    }

-- The first return identifier takes the result; a failed write is only logged.
unfoldable pub write_result :
    InMemoryObjectStore → TaskSpec → RayResult (List ℕ) → ℕ → InMemoryObjectStore
write_result s spec (err e) now = s
write_result s spec (ok bytes) now = elim spec.return_ids [
  | [] ↦ s
  | return_id ∷ rest ↦ (ObjectStore.put s return_id bytes now).1
]

give_back : WorkerPool → Option WorkerHandle → WorkerPool
give_back p none = p
give_back p (some w) = Worker.return_worker p w

-- The end of a task: its result, its worker and its resources.
unfoldable pub finish_job :
    Node → List Job → TaskSpec → Option WorkerHandle → List Job → RayResult (List ℕ) → ℕ → Node
unfolding write_result give_back
finish_job n before spec worker after result now = record n {
  resource_manager = ResourceManager.release n.resource_manager spec.required_resources;
  jobs = before ++ after;
  worker_pool = give_back n.worker_pool worker;
  object_store = write_result n.object_store spec result now;
}

-- `starts i` and `finishes i` move the `i`-th job; the result is whatever the executor answers.
pub data Event : Type 0 where
  commands : Command → Event
  starts : ℕ → WorkerId → ℕ → Event
  finishes : ℕ → RayResult (List ℕ) → ℕ → Event
  leases : Resources → Event

-- A job that is not there, or not in the phase, does not move.
unfoldable pub start_at : Node → ℕ → Option Job → WorkerId → ℕ → Node
start_at n i none worker_id pid = n
start_at n i (some job) worker_id pid = elim job.phase [
  | spawned ↦ start_job n (take i n.jobs) job.spec (drop (suc i) n.jobs) worker_id pid
  | executing w ↦ n
]

unfoldable pub finish_at : Node → ℕ → Option Job → RayResult (List ℕ) → ℕ → Node
finish_at n i none result now = n
finish_at n i (some job) result now = elim job.phase [
  | spawned ↦ n
  | executing w ↦ finish_job n (take i n.jobs) job.spec w (drop (suc i) n.jobs) result now
]

unfoldable pub step : Node → Event → Node
step n (commands c) = process n c
step n (starts i worker_id pid) = start_at n i (get_elem? n.jobs i) worker_id pid
step n (finishes i result now) = finish_at n i (get_elem? n.jobs i) result now
step n (leases required) = record n {
  resource_manager = (ResourceManager.try_allocate n.resource_manager required).1;
}

unfoldable pub run : Node → List Event → Node
run n [] = n
run n (e ∷ es) = run (step n e) es
