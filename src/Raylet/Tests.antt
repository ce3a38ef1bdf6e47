-- ===== src/Raylet/Tests.antt =====
-- The theorems about a node at concrete values.
use mathlib.Core.List.{Perm}
use ray_rust.Common.{
  Option, none, ◌≡◌, refl, true, false, some, ◌++◌, ◌⊎◌, ◌==◌, List, [], ◌∷◌, replicate, string_eq,
  All, arith,
}
use ray_rust.Common.Int.{pos, ◌-ℤ◌}
use ray_rust.Common.HashMap
use ray_rust.Core.Error.{ok, task_not_found}
use ray_rust.Core.Id.{TaskId, id_eq}
use ray_rust.Core.Convert.{id_from_proto, resources_from_proto}
use ray_rust.Core.Proto.{ProtoId, ProtoResources}
use ray_rust.Core.Resources.Laws.{IsProper}
use ray_rust.Core.Resources
use ray_rust.Core.Resources.{Resources}
use ray_rust.Core.Types.{TaskStatus, TaskSpec}
use ray_rust.ObjectStore
use ray_rust.ObjectStore.{InMemoryObjectStore}
use ray_rust.Raylet.Executor.{TaskFn, FnOutcome}
use ray_rust.Raylet.ResourceManager
use ray_rust.Raylet.ResourceManager.Ledger.{NonNegative}
use ray_rust.Raylet.Scheduler.{
  submit_task, Job, Node, Event, commands, starts, finishes, leases, start_node, process, status,
  step, run, handle, submit, allocate, run_task, set_status, dispatch_task, drain, drain_loop,
}
use ray_rust.Raylet.Scheduler.Books.{IsFair, IsFairEvent}
use ray_rust.Raylet.Scheduler.Queue.{IsWaiting, open_tasks, asked, process_settles}
use ray_rust.Raylet.Scheduler.Statuses.{
  IsWritten, status-IsWritten, Untouched, only_commands_progress,
}
use ray_rust.Raylet.Server.{lease_request, lease_reply, request_worker_lease, release_worker_lease}
use ray_rust.Core.Status
use ray_rust.Raylet.Server
use ray_rust.Raylet.Server.Cancels.{cancel_task_lem}
use ray_rust.Raylet.Server.Leases.{lease_is_kept}
use ray_rust.Raylet.Worker
use ray_rust.Raylet.Worker.{
  WorkerHandle, WorkerPool, worker_idle, is_dead, is_idle, find_idle, mark_busy, get_worker,
  return_worker,
}
use ray_rust.Raylet.Worker.Capacity
use ray_rust.Raylet.Worker.Capacity.{
  gets, returns, kills, NoneDead, pool_within_capacity, return_worker_lem,
}
use ray_rust.Raylet.Worker.Pool.{IsValid, GetOutcome, get_worker_lem}
use ray_rust.Raylet.Worker.Race.{Interleaved, scanning, got, both_get_one_worker}

abbrev some_id : TaskId
some_id = record { bytes = replicate 16 7 }

abbrev two_cpus : Resources
two_cpus = record { map = ("CPU", pos 2) ∷ [] }

abbrev one_cpu : Resources
one_cpu = record { map = ("CPU", pos 1) ∷ [] }

abbrev some_task : TaskSpec
some_task = record {
  task_id = some_id;
  job_id = some_id;
  function_name = "echo";
  function_payload = 1 ∷ 2 ∷ [];
  return_ids = [];
  dependency_ids = [];
  required_resources = one_cpu;
  max_retries = pos 0;
}

abbrev some_store : InMemoryObjectStore
some_store = ObjectStore.new 0

abbrev some_pool : WorkerPool
some_pool = Worker.new 2

abbrev some_node : Node
some_node = start_node (ResourceManager.new two_cpus) some_pool some_store

-- Two tasks run, a third waits, one ends, and a lease is asked for.
abbrev some_events : List Event
some_events =
    commands (submit_task some_task)
    ∷ commands (submit_task some_task)
    ∷ commands (submit_task some_task)
    ∷ starts 0 some_id 1
    ∷ finishes 0 (ok (1 ∷ [])) 3
    ∷ leases one_cpu
    ∷ []

one_cpu-NonNegative : NonNegative one_cpu
unfolding Resources.get HashMap.get
one_cpu-NonNegative name = ground arith

two_cpus-NonNegative : NonNegative two_cpus
unfolding Resources.get HashMap.get
two_cpus-NonNegative name = ground arith

one_cpu-IsFair : IsFair one_cpu
unfolding HashMap.get
one_cpu-IsFair = ((refl, tt), one_cpu-NonNegative)

some_events-IsFair : All IsFairEvent some_events
some_events-IsFair =
    (one_cpu-IsFair, (one_cpu-IsFair, (one_cpu-IsFair, (tt, (tt, (one_cpu-IsFair, tt))))))

nothing_queued : All (λ s. IsFair s.required_resources) some_node.pending_queue
unfolding start_node
nothing_queued = tt

process_settles_example :
    let n' = process some_node (submit_task some_task) in
    All (IsWaiting n'.resource_manager.available) n'.pending_queue
    × Perm
        (open_tasks n'.jobs n'.pending_queue)
        (open_tasks some_node.jobs (asked (submit_task some_task) some_node.pending_queue))
process_settles_example =
    process_settles some_node (submit_task some_task) nothing_queued one_cpu-IsFair

submitted_status :
    status (run some_node (commands (submit_task some_task) ∷ [])) some_id ≡ ok TaskStatus.running
unfolding status run step process handle submit allocate run_task set_status dispatch_task drain
    drain_loop start_node ResourceManager.new ResourceManager.try_allocate Resources.can_satisfy
    Resources.get HashMap.get HashMap.insert
submitted_status = refl

status-IsWritten_example : IsWritten TaskStatus.running
status-IsWritten_example =
    status-IsWritten (ResourceManager.new two_cpus) some_pool some_store
      (commands (submit_task some_task) ∷ []) some_id TaskStatus.running submitted_status

-- Two tasks are dispatched, one of them has its worker, and a third is queued.
abbrev busy_node : Node
busy_node = run some_node (
    commands (submit_task some_task)
    ∷ commands (submit_task some_task)
    ∷ commands (submit_task some_task)
    ∷ starts 0 some_id 1
    ∷ [])

only_commands_progress_example : Untouched busy_node (step busy_node (finishes 0 (ok (1 ∷ [])) 3))
only_commands_progress_example =
    only_commands_progress busy_node (finishes 0 (ok (1 ∷ [])) 3) (λ h. h)

abbrev echo : TaskFn
echo bytes = FnOutcome.returns (ok bytes)

abbrev some_worker : WorkerHandle
some_worker = record { worker_id = some_id; pid = 1; status = 0 }

-- A pool with one idle worker.
abbrev idle_pool : WorkerPool
idle_pool = record { cells = worker_idle ∷ []; workers = some_worker ∷ []; max_workers = 2 }

idle_pool-IsValid : IsValid idle_pool
idle_pool-IsValid = record { bounded = omega arith; owned = (omega arith, tt) }

get_worker_lem_example : GetOutcome idle_pool (get_worker idle_pool some_id 2)
get_worker_lem_example = get_worker_lem idle_pool some_id 2 idle_pool-IsValid

pool_within_capacity_example : IsValid (
    Capacity.run
      (Worker.new 1)
      (gets some_id 1 ∷ gets some_id 2 ∷ Capacity.returns some_worker ∷ kills some_id ∷ []))
pool_within_capacity_example =
    pool_within_capacity 1
      (gets some_id 1 ∷ gets some_id 2 ∷ Capacity.returns some_worker ∷ kills some_id ∷ [])

found : find_idle idle_pool idle_pool.workers ≡ some some_worker
unfolding find_idle is_idle
found = refl

both_get_one_worker_example :
    Interleaved idle_pool
      (scanning idle_pool.workers)
      (scanning idle_pool.workers)
      (mark_busy (mark_busy idle_pool some_worker) some_worker)
      (got some_worker)
      (got some_worker)
both_get_one_worker_example = both_get_one_worker idle_pool some_worker found

abbrev some_message : ProtoId
some_message = record { id = replicate 16 7 }

-- The cancelled identifier is the one of the tasks that run and wait.
cancel_task_lem_example :
    let id = id_from_proto {size = 16} some_message in
    let r = Server.cancel_task busy_node (some some_message) in
    (r.0 ≡ Status.ok true)
    × ((extra : List Job) × (r.1.jobs ≡ busy_node.jobs ++ extra)
        × All (λ j. (j.spec.task_id == id) ≡ false) extra)
    × (((s : TaskStatus) × (HashMap.get busy_node.task_statuses id ≡ some s)
          × ((Server.get_task_status r.1 (some some_message)).0
              ≡ Status.ok (record { status = pos 6; error_message = "" })))
        ⊎ ((HashMap.get busy_node.task_statuses id ≡ none)
            × ((Server.get_task_status r.1 (some some_message)).0
                ≡ Status.err (Status.internal task_not_found))))
cancel_task_lem_example = cancel_task_lem busy_node some_message

abbrev one_cpu_message : Option ProtoResources
one_cpu_message = some (record { resource_map = ("CPU", pos 1) ∷ [] })

one_cpu_message-IsProper : IsProper (lease_request one_cpu_message)
unfolding lease_request resources_from_proto HashMap.get HashMap.insert
one_cpu_message-IsProper = (refl, tt)

lease_fits :
    Resources.can_satisfy some_node.resource_manager.available (lease_request one_cpu_message)
    ≡ true
unfolding lease_request resources_from_proto HashMap.get HashMap.insert Resources.can_satisfy
    Resources.get start_node ResourceManager.new
lease_fits = refl

lease_is_kept_example :
    let r = request_worker_lease some_id some_node one_cpu_message in
    (r.0 ≡ lease_reply some_id true)
    × (Resources.get (release_worker_lease r.1).1.resource_manager.available "CPU"
        ≡ Resources.get some_node.resource_manager.available "CPU"
          -ℤ Resources.get (lease_request one_cpu_message) "CPU")
lease_is_kept_example =
    lease_is_kept some_id some_node one_cpu_message "CPU" one_cpu_message-IsProper lease_fits
