-- ===== src/Raylet/Scheduler/Statuses.antt =====
-- The statuses that crates/ray-raylet/src/scheduler.rs keeps for its clients.
use ray_rust.Common.{
  ℕ, ◌≡◌, refl, Option, none, some, List, [], ◌∷◌, ◌++◌, get_elem?, inl, inr, arith,
}
use ray_rust.Common.HashMap
use ray_rust.Common.HashMap.{HashMap}
use ray_rust.Common.HashMap.Laws.{AllValues, AllValues-insert, AllValues-modify, AllValues-get}
use ray_rust.Core.Error.{RayResult, ok}
use ray_rust.Core.Id.{TaskId, WorkerId, id_eq}
use ray_rust.Core.Types.{TaskStatus, TaskSpec}
use ray_rust.ObjectStore.{InMemoryObjectStore}
use ray_rust.Raylet.ResourceManager.{ResourceManager}
use ray_rust.Raylet.Scheduler.{
  Command, submit_task, cancel_task, get_status, Job, Node, start_node, dispatch_task, set_status,
  run_task, handle, submit, cancel, status, drain_one, drain_loop, drain, process, start_job,
  start_at, finish_job, finish_at, Event, commands, starts, finishes, leases, step, run,
}
use ray_rust.Raylet.Scheduler.Books.{allocate-cases, taken, Phase-cases}
use ray_rust.Raylet.Worker.{WorkerPool}

-- The statuses that the event loop ever writes.
abbrev pub IsWritten : TaskStatus → Type 0
IsWritten TaskStatus.pending = Unit
IsWritten TaskStatus.scheduled = ⊥
IsWritten TaskStatus.running = Unit
IsWritten TaskStatus.finished = ⊥
IsWritten TaskStatus.failed = ⊥
IsWritten TaskStatus.cancelled = Unit

abbrev AllWritten : Node → Type 0
AllWritten n = AllValues IsWritten n.task_statuses

run_task-AllWritten : (n : Node) (spec : TaskSpec) → AllWritten n → AllWritten (run_task n spec)
unfolding run_task dispatch_task set_status
run_task-AllWritten n spec h =
    AllValues-insert IsWritten n.task_statuses spec.task_id TaskStatus.running tt h

drain_loop-AllWritten :
    (n : Node) (queue still : List TaskSpec) → AllWritten n → AllWritten (drain_loop n queue still)
unfolding drain_loop drain_one
drain_loop-AllWritten n [] still h = h
drain_loop-AllWritten n (spec ∷ rest) still h = elim (allocate-cases n spec) [
  | inl (fits, e) ↦
      rw (e, drain_loop, drain_one)
        (drain_loop-AllWritten (run_task (taken n spec) spec) rest still
          (run_task-AllWritten (taken n spec) spec h))
  | inr (short, e) ↦
      rw (e, drain_loop, drain_one) (drain_loop-AllWritten n rest (still ++ spec ∷ []) h)
]

handle-AllWritten : (n : Node) (c : Command) → AllWritten n → AllWritten (handle n c)
unfolding handle submit cancel set_status
handle-AllWritten n (submit_task spec) h = elim (allocate-cases n spec) [
  | inl (fits, e) ↦ rw e (run_task-AllWritten (taken n spec) spec h)
  | inr (short, e) ↦
      rw e (AllValues-insert IsWritten n.task_statuses spec.task_id TaskStatus.pending tt h)
]
handle-AllWritten n (cancel_task task_id) h =
    AllValues-modify IsWritten IsWritten (λ _. TaskStatus.cancelled) n.task_statuses task_id
      (λ _ w. w) (λ _ _. tt) h
handle-AllWritten n (get_status task_id) h = h

-- What the event loop keeps for itself.
abbrev pub Untouched : Node → Node → Type 0
Untouched n n' = (n'.task_statuses ≡ n.task_statuses) × (n'.pending_queue ≡ n.pending_queue)

abbrev pub IsCommand : Event → Type 0
IsCommand (commands c) = Unit
IsCommand (starts i worker_id pid) = ⊥
IsCommand (finishes i result now) = ⊥
IsCommand (leases required) = ⊥

start_at-Untouched :
    (n : Node) (i : ℕ) (found : Option Job) (worker_id : WorkerId) (pid : ℕ)
    → Untouched n (start_at n i found worker_id pid)
unfolding start_at start_job
start_at-Untouched n i none worker_id pid = (refl, refl)
start_at-Untouched n i (some job) worker_id pid = elim (Phase-cases job.phase) [
  | inl e ↦ rw e (refl, refl)
  | inr (w, e) ↦ rw e (refl, refl)
]

finish_at-Untouched :
    (n : Node) (i : ℕ) (found : Option Job) (result : RayResult (List ℕ)) (now : ℕ)
    → Untouched n (finish_at n i found result now)
unfolding finish_at finish_job
finish_at-Untouched n i none result now = (refl, refl)
finish_at-Untouched n i (some job) result now = elim (Phase-cases job.phase) [
  | inl e ↦ rw e (refl, refl)
  | inr (w, e) ↦ rw e (refl, refl)
]

-- Only a command moves the event loop: when a task starts or ends, or a lease is granted, neither
-- the statuses nor the queue change, so that a task that has ended keeps the status it had, and a
-- queued task that would fit now stays in the queue.
pub only_commands_progress : (n : Node) (e : Event) → ¬ IsCommand e → Untouched n (step n e)
unfolding step
only_commands_progress n (commands c) h = absurd (h tt)
only_commands_progress n (starts i worker_id pid) h =
    start_at-Untouched n i (get_elem? n.jobs i) worker_id pid
only_commands_progress n (finishes i result now) h =
    finish_at-Untouched n i (get_elem? n.jobs i) result now
only_commands_progress n (leases required) h = (refl, refl)

step-AllWritten : (n : Node) (e : Event) → AllWritten n → AllWritten (step n e)
unfolding step process drain
step-AllWritten n (commands c) h =
    drain_loop-AllWritten (handle n c) (handle n c).pending_queue [] (handle-AllWritten n c h)
step-AllWritten n (starts i worker_id pid) h =
    rw (start_at-Untouched n i (get_elem? n.jobs i) worker_id pid).0 h
step-AllWritten n (finishes i result now) h =
    rw (finish_at-Untouched n i (get_elem? n.jobs i) result now).0 h
step-AllWritten n (leases required) h = h

run-AllWritten : (n : Node) (es : List Event) → AllWritten n → AllWritten (run n es)
unfolding run
run-AllWritten n [] h = h
run-AllWritten n (e ∷ es) h = run-AllWritten (step n e) es (step-AllWritten n e h)

start-AllWritten :
    (rm : ResourceManager) (p : WorkerPool) (o : InMemoryObjectStore)
    → AllWritten (start_node rm p o)
unfolding start_node
start-AllWritten rm p o = tt

status_found :
    (n : Node) (task_id : TaskId) (s : TaskStatus)
    → status n task_id ≡ ok s
    → HashMap.get n.task_statuses task_id ≡ some s
unfolding status
status_found n task_id s h = ground arith

-- Whatever happens on a node, a task that the scheduler knows is pending, running or cancelled: it
-- reports none as scheduled, finished or failed.
pub status-IsWritten :
    (rm : ResourceManager) (p : WorkerPool) (o : InMemoryObjectStore) (es : List Event)
    (task_id : TaskId) (s : TaskStatus)
    → status (run (start_node rm p o) es) task_id ≡ ok s
    → IsWritten s
status-IsWritten rm p o es task_id s h =
    let n = run (start_node rm p o) es in
    AllValues-get IsWritten n.task_statuses task_id s
      (run-AllWritten (start_node rm p o) es (start-AllWritten rm p o)) (status_found n task_id s h)
