-- ===== src/Raylet/Scheduler/Dispatch.antt =====
-- A task that is dispatched at once (crates/ray-raylet/src/scheduler.rs), and its way to its end.
use mathlib.Core.List.{append_assoc, append-nil}
use ray_rust.Common.{
  ◌≡◌, refl, sym, ap, ◌∙◌, true, Option, some, List, [], ◌∷◌, ◌++◌, length, get_elem?,
  get_elem?-middle, take-middle, drop-middle, ℕ, inl, inr, beq_refl, string_eq, arith,
}
use ray_rust.Common.HashMap
use ray_rust.Common.HashMap.Laws.{get-insert}
use ray_rust.Core.Error.{RayResult}
use ray_rust.Core.Id.{TaskId, WorkerId, id_eq}
use ray_rust.Core.Resources
use ray_rust.Core.Types.{TaskSpec, TaskStatus}
use ray_rust.Raylet.Scheduler.{
  submit_task, spawned, executing, Job, Node, dispatch_task, set_status, run_task, handle, submit,
  drain_one, drain_loop, drain, process, start_at, start_job, finish_at, finish_job,
}
use ray_rust.Raylet.Scheduler.Books.{allocate-cases, taken}
use ray_rust.Raylet.Worker.{WorkerHandle}

-- What a drain keeps of a node: its jobs in front, its store, and a task that is running.
pub record Extends (n n' : Node) : Type 0 where
  pub extra : List Job
  pub jobs : n'.jobs ≡ n.jobs ++ extra
  pub object_store : n'.object_store ≡ n.object_store
  pub stays_running :
      (id : TaskId)
      → HashMap.get n.task_statuses id ≡ some TaskStatus.running
      → HashMap.get n'.task_statuses id ≡ some TaskStatus.running

run_task-Extends : (n : Node) (spec : TaskSpec) → Extends n (run_task (taken n spec) spec)
unfolding run_task dispatch_task set_status
run_task-Extends n spec = record {
  extra = record { spec = spec; phase = spawned } ∷ [];
  jobs = refl;
  object_store = refl;
  stays_running =
      λ id h. ground (arith, get-insert n.task_statuses spec.task_id TaskStatus.running id, h);
}

Extends-trans : {a b c : Node} → Extends a b → Extends b c → Extends a c
Extends-trans {a} {b} {c} x y = record {
  extra = x.extra ++ y.extra;
  jobs = y.jobs ∙ ap (λ l. l ++ y.extra) x.jobs ∙ append_assoc a.jobs x.extra y.extra;
  object_store = y.object_store ∙ x.object_store;
  stays_running = λ id h. y.stays_running id (x.stays_running id h);
}

pub drain_loop-Extends :
    (n : Node) (queue still : List TaskSpec) → Extends n (drain_loop n queue still)
unfolding drain_loop drain_one
drain_loop-Extends n [] still = record {
  extra = [];
  jobs = sym (append-nil n.jobs);
  object_store = refl;
  stays_running = λ id h. h;
}
drain_loop-Extends n (spec ∷ rest) still = elim (allocate-cases n spec) [
  | inl (fits, e) ↦
      rw (e, drain_loop, drain_one)
        (Extends-trans (run_task-Extends n spec)
          (drain_loop-Extends (run_task (taken n spec) spec) rest still))
  | inr (short, e) ↦ rw (e, drain_loop, drain_one) (drain_loop-Extends n rest (still ++ spec ∷ []))
]

handle_fitting :
    (n : Node) (spec : TaskSpec)
    → Resources.can_satisfy n.resource_manager.available spec.required_resources ≡ true
    → handle n (submit_task spec) ≡ run_task (taken n spec) spec
unfolding handle submit
handle_fitting n spec fits = elim (allocate-cases n spec) [
  | inl (_, e) ↦ rw e refl
  | inr (short, e) ↦ cc
]

-- A task that fits is dispatched behind the jobs at hand, and is running.
pub record Dispatched (n : Node) (spec : TaskSpec) (n' : Node) : Type 0 where
  pub extra : List Job
  pub jobs : n'.jobs ≡ n.jobs ++ record { spec = spec; phase = spawned } ∷ extra
  pub object_store : n'.object_store ≡ n.object_store
  pub running : HashMap.get n'.task_statuses spec.task_id ≡ some TaskStatus.running

running_at_once :
    (n : Node) (spec : TaskSpec)
    → HashMap.get (run_task n spec).task_statuses spec.task_id ≡ some TaskStatus.running
unfolding run_task dispatch_task set_status
running_at_once n spec = ground (
  arith,
  get-insert n.task_statuses spec.task_id TaskStatus.running spec.task_id,
  beq_refl spec.task_id,
)

dispatched_jobs :
    (n : Node) (spec : TaskSpec) (extra : List Job)
    → (run_task n spec).jobs ++ extra ≡ n.jobs ++ record { spec = spec; phase = spawned } ∷ extra
unfolding run_task dispatch_task set_status
dispatched_jobs n spec extra =
    append_assoc n.jobs (record { spec = spec; phase = spawned } ∷ []) extra

run_task-object_store :
    (n : Node) (spec : TaskSpec) → (run_task n spec).object_store ≡ n.object_store
unfolding run_task dispatch_task set_status
run_task-object_store n spec = refl

pub process-Dispatched :
    (n : Node) (spec : TaskSpec)
    → Resources.can_satisfy n.resource_manager.available spec.required_resources ≡ true
    → Dispatched n spec (process n (submit_task spec))
unfolding process drain
process-Dispatched n spec fits = rw (handle_fitting n spec fits) (
    let first = run_task (taken n spec) spec in
    let x : Extends first (drain_loop first first.pending_queue []) =
      drain_loop-Extends first first.pending_queue [] in
    record {
      extra = x.extra;
      jobs = x.jobs ∙ dispatched_jobs (taken n spec) spec x.extra;
      object_store = x.object_store ∙ run_task-object_store (taken n spec) spec;
      running = x.stays_running spec.task_id (running_at_once (taken n spec) spec);
    })

pub started :
    (n : Node) (before : List Job) (spec : TaskSpec) (after : List Job) (worker_id : WorkerId)
    (pid : ℕ)
    → n.jobs ≡ before ++ record { spec = spec; phase = spawned } ∷ after
    → start_at n (length before) (get_elem? n.jobs (length before)) worker_id pid
      ≡ start_job n before spec after worker_id pid
unfolding start_at
started n before spec after worker_id pid e =
    let job : Job = record { spec = spec; phase = spawned } in
    simp
      (
        e,
        get_elem?-middle before job after,
        take-middle before (job ∷ after),
        drop-middle before job after,
      )
      refl

pub finished :
    (n : Node) (before : List Job) (spec : TaskSpec) (w : Option WorkerHandle) (after : List Job)
    (result : RayResult (List ℕ)) (now : ℕ)
    → n.jobs ≡ before ++ record { spec = spec; phase = executing w } ∷ after
    → finish_at n (length before) (some (record { spec = spec; phase = executing w })) result now
      ≡ finish_job n before spec w after result now
unfolding finish_at
finished n before spec w after result now e =
    let job : Job = record { spec = spec; phase = executing w } in
    simp (e, take-middle before (job ∷ after), drop-middle before job after) refl
