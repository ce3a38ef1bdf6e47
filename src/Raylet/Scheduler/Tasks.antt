-- ===== src/Raylet/Scheduler/Tasks.antt =====
-- The tasks that a node knows (crates/ray-raylet/src/scheduler.rs): what holds of every task that
-- is submitted holds of every task in its queue and among its jobs.
use ray_rust.Common.{
  ℕ, suc, ◌≡◌, refl, ◌∙◌, not, Option, none, some, List, [], ◌∷◌, ◌++◌, take, get_elem?, ◌==◌, inl,
  inr, ◌⊎◌, All, All-append, All-keep, All-take, All-drop, All-get,
}
use ray_rust.Core.Error.{RayResult}
use ray_rust.Core.Id.{WorkerId, id_eq}
use ray_rust.Core.Types.{TaskSpec}
use ray_rust.Raylet.Scheduler.{
  Command, submit_task, cancel_task, get_status, Job, Node, dispatch_task, set_status, run_task,
  handle, submit, cancel, drain_one, drain_loop, drain, process, start_at, start_job, finish_at,
  finish_job, write_result,
}
use ray_rust.Raylet.Scheduler.Books.{allocate-cases, taken, Phase-cases}
use ray_rust.Raylet.Scheduler.Dispatch.{drain_loop-Extends}

module _ (P : TaskSpec → Type 0) where
  pub record AllTasks (n : Node) : Type 0 where
    pub queue : All P n.pending_queue
    pub jobs : All (λ j. P j.spec) n.jobs

  abbrev pub OfCommand : Command → Type 0
  OfCommand (submit_task spec) = P spec
  OfCommand (cancel_task task_id) = Unit
  OfCommand (get_status task_id) = Unit

  run_task-AllTasks :
      (n : Node) (spec : TaskSpec) → AllTasks n → P spec → AllTasks (run_task (taken n spec) spec)
  unfolding run_task dispatch_task set_status
  run_task-AllTasks n spec a p = record {
    queue = a.queue;
    jobs = All-append (λ j. P j.spec) n.jobs _ a.jobs (p, tt);
  }

  drain_loop-AllTasks :
      (n : Node) (queue still : List TaskSpec)
      → AllTasks n
      → All P queue
      → All P still
      → AllTasks (drain_loop n queue still)
  unfolding drain_loop drain_one
  drain_loop-AllTasks n [] still a q s = record { queue = s; jobs = a.jobs }
  drain_loop-AllTasks n (spec ∷ rest) still a q s = elim (allocate-cases n spec) [
    | inl (fits, e) ↦
        rw (e, drain_loop, drain_one)
          (drain_loop-AllTasks (run_task (taken n spec) spec) rest still
            (run_task-AllTasks n spec a q.0) q.1 s)
    | inr (short, e) ↦
        rw (e, drain_loop, drain_one)
          (drain_loop-AllTasks n rest (still ++ spec ∷ []) a q.1
            (All-append P still (spec ∷ []) s (q.0, tt)))
  ]

  handle-AllTasks : (n : Node) (c : Command) → AllTasks n → OfCommand c → AllTasks (handle n c)
  unfolding handle submit cancel set_status
  handle-AllTasks n (submit_task spec) a p = elim (allocate-cases n spec) [
    | inl (fits, e) ↦ rw e (run_task-AllTasks n spec a p)
    | inr (short, e) ↦
        rw e (record {
          queue = All-append P n.pending_queue (spec ∷ []) a.queue (p, tt);
          jobs = a.jobs;
        })
  ]
  handle-AllTasks n (cancel_task task_id) a p = record {
    queue = All-keep P (λ s. not (s.task_id == task_id)) n.pending_queue a.queue;
    jobs = a.jobs;
  }
  handle-AllTasks n (get_status task_id) a p = a

  pub process-AllTasks :
      (n : Node) (c : Command) → AllTasks n → OfCommand c → AllTasks (process n c)
  unfolding process drain
  process-AllTasks n c a p =
      let h = handle-AllTasks n c a p in
      drain_loop-AllTasks (handle n c) (handle n c).pending_queue [] h h.queue tt

  pub start_at-AllTasks :
      (n : Node) (i : ℕ) (found : Option Job) (worker_id : WorkerId) (pid : ℕ)
      → get_elem? n.jobs i ≡ found
      → AllTasks n
      → AllTasks (start_at n i found worker_id pid)
  unfolding start_at start_job
  start_at-AllTasks n i none worker_id pid h a = a
  start_at-AllTasks n i (some job) worker_id pid h a = elim (Phase-cases job.phase) [
    | inr (w, e) ↦ rw e a
    | inl e ↦ rw e (record {
      queue = a.queue;
      jobs =
          All-append (λ j. P j.spec) (take i n.jobs) _ (All-take (λ j. P j.spec) i n.jobs a.jobs)
            (
              All-get (λ j. P j.spec) n.jobs i job a.jobs h,
              All-drop (λ j. P j.spec) (suc i) n.jobs a.jobs,
            );
    })
  ]

  pub finish_at-AllTasks :
      (n : Node) (i : ℕ) (found : Option Job) (result : RayResult (List ℕ)) (now : ℕ)
      → AllTasks n
      → AllTasks (finish_at n i found result now)
  unfolding finish_at finish_job
  finish_at-AllTasks n i none result now a = a
  finish_at-AllTasks n i (some job) result now a = elim (Phase-cases job.phase) [
    | inl e ↦ rw e a
    | inr (w, e) ↦ rw e (record {
      queue = a.queue;
      jobs =
          All-append (λ j. P j.spec) (take i n.jobs) _ (All-take (λ j. P j.spec) i n.jobs a.jobs)
            (All-drop (λ j. P j.spec) (suc i) n.jobs a.jobs);
    })
  ]

-- Who writes to the object store: no command does, nor a task that starts.
handle-object_store : (n : Node) (c : Command) → (handle n c).object_store ≡ n.object_store
unfolding handle submit cancel set_status run_task dispatch_task
handle-object_store n (submit_task spec) = elim (allocate-cases n spec) [
  | inl (fits, e) ↦ rw e refl
  | inr (short, e) ↦ rw e refl
]
handle-object_store n (cancel_task task_id) = refl
handle-object_store n (get_status task_id) = refl

pub process-object_store : (n : Node) (c : Command) → (process n c).object_store ≡ n.object_store
unfolding process drain
process-object_store n c =
    (drain_loop-Extends (handle n c) (handle n c).pending_queue []).object_store
    ∙ handle-object_store n c

pub start_at-object_store :
    (n : Node) (i : ℕ) (found : Option Job) (worker_id : WorkerId) (pid : ℕ)
    → (start_at n i found worker_id pid).object_store ≡ n.object_store
unfolding start_at start_job
start_at-object_store n i none worker_id pid = refl
start_at-object_store n i (some job) worker_id pid = elim (Phase-cases job.phase) [
  | inl e ↦ rw e refl
  | inr (w, e) ↦ rw e refl
]

-- A task that ends writes its result, and one that cannot end writes nothing.
pub finish_at-object_store :
    (n : Node) (i : ℕ) (job : Job) (result : RayResult (List ℕ)) (now : ℕ)
    → let s = (finish_at n i (some job) result now).object_store in
      (s ≡ n.object_store) ⊎ (s ≡ write_result n.object_store job.spec result now)
unfolding finish_at finish_job
finish_at-object_store n i job result now = elim (Phase-cases job.phase) [
  | inl e ↦ inl (rw e refl)
  | inr (w, e) ↦ inr (rw e refl)
]
