-- ===== src/Raylet/Scheduler/Steps/Accounts.antt =====
-- The tasks that the scheduler of crates/ray-raylet/src/scheduler.rs has to answer for, through its
-- single steps.
use mathlib.Core.Path.{subst}
use mathlib.Core.List.{
  map-append, append_assoc, append-nil, Perm, perm_middle, perm_append_singleton,
}
use mathlib.Core.List.Perm
use ray_rust.Common.{
  ℕ, suc, ◌≡◌, refl, sym, ap, ◌∙◌, Bool, Option, none, some, List, [], ◌∷◌, ◌++◌, keep, take, drop,
  get_elem?, split_at, inl, inr, ◌==◌,
}
use ray_rust.Core.Error.{RayResult}
use ray_rust.Core.Id.{WorkerId, id_eq}
use ray_rust.Core.Types.{TaskSpec}
use ray_rust.ObjectStore.{InMemoryObjectStore}
use ray_rust.Raylet.ResourceManager.{ResourceManager}
use ray_rust.Raylet.Scheduler
use ray_rust.Raylet.Scheduler.{
  Command, submit_task, cancel_task, get_status, Phase, spawned, executing, Job, Node, start_node,
  handle, run_task, start_at, start_job, finish_at, finish_job,
}
use ray_rust.Raylet.Scheduler.Books.{Phase-cases}
use ray_rust.Raylet.Scheduler.Queue.{open_tasks, tasks, handle-Perm, dispatched}
use ray_rust.Raylet.Scheduler.Steps.{
  Control, waiting, draining, Loop, Event, takes, drains, starts, finishes, leases, begin_drain,
  receive, drain_next, step, run,
}
use ray_rust.Raylet.Scheduler.Steps.Rounds.{next_cases}
use ray_rust.Raylet.Worker.{WorkerPool}
use ray_rust.Raylet.Scheduler.Steps.Outstanding.{
  queue_of, known, entering, entered, cancelled_by, ended_at, ended, all_entered, all_ended, specs,
  keep-Perm, front_swap,
}

receive-Perm :
    (n : Node) (k : Control) (c : Command)
    → Perm
        (cancelled_by n k c ++ known (receive n k c))
        (entering k c ++ open_tasks n.jobs (queue_of n k))
unfolding receive begin_drain tasks
receive-Perm n (draining rest still) c = Perm.refl _
receive-Perm n waiting (submit_task spec) = Perm.trans (handle-Perm n (submit_task spec)) (
    rw (← append_assoc (specs n.jobs) n.pending_queue (spec ∷ []))
      (perm_append_singleton spec (specs n.jobs ++ n.pending_queue)))
receive-Perm n waiting (cancel_task task_id) =
    Perm.trans
      (Perm.append_left (keep (λ s. s.task_id == task_id) n.pending_queue)
        (handle-Perm n (cancel_task task_id)))
      (Perm.trans (front_swap (keep named n.pending_queue) (specs n.jobs) _)
        (Perm.append_left (specs n.jobs) (keep-Perm named n.pending_queue)))
  where
    named : TaskSpec → Bool
    named s = s.task_id == task_id
receive-Perm n waiting (get_status task_id) = handle-Perm n (get_status task_id)

drain_next-Perm :
    (n : Node) (k : Control) → Perm (known (drain_next n k)) (open_tasks n.jobs (queue_of n k))
unfolding drain_next
drain_next-Perm n waiting = Perm.refl _
drain_next-Perm n (draining [] still) = rw (append-nil still) (Perm.refl _)
drain_next-Perm n (draining (spec ∷ rest) still) =
    let before = open_tasks n.jobs (still ++ spec ∷ rest) in
    elim (next_cases n spec rest still) [
      | inl (fits, e) ↦ subst (λ l. Perm (known l) before) (sym e) (dispatched n spec rest still)
      | inr (short, e) ↦
          subst (λ l. Perm (known l) before) (sym e)
            (rw (append_assoc still (spec ∷ []) rest) (Perm.refl _))
    ]

specs-parts :
    (jobs : List Job) (i : ℕ) (job : Job)
    → get_elem? jobs i ≡ some job
    → specs jobs ≡ specs (take i jobs) ++ job.spec ∷ specs (drop (suc i) jobs)
specs-parts jobs i job h =
    ap specs (split_at jobs i job h)
    ∙ map-append (λ j. j.spec) (take i jobs) (job ∷ drop (suc i) jobs)

start_at-specs :
    (n : Node) (i : ℕ) (found : Option Job) (worker_id : WorkerId) (pid : ℕ)
    → get_elem? n.jobs i ≡ found
    → (specs (start_at n i found worker_id pid).jobs ≡ specs n.jobs)
      × ((start_at n i found worker_id pid).pending_queue ≡ n.pending_queue)
unfolding start_at start_job
start_at-specs n i none worker_id pid h = (refl, refl)
start_at-specs n i (some job) worker_id pid h = elim (Phase-cases job.phase) [
  | inr (w, e) ↦ rw e (refl, refl)
  | inl e ↦
      rw e (map-append (λ j. j.spec) (take i n.jobs) _ ∙ sym (specs-parts n.jobs i job h), refl)
]

finish_at-specs :
    (n : Node) (i : ℕ) (found : Option Job) (result : RayResult (List ℕ)) (now : ℕ)
    → get_elem? n.jobs i ≡ found
    → Perm (ended_at found ++ specs (finish_at n i found result now).jobs) (specs n.jobs)
      × ((finish_at n i found result now).pending_queue ≡ n.pending_queue)
unfolding finish_at finish_job
finish_at-specs n i none result now h = (Perm.refl _, refl)
finish_at-specs n i (some job) result now h = elim (Phase-cases job.phase) [
  | inl e ↦ rw e (Perm.refl _, refl)
  | inr (w, e) ↦
      rw (e, specs-parts n.jobs i job h)
        (
          rw (map-append (λ j. j.spec) (take i n.jobs) (drop (suc i) n.jobs))
              (Perm.symm (perm_middle (specs (take i n.jobs)) (specs (drop (suc i) n.jobs)))),
          refl,
        )
]

queue_same :
    (n n' : Node) (k : Control) → n'.pending_queue ≡ n.pending_queue → queue_of n' k ≡ queue_of n k
queue_same n n' waiting e = e
queue_same n n' (draining rest still) e = refl

step-Perm : (l : Loop) (e : Event) → Perm (ended l e ++ known (step l e)) (entered l e ++ known l)
unfolding step Scheduler.step
step-Perm l (takes c) = receive-Perm l.node l.control c
step-Perm l drains = drain_next-Perm l.node l.control
step-Perm l (starts i worker_id pid) =
    let found = get_elem? l.node.jobs i in
    let (jobs, queue) = start_at-specs l.node i found worker_id pid refl in
    rw (jobs, queue_same l.node (start_at l.node i found worker_id pid) l.control queue)
      (Perm.refl _)
step-Perm l (finishes i result now) =
    let found = get_elem? l.node.jobs i in
    let n' = finish_at l.node i found result now in
    let (jobs, queue) = finish_at-specs l.node i found result now refl in
    rw
      (
        ← append_assoc (ended_at found) (specs n'.jobs) (queue_of n' l.control),
        queue_same l.node n' l.control queue,
      )
      (Perm.append_right (queue_of l.node l.control) jobs)
step-Perm l (leases required) = Perm.refl _

run-Perm :
    (l : Loop) (es : List Event)
    → Perm (all_ended l es ++ known (run l es)) (all_entered l es ++ known l)
unfolding run
run-Perm l [] = Perm.refl _
run-Perm l (e ∷ es) =
    let l' = step l e in
    rw
      (
        append_assoc (ended l e) (all_ended l' es) (known (run l' es)),
        append_assoc (entered l e) (all_entered l' es) (known l),
      )
      (Perm.trans (Perm.append_left (ended l e) (run-Perm l' es)) (
        Perm.trans (front_swap (ended l e) (all_entered l' es) (known l')) (
          Perm.trans (Perm.append_left (all_entered l' es) (step-Perm l e))
            (front_swap (all_entered l' es) (entered l e) (known l)))))

nothing_known :
    (rm : ResourceManager) (p : WorkerPool) (o : InMemoryObjectStore)
    → known (record { node = start_node rm p o; control = waiting }) ≡ []
unfolding start_node
nothing_known rm p o = refl

-- In whatever order the single steps of the event loop, task starts, task ends and leases come on a
-- node, every submission that the loop has taken is accounted for, as often as it was made and up
-- to their order: it has ended, it was cancelled while it was queued, or it is still dispatched or
-- queued. None is lost, and none is run twice.
pub every_task_counts :
    (rm : ResourceManager) (p : WorkerPool) (o : InMemoryObjectStore) (es : List Event)
    → let start : Loop = record { node = start_node rm p o; control = waiting } in
      Perm (all_ended start es ++ known (run start es)) (all_entered start es)
every_task_counts rm p o es =
    let start : Loop = record { node = start_node rm p o; control = waiting } in
    subst (λ k. Perm (all_ended start es ++ known (run start es)) k)
      (ap (λ k. all_entered start es ++ k) (nothing_known rm p o)
        ∙ append-nil (all_entered start es))
      (run-Perm start es)
