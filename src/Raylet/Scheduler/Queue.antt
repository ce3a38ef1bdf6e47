-- ===== src/Raylet/Scheduler/Queue.antt =====
-- The queue of crates/ray-raylet/src/scheduler.rs after a command.
use mathlib.Core.List.{
  map-append, append_assoc, append-nil, Perm, perm_middle, perm_append_singleton,
}
use mathlib.Core.List.Perm
use ray_rust.Common.{
  ◌≡◌, refl, sym, ap, ◌∙◌, true, false, not, List, [], ◌∷◌, ◌++◌, map, keep, ◌==◌, inl, inr,
  string_eq, All, All-append, All-map, All-keep, arith,
}
use ray_rust.Common.Int.{ℤ, pos, ◌-ℤ◌, ◌≤ℤ◌, int_laws}
use ray_rust.Core.Id.{id_eq}
use ray_rust.Core.Resources
use ray_rust.Core.Resources.{Resources}
use ray_rust.Core.Resources.Laws.{IsProper, can_satisfy_iff, subtract_exact}
use ray_rust.Core.Types.{TaskSpec}
use ray_rust.Raylet.ResourceManager.{ResourceManager, try_allocate}
use ray_rust.Raylet.Scheduler.{
  Command, submit_task, cancel_task, get_status, spawned, Job, Node, dispatch_task, set_status,
  run_task, handle, submit, cancel, drain_one, drain_loop, drain, process, commands,
}
use ray_rust.Raylet.Scheduler.Books.{IsFair, IsFairTask, IsFairEvent, allocate-cases, taken}

-- What is asked of the resources that are left was asked of all of them.
fits_before :
    (r o q : Resources)
    → IsFair o
    → IsProper q
    → Resources.can_satisfy r o ≡ true
    → Resources.can_satisfy (Resources.subtract r o) q ≡ true
    → Resources.can_satisfy r q ≡ true
fits_before r o q fair proper fits h = (can_satisfy_iff r q proper).1 (λ name x e.
    at_most _ _ x (fair.1 name) (
      rw (sym (subtract_exact r o name fair.0 fits))
        ((can_satisfy_iff (Resources.subtract r o) q proper).0 h name x e)))
  where
    at_most : (a b x : ℤ) → pos 0 ≤ℤ b → x ≤ℤ a -ℤ b → x ≤ℤ a
    at_most a b x p l = omega int_laws

available_after :
    (rm : ResourceManager) (required : Resources)
    → Resources.can_satisfy rm.available required ≡ true
    → (try_allocate rm required).1.available ≡ Resources.subtract rm.available required
unfolding try_allocate
available_after rm required fits = rw fits refl

-- A task that has to wait.
abbrev pub IsWaiting : Resources → TaskSpec → Type 0
IsWaiting available spec =
    IsFairTask spec × (Resources.can_satisfy available spec.required_resources ≡ false)

abbrev NoneFits : Node → Type 0
NoneFits n = All (IsWaiting n.resource_manager.available) n.pending_queue

still-IsWaiting :
    (n : Node) (spec : TaskSpec) (still : List TaskSpec)
    → IsFairTask spec
    → Resources.can_satisfy n.resource_manager.available spec.required_resources ≡ true
    → All (IsWaiting n.resource_manager.available) still
    → All (IsWaiting (run_task (taken n spec) spec).resource_manager.available) still
unfolding run_task dispatch_task set_status
still-IsWaiting n spec still fair fits h =
    All-map (IsWaiting n.resource_manager.available) _ still
      (λ s w.
        (w.0, rw (available_after n.resource_manager spec.required_resources fits) (short s w)))
      h
  where
    short :
        (s : TaskSpec)
        → IsWaiting n.resource_manager.available s
        → Resources.can_satisfy
            (Resources.subtract n.resource_manager.available spec.required_resources)
            s.required_resources
          ≡ false
    short s w = ground (
      arith,
      fits_before n.resource_manager.available spec.required_resources s.required_resources fair
          w.0.0 fits,
      w.1,
    )

drain_loop-NoneFits :
    (n : Node) (queue still : List TaskSpec)
    → All IsFairTask queue
    → All (IsWaiting n.resource_manager.available) still
    → NoneFits (drain_loop n queue still)
unfolding drain_loop drain_one
drain_loop-NoneFits n [] still q w = w
drain_loop-NoneFits n (spec ∷ rest) still q w = elim (allocate-cases n spec) [
  | inl (fits, e) ↦
      rw (e, drain_loop, drain_one)
        (drain_loop-NoneFits (run_task (taken n spec) spec) rest still q.1
          (still-IsWaiting n spec still q.0 fits w))
  | inr (short, e) ↦
      rw (e, drain_loop, drain_one)
        (drain_loop-NoneFits n rest (still ++ spec ∷ []) q.1 (
          All-append (IsWaiting n.resource_manager.available) still (spec ∷ []) w
            ((q.0, short), tt)))
]

-- Every task that the node still has to finish: the dispatched ones, and the queue.
abbrev pub open_tasks : List Job → List TaskSpec → List TaskSpec
open_tasks jobs queue = map (λ j. j.spec) jobs ++ queue

unfoldable pub tasks : Node → List TaskSpec
tasks n = open_tasks n.jobs n.pending_queue

open_tasks-dispatch :
    (jobs : List Job) (j : Job) (queue : List TaskSpec)
    → open_tasks (jobs ++ j ∷ []) queue ≡ open_tasks jobs (j.spec ∷ queue)
open_tasks-dispatch jobs j queue =
    ap (λ l. l ++ queue) (map-append (λ k. k.spec) jobs (j ∷ []))
    ∙ append_assoc (map (λ k. k.spec) jobs) (j.spec ∷ []) queue

pub dispatched :
    (n : Node) (spec : TaskSpec) (rest still : List TaskSpec)
    → Perm
        (open_tasks (run_task (taken n spec) spec).jobs (still ++ rest))
        (open_tasks n.jobs (still ++ spec ∷ rest))
unfolding run_task dispatch_task set_status
dispatched n spec rest still =
    rw (open_tasks-dispatch n.jobs (record { spec = spec; phase = spawned }) (still ++ rest))
      (Perm.append_left (map (λ j. j.spec) n.jobs) (Perm.symm (perm_middle still rest)))

drain_loop-Perm :
    (n : Node) (queue still : List TaskSpec)
    → Perm (tasks (drain_loop n queue still)) (open_tasks n.jobs (still ++ queue))
unfolding tasks drain_loop drain_one
drain_loop-Perm n [] still = rw (append-nil still) (Perm.refl _)
drain_loop-Perm n (spec ∷ rest) still = elim (allocate-cases n spec) [
  | inl (fits, e) ↦
      rw (e, drain_loop, drain_one)
        (Perm.trans (drain_loop-Perm (run_task (taken n spec) spec) rest still)
          (dispatched n spec rest still))
  | inr (short, e) ↦
      rw (e, drain_loop, drain_one)
        (rw (sym (append_assoc still (spec ∷ []) rest))
          (drain_loop-Perm n rest (still ++ spec ∷ [])))
]

-- The queue that a command asks for.
abbrev pub asked : Command → List TaskSpec → List TaskSpec
asked (submit_task spec) queue = queue ++ spec ∷ []
asked (cancel_task task_id) queue = keep (λ s. not (s.task_id == task_id)) queue
asked (get_status task_id) queue = queue

submitted :
    (jobs : List Job) (spec : TaskSpec) (queue : List TaskSpec)
    → Perm (open_tasks jobs (spec ∷ queue)) (open_tasks jobs (queue ++ spec ∷ []))
submitted jobs spec queue =
    Perm.append_left (map (λ j. j.spec) jobs) (Perm.symm (perm_append_singleton spec queue))

pub handle-Perm :
    (n : Node) (c : Command)
    → Perm (tasks (handle n c)) (open_tasks n.jobs (asked c n.pending_queue))
unfolding tasks handle submit cancel set_status run_task dispatch_task
handle-Perm n (submit_task spec) = elim (allocate-cases n spec) [
  | inl (fits, e) ↦ rw e (
      rw (open_tasks-dispatch n.jobs (record { spec = spec; phase = spawned }) n.pending_queue)
        (submitted n.jobs spec n.pending_queue))
  | inr (short, e) ↦ rw e (Perm.refl _)
]
handle-Perm n (cancel_task task_id) = Perm.refl _
handle-Perm n (get_status task_id) = Perm.refl _

handle-IsFair :
    (n : Node) (c : Command)
    → All IsFairTask n.pending_queue
    → IsFairEvent (commands c)
    → All IsFairTask (handle n c).pending_queue
unfolding handle submit cancel set_status run_task dispatch_task
handle-IsFair n (submit_task spec) h fair = elim (allocate-cases n spec) [
  | inl (fits, e) ↦ rw e h
  | inr (short, e) ↦ rw e (All-append IsFairTask n.pending_queue (spec ∷ []) h (fair, tt))
]
handle-IsFair n (cancel_task task_id) h fair =
    All-keep IsFairTask (λ s. not (s.task_id == task_id)) n.pending_queue h
handle-IsFair n (get_status task_id) h fair = h

-- After a command is handled and its queue is drained with nothing in between, in particular no
-- task that ends, and when its request and those in the queue have distinct names and no negative
-- quantity, no queued task would fit what is available; and the dispatched and the queued tasks are
-- together, up to their order, the ones from before, with the submitted task added, or the
-- cancelled one taken out of the queue.
pub process_settles :
    (n : Node) (c : Command)
    → All IsFairTask n.pending_queue
    → IsFairEvent (commands c)
    → let n' = process n c in
      All (IsWaiting n'.resource_manager.available) n'.pending_queue
      × Perm (open_tasks n'.jobs n'.pending_queue) (open_tasks n.jobs (asked c n.pending_queue))
unfolding process drain tasks
process_settles n c h fair =
    let handled = handle n c in
    (
      drain_loop-NoneFits handled handled.pending_queue [] (handle-IsFair n c h fair) tt,
      Perm.trans (drain_loop-Perm handled handled.pending_queue []) (handle-Perm n c),
    )
