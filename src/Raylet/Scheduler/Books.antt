-- ===== src/Raylet/Scheduler/Books.antt =====
-- The books of a node (crates/ray-raylet/src/scheduler.rs): the dispatched tasks and the leases
-- through a command.
use ray_rust.Common.{
  String, ◌≡◌, refl, ap, ◌∙◌, true, false, not, Option, List, [], ◌∷◌, ◌++◌, map, ◌==◌, ◌⊎◌, inl,
  inr, if◌then◌else◌, Bool-cases, string_eq, All, All-append, All-keep,
}
use mathlib.Core.List.{map-append}
use ray_rust.Common.Int.{ℤ, pos, ◌+ℤ◌, int_laws}
use ray_rust.Core.Id.{id_eq}
use ray_rust.Core.Resources
use ray_rust.Core.Resources.{Resources}
use ray_rust.Core.Resources.Laws.{IsProper}
use ray_rust.Core.Types.{TaskSpec}
use ray_rust.Raylet.ResourceManager.{ResourceManager, try_allocate}
use ray_rust.Raylet.ResourceManager.Ledger.{
  holding, holding-append, Balanced, granted-Balanced, NonNegative, allocate-NonNegative,
}
use ray_rust.Raylet.Scheduler.{
  Command, submit_task, cancel_task, get_status, Phase, spawned, executing, Job, Node,
  dispatch_task, set_status, allocate, run_task, handle, submit, cancel, drain_one, drain_loop,
  drain, process, Event, commands, starts, finishes, leases, step,
}
use ray_rust.Raylet.Worker.{WorkerHandle}

-- A request that a client builds with `set`: its names are distinct and no quantity is negative.
abbrev pub IsFair : Resources → Type 0
IsFair r = IsProper r × NonNegative r

abbrev pub IsFairTask : TaskSpec → Type 0
IsFairTask spec = IsFair spec.required_resources

abbrev pub IsFairEvent : Event → Type 0
IsFairEvent (commands (submit_task spec)) = IsFairTask spec
IsFairEvent (commands (cancel_task task_id)) = Unit
IsFairEvent (commands (get_status task_id)) = Unit
IsFairEvent (starts i worker_id pid) = Unit
IsFairEvent (finishes i result now) = Unit
IsFairEvent (leases required) = IsFair required

-- What the dispatched tasks hold.
abbrev pub required_by : List Job → List Resources
required_by jobs = map (λ j. j.spec.required_resources) jobs

-- The leases that are out after a step: an event that grants one adds it, and none is given back.
abbrev pub add_lease : List Resources → Node → Event → List Resources
add_lease held n (commands c) = held
add_lease held n (starts i worker_id pid) = held
add_lease held n (finishes i result now) = held
add_lease held n (leases required) =
    if Resources.can_satisfy n.resource_manager.available required then required ∷ held else held

abbrev pub leases_after : List Resources → Node → List Event → List Resources
leases_after held n [] = held
leases_after held n (e ∷ es) = leases_after (add_lease held n e) (step n e) es

pub record IsSound (total : Resources) (held : List Resources) (n : Node) : Type 0 where
  pub same_total : n.resource_manager.total ≡ total
  pub balanced : Balanced n.resource_manager (held ++ required_by n.jobs)
  pub nonneg : NonNegative n.resource_manager.available
  pub jobs_fair : All (λ j. IsFairTask j.spec) n.jobs
  pub queue_fair : All IsFairTask n.pending_queue

holding-swap :
    (name : String) (held : List Resources) (xs : List Job) (q : Resources)
    → holding name (q ∷ (held ++ required_by xs))
      ≡ holding name (held ++ (required_by xs ++ q ∷ []))
unfolding holding
holding-swap name held xs q =
    rw
      (
        holding-append name held (required_by xs),
        holding-append name held (required_by xs ++ q ∷ []),
        holding-append name (required_by xs) (q ∷ []),
      )
      (move _ _ _)
  where
    move : (a b c : ℤ) → a +ℤ (b +ℤ c) ≡ b +ℤ (c +ℤ (a +ℤ pos 0))
    move a b c = omega int_laws

-- A task is dispatched with what was allocated for it.
run_task-IsSound :
    (total : Resources) (held : List Resources) (n : Node) (rm : ResourceManager) (spec : TaskSpec)
    → IsSound total held n
    → IsFairTask spec
    → rm.total ≡ total
    → NonNegative rm.available
    → Balanced rm (spec.required_resources ∷ (held ++ required_by n.jobs))
    → IsSound total held (run_task (record n { resource_manager = rm }) spec)
unfolding run_task dispatch_task set_status
run_task-IsSound total held n rm spec s fair same nonneg b = record {
  same_total = same;
  balanced = λ name.
      rw
        (map-append (λ j. j.spec.required_resources) n.jobs
          (record { spec = spec; phase = spawned } ∷ []))
        (b name
          ∙ ap (λ h. Resources.get rm.available name +ℤ h)
              (holding-swap name held n.jobs spec.required_resources));
  nonneg = nonneg;
  jobs_fair = All-append (λ j. IsFairTask j.spec) n.jobs _ s.jobs_fair (fair, tt);
  queue_fair = s.queue_fair;
}

pub Phase-cases : (p : Phase) → (p ≡ spawned) ⊎ ((w : Option WorkerHandle) × (p ≡ executing w))
Phase-cases spawned = inl refl
Phase-cases (executing w) = inr (w, refl)

-- The node once the resources of a task are taken.
abbrev pub taken : Node → TaskSpec → Node
taken n spec = record n {
  resource_manager = (try_allocate n.resource_manager spec.required_resources).1;
}

-- What `allocate` may answer.
pub allocate-cases :
    (n : Node) (spec : TaskSpec)
    → ((Resources.can_satisfy n.resource_manager.available spec.required_resources ≡ true)
        × (allocate n spec ≡ (true, taken n spec)))
      ⊎ ((Resources.can_satisfy n.resource_manager.available spec.required_resources ≡ false)
          × (allocate n spec ≡ (false, n)))
unfolding allocate try_allocate
allocate-cases n spec =
    elim (Bool-cases (Resources.can_satisfy n.resource_manager.available spec.required_resources)) [
      | inl fits ↦ inl (fits, rw fits refl)
      | inr short ↦ inr (short, rw short refl)
    ]

pub granted_task :
    (total : Resources) (held : List Resources) (n : Node) (spec : TaskSpec)
    → IsSound total held n
    → IsFairTask spec
    → Resources.can_satisfy n.resource_manager.available spec.required_resources ≡ true
    → IsSound total held (run_task (taken n spec) spec)
granted_task total held n spec s fair fits =
    let (same, b) =
      granted-Balanced n.resource_manager spec.required_resources (held ++ required_by n.jobs)
        fair.0 s.balanced fits in
    run_task-IsSound total held n (try_allocate n.resource_manager spec.required_resources).1 spec s
      fair (same ∙ s.same_total)
      (allocate-NonNegative n.resource_manager spec.required_resources fair.0 s.nonneg) b

-- Neither the statuses nor the queue matter to the books.
pub requeue :
    (total : Resources) (held : List Resources) (n : Node) (queue : List TaskSpec)
    → IsSound total held n
    → All IsFairTask queue
    → IsSound total held (record n { pending_queue = queue })
requeue total held n queue s q = record {
  same_total = s.same_total;
  balanced = s.balanced;
  nonneg = s.nonneg;
  jobs_fair = s.jobs_fair;
  queue_fair = q;
}

drain_loop-IsSound :
    (total : Resources) (held : List Resources) (n : Node) (queue still : List TaskSpec)
    → IsSound total held n
    → All IsFairTask queue
    → All IsFairTask still
    → IsSound total held (drain_loop n queue still)
unfolding drain_loop drain_one
drain_loop-IsSound total held n [] still s q p = requeue total held n still s p
drain_loop-IsSound total held n (spec ∷ rest) still s q p = elim (allocate-cases n spec) [
  | inl (fits, e) ↦
      rw (e, drain_one)
        (drain_loop-IsSound total held (run_task (taken n spec) spec) rest still
          (granted_task total held n spec s q.0 fits) q.1 p)
  | inr (short, e) ↦
      rw (e, drain_one)
        (drain_loop-IsSound total held n rest (still ++ spec ∷ []) s q.1
          (All-append IsFairTask still (spec ∷ []) p (q.0, tt)))
]

submit-IsSound :
    (total : Resources) (held : List Resources) (n : Node) (spec : TaskSpec)
    → IsSound total held n
    → IsFairTask spec
    → IsSound total held (submit (allocate n spec) spec)
unfolding submit set_status
submit-IsSound total held n spec s fair = elim (allocate-cases n spec) [
  | inl (fits, e) ↦ rw e (granted_task total held n spec s fair fits)
  | inr (short, e) ↦ rw e (record {
    same_total = s.same_total;
    balanced = s.balanced;
    nonneg = s.nonneg;
    jobs_fair = s.jobs_fair;
    queue_fair = All-append IsFairTask n.pending_queue (spec ∷ []) s.queue_fair (fair, tt);
  })
]

pub handle-IsSound :
    (total : Resources) (held : List Resources) (n : Node) (c : Command)
    → IsSound total held n
    → IsFairEvent (commands c)
    → IsSound total held (handle n c)
unfolding handle cancel
handle-IsSound total held n (submit_task spec) s fair = submit-IsSound total held n spec s fair
handle-IsSound total held n (get_status task_id) s fair = s
handle-IsSound total held n (cancel_task task_id) s fair = record {
  same_total = s.same_total;
  balanced = s.balanced;
  nonneg = s.nonneg;
  jobs_fair = s.jobs_fair;
  queue_fair = All-keep IsFairTask (λ t. not (t.task_id == task_id)) n.pending_queue s.queue_fair;
}

pub process-IsSound :
    (total : Resources) (held : List Resources) (n : Node) (c : Command)
    → IsSound total held n
    → IsFairEvent (commands c)
    → IsSound total held (process n c)
unfolding process drain
process-IsSound total held n c s fair =
    let handled = handle-IsSound total held n c s fair in
    drain_loop-IsSound total held (handle n c) (handle n c).pending_queue [] handled
      handled.queue_fair tt
