-- ===== src/Raylet/Scheduler/Steps/Outstanding.antt =====
-- What the scheduler of crates/ray-raylet/src/scheduler.rs has to answer for: the tasks that enter
-- by a step, those that end by it, and those in between.
use mathlib.Core.List.{append_assoc, Perm, perm_middle, perm_append_comm}
use mathlib.Core.List.Perm
use ray_rust.Common.{
  Bool, not, Option, none, some, List, [], ◌∷◌, ◌++◌, map, keep, get_elem?, Bool-cases, inl, inr,
  ◌==◌,
}
use ray_rust.Core.Id.{id_eq}
use ray_rust.Core.Types.{TaskSpec}
use ray_rust.Raylet.Scheduler.{
  Command, submit_task, cancel_task, get_status, Phase, spawned, executing, Job, Node,
}
use ray_rust.Raylet.Scheduler.Queue.{open_tasks}
use ray_rust.Raylet.Scheduler.Steps.{
  Control, waiting, draining, Loop, Event, takes, drains, starts, finishes, leases, step,
}

-- The queue, also in the middle of a drain.
abbrev pub queue_of : Node → Control → List TaskSpec
queue_of n waiting = n.pending_queue
queue_of n (draining rest still) = still ++ rest

-- Dispatched or queued.
abbrev pub known : Loop → List TaskSpec
known l = open_tasks l.node.jobs (queue_of l.node l.control)

-- The tasks that a step brings in: a submission that the loop takes.
abbrev pub entering : Control → Command → List TaskSpec
entering waiting (submit_task spec) = spec ∷ []
entering waiting (cancel_task task_id) = []
entering waiting (get_status task_id) = []
entering (draining rest still) c = []

abbrev pub entered : Loop → Event → List TaskSpec
entered l (takes c) = entering l.control c
entered l drains = []
entered l (starts i worker_id pid) = []
entered l (finishes i result now) = []
entered l (leases required) = []

-- The tasks that a step ends: the queued ones of a cancelled identifier, and an executing one.
abbrev pub cancelled_by : Node → Control → Command → List TaskSpec
cancelled_by n waiting (submit_task spec) = []
cancelled_by n waiting (cancel_task task_id) = keep (λ s. s.task_id == task_id) n.pending_queue
cancelled_by n waiting (get_status task_id) = []
cancelled_by n (draining rest still) c = []

abbrev pub ending : TaskSpec → Phase → List TaskSpec
ending spec spawned = []
ending spec (executing w) = spec ∷ []

abbrev pub ended_at : Option Job → List TaskSpec
ended_at none = []
ended_at (some job) = ending job.spec job.phase

abbrev pub ended : Loop → Event → List TaskSpec
ended l (takes c) = cancelled_by l.node l.control c
ended l drains = []
ended l (starts i worker_id pid) = []
ended l (finishes i result now) = ended_at (get_elem? l.node.jobs i)
ended l (leases required) = []

abbrev pub all_entered : Loop → List Event → List TaskSpec
all_entered l [] = []
all_entered l (e ∷ es) = entered l e ++ all_entered (step l e) es

abbrev pub all_ended : Loop → List Event → List TaskSpec
all_ended l [] = []
all_ended l (e ∷ es) = ended l e ++ all_ended (step l e) es

abbrev pub specs : List Job → List TaskSpec
specs jobs = map (λ j. j.spec) jobs

module _ {A : Type 0} where
  pub keep-Perm : (p : A → Bool) (xs : List A) → Perm (keep p xs ++ keep (λ x. not (p x)) xs) xs
  keep-Perm p [] = Perm.refl []
  keep-Perm p (x ∷ xs) = elim (Bool-cases (p x)) [
    | inl passes ↦ rw passes (Perm.cons x (keep-Perm p xs))
    | inr fails ↦ rw fails (
        Perm.trans (perm_middle (keep p xs) (keep (λ y. not (p y)) xs))
          (Perm.cons x (keep-Perm p xs)))
  ]

  pub front_swap : (a b c : List A) → Perm (a ++ (b ++ c)) (b ++ (a ++ c))
  front_swap a b c =
      rw (← append_assoc a b c, ← append_assoc b a c) (Perm.append_right c (perm_append_comm a b))
