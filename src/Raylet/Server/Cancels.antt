-- ===== src/Raylet/Server/Cancels.antt =====
-- `cancel_task` and `get_task_status` of crates/ray-raylet/src/server.rs, over the event loop of
-- crates/ray-raylet/src/scheduler.rs.
use mathlib.Core.List.{append_assoc, append-nil}
use ray_rust.Common.{
  ◌≡◌, refl, sym, ap, ◌∙◌, ◌⊎◌, inl, inr, true, false, not, Option, none, some, List, [], ◌∷◌, ◌++◌,
  keep, All, All-append, Option-cases, option_map, ◌==◌, beq_refl, arith,
}
use ray_rust.Common.Int.{pos}
use ray_rust.Common.HashMap
use ray_rust.Common.HashMap.Laws.{get-insert, get-modify}
use ray_rust.Core.Convert.{id_from_proto, task_status_to_proto}
use ray_rust.Core.Error.{ok_or, task_not_found}
use ray_rust.Core.Id.{TaskId, id_eq}
use ray_rust.Core.Proto.{ProtoId}
use ray_rust.Core.Status
use ray_rust.Core.Status.{ok, err}
use ray_rust.Core.Types.{TaskSpec, TaskStatus}
use ray_rust.Raylet.Scheduler.{
  Node, Job, spawned, cancel_task as cancels, dispatch_task, set_status, run_task, cancel, status,
  handle, drain_one, drain_loop, drain, process,
}
use ray_rust.Raylet.Scheduler.Books.{allocate-cases, taken}
use ray_rust.Raylet.Server.{
  cancel_task, get_task_status, send_cancel, send_get_status, status_reply,
}

abbrev IsOther : TaskId → TaskSpec → Type 0
IsOther id spec = (spec.task_id == id) ≡ false

-- The dispatched tasks go on, others of another identifier come behind them, and the status of the
-- identifier is kept.
pub record Spares (id : TaskId) (n n' : Node) : Type 0 where
  pub extra : List Job
  pub jobs : n'.jobs ≡ n.jobs ++ extra
  pub others : All (λ j. (j.spec.task_id == id) ≡ false) extra
  pub same_status : HashMap.get n'.task_statuses id ≡ HashMap.get n.task_statuses id

run_task-Spares :
    (id : TaskId) (n : Node) (spec : TaskSpec)
    → IsOther id spec
    → Spares id n (run_task (taken n spec) spec)
unfolding run_task dispatch_task set_status
run_task-Spares id n spec other = record {
  extra = record { spec = spec; phase = spawned } ∷ [];
  jobs = refl;
  others = (other, tt);
  same_status = get-insert n.task_statuses spec.task_id TaskStatus.running id ∙ rw other refl;
}

Spares-trans : {id : TaskId} {a b c : Node} → Spares id a b → Spares id b c → Spares id a c
Spares-trans {id} {a} {b} {c} x y = record {
  extra = x.extra ++ y.extra;
  jobs = y.jobs ∙ ap (λ l. l ++ y.extra) x.jobs ∙ append_assoc a.jobs x.extra y.extra;
  others = All-append (λ j. (j.spec.task_id == id) ≡ false) x.extra y.extra x.others y.others;
  same_status = y.same_status ∙ x.same_status;
}

drain_loop-Spares :
    (id : TaskId) (n : Node) (queue still : List TaskSpec)
    → All (IsOther id) queue
    → Spares id n (drain_loop n queue still)
unfolding drain_loop drain_one
drain_loop-Spares id n [] still others = record {
  extra = [];
  jobs = sym (append-nil n.jobs);
  others = tt;
  same_status = refl;
}
drain_loop-Spares id n (spec ∷ rest) still others = elim (allocate-cases n spec) [
  | inl (fits, e) ↦
      rw (e, drain_loop, drain_one)
        (Spares-trans (run_task-Spares id n spec others.0)
          (drain_loop-Spares id (run_task (taken n spec) spec) rest still others.1))
  | inr (short, e) ↦
      rw (e, drain_loop, drain_one) (drain_loop-Spares id n rest (still ++ spec ∷ []) others.1)
]

kept_others :
    (id : TaskId) (queue : List TaskSpec)
    → All (IsOther id) (keep (λ s. not (s.task_id == id)) queue)
kept_others id [] = tt
kept_others id (spec ∷ rest) = ground (arith, kept_others id rest)

cancel-Spares : (n : Node) (id : TaskId) → Spares id (cancel n id) (process n (cancels id))
unfolding process drain handle cancel
cancel-Spares n id =
    drain_loop-Spares id (cancel n id) (cancel n id).pending_queue []
      (kept_others id n.pending_queue)

-- What the service tells of a task.
told :
    (n : Node) (p : ProtoId)
    → (get_task_status n (some p)).0
      ≡ status_reply (ok_or (HashMap.get n.task_statuses (id_from_proto p)) task_not_found)
unfolding get_task_status send_get_status status
told n p = refl

cancelled_status :
    (n : Node) (id : TaskId)
    → HashMap.get (cancel n id).task_statuses id
      ≡ option_map (λ _. TaskStatus.cancelled) (HashMap.get n.task_statuses id)
unfolding cancel
cancelled_status n id =
    get-modify n.task_statuses id (λ _. TaskStatus.cancelled) id ∙ rw (beq_refl id) refl

same_jobs : (n : Node) (id : TaskId) → (cancel n id).jobs ≡ n.jobs
unfolding cancel
same_jobs n id = refl

told_after :
    (n : Node) (p : ProtoId) (found : Option TaskStatus)
    → HashMap.get n.task_statuses (id_from_proto p) ≡ found
    → (get_task_status (process n (cancels (id_from_proto p))) (some p)).0
      ≡ status_reply (ok_or (option_map (λ _. TaskStatus.cancelled) found) task_not_found)
told_after n p found e =
    told (process n (cancels (id_from_proto p))) p
    ∙ ap (λ o. status_reply (ok_or o task_not_found))
        ((cancel-Spares n (id_from_proto p)).same_status
          ∙ cancelled_status n (id_from_proto p)
          ∙ ap (option_map (λ _. TaskStatus.cancelled)) e)

-- A cancel request, handled with the drain of the queue after it and nothing in between, is
-- accepted whether or not there is such a task. Every task that was dispatched stays dispatched,
-- also the cancelled one, and none of that identifier is dispatched in the drain; a task that the
-- scheduler knows, also one that runs, is then reported as cancelled (6 on the wire), and an
-- unknown one is still not found.
pub cancel_task_lem :
    (n : Node) (p : ProtoId)
    → let id = id_from_proto {size = 16} p in
      let r = cancel_task n (some p) in
      (r.0 ≡ ok true)
      × ((extra : List Job) × (r.1.jobs ≡ n.jobs ++ extra)
          × All (λ j. (j.spec.task_id == id) ≡ false) extra)
      × (((s : TaskStatus) × (HashMap.get n.task_statuses id ≡ some s)
            × ((get_task_status r.1 (some p)).0
                ≡ ok (record { status = pos 6; error_message = "" })))
          ⊎ ((HashMap.get n.task_statuses id ≡ none)
              × ((get_task_status r.1 (some p)).0 ≡ err (Status.internal task_not_found))))
unfolding cancel_task send_cancel status_reply task_status_to_proto
cancel_task_lem n p =
    let id = id_from_proto {size = 16} p in
    let x = cancel-Spares n id in
    (
      refl,
      (x.extra, x.jobs ∙ ap (λ l. l ++ x.extra) (same_jobs n id), x.others),
      elim (Option-cases (HashMap.get n.task_statuses id)) [
        | inr (s, known) ↦ inl (s, known, told_after n p (some s) known)
        | inl unknown ↦ inr (unknown, told_after n p none unknown)
      ],
    )
