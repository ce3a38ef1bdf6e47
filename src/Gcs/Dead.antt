-- ===== src/Gcs/Dead.antt =====
-- crates/ray-gcs: actors that were killed, through the calls of the service.
use mathlib.Core.Path.{subst}
use ray_rust.Common.{
  ◌≡◌, ◌≢◌, refl, sym, ap, ◌∙◌, Option, none, some, List, [], ◌∷◌, ◌==◌, inl, inr, Bool-cases,
  if◌then◌else◌, All,
}
use ray_rust.Common.Int.{ℤ}
use ray_rust.Common.HashMap
use ray_rust.Common.HashMap.{HashMap}
use ray_rust.Common.HashMap.Laws.{get-insert}
use ray_rust.Core.Convert.{id_from_proto, actor_spec_from_proto}
use ray_rust.Core.Error.{RayError, RayResult-cases, ok as done, err as failed}
use ray_rust.Core.Id.{ActorId, id_eq}
use ray_rust.Core.Proto.{ProtoId}
use ray_rust.Core.Types.{ActorState, NodeInfo, ActorInfo, ActorSpec}
use ray_rust.Gcs.Lifecycle.{killed, kill_actor_lem, inserted, converted}
use ray_rust.Gcs.Store
use ray_rust.Gcs.Store.{InMemoryGcsStore, in_memory, new_actor}
use ray_rust.Gcs.Server
use ray_rust.Gcs.Server.{
  heartbeat_write, mark_job_finished, register_converted, register_actor, get_actor_info,
  kill_actor, found_actor, Call, registers_node, unregisters_node, heartbeats, registers_actor,
  kills_actor, adds_job, finishes_job, reports_usage, step, run,
}

-- The actor is in the store, and dead.
abbrev pub IsDead : InMemoryGcsStore → ActorId → Type 0
IsDead s id = (a : ActorInfo) × (HashMap.get s.actors id ≡ some a) × (a.state ≡ ActorState.dead)

-- A call that does not register the actor anew.
abbrev pub Spares : ActorId → Call → Type 0
Spares id (registers_node n) = Unit
Spares id (unregisters_node p) = Unit
Spares id (heartbeats h) = Unit
Spares id (registers_actor none) = Unit
Spares id (registers_actor (some spec)) =
    (core_spec : ActorSpec) → actor_spec_from_proto spec ≡ done core_spec → core_spec.actor_id ≢ id
Spares id (kills_actor p) = Unit
Spares id (adds_job j) = Unit
Spares id (finishes_job now p) = Unit
Spares id (reports_usage u) = Unit

registered-IsDead :
    (s : InMemoryGcsStore) (core_spec : ActorSpec) (id : ActorId)
    → core_spec.actor_id ≢ id
    → IsDead s id
    → IsDead (register_converted in_memory s (done core_spec)).1 id
registered-IsDead s core_spec id apart (a, found, dead) = (
  a,
  ap (λ m. HashMap.get m id) (inserted s core_spec)
      ∙ get-insert s.actors core_spec.actor_id (new_actor core_spec) id
      ∙ other,
  dead,
)
  where
    other :
        (if core_spec.actor_id == id then some (new_actor core_spec) else HashMap.get s.actors id)
        ≡ some a
    other = elim (Bool-cases (core_spec.actor_id == id)) [
      | inl same ↦ absurd (apart ((id_eq.beq_iff core_spec.actor_id id).0 same))
      | inr differ ↦ rw differ found
    ]

killed-IsDead :
    (s : InMemoryGcsStore) (p : ProtoId) (id : ActorId)
    → IsDead s id
    → IsDead (kill_actor in_memory s (some p)).1 id
killed-IsDead s p id (a, found, dead) = elim (kill_actor_lem s p) [
  | inr (unknown, refused, same) ↦ (a, ap (λ t. HashMap.get t.actors id) same ∙ found, dead)
  | inl (b, known, accepts, each) ↦ elim (Bool-cases (id_from_proto p == id)) [
    | inl hit ↦ (killed a, each id ∙ rw (hit, found) refl, refl)
    | inr miss ↦ (a, each id ∙ rw miss found, dead)
  ]
]

heartbeat-same_actors :
    (s : InMemoryGcsStore) (entry : Option NodeInfo)
    → (heartbeat_write in_memory s entry).actors ≡ s.actors
unfolding heartbeat_write in_memory Store.register_node
heartbeat-same_actors s none = refl
heartbeat-same_actors s (some n) = refl

finish-same_actors :
    (s : InMemoryGcsStore) (now : ℤ) (request : Option ProtoId)
    → (mark_job_finished in_memory s now request).1.actors ≡ s.actors
unfolding mark_job_finished in_memory Store.mark_job_finished
finish-same_actors s now none = refl
finish-same_actors s now (some p) =
    elim (Bool-cases (HashMap.contains_key s.jobs (id_from_proto p))) [
      | inl known ↦ rw known refl
      | inr unknown ↦ rw unknown refl
    ]

kept-IsDead :
    (s s' : InMemoryGcsStore) (id : ActorId) → s'.actors ≡ s.actors → IsDead s id → IsDead s' id
kept-IsDead s s' id same (a, found, dead) = (a, ap (λ m. HashMap.get m id) same ∙ found, dead)

refused :
    (s : InMemoryGcsStore) (e : RayError)
    → (register_converted in_memory s (failed e)).1.actors ≡ s.actors
unfolding register_converted
refused s e = refl

nothing_registered : (s : InMemoryGcsStore) → (register_actor in_memory s none).1.actors ≡ s.actors
unfolding register_actor
nothing_registered s = refl

nothing_killed : (s : InMemoryGcsStore) → (kill_actor in_memory s none).1.actors ≡ s.actors
unfolding kill_actor
nothing_killed s = refl

step-IsDead :
    (s : InMemoryGcsStore) (c : Call) (id : ActorId)
    → Spares id c
    → IsDead s id
    → IsDead (step in_memory s c) id
unfolding step Server.report_node_heartbeat Server.register_node Server.unregister_node
    Server.add_job Server.report_resource_usage in_memory Store.register_node Store.unregister_node
    Store.add_job Store.report_resource_usage
step-IsDead s (registers_node none) id h d = d
step-IsDead s (registers_node (some n)) id h d = d
step-IsDead s (unregisters_node none) id h d = d
step-IsDead s (unregisters_node (some p)) id h d = d
step-IsDead s (heartbeats request) id h d =
    kept-IsDead s (heartbeat_write in_memory s (Server.heartbeat_read in_memory s request)) id
      (heartbeat-same_actors s (Server.heartbeat_read in_memory s request)) d
step-IsDead s (registers_actor none) id h d =
    kept-IsDead s (register_actor in_memory s none).1 id (nothing_registered s) d
step-IsDead s (registers_actor (some spec)) id h d =
    elim (RayResult-cases (actor_spec_from_proto spec)) [
      | inl (core_spec, e) ↦
          subst (λ r. IsDead r.1 id) (sym (converted s spec (done core_spec) e))
            (registered-IsDead s core_spec id (h core_spec e) d)
      | inr (e, h') ↦
          subst (λ r. IsDead r.1 id) (sym (converted s spec (failed e) h'))
            (kept-IsDead s (register_converted in_memory s (failed e)).1 id (refused s e) d)
    ]
step-IsDead s (kills_actor none) id h d =
    kept-IsDead s (kill_actor in_memory s none).1 id (nothing_killed s) d
step-IsDead s (kills_actor (some p)) id h d = killed-IsDead s p id d
step-IsDead s (adds_job none) id h d = d
step-IsDead s (adds_job (some j)) id h d = d
step-IsDead s (finishes_job now request) id h d =
    kept-IsDead s (mark_job_finished in_memory s now request).1 id
      (finish-same_actors s now request) d
step-IsDead s (reports_usage none) id h d = d
step-IsDead s (reports_usage (some u)) id h d = d

-- A dead actor stays in the store and stays dead, whatever calls follow, as long as none of them
-- registers it anew.
pub run-IsDead :
    (s : InMemoryGcsStore) (cs : List Call) (id : ActorId)
    → All (Spares id) cs
    → IsDead s id
    → IsDead (run in_memory s cs) id
unfolding run
run-IsDead s [] id h d = d
run-IsDead s (c ∷ cs) id h d = run-IsDead (step in_memory s c) cs id h.1 (step-IsDead s c id h.0 d)
