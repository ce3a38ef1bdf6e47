-- ===== src/Gcs/Nodes.antt =====
-- The map of nodes in crates/ray-gcs/src/store.rs through the calls of the service.
use mathlib.Core.Path.{subst}
use ray_rust.Common.{
  ◌≡◌, refl, sym, ap, Option, none, some, List, [], ◌∷◌, ◌==◌, Bool-cases, inl, inr, All, arith,
}
use ray_rust.Common.Int.{ℤ}
use ray_rust.Common.HashMap
use ray_rust.Common.HashMap.{HashMap, Unique}
use ray_rust.Common.HashMap.Laws.{Unique-insert, Unique-remove}
use ray_rust.Core.Convert.{id_from_proto, actor_spec_from_proto}
use ray_rust.Core.Error.{RayResult, ok as done, err as failed}
use ray_rust.Core.Id.{NodeId, id_eq}
use ray_rust.Core.Proto.{ProtoId, ProtoActorSpec}
use ray_rust.Core.Types.{NodeInfo, ActorSpec}
use ray_rust.Gcs.Store
use ray_rust.Gcs.Store.{InMemoryGcsStore, in_memory}
use ray_rust.Gcs.Translate.{node_of_message}
use ray_rust.Gcs.Server
use ray_rust.Gcs.Server.{
  find_node, with_available, reported, heartbeat_read, heartbeat_write, report_node_heartbeat, Call,
  registers_node, unregisters_node, heartbeats, registers_actor, kills_actor, adds_job,
  finishes_job, reports_usage, step, run,
}

-- Every node stands under its own identifier, and once.
abbrev pub IsKeyed : HashMap NodeId NodeInfo → Type 0
IsKeyed m = Unique m × All (λ e. e.0 ≡ e.1.node_id) m

pub insert-IsKeyed :
    (m : HashMap NodeId NodeInfo) (n : NodeInfo)
    → IsKeyed m
    → IsKeyed (HashMap.insert m n.node_id n)
unfolding HashMap.insert
insert-IsKeyed m n h = (Unique-insert m n.node_id n h.0, keys m h.1)
  where
    keys :
        (m : HashMap NodeId NodeInfo)
        → All (λ e. e.0 ≡ e.1.node_id) m
        → All (λ e. e.0 ≡ e.1.node_id) (HashMap.insert m n.node_id n)
    keys [] h = (refl, tt)
    keys ((k, w) ∷ m) h = ground (arith, id_eq.beq_iff k n.node_id, keys m h.1)

remove-IsKeyed :
    (m : HashMap NodeId NodeInfo) (k : NodeId) → IsKeyed m → IsKeyed (HashMap.remove m k)
unfolding HashMap.remove
remove-IsKeyed m k h = (Unique-remove m k h.0, keys m h.1)
  where
    keys :
        (m : HashMap NodeId NodeInfo)
        → All (λ e. e.0 ≡ e.1.node_id) m
        → All (λ e. e.0 ≡ e.1.node_id) (HashMap.remove m k)
    keys [] h = tt
    keys ((j, w) ∷ m) h = ground (arith, keys m h.1)

pub find_node-get :
    (m : HashMap NodeId NodeInfo) (id : NodeId)
    → All (λ e. e.0 ≡ e.1.node_id) m
    → find_node (HashMap.values m) id ≡ HashMap.get m id
unfolding find_node HashMap.get
find_node-get [] id h = refl
find_node-get ((k, w) ∷ m) id h = ground (arith, h.0, ap (λ x. x == id) h.0, find_node-get m id h.1)

pub get-node_id :
    (m : HashMap NodeId NodeInfo) (id : NodeId) (n : NodeInfo)
    → All (λ e. e.0 ≡ e.1.node_id) m
    → HashMap.get m id ≡ some n
    → n.node_id ≡ id
unfolding HashMap.get
get-node_id [] id n h e = cc
get-node_id ((k, w) ∷ m) id n h e = ground (arith, h.0, id_eq.beq_iff k id, get-node_id m id n h.1)

write-IsKeyed :
    (s : InMemoryGcsStore) (entry : Option NodeInfo)
    → IsKeyed s.nodes
    → IsKeyed (heartbeat_write in_memory s entry).nodes
unfolding heartbeat_write in_memory Store.register_node
write-IsKeyed s none h = h
write-IsKeyed s (some n) h = insert-IsKeyed s.nodes n h

kill-same_nodes :
    (s : InMemoryGcsStore) (request : Option ProtoId)
    → (Server.kill_actor in_memory s request).1.nodes ≡ s.nodes
unfolding Server.kill_actor in_memory Store.kill_actor
kill-same_nodes s none = refl
kill-same_nodes s (some p) = elim (Bool-cases (HashMap.contains_key s.actors (id_from_proto p))) [
  | inl known ↦ rw known refl
  | inr unknown ↦ rw unknown refl
]

finish-same_nodes :
    (s : InMemoryGcsStore) (now : ℤ) (request : Option ProtoId)
    → (Server.mark_job_finished in_memory s now request).1.nodes ≡ s.nodes
unfolding Server.mark_job_finished in_memory Store.mark_job_finished
finish-same_nodes s now none = refl
finish-same_nodes s now (some p) =
    elim (Bool-cases (HashMap.contains_key s.jobs (id_from_proto p))) [
      | inl known ↦ rw known refl
      | inr unknown ↦ rw unknown refl
    ]

converted-same_nodes :
    (s : InMemoryGcsStore) (r : RayResult ActorSpec)
    → (Server.register_converted in_memory s r).1.nodes ≡ s.nodes
unfolding Server.register_converted in_memory Store.register_actor
converted-same_nodes s (failed e) = refl
converted-same_nodes s (done core_spec) = refl

actor-same_nodes :
    (s : InMemoryGcsStore) (request : Option ProtoActorSpec)
    → (Server.register_actor in_memory s request).1.nodes ≡ s.nodes
unfolding Server.register_actor
actor-same_nodes s none = refl
actor-same_nodes s (some spec) = converted-same_nodes s (actor_spec_from_proto spec)

step-IsKeyed :
    (s : InMemoryGcsStore) (c : Call) → IsKeyed s.nodes → IsKeyed (step in_memory s c).nodes
unfolding step report_node_heartbeat Server.register_node Server.unregister_node Server.add_job
    Server.report_resource_usage in_memory Store.register_node Store.unregister_node Store.add_job
    Store.report_resource_usage
step-IsKeyed s (registers_node none) h = h
step-IsKeyed s (registers_node (some n)) h = insert-IsKeyed s.nodes (node_of_message n) h
step-IsKeyed s (unregisters_node none) h = h
step-IsKeyed s (unregisters_node (some p)) h = remove-IsKeyed s.nodes (id_from_proto p) h
step-IsKeyed s (heartbeats request) h = write-IsKeyed s (heartbeat_read in_memory s request) h
step-IsKeyed s (registers_actor request) h = subst IsKeyed (sym (actor-same_nodes s request)) h
step-IsKeyed s (kills_actor request) h = subst IsKeyed (sym (kill-same_nodes s request)) h
step-IsKeyed s (adds_job none) h = h
step-IsKeyed s (adds_job (some j)) h = h
step-IsKeyed s (finishes_job now request) h =
    subst IsKeyed (sym (finish-same_nodes s now request)) h
step-IsKeyed s (reports_usage none) h = h
step-IsKeyed s (reports_usage (some u)) h = h

pub run-IsKeyed :
    (s : InMemoryGcsStore) (cs : List Call) → IsKeyed s.nodes → IsKeyed (run in_memory s cs).nodes
unfolding run
run-IsKeyed s [] h = h
run-IsKeyed s (c ∷ cs) h = run-IsKeyed (step in_memory s c) cs (step-IsKeyed s c h)

pub new-IsKeyed : IsKeyed Store.new.nodes
unfolding Store.new
new-IsKeyed = (tt, tt)
