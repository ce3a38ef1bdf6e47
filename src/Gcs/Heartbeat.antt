-- ===== src/Gcs/Heartbeat.antt =====
-- `report_node_heartbeat` of crates/ray-gcs/src/server.rs over the store in memory.
use ray_rust.Common.{
  ◌≡◌, refl, sym, ap, ◌∙◌, Bool, true, none, some, List, ◌==◌, Bool-cases, inl, inr, if◌then◌else◌,
  option_map, Option-cases, All, arith, beq_refl,
}
use ray_rust.Common.HashMap
use ray_rust.Common.HashMap.{HashMap, Unique}
use ray_rust.Common.HashMap.Laws.{get-insert, get-remove}
use ray_rust.Core.Convert.{id_from_proto, resources_from_proto}
use ray_rust.Core.Id.{NodeId, id_eq}
use ray_rust.Core.Proto.{ProtoId, ProtoResources}
use ray_rust.Core.Resources.{Resources}
use ray_rust.Core.Types.{NodeInfo}
use ray_rust.Gcs.Messages.{NodeHeartbeatRequest}
use ray_rust.Gcs.Nodes.{IsKeyed, find_node-get, get-node_id, run-IsKeyed, new-IsKeyed}
use ray_rust.Gcs.Store
use ray_rust.Gcs.Store.{InMemoryGcsStore, in_memory}
use ray_rust.Gcs.Server
use ray_rust.Gcs.Server.{
  find_node, with_available, reported, heartbeat_read, heartbeat_write, report_node_heartbeat, Call,
  registers_node, unregisters_node, heartbeats, registers_actor, kills_actor, adds_job,
  finishes_job, reports_usage, step, run,
}

-- A heartbeat that names a node and its resources.
abbrev pub heartbeat : ProtoId → ProtoResources → NodeHeartbeatRequest
heartbeat node_id avail = record { node_id = some node_id; available_resources = some avail }

read_lem :
    (s : InMemoryGcsStore) (p : ProtoId) (avail : ProtoResources)
    → IsKeyed s.nodes
    → heartbeat_read in_memory s (heartbeat p avail)
      ≡ option_map
          (with_available (resources_from_proto avail))
          (HashMap.get s.nodes (id_from_proto p))
unfolding heartbeat_read reported in_memory Store.get_all_nodes
read_lem s p avail keyed =
    ap (option_map (with_available (resources_from_proto avail)))
      (find_node-get s.nodes (id_from_proto p) keyed.1)

write_lem :
    (s : InMemoryGcsStore) (id j : NodeId) (n : NodeInfo)
    → n.node_id ≡ id
    → HashMap.get (heartbeat_write in_memory s (some n)).nodes j
      ≡ (if id == j then some n else HashMap.get s.nodes j)
unfolding heartbeat_write in_memory Store.register_node
write_lem s id j n e = ground (arith, get-insert s.nodes n.node_id n j, ap (λ x. x == j) e)

-- A change under one key, seen from another.
missing_entry :
    (m : HashMap NodeId NodeInfo) (id j : NodeId) (f : NodeInfo → NodeInfo)
    → HashMap.get m id ≡ none
    → HashMap.get m j ≡ (if id == j then option_map f (HashMap.get m j) else HashMap.get m j)
missing_entry m id j f missing = elim (Bool-cases (id == j)) [
  | inr apart ↦ rw apart refl
  | inl same ↦ rw (same, sym (ap (HashMap.get m) ((id_eq.beq_iff id j).0 same)), missing) refl
]

present_entry :
    (m : HashMap NodeId NodeInfo) (id j : NodeId) (f : NodeInfo → NodeInfo) (n : NodeInfo)
    → HashMap.get m id ≡ some n
    → (if id == j then some (f n) else HashMap.get m j)
      ≡ (if id == j then option_map f (HashMap.get m j) else HashMap.get m j)
present_entry m id j f n found = elim (Bool-cases (id == j)) [
  | inr apart ↦ rw apart refl
  | inl same ↦ rw (same, sym (ap (HashMap.get m) ((id_eq.beq_iff id j).0 same)), found) refl
]

write_nothing : (s : InMemoryGcsStore) → heartbeat_write in_memory s none ≡ s
unfolding heartbeat_write
write_nothing s = refl

beat :
    (s : InMemoryGcsStore) (id j : NodeId) (f : NodeInfo → NodeInfo)
    → ((n : NodeInfo) → (f n).node_id ≡ n.node_id)
    → All (λ e. e.0 ≡ e.1.node_id) s.nodes
    → HashMap.get (heartbeat_write in_memory s (option_map f (HashMap.get s.nodes id))).nodes j
      ≡ (if id == j then option_map f (HashMap.get s.nodes j) else HashMap.get s.nodes j)
beat s id j f same keyed = elim (Option-cases (HashMap.get s.nodes id)) [
  | inl missing ↦
      ap (λ found. HashMap.get (heartbeat_write in_memory s (option_map f found)).nodes j) missing
      ∙ ap (λ s'. HashMap.get s'.nodes j) (write_nothing s)
      ∙ missing_entry s.nodes id j f missing
  | inr (n, found) ↦
      ap (λ x. HashMap.get (heartbeat_write in_memory s (option_map f x)).nodes j) found
      ∙ write_lem s id j (f n) (same n ∙ get-node_id s.nodes id n keyed found)
      ∙ present_entry s.nodes id j f n found
]

with_available-node_id : (r : Resources) (n : NodeInfo) → (with_available r n).node_id ≡ n.node_id
unfolding with_available
with_available-node_id r n = refl

report_lem :
    (s : InMemoryGcsStore) (p : ProtoId) (avail : ProtoResources) (j : NodeId)
    → IsKeyed s.nodes
    → HashMap.get (report_node_heartbeat in_memory s (heartbeat p avail)).1.nodes j ≡ (
        if id_from_proto p == j
        then option_map (with_available (resources_from_proto avail)) (HashMap.get s.nodes j)
        else HashMap.get s.nodes j)
unfolding report_node_heartbeat
report_lem s p avail j keyed =
    ap (λ entry. HashMap.get (heartbeat_write in_memory s entry).nodes j) (read_lem s p avail keyed)
    ∙ beat s (id_from_proto p) j (with_available (resources_from_proto avail))
        (with_available-node_id (resources_from_proto avail)) keyed.1

-- In every state of the service, a heartbeat that names a node and its resources, and between whose
-- read and write nothing comes, writes the resources into the entry of that node if there is one,
-- and changes no other node; it then adds no node.
pub heartbeat_lem :
    (cs : List Call) (p : ProtoId) (avail : ProtoResources) (j : NodeId)
    → let s = run in_memory Store.new cs in
      HashMap.get (report_node_heartbeat in_memory s (heartbeat p avail)).1.nodes j ≡ (
        if id_from_proto p == j
        then option_map (with_available (resources_from_proto avail)) (HashMap.get s.nodes j)
        else HashMap.get s.nodes j)
heartbeat_lem cs p avail j =
    report_lem (run in_memory Store.new cs) p avail j (run-IsKeyed Store.new cs new-IsKeyed)

if_true : {b : Bool} {A : Type 0} {x : A} (y : A) → b ≡ true → (if b then x else y) ≡ x
if_true y h = rw h refl

unregistered :
    (s : InMemoryGcsStore) (p : ProtoId)
    → HashMap.get (Server.unregister_node in_memory s (some p)).1.nodes (id_from_proto p) ≡ none
unfolding Server.unregister_node in_memory Store.unregister_node
unregistered s p =
    get-remove s.nodes (id_from_proto p) (id_from_proto p)
    ∙ if_true _ (beq_refl (id_from_proto {size = 16} p))

written_back :
    (s : InMemoryGcsStore) (p : ProtoId) (n : NodeInfo)
    → n.node_id ≡ id_from_proto p
    → HashMap.get (heartbeat_write in_memory s (some n)).nodes (id_from_proto p) ≡ some n
written_back s p n e =
    write_lem s (id_from_proto p) (id_from_proto p) n e
    ∙ if_true _ (beq_refl (id_from_proto {size = 16} p))

-- The read and the write of a heartbeat are under different locks: when a known node is
-- unregistered between them, the write brings it back, with the reported resources.
pub heartbeat_resurrects :
    (cs : List Call) (p : ProtoId) (avail : ProtoResources) (n : NodeInfo)
    → let s = run in_memory Store.new cs in
      HashMap.get s.nodes (id_from_proto p) ≡ some n
      → let entry = heartbeat_read in_memory s (heartbeat p avail) in
        let gone = (Server.unregister_node in_memory s (some p)).1 in
        let back = heartbeat_write in_memory gone entry in
        (HashMap.get gone.nodes (id_from_proto p) ≡ none)
        × (HashMap.get back.nodes (id_from_proto p)
            ≡ some (with_available (resources_from_proto avail) n))
heartbeat_resurrects cs p avail n found =
    let s = run in_memory Store.new cs in
    let keyed = run-IsKeyed Store.new cs new-IsKeyed in
    let reported_entry = with_available (resources_from_proto avail) n in
    let gone = (Server.unregister_node in_memory s (some p)).1 in
    (
      unregistered s p,
      ap (λ entry. HashMap.get (heartbeat_write in_memory gone entry).nodes (id_from_proto p))
            (read_lem s p avail keyed
              ∙ ap (option_map (with_available (resources_from_proto avail))) found)
          ∙ written_back gone p reported_entry (
              with_available-node_id (resources_from_proto avail) n
              ∙ get-node_id s.nodes (id_from_proto p) n keyed.1 found),
    )
