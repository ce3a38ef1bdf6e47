-- ===== src/Gcs/Tests.antt =====
-- The theorems about the control store at concrete values.
use ray_rust.Common.{
  ◌≡◌, refl, true, none, some, List, [], ◌∷◌, ◌==◌, replicate, option_map, if◌then◌else◌,
}
use ray_rust.Common.Int.{pos}
use ray_rust.Common.HashMap
use ray_rust.Core.Convert.{id_from_proto, resources_from_proto, id_from_option}
use ray_rust.Core.Id
use ray_rust.Core.Id.{NodeId, ActorId, id_eq}
use ray_rust.Core.Proto.{ProtoId, ProtoResources, ProtoActorSpec}
use ray_rust.Core.Status.{ok}
use ray_rust.Core.Types.{ActorInfo, ActorState}
use ray_rust.Gcs.Dead.{IsDead, run-IsDead}
use ray_rust.Gcs.Heartbeat.{heartbeat, heartbeat_lem, heartbeat_resurrects}
use ray_rust.Gcs.Lifecycle.{pending_actor, register_actor_lem}
use ray_rust.Gcs.Messages
use ray_rust.Gcs.Server
use ray_rust.Gcs.Translate.{node_of_message}
use ray_rust.Gcs.Server.{
  Call, registers_node, heartbeats, kills_actor, unregisters_node, run, report_node_heartbeat,
  heartbeat_read, heartbeat_write, with_available, kill_actor, register_actor, get_actor_info,
}
use ray_rust.Gcs.Store
use ray_rust.Gcs.Store.{InMemoryGcsStore, in_memory, new_actor}

abbrev some_message : ProtoId
some_message = record { id = replicate 16 7 }

abbrev one_cpu : ProtoResources
one_cpu = record { resource_map = ("CPU", pos 1) ∷ [] }

abbrev some_node : Messages.NodeInfo
some_node = record {
  node_id = some some_message;
  node_manager_address = "10.0.0.1";
  node_manager_port = pos 6379;
  total_resources = some one_cpu;
  available_resources = some one_cpu;
  is_alive = true;
  start_time_ms = pos 0;
  labels = [];
}

abbrev some_calls : List Call
some_calls = registers_node (some some_node) ∷ []

heartbeat_lem_example :
    let s = run in_memory Store.new some_calls in
    HashMap.get
      (report_node_heartbeat in_memory s (heartbeat some_message one_cpu)).1.nodes
      (id_from_proto some_message)
    ≡ (if id_from_proto {size = 16} some_message == id_from_proto some_message
        then option_map
            (with_available (resources_from_proto one_cpu))
            (HashMap.get s.nodes (id_from_proto some_message))
        else HashMap.get s.nodes (id_from_proto some_message))
heartbeat_lem_example = heartbeat_lem some_calls some_message one_cpu (id_from_proto some_message)

registered :
    HashMap.get (run in_memory Store.new some_calls).nodes (id_from_proto some_message)
    ≡ some (node_of_message some_node)
unfolding run Server.step Server.register_node node_of_message in_memory Store.new
    Store.register_node HashMap.get HashMap.insert id_from_option id_from_proto Id.from_vec
    Id.from_slice
registered = refl

heartbeat_resurrects_example :
    let s = run in_memory Store.new some_calls in
    let entry = heartbeat_read in_memory s (heartbeat some_message one_cpu) in
    let gone = (Server.unregister_node in_memory s (some some_message)).1 in
    let back = heartbeat_write in_memory gone entry in
    (HashMap.get gone.nodes (id_from_proto some_message) ≡ none)
    × (HashMap.get back.nodes (id_from_proto some_message)
        ≡ some (with_available (resources_from_proto one_cpu) (node_of_message some_node)))
heartbeat_resurrects_example =
    heartbeat_resurrects some_calls some_message one_cpu (node_of_message some_node) registered

abbrev some_actor : ActorInfo
some_actor = record {
  actor_id = record { bytes = replicate 16 7 };
  job_id = record { bytes = replicate 16 8 };
  class_name = "Counter";
  state = ActorState.dead;
  node_id = record { bytes = replicate 16 0 };
  num_restarts = pos 0;
}

abbrev some_store : InMemoryGcsStore
some_store = record {
  nodes = [];
  actors = (some_actor.actor_id, some_actor) ∷ [];
  jobs = [];
  resource_usage = [];
}

some_actor-IsDead : IsDead some_store some_actor.actor_id
unfolding HashMap.get
some_actor-IsDead = (some_actor, refl, refl)

run-IsDead_example :
    IsDead
      (run in_memory some_store
        (kills_actor (some some_message) ∷ registers_node (some some_node) ∷ []))
      some_actor.actor_id
run-IsDead_example =
    run-IsDead some_store (kills_actor (some some_message) ∷ registers_node (some some_node) ∷ [])
      some_actor.actor_id (tt, (tt, tt)) some_actor-IsDead

abbrev some_spec : ProtoActorSpec
some_spec = record {
  actor_id = some some_message;
  job_id = some some_message;
  class_name = "Counter";
  class_payload = 1 ∷ [];
  constructor_args = [];
  required_resources = some one_cpu;
  max_restarts = pos 0;
  metadata = [];
}

register_actor_lem_example :
    let r = register_actor in_memory some_store (some some_spec) in
    (r.0 ≡ ok (record { success = true; actor_id = some some_message }))
    × (get_actor_info in_memory r.1 (some some_message) ≡ (
        if id_from_proto {size = 16} some_message == id_from_proto some_message
        then ok (pending_actor some_message some_message "Counter")
        else get_actor_info in_memory some_store (some some_message)))
register_actor_lem_example =
    register_actor_lem some_store some_spec some_message some_message some_message refl refl refl
      refl
