-- ===== src/Gcs/Server.antt =====
-- crates/ray-gcs/src/server.rs: the handlers, over any backend. A request is its one message field
-- where it has one, and a reply the one field that says something: `success` is `true` in every
-- reply that is given, and its `message` is a fixed text.
use ray_rust.Common.{
  Bool, true, false, Option, none, some, List, [], ◌∷◌, map, option_map, ◌==◌, if◌then◌else◌,
}
use ray_rust.Common.Int.{ℤ}
use ray_rust.Core.Convert.{id_from_proto, id_to_proto, resources_from_proto, actor_spec_from_proto}
use ray_rust.Core.Error.{RayResult, ok as done, err as failed, ok_unwrap_or}
use ray_rust.Core.Id.{NodeId, id_eq}
use ray_rust.Core.Proto.{ProtoId, ProtoResources, ProtoActorSpec}
use ray_rust.Core.Resources.{Resources}
use ray_rust.Core.Status
use ray_rust.Core.Status.{
  Reply, invalid_argument, ok, err, ◌>>=◌, required, or_internal, or_invalid, not_found,
}
use ray_rust.Core.Types
use ray_rust.Gcs.Interface.{GcsStore}
use ray_rust.Gcs.Messages.{
  NodeInfo, NodeHeartbeatRequest, ActorInfo, JobInfo, ResourceUsage, RegisterActorReply,
}
use ray_rust.Gcs.Translate.{
  node_of_message, message_of_node, message_of_actor, job_of_message, message_of_job,
  usage_of_message, message_of_usage,
}

-- `.find(|n| n.node_id == node_id)`
unfoldable pub find_node : List Types.NodeInfo → NodeId → Option Types.NodeInfo
find_node [] node_id = none
find_node (n ∷ ns) node_id =
    let rest = find_node ns node_id in if n.node_id == node_id then some n else rest

-- What a lookup answers.
unfoldable pub found_actor : Option Types.ActorInfo → Reply ActorInfo
found_actor none = err not_found
found_actor (some info) = ok (message_of_actor info)

unfoldable pub with_available : Resources → Types.NodeInfo → Types.NodeInfo
with_available resources node = record node { available_resources = resources }

-- The entry that a heartbeat writes back: the node as it is read, with the reported resources.
unfoldable pub reported :
    List Types.NodeInfo → Option ProtoId → Option ProtoResources → Option Types.NodeInfo
reported nodes none avail = none
reported nodes (some node_id) none = none
reported nodes (some node_id) (some avail) =
    option_map (with_available (resources_from_proto avail))
      (find_node nodes (id_from_proto node_id))

-- A call of the backend whose error becomes `Internal`; `f` makes the reply of the answer.
abbrev pub reply : {S A B : Type 0} → RayResult A × S → (A → B) → Reply B × S
reply (done a, s) f = (ok (f a), s)
reply (failed e, s) f = (err (Status.internal e), s)

-- A handler that needs a field.
abbrev pub with_field : {S A B : Type 0} → S → Option A → (A → Reply B × S) → Reply B × S
with_field s none f = (err invalid_argument, s)
with_field s (some a) f = f a

module _ {S : Type 0} (store : GcsStore S) where
  unfoldable pub register_node : S → Option NodeInfo → Reply Bool × S
  register_node s request =
      with_field s request
        (λ node_info. reply (store.register_node s (node_of_message node_info)) (λ _. true))

  unfoldable pub unregister_node : S → Option ProtoId → Reply Bool × S
  unregister_node s request =
      with_field s request
        (λ node_id. reply (store.unregister_node s (id_from_proto node_id)) (λ _. true))

  unfoldable pub get_all_node_info : S → Reply (List NodeInfo)
  get_all_node_info s = do
    nodes ← or_internal (store.get_all_nodes s)
    ok (map message_of_node nodes)

  -- A heartbeat reads and writes under different locks.
  unfoldable pub heartbeat_read : S → NodeHeartbeatRequest → Option Types.NodeInfo
  heartbeat_read s req =
      reported (ok_unwrap_or (store.get_all_nodes s) []) req.node_id req.available_resources

  unfoldable pub heartbeat_write : S → Option Types.NodeInfo → S
  heartbeat_write s none = s
  heartbeat_write s (some node) = (store.register_node s node).1

  unfoldable pub report_node_heartbeat : S → NodeHeartbeatRequest → Reply Bool × S
  report_node_heartbeat s req = (ok false, heartbeat_write s (heartbeat_read s req))

  unfoldable pub register_converted : S → RayResult Types.ActorSpec → Reply RegisterActorReply × S
  register_converted s (failed e) = (err invalid_argument, s)
  register_converted s (done core_spec) =
      reply (store.register_actor s core_spec)
        (λ _. record { success = true; actor_id = some (id_to_proto core_spec.actor_id) })

  unfoldable pub register_actor : S → Option ProtoActorSpec → Reply RegisterActorReply × S
  register_actor s request =
      with_field s request (λ spec. register_converted s (actor_spec_from_proto spec))

  unfoldable pub get_actor_info : S → Option ProtoId → Reply ActorInfo
  get_actor_info s request = do
    actor_id ← required request
    actor_info ← or_internal (store.get_actor s (id_from_proto actor_id))
    found_actor actor_info

  unfoldable pub get_all_actor_info : S → Option ProtoId → Reply (List ActorInfo)
  get_all_actor_info s job_id = do
    actors ← or_internal (store.get_all_actors s (option_map id_from_proto job_id))
    ok (map message_of_actor actors)

  unfoldable pub kill_actor : S → Option ProtoId → Reply Bool × S
  kill_actor s request =
      with_field s request
        (λ actor_id. reply (store.kill_actor s (id_from_proto actor_id)) (λ _. true))

  unfoldable pub add_job : S → Option JobInfo → Reply Bool × S
  add_job s request =
      with_field s request
        (λ job_info. reply (store.add_job s (job_of_message job_info)) (λ _. true))

  unfoldable pub mark_job_finished : S → ℤ → Option ProtoId → Reply Bool × S
  mark_job_finished s now request =
      with_field s request
        (λ job_id. reply (store.mark_job_finished s (id_from_proto job_id) now) (λ _. true))

  unfoldable pub get_all_job_info : S → Reply (List JobInfo)
  get_all_job_info s = do jobs ← or_internal (store.get_all_jobs s); ok (map message_of_job jobs)

  unfoldable pub report_resource_usage : S → Option ResourceUsage → Reply (Unit {0}) × S
  report_resource_usage s request =
      with_field s request
        (λ usage. reply (store.report_resource_usage s (usage_of_message usage)) (λ _. tt))

  unfoldable pub get_all_resource_usage : S → Reply (List ResourceUsage)
  get_all_resource_usage s = do
    usage_list ← or_internal (store.get_all_resource_usage s)
    ok (map message_of_usage usage_list)

-- The calls that change the backend.
pub data Call : Type 0 where
  registers_node : Option NodeInfo → Call
  unregisters_node : Option ProtoId → Call
  heartbeats : NodeHeartbeatRequest → Call
  registers_actor : Option ProtoActorSpec → Call
  kills_actor : Option ProtoId → Call
  adds_job : Option JobInfo → Call
  finishes_job : ℤ → Option ProtoId → Call
  reports_usage : Option ResourceUsage → Call

module _ {S : Type 0} (store : GcsStore S) where
  unfoldable pub step : S → Call → S
  step s (registers_node request) = (register_node store s request).1
  step s (unregisters_node request) = (unregister_node store s request).1
  step s (heartbeats request) = (report_node_heartbeat store s request).1
  step s (registers_actor request) = (register_actor store s request).1
  step s (kills_actor request) = (kill_actor store s request).1
  step s (adds_job request) = (add_job store s request).1
  step s (finishes_job now request) = (mark_job_finished store s now request).1
  step s (reports_usage request) = (report_resource_usage store s request).1

  unfoldable pub run : S → List Call → S
  run s [] = s
  run s (c ∷ cs) = run (step s c) cs
