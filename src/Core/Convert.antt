-- ===== src/Core/Convert.antt =====
-- crates/ray-core/src/proto_conv.rs: between the messages and the types of the runtime.
pub mod RoundTrip
use ray_rust.Common.{
  ℕ, zero, suc, String, Bool, Option, none, some, List, [], ◌∷◌, map, nat_beq, option_map,
  unwrap_or, string_eq, if◌then◌else◌,
}
use ray_rust.Common.Int.{ℤ, pos, negsuc}
use ray_rust.Common.HashMap
use ray_rust.Common.HashMap.{HashMap}
use ray_rust.Core.Error.{RayError, internal, RayResult, ok, err, ok_or, ◌>>=◌}
use ray_rust.Core.Id
use ray_rust.Core.Id.{FixedId}
use ray_rust.Core.Proto.{
  ProtoId, ProtoResources, ProtoTaskSpec, ProtoActorSpec, ProtoTaskStatus, ProtoActorState,
}
use ray_rust.Core.Resources
use ray_rust.Core.Resources.{Resources}
use ray_rust.Core.Types.{TaskStatus, ActorState, TaskSpec, ActorSpec, NodeInfo, ActorInfo}

-- `impl From<$proto_ty> for $core_ty`
unfoldable pub id_from_proto : {size : ℕ} → ProtoId → FixedId size
id_from_proto {size} p = Id.from_vec size p.id

-- `impl From<$core_ty> for $proto_ty`
unfoldable pub id_to_proto : {size : ℕ} → FixedId size → ProtoId
id_to_proto c = record { id = Id.to_vec c }

unfoldable pub id_from_option : {size : ℕ} → Option ProtoId → FixedId size
unfolding id_from_proto
id_from_option {size} opt = unwrap_or (option_map id_from_proto opt) (Id.default size)

unfoldable pub id_to_option : {size : ℕ} → FixedId size → Option ProtoId
unfolding id_to_proto
id_to_option core_id = some (id_to_proto core_id)

-- `for (k, v) in &p.resource_map { r.map.insert(k.clone(), *v) }`
insert_all : HashMap String ℤ → HashMap String ℤ → HashMap String ℤ
insert_all m [] = m
insert_all m ((k, v) ∷ rest) = insert_all (HashMap.insert m k v) rest

unfoldable pub resources_from_proto : ProtoResources → Resources
unfolding insert_all
resources_from_proto p = record { map = insert_all HashMap.empty p.resource_map }

unfoldable pub resources_from_option : Option ProtoResources → Resources
unfolding resources_from_proto
resources_from_option opt =
    unwrap_or (option_map resources_from_proto opt) (record { map = HashMap.empty })

unfoldable pub resources_to_proto : Resources → ProtoResources
resources_to_proto r = record { resource_map = r.map }

unfoldable pub resources_to_option : Resources → Option ProtoResources
unfolding resources_to_proto
resources_to_option r = some (resources_to_proto r)

unfoldable pub task_spec_from_proto : ProtoTaskSpec → RayResult TaskSpec
task_spec_from_proto p = do
  task_id ← ok_or (option_map id_from_proto p.task_id) internal
  job_id ← ok_or (option_map id_from_proto p.job_id) internal
  ok (record {
    task_id = task_id;
    job_id = job_id;
    function_name = p.function_name;
    function_payload = p.function_payload;
    return_ids = map id_from_proto p.return_ids;
    dependency_ids = map id_from_proto p.dependency_ids;
    required_resources = resources_from_option p.required_resources;
    max_retries = p.max_retries;
  })

unfoldable pub task_spec_to_proto : TaskSpec → ProtoTaskSpec
task_spec_to_proto c = record {
  task_id = id_to_option c.task_id;
  job_id = id_to_option c.job_id;
  function_name = c.function_name;
  function_payload = c.function_payload;
  return_ids = map id_to_proto c.return_ids;
  dependency_ids = map id_to_proto c.dependency_ids;
  required_resources = resources_to_option c.required_resources;
  caller_address = none;
  max_retries = c.max_retries;
  metadata = HashMap.empty;
}

unfoldable pub actor_spec_from_proto : ProtoActorSpec → RayResult ActorSpec
actor_spec_from_proto p = do
  actor_id ← ok_or (option_map id_from_proto p.actor_id) internal
  job_id ← ok_or (option_map id_from_proto p.job_id) internal
  ok (record {
    actor_id = actor_id;
    job_id = job_id;
    class_name = p.class_name;
    class_payload = p.class_payload;
    constructor_args = p.constructor_args;
    required_resources = resources_from_option p.required_resources;
    max_restarts = p.max_restarts;
  })

unfoldable pub actor_spec_to_proto : ActorSpec → ProtoActorSpec
actor_spec_to_proto c = record {
  actor_id = id_to_option c.actor_id;
  job_id = id_to_option c.job_id;
  class_name = c.class_name;
  class_payload = c.class_payload;
  constructor_args = c.constructor_args;
  required_resources = resources_to_option c.required_resources;
  max_restarts = c.max_restarts;
  metadata = HashMap.empty;
}

-- `proto::common::TaskStatus::try_from(v)` of the generated code: the numbers of common.proto.
task_status_of : ℕ → Option ProtoTaskStatus
task_status_of zero = some ProtoTaskStatus.unspecified
task_status_of (suc zero) = some ProtoTaskStatus.pending
task_status_of (suc (suc zero)) = some ProtoTaskStatus.scheduled
task_status_of (suc (suc (suc zero))) = some ProtoTaskStatus.running
task_status_of (suc (suc (suc (suc zero)))) = some ProtoTaskStatus.finished
task_status_of (suc (suc (suc (suc (suc zero))))) = some ProtoTaskStatus.failed
task_status_of (suc (suc (suc (suc (suc (suc zero)))))) = some ProtoTaskStatus.cancelled
task_status_of _ = none

task_status_try_from : ℤ → Option ProtoTaskStatus
unfolding task_status_of
task_status_try_from (pos n) = task_status_of n
task_status_try_from (negsuc n) = none

core_task_status : Option ProtoTaskStatus → TaskStatus
core_task_status (some ProtoTaskStatus.pending) = TaskStatus.pending
core_task_status (some ProtoTaskStatus.scheduled) = TaskStatus.scheduled
core_task_status (some ProtoTaskStatus.running) = TaskStatus.running
core_task_status (some ProtoTaskStatus.finished) = TaskStatus.finished
core_task_status (some ProtoTaskStatus.failed) = TaskStatus.failed
core_task_status (some ProtoTaskStatus.cancelled) = TaskStatus.cancelled
core_task_status _ = TaskStatus.pending

unfoldable pub task_status_from_proto : ℤ → TaskStatus
unfolding task_status_try_from core_task_status
task_status_from_proto v = core_task_status (task_status_try_from v)

unfoldable pub task_status_to_proto : TaskStatus → ℤ
task_status_to_proto TaskStatus.pending = pos 1
task_status_to_proto TaskStatus.scheduled = pos 2
task_status_to_proto TaskStatus.running = pos 3
task_status_to_proto TaskStatus.finished = pos 4
task_status_to_proto TaskStatus.failed = pos 5
task_status_to_proto TaskStatus.cancelled = pos 6

actor_state_of : ℕ → Option ProtoActorState
actor_state_of zero = some ProtoActorState.unspecified
actor_state_of (suc zero) = some ProtoActorState.pending
actor_state_of (suc (suc zero)) = some ProtoActorState.alive
actor_state_of (suc (suc (suc zero))) = some ProtoActorState.restarting
actor_state_of (suc (suc (suc (suc zero)))) = some ProtoActorState.dead
actor_state_of _ = none

actor_state_try_from : ℤ → Option ProtoActorState
unfolding actor_state_of
actor_state_try_from (pos n) = actor_state_of n
actor_state_try_from (negsuc n) = none

core_actor_state : Option ProtoActorState → ActorState
core_actor_state (some ProtoActorState.pending) = ActorState.pending
core_actor_state (some ProtoActorState.alive) = ActorState.alive
core_actor_state (some ProtoActorState.restarting) = ActorState.restarting
core_actor_state (some ProtoActorState.dead) = ActorState.dead
core_actor_state _ = ActorState.pending

unfoldable pub actor_state_from_proto : ℤ → ActorState
unfolding actor_state_try_from core_actor_state
actor_state_from_proto v = core_actor_state (actor_state_try_from v)

unfoldable pub actor_state_to_proto : ActorState → ℤ
actor_state_to_proto ActorState.pending = pos 1
actor_state_to_proto ActorState.alive = pos 2
actor_state_to_proto ActorState.restarting = pos 3
actor_state_to_proto ActorState.dead = pos 4

pub record NodeInfoProtoFields : Type 0 where
  pub node_id : Option ProtoId
  pub address : String
  pub port : ℤ
  pub total_resources : Option ProtoResources
  pub available_resources : Option ProtoResources
  pub is_alive : Bool

unfoldable pub node_info_to_proto_fields : NodeInfo → NodeInfoProtoFields
node_info_to_proto_fields n = record {
  node_id = id_to_option n.node_id;
  address = n.address;
  port = n.port;
  total_resources = resources_to_option n.total_resources;
  available_resources = resources_to_option n.available_resources;
  is_alive = n.is_alive;
}

pub record ActorInfoProtoFields : Type 0 where
  pub actor_id : Option ProtoId
  pub job_id : Option ProtoId
  pub class_name : String
  pub state : ℤ
  pub node_id : Option ProtoId
  pub num_restarts : ℤ

unfoldable pub actor_info_to_proto_fields : ActorInfo → ActorInfoProtoFields
actor_info_to_proto_fields a = record {
  actor_id = id_to_option a.actor_id;
  job_id = id_to_option a.job_id;
  class_name = a.class_name;
  state = actor_state_to_proto a.state;
  node_id = id_to_option a.node_id;
  num_restarts = a.num_restarts;
}
