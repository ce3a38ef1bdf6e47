-- ===== src/Raylet/Server.antt =====
-- crates/ray-raylet/src/server.rs: the handlers of the service. A request is its one message field
-- where it has one. The scheduler's channel is open; a command that is sent is handled at once.
pub mod Leases
pub mod Cancels
use ray_rust.Common.{
  ℕ, String, Bool, true, false, Option, none, some, List, [], ◌∷◌, option_map, unwrap_or,
  if◌then◌else◌,
}
use ray_rust.Common.Int.{ℤ, pos}
use ray_rust.Common.HashMap
use ray_rust.Core.Convert.{
  id_from_proto, id_to_option, id_to_proto, resources_from_proto, task_spec_from_proto,
  task_status_to_proto,
}
use ray_rust.Core.Error.{RayResult, ok as done, err as failed, ok_unwrap_or}
use ray_rust.Core.Id.{NodeId, TaskId, id_eq}
use ray_rust.Core.Proto.{ProtoId, ProtoResources, ProtoTaskSpec, Address}
use ray_rust.Core.Resources.{Resources}
use ray_rust.Core.Status.{Reply, ok, err, ◌>>=◌, required, or_internal, or_invalid}
use ray_rust.Core.Types.{TaskSpec, TaskStatus}
use ray_rust.ObjectStore
use ray_rust.ObjectStore.{InMemoryObjectStore}
use ray_rust.Raylet.ResourceManager
use ray_rust.Raylet.ResourceManager.{ResourceManager}
use ray_rust.Raylet.Scheduler.{
  Node, submit_task as submits, cancel_task as cancels, get_status as gets_status, process, status,
}

-- proto/raylet.proto
pub record SubmitTaskReply : Type 0 where
  pub accepted : Bool
  pub reject_reason : String

pub record GetTaskStatusReply : Type 0 where
  pub status : ℤ
  pub error_message : String

pub record WaitForObjectReply : Type 0 where
  pub ready : Bool
  pub location_node_id : Option ProtoId

pub record ObjectLocation : Type 0 where
  pub object_id : Option ProtoId
  pub node_ids : List ProtoId
  pub object_size : ℕ

pub record RequestWorkerLeaseReply : Type 0 where
  pub fulfilled : Bool
  pub worker_address : Option Address
  pub node_id : Option ProtoId

-- The specification of a request, or the refusal.
requested : Option ProtoTaskSpec → Reply TaskSpec
requested task_spec = do
  spec ← required task_spec
  core_spec ← or_invalid (task_spec_from_proto spec)
  ok core_spec

send_spec : Node → Reply TaskSpec → Reply SubmitTaskReply × Node
send_spec n (err e) = (err e, n)
send_spec n (ok core_spec) =
    (ok (record { accepted = true; reject_reason = "" }), process n (submits core_spec))

unfoldable pub submit_task : Node → Option ProtoTaskSpec → Reply SubmitTaskReply × Node
unfolding requested send_spec
submit_task n task_spec = send_spec n (requested task_spec)

send_cancel : Node → Reply TaskId → Reply Bool × Node
send_cancel n (err e) = (err e, n)
send_cancel n (ok id) = (ok true, process n (cancels id))

unfoldable pub cancel_task : Node → Option ProtoId → Reply Bool × Node
unfolding send_cancel
cancel_task n task_id = send_cancel n (do id ← required task_id; ok (id_from_proto id))

status_reply : RayResult TaskStatus → Reply GetTaskStatusReply
status_reply result = do
  s ← or_internal result
  ok (record { status = task_status_to_proto s; error_message = "" })

-- The status is read when the command is taken; the queue is drained after it.
send_get_status : Node → Reply TaskId → Reply GetTaskStatusReply × Node
unfolding status_reply
send_get_status n (err e) = (err e, n)
send_get_status n (ok id) = (status_reply (status n id), process n (gets_status id))

unfoldable pub get_task_status : Node → Option ProtoId → Reply GetTaskStatusReply × Node
unfolding send_get_status
get_task_status n task_id = send_get_status n (do id ← required task_id; ok (id_from_proto id))

unfoldable pub register_worker : NodeId → Option ProtoId
register_worker node_id = id_to_option node_id

unfoldable pub unregister_worker : Bool
unregister_worker = true

unfoldable pub wait_for_object : NodeId → Node → Option ProtoId → Reply WaitForObjectReply
wait_for_object node_id n object_id = do
  id ← required object_id
  exists ← or_internal (ObjectStore.contains n.object_store (id_from_proto id))
  ok (record { ready = exists; location_node_id = if exists then id_to_option node_id else none })

location : NodeId → ProtoId → ObjectLocation
location node_id obj_id_proto = record {
  object_id = some obj_id_proto;
  node_ids = id_to_proto node_id ∷ [];
  object_size = 0;
}

unfoldable pub get_object_locations :
    NodeId → InMemoryObjectStore → List ProtoId → List ObjectLocation
unfolding location
get_object_locations node_id s [] = []
get_object_locations node_id s (p ∷ rest) =
    let locations = get_object_locations node_id s rest in
    if ok_unwrap_or (ObjectStore.contains s (id_from_proto p)) false
    then location node_id p ∷ locations
    else locations

-- Not implemented in the source: it answers success.
unfoldable pub transfer_object : Bool
transfer_object = true

unfoldable pub lease_request : Option ProtoResources → Resources
lease_request required_resources =
    unwrap_or (option_map resources_from_proto required_resources) (record { map = HashMap.empty })

unfoldable pub lease_reply : NodeId → Bool → RequestWorkerLeaseReply
lease_reply node_id true = record {
  fulfilled = true;
  worker_address = some (record {
    ip_address = "127.0.0.1";
    port = pos 0;
    node_id = id_to_option node_id;
    worker_id = none;
  });
  node_id = id_to_option node_id;
}
lease_reply node_id false = record { fulfilled = false; worker_address = none; node_id = none }

unfoldable pub request_worker_lease :
    NodeId → Node → Option ProtoResources → RequestWorkerLeaseReply × Node
unfolding lease_reply
request_worker_lease node_id n required_resources =
    let (result, rm) =
      ResourceManager.try_allocate n.resource_manager (lease_request required_resources) in
    (lease_reply node_id (ok_unwrap_or result false), record n { resource_manager = rm })

-- A no-op in the source.
unfoldable pub release_worker_lease : Node → Bool × Node
release_worker_lease n = (true, n)
