-- ===== src/Gcs/Messages.antt =====
-- proto/gcs.proto: the messages of the service that the handlers read and build.
use ray_rust.Common.{String, Bool, Option}
use ray_rust.Common.Int.{ℤ}
use ray_rust.Common.HashMap.{HashMap}
use ray_rust.Core.Proto.{ProtoId, ProtoResources, Address}

pub record NodeInfo : Type 0 where
  pub node_id : Option ProtoId
  pub node_manager_address : String
  pub node_manager_port : ℤ
  pub total_resources : Option ProtoResources
  pub available_resources : Option ProtoResources
  pub is_alive : Bool
  pub start_time_ms : ℤ
  pub labels : HashMap String String

pub record NodeHeartbeatRequest : Type 0 where
  pub node_id : Option ProtoId
  pub available_resources : Option ProtoResources

pub record ActorInfo : Type 0 where
  pub actor_id : Option ProtoId
  pub job_id : Option ProtoId
  pub class_name : String
  pub state : ℤ
  pub address : Option Address
  pub node_id : Option ProtoId
  pub start_time_ms : ℤ
  pub end_time_ms : ℤ
  pub num_restarts : ℤ

pub record JobInfo : Type 0 where
  pub job_id : Option ProtoId
  pub driver_ip : String
  pub start_time_ms : ℤ
  pub end_time_ms : ℤ
  pub is_dead : Bool
  pub config : HashMap String String

pub record ResourceUsage : Type 0 where
  pub node_id : Option ProtoId
  pub available : Option ProtoResources
  pub total : Option ProtoResources
  pub timestamp_ms : ℤ

pub record RegisterActorReply : Type 0 where
  pub success : Bool
  pub actor_id : Option ProtoId
