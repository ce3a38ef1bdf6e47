-- ===== src/Core/Types.antt =====
-- crates/ray-core/src/traits.rs: the data that the components pass to one another. `i32` and `i64`
-- fields are integers that no code here computes with; a payload is a list of bytes.
use ray_rust.Common.{ℕ, String, Bool, List}
use ray_rust.Common.Int.{ℤ}
use ray_rust.Common.HashMap.{HashMap}
use ray_rust.Core.Id.{TaskId, JobId, ActorId, NodeId, ObjectId}
use ray_rust.Core.Resources.{Resources}

pub data TaskStatus : Type 0 where
  pending scheduled running finished failed cancelled : TaskStatus

pub data ActorState : Type 0 where
  pending alive restarting dead : ActorState

pub record TaskSpec : Type 0 where
  pub task_id : TaskId
  pub job_id : JobId
  pub function_name : String
  pub function_payload : List ℕ
  pub return_ids : List ObjectId
  pub dependency_ids : List ObjectId
  pub required_resources : Resources
  pub max_retries : ℤ

pub record ActorSpec : Type 0 where
  pub actor_id : ActorId
  pub job_id : JobId
  pub class_name : String
  pub class_payload : List ℕ
  pub constructor_args : List ℕ
  pub required_resources : Resources
  pub max_restarts : ℤ

pub record NodeInfo : Type 0 where
  pub node_id : NodeId
  pub address : String
  pub port : ℤ
  pub total_resources : Resources
  pub available_resources : Resources
  pub is_alive : Bool

pub record ActorInfo : Type 0 where
  pub actor_id : ActorId
  pub job_id : JobId
  pub class_name : String
  pub state : ActorState
  pub node_id : NodeId
  pub num_restarts : ℤ

pub record JobInfo : Type 0 where
  pub job_id : JobId
  pub driver_ip : String
  pub start_time_ms : ℤ
  pub end_time_ms : ℤ
  pub is_dead : Bool
  pub config : HashMap String String

pub record ResourceUsageInfo : Type 0 where
  pub node_id : NodeId
  pub available : Resources
  pub total : Resources
  pub timestamp_ms : ℤ
