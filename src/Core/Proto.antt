-- ===== src/Core/Proto.antt =====
-- proto/common.proto: the messages that `prost` makes types of. The six identifier messages have
-- one shape, a `bytes id`; message fields are options, as in the generated code.
use ray_rust.Common.{ℕ, String, Option, List}
use ray_rust.Common.Int.{ℤ}
use ray_rust.Common.HashMap.{HashMap}

pub record ProtoId : Type 0 where
  pub id : List ℕ

pub record ProtoResources : Type 0 where
  pub resource_map : HashMap String ℤ

pub record Address : Type 0 where
  pub ip_address : String
  pub port : ℤ
  pub node_id : Option ProtoId
  pub worker_id : Option ProtoId

pub record ProtoTaskSpec : Type 0 where
  pub task_id : Option ProtoId
  pub job_id : Option ProtoId
  pub function_name : String
  pub function_payload : List ℕ
  pub return_ids : List ProtoId
  pub dependency_ids : List ProtoId
  pub required_resources : Option ProtoResources
  pub caller_address : Option Address
  pub max_retries : ℤ
  pub metadata : HashMap String String

pub record ProtoActorSpec : Type 0 where
  pub actor_id : Option ProtoId
  pub job_id : Option ProtoId
  pub class_name : String
  pub class_payload : List ℕ
  pub constructor_args : List ℕ
  pub required_resources : Option ProtoResources
  pub max_restarts : ℤ
  pub metadata : HashMap String String

-- The enumerations, with the numbers that the schema gives their values.
pub data ProtoTaskStatus : Type 0 where
  unspecified pending scheduled running finished failed cancelled : ProtoTaskStatus

pub data ProtoActorState : Type 0 where
  unspecified pending alive restarting dead : ProtoActorState
