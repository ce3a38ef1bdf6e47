-- ===== src/Gcs/Translate.antt =====
-- The messages that the handlers of crates/ray-gcs/src/server.rs read and build field by field.
use ray_rust.Common.{true, none}
use ray_rust.Common.Int.{pos}
use ray_rust.Common.HashMap
use ray_rust.Core.Convert.{
  id_from_option, id_to_option, resources_from_option, resources_to_option,
  node_info_to_proto_fields, actor_info_to_proto_fields,
}
use ray_rust.Core.Id.{id_eq}
use ray_rust.Core.Types
use ray_rust.Gcs.Messages.{NodeInfo, ActorInfo, JobInfo, ResourceUsage}

unfoldable pub node_of_message : NodeInfo → Types.NodeInfo
node_of_message node_info = record {
  node_id = id_from_option node_info.node_id;
  address = node_info.node_manager_address;
  port = node_info.node_manager_port;
  total_resources = resources_from_option node_info.total_resources;
  available_resources = resources_from_option node_info.available_resources;
  is_alive = true;
}

unfoldable pub message_of_node : Types.NodeInfo → NodeInfo
message_of_node n =
    let fields = node_info_to_proto_fields n in
    record {
      node_id = fields.node_id;
      node_manager_address = fields.address;
      node_manager_port = fields.port;
      total_resources = fields.total_resources;
      available_resources = fields.available_resources;
      is_alive = fields.is_alive;
      start_time_ms = pos 0;
      labels = HashMap.empty;
    }

unfoldable pub message_of_actor : Types.ActorInfo → ActorInfo
message_of_actor a =
    let fields = actor_info_to_proto_fields a in
    record {
      actor_id = fields.actor_id;
      job_id = fields.job_id;
      class_name = fields.class_name;
      state = fields.state;
      address = none;
      node_id = fields.node_id;
      start_time_ms = pos 0;
      end_time_ms = pos 0;
      num_restarts = fields.num_restarts;
    }

unfoldable pub job_of_message : JobInfo → Types.JobInfo
job_of_message job_info = record {
  job_id = id_from_option job_info.job_id;
  driver_ip = job_info.driver_ip;
  start_time_ms = job_info.start_time_ms;
  end_time_ms = job_info.end_time_ms;
  is_dead = job_info.is_dead;
  config = job_info.config;
}

unfoldable pub message_of_job : Types.JobInfo → JobInfo
message_of_job j = record {
  job_id = id_to_option j.job_id;
  driver_ip = j.driver_ip;
  start_time_ms = j.start_time_ms;
  end_time_ms = j.end_time_ms;
  is_dead = j.is_dead;
  config = j.config;
}

unfoldable pub usage_of_message : ResourceUsage → Types.ResourceUsageInfo
usage_of_message usage = record {
  node_id = id_from_option usage.node_id;
  available = resources_from_option usage.available;
  total = resources_from_option usage.total;
  timestamp_ms = usage.timestamp_ms;
}

unfoldable pub message_of_usage : Types.ResourceUsageInfo → ResourceUsage
message_of_usage u = record {
  node_id = id_to_option u.node_id;
  available = resources_to_option u.available;
  total = resources_to_option u.total;
  timestamp_ms = u.timestamp_ms;
}
