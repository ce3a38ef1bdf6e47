-- ===== src/Gcs/Store.antt =====
-- crates/ray-gcs/src/store.rs. Each method is one section under one lock.
use ray_rust.Common.{true, Option, none, some, List, keep, ◌==◌, if◌then◌else◌}
use ray_rust.Common.Int.{ℤ, pos}
use ray_rust.Common.HashMap
use ray_rust.Common.HashMap.{HashMap}
use ray_rust.Core.Error.{RayResult, ok, err, actor_not_found, internal}
use ray_rust.Core.Id
use ray_rust.Core.Id.{NodeId, ActorId, JobId, id_eq}
use ray_rust.Core.Types.{ActorState, NodeInfo, ActorInfo, ActorSpec, JobInfo, ResourceUsageInfo}
use ray_rust.Gcs.Interface.{GcsStore}

pub record InMemoryGcsStore : Type 0 where
  pub nodes : HashMap NodeId NodeInfo
  pub actors : HashMap ActorId ActorInfo
  pub jobs : HashMap JobId JobInfo
  pub resource_usage : HashMap NodeId ResourceUsageInfo

unfoldable pub new : InMemoryGcsStore
new = record {
  nodes = HashMap.empty;
  actors = HashMap.empty;
  jobs = HashMap.empty;
  resource_usage = HashMap.empty;
}

unfoldable pub register_node : InMemoryGcsStore → NodeInfo → RayResult (Unit {0}) × InMemoryGcsStore
register_node s node_info =
    (ok tt, record s { nodes = HashMap.insert s.nodes node_info.node_id node_info })

unfoldable pub unregister_node : InMemoryGcsStore → NodeId → RayResult (Unit {0}) × InMemoryGcsStore
unregister_node s node_id = (ok tt, record s { nodes = HashMap.remove s.nodes node_id })

unfoldable pub get_all_nodes : InMemoryGcsStore → RayResult (List NodeInfo)
get_all_nodes s = ok (HashMap.values s.nodes)

-- The entry that an actor starts with.
unfoldable pub new_actor : ActorSpec → ActorInfo
new_actor actor_spec = record {
  actor_id = actor_spec.actor_id;
  job_id = actor_spec.job_id;
  class_name = actor_spec.class_name;
  state = ActorState.pending;
  node_id = Id.default _;
  num_restarts = pos 0;
}

unfoldable pub register_actor : InMemoryGcsStore → ActorSpec → RayResult ActorId × InMemoryGcsStore
register_actor s actor_spec = (
  ok actor_spec.actor_id,
  record s { actors = HashMap.insert s.actors actor_spec.actor_id (new_actor actor_spec) },
)

unfoldable pub get_actor : InMemoryGcsStore → ActorId → RayResult (Option ActorInfo)
get_actor s actor_id = ok (HashMap.get s.actors actor_id)

unfoldable pub get_all_actors : InMemoryGcsStore → Option JobId → RayResult (List ActorInfo)
get_all_actors s none = ok (HashMap.values s.actors)
get_all_actors s (some jid) = ok (keep (λ a. a.job_id == jid) (HashMap.values s.actors))

unfoldable pub kill_actor : InMemoryGcsStore → ActorId → RayResult (Unit {0}) × InMemoryGcsStore
kill_actor s actor_id =
    if HashMap.contains_key s.actors actor_id
    then (
      ok tt,
      record s {
        actors = HashMap.modify s.actors actor_id (λ a. record a { state = ActorState.dead });
      },
    )
    else (err actor_not_found, s)

unfoldable pub add_job : InMemoryGcsStore → JobInfo → RayResult (Unit {0}) × InMemoryGcsStore
add_job s job_info = (ok tt, record s { jobs = HashMap.insert s.jobs job_info.job_id job_info })

unfoldable pub mark_job_finished :
    InMemoryGcsStore → JobId → ℤ → RayResult (Unit {0}) × InMemoryGcsStore
mark_job_finished s job_id now =
    if HashMap.contains_key s.jobs job_id
    then (
      ok tt,
      record s {
        jobs = HashMap.modify s.jobs job_id (λ j. record j { is_dead = true; end_time_ms = now });
      },
    )
    else (err internal, s)

unfoldable pub get_all_jobs : InMemoryGcsStore → RayResult (List JobInfo)
get_all_jobs s = ok (HashMap.values s.jobs)

unfoldable pub report_resource_usage :
    InMemoryGcsStore → ResourceUsageInfo → RayResult (Unit {0}) × InMemoryGcsStore
report_resource_usage s usage =
    (ok tt, record s { resource_usage = HashMap.insert s.resource_usage usage.node_id usage })

unfoldable pub get_all_resource_usage : InMemoryGcsStore → RayResult (List ResourceUsageInfo)
get_all_resource_usage s = ok (HashMap.values s.resource_usage)

-- `impl GcsStore for InMemoryGcsStore`
unfoldable pub in_memory : GcsStore InMemoryGcsStore
in_memory = record {
  register_node = register_node;
  unregister_node = unregister_node;
  get_all_nodes = get_all_nodes;
  register_actor = register_actor;
  get_actor = get_actor;
  get_all_actors = get_all_actors;
  kill_actor = kill_actor;
  add_job = add_job;
  mark_job_finished = mark_job_finished;
  get_all_jobs = get_all_jobs;
  report_resource_usage = report_resource_usage;
  get_all_resource_usage = get_all_resource_usage;
}
