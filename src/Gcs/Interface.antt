-- ===== src/Gcs/Interface.antt =====
-- The trait `GcsStore` of crates/ray-core/src/traits.rs: the methods of a backend with a state of
-- type `S`. The clock that `mark_job_finished` reads is an argument.
use ray_rust.Common.{Option, List}
use ray_rust.Common.Int.{ℤ}
use ray_rust.Core.Error.{RayResult, err, internal}
use ray_rust.Core.Id.{NodeId, ActorId, JobId}
use ray_rust.Core.Types.{NodeInfo, ActorInfo, ActorSpec, JobInfo, ResourceUsageInfo}

pub record GcsStore (S : Type 0) : Type 0 where
  pub register_node : S → NodeInfo → RayResult (Unit {0}) × S
  pub unregister_node : S → NodeId → RayResult (Unit {0}) × S
  pub get_all_nodes : S → RayResult (List NodeInfo)
  pub register_actor : S → ActorSpec → RayResult ActorId × S
  pub get_actor : S → ActorId → RayResult (Option ActorInfo)
  pub get_all_actors : S → Option JobId → RayResult (List ActorInfo)
  pub kill_actor : S → ActorId → RayResult (Unit {0}) × S
  pub add_job : S → JobInfo → RayResult (Unit {0}) × S
  pub mark_job_finished : S → JobId → ℤ → RayResult (Unit {0}) × S
  pub get_all_jobs : S → RayResult (List JobInfo)
  pub report_resource_usage : S → ResourceUsageInfo → RayResult (Unit {0}) × S
  pub get_all_resource_usage : S → RayResult (List ResourceUsageInfo)

-- A backend that leaves out the methods to which the trait gives a body.
unfoldable pub with_defaults : {S : Type 0} → GcsStore S → GcsStore S
with_defaults store = record store {
  add_job = λ s job_info. (err internal, s);
  mark_job_finished = λ s job_id now. (err internal, s);
  get_all_jobs = λ s. err internal;
  report_resource_usage = λ s usage. (err internal, s);
  get_all_resource_usage = λ s. err internal;
}
