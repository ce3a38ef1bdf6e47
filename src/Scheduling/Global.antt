-- ===== src/Scheduling/Global.antt =====
-- crates/ray-scheduler/src/global.rs.
use ray_rust.Common.{ℕ, List, [], ◌∷◌, keep, length}
use ray_rust.Common.HashMap
use ray_rust.Common.HashMap.{HashMap}
use ray_rust.Core.Error.{RayResult, ok, err, scheduling_failed, ◌>>=◌}
use ray_rust.Core.Id.{NodeId, id_eq}
use ray_rust.Core.Types.{TaskSpec}
use ray_rust.Scheduling.Policy.{NodeView, SchedulingPolicy, spread_policy}

pub record GlobalScheduler : Type 0 where
  pub nodes : HashMap NodeId NodeView
  pub policy : SchedulingPolicy

unfoldable pub new : SchedulingPolicy → GlobalScheduler
new policy = record { nodes = HashMap.empty; policy = policy }

unfoldable pub with_default_policy : GlobalScheduler
with_default_policy = new spread_policy

unfoldable pub update_node : GlobalScheduler → NodeView → GlobalScheduler
update_node g view = record g { nodes = HashMap.insert g.nodes view.node_id view }

unfoldable pub remove_node : GlobalScheduler → NodeId → GlobalScheduler
remove_node g node_id = record g { nodes = HashMap.remove g.nodes node_id }

unfoldable pub alive_nodes : GlobalScheduler → List NodeView
alive_nodes g = keep (λ n. n.is_alive) (HashMap.values g.nodes)

unfoldable pub select : SchedulingPolicy → List NodeView → TaskSpec → RayResult NodeId
select policy [] task = err scheduling_failed
select policy (n ∷ ns) task = do
  v ← policy.select_node (n ∷ ns) task.required_resources
  ok v.node_id

unfoldable pub schedule_task : GlobalScheduler → TaskSpec → RayResult NodeId
schedule_task g task = select g.policy (alive_nodes g) task

unfoldable pub get_all_nodes : GlobalScheduler → List NodeView
get_all_nodes g = HashMap.values g.nodes

unfoldable pub alive_node_count : GlobalScheduler → ℕ
alive_node_count g = length (alive_nodes g)

-- The calls that change the view.
pub data Call : Type 0 where
  updates : NodeView → Call
  removes : NodeId → Call

unfoldable pub step : GlobalScheduler → Call → GlobalScheduler
step g (updates view) = update_node g view
step g (removes node_id) = remove_node g node_id

unfoldable pub run : GlobalScheduler → List Call → GlobalScheduler
run g [] = g
run g (c ∷ cs) = run (step g c) cs
