-- ===== src/Scheduling/Tests.antt =====
-- The placements of two small clusters.
use ray_rust.Common.{List, [], ◌∷◌, replicate, true}
use ray_rust.Common.Int.{pos}
use ray_rust.Core.Types.{TaskSpec}
use ray_rust.Scheduling.Policy.{NodeView, pack_policy}
use ray_rust.Scheduling.Global.{Call, updates, new, with_default_policy, run, schedule_task}
use ray_rust.Scheduling.Selection.{LessCpu, MoreCpu}
use ray_rust.Scheduling.Placement.{Placement, spread_places, pack_places}

abbrev first_node : NodeView
first_node = record {
  node_id = record { bytes = replicate 16 1 };
  address = "10.0.0.1";
  port = pos 6379;
  available = record { map = ("CPU", pos 2) ∷ [] };
  total = record { map = ("CPU", pos 4) ∷ [] };
  is_alive = true;
}

abbrev second_node : NodeView
second_node = record first_node {
  node_id = record { bytes = replicate 16 2 };
  available = record { map = ("CPU", pos 6) ∷ [] };
}

abbrev some_calls : List Call
some_calls = updates first_node ∷ updates second_node ∷ []

abbrev some_task : TaskSpec
some_task = record {
  task_id = record { bytes = replicate 16 7 };
  job_id = record { bytes = replicate 16 8 };
  function_name = "echo";
  function_payload = [];
  return_ids = [];
  dependency_ids = [];
  required_resources = record { map = ("CPU", pos 1) ∷ [] };
  max_retries = pos 0;
}

spread_places_example :
    let g = run with_default_policy some_calls in
    Placement LessCpu g some_task (schedule_task g some_task)
spread_places_example = spread_places some_calls some_task

pack_places_example :
    let g = run (new pack_policy) some_calls in
    Placement MoreCpu g some_task (schedule_task g some_task)
pack_places_example = pack_places some_calls some_task
