-- ===== src/Scheduling/Policy.antt =====
-- crates/ray-scheduler/src/policy.rs, with the view of a node from global.rs. A policy is a record
-- of the trait's methods. `partial_cmp` of two quantities always answers, as none is NaN.
use ray_rust.Common.{String, Bool, List, [], ◌∷◌, keep, if◌then◌else◌, string_eq}
use ray_rust.Common.Int.{ℤ, ltb_ℤ}
use ray_rust.Core.Error.{RayResult, ok, err, insufficient_resources}
use ray_rust.Core.Id.{NodeId}
use ray_rust.Core.Resources
use ray_rust.Core.Resources.{Resources}

pub record NodeView : Type 0 where
  pub node_id : NodeId
  pub address : String
  pub port : ℤ
  pub available : Resources
  pub total : Resources
  pub is_alive : Bool

pub record SchedulingPolicy : Type 0 where
  pub select_node : List NodeView → Resources → RayResult NodeView
  pub name : String

unfoldable pub cpu : NodeView → ℤ
cpu n = Resources.get n.available "CPU"

-- `max_by` after the first element: of equals the last one is kept.
unfoldable pub max_by_cpu : NodeView → List NodeView → NodeView
max_by_cpu best [] = best
max_by_cpu best (n ∷ ns) = max_by_cpu (if ltb_ℤ (cpu n) (cpu best) then best else n) ns

-- `min_by` after the first element: of equals the first one is kept.
unfoldable pub min_by_cpu : NodeView → List NodeView → NodeView
min_by_cpu best [] = best
min_by_cpu best (n ∷ ns) = min_by_cpu (if ltb_ℤ (cpu n) (cpu best) then n else best) ns

unfoldable pub eligible : List NodeView → Resources → List NodeView
eligible nodes required = keep (λ n. Resources.can_satisfy n.available required) nodes

unfoldable pub pick_max : List NodeView → RayResult NodeView
pick_max [] = err insufficient_resources
pick_max (n ∷ ns) = ok (max_by_cpu n ns)

unfoldable pub pick_min : List NodeView → RayResult NodeView
pick_min [] = err insufficient_resources
pick_min (n ∷ ns) = ok (min_by_cpu n ns)

unfoldable pub spread_policy : SchedulingPolicy
spread_policy = record {
  select_node = λ nodes required. pick_max (eligible nodes required);
  name = "spread";
}

unfoldable pub pack_policy : SchedulingPolicy
pack_policy = record {
  select_node = λ nodes required. pick_min (eligible nodes required);
  name = "pack";
}
