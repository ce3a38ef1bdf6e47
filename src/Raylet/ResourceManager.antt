-- ===== src/Raylet/ResourceManager.antt =====
-- crates/ray-raylet/src/resource_manager.rs. Each method is one section under the lock.
pub mod Ledger
use ray_rust.Common.{String, Bool, true, false, [], ◌∷◌, if◌then◌else◌, string_eq}
use ray_rust.Common.Int.{ℤ, pos, ◌-ℤ◌, ltb_ℤ}
use ray_rust.Common.HashMap
use ray_rust.Common.HashMap.{HashMap}
use ray_rust.Core.Error.{RayResult, ok}
use ray_rust.Core.Resources
use ray_rust.Core.Resources.{Resources}

pub record ResourceManager : Type 0 where
  pub total : Resources
  pub available : Resources

unfoldable pub new : Resources → ResourceManager
new total = record { total = total; available = total }

unfoldable pub try_allocate : ResourceManager → Resources → RayResult Bool × ResourceManager
try_allocate rm required =
    if Resources.can_satisfy rm.available required
    then (ok true, record rm { available = Resources.subtract rm.available required })
    else (ok false, rm)

unfoldable pub release : ResourceManager → Resources → ResourceManager
release rm resources = record rm { available = Resources.add rm.available resources }

-- A use is kept as the fraction (used, total) that the source divides.
utilization_loop : Resources → HashMap String ℤ → HashMap String (ℤ × ℤ) → HashMap String (ℤ × ℤ)
utilization_loop available [] util = util
utilization_loop available ((name, total_qty) ∷ rest) util =
    let used = total_qty -ℤ Resources.get available name in
    utilization_loop available rest
      (if ltb_ℤ (pos 0) total_qty then HashMap.insert util name (used, total_qty) else util)

unfoldable pub utilization : ResourceManager → HashMap String (ℤ × ℤ)
unfolding utilization_loop
utilization rm = utilization_loop rm.available rm.total.map HashMap.empty
