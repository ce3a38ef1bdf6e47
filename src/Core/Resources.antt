-- ===== src/Core/Resources.antt =====
-- crates/ray-core/src/resource.rs. A quantity is an `f64` in the source. The runtime writes whole
-- numbers (CPUs, GPUs, bytes), on which `f64` is exact up to 2^53; quantities are integers here.
pub mod Laws
pub mod Proper
use ray_rust.Common.{String, Bool, true, false, [], ◌∷◌, unwrap_or, if◌then◌else◌, string_eq}
use ray_rust.Common.Int.{ℤ, pos, ◌+ℤ◌, ◌-ℤ◌, ltb_ℤ, leb_ℤ}
use ray_rust.Common.HashMap
use ray_rust.Common.HashMap.{HashMap}

pub record Resources : Type 0 where
  pub map : HashMap String ℤ

unfoldable pub new : Resources
new = record { map = HashMap.empty }

unfoldable pub with_cpu_and_memory : ℤ → ℤ → Resources
with_cpu_and_memory cpu memory_bytes = record {
  map = HashMap.insert (HashMap.insert HashMap.empty "CPU" cpu) "memory" memory_bytes;
}

unfoldable pub set : Resources → String → ℤ → Resources
set r name quantity = record { map = HashMap.insert r.map name quantity }

-- `self.map.get(name).copied().unwrap_or(0.0)`
unfoldable pub quantity : HashMap String ℤ → String → ℤ
quantity m name = unwrap_or (HashMap.get m name) (pos 0)

unfoldable pub get : Resources → String → ℤ
unfolding quantity
get r name = quantity r.map name

can_satisfy_loop : Resources → HashMap String ℤ → Bool
can_satisfy_loop r [] = true
can_satisfy_loop r ((name, qty) ∷ rest) =
    if ltb_ℤ (get r name) qty then false else can_satisfy_loop r rest

unfoldable pub can_satisfy : Resources → Resources → Bool
unfolding can_satisfy_loop
can_satisfy r required = can_satisfy_loop r required.map

-- One round of `subtract`: the entry is written, and dropped again if nothing is left of it.
subtract_entry : HashMap String ℤ → String → ℤ → HashMap String ℤ
unfolding quantity
subtract_entry m name qty =
    let current = quantity m name -ℤ qty in
    let written = HashMap.insert m name current in
    if leb_ℤ current (pos 0) then HashMap.remove written name else written

subtract_loop : HashMap String ℤ → HashMap String ℤ → HashMap String ℤ
unfolding subtract_entry
subtract_loop m [] = m
subtract_loop m ((name, qty) ∷ rest) = subtract_loop (subtract_entry m name qty) rest

unfoldable pub subtract : Resources → Resources → Resources
unfolding subtract_loop
subtract r other = record { map = subtract_loop r.map other.map }

add_entry : HashMap String ℤ → String → ℤ → HashMap String ℤ
unfolding quantity
add_entry m name qty = HashMap.insert m name (quantity m name +ℤ qty)

add_loop : HashMap String ℤ → HashMap String ℤ → HashMap String ℤ
unfolding add_entry
add_loop m [] = m
add_loop m ((name, qty) ∷ rest) = add_loop (add_entry m name qty) rest

unfoldable pub add : Resources → Resources → Resources
unfolding add_loop
add r other = record { map = add_loop r.map other.map }
