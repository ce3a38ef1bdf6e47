-- ===== src/Core/Resources/Proper.antt =====
-- crates/ray-core/src/resource.rs: the map itself, its names and the signs of its entries.
use ray_rust.Common.{String, ◌≡◌, refl, Bool, true, false, [], ◌∷◌, string_eq, if◌then◌else◌, arith}
use ray_rust.Common.Int.{ℤ, pos, ◌-ℤ◌, ◌≤ℤ◌, leb_ℤ}
use ray_rust.Common.HashMap
use ray_rust.Common.HashMap.{HashMap, Unique}
use ray_rust.Common.HashMap.Laws.{
  Unique-insert, Unique-remove, AllValues, AllValues-insert, AllValues-remove, remove-insert,
}
use ray_rust.Core.Resources.{
  Resources, quantity, set, subtract, subtract_entry, subtract_loop, add, add_entry, add_loop,
}
use ray_rust.Core.Resources.Laws.{IsProper}

subtract_loop-Unique : (m o : HashMap String ℤ) → Unique m → Unique (subtract_loop m o)
unfolding subtract_loop subtract_entry
subtract_loop-Unique m [] u = u
subtract_loop-Unique m ((k, q) ∷ o) u =
    subtract_loop-Unique (subtract_entry m k q) o (entry (leb_ℤ left (pos 0)))
  where
    left : ℤ
    left = quantity m k -ℤ q

    written : HashMap String ℤ
    written = HashMap.insert m k left

    entry : (b : Bool) → Unique (if b then HashMap.remove written k else written)
    entry true = Unique-remove written k (Unique-insert m k left u)
    entry false = Unique-insert m k left u

add_loop-Unique : (m o : HashMap String ℤ) → Unique m → Unique (add_loop m o)
unfolding add_loop add_entry
add_loop-Unique m [] u = u
add_loop-Unique m ((k, q) ∷ o) u = add_loop-Unique (add_entry m k q) o (Unique-insert m k _ u)

pub subtract-IsProper : (r o : Resources) → IsProper r → IsProper (subtract r o)
unfolding subtract
subtract-IsProper r o u = subtract_loop-Unique r.map o.map u

pub add-IsProper : (r o : Resources) → IsProper r → IsProper (add r o)
unfolding add
add-IsProper r o u = add_loop-Unique r.map o.map u

pub set-IsProper : (r : Resources) (name : String) (q : ℤ) → IsProper r → IsProper (set r name q)
unfolding set
set-IsProper r name q u = Unique-insert r.map name q u

-- No entry of the map is zero or less.
abbrev pub IsPositive : Resources → Type 0
IsPositive r = AllValues (λ q. pos 1 ≤ℤ q) r.map

above_zero : (x : ℤ) → leb_ℤ x (pos 0) ≡ false → pos 1 ≤ℤ x
above_zero x h = ground arith

subtract_loop-positive :
    (m o : HashMap String ℤ)
    → AllValues (λ q. pos 1 ≤ℤ q) m
    → AllValues (λ q. pos 1 ≤ℤ q) (subtract_loop m o)
unfolding subtract_loop subtract_entry
subtract_loop-positive m [] a = a
subtract_loop-positive m ((k, q) ∷ o) a =
    subtract_loop-positive (subtract_entry m k q) o (entry (leb_ℤ left (pos 0)) refl)
  where
    left : ℤ
    left = quantity m k -ℤ q

    written : HashMap String ℤ
    written = HashMap.insert m k left

    P : ℤ → Type 0
    P x = pos 1 ≤ℤ x

    entry :
        (b : Bool)
        → leb_ℤ left (pos 0) ≡ b
        → AllValues P (if b then HashMap.remove written k else written)
    entry true e = rw (remove-insert m k left) (AllValues-remove P m k a)
    entry false e = AllValues-insert P m k left (above_zero left e) a

pub subtract-IsPositive : (r o : Resources) → IsPositive r → IsPositive (subtract r o)
unfolding subtract
subtract-IsPositive r o h = subtract_loop-positive r.map o.map h
