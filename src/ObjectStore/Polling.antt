-- ===== src/ObjectStore/Polling.antt =====
-- `get` and `wait` of crates/ray-object-store/src/store.rs: loops that look at the store every ten
-- milliseconds until they are served or the deadline has passed. What other tasks do in between is
-- a schedule: for each round, the objects that the lock shows and the clock that is read after it.
-- A loop takes fuel; `none` means that the fuel ran out.
pub mod Total
pub mod Wait
pub mod Found
use ray_rust.Common.{
  ℕ, zero, suc, ◌+◌, ◌-◌, ◌%◌, ◌^◌, Bool, true, false, ◌||◌, Option, none, some, List, length, map,
  keep, ltb, leb, if◌then◌else◌,
}
use ray_rust.Common.Int.{ℤ, pos, negsuc, leb_ℤ}
use ray_rust.Common.HashMap
use ray_rust.Core.Error.{RayResult, ok, err, timeout}
use ray_rust.Core.Id.{ObjectId, id_eq}
use ray_rust.ObjectStore.{Objects, ObjectEntry}

pub record Round : Type 0 where
  pub objects : Objects
  pub now : ℕ

abbrev pub Schedule : Type 0
Schedule = ℕ → Round

-- `timeout_ms as u64`: a negative number of milliseconds becomes a huge one.
unfoldable pub as_u64 : ℤ → ℕ
as_u64 (pos n) = n % 2 ^ 64
as_u64 (negsuc n) = 2 ^ 64 - suc (n % 2 ^ 64)

-- `count() as i32`
unfoldable pub as_i32 : ℕ → ℤ
as_i32 n = let m = n % 2 ^ 32 in if ltb m (2 ^ 31) then pos m else negsuc (2 ^ 32 - suc m)

get_round : Option ObjectEntry → Bool → Option (RayResult (List ℕ)) → Option (RayResult (List ℕ))
get_round (some entry) late rest = some (ok entry.bytes)
get_round none true rest = some (err timeout)
get_round none false rest = rest

unfoldable pub get_loop : Schedule → ObjectId → ℕ → ℕ → ℕ → Option (RayResult (List ℕ))
unfolding get_round
get_loop rounds object_id deadline zero i = none
get_loop rounds object_id deadline (suc fuel) i =
    let rest = get_loop rounds object_id deadline fuel (suc i) in
    get_round (HashMap.get (rounds i).objects object_id) (leb deadline (rounds i).now) rest

-- `start` is the clock when the call begins.
unfoldable pub get : Schedule → ℕ → ObjectId → ℤ → ℕ → Option (RayResult (List ℕ))
unfolding as_u64
get rounds start object_id timeout_ms fuel =
    get_loop rounds object_id (start + as_u64 timeout_ms) fuel 0

unfoldable pub ready_flags : Objects → List ObjectId → List Bool
ready_flags objects object_ids = map (HashMap.contains_key objects) object_ids

unfoldable pub ready_count : List Bool → ℕ
ready_count flags = length (keep (λ r. r) flags)

is_done : Round → List ObjectId → ℤ → ℕ → Bool
is_done r object_ids num_ready deadline =
    leb_ℤ num_ready (as_i32 (ready_count (ready_flags r.objects object_ids))) || leb deadline r.now

unfoldable pub wait_loop : Schedule → List ObjectId → ℤ → ℕ → ℕ → ℕ → Option (RayResult (List Bool))
unfolding is_done
wait_loop rounds object_ids num_ready deadline zero i = none
wait_loop rounds object_ids num_ready deadline (suc fuel) i =
    let rest = wait_loop rounds object_ids num_ready deadline fuel (suc i) in
    if is_done (rounds i) object_ids num_ready deadline
    then some (ok (ready_flags (rounds i).objects object_ids))
    else rest

unfoldable pub wait : Schedule → ℕ → List ObjectId → ℤ → ℤ → ℕ → Option (RayResult (List Bool))
wait rounds start object_ids num_ready timeout_ms fuel =
    wait_loop rounds object_ids num_ready (start + as_u64 timeout_ms) fuel 0
