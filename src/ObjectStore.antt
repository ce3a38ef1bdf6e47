-- ===== src/ObjectStore.antt =====
-- crates/ray-object-store/src/store.rs: the in-memory store. Each lock section is one step; a
-- method that takes the lock several times is split at those points, so that its parts can be
-- interleaved. The clock and the random identifiers are arguments.
pub mod Budget
pub mod Interleaving
pub mod References
pub mod Counting
pub mod Polling
pub mod Disk
pub mod Put
pub mod Entries
pub mod SharedMemory
pub mod Server
mod Tests
use ray_rust.Common.{
  ℕ, suc, ◌+◌, ◌-◌, ◌%◌, ◌^◌, Bool, true, false, Option, none, some, List, [], ◌∷◌, length, ltb,
  nat_beq, if◌then◌else◌,
}
use ray_rust.Common.HashMap
use ray_rust.Common.HashMap.{HashMap}
use ray_rust.Common.HashMap.Sums.{sum_values}
use ray_rust.Core.Error.{RayResult, ok, err, insufficient_resources}
use ray_rust.Core.Id.{ObjectId, id_eq}

pub record ObjectEntry : Type 0 where
  pub object_id : ObjectId
  pub bytes : List ℕ
  pub create_time : ℕ
  pub ref_count : ℕ
  pub is_spilled : Bool
  pub spill_url : Option (List ℕ)

abbrev pub Objects : Type 0
Objects = HashMap ObjectId ObjectEntry

-- A budget of 0 bytes is no limit.
pub record InMemoryObjectStore : Type 0 where
  pub objects : Objects
  pub max_memory_bytes : ℕ

unfoldable pub new : ℕ → InMemoryObjectStore
new max_memory_bytes = record { objects = HashMap.empty; max_memory_bytes = max_memory_bytes }

abbrev pub data_size : ObjectEntry → ℕ
data_size e = length e.bytes

unfoldable pub total_size : InMemoryObjectStore → ℕ
total_size s = sum_values data_size s.objects

unfoldable pub object_count : InMemoryObjectStore → ℕ
object_count s = length s.objects

is_referenced : ObjectId → ObjectEntry → Bool
is_referenced id entry = ltb 0 entry.ref_count

-- The number of evicted objects, and the store without them.
unfoldable pub evict_zero_ref_objects : InMemoryObjectStore → ℕ × InMemoryObjectStore
unfolding is_referenced
evict_zero_ref_objects s =
    let kept = HashMap.retain is_referenced s.objects in
    (length s.objects - length kept, record s { objects = kept })

unfoldable pub get_entry : InMemoryObjectStore → ObjectId → Option ObjectEntry
get_entry s object_id = HashMap.get s.objects object_id

-- `entry.ref_count += 1` on a `u32`; without overflow checks, as in a release build, it wraps.
increment : ObjectEntry → ObjectEntry
increment e = record e { ref_count = (e.ref_count + 1) % 2 ^ 32 }

unfoldable pub add_reference : InMemoryObjectStore → ObjectId → InMemoryObjectStore
unfolding increment
add_reference s object_id = record s { objects = HashMap.modify s.objects object_id increment }

-- `saturating_sub(1)`
decrement : ObjectEntry → ObjectEntry
decrement e = record e { ref_count = e.ref_count - 1 }

-- `should_remove`: the count of the entry after the decrement is zero.
is_unreferenced : Option ObjectEntry → Bool
is_unreferenced none = false
is_unreferenced (some e) = nat_beq e.ref_count 0

unfoldable pub remove_reference : InMemoryObjectStore → ObjectId → Bool × InMemoryObjectStore
unfolding decrement is_unreferenced
remove_reference s object_id =
    let objects = HashMap.modify s.objects object_id decrement in
    if is_unreferenced (HashMap.get objects object_id)
    then (true, record s { objects = HashMap.remove objects object_id })
    else (false, record s { objects = objects })

-- The first half of `put`: the budget is checked, and objects are evicted if it is short. The lock
-- is free between this and the write.
unfoldable pub admit : InMemoryObjectStore → List ℕ → RayResult (Unit {0}) × InMemoryObjectStore
admit s bytes =
    if ltb 0 s.max_memory_bytes
    then (if ltb s.max_memory_bytes (total_size s + length bytes)
        then (let s' = (evict_zero_ref_objects s).1 in
            if ltb s.max_memory_bytes (total_size s' + length bytes)
            then (err insufficient_resources, s')
            else (ok tt, s'))
        else (ok tt, s))
    else (ok tt, s)

abbrev pub new_entry : ObjectId → List ℕ → ℕ → ObjectEntry
new_entry object_id bytes now = record {
  object_id = object_id;
  bytes = bytes;
  create_time = now;
  ref_count = 1;
  is_spilled = false;
  spill_url = none;
}

-- The second half: the entry is written, over one of the same identifier.
unfoldable pub commit : InMemoryObjectStore → ObjectId → List ℕ → ℕ → InMemoryObjectStore
commit s object_id bytes now = record s {
  objects = HashMap.insert s.objects object_id (new_entry object_id bytes now);
}

committed :
    RayResult (Unit {0}) × InMemoryObjectStore
    → ObjectId
    → List ℕ
    → ℕ
    → RayResult (Unit {0}) × InMemoryObjectStore
unfolding commit
committed (ok _, s) object_id bytes now = (ok tt, commit s object_id bytes now)
committed (err e, s) object_id bytes now = (err e, s)

unfoldable pub put :
    InMemoryObjectStore → ObjectId → List ℕ → ℕ → RayResult (Unit {0}) × InMemoryObjectStore
unfolding committed
put s object_id bytes now = committed (admit s bytes) object_id bytes now

unfoldable pub delete : InMemoryObjectStore → ObjectId → RayResult (Unit {0}) × InMemoryObjectStore
delete s object_id = (ok tt, record s { objects = HashMap.remove s.objects object_id })

unfoldable pub contains : InMemoryObjectStore → ObjectId → RayResult Bool
contains s object_id = ok (HashMap.contains_key s.objects object_id)

-- The calls that change the store without the disk: `spill_to_disk` and `restore_from_disk` are in
-- Disk, and no run of these calls has them.
pub data Call : Type 0 where
  puts : ObjectId → List ℕ → ℕ → Call
  adds_reference removes_reference deletes : ObjectId → Call
  evicts : Call

unfoldable pub step : InMemoryObjectStore → Call → InMemoryObjectStore
step s (puts object_id bytes now) = (put s object_id bytes now).1
step s (adds_reference object_id) = add_reference s object_id
step s (removes_reference object_id) = (remove_reference s object_id).1
step s (deletes object_id) = (delete s object_id).1
step s evicts = (evict_zero_ref_objects s).1

unfoldable pub run : InMemoryObjectStore → List Call → InMemoryObjectStore
run s [] = s
run s (c ∷ cs) = run (step s c) cs
