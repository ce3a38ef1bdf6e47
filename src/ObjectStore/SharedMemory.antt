-- ===== src/ObjectStore/SharedMemory.antt =====
-- crates/ray-object-store/src/shared_memory.rs: regions of shared memory and the pool of them. The
-- operating system is reached through the package shared_memory, which is an interface here; names
-- are lists of character codes. Dropping a region closes its mapping.
pub mod Regions
pub mod Names
mod Tests
use ray_rust.Common.{
  ℕ, ◌+◌, ◌%◌, ◌^◌, ◌≤◌, ◌≡◌, Bool, Option, none, some, List, [], ◌∷◌, ◌++◌, length, take, drop,
  leb, PartialEq, nat_beq, list_beq, list_beq_iff, if◌then◌else◌,
}
use ray_rust.Common.Decimal.{decimal}
use ray_rust.Common.HashMap
use ray_rust.Common.HashMap.{HashMap}
use ray_rust.Core.Error.{RayResult, ok, err, shared_memory_error}
use ray_rust.Core.Serialize
use ray_rust.Core.Serialize.{Outcome, answers, panics}

-- What the package offers: a mapping of a named segment, its length, the bytes behind it, and the
-- end of it.
pub record SharedMemory (Os Shmem : Type 0) : Type 0 where
  pub create_segment : Os → List ℕ → ℕ → Option Shmem × Os
  pub open_segment : Os → List ℕ → Option Shmem × Os
  pub mapped : Shmem → ℕ
  pub peek : Os → Shmem → List ℕ
  pub poke : Os → Shmem → List ℕ → Os
  pub close : Os → Shmem → Os

-- What is relied on: a segment is created at least as long as asked for, and a mapping shows as
-- many bytes as it is long, those that were written last.
pub record IsFaithful {Os Shmem : Type 0} (m : SharedMemory Os Shmem) : Type 0 where
  pub created_long_enough :
      (os os' : Os) (name : List ℕ) (size : ℕ) (shmem : Shmem)
      → m.create_segment os name size ≡ (some shmem, os')
      → size ≤ m.mapped shmem
  pub shows_all : (os : Os) (shmem : Shmem) → length (m.peek os shmem) ≡ m.mapped shmem
  pub shows_written :
      (os : Os) (shmem : Shmem) (bytes : List ℕ)
      → length bytes ≡ m.mapped shmem
      → m.peek (m.poke os shmem bytes) shmem ≡ bytes

pub record ShmRegion (Shmem : Type 0) : Type 0 where
  pub name : List ℕ
  pub size : ℕ
  pub inner : Shmem

instance abbrev pub name_eq : PartialEq (List ℕ)
name_eq = record { beq = list_beq nat_beq; beq_iff = list_beq_iff }

pub record ShmPool (Shmem : Type 0) : Type 0 where
  pub regions : HashMap (List ℕ) (ShmRegion Shmem)
  pub base_dir : List ℕ
  pub next_id : ℕ

module _ {Shmem : Type 0} where
  unfoldable pub new : List ℕ → ShmPool Shmem
  new base_dir = record { regions = HashMap.empty; base_dir = base_dir; next_id = 0 }

  unfoldable pub get : ShmPool Shmem → List ℕ → Option (ShmRegion Shmem)
  get p name = HashMap.get p.regions name

-- `format!("{}_{}", base_dir, next_id)`
unfoldable pub region_name : List ℕ → ℕ → List ℕ
region_name base_dir next_id = base_dir ++ (b'_' ∷ decimal next_id)

module _ {Os Shmem : Type 0} (m : SharedMemory Os Shmem) where
  region_of : Option Shmem × Os → List ℕ → ℕ → RayResult (ShmRegion Shmem) × Os
  region_of (none, os) name size = (err shared_memory_error, os)
  region_of (some shmem, os) name size =
      (ok (record { name = name; size = size; inner = shmem }), os)

  unfoldable pub create : Os → List ℕ → ℕ → RayResult (ShmRegion Shmem) × Os
  unfolding region_of
  create os name size = region_of (m.create_segment os name size) name size

  -- `open`: the size is what the caller says.
  unfoldable pub open_region : Os → List ℕ → ℕ → RayResult (ShmRegion Shmem) × Os
  unfolding region_of
  open_region os name size = region_of (m.open_segment os name) name size

  -- `slice::from_raw_parts`: no slice where the size goes beyond the mapping.
  unfoldable pub as_bytes : Os → ShmRegion Shmem → Option (List ℕ)
  as_bytes os r =
      if leb r.size (m.mapped r.inner) then some (take r.size (m.peek os r.inner)) else none

  write_back :
      Os
      → ShmRegion Shmem
      → Outcome (RayResult (Unit {0}) × List ℕ)
      → Outcome (RayResult (Unit {0}) × Os)
  write_back os r panics = panics
  write_back os r (answers (result, buf)) =
      answers (result, m.poke os r.inner (buf ++ drop r.size (m.peek os r.inner)))

  -- `write_at` on the slice of `as_bytes_mut`.
  unfoldable pub write_at :
      Bool → Os → ShmRegion Shmem → ℕ → List ℕ → Option (Outcome (RayResult (Unit {0}) × Os))
  unfolding write_back
  write_at overflow_checks os r offset written = elim (as_bytes os r) [
    | none ↦ none
    | some buf ↦ some (write_back os r (Serialize.write_at overflow_checks buf offset written))
  ]

  -- A region that leaves the pool is dropped.
  drop_region : Os → Option (ShmRegion Shmem) → Os
  drop_region os none = os
  drop_region os (some r) = m.close os r.inner

  keep_region :
      ShmPool Shmem
      → RayResult (ShmRegion Shmem) × Os
      → List ℕ
      → RayResult (List ℕ) × ShmPool Shmem × Os
  unfolding drop_region
  keep_region p (err e, os) name = (err e, p, os)
  keep_region p (ok region, os) name = (
    ok name,
    record p { regions = HashMap.insert p.regions name region },
    drop_region os (HashMap.get p.regions name),
  )

  -- The counter is a `u64`; without overflow checks, as in a release build, it wraps.
  unfoldable pub allocate : Os → ShmPool Shmem → ℕ → RayResult (List ℕ) × ShmPool Shmem × Os
  unfolding keep_region
  allocate os p size =
      let name = region_name p.base_dir p.next_id in
      keep_region (record p { next_id = (p.next_id + 1) % 2 ^ 64 }) (create os name size) name

  unfoldable pub release : Os → ShmPool Shmem → List ℕ → ShmPool Shmem × Os
  unfolding drop_region
  release os p name = (
    record p { regions = HashMap.remove p.regions name },
    drop_region os (HashMap.get p.regions name),
  )
