-- ===== src/ObjectStore/SharedMemory/Regions.antt =====
-- Reads and writes of a region (crates/ray-object-store/src/shared_memory.rs).
use ray_rust.Common.{
  ℕ, ◌+◌, ◌^◌, ◌≤◌, ◌<◌, ◌≡◌, refl, sym, ap, ◌∙◌, Bool, true, Option, none, some, List, ◌++◌,
  length, take, drop, leb, take-middle, length-append, length-take, length-drop, arith,
}
use ray_rust.Core.Error.{ok, ok_unwrap_or}
use ray_rust.Core.Serialize
use ray_rust.Core.Serialize.{Outcome, answers}
use ray_rust.Core.Serialize.Buffers.{spliced, length-spliced, write_at_fits}
use ray_rust.ObjectStore.SharedMemory.{
  SharedMemory, IsFaithful, ShmRegion, create, region_of, as_bytes, write_at, write_back,
}

module _ {Os Shmem : Type 0} (m : SharedMemory Os Shmem) where
  region_made :
      (made : Option Shmem × Os) (name : List ℕ) (size : ℕ) (r : ShmRegion Shmem) (os : Os)
      → region_of m made name size ≡ (ok r, os)
      → (r.size ≡ size) × (made ≡ (some r.inner, os))
  unfolding region_of
  region_made (none, os') name size r os h = ground arith
  region_made (some shmem, os') name size r os h = (
    sym (ap (λ p. (ok_unwrap_or p.0 r).size) h),
    ap (λ p. (some (ok_unwrap_or p.0 r).inner, p.1)) h,
  )

  as_bytes_mapped :
      (f : IsFaithful m) (os : Os) (r : ShmRegion Shmem)
      → r.size ≤ m.mapped r.inner
      → as_bytes m os r ≡ some (take r.size (m.peek os r.inner))
  unfolding as_bytes
  as_bytes_mapped f os r le =
      let e : leb r.size (m.mapped r.inner) ≡ true = ground arith in rw e refl

  -- The bytes of the region and those of its mapping behind it.
  length-rest :
      (f : IsFaithful m) (os : Os) (r : ShmRegion Shmem) (buf : List ℕ)
      → r.size ≤ m.mapped r.inner
      → length buf ≡ r.size
      → length (buf ++ drop r.size (m.peek os r.inner)) ≡ m.mapped r.inner
  length-rest f os r buf le e = omega (
    arith,
    length-append buf (drop r.size (m.peek os r.inner)),
    length-drop r.size (m.peek os r.inner),
    f.shows_all os r.inner,
  )

  poked :
      (f : IsFaithful m) (os : Os) (r : ShmRegion Shmem) (buf : List ℕ)
      → r.size ≤ m.mapped r.inner
      → length buf ≡ r.size
      → as_bytes m (m.poke os r.inner (buf ++ drop r.size (m.peek os r.inner))) r ≡ some buf
  poked f os r buf le e =
      let rest = drop r.size (m.peek os r.inner) in
      as_bytes_mapped f (m.poke os r.inner (buf ++ rest)) r le
      ∙ ap (λ bs. some (take r.size bs))
          (f.shows_written os r.inner (buf ++ rest) (length-rest f os r buf le e))
      ∙ ap some (ap (λ n. take n (buf ++ rest)) (sym e) ∙ take-middle buf rest)

  written_region :
      (os : Os) (r : ShmRegion Shmem) (checks : Bool) (offset : ℕ) (written buf buf' : List ℕ)
      → as_bytes m os r ≡ some buf
      → Serialize.write_at checks buf offset written ≡ answers (ok tt, buf')
      → write_at m checks os r offset written
        ≡ some (answers (ok tt, m.poke os r.inner (buf' ++ drop r.size (m.peek os r.inner))))
  unfolding write_at write_back
  written_region os r checks offset written buf buf' shown done =
      rw (shown, write_at) (rw (done, write_back) refl)

  -- Over a package that keeps its word, a region that was created has as many bytes as it was asked
  -- for, and a write that fits into them is read back: the region then shows the bytes before, with
  -- the written ones in their place.
  pub region_reads_back :
      (f : IsFaithful m) (os os' : Os) (name : List ℕ) (size : ℕ) (r : ShmRegion Shmem)
      (checks : Bool) (offset : ℕ) (written : List ℕ)
      → create m os name size ≡ (ok r, os')
      → size < 2 ^ 63
      → offset + length written ≤ size
      → (buf : List ℕ) × (os'' : Os) × (as_bytes m os' r ≡ some buf)
        × (length buf ≡ size)
        × (write_at m checks os' r offset written ≡ some (answers (ok tt, os'')))
        × (as_bytes m os'' r ≡ some (spliced buf offset written))
  unfolding create
  region_reads_back f os os' name size r checks offset written made small fits =
      let (same, opened) = region_made (m.create_segment os name size) name size r os' made in
      let le : r.size ≤ m.mapped r.inner =
        rw same (f.created_long_enough os os' name size r.inner opened) in
      let buf = take r.size (m.peek os' r.inner) in
      let n : length buf ≡ r.size =
        omega (arith, length-take r.size (m.peek os' r.inner), f.shows_all os' r.inner, le) in
      let buf' = spliced buf offset written in
      let n' : length buf' ≡ r.size =
        length-spliced buf offset written (omega (arith, n, same)) ∙ n in
      (
        buf,
        m.poke os' r.inner (buf' ++ drop r.size (m.peek os' r.inner)),
        as_bytes_mapped f os' r le,
        n ∙ same,
        written_region os' r checks offset written buf buf' (as_bytes_mapped f os' r le) (
            write_at_fits checks buf offset written (omega (arith, n, same))
              (omega (arith, n, same))),
        poked f os' r buf' le n',
      )
