-- ===== src/ObjectStore/SharedMemory/Names.antt =====
-- The names that the pool of crates/ray-object-store/src/shared_memory.rs gives out.
use mathlib.Core.Path.{subst}
use ray_rust.Common.{
  list_beq_iff, ℕ, suc, ◌+◌, ◌%◌, ◌^◌, ◌≤◌, ◌<◌, ◌≡◌, refl, sym, ap, ◌∙◌, inl, inr, Option, none,
  some, List, [], ◌∷◌, ◌++◌, length, ◌==◌, Bool-cases, Option-cases, if◌then◌else◌, arith,
}
use ray_rust.Common.Decimal.{decimal, decimal-injective}
use ray_rust.Common.HashMap
use ray_rust.Common.HashMap.Laws.{get-insert, get-remove, insert-cases, remove-found}
use ray_rust.Core.Error.{RayResult, ok, err}
use ray_rust.ObjectStore.SharedMemory.{
  SharedMemory, ShmRegion, ShmPool, name_eq, new, get, region_name, create, keep_region, allocate,
  release,
}

-- What the pool is asked for.
pub data Call : Type 0 where
  allocates : ℕ → Call
  releases : List ℕ → Call

append_cancel : (front a b : List ℕ) → front ++ a ≡ front ++ b → a ≡ b
append_cancel [] a b h = h
append_cancel (x ∷ front) a b h = append_cancel front a b (cc)

pub region_name-injective :
    (base : List ℕ) (j k : ℕ) → region_name base j ≡ region_name base k → j ≡ k
unfolding region_name
region_name-injective base j k h =
    let same : b'_' ∷ decimal j ≡ b'_' ∷ decimal k = append_cancel base _ _ h in
    decimal-injective j k (cc)

module _ {Os Shmem : Type 0} (m : SharedMemory Os Shmem) where
  unfoldable pub step : Os × ShmPool Shmem → Call → Os × ShmPool Shmem
  step (os, p) (allocates size) = let (result, p', os') = allocate m os p size in (os', p')
  step (os, p) (releases name) = let (p', os') = release m os p name in (os', p')

  unfoldable pub run : Os × ShmPool Shmem → List Call → Os × ShmPool Shmem
  run s [] = s
  run s (c ∷ cs) = run (step s c) cs

  -- Every region in the pool has a name with a number below the counter, which no call moves by
  -- more than one.
  record IsNumbered (base : List ℕ) (bound : ℕ) (p : ShmPool Shmem) : Type 0 where
    same_base : p.base_dir ≡ base
    counted : p.next_id ≤ bound
    numbered :
        (name : List ℕ) (r : ShmRegion Shmem)
        → get p name ≡ some r
        → (k : ℕ) × (k < p.next_id) × (name ≡ region_name base k)

  keep_region-IsNumbered :
      (base : List ℕ) (bound : ℕ) (p : ShmPool Shmem) (made : RayResult (ShmRegion Shmem) × Os)
      → bound + 1 < 2 ^ 64
      → IsNumbered base bound p
      → IsNumbered base
          (bound + 1)
          (keep_region m
            (record p { next_id = (p.next_id + 1) % 2 ^ 64 })
            made
            (region_name p.base_dir p.next_id)).1
  unfolding keep_region get
  keep_region-IsNumbered base bound p (err e, os) small n = record {
    same_base = n.same_base;
    counted = omega (arith, n.counted);
    numbered =
        λ name r h. let (k, lt, e) = n.numbered name r h in (k, omega (arith, lt, n.counted), e);
  }
  keep_region-IsNumbered base bound p (ok region, os) small n = record {
    same_base = n.same_base;
    counted = omega (arith, n.counted);
    numbered = λ name r h.
        elim (insert-cases p.regions (region_name p.base_dir p.next_id) region name r h) [
          | inl (same, _) ↦ (
            p.next_id,
            omega (arith, n.counted),
            sym same ∙ ap (λ b. region_name b p.next_id) n.same_base,
          )
          | inr before ↦
              let (k, lt, e) = n.numbered name r before in (k, omega (arith, lt, n.counted), e)
        ];
  }

  step-IsNumbered :
      (base : List ℕ) (bound : ℕ) (s : Os × ShmPool Shmem) (c : Call)
      → bound + 1 < 2 ^ 64
      → IsNumbered base bound s.1
      → IsNumbered base (bound + 1) (step s c).1
  unfolding step allocate release get
  step-IsNumbered base bound (os, p) (allocates size) small n =
      keep_region-IsNumbered base bound p (create m os (region_name p.base_dir p.next_id) size)
        small n
  step-IsNumbered base bound (os, p) (releases gone) small n = record {
    same_base = n.same_base;
    counted = omega (arith, n.counted);
    numbered = λ name r h. n.numbered name r (remove-found p.regions gone name r h);
  }

  run-IsNumbered :
      (base : List ℕ) (bound : ℕ) (s : Os × ShmPool Shmem) (cs : List Call)
      → bound + length cs < 2 ^ 64
      → IsNumbered base bound s.1
      → IsNumbered base (bound + length cs) (run s cs).1
  unfolding run
  run-IsNumbered base bound s [] small n =
      let e : bound ≡ bound + 0 = omega arith in subst (λ b. IsNumbered base b s.1) e n
  run-IsNumbered base bound s (c ∷ cs) small n =
      let e : bound + 1 + length cs ≡ bound + suc (length cs) = omega arith in
      subst (λ b. IsNumbered base b (run (step s c) cs).1) e
        (run-IsNumbered base (bound + 1) (step s c) cs (omega arith)
          (step-IsNumbered base bound s c (omega arith) n))

  new-IsNumbered : (base : List ℕ) → IsNumbered base 0 (new base)
  unfolding new get HashMap.get
  new-IsNumbered base = record {
    same_base = refl;
    counted = omega arith;
    numbered = λ name r h. ground arith;
  }

  next_is_free :
      (base : List ℕ) (bound : ℕ) (p : ShmPool Shmem)
      → IsNumbered base bound p
      → get p (region_name base p.next_id) ≡ none
  next_is_free base bound p n = elim (Option-cases (get p (region_name base p.next_id))) [
    | inl free ↦ free
    | inr (r, taken) ↦
        let (k, lt, e) = n.numbered (region_name base p.next_id) r taken in
        let same : p.next_id ≡ k = region_name-injective base p.next_id k e in absurd (omega arith)
  ]

  abbrev pub made : RayResult (ShmRegion Shmem) → Option (ShmRegion Shmem)
  made (ok r) = some r
  made (err e) = none

  abbrev pub named : RayResult (ShmRegion Shmem) → List ℕ → RayResult (List ℕ)
  named (ok r) name = ok name
  named (err e) name = err e

  keep_region_lem :
      (p : ShmPool Shmem) (result : RayResult (ShmRegion Shmem)) (os : Os) (name : List ℕ)
      → get p name ≡ none
      → let kept = keep_region m p (result, os) name in
        (kept.0 ≡ named result name)
        × ((other : List ℕ)
            → get kept.1 other ≡ (if name == other then made result else get p other))
  unfolding keep_region get
  keep_region_lem p (ok r) os name free = (refl, λ other. get-insert p.regions name r other)
  keep_region_lem p (err e) os name free = (
    refl,
    λ other. elim (Bool-cases (name == other)) [
      | inr differs ↦ rw differs refl
      | inl same ↦ rw (same, ← (list_beq_iff name other).0 same) free
    ],
  )

  removed_again :
      (p p' : ShmPool Shmem) (os : Os) (result : RayResult (ShmRegion Shmem)) (name : List ℕ)
      → get p name ≡ none
      → ((other : List ℕ) → get p' other ≡ (if name == other then made result else get p other))
      → (other : List ℕ) → get (release m os p' name).0 other ≡ get p other
  unfolding release get
  removed_again p p' os result name free found other =
      get-remove p'.regions name other ∙ elim (Bool-cases (name == other)) [
        | inl same ↦ rw (same, ← (list_beq_iff name other).0 same) (sym free)
        | inr differs ↦ rw differs (found other ∙ rw differs refl)
      ]

  allocate_at :
      (bound : ℕ) (os : Os) (p : ShmPool Shmem) (size : ℕ)
      → IsNumbered p.base_dir bound p
      → let name = region_name p.base_dir p.next_id in
        let (result, p', os') = allocate m os p size in
        (get p name ≡ none)
        × (result ≡ named (create m os name size).0 name)
        × ((other : List ℕ)
            → get p' other
              ≡ (if name == other then made (create m os name size).0 else get p other))
        × ((other : List ℕ) → get (release m os' p' name).0 other ≡ get p other)
  unfolding allocate get
  allocate_at bound os p size n =
      let name = region_name p.base_dir p.next_id in
      let free = next_is_free p.base_dir bound p n in
      let (result, os') = create m os name size in
      let counted : ShmPool Shmem = record p { next_id = (p.next_id + 1) % 2 ^ 64 } in
      let (answer, found) = keep_region_lem counted result os' name free in
      let kept = keep_region m counted (result, os') name in
      (free, answer, found, removed_again p kept.1 kept.2 result name free found)

  -- Over any operating system, and while fewer than 2^64 calls are made, the pool allocates under a
  -- name that none of its regions has: it answers the name, and has then the new region and its
  -- other ones; if the system makes none, it answers the error and its regions are as before. To
  -- release the name brings the regions back to what they were.
  pub allocate_lem :
      (base : List ℕ) (cs : List Call) (start : Os) (size : ℕ)
      → length cs < 2 ^ 64
      → let (os, p) = run (start, new base) cs in
        let name = region_name p.base_dir p.next_id in
        let (result, p', os') = allocate m os p size in
        (get p name ≡ none)
        × (result ≡ named (create m os name size).0 name)
        × ((other : List ℕ)
            → get p' other
              ≡ (if name == other then made (create m os name size).0 else get p other))
        × ((other : List ℕ) → get (release m os' p' name).0 other ≡ get p other)
  allocate_lem base cs start size small =
      let (os, p) = run (start, new base) cs in
      let n = run-IsNumbered base 0 (start, new base) cs (omega arith) (new-IsNumbered base) in
      allocate_at (0 + length cs) os p size
        (subst (λ b. IsNumbered b (0 + length cs) p) (sym n.same_base) n)
