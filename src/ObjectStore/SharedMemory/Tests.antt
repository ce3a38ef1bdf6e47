-- ===== src/ObjectStore/SharedMemory/Tests.antt =====
-- The theorems about shared memory at concrete values, over segments in a map.
use ray_rust.Common.{
  ℕ, zero, suc, ◌≤◌, ◌≡◌, refl, sym, ap, ◌∙◌, true, Option, none, some, List, [], ◌∷◌, length,
  replicate, ◌==◌, unwrap_or, if◌then◌else◌, beq_refl, arith,
}
use ray_rust.Common.Decimal.{char_codes, decimal}
use ray_rust.Common.HashMap
use ray_rust.Common.HashMap.{HashMap}
use ray_rust.Common.HashMap.Laws.{get-insert}
use ray_rust.Core.Error.{ok}
use ray_rust.Core.Serialize.{answers}
use ray_rust.Core.Serialize.Buffers.{spliced}
use ray_rust.ObjectStore.SharedMemory.{
  SharedMemory, IsFaithful, ShmRegion, name_eq, new, get, region_name, create, as_bytes, write_at,
  allocate, release,
}
use ray_rust.ObjectStore.SharedMemory.Names.{
  Call, allocates, releases, run, made, named, allocate_lem,
}
use ray_rust.ObjectStore.SharedMemory.Regions.{region_reads_back}

abbrev Segments : Type 0
Segments = HashMap (List ℕ) (List ℕ)

record Mapping : Type 0 where
  segment : List ℕ
  size : ℕ

-- So many bytes of a text, with zeros behind it.
pad : ℕ → List ℕ → List ℕ
pad zero bytes = []
pad (suc n) [] = 0 ∷ pad n []
pad (suc n) (b ∷ bytes) = b ∷ pad n bytes

length-pad : (n : ℕ) (bytes : List ℕ) → length (pad n bytes) ≡ n
unfolding pad
length-pad zero bytes = refl
length-pad (suc n) [] = ap suc (length-pad n [])
length-pad (suc n) (b ∷ bytes) = ap suc (length-pad n bytes)

pad_self : (bytes : List ℕ) → pad (length bytes) bytes ≡ bytes
unfolding pad
pad_self [] = refl
pad_self (b ∷ bytes) = ap (λ bs. b ∷ bs) (pad_self bytes)

make_at : Option (List ℕ) → Segments → List ℕ → ℕ → Option Mapping × Segments
make_at (some bytes) os name size = (none, os)
make_at none os name size =
    (some (record { segment = name; size = size }), HashMap.insert os name (replicate size 0))

make : Segments → List ℕ → ℕ → Option Mapping × Segments
unfolding make_at
make os name size = make_at (HashMap.get os name) os name size

look : Segments → Mapping → List ℕ
look os s = pad s.size (unwrap_or (HashMap.get os s.segment) [])

-- A new segment is mapped whole, and no more.
abbrev in_map : SharedMemory Segments Mapping
in_map = record {
  create_segment = make;
  open_segment = λ os name. (some (record { segment = name; size = 4 }), os);
  mapped = λ s. s.size;
  peek = look;
  poke = λ os s bytes. HashMap.insert os s.segment bytes;
  close = λ os s. HashMap.remove os s.segment;
}

make_at_long_enough :
    (found : Option (List ℕ)) (os os' : Segments) (name : List ℕ) (size : ℕ) (s : Mapping)
    → make_at found os name size ≡ (some s, os')
    → size ≤ s.size
unfolding make_at
make_at_long_enough (some bytes) os os' name size s h = ground arith
make_at_long_enough none os os' name size s h =
    let e : size ≡ s.size = ap (λ p. (unwrap_or p.0 s).size) h in omega arith

make_long_enough :
    (os os' : Segments) (name : List ℕ) (size : ℕ) (s : Mapping)
    → make os name size ≡ (some s, os')
    → size ≤ s.size
unfolding make
make_long_enough os os' name size s h =
    make_at_long_enough (HashMap.get os name) os os' name size s h

look_written :
    (os : Segments) (s : Mapping) (bytes : List ℕ)
    → length bytes ≡ s.size
    → look (HashMap.insert os s.segment bytes) s ≡ bytes
unfolding look
look_written os s bytes n =
    rw (get-insert os s.segment bytes s.segment, beq_refl s.segment)
      (ap (λ k. pad k bytes) (sym n) ∙ pad_self bytes)

look_all : (os : Segments) (s : Mapping) → length (look os s) ≡ s.size
unfolding look
look_all os s = length-pad s.size _

in_map-IsFaithful : IsFaithful in_map
in_map-IsFaithful = record {
  created_long_enough = make_long_enough;
  shows_all = look_all;
  shows_written = look_written;
}

abbrev some_base : List ℕ
some_base = char_codes "ray"

-- The first two names.
first_names :
    (region_name some_base 0 ≡ char_codes "ray_0")
    × (region_name some_base 12 ≡ char_codes "ray_12")
unfolding region_name decimal
first_names = (refl, refl)

abbrev some_calls : List Call
some_calls = allocates 8 ∷ allocates 4 ∷ releases (char_codes "ray_0") ∷ []

allocate_lem_example :
    let (os, p) = run in_map ([], new some_base) some_calls in
    let name = region_name p.base_dir p.next_id in
    let (result, p', os') = allocate in_map os p 16 in
    (get p name ≡ none)
    × (result ≡ named in_map (create in_map os name 16).0 name)
    × ((other : List ℕ)
        → get p' other
          ≡ (if name == other then made in_map (create in_map os name 16).0 else get p other))
    × ((other : List ℕ) → get (release in_map os' p' name).0 other ≡ get p other)
allocate_lem_example = allocate_lem in_map some_base some_calls [] 16 (omega arith)

abbrev some_region : ShmRegion Mapping
some_region = record {
  name = some_base;
  size = 4;
  inner = record { segment = some_base; size = 4 };
}

abbrev four_zeros : Segments
four_zeros = (some_base, replicate 4 0) ∷ []

creates_region : create in_map [] some_base 4 ≡ (ok some_region, four_zeros)
unfolding create make HashMap.get HashMap.insert
creates_region = refl

region_reads_back_example :
    (buf : List ℕ) × (os'' : Segments) × (as_bytes in_map four_zeros some_region ≡ some buf)
    × (length buf ≡ 4)
    × (write_at in_map true four_zeros some_region 1 (7 ∷ 8 ∷ []) ≡ some (answers (ok tt, os'')))
    × (as_bytes in_map os'' some_region ≡ some (spliced buf 1 (7 ∷ 8 ∷ [])))
region_reads_back_example =
    region_reads_back in_map in_map-IsFaithful [] four_zeros some_base 4 some_region true 1
      (7 ∷ 8 ∷ []) creates_region (omega arith) (omega arith)
