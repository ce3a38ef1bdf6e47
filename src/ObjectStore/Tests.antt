-- ===== src/ObjectStore/Tests.antt =====
-- The theorems about the object store at concrete values.
use mathlib.Core.Path.{subst}
use ray_rust.Common.{
  ℕ, zero, suc, ◌+◌, ◌-◌, ◌*◌, ◌^◌, ◌<◌, ◌≡◌, ◌≢◌, refl, ap, true, false, ◌||◌, Option, none, some,
  List, [], ◌∷◌, length, replicate, nat_beq, leb, ◌==◌, list_beq, list_beq_iff, if◌then◌else◌,
  arith,
}
use ray_rust.Common.Int.{pos, negsuc}
use ray_rust.Common.HashMap
use ray_rust.Core.Error.{ok, err, insufficient_resources, timeout}
use ray_rust.Core.Id.{ObjectId, id_eq}
use ray_rust.Core.Id.Hex.{IsBytes}
use ray_rust.Core.Status
use ray_rust.Core.Status.{invalid_argument}
use ray_rust.Core.Proto.{ProtoId}
use ray_rust.ObjectStore.{
  InMemoryObjectStore, Call, puts, adds_reference, removes_reference, evicts, new, new_entry, run,
  put, commit, admit, get_entry, total_size, evict_zero_ref_objects,
}
use ray_rust.ObjectStore.Budget.{WithinBudget, run-WithinBudget}
use ray_rust.ObjectStore.Interleaving.{interleaved_puts_overrun}
use ray_rust.ObjectStore.Counting.{reference_count, counts, run_refines_counts}
use ray_rust.ObjectStore.Disk.{
  FilePath, FileSystem, spill_path, spill_file, spill_to_disk, restore_from_disk,
}
use ray_rust.ObjectStore.Disk.RoundTrip.{spill_paths_differ, restore-spill, spill_frees_nothing}
use ray_rust.ObjectStore.Disk.Stale.{stale_bytes_return}
use ray_rust.ObjectStore.Polling
use ray_rust.ObjectStore.Polling.{Schedule, as_u64, ready_count}
use ray_rust.ObjectStore.Polling.Total.{Advances, GetOutcome, get_total, negative_timeout_waits}
use ray_rust.ObjectStore.Polling.Wait.{WaitOutcome, wait_total}
use ray_rust.ObjectStore.Put.{put_exact}
use ray_rust.ObjectStore.References.{eviction_is_idle}
use ray_rust.ObjectStore.Server
use ray_rust.ObjectStore.Server.{ObjectData}

abbrev first_id : ObjectId
first_id = record { bytes = replicate 28 1 }

abbrev second_id : ObjectId
second_id = record { bytes = replicate 28 2 }

abbrev some_bytes : List ℕ
some_bytes = 3 ∷ 4 ∷ []

abbrev some_calls : List Call
some_calls =
    puts first_id (1 ∷ 2 ∷ []) 5
    ∷ adds_reference first_id
    ∷ removes_reference first_id
    ∷ evicts
    ∷ []

few : length some_calls < 2 ^ 32 - 1
few = omega arith

run_refines_counts_example :
    reference_count (run (new 0) some_calls) first_id ≡ counts first_id none some_calls
run_refines_counts_example = run_refines_counts some_calls first_id few

eviction_is_idle_example :
    evict_zero_ref_objects (run (new 9) some_calls) ≡ (0, run (new 9) some_calls)
eviction_is_idle_example = eviction_is_idle 9 some_calls few

run-WithinBudget_example : WithinBudget (run (new 9) some_calls)
run-WithinBudget_example = run-WithinBudget 9 some_calls

put_exact_example :
    let s = run (new 3) some_calls in
    (put s second_id some_bytes 6 ≡ (
      if nat_beq s.max_memory_bytes 0 || leb (total_size s + length some_bytes) s.max_memory_bytes
      then (ok tt, commit s second_id some_bytes 6)
      else (err insufficient_resources, s)))
    × ((j : ObjectId)
        → get_entry (commit s second_id some_bytes 6) j
          ≡ (if second_id == j then some (new_entry second_id some_bytes 6) else get_entry s j))
put_exact_example = put_exact 3 some_calls second_id some_bytes 6 few

ids_differ : first_id ≢ second_id
ids_differ e = omega (arith, ap (λ i. first i.bytes) e)
  where
    first : List ℕ → ℕ
    first [] = 0
    first (x ∷ xs) = x

missing : (id : ObjectId) → get_entry (new 3) id ≡ none
unfolding get_entry new HashMap.get
missing id = refl

size_of_new : (n : ℕ) → total_size (new n) ≡ 0
unfolding total_size new
size_of_new n = refl

limit_of_new : (n : ℕ) → (new n).max_memory_bytes ≡ n
unfolding new
limit_of_new n = refl

interleaved_puts_overrun_example :
    (admit (new 3) (1 ∷ 2 ∷ []) ≡ (ok tt, new 3))
    × (admit (new 3) some_bytes ≡ (ok tt, new 3))
    × (¬ WithinBudget (commit (commit (new 3) first_id (1 ∷ 2 ∷ []) 0) second_id some_bytes 0))
interleaved_puts_overrun_example =
    interleaved_puts_overrun (new 3) first_id second_id (1 ∷ 2 ∷ []) some_bytes 0 0
      (missing first_id) (missing second_id) ids_differ (omega (arith, limit_of_new 3))
      (omega (arith, limit_of_new 3, size_of_new 3)) (omega (arith, limit_of_new 3, size_of_new 3))
      (omega (arith, limit_of_new 3, size_of_new 3))

-- Nothing is ever stored, and a round takes ten milliseconds.
abbrev empty_rounds : Schedule
empty_rounds i = record { objects = HashMap.empty; now = i * 10 }

empty_rounds-Advances : Advances empty_rounds
empty_rounds-Advances i = omega arith

get_total_example :
    GetOutcome empty_rounds first_id
      (0 + as_u64 (pos 25))
      0
      (Polling.get empty_rounds 0 first_id (pos 25) 9)
unfolding as_u64
get_total_example =
    get_total empty_rounds 0 first_id (pos 25) 9 empty_rounds-Advances (omega arith) (omega arith)

wait_total_example :
    WaitOutcome empty_rounds
      (first_id ∷ [])
      (pos 1)
      (0 + as_u64 (pos 25))
      0
      (Polling.wait empty_rounds 0 (first_id ∷ []) (pos 1) (pos 25) 9)
unfolding as_u64
wait_total_example =
    wait_total empty_rounds 0 (first_id ∷ []) (pos 1) (pos 25) 9 empty_rounds-Advances (omega arith)
      (omega arith)

-- Time stands still.
-- The clock is read every ten milliseconds.
abbrev ticking_rounds : Schedule
ticking_rounds i = record { objects = HashMap.empty; now = 7 + 10 * i }

ticking_rounds-Advances : Advances ticking_rounds
ticking_rounds-Advances i = omega arith

negative_timeout_waits_example :
    Polling.get ticking_rounds 7 first_id (negsuc 0) 100 ≢ some (err timeout)
negative_timeout_waits_example =
    negative_timeout_waits ticking_rounds 7 first_id 0 100 (omega arith) (λ j l. omega arith)

-- A disk in memory, on which no call fails.
abbrev Files : Type 0
Files = List (FilePath × List ℕ)

lookup : Files → FilePath → Option (List ℕ)
lookup [] path = none
lookup ((p, bytes) ∷ files) path = if list_beq nat_beq p path then some bytes else lookup files path

lookup-written :
    (d d' : Files) (path : FilePath) (bytes : List ℕ)
    → some ((path, bytes) ∷ d) ≡ some d'
    → lookup d' path ≡ some bytes
unfolding lookup
lookup-written d d' path bytes e =
    subst (λ o. option_lookup o path ≡ some bytes) e (rw ((list_beq_iff path path).1 refl) refl)
  where
    option_lookup : Option Files → FilePath → Option (List ℕ)
    option_lookup none path = none
    option_lookup (some files) path = lookup files path

abbrev memory_disk : FileSystem
memory_disk = record {
  Disk = Files;
  create_dir_all = λ d path. some d;
  write = λ d path bytes. some ((path, bytes) ∷ d);
  read = lookup;
  remove_file = λ d path. d;
  read-write = lookup-written;
}

abbrev some_dir : FilePath
some_dir = b'/' ∷ b't' ∷ []

abbrev one_object : InMemoryObjectStore
one_object = record {
  objects = (first_id, new_entry first_id some_bytes 5) ∷ [];
  max_memory_bytes = 9;
}

stored : get_entry one_object first_id ≡ some (new_entry first_id some_bytes 5)
unfolding get_entry HashMap.get
stored = refl

restore-spill_example :
    let spilled = spill_to_disk memory_disk one_object [] first_id some_dir in
    let restored = restore_from_disk memory_disk spilled.1 spilled.2 first_id in
    (spilled.0 ≡ ok tt)
    × (get_entry spilled.1 first_id
        ≡ some (record (new_entry first_id some_bytes 5) {
          is_spilled = true;
          spill_url = some (spill_path first_id some_dir);
        }))
    × (restored.0 ≡ ok tt)
    × (get_entry restored.1 first_id
        ≡ some (record (new_entry first_id some_bytes 5) { is_spilled = false; spill_url = none }))
    × ((j : ObjectId) → (first_id == j) ≡ false → get_entry restored.1 j ≡ get_entry one_object j)
restore-spill_example =
    restore-spill memory_disk one_object [] [] ((spill_path first_id some_dir, some_bytes) ∷ [])
      first_id some_dir (new_entry first_id some_bytes 5) stored refl refl

spill_frees_nothing_example :
    total_size (spill_to_disk memory_disk one_object [] first_id some_dir).1 ≡ total_size one_object
spill_frees_nothing_example = spill_frees_nothing memory_disk one_object [] first_id some_dir

stale_bytes_return_example :
    let s' = (put one_object first_id (8 ∷ []) 6).1 in
    let path = spill_path first_id some_dir in
    let spilled = spill_file memory_disk s' [] first_id path some_bytes in
    let restored = restore_from_disk memory_disk spilled.1 spilled.2 first_id in
    (get_entry s' first_id ≡ some (new_entry first_id (8 ∷ []) 6))
    × (spilled.0 ≡ ok tt)
    × (restored.0 ≡ ok tt)
    × (get_entry restored.1 first_id ≡ some (new_entry first_id some_bytes 6))
    × (total_size restored.1 + 1 ≡ total_size s' + 2)
unfolding total_size
stale_bytes_return_example =
    stale_bytes_return memory_disk one_object [] ((spill_path first_id some_dir, some_bytes) ∷ [])
      first_id some_dir (new_entry first_id some_bytes 5) (8 ∷ []) 6 stored refl refl

IsBytes-replicate : (n b : ℕ) → b < 256 → IsBytes (replicate n b)
IsBytes-replicate zero b small = tt
IsBytes-replicate (suc n) b small = (small, IsBytes-replicate n b small)

spill_paths_differ_example : spill_path first_id some_dir ≢ spill_path second_id some_dir
spill_paths_differ_example =
    spill_paths_differ first_id second_id some_dir (IsBytes-replicate 28 1 (omega arith))
      (IsBytes-replicate 28 2 (omega arith)) ids_differ

abbrev some_message : ProtoId
some_message = record { id = replicate 28 1 }
