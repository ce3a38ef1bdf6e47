-- ===== src/ObjectStore/Disk.antt =====
-- `spill_to_disk` and `restore_from_disk` of crates/ray-object-store/src/store.rs, over a file
-- system that the crate only calls (`tokio::fs`): an interface with the laws that are relied on.
pub mod RoundTrip
pub mod Stale
use ray_rust.Common.{
  ℕ, suc, ◌≡◌, Bool, true, false, Option, none, some, List, [], ◌∷◌, ◌++◌, nat_beq, if◌then◌else◌,
}
use ray_rust.Common.HashMap
use ray_rust.Core.Error.{RayResult, ok, err, object_not_found, io}
use ray_rust.Core.Id.{ObjectId, to_vec, id_eq}
use ray_rust.Core.Id.Hex.{encode}
use ray_rust.ObjectStore.{InMemoryObjectStore, ObjectEntry, get_entry}

abbrev pub FilePath : Type 0
FilePath = List ℕ

-- `none` is an I/O error. A file that has just been written reads as what was written.
pub record FileSystem : Type 1 where
  pub Disk : Type 0
  pub create_dir_all : Disk → FilePath → Option Disk
  pub write : Disk → FilePath → List ℕ → Option Disk
  pub read : Disk → FilePath → Option (List ℕ)
  pub remove_file : Disk → FilePath → Disk
  pub read-write :
      (d d' : Disk) (path : FilePath) (bytes : List ℕ)
      → write d path bytes ≡ some d'
      → read d' path ≡ some bytes

ends_in_slash : FilePath → Bool
ends_in_slash [] = true
ends_in_slash (c ∷ []) = nat_beq c b'/'
ends_in_slash (c ∷ d ∷ path) = ends_in_slash (d ∷ path)

-- `PathBuf::join` with a relative name.
join : FilePath → FilePath → FilePath
unfolding ends_in_slash
join dir name = if ends_in_slash dir then dir ++ name else dir ++ b'/' ∷ name

-- `{hex_id}.bin` in the directory.
unfoldable pub spill_path : ObjectId → FilePath → FilePath
unfolding join
spill_path object_id dir = join dir (encode (to_vec object_id) ++ b'.' ∷ b'b' ∷ b'i' ∷ b'n' ∷ [])

unfoldable pub mark_spilled : FilePath → ObjectEntry → ObjectEntry
mark_spilled path e = record e { is_spilled = true; spill_url = some path }

unfoldable pub mark_restored : List ℕ → ObjectEntry → ObjectEntry
mark_restored bytes e = record e { bytes = bytes; is_spilled = false; spill_url = none }

module _ (fs : FileSystem) where
  open fs use {Disk, create_dir_all, write, read, remove_file}

  abbrev pub Outcome : Type 0
  Outcome = RayResult (Unit {0}) × InMemoryObjectStore × Disk

  -- The write of the file, once the directory is there.
  unfoldable pub spill_file : InMemoryObjectStore → Disk → ObjectId → FilePath → List ℕ → Outcome
  unfolding mark_spilled
  spill_file s d object_id path bytes = elim (write d path bytes) [
    | none ↦ (err io, s, d)
    | some d' ↦
        (ok tt, record s { objects = HashMap.modify s.objects object_id (mark_spilled path) }, d')
  ]

  spill_entry : InMemoryObjectStore → Disk → ObjectId → FilePath → ObjectEntry → Outcome
  unfolding spill_file
  spill_entry s d object_id dir entry = elim (create_dir_all d dir) [
    | none ↦ (err io, s, d)
    | some d' ↦ spill_file s d' object_id (spill_path object_id dir) entry.bytes
  ]

  unfoldable pub spill_to_disk : InMemoryObjectStore → Disk → ObjectId → FilePath → Outcome
  unfolding spill_entry
  spill_to_disk s d object_id dir = elim (get_entry s object_id) [
    | none ↦ (err object_not_found, s, d)
    | some entry ↦ spill_entry s d object_id dir entry
  ]

  restore_file : InMemoryObjectStore → Disk → ObjectId → FilePath → Outcome
  unfolding mark_restored
  restore_file s d object_id path = elim (read d path) [
    | none ↦ (err io, s, d)
    | some bytes ↦ (
      ok tt,
      record s { objects = HashMap.modify s.objects object_id (mark_restored bytes) },
      remove_file d path,
    )
  ]

  restore_entry : InMemoryObjectStore → Disk → ObjectId → ObjectEntry → Outcome
  unfolding restore_file
  restore_entry s d object_id entry = elim entry.spill_url [
    | none ↦ (err object_not_found, s, d)
    | some path ↦ restore_file s d object_id path
  ]

  unfoldable pub restore_from_disk : InMemoryObjectStore → Disk → ObjectId → Outcome
  unfolding restore_entry
  restore_from_disk s d object_id = elim (get_entry s object_id) [
    | none ↦ (err object_not_found, s, d)
    | some entry ↦ restore_entry s d object_id entry
  ]
