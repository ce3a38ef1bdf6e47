-- ===== src/ObjectStore/Disk/Stale.antt =====
-- The two halves of `spill_to_disk` in crates/ray-object-store/src/store.rs, in an order in which
-- two tasks can run them: the bytes are copied under a lock, and the entry is marked later.
use ray_rust.Common.{
  ℕ, ◌+◌, ◌∙◌, ◌≡◌, refl, ap, true, false, none, some, List, ◌||◌, nat_beq, leb, length, beq_refl,
}
use ray_rust.Common.HashMap
use ray_rust.Common.HashMap.{HashMap}
use ray_rust.Common.HashMap.Sums.{sum-modify, sum-modified}
use ray_rust.Core.Error.{ok}
use ray_rust.Core.Id.{ObjectId, id_eq}
use ray_rust.ObjectStore.{
  InMemoryObjectStore, ObjectEntry, data_size, total_size, get_entry, new_entry, put,
}
use ray_rust.ObjectStore.Put.{commit_lem, put_within}
use ray_rust.ObjectStore.Disk.{
  FilePath, FileSystem, spill_path, mark_spilled, mark_restored, spill_file, restore_from_disk,
}
use ray_rust.ObjectStore.Disk.RoundTrip.{spilled_entry, restored_entry, restore_ok}

put_entry :
    (s : InMemoryObjectStore) (id : ObjectId) (bytes : List ℕ) (now : ℕ)
    → (nat_beq s.max_memory_bytes 0 || leb (total_size s + length bytes) s.max_memory_bytes) ≡ true
    → get_entry (put s id bytes now).1 id ≡ some (new_entry id bytes now)
put_entry s id bytes now fits =
    ap (λ r. get_entry r.1 id) (put_within s id bytes now fits)
    ∙ commit_lem s id bytes now id
    ∙ rw (beq_refl id) refl

-- What the mark of a spill and the write of a restore leave.
abbrev marked : InMemoryObjectStore → ObjectId → FilePath → InMemoryObjectStore
marked s id path = record s { objects = HashMap.modify s.objects id (mark_spilled path) }

abbrev written_back : InMemoryObjectStore → ObjectId → List ℕ → InMemoryObjectStore
written_back s id bytes = record s { objects = HashMap.modify s.objects id (mark_restored bytes) }

marked-size :
    (s : InMemoryObjectStore) (id : ObjectId) (path : FilePath)
    → total_size (marked s id path) ≡ total_size s
unfolding total_size mark_spilled
marked-size s id path = sum-modify data_size s.objects id (mark_spilled path) (λ e. refl)

-- Restored bytes take the place of those in the entry, and no budget is looked at.
written_back-size :
    (s : InMemoryObjectStore) (id : ObjectId) (e : ObjectEntry) (bytes : List ℕ)
    → get_entry s id ≡ some e
    → total_size (written_back s id bytes) + length e.bytes ≡ total_size s + length bytes
unfolding total_size mark_restored get_entry
written_back-size s id e bytes there =
    sum-modified data_size s.objects id e (mark_restored bytes) there

module _ (fs : FileSystem) where
  open fs use {Disk, write, read, remove_file}

  -- The second half of a spill that succeeds, on the store as it is then.
  spill_file_ok :
      (s : InMemoryObjectStore) (d d' : Disk) (id : ObjectId) (path : FilePath) (bytes : List ℕ)
      → write d path bytes ≡ some d'
      → spill_file fs s d id path bytes ≡ (ok tt, marked s id path, d')
  unfolding spill_file
  spill_file_ok s d d' id path bytes w = rw (w, spill_file) refl

  -- The bytes in the file win over those of the entry that is there when it is marked.
  spilled_over :
      (s : InMemoryObjectStore) (d d' : Disk) (id : ObjectId) (path : FilePath) (e : ObjectEntry)
      (bytes : List ℕ)
      → get_entry s id ≡ some e
      → write d path bytes ≡ some d'
      → let spilled = spill_file fs s d id path bytes in
        let restored = restore_from_disk fs spilled.1 spilled.2 id in
        (spilled.0 ≡ ok tt)
        × (restored.0 ≡ ok tt)
        × (get_entry restored.1 id
            ≡ some (record e { bytes = bytes; is_spilled = false; spill_url = none }))
        × (total_size restored.1 + length e.bytes ≡ total_size s + length bytes)
  spilled_over s d d' id path e bytes there w = rw (spill_file_ok s d d' id path bytes w) (
      rw
        (restore_ok fs (marked s id path) d' id path e' bytes there' refl
          (fs.read-write d d' path bytes w))
        (refl, refl, restored_entry (marked s id path) id e' bytes there', size))
    where
      e' : ObjectEntry
      e' = record e { is_spilled = true; spill_url = some path }

      there' : get_entry (marked s id path) id ≡ some e'
      there' = spilled_entry s id path e there

      size :
          total_size (written_back (marked s id path) id bytes) + length e.bytes
          ≡ total_size s + length bytes
      size =
          written_back-size (marked s id path) id e' bytes there'
          ∙ ap (λ n. n + length bytes) (marked-size s id path)

  -- A spill copies the bytes of an object, and marks its entry later: when a put of the same object
  -- with newer bytes, which fit, comes in between, and the file of the spill is then written, both
  -- succeed, and so does a restore afterwards, which replaces the newer bytes by the old ones; the
  -- store then counts the old bytes in the place of the newer ones, whatever its budget.
  pub stale_bytes_return :
      (s : InMemoryObjectStore) (d d' : Disk) (id : ObjectId) (dir : FilePath) (old : ObjectEntry)
      (newer : List ℕ) (now : ℕ)
      → get_entry s id ≡ some old
      → (nat_beq s.max_memory_bytes 0 || leb (total_size s + length newer) s.max_memory_bytes)
        ≡ true
      → write d (spill_path id dir) old.bytes ≡ some d'
      → let s' = (put s id newer now).1 in
        let spilled = spill_file fs s' d id (spill_path id dir) old.bytes in
        let restored = restore_from_disk fs spilled.1 spilled.2 id in
        (get_entry s' id ≡ some (new_entry id newer now))
        × (spilled.0 ≡ ok tt)
        × (restored.0 ≡ ok tt)
        × (get_entry restored.1 id ≡ some (new_entry id old.bytes now))
        × (total_size restored.1 + length newer ≡ total_size s' + length old.bytes)
  stale_bytes_return s d d' id dir old newer now there fits w =
      let there' = put_entry s id newer now fits in
      let (spilled, restored, back, size) =
        spilled_over (put s id newer now).1 d d' id (spill_path id dir) (new_entry id newer now)
          old.bytes there' w in
      (there', spilled, restored, back, size)
