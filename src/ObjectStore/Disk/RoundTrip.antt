-- ===== src/ObjectStore/Disk/RoundTrip.antt =====
-- Spilling and restoring in crates/ray-object-store/src/store.rs, one after the other.
use ray_rust.Common.{
  ℕ, ◌≢◌, ◌≡◌, refl, true, false, none, some, List, [], ◌∷◌, ◌==◌, Bool-cases, inl, inr, ap, drop,
  arith,
}
use ray_rust.Common.HashMap
use ray_rust.Common.HashMap.{HashMap}
use ray_rust.Common.HashMap.Laws.{get-modify}
use ray_rust.Common.HashMap.Sums.{sum-modify}
use ray_rust.Core.Error.{ok}
use ray_rust.Core.Id.{ObjectId, to_vec, id_eq}
use ray_rust.Core.Id.Hex.{encode, IsBytes, encode-injective}
use mathlib.Core.List.{append_cancel_left, append_cancel_right}
use ray_rust.ObjectStore.{InMemoryObjectStore, ObjectEntry, get_entry, total_size, data_size}
use ray_rust.ObjectStore.Disk.{
  FilePath, FileSystem, spill_path, join, ends_in_slash, mark_spilled, mark_restored, spill_file,
  spill_entry, spill_to_disk, restore_file, restore_entry, restore_from_disk,
}

pub spilled_entry :
    (s : InMemoryObjectStore) (id : ObjectId) (path : FilePath) (e : ObjectEntry)
    → get_entry s id ≡ some e
    → get_entry (record s { objects = HashMap.modify s.objects id (mark_spilled path) }) id
      ≡ some (record e { is_spilled = true; spill_url = some path })
unfolding get_entry mark_spilled
spilled_entry s id path e h =
    ground (arith, id_eq.beq_iff id id, get-modify s.objects id (mark_spilled path) id)

pub restored_entry :
    (s : InMemoryObjectStore) (id : ObjectId) (e : ObjectEntry) (bytes : List ℕ)
    → get_entry s id ≡ some e
    → get_entry (record s { objects = HashMap.modify s.objects id (mark_restored bytes) }) id
      ≡ some (record e { bytes = bytes; is_spilled = false; spill_url = none })
unfolding get_entry mark_restored
restored_entry s id e bytes h =
    ground (arith, id_eq.beq_iff id id, get-modify s.objects id (mark_restored bytes) id)

twice_modified :
    (s : InMemoryObjectStore) (id j : ObjectId) (f g : ObjectEntry → ObjectEntry)
    → (id == j) ≡ false
    → get_entry (record s { objects = HashMap.modify (HashMap.modify s.objects id f) id g }) j
      ≡ get_entry s j
unfolding get_entry
twice_modified s id j f g ne =
    ground (arith, get-modify (HashMap.modify s.objects id f) id g j, get-modify s.objects id f j)

same_size : (path : FilePath) (e : ObjectEntry) → data_size (mark_spilled path e) ≡ data_size e
unfolding mark_spilled
same_size path e = refl

join-injective : (dir a b : FilePath) → join dir a ≡ join dir b → a ≡ b
unfolding join
join-injective dir a b e = elim (Bool-cases (ends_in_slash dir)) [
  | inl slash ↦ append_cancel_left dir a b (rw slash at e)
  | inr plain ↦ ap (drop 1) (append_cancel_left dir (b'/' ∷ a) (b'/' ∷ b) (rw plain at e))
]

module _ (fs : FileSystem) where
  open fs use {Disk, create_dir_all, write, read, remove_file}

  -- The shape of a spill that succeeds.
  spill_ok :
      (s : InMemoryObjectStore) (d d₁ d₂ : Disk) (id : ObjectId) (dir : FilePath) (e : ObjectEntry)
      → get_entry s id ≡ some e
      → create_dir_all d dir ≡ some d₁
      → write d₁ (spill_path id dir) e.bytes ≡ some d₂
      → spill_to_disk fs s d id dir ≡ (
        ok tt,
        record s { objects = HashMap.modify s.objects id (mark_spilled (spill_path id dir)) },
        d₂,
      )
  unfolding spill_to_disk spill_entry spill_file
  spill_ok s d d₁ d₂ id dir e h c w =
      rw (h, spill_to_disk) (rw (c, spill_entry) (rw (w, spill_file) refl))

  pub restore_ok :
      (s : InMemoryObjectStore) (d : Disk) (id : ObjectId) (path : FilePath) (e : ObjectEntry)
      (bytes : List ℕ)
      → get_entry s id ≡ some e
      → e.spill_url ≡ some path
      → read d path ≡ some bytes
      → restore_from_disk fs s d id ≡ (
        ok tt,
        record s { objects = HashMap.modify s.objects id (mark_restored bytes) },
        remove_file d path,
      )
  unfolding restore_from_disk restore_entry restore_file
  restore_ok s d id path e bytes h u r =
      rw (h, restore_from_disk) (rw (u, restore_entry) (rw (r, restore_file) refl))

  -- An object that was spilled, to a disk that takes the directory and the file, comes back:
  -- restoring succeeds and gives the entry with its bytes, its count and its age as before and no
  -- mark of the disk, and every other object is untouched.
  pub restore-spill :
      (s : InMemoryObjectStore) (d d₁ d₂ : Disk) (id : ObjectId) (dir : FilePath) (e : ObjectEntry)
      → get_entry s id ≡ some e
      → create_dir_all d dir ≡ some d₁
      → write d₁ (spill_path id dir) e.bytes ≡ some d₂
      → let spilled = spill_to_disk fs s d id dir in
        let restored = restore_from_disk fs spilled.1 spilled.2 id in
        (spilled.0 ≡ ok tt)
        × (get_entry spilled.1 id
            ≡ some (record e { is_spilled = true; spill_url = some (spill_path id dir) }))
        × (restored.0 ≡ ok tt)
        × (get_entry restored.1 id ≡ some (record e { is_spilled = false; spill_url = none }))
        × ((j : ObjectId) → (id == j) ≡ false → get_entry restored.1 j ≡ get_entry s j)
  restore-spill s d d₁ d₂ id dir e h c w = rw (spill_ok s d d₁ d₂ id dir e h c w) (
      rw (restore_ok s₁ d₂ id path e₁ e.bytes there refl (fs.read-write d₁ d₂ path e.bytes w))
        (refl, there, refl, back, untouched))
    where
      path : FilePath
      path = spill_path id dir

      s₁ : InMemoryObjectStore
      s₁ = record s { objects = HashMap.modify s.objects id (mark_spilled path) }

      e₁ : ObjectEntry
      e₁ = record e { is_spilled = true; spill_url = some path }

      there : get_entry s₁ id ≡ some e₁
      there = spilled_entry s id path e h

      back :
          get_entry
            (record s₁ { objects = HashMap.modify s₁.objects id (mark_restored e.bytes) })
            id
          ≡ some (record e { is_spilled = false; spill_url = none })
      back = restored_entry s₁ id e₁ e.bytes there

      untouched :
          (j : ObjectId)
          → (id == j) ≡ false
          → get_entry
              (record s₁ { objects = HashMap.modify s₁.objects id (mark_restored e.bytes) })
              j
            ≡ get_entry s j
      untouched j ne = twice_modified s id j (mark_spilled path) (mark_restored e.bytes) ne

  -- Spilling frees no memory: whatever happens, the store counts as many bytes as before.
  pub spill_frees_nothing :
      (s : InMemoryObjectStore) (d : Disk) (id : ObjectId) (dir : FilePath)
      → total_size (spill_to_disk fs s d id dir).1 ≡ total_size s
  unfolding spill_to_disk spill_entry spill_file total_size
  spill_frees_nothing s d id dir = ground (
    arith,
    sum-modify data_size s.objects id (mark_spilled (spill_path id dir))
        (same_size (spill_path id dir)),
  )

spill_path-injective :
    (a b : ObjectId) (dir : FilePath)
    → IsBytes a.bytes
    → IsBytes b.bytes
    → spill_path a dir ≡ spill_path b dir
    → a ≡ b
unfolding spill_path to_vec
spill_path-injective a b dir ha hb e =
    λ i. record { bytes = encode-injective a.bytes b.bytes ha hb names i }
  where
    dot_bin : List ℕ
    dot_bin = b'.' ∷ b'b' ∷ b'i' ∷ b'n' ∷ []

    names : encode a.bytes ≡ encode b.bytes
    names = append_cancel_right _ _ dot_bin (join-injective dir _ _ e)

-- Two different objects, whose identifiers are lists of bytes, are never spilled to the same file
-- of a directory.
pub spill_paths_differ :
    (a b : ObjectId) (dir : FilePath)
    → IsBytes a.bytes
    → IsBytes b.bytes
    → a ≢ b
    → spill_path a dir ≢ spill_path b dir
spill_paths_differ a b dir ha hb ne = λ e. ne (spill_path-injective a b dir ha hb e)
