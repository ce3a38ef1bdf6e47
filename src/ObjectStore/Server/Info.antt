-- ===== src/ObjectStore/Server/Info.antt =====
-- The handlers of crates/ray-object-store/src/server.rs about single objects that are there: their
-- description, waiting, spilling and reference counts.
use ray_rust.Common.{
  ℕ, ◌+◌, ◌-◌, option_map, Bool, true, Option, some, List, [], ◌∷◌, ◌++◌, length, map, unwrap_or,
  if◌then◌else◌,
}
use ray_rust.Common.Int.{ℤ}
use ray_rust.Core.Error.{RayError, RayResult, ok as done, err as failed, is_ok}
use ray_rust.Core.Id.{ObjectId}
use ray_rust.Core.Proto.{ProtoId}
use ray_rust.Core.Convert.{id_from_proto}
use ray_rust.Core.Status.{Reply, ok, err, ◌>>=◌, required, or_internal}
use ray_rust.ObjectStore
use ray_rust.ObjectStore.{InMemoryObjectStore, ObjectEntry}
use ray_rust.ObjectStore.Polling.{as_i32, ready_count}
use ray_rust.ObjectStore.Disk.{FileSystem, FilePath, spill_to_disk, restore_from_disk}
use ray_rust.ObjectStore.Server.{ObjectMetadata, WaitReply, Handler}

-- `create_time.elapsed()` at the time `now`, and the other fields.
describe : ProtoId → ℕ → ObjectEntry → ObjectMetadata
describe object_id now entry = record {
  object_id = some object_id;
  data_size = length entry.bytes;
  metadata_size = 0;
  total_size = length entry.bytes;
  ref_count = as_i32 entry.ref_count;
  is_spilled = entry.is_spilled;
  spill_url = unwrap_or entry.spill_url [];
  create_time_ms = now - entry.create_time;
}

-- `none` is the reply `found: false` with no metadata.
unfoldable pub get_object_info :
    InMemoryObjectStore → ℕ → Option ProtoId → Reply (Option ObjectMetadata)
unfolding describe
get_object_info s now object_id = do
  id ← required object_id
  ok (option_map (describe id now) (ObjectStore.get_entry s (id_from_proto id)))

unfoldable pub wait :
    (List ObjectId → ℤ → ℤ → RayResult (List Bool)) → List ProtoId → ℤ → ℤ → Reply WaitReply
wait answer object_ids num_ready timeout_ms = do
  flags ← or_internal (answer (map id_from_proto object_ids) num_ready timeout_ms)
  ok (record { ready_flags = flags; num_ready = as_i32 (ready_count flags) })

-- "/tmp/ray_spill"
abbrev default_url : FilePath
default_url =
    b'/' ∷ b't' ∷ b'm' ∷ b'p' ∷ b'/' ∷ b'r' ∷ b'a' ∷ b'y' ∷ b'_' ∷ b's' ∷ b'p' ∷ b'i' ∷ b'l' ∷ b'l'
    ∷ []

storage_dir : FilePath → FilePath
storage_dir [] = default_url
storage_dir (c ∷ url) = c ∷ url

pub record SpillObjectsReply : Type 0 where
  pub num_spilled : ℕ
  pub error_messages : List RayError

spill_count : RayResult (Unit {0}) → SpillObjectsReply → SpillObjectsReply
spill_count (done _) r = record r { num_spilled = r.num_spilled + 1 }
spill_count (failed e) r = record r { error_messages = r.error_messages ++ e ∷ [] }

module _ (fs : FileSystem) where
  open fs use {Disk}

  spill_loop :
      InMemoryObjectStore
      → Disk
      → FilePath
      → List ProtoId
      → SpillObjectsReply
      → SpillObjectsReply × InMemoryObjectStore × Disk
  unfolding spill_count
  spill_loop s d dir [] reply = (reply, s, d)
  spill_loop s d dir (obj_id ∷ rest) reply =
      let (result, s', d') = spill_to_disk fs s d (id_from_proto obj_id) dir in
      spill_loop s' d' dir rest (spill_count result reply)

  unfoldable pub spill_objects :
      InMemoryObjectStore
      → Disk
      → FilePath
      → List ProtoId
      → SpillObjectsReply × InMemoryObjectStore × Disk
  unfolding spill_loop storage_dir
  spill_objects s d storage_url object_ids =
      spill_loop s d (storage_dir storage_url) object_ids
        (record { num_spilled = 0; error_messages = [] })

  restore_loop : InMemoryObjectStore → Disk → List ProtoId → ℕ → ℕ × InMemoryObjectStore × Disk
  restore_loop s d [] num_restored = (num_restored, s, d)
  restore_loop s d (obj_id ∷ rest) num_restored =
      let (result, s', d') = restore_from_disk fs s d (id_from_proto obj_id) in
      restore_loop s' d' rest (if is_ok result then num_restored + 1 else num_restored)

  unfoldable pub restore_objects :
      InMemoryObjectStore → Disk → List ProtoId → ℕ × InMemoryObjectStore × Disk
  unfolding restore_loop
  restore_objects s d object_ids = restore_loop s d object_ids 0

add_at : InMemoryObjectStore → Reply ObjectId → Handler Bool
add_at s (err e) = (err e, s)
add_at s (ok id) = (ok true, ObjectStore.add_reference s id)

unfoldable pub add_reference : InMemoryObjectStore → Option ProtoId → Handler Bool
unfolding add_at
add_reference s object_id = add_at s (do id ← required object_id; ok (id_from_proto id))

-- The reply says whether the object was evicted.
remove_at : InMemoryObjectStore → Reply ObjectId → Handler Bool
remove_at s (err e) = (err e, s)
remove_at s (ok id) = let (evicted, s') = ObjectStore.remove_reference s id in (ok evicted, s')

unfoldable pub remove_reference : InMemoryObjectStore → Option ProtoId → Handler Bool
unfolding remove_at
remove_reference s object_id = remove_at s (do id ← required object_id; ok (id_from_proto id))
