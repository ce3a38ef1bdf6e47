-- ===== src/ObjectStore/Server.antt =====
-- crates/ray-object-store/src/server.rs: the handlers of the gRPC service. A handler takes the
-- store and gives the reply with the store that it leaves. `get` and `wait` take the answers of the
-- polling loops as arguments, one for each call that is made.
pub mod Info
pub mod Batches
use ray_rust.Common.{
  ℕ, zero, suc, ◌+◌, Bool, true, false, Option, none, some, List, [], ◌∷◌, ◌++◌, length, map,
  unwrap_or, if◌then◌else◌,
}
use ray_rust.Common.Int.{ℤ, pos}
use ray_rust.Core.Error.{RayError, RayResult, ok as done, err as failed, is_ok}
use ray_rust.Core.Id.{ObjectId}
use ray_rust.Core.Proto.{ProtoId}
use ray_rust.Core.Convert.{id_from_proto}
use ray_rust.Core.Status.{Reply, ok, err, ◌>>=◌, required, or_internal, invalid_argument}
use ray_rust.ObjectStore
use ray_rust.ObjectStore.{InMemoryObjectStore, ObjectEntry}
use ray_rust.ObjectStore.Polling.{as_i32, ready_count}
use ray_rust.ObjectStore.Disk
use ray_rust.ObjectStore.Disk.{FileSystem, FilePath}

-- object_store.proto
pub record ObjectData : Type 0 where
  pub object_id : Option ProtoId
  pub bytes : List ℕ
  pub metadata : List ℕ

pub record PutReply : Type 0 where
  pub success : Bool

pub record GetReply : Type 0 where
  pub found : Bool
  pub object_data : Option ObjectData
  pub error : Option RayError

pub record BatchGetReply : Type 0 where
  pub results : List ObjectData
  pub found_flags : List Bool

pub record BatchPutReply : Type 0 where
  pub num_succeeded : ℕ
  pub error_messages : List RayError

pub record ObjectMetadata : Type 0 where
  pub object_id : Option ProtoId
  pub data_size : ℕ
  pub metadata_size : ℕ
  pub total_size : ℕ
  pub ref_count : ℤ
  pub is_spilled : Bool
  pub spill_url : List ℕ
  pub create_time_ms : ℕ

pub record WaitReply : Type 0 where
  pub ready_flags : List Bool
  pub num_ready : ℤ

abbrev pub Handler : Type 0 → Type 0
Handler A = Reply A × InMemoryObjectStore

put_at : InMemoryObjectStore → ℕ → Reply (ObjectId × List ℕ) → Handler PutReply
put_at s now (err e) = (err e, s)
put_at s now (ok (id, bytes)) =
    let (result, s') = ObjectStore.put s id bytes now in
    ((do stored ← or_internal result; ok (record { success = true })), s')

unfoldable pub put : InMemoryObjectStore → ℕ → Option ObjectData → Handler PutReply
unfolding put_at
put s now object_data = put_at s now (do
  obj ← required object_data
  object_id ← required obj.object_id
  ok (id_from_proto object_id, obj.bytes))

get_reply : ProtoId → RayResult (List ℕ) → GetReply
get_reply object_id (done bytes) = record {
  found = true;
  object_data = some (record { object_id = some object_id; bytes = bytes; metadata = [] });
  error = none;
}
get_reply object_id (failed e) = record { found = false; object_data = none; error = some e }

unfoldable pub get : (ObjectId → ℤ → RayResult (List ℕ)) → Option ProtoId → ℤ → Reply GetReply
unfolding get_reply
get answer object_id timeout_ms = do
  id ← required object_id
  ok (get_reply id (answer (id_from_proto id) timeout_ms))

delete_loop : InMemoryObjectStore → List ProtoId → ℕ → ℕ × InMemoryObjectStore
delete_loop s [] num_deleted = (num_deleted, s)
delete_loop s (obj_id ∷ rest) num_deleted =
    let (result, s') = ObjectStore.delete s (id_from_proto obj_id) in
    delete_loop s' rest (if is_ok result then num_deleted + 1 else num_deleted)

unfoldable pub delete : InMemoryObjectStore → List ProtoId → Handler ℕ
unfolding delete_loop
delete s object_ids = let (num_deleted, s') = delete_loop s object_ids 0 in (ok num_deleted, s')

unfoldable pub contains : InMemoryObjectStore → Option ProtoId → Reply Bool
contains s object_id = do
  id ← required object_id
  exists ← or_internal (ObjectStore.contains s (id_from_proto id))
  ok exists

batch_get_add : ProtoId → RayResult (List ℕ) → BatchGetReply → BatchGetReply
batch_get_add obj_id (done bytes) rest = record {
  results = record { object_id = some obj_id; bytes = bytes; metadata = [] } ∷ rest.results;
  found_flags = true ∷ rest.found_flags;
}
batch_get_add obj_id (failed e) rest = record rest { found_flags = false ∷ rest.found_flags }

-- `answer n` is what `get` answers in round `n` of the loop.
unfoldable pub batch_get :
    (ℕ → ObjectId → ℤ → RayResult (List ℕ)) → ℕ → List ProtoId → ℤ → BatchGetReply
unfolding batch_get_add
batch_get answer n [] timeout_ms = record { results = []; found_flags = [] }
batch_get answer n (obj_id ∷ rest) timeout_ms =
    batch_get_add obj_id (answer n (id_from_proto obj_id) timeout_ms)
      (batch_get answer (suc n) rest timeout_ms)

count_ok : RayResult (Unit {0}) → ℕ → ℕ
count_ok (done _) n = n + 1
count_ok (failed e) n = n

push_error : RayResult (Unit {0}) → List RayError → List RayError
push_error (done _) errors = errors
push_error (failed e) errors = errors ++ e ∷ []

-- A missing identifier ends the loop with an error; what was put before stays. `clock i` is the
-- time of the `i`-th put.
batch_put_loop :
    InMemoryObjectStore → (ℕ → ℕ) → ℕ → List ObjectData → ℕ → List RayError → Handler BatchPutReply
unfolding count_ok push_error
batch_put_loop s clock i [] num_succeeded errors =
    (ok (record { num_succeeded = num_succeeded; error_messages = errors }), s)
batch_put_loop s clock i (obj ∷ rest) num_succeeded errors = elim obj.object_id [
  | none ↦ (err invalid_argument, s)
  | some id ↦
      let (result, s') = ObjectStore.put s (id_from_proto id) obj.bytes (clock i) in
      batch_put_loop s' clock (suc i) rest (count_ok result num_succeeded)
        (push_error result errors)
]

unfoldable pub batch_put : InMemoryObjectStore → (ℕ → ℕ) → List ObjectData → Handler BatchPutReply
unfolding batch_put_loop
batch_put s clock items = batch_put_loop s clock 0 items 0 []
