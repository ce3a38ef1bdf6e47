-- ===== src/ObjectStore/Server/Batches.antt =====
-- `delete`, `batch_get` and `batch_put` of crates/ray-object-store/src/server.rs.
use ray_rust.Common.{
  ℕ, suc, ◌≡◌, refl, Bool, false, ◌||◌, none, some, List, [], ◌∷◌, ◌++◌, length, map, ◌==◌, arith,
}
use ray_rust.Common.Int.{ℤ}
use ray_rust.Core.Error.{RayError, RayResult}
use ray_rust.Core.Id.{ObjectId, id_eq}
use ray_rust.Core.Proto.{ProtoId}
use ray_rust.Core.Convert.{id_from_proto}
use ray_rust.Core.Status.{err, invalid_argument}
use ray_rust.ObjectStore
use ray_rust.ObjectStore.{InMemoryObjectStore}
use ray_rust.ObjectStore.Polling.{ready_count}
use ray_rust.ObjectStore.Server.{
  ObjectData, batch_get, batch_get_add, batch_put, batch_put_loop, count_ok, push_error,
}

-- The object is one of those that a request names.
abbrev pub listed : ObjectId → List ProtoId → Bool
listed j [] = false
listed j (p ∷ ps) = id_from_proto p == j || listed j ps

-- `BatchGet` has one flag for each identifier, and one result for each flag that is set.
pub batch_get_shape :
    (answer : ℕ → ObjectId → ℤ → RayResult (List ℕ)) (n : ℕ) (ids : List ProtoId) (timeout_ms : ℤ)
    → let r = batch_get answer n ids timeout_ms in
      (length r.found_flags ≡ length ids) × (length r.results ≡ ready_count r.found_flags)
unfolding batch_get batch_get_add ready_count
batch_get_shape answer n [] timeout_ms = (refl, refl)
batch_get_shape answer n (p ∷ ids) timeout_ms =
    ground (arith, batch_get_shape answer (suc n) ids timeout_ms)

-- An item of a request with its identifier.
abbrev pub item : ProtoId × List ℕ → ObjectData
item (id, bytes) = record { object_id = some id; bytes = bytes; metadata = [] }

-- The store after the puts of a batch, in order.
abbrev pub put_all :
    InMemoryObjectStore → (ℕ → ℕ) → ℕ → List (ProtoId × List ℕ) → InMemoryObjectStore
put_all s clock i [] = s
put_all s clock i ((id, bytes) ∷ rest) =
    put_all (ObjectStore.put s (id_from_proto id) bytes (clock i)).1 clock (suc i) rest

batch_put_loop-missing :
    (s : InMemoryObjectStore) (clock : ℕ → ℕ) (i : ℕ) (good : List (ProtoId × List ℕ))
    (bad : ObjectData) (rest : List ObjectData) (n : ℕ) (errors : List RayError)
    → bad.object_id ≡ none
    → batch_put_loop s clock i (map item good ++ bad ∷ rest) n errors
      ≡ (err invalid_argument, put_all s clock i good)
unfolding batch_put_loop
batch_put_loop-missing s clock i [] bad rest n errors h = rw (h, batch_put_loop) refl
batch_put_loop-missing s clock i ((id, bytes) ∷ good) bad rest n errors h =
    let (result, s') = ObjectStore.put s (id_from_proto id) bytes (clock i) in
    batch_put_loop-missing s' clock (suc i) good bad rest (count_ok result n)
      (push_error result errors) h

-- An item with no identifier makes `BatchPut` fail as a whole, but the items before it have been
-- put all the same, and none behind it is.
pub batch_put_partial :
    (s : InMemoryObjectStore) (clock : ℕ → ℕ) (good : List (ProtoId × List ℕ)) (bad : ObjectData)
    (rest : List ObjectData)
    → bad.object_id ≡ none
    → batch_put s clock (map item good ++ bad ∷ rest)
      ≡ (err invalid_argument, put_all s clock 0 good)
unfolding batch_put
batch_put_partial s clock good bad rest h = batch_put_loop-missing s clock 0 good bad rest 0 [] h
