-- ===== src/ObjectStore/Budget.antt =====
-- The memory budget of crates/ray-object-store/src/store.rs through its calls.
use ray_rust.Common.{ℕ, ◌+◌, ◌∙◌, ◌≤◌, ◌<◌, ◌≡◌, refl, ◌⊎◌, inl, inr, List, [], ◌∷◌, length, arith}
use ray_rust.Common.HashMap
use ray_rust.Common.HashMap.{HashMap}
use ray_rust.Common.HashMap.Sums.{sum-insert, sum-remove-le, sum-modify, sum-retain-le}
use ray_rust.Core.Error.{RayResult, ok, err, insufficient_resources}
use ray_rust.Core.Id.{ObjectId, id_eq}
use ray_rust.ObjectStore.{
  InMemoryObjectStore, ObjectEntry, data_size, new_entry, total_size, evict_zero_ref_objects,
  is_referenced, add_reference, increment, remove_reference, decrement, admit, commit, committed,
  put, delete, Call, puts, adds_reference, removes_reference, deletes, evicts, step, run, new,
}

-- A store with a limit holds no more bytes than it.
abbrev pub WithinBudget : InMemoryObjectStore → Type 0
WithinBudget s = (s.max_memory_bytes ≡ 0) ⊎ (total_size s ≤ s.max_memory_bytes)

evict-size-le : (s : InMemoryObjectStore) → total_size (evict_zero_ref_objects s).1 ≤ total_size s
unfolding evict_zero_ref_objects total_size
evict-size-le s = sum-retain-le data_size is_referenced s.objects

commit-size-le :
    (s : InMemoryObjectStore) (id : ObjectId) (bytes : List ℕ) (now : ℕ)
    → total_size (commit s id bytes now) ≤ total_size s + length bytes
unfolding commit total_size
commit-size-le s id bytes now =
    omega (arith, sum-insert data_size s.objects id (new_entry id bytes now))

max-evict :
    (s : InMemoryObjectStore) → (evict_zero_ref_objects s).1.max_memory_bytes ≡ s.max_memory_bytes
unfolding evict_zero_ref_objects
max-evict s = refl

pub max-commit :
    (s : InMemoryObjectStore) (id : ObjectId) (bytes : List ℕ) (now : ℕ)
    → (commit s id bytes now).max_memory_bytes ≡ s.max_memory_bytes
unfolding commit
max-commit s id bytes now = refl

-- There is room for `n` more bytes, or no limit.
abbrev pub HasRoom : InMemoryObjectStore → ℕ → Type 0
HasRoom s n = (s.max_memory_bytes ≡ 0) ⊎ (total_size s + n ≤ s.max_memory_bytes)

-- What `admit` promises: a store of the same limit, no larger than before, with room for the bytes
-- if it says so, and short of room if it does not.
admit_lem :
    (s : InMemoryObjectStore) (bytes : List ℕ)
    → let r = admit s bytes in
      (r.1.max_memory_bytes ≡ s.max_memory_bytes)
      × (total_size r.1 ≤ total_size s)
      × (((r.0 ≡ ok tt) × HasRoom r.1 (length bytes))
          ⊎ ((r.0 ≡ err insufficient_resources)
              × (s.max_memory_bytes < total_size r.1 + length bytes)))
unfolding admit
admit_lem s bytes = ground (arith, evict-size-le s, max-evict s)

commit-WithinBudget :
    (s : InMemoryObjectStore) (id : ObjectId) (bytes : List ℕ) (now : ℕ)
    → HasRoom s (length bytes)
    → WithinBudget (commit s id bytes now)
commit-WithinBudget s id bytes now h =
    ground (arith, h, commit-size-le s id bytes now, max-commit s id bytes now)

committed-WithinBudget :
    (r : RayResult (Unit {0}) × InMemoryObjectStore) (id : ObjectId) (bytes : List ℕ) (now : ℕ)
    → ((r.0 ≡ ok tt) × HasRoom r.1 (length bytes)) ⊎ (r.0 ≡ err insufficient_resources)
    → WithinBudget r.1
    → WithinBudget (committed r id bytes now).1
unfolding committed
committed-WithinBudget (ok _, s) id bytes now (inl h) w = commit-WithinBudget s id bytes now h.1
committed-WithinBudget (ok _, s) id bytes now (inr e) w = cc
committed-WithinBudget (err e, s) id bytes now h w = w

put-WithinBudget :
    (s : InMemoryObjectStore) (id : ObjectId) (bytes : List ℕ) (now : ℕ)
    → WithinBudget s
    → WithinBudget (put s id bytes now).1
unfolding put
put-WithinBudget s id bytes now w =
    committed-WithinBudget (admit s bytes) id bytes now (outcome (admit_lem s bytes).2)
      (ground (arith, admit_lem s bytes))
  where
    outcome :
        ((((admit s bytes).0 ≡ ok tt) × HasRoom (admit s bytes).1 (length bytes))
          ⊎ (((admit s bytes).0 ≡ err insufficient_resources)
              × (s.max_memory_bytes < total_size (admit s bytes).1 + length bytes)))
        → (((admit s bytes).0 ≡ ok tt) × HasRoom (admit s bytes).1 (length bytes))
          ⊎ ((admit s bytes).0 ≡ err insufficient_resources)
    outcome (inl h) = inl h
    outcome (inr h) = inr h.0

same_size-increment : (e : ObjectEntry) → data_size (increment e) ≡ data_size e
unfolding increment
same_size-increment e = refl

same_size-decrement : (e : ObjectEntry) → data_size (decrement e) ≡ data_size e
unfolding decrement
same_size-decrement e = refl

add_reference-size :
    (s : InMemoryObjectStore) (id : ObjectId) → total_size (add_reference s id) ≡ total_size s
unfolding add_reference total_size
add_reference-size s id = sum-modify data_size s.objects id increment same_size-increment

remove_reference-size-le :
    (s : InMemoryObjectStore) (id : ObjectId) → total_size (remove_reference s id).1 ≤ total_size s
unfolding remove_reference total_size
remove_reference-size-le s id = ground (
  arith,
  sum-modify data_size s.objects id decrement same_size-decrement,
  sum-remove-le data_size (HashMap.modify s.objects id decrement) id,
)

delete-size-le :
    (s : InMemoryObjectStore) (id : ObjectId) → total_size (delete s id).1 ≤ total_size s
unfolding delete total_size
delete-size-le s id = sum-remove-le data_size s.objects id

max-add_reference :
    (s : InMemoryObjectStore) (id : ObjectId)
    → (add_reference s id).max_memory_bytes ≡ s.max_memory_bytes
unfolding add_reference
max-add_reference s id = refl

max-remove_reference :
    (s : InMemoryObjectStore) (id : ObjectId)
    → (remove_reference s id).1.max_memory_bytes ≡ s.max_memory_bytes
unfolding remove_reference
max-remove_reference s id = ground arith

max-delete :
    (s : InMemoryObjectStore) (id : ObjectId)
    → (delete s id).1.max_memory_bytes ≡ s.max_memory_bytes
unfolding delete
max-delete s id = refl

max-committed :
    (r : RayResult (Unit {0}) × InMemoryObjectStore) (id : ObjectId) (bytes : List ℕ) (now : ℕ)
    → (committed r id bytes now).1.max_memory_bytes ≡ r.1.max_memory_bytes
unfolding committed commit
max-committed (ok _, s) id bytes now = refl
max-committed (err e, s) id bytes now = refl

max-put :
    (s : InMemoryObjectStore) (id : ObjectId) (bytes : List ℕ) (now : ℕ)
    → (put s id bytes now).1.max_memory_bytes ≡ s.max_memory_bytes
unfolding put
max-put s id bytes now = max-committed (admit s bytes) id bytes now ∙ (admit_lem s bytes).0

pub max-step :
    (s : InMemoryObjectStore) (c : Call) → (step s c).max_memory_bytes ≡ s.max_memory_bytes
unfolding step
max-step s (puts id bytes now) = max-put s id bytes now
max-step s (adds_reference id) = max-add_reference s id
max-step s (removes_reference id) = max-remove_reference s id
max-step s (deletes id) = max-delete s id
max-step s evicts = max-evict s

-- Every call keeps the store within its budget, whatever it answers.
pub step-WithinBudget :
    (s : InMemoryObjectStore) (c : Call) → WithinBudget s → WithinBudget (step s c)
unfolding step
step-WithinBudget s (puts id bytes now) w = put-WithinBudget s id bytes now w
step-WithinBudget s (adds_reference id) w =
    ground (arith, add_reference-size s id, max-add_reference s id)
step-WithinBudget s (removes_reference id) w =
    ground (arith, remove_reference-size-le s id, max-remove_reference s id)
step-WithinBudget s (deletes id) w = ground (arith, delete-size-le s id, max-delete s id)
step-WithinBudget s evicts w = ground (arith, evict-size-le s, max-evict s)

run_from : (s : InMemoryObjectStore) (cs : List Call) → WithinBudget s → WithinBudget (run s cs)
unfolding run
run_from s [] w = w
run_from s (c ∷ cs) w = run_from (step s c) cs (step-WithinBudget s c w)

new-size : (limit : ℕ) → total_size (new limit) ≤ (new limit).max_memory_bytes
unfolding new total_size
new-size limit = ground arith

-- Starting empty, no sequence of puts, added and removed references, deletions and evictions, each
-- of them done before the next begins, overruns the budget. Spilling to disk and restoring from it,
-- which writes bytes without a look at the budget, are not among these calls.
pub run-WithinBudget : (limit : ℕ) (cs : List Call) → WithinBudget (run (new limit) cs)
run-WithinBudget limit cs = run_from (new limit) cs (inr start)
  where
    start : total_size (new limit) ≤ (new limit).max_memory_bytes
    start = new-size limit
