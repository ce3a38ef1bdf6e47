-- ===== src/ObjectStore/Put.antt =====
-- `put` of crates/ray-object-store/src/store.rs on its branches.
use ray_rust.Common.{
  ℕ, ◌+◌, ◌-◌, ◌^◌, ◌<◌, ◌≡◌, true, some, List, length, leb, nat_beq, if◌then◌else◌, ◌||◌, ◌==◌,
  arith,
}
use ray_rust.Common.HashMap.Laws.{get-insert}
use ray_rust.Core.Error.{ok, err, insufficient_resources}
use ray_rust.Core.Id.{ObjectId, id_eq}
use ray_rust.ObjectStore.{
  InMemoryObjectStore, Call, new_entry, total_size, get_entry, admit, commit, committed, put, run,
  new,
}
use ray_rust.ObjectStore.References.{Counted, run-Counted, new-Counted, evict-Counted_self}

put_fits :
    (n : ℕ) (s : InMemoryObjectStore) (id : ObjectId) (bytes : List ℕ) (now : ℕ)
    → Counted n s
    → put s id bytes now ≡ (
        if nat_beq s.max_memory_bytes 0 || leb (total_size s + length bytes) s.max_memory_bytes
        then (ok tt, commit s id bytes now)
        else (err insufficient_resources, s))
unfolding put admit committed
put_fits n s id bytes now h = ground (arith, evict-Counted_self n s h)

-- Whatever the entries, bytes that fit are written.
pub put_within :
    (s : InMemoryObjectStore) (id : ObjectId) (bytes : List ℕ) (now : ℕ)
    → (nat_beq s.max_memory_bytes 0 || leb (total_size s + length bytes) s.max_memory_bytes) ≡ true
    → put s id bytes now ≡ (ok tt, commit s id bytes now)
unfolding put admit committed
put_within s id bytes now fits = ground arith

pub commit_lem :
    (s : InMemoryObjectStore) (id : ObjectId) (bytes : List ℕ) (now : ℕ) (j : ObjectId)
    → get_entry (commit s id bytes now) j
      ≡ (if id == j then some (new_entry id bytes now) else get_entry s j)
unfolding get_entry commit
commit_lem s id bytes now j = get-insert s.objects id (new_entry id bytes now) j

-- In every store that fewer than 2^32 - 1 calls have built, `put` succeeds exactly when there is no
-- limit or the bytes fit beside all that is stored; it then writes the entry with one reference and
-- leaves the others, and when it fails the store is as before: nothing is ever evicted for it.
pub put_exact :
    (limit : ℕ) (cs : List Call) (id : ObjectId) (bytes : List ℕ) (now : ℕ)
    → length cs < 2 ^ 32 - 1
    → let s = run (new limit) cs in
      (put s id bytes now ≡ (
        if nat_beq s.max_memory_bytes 0 || leb (total_size s + length bytes) s.max_memory_bytes
        then (ok tt, commit s id bytes now)
        else (err insufficient_resources, s)))
      × ((j : ObjectId)
          → get_entry (commit s id bytes now) j
            ≡ (if id == j then some (new_entry id bytes now) else get_entry s j))
put_exact limit cs id bytes now b =
    let s = run (new limit) cs in
    (
      put_fits (1 + length cs) s id bytes now
          (run-Counted 1 (new limit) cs (omega arith) (new-Counted limit 1)),
      λ j. commit_lem s id bytes now j,
    )
