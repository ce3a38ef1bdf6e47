-- ===== src/ObjectStore/Counting.antt =====
-- The reference count of one object in crates/ray-object-store/src/store.rs, and an abstract
-- counter.
use ray_rust.Common.{
  ℕ, zero, suc, ◌+◌, ◌-◌, ◌^◌, ◌≤◌, ◌<◌, ◌≡◌, refl, ◌∙◌, Option, none, some, List, [], ◌∷◌, length,
  nat_beq, if◌then◌else◌, ◌==◌, arith, option_map, Option-cases, inl, inr,
}
use ray_rust.Common.HashMap
use ray_rust.Common.HashMap.Laws.{get-insert, get-remove, get-modify, AllValues-get}
use ray_rust.Core.Error.{ok}
use ray_rust.Core.Id.{ObjectId, id_eq}
use ray_rust.ObjectStore.{
  InMemoryObjectStore, ObjectEntry, new_entry, get_entry, add_reference, increment,
  remove_reference, decrement, is_unreferenced, admit, commit, committed, put, delete, Call, puts,
  adds_reference, removes_reference, deletes, evicts, step, run, new,
}
use ray_rust.ObjectStore.Budget.{max-step}
use ray_rust.ObjectStore.References.{
  Counted, CountIn, step-Counted, new-Counted, evict-Counted_self,
}

abbrev pub reference_count : InMemoryObjectStore → ObjectId → Option ℕ
reference_count s id = option_map (λ e. e.ref_count) (get_entry s id)

-- The abstract counter of one object: none while it is absent, and never some 0.
abbrev one_less : Option ℕ → Option ℕ
one_less (some (suc (suc n))) = some (suc n)
one_less _ = none

one_less_lem :
    (n : ℕ) → 1 ≤ n → one_less (some n) ≡ (if nat_beq (n - 1) 0 then none else some (n - 1))
one_less_lem zero h = elim h [ ]
one_less_lem (suc zero) h = refl
one_less_lem (suc (suc n)) h = ground arith

abbrev pub count_step : ObjectId → Option ℕ → Call → Option ℕ
count_step id c (puts j bytes now) = if j == id then some 1 else c
count_step id c (adds_reference j) = if j == id then option_map suc c else c
count_step id c (removes_reference j) = if j == id then one_less c else c
count_step id c (deletes j) = if j == id then none else c
count_step id c evicts = c

pub counts : ObjectId → Option ℕ → List Call → Option ℕ
counts id c [] = c
counts id c (x ∷ xs) = counts id (count_step id c x) xs

put_unlimited :
    (s : InMemoryObjectStore) (id : ObjectId) (bytes : List ℕ) (now : ℕ)
    → s.max_memory_bytes ≡ 0
    → put s id bytes now ≡ (ok tt, commit s id bytes now)
unfolding put admit committed
put_unlimited s id bytes now h = ground arith

put_count :
    (s : InMemoryObjectStore) (j id : ObjectId) (bytes : List ℕ) (now : ℕ)
    → reference_count (commit s j bytes now) id ≡ (if j == id then some 1 else reference_count s id)
unfolding commit get_entry
put_count s j id bytes now = ground (arith, get-insert s.objects j (new_entry j bytes now) id)

CountIn-of_get :
    (n : ℕ) (s : InMemoryObjectStore) (id : ObjectId) (e : ObjectEntry)
    → Counted n s
    → HashMap.get s.objects id ≡ some e
    → CountIn n e
CountIn-of_get n s id e h g = AllValues-get (CountIn n) s.objects id e h g

add_count :
    (n : ℕ) (s : InMemoryObjectStore) (j id : ObjectId)
    → n + 1 < 2 ^ 32
    → Counted n s
    → reference_count (add_reference s j) id
      ≡ (if j == id then option_map suc (reference_count s id) else reference_count s id)
unfolding add_reference get_entry increment
add_count n s j id b h = elim (Option-cases (HashMap.get s.objects id)) [
  | inl e ↦ ground (arith, e, get-modify s.objects j increment id)
  | inr (x, e) ↦ ground (arith, e, CountIn-of_get n s id x h e, get-modify s.objects j increment id)
]

remove_count :
    (n : ℕ) (s : InMemoryObjectStore) (j id : ObjectId)
    → Counted n s
    → reference_count (remove_reference s j).1 id
      ≡ (if j == id then one_less (reference_count s id) else reference_count s id)
unfolding remove_reference get_entry decrement is_unreferenced
remove_count n s j id h =
    let m = HashMap.modify s.objects j decrement in
    elim (Option-cases (HashMap.get s.objects id)) [
      | inl e ↦ ground (
        arith,
        e,
        id_eq.beq_iff j id,
        id_eq.beq_iff j j,
        get-modify s.objects j decrement j,
        get-modify s.objects j decrement id,
        get-remove m j id,
      )
      | inr (x, e) ↦ ground (
        arith,
        e,
        id_eq.beq_iff j id,
        id_eq.beq_iff j j,
        CountIn-of_get n s id x h e,
        get-modify s.objects j decrement j,
        get-modify s.objects j decrement id,
        get-remove m j id,
        one_less_lem x.ref_count,
      )
    ]

delete_count :
    (s : InMemoryObjectStore) (j id : ObjectId)
    → reference_count (delete s j).1 id ≡ (if j == id then none else reference_count s id)
unfolding delete get_entry
delete_count s j id = ground (arith, get-remove s.objects j id)

step-counts :
    (n : ℕ) (s : InMemoryObjectStore) (c : Call) (id : ObjectId)
    → n + 1 < 2 ^ 32
    → s.max_memory_bytes ≡ 0
    → Counted n s
    → reference_count (step s c) id ≡ count_step id (reference_count s id) c
unfolding step
step-counts n s (puts j bytes now) id b u h =
    rw (step, put_unlimited s j bytes now u) (put_count s j id bytes now)
step-counts n s (adds_reference j) id b u h = add_count n s j id b h
step-counts n s (removes_reference j) id b u h = remove_count n s j id h
step-counts n s (deletes j) id b u h = delete_count s j id
step-counts n s evicts id b u h = rw (step, evict-Counted_self n s h) refl

run-counts :
    (n : ℕ) (s : InMemoryObjectStore) (cs : List Call) (id : ObjectId)
    → n + length cs < 2 ^ 32
    → s.max_memory_bytes ≡ 0
    → Counted n s
    → reference_count (run s cs) id ≡ counts id (reference_count s id) cs
unfolding run counts
run-counts n s [] id b u h = refl
run-counts n s (c ∷ cs) id b u h = rw (← step-counts n s c id (omega arith) u h) (
    run-counts (suc n) (step s c) cs id (omega arith) (max-step s c ∙ u)
      (step-Counted n s c (omega arith) h))

-- From an empty store without a limit, and with fewer than 2^32 - 1 calls, the reference count of
-- each object is the abstract counter's: a put makes it 1, each reference moves it by one, the
-- object is gone once the last reference is, and no call on another object and no eviction changes
-- it.
pub run_refines_counts :
    (cs : List Call) (id : ObjectId)
    → length cs < 2 ^ 32 - 1
    → reference_count (run (new 0) cs) id ≡ counts id none cs
unfolding new get_entry HashMap.get
run_refines_counts cs id b = run-counts 1 (new 0) cs id (omega arith) refl (new-Counted 0 1)
