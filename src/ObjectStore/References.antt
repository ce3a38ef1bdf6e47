-- ===== src/ObjectStore/References.antt =====
-- The reference counts of crates/ray-object-store/src/store.rs: their range through a run of calls,
-- and the eviction.
use native.Mathlib.Nat.{add-zero}
use ray_rust.Common.{
  ℕ, suc, ◌+◌, ◌-◌, ◌^◌, ◌≤◌, ◌<◌, ◌≡◌, List, [], ◌∷◌, length, true, false, arith, All-map,
  keep-eq_self, inl, inr, Bool-cases,
}
use ray_rust.Common.HashMap
use ray_rust.Common.HashMap.{HashMap}
use ray_rust.Common.HashMap.Laws.{
  AllValues, AllValues-insert, AllValues-remove, AllValues-modify, AllValues-retain, remove-modify,
}
use ray_rust.Core.Error.{RayResult, ok, err}
use ray_rust.Core.Id.{ObjectId, id_eq}
use ray_rust.ObjectStore.{
  InMemoryObjectStore, Objects, ObjectEntry, new_entry, evict_zero_ref_objects, is_referenced,
  add_reference, increment, remove_reference, decrement, is_unreferenced, admit, commit, committed,
  put, delete, Call, puts, adds_reference, removes_reference, deletes, evicts, step, run, new,
}

-- Every count lies between 1 and `n`.
abbrev pub CountIn : ℕ → ObjectEntry → Type 0
CountIn n e = (1 ≤ e.ref_count) × (e.ref_count ≤ n)

abbrev pub Counted : ℕ → InMemoryObjectStore → Type 0
Counted n s = AllValues (CountIn n) s.objects

Counted-suc : (n : ℕ) (s : InMemoryObjectStore) → Counted n s → Counted (suc n) s
Counted-suc n s h =
    All-map (λ x. CountIn n x.1) (λ x. CountIn (suc n) x.1) s.objects (λ x c. omega arith) h

evict-Counted :
    (n : ℕ) (s : InMemoryObjectStore) → Counted n s → Counted n (evict_zero_ref_objects s).1
unfolding evict_zero_ref_objects
evict-Counted n s h = AllValues-retain (CountIn n) is_referenced s.objects h

admit-Counted :
    (n : ℕ) (s : InMemoryObjectStore) (bytes : List ℕ) → Counted n s → Counted n (admit s bytes).1
unfolding admit
admit-Counted n s bytes h = ground (arith, evict-Counted n s h)

committed-Counted :
    (n : ℕ) (r : RayResult (Unit {0}) × InMemoryObjectStore) (id : ObjectId) (bytes : List ℕ)
    (now : ℕ)
    → 1 ≤ n
    → Counted n r.1
    → Counted n (committed r id bytes now).1
unfolding committed commit
committed-Counted n (ok _, s) id bytes now h c =
    AllValues-insert (CountIn n) s.objects id (new_entry id bytes now) (omega arith) c
committed-Counted n (err e, s) id bytes now h c = c

increment-CountIn :
    (n : ℕ) (e : ObjectEntry) → n + 1 < 2 ^ 32 → CountIn n e → CountIn (suc n) (increment e)
unfolding increment
increment-CountIn n e b c = omega arith

decrement-Counted :
    (n : ℕ) (m : Objects) (id : ObjectId)
    → AllValues (CountIn n) m
    → is_unreferenced (HashMap.get (HashMap.modify m id decrement) id) ≡ false
    → AllValues (CountIn n) (HashMap.modify m id decrement)
unfolding HashMap.modify HashMap.get is_unreferenced decrement
decrement-Counted n [] id c h = tt
decrement-Counted n ((i, w) ∷ m) id c h = ground (arith, c.0, decrement-Counted n m id c.1)

dropped-Counted :
    (n : ℕ) (m : Objects) (id : ObjectId)
    → AllValues (CountIn n) m
    → AllValues (CountIn n) (HashMap.remove (HashMap.modify m id decrement) id)
dropped-Counted n m id c = rw (remove-modify m id decrement) (AllValues-remove (CountIn n) m id c)

remove_reference-Counted :
    (n : ℕ) (s : InMemoryObjectStore) (id : ObjectId)
    → Counted n s
    → Counted n (remove_reference s id).1
unfolding remove_reference
remove_reference-Counted n s id h =
    elim (Bool-cases (is_unreferenced (HashMap.get (HashMap.modify s.objects id decrement) id))) [
      | inl e ↦ rw (e, remove_reference) (dropped-Counted n s.objects id h)
      | inr e ↦ rw (e, remove_reference) (decrement-Counted n s.objects id h e)
    ]

put-Counted :
    (n : ℕ) (s : InMemoryObjectStore) (id : ObjectId) (bytes : List ℕ) (now : ℕ)
    → 1 ≤ n
    → Counted n s
    → Counted n (put s id bytes now).1
unfolding put
put-Counted n s id bytes now b h =
    committed-Counted n (admit s bytes) id bytes now b (admit-Counted n s bytes h)

add_reference-Counted :
    (n : ℕ) (s : InMemoryObjectStore) (id : ObjectId)
    → n + 1 < 2 ^ 32
    → Counted n s
    → Counted (suc n) (add_reference s id)
unfolding add_reference increment
add_reference-Counted n s id b h =
    AllValues-modify (CountIn n) (CountIn (suc n)) increment s.objects id (λ v c. omega arith)
      (λ v c. omega arith) h

delete-Counted :
    (n : ℕ) (s : InMemoryObjectStore) (id : ObjectId) → Counted n s → Counted n (delete s id).1
unfolding delete
delete-Counted n s id h = AllValues-remove (CountIn n) s.objects id h

pub step-Counted :
    (n : ℕ) (s : InMemoryObjectStore) (c : Call)
    → n + 1 < 2 ^ 32
    → Counted n s
    → Counted (suc n) (step s c)
unfolding step
step-Counted n s (puts id bytes now) b h =
    put-Counted (suc n) s id bytes now (omega arith) (Counted-suc n s h)
step-Counted n s (adds_reference id) b h = add_reference-Counted n s id b h
step-Counted n s (removes_reference id) b h =
    Counted-suc n (remove_reference s id).1 (remove_reference-Counted n s id h)
step-Counted n s (deletes id) b h = Counted-suc n (delete s id).1 (delete-Counted n s id h)
step-Counted n s evicts b h = Counted-suc n (evict_zero_ref_objects s).1 (evict-Counted n s h)

pub run-Counted :
    (n : ℕ) (s : InMemoryObjectStore) (cs : List Call)
    → n + length cs < 2 ^ 32
    → Counted n s
    → Counted (n + length cs) (run s cs)
unfolding run
run-Counted n s [] b h = rw (add-zero n) h
run-Counted n s (c ∷ cs) b h =
    let e : n + suc (length cs) ≡ suc n + length cs = omega arith in
    rw e (run-Counted (suc n) (step s c) cs (omega arith) (step-Counted n s c (omega arith) h))

referenced : (n : ℕ) (m : Objects) → AllValues (CountIn n) m → HashMap.retain is_referenced m ≡ m
unfolding HashMap.retain is_referenced
referenced n m h =
    keep-eq_self (λ x. is_referenced x.0 x.1) m
      (All-map (λ x. CountIn n x.1) (λ x. is_referenced x.0 x.1 ≡ true) m
        (λ x c. positive x.0 x.1 c.0) h)
  where
    positive : (id : ObjectId) (e : ObjectEntry) → 1 ≤ e.ref_count → is_referenced id e ≡ true
    positive id e c = ground arith

pub evict-Counted_self :
    (n : ℕ) (s : InMemoryObjectStore) → Counted n s → evict_zero_ref_objects s ≡ (0, s)
unfolding evict_zero_ref_objects
evict-Counted_self n s h = rw (referenced n s.objects h) (ground arith)

pub new-Counted : (limit n : ℕ) → Counted n (new limit)
unfolding new
new-Counted limit n = tt

-- From an empty store, and with fewer than 2^32 - 1 calls in all, eviction never finds an object to
-- evict: it answers 0 and leaves the store as it is.
pub eviction_is_idle :
    (limit : ℕ) (cs : List Call)
    → length cs < 2 ^ 32 - 1
    → evict_zero_ref_objects (run (new limit) cs) ≡ (0, run (new limit) cs)
eviction_is_idle limit cs b =
    evict-Counted_self (1 + length cs) (run (new limit) cs)
      (run-Counted 1 (new limit) cs (omega arith) (new-Counted limit 1))
