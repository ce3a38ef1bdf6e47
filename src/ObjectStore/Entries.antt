-- ===== src/ObjectStore/Entries.antt =====
-- The entries that `put` of crates/ray-object-store/src/store.rs leaves.
use ray_rust.Common.{
  refl, ap, true, ltb, keep-eq_self, All-map, ℕ, ◌≡◌, Bool, some, List, ◌⊎◌, inl, inr, Bool-cases,
  Option-cases, arith,
}
use ray_rust.Common.HashMap
use ray_rust.Common.HashMap.{Unique}
use ray_rust.Common.HashMap.Laws.{
  AllValues, AllValues-insert, get-retain, Unique-insert, Unique-retain,
}
use ray_rust.Core.Error.{RayResult, ok, err}
use ray_rust.Core.Id.{ObjectId, id_eq, id_beq_iff}
use ray_rust.ObjectStore.{
  InMemoryObjectStore, Objects, ObjectEntry, new_entry, get_entry, is_referenced,
  evict_zero_ref_objects, admit, commit, committed, put,
}
use ray_rust.ObjectStore.Put.{commit_lem}

get_retained :
    (p : ObjectId → ObjectEntry → Bool) (m : Objects) (j : ObjectId) (e : ObjectEntry)
    → Unique m
    → HashMap.get (HashMap.retain p m) j ≡ some e
    → HashMap.get m j ≡ some e
get_retained p m j e u h = elim (Option-cases (HashMap.get m j)) [
  | inl missing ↦ ground (arith, get-retain p m j u)
  | inr (e', there) ↦ elim (Bool-cases (p j e')) [
    | inl kept ↦ ground (arith, get-retain p m j u)
    | inr dropped ↦ ground (arith, get-retain p m j u)
  ]
]

-- What a `put` leaves was there before, or is what it wrote; and no identifier is there twice.
pub put-Unique :
    (s : InMemoryObjectStore) (id : ObjectId) (bytes : List ℕ) (now : ℕ)
    → Unique s.objects
    → Unique (put s id bytes now).1.objects
unfolding put admit committed commit evict_zero_ref_objects
put-Unique s id bytes now u =
    let kept = HashMap.retain is_referenced s.objects in
    let v : Unique kept = Unique-retain is_referenced s.objects u in
    ground (
      arith,
      u,
      v,
      Unique-insert s.objects id (new_entry id bytes now) u,
      Unique-insert kept id (new_entry id bytes now) v,
    )

admit-entries :
    (s : InMemoryObjectStore) (bytes : List ℕ) (j : ObjectId) (e : ObjectEntry)
    → Unique s.objects
    → get_entry (admit s bytes).1 j ≡ some e
    → get_entry s j ≡ some e
unfolding admit evict_zero_ref_objects get_entry
admit-entries s bytes j e u h = ground (arith, get_retained is_referenced s.objects j e u)

committed-entries :
    (admitted : RayResult (Unit {0}) × InMemoryObjectStore) (id : ObjectId) (bytes : List ℕ)
    (now : ℕ) (j : ObjectId) (e : ObjectEntry)
    → get_entry (committed admitted id bytes now).1 j ≡ some e
    → (get_entry admitted.1 j ≡ some e) ⊎ ((j ≡ id) × (e.bytes ≡ bytes))
unfolding committed
committed-entries (err error, s) id bytes now j e h = inl h
committed-entries (ok _, s) id bytes now j e h =
    ground (arith, commit_lem s id bytes now j, (id_beq_iff id j).0)

pub put-entries :
    (s : InMemoryObjectStore) (id : ObjectId) (bytes : List ℕ) (now : ℕ) (j : ObjectId)
    (e : ObjectEntry)
    → Unique s.objects
    → get_entry (put s id bytes now).1 j ≡ some e
    → (get_entry s j ≡ some e) ⊎ ((j ≡ id) × (e.bytes ≡ bytes))
unfolding put
put-entries s id bytes now j e u h = elim (committed-entries (admit s bytes) id bytes now j e h) [
  | inl before ↦ inl (admit-entries s bytes j e u before)
  | inr written ↦ inr written
]

-- Every object is referenced.
abbrev pub AllHeld : InMemoryObjectStore → Type 0
AllHeld s = AllValues (λ e. e.ref_count ≡ 1) s.objects

evict-AllHeld : (s : InMemoryObjectStore) → AllHeld s → (evict_zero_ref_objects s).1 ≡ s
unfolding evict_zero_ref_objects HashMap.retain is_referenced
evict-AllHeld s h =
    ap (λ m. record s { objects = m })
      (keep-eq_self (λ e. ltb 0 e.1.ref_count) s.objects
        (All-map (λ e. e.1.ref_count ≡ 1) (λ e. ltb 0 e.1.ref_count ≡ true) s.objects
          (λ e one. ground arith) h))

-- Where every object is referenced, a `put` writes its object or changes nothing.
pub put-held :
    (s : InMemoryObjectStore) (id : ObjectId) (bytes : List ℕ) (now : ℕ)
    → AllHeld s
    → ((put s id bytes now).1 ≡ s) ⊎ ((put s id bytes now).1 ≡ commit s id bytes now)
unfolding put admit committed
put-held s id bytes now h = ground (arith, evict-AllHeld s h)

pub commit-AllHeld :
    (s : InMemoryObjectStore) (id : ObjectId) (bytes : List ℕ) (now : ℕ)
    → AllHeld s
    → AllHeld (commit s id bytes now)
unfolding commit
commit-AllHeld s id bytes now h =
    AllValues-insert (λ e. e.ref_count ≡ 1) s.objects id (new_entry id bytes now) refl h
