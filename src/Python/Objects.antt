-- ===== src/Python/Objects.antt =====
-- Objects through the Python module (crates/ray-py/src/runtime.rs).
use ray_rust.Common.{
  ℕ, suc, ◌+◌, ◌/◌, ◌≤◌, ◌≡◌, refl, sym, ap, ◌∙◌, Bool, true, false, not, Option, none, some, List,
  [], ◌∷◌, ◌++◌, map, keep, length, nat_beq, leb, ◌||◌, option_map, Option-cases, Bool-cases, inl,
  inr, ◌==◌, beq_refl, arith,
}
use mathlib.Core.List.{append_assoc, append-nil}
use ray_rust.Common.Int.{ℤ}
use ray_rust.Common.HashMap
use ray_rust.Core.Error.{ok, timeout}
use ray_rust.Core.Id
use ray_rust.Core.Id.{ObjectId, IsSized, id_eq}
use ray_rust.Core.Id.Laws.{new-IsSized, from_vec-to_vec}
use ray_rust.ObjectStore.{
  InMemoryObjectStore, ObjectEntry, new_entry, total_size, get_entry, commit,
}
use ray_rust.ObjectStore.Polling
use ray_rust.ObjectStore.Polling.{as_u64, ready_flags}
use ray_rust.ObjectStore.Polling.Found.{found_at-get, never_found-get}
use ray_rust.ObjectStore.Polling.Total.{Advances}
use ray_rust.ObjectStore.Polling.Wait.{wait_total}
use ray_rust.ObjectStore.Put.{put_within, commit_lem}
use ray_rust.Python.{
  Globals, PyResult, returned, raised, failed, or_raise, ◌>>=◌, PyObjectRef, get_runtime,
  get_object_store, put_into, py_put, py_get, py_wait, rounds_of, id_of, split_ready,
}

-- A module that was initialized, with its store.
pub record IsReady (g : Globals) (s : InMemoryObjectStore) : Type 0 where
  pub set : g.runtime_set ≡ true
  pub stored : g.object_store ≡ some s

found_store :
    (g : Globals) (s : InMemoryObjectStore)
    → IsReady g s
    → (get_runtime g >>= λ _. get_object_store g) ≡ returned s
unfolding get_runtime get_object_store
found_store g s r = rw (r.set, r.stored) refl

-- A clock that a waiting call reads every ten milliseconds or more.
abbrev pub Ticks : (ℕ → ℕ) → Type 0
Ticks clock = (i : ℕ) → clock i + 10 ≤ clock (suc i)

Ticks-Advances :
    (s : InMemoryObjectStore) (clock : ℕ → ℕ) → Ticks clock → Advances (rounds_of s clock)
unfolding rounds_of
Ticks-Advances s clock t = t

abbrev pub answer : Option ObjectEntry → PyResult (List ℕ)
answer none = raised (failed timeout)
answer (some e) = returned e.bytes

get_when_ready :
    (g : Globals) (s : InMemoryObjectStore) (clock : ℕ → ℕ) (start : ℕ) (r : PyObjectRef)
    (timeout_ms : ℤ) (fuel : ℕ)
    → IsReady g s
    → py_get g clock start r timeout_ms fuel
      ≡ option_map or_raise (Polling.get (rounds_of s clock) start (id_of r) timeout_ms fuel)
unfolding py_get
get_when_ready g s clock start r timeout_ms fuel ready = rw (found_store g s ready, py_get) refl

polled :
    (s : InMemoryObjectStore) (clock : ℕ → ℕ) (start : ℕ) (id : ObjectId) (timeout_ms : ℤ)
    (fuel : ℕ)
    → Ticks clock
    → start ≤ clock 0
    → as_u64 timeout_ms / 10 + 2 ≤ fuel
    → option_map or_raise (Polling.get (rounds_of s clock) start id timeout_ms fuel)
      ≡ some (answer (get_entry s id))
unfolding get_entry rounds_of
polled s clock start id timeout_ms fuel t b f = elim (Option-cases (HashMap.get s.objects id)) [
  | inl missing ↦
      rw
        (
          missing,
          never_found-get (rounds_of s clock) start id timeout_ms fuel (Ticks-Advances s clock t) b
              f (λ _. missing),
        )
        refl
  | inr (e, there) ↦
      rw
        (
          there,
          found_at-get (rounds_of s clock) start id timeout_ms fuel 0 e (omega arith)
              (λ j h l. absurd (omega arith)) there,
        )
        refl
]

-- While `get` waits, the store does not change: it answers with the bytes of an object that is
-- there when the call begins, and otherwise raises `Timeout` when the time is up.
pub py_get_lem :
    (g : Globals) (s : InMemoryObjectStore) (clock : ℕ → ℕ) (start : ℕ) (r : PyObjectRef)
    (timeout_ms : ℤ) (fuel : ℕ)
    → IsReady g s
    → Ticks clock
    → start ≤ clock 0
    → as_u64 timeout_ms / 10 + 2 ≤ fuel
    → py_get g clock start r timeout_ms fuel ≡ some (answer (get_entry s (id_of r)))
py_get_lem g s clock start r timeout_ms fuel ready t b f =
    get_when_ready g s clock start r timeout_ms fuel ready
    ∙ polled s clock start (id_of r) timeout_ms fuel t b f

put_when_ready :
    (g : Globals) (s : InMemoryObjectStore) (bytes uuid_bytes : List ℕ) (now : ℕ)
    → IsReady g s
    → (nat_beq s.max_memory_bytes 0 || leb (total_size s + length bytes) s.max_memory_bytes) ≡ true
    → let id = Id.new 28 uuid_bytes in
      py_put g bytes uuid_bytes now ≡ (
        returned (record { object_id = Id.to_vec id }),
        record g { object_store = some (commit s id bytes now) },
      )
unfolding py_put put_into
put_when_ready g s bytes uuid_bytes now ready fits =
    rw (found_store g s ready, put_into, put_within s (Id.new 28 uuid_bytes) bytes now fits) refl

abbrev pub is_stored : InMemoryObjectStore → PyObjectRef → Bool
is_stored s r = HashMap.contains_key s.objects (id_of r)

split_ready_lem :
    (s : InMemoryObjectStore) (refs ready not_ready : List PyObjectRef)
    → split_ready refs (ready_flags s.objects (map id_of refs)) ready not_ready
      ≡ (ready ++ keep (is_stored s) refs, not_ready ++ keep (λ r. not (is_stored s r)) refs)
unfolding split_ready ready_flags
split_ready_lem s [] ready not_ready = rw (append-nil ready, append-nil not_ready) refl
split_ready_lem s (r ∷ refs) ready not_ready = elim (Bool-cases (is_stored s r)) [
  | inl there ↦
      rw (there, split_ready)
        (rw (sym (append_assoc ready (r ∷ []) (keep (is_stored s) refs)))
          (split_ready_lem s refs (ready ++ r ∷ []) not_ready))
  | inr missing ↦
      rw (missing, split_ready)
        (rw (sym (append_assoc not_ready (r ∷ []) (keep (λ q. not (is_stored s q)) refs)))
          (split_ready_lem s refs ready (not_ready ++ r ∷ [])))
]

wait_when_ready :
    (g : Globals) (s : InMemoryObjectStore) (clock : ℕ → ℕ) (start : ℕ) (refs : List PyObjectRef)
    (num_returns timeout_ms : ℤ) (fuel : ℕ) (flags : List Bool)
    → IsReady g s
    → Polling.wait (rounds_of s clock) start (map id_of refs) num_returns timeout_ms fuel
      ≡ some (ok flags)
    → py_wait g clock start refs num_returns timeout_ms fuel
      ≡ some (returned (split_ready refs flags [] []))
unfolding py_wait
wait_when_ready g s clock start refs num_returns timeout_ms fuel flags ready e =
    rw (found_store g s ready, py_wait, e) refl

-- `wait` gives back every reference once, in order: as ready those whose object is in the store
-- when the call begins, however many are asked for, and as not ready the others. The clock is read
-- every ten milliseconds or more, and a tenth of the timeout in rounds and two more are enough.
pub py_wait_lem :
    (g : Globals) (s : InMemoryObjectStore) (clock : ℕ → ℕ) (start : ℕ) (refs : List PyObjectRef)
    (num_returns timeout_ms : ℤ) (fuel : ℕ)
    → IsReady g s
    → Ticks clock
    → start ≤ clock 0
    → as_u64 timeout_ms / 10 + 2 ≤ fuel
    → py_wait g clock start refs num_returns timeout_ms fuel
      ≡ some (returned (keep (is_stored s) refs, keep (λ r. not (is_stored s r)) refs))
unfolding rounds_of
py_wait_lem g s clock start refs num_returns timeout_ms fuel ready t b f =
    let (k, le, e, _, _) =
      wait_total (rounds_of s clock) start (map id_of refs) num_returns timeout_ms fuel
        (Ticks-Advances s clock t) b f in
    wait_when_ready g s clock start refs num_returns timeout_ms fuel
      (ready_flags s.objects (map id_of refs)) ready e
    ∙ ap (λ p. some (returned p)) (split_ready_lem s refs [] [])

found_again :
    (s : InMemoryObjectStore) (id : ObjectId) (bytes : List ℕ) (now : ℕ)
    → IsSized id
    → get_entry (commit s id bytes now) (id_of (record { object_id = Id.to_vec id }))
      ≡ some (new_entry id bytes now)
unfolding id_of
found_again s id bytes now sized =
    rw (from_vec-to_vec id sized) (commit_lem s id bytes now id ∙ rw (beq_refl id) refl)

-- In an initialized module, bytes that fit the budget of the store are put, and `get` with the
-- reference that `put` gave answers with them; a reference to another object is answered as before.
-- The clock is read every ten milliseconds or more, and a tenth of the timeout in rounds and two
-- more are enough.
pub py_get-py_put :
    (g : Globals) (s : InMemoryObjectStore) (bytes uuid_bytes : List ℕ) (now : ℕ) (clock : ℕ → ℕ)
    (start : ℕ) (other : PyObjectRef) (timeout_ms : ℤ) (fuel : ℕ)
    → IsReady g s
    → (nat_beq s.max_memory_bytes 0 || leb (total_size s + length bytes) s.max_memory_bytes) ≡ true
    → (Id.new 28 uuid_bytes == id_of other) ≡ false
    → Ticks clock
    → start ≤ clock 0
    → as_u64 timeout_ms / 10 + 2 ≤ fuel
    → let r : PyObjectRef = record { object_id = Id.to_vec (Id.new 28 uuid_bytes) } in
      let g' = (py_put g bytes uuid_bytes now).1 in
      ((py_put g bytes uuid_bytes now).0 ≡ returned r)
      × (py_get g' clock start r timeout_ms fuel ≡ some (returned bytes))
      × (py_get g' clock start other timeout_ms fuel ≡ py_get g clock start other timeout_ms fuel)
py_get-py_put g s bytes uuid_bytes now clock start other timeout_ms fuel ready fits differs t b f =
    let id : ObjectId = Id.new 28 uuid_bytes in
    let s' = commit s id bytes now in
    let g' : Globals = record g { object_store = some s' } in
    let ready' : IsReady g' s' = record { set = ready.set; stored = refl } in
    rw (put_when_ready g s bytes uuid_bytes now ready fits) (
      refl,
      py_get_lem g' s' clock start (record { object_id = Id.to_vec id }) timeout_ms fuel ready' t b
            f
          ∙ ap (λ o. some (answer o)) (found_again s id bytes now (new-IsSized 28 uuid_bytes)),
      py_get_lem g' s' clock start other timeout_ms fuel ready' t b f
          ∙ ap (λ o. some (answer o)) (commit_lem s id bytes now (id_of other) ∙ rw differs refl)
          ∙ sym (py_get_lem g s clock start other timeout_ms fuel ready t b f),
    )
