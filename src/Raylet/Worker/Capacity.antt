-- ===== src/Raylet/Worker/Capacity.antt =====
-- The methods of crates/ray-raylet/src/worker.rs: the shape of a pool through them, and returning.
use ray_rust.Common.{
  ℕ, ◌+◌, ◌<◌, ◌≡◌, refl, ◌∙◌, ◌⊎◌, inl, inr, true, false, not, List, [], ◌∷◌, ◌++◌, length, keep,
  ltb, ◌==◌, All, All-append, All-map, All-keep, length-append, length-keep-le, Option-cases,
  Bool-cases, arith,
}
use ray_rust.Common.Cells.{set, length-set}
use ray_rust.Core.Id.{WorkerId, id_eq}
use ray_rust.Raylet.Worker.{
  worker_idle, worker_busy, worker_dead, WorkerHandle, WorkerPool, new, load, store, is_idle,
  is_dead, mark_busy, mark_idle, mark_dead, find_idle, new_in_process, spawn_worker, look_again,
  get_worker, purge, return_worker, kill_first, kill_worker,
}
use ray_rust.Raylet.Worker.Pool.{IsValid, load-store_self}

store-IsValid : (p : WorkerPool) (w : WorkerHandle) (v : ℕ) → IsValid p → IsValid (store p w v)
unfolding store
store-IsValid p w v h = record {
  bounded = h.bounded;
  owned = rw (length-set p.cells w.status v) h.owned;
}

mark_busy-IsValid : (p : WorkerPool) (w : WorkerHandle) → IsValid p → IsValid (mark_busy p w)
unfolding mark_busy
mark_busy-IsValid p w h = store-IsValid p w worker_busy h

spawn-IsValid :
    (p : WorkerPool) (worker_id : WorkerId) (pid : ℕ)
    → IsValid p
    → IsValid (spawn_worker p worker_id pid).1
unfolding spawn_worker new_in_process mark_busy store
spawn-IsValid p worker_id pid v = elim (Bool-cases (ltb (length p.workers) p.max_workers)) [
  | inr full ↦ rw full v
  | inl room ↦ rw room (record {
    bounded = ground (arith, length-append p.workers (handle ∷ []));
    owned = rw grown (All-append InCells p.workers (handle ∷ []) old (omega arith, tt));
  })
]
  where
    handle : WorkerHandle
    handle = record { worker_id = worker_id; pid = pid; status = length p.cells }

    InCells : WorkerHandle → Type 0
    InCells w = w.status < length p.cells + 1

    old : All InCells p.workers
    old = All-map (λ w. w.status < length p.cells) InCells p.workers (λ w l. omega arith) v.owned

    grown :
        length (set (p.cells ++ worker_idle ∷ []) (length p.cells) worker_busy) ≡ length p.cells + 1
    grown =
        length-set (p.cells ++ worker_idle ∷ []) (length p.cells) worker_busy
        ∙ length-append p.cells (worker_idle ∷ [])

get_worker-IsValid :
    (p : WorkerPool) (worker_id : WorkerId) (pid : ℕ)
    → IsValid p
    → IsValid (get_worker p worker_id pid).1
unfolding get_worker look_again
get_worker-IsValid p worker_id pid v = elim (Option-cases (find_idle p p.workers)) [
  | inr (w, found) ↦ rw (found, get_worker) (mark_busy-IsValid p w v)
  | inl missing ↦
      rw (missing, get_worker) (rw (missing, look_again) (spawn-IsValid p worker_id pid v))
]

purge-IsValid : (p : WorkerPool) → IsValid p → IsValid (purge p)
unfolding purge
purge-IsValid p v = record {
  bounded = omega (arith, length-keep-le (λ w. not (is_dead p w)) p.workers, v.bounded);
  owned = All-keep (λ w. w.status < length p.cells) (λ w. not (is_dead p w)) p.workers v.owned;
}

return_worker-IsValid :
    (p : WorkerPool) (h : WorkerHandle) → IsValid p → IsValid (return_worker p h)
unfolding return_worker mark_idle
return_worker-IsValid p h v = elim (Bool-cases (is_dead p h)) [
  | inl dead ↦ rw dead (purge-IsValid p v)
  | inr alive ↦ rw alive (store-IsValid p h worker_idle v)
]

kill_first-IsValid :
    (p : WorkerPool) (ws : List WorkerHandle) (id : WorkerId)
    → IsValid p
    → IsValid (kill_first p ws id)
unfolding kill_first mark_dead
kill_first-IsValid p [] id v = v
kill_first-IsValid p (w ∷ ws) id v = elim (Bool-cases (w.worker_id == id)) [
  | inl hit ↦ rw hit (store-IsValid p w worker_dead v)
  | inr miss ↦ rw miss (kill_first-IsValid p ws id v)
]

-- The calls of a pool; the identifier of `gets` is that of a worker that may be made.
pub data Call : Type 0 where
  gets : WorkerId → ℕ → Call
  returns : WorkerHandle → Call
  kills : WorkerId → Call

abbrev pub step : WorkerPool → Call → WorkerPool
step p (gets worker_id pid) = (get_worker p worker_id pid).1
step p (returns h) = return_worker p h
step p (kills worker_id) = kill_worker p worker_id

abbrev pub run : WorkerPool → List Call → WorkerPool
run p [] = p
run p (c ∷ cs) = run (step p c) cs

step-IsValid : (p : WorkerPool) (c : Call) → IsValid p → IsValid (step p c)
unfolding kill_worker
step-IsValid p (gets worker_id pid) v = get_worker-IsValid p worker_id pid v
step-IsValid p (returns h) v = return_worker-IsValid p h v
step-IsValid p (kills worker_id) v =
    purge-IsValid (kill_first p p.workers worker_id) (kill_first-IsValid p p.workers worker_id v)

run-IsValid : (p : WorkerPool) (cs : List Call) → IsValid p → IsValid (run p cs)
run-IsValid p [] v = v
run-IsValid p (c ∷ cs) v = run-IsValid (step p c) cs (step-IsValid p c v)

new-IsValid : (max_workers : ℕ) → IsValid (new max_workers)
unfolding new
new-IsValid max_workers = record { bounded = omega arith; owned = tt }

-- However its methods are called, a pool never has more workers than its capacity, and every worker
-- in it has a status cell of its store.
pub pool_within_capacity : (max_workers : ℕ) (cs : List Call) → IsValid (run (new max_workers) cs)
pool_within_capacity max_workers cs = run-IsValid (new max_workers) cs (new-IsValid max_workers)

-- Nothing in the list is dead.
abbrev pub NoneDead : WorkerPool → Type 0
NoneDead p = All (λ w. is_dead p w ≡ false) p.workers

kept_alive :
    (p : WorkerPool) (ws : List WorkerHandle)
    → All (λ w. is_dead p w ≡ false) (keep (λ w. not (is_dead p w)) ws)
kept_alive p [] = tt
kept_alive p (w ∷ ws) = ground (arith, kept_alive p ws)

purge-NoneDead : (p : WorkerPool) → NoneDead (purge p)
unfolding purge is_dead load
purge-NoneDead p = kept_alive p p.workers

is_dead-purge : (p : WorkerPool) (h : WorkerHandle) → is_dead (purge p) h ≡ is_dead p h
unfolding purge is_dead load
is_dead-purge p h = refl

idle_again :
    (p : WorkerPool) (h : WorkerHandle)
    → h.status < length p.cells
    → is_idle (mark_idle p h) h ≡ true
unfolding mark_idle is_idle
idle_again p h inside = rw (load-store_self p h worker_idle inside) refl

workers-mark_idle : (p : WorkerPool) (h : WorkerHandle) → (mark_idle p h).workers ≡ p.workers
unfolding mark_idle store
workers-mark_idle p h = refl

-- A live worker of the pool that is returned is idle again, and the list of workers is as before; a
-- worker that was killed while it was out stays dead, and its return leaves no dead worker in the
-- pool.
pub return_worker_lem :
    (p : WorkerPool) (h : WorkerHandle)
    → h.status < length p.cells
    → ((is_dead p h ≡ false)
        × (is_idle (return_worker p h) h ≡ true)
        × ((return_worker p h).workers ≡ p.workers))
      ⊎ ((is_dead p h ≡ true)
          × (is_dead (return_worker p h) h ≡ true)
          × NoneDead (return_worker p h))
unfolding return_worker
return_worker_lem p h inside = elim (Bool-cases (is_dead p h)) [
  | inl dead ↦ inr (dead, rw dead (rw (is_dead-purge p h) dead), rw dead (purge-NoneDead p))
  | inr alive ↦ inl (alive, rw alive (idle_again p h inside), rw alive (workers-mark_idle p h))
]
