-- ===== src/Raylet/Worker/Pool.antt =====
-- `get_worker` of crates/ray-raylet/src/worker.rs as one step.
use ray_rust.Common.{
  ℕ, ◌≤◌, ◌<◌, ◌≡◌, ◌≢◌, refl, sym, ◌∙◌, ◌↔◌, ap, ◌⊎◌, inl, inr, true, false, Option, none, some,
  List, [], ◌∷◌, ◌++◌, length, ltb, All, length-append, Option-cases, Bool-cases, arith,
}
use ray_rust.Common.Cells.{get_or, length-set, get_or-set_self, get_or-set_ne, get_or-append}
use ray_rust.Core.Id.{WorkerId, id_eq}
use ray_rust.Raylet.Worker.{
  worker_idle, worker_busy, worker_dead, WorkerHandle, WorkerPool, load, store, is_idle, is_busy,
  mark_busy, find_idle, new_in_process, spawn_worker, look_again, get_worker,
}

-- The pool is within its capacity, and each handle has a cell.
pub record IsValid (p : WorkerPool) : Type 0 where
  pub bounded : length p.workers ≤ p.max_workers
  pub owned : All (λ w. w.status < length p.cells) p.workers

pub load-store_self :
    (p : WorkerPool) (w : WorkerHandle) (v : ℕ)
    → w.status < length p.cells
    → load (store p w v) w ≡ v
unfolding load store
load-store_self p w v h = get_or-set_self p.cells w.status v worker_dead h

pub load-store_ne :
    (p : WorkerPool) (w g : WorkerHandle) (v : ℕ)
    → w.status ≢ g.status
    → load (store p w v) g ≡ load p g
unfolding load store
load-store_ne p w g v h = get_or-set_ne p.cells w.status g.status v worker_dead h

pub cells-store :
    (p : WorkerPool) (w : WorkerHandle) (v : ℕ) → length (store p w v).cells ≡ length p.cells
unfolding store
cells-store p w v = length-set p.cells w.status v

find_idle-none :
    (p : WorkerPool) (ws : List WorkerHandle)
    → find_idle p ws ≡ none
    → All (λ w. is_idle p w ≡ false) ws
unfolding find_idle
find_idle-none p [] h = tt
find_idle-none p (w ∷ ws) h = ground (arith, find_idle-none p ws)

find_idle-some :
    (p : WorkerPool) (ws : List WorkerHandle) (h : WorkerHandle)
    → All (λ w. w.status < length p.cells) ws
    → find_idle p ws ≡ some h
    → (load p h ≡ worker_idle) × (h.status < length p.cells)
unfolding find_idle is_idle
find_idle-some p [] h o e = cc
find_idle-some p (w ∷ ws) h o e = ground (arith, o.0, find_idle-some p ws h o.1)

-- Nobody who holds a busy worker loses it, and the worker that is handed out is none of theirs.
abbrev pub Exclusive : WorkerPool → WorkerHandle → WorkerPool → Type 0
Exclusive p h p' =
    (g : WorkerHandle)
    → g.status < length p.cells
    → is_busy p g ≡ true
    → (g.status ≢ h.status) × (is_busy p' g ≡ true)

abbrev pub GetOutcome : WorkerPool → Option WorkerHandle × WorkerPool → Type 0
GetOutcome p r =
    ((h : WorkerHandle) × (r.0 ≡ some h)
      × (is_busy r.1 h ≡ true)
      × (h.status < length r.1.cells)
      × Exclusive p h r.1)
    ⊎ ((r.0 ≡ none)
        × (r.1 ≡ p)
        × (p.max_workers ≤ length p.workers)
        × All (λ w. is_idle p w ≡ false) p.workers)

load_same : (p : WorkerPool) (g h : WorkerHandle) → g.status ≡ h.status → load p g ≡ load p h
unfolding load
load_same p g h e = ap (λ n. get_or p.cells n worker_dead) e

busy_lem : (p : WorkerPool) (g : WorkerHandle) → (is_busy p g ≡ true) ↔ (load p g ≡ worker_busy)
unfolding is_busy
busy_lem p g = ground arith

busy_ne_idle :
    (p : WorkerPool) (g h : WorkerHandle)
    → is_busy p g ≡ true
    → load p h ≡ worker_idle
    → g.status ≢ h.status
busy_ne_idle p g h b i e = omega (arith, (busy_lem p g).0 b, load_same p g h e)

mark_busy-Exclusive :
    (p : WorkerPool) (h : WorkerHandle) → load p h ≡ worker_idle → Exclusive p h (mark_busy p h)
unfolding mark_busy
mark_busy-Exclusive p h idle g l b =
    let ne : g.status ≢ h.status = busy_ne_idle p g h b idle in
    (
      ne,
      (busy_lem (store p h worker_busy) g).1
          (load-store_ne p h g worker_busy (λ e. ne (sym e)) ∙ (busy_lem p g).0 b),
    )

mark_busy-is_busy :
    (p : WorkerPool) (h : WorkerHandle)
    → h.status < length p.cells
    → is_busy (mark_busy p h) h ≡ true
unfolding mark_busy
mark_busy-is_busy p h inside =
    (busy_lem (store p h worker_busy) h).1 (load-store_self p h worker_busy inside)

cells-mark_busy :
    (p : WorkerPool) (h : WorkerHandle) → length (mark_busy p h).cells ≡ length p.cells
unfolding mark_busy
cells-mark_busy p h = cells-store p h worker_busy

reuse :
    (p : WorkerPool) (h : WorkerHandle)
    → (load p h ≡ worker_idle) × (h.status < length p.cells)
    → GetOutcome p (some h, mark_busy p h)
reuse p h (idle, inside) = inl (
  h,
  refl,
  mark_busy-is_busy p h inside,
  omega (arith, cells-mark_busy p h),
  mark_busy-Exclusive p h idle,
)

-- The pool with a fresh cell, in which a new worker is marked.
abbrev grown : WorkerPool → WorkerPool
grown p = record p { cells = p.cells ++ worker_idle ∷ [] }

load-grown :
    (p : WorkerPool) (g : WorkerHandle) → g.status < length p.cells → load (grown p) g ≡ load p g
unfolding load
load-grown p g h = get_or-append p.cells (worker_idle ∷ []) g.status worker_dead h

with_workers :
    (p : WorkerPool) (ws : List WorkerHandle) (g : WorkerHandle)
    → is_busy (record p { workers = ws }) g ≡ is_busy p g
unfolding is_busy load
with_workers p ws g = refl

load-mark_busy_ne :
    (p : WorkerPool) (h g : WorkerHandle) → g.status ≢ h.status → load (mark_busy p h) g ≡ load p g
unfolding mark_busy
load-mark_busy_ne p h g ne = load-store_ne p h g worker_busy (λ e. ne (sym e))

spawned_busy :
    (p : WorkerPool) (h g : WorkerHandle)
    → g.status ≢ h.status
    → g.status < length p.cells
    → is_busy p g ≡ true
    → load (mark_busy (grown p) h) g ≡ worker_busy
spawned_busy p h g ne l b =
    load-mark_busy_ne (grown p) h g ne ∙ load-grown p g l ∙ (busy_lem p g).0 b

spawn_lem :
    (p : WorkerPool) (worker_id : WorkerId) (pid : ℕ)
    → All (λ w. is_idle p w ≡ false) p.workers
    → GetOutcome p (spawn_worker p worker_id pid)
unfolding spawn_worker new_in_process
spawn_lem p worker_id pid none_idle = elim (Bool-cases (ltb (length p.workers) p.max_workers)) [
  | inr full ↦ rw full (inr (refl, refl, ground arith, none_idle))
  | inl room ↦ rw room (
      inl (
        h,
        refl,
        rw (with_workers (mark_busy (grown p) h) ((mark_busy (grown p) h).workers ++ h ∷ []) h)
            (mark_busy-is_busy (grown p) h inside),
        omega (arith, inside, cells-mark_busy (grown p) h),
        exclusive,
      ))
]
  where
    h : WorkerHandle
    h = record { worker_id = worker_id; pid = pid; status = length p.cells }

    inside : h.status < length (grown p).cells
    inside = omega (arith, length-append p.cells (worker_idle ∷ []))

    exclusive :
        Exclusive p h
          (record (mark_busy (grown p) h) { workers = (mark_busy (grown p) h).workers ++ h ∷ [] })
    exclusive g l b =
        let ne : g.status ≢ h.status = λ e. omega arith in
        (
          ne,
          rw (with_workers (mark_busy (grown p) h) ((mark_busy (grown p) h).workers ++ h ∷ []) g)
              ((busy_lem (mark_busy (grown p) h) g).1 (spawned_busy p h g ne l b)),
        )

-- On a valid pool, `get_worker` hands out a worker that is busy from then on and that nobody had
-- before: whoever held a busy worker still holds it, and it is another one. It hands out none, and
-- changes nothing, only when the pool is at its capacity and no worker of it is idle.
pub get_worker_lem :
    (p : WorkerPool) (worker_id : WorkerId) (pid : ℕ)
    → IsValid p
    → GetOutcome p (get_worker p worker_id pid)
unfolding get_worker look_again
get_worker_lem p worker_id pid v = elim (Option-cases (find_idle p p.workers)) [
  | inr (w, found) ↦ rw (found, get_worker) (reuse p w (find_idle-some p p.workers w v.owned found))
  | inl missing ↦
      rw (missing, get_worker)
        (rw (missing, look_again) (spawn_lem p worker_id pid (find_idle-none p p.workers missing)))
]
