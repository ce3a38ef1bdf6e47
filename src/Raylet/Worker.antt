-- ===== src/Raylet/Worker.antt =====
-- crates/ray-raylet/src/worker.rs. A handle holds its status behind an `Arc<AtomicU8>`, which the
-- pool and every holder share: the statuses are cells of a store, and a handle has the address of
-- its cell. A method is one step here; the steps inside `get_worker` are in the module `Race`.
pub mod Pool
pub mod Capacity
pub mod Race
use ray_rust.Common.{
  ℕ, suc, Bool, true, false, not, Option, none, some, List, [], ◌∷◌, ◌++◌, length, keep, nat_beq,
  ltb, ◌==◌, if◌then◌else◌,
}
use ray_rust.Common.Cells.{get_or, set}
use ray_rust.Core.Id.{WorkerId, id_eq}

abbrev pub worker_idle : ℕ
worker_idle = 0

abbrev pub worker_busy : ℕ
worker_busy = 1

abbrev pub worker_dead : ℕ
worker_dead = 2

pub record WorkerHandle : Type 0 where
  pub worker_id : WorkerId
  pub pid : ℕ
  pub status : ℕ

pub record WorkerPool : Type 0 where
  pub cells : List ℕ
  pub workers : List WorkerHandle
  pub max_workers : ℕ

unfoldable pub new : ℕ → WorkerPool
new max_workers = record { cells = []; workers = []; max_workers = max_workers }

-- `status.load`
unfoldable pub load : WorkerPool → WorkerHandle → ℕ
load p w = get_or p.cells w.status worker_dead

-- `status.store`
unfoldable pub store : WorkerPool → WorkerHandle → ℕ → WorkerPool
store p w v = record p { cells = set p.cells w.status v }

unfoldable pub is_idle : WorkerPool → WorkerHandle → Bool
unfolding load
is_idle p w = nat_beq (load p w) worker_idle

unfoldable pub is_busy : WorkerPool → WorkerHandle → Bool
unfolding load
is_busy p w = nat_beq (load p w) worker_busy

unfoldable pub is_dead : WorkerPool → WorkerHandle → Bool
unfolding load
is_dead p w = nat_beq (load p w) worker_dead

unfoldable pub mark_busy : WorkerPool → WorkerHandle → WorkerPool
unfolding store
mark_busy p w = store p w worker_busy

unfoldable pub mark_idle : WorkerPool → WorkerHandle → WorkerPool
unfolding store
mark_idle p w = store p w worker_idle

unfoldable pub mark_dead : WorkerPool → WorkerHandle → WorkerPool
unfolding store
mark_dead p w = store p w worker_dead

-- The loop over the workers, which takes the first idle one.
unfoldable pub find_idle : WorkerPool → List WorkerHandle → Option WorkerHandle
find_idle p [] = none
find_idle p (w ∷ ws) = let rest = find_idle p ws in if is_idle p w then some w else rest

-- `WorkerHandle::new_in_process`: a handle with a fresh cell.
new_in_process : WorkerPool → WorkerId → ℕ → WorkerHandle × WorkerPool
new_in_process p worker_id pid = (
  record { worker_id = worker_id; pid = pid; status = length p.cells },
  record p { cells = p.cells ++ worker_idle ∷ [] },
)

-- The part under the write lock: the second look, and a new worker if there is room.
spawn_worker : WorkerPool → WorkerId → ℕ → Option WorkerHandle × WorkerPool
unfolding new_in_process
spawn_worker p worker_id pid =
    if ltb (length p.workers) p.max_workers
    then (let (handle, p') = new_in_process p worker_id pid in
        let p'' = mark_busy p' handle in
        (some handle, record p'' { workers = p''.workers ++ handle ∷ [] }))
    else (none, p)

look_again : WorkerPool → WorkerId → ℕ → Option WorkerHandle × WorkerPool
unfolding spawn_worker
look_again p worker_id pid = elim (find_idle p p.workers) [
  | some w ↦ (some w, mark_busy p w)
  | none ↦ spawn_worker p worker_id pid
]

-- The identifier and the process number are those of a worker that may be made.
unfoldable pub get_worker : WorkerPool → WorkerId → ℕ → Option WorkerHandle × WorkerPool
unfolding look_again
get_worker p worker_id pid = elim (find_idle p p.workers) [
  | some w ↦ (some w, mark_busy p w)
  | none ↦ look_again p worker_id pid
]

-- `workers.retain(|w| !w.is_dead())`
unfoldable pub purge : WorkerPool → WorkerPool
purge p = record p { workers = keep (λ w. not (is_dead p w)) p.workers }

unfoldable pub return_worker : WorkerPool → WorkerHandle → WorkerPool
return_worker p handle = if is_dead p handle then purge p else mark_idle p handle

unfoldable pub kill_first : WorkerPool → List WorkerHandle → WorkerId → WorkerPool
kill_first p [] worker_id = p
kill_first p (w ∷ ws) worker_id =
    let rest = kill_first p ws worker_id in if w.worker_id == worker_id then mark_dead p w else rest

unfoldable pub kill_worker : WorkerPool → WorkerId → WorkerPool
kill_worker p worker_id = purge (kill_first p p.workers worker_id)

unfoldable pub idle_count : WorkerPool → ℕ
idle_count p = length (keep (is_idle p) p.workers)

unfoldable pub busy_count : WorkerPool → ℕ
busy_count p = length (keep (is_busy p) p.workers)

unfoldable pub total_count : WorkerPool → ℕ
total_count p = length p.workers
