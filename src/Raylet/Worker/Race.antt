-- ===== src/Raylet/Worker/Race.antt =====
-- The scan of `get_worker` under the read lock, which two callers may hold at once: looking at a
-- status and marking it busy are two steps.
use ray_rust.Common.{◌≡◌, true, false, some, List, [], ◌∷◌, Bool-cases, inl, inr, arith}
use ray_rust.Raylet.Worker.{WorkerHandle, WorkerPool, is_idle, mark_busy, find_idle}

-- Where a caller is: before the rest of the list, past a load that saw an idle worker, or done.
pub data Caller : Type 0 where
  scanning : List WorkerHandle → Caller
  saw_idle : WorkerHandle → Caller
  got : WorkerHandle → Caller

-- One atomic step of one caller.
pub data Step : WorkerPool → Caller → WorkerPool → Caller → Type 0 where
  skips :
      (p : WorkerPool) (w : WorkerHandle) (ws : List WorkerHandle)
      → is_idle p w ≡ false
      → Step p (scanning (w ∷ ws)) p (scanning ws)
  sees :
      (p : WorkerPool) (w : WorkerHandle) (ws : List WorkerHandle)
      → is_idle p w ≡ true
      → Step p (scanning (w ∷ ws)) p (saw_idle w)
  marks : (p : WorkerPool) (w : WorkerHandle) → Step p (saw_idle w) (mark_busy p w) (got w)

-- Steps of two callers in any order.
pub data Interleaved : WorkerPool → Caller → Caller → WorkerPool → Caller → Caller → Type 0 where
  done : (p : WorkerPool) (a b : Caller) → Interleaved p a b p a b
  first :
      {p p' p'' : WorkerPool} {a a' a'' b b'' : Caller}
      → Step p a p' a'
      → Interleaved p' a' b p'' a'' b''
      → Interleaved p a b p'' a'' b''
  second :
      {p p' p'' : WorkerPool} {a a'' b b' b'' : Caller}
      → Step p b p' b'
      → Interleaved p' a b' p'' a'' b''
      → Interleaved p a b p'' a'' b''

scan-hit :
    (p : WorkerPool) (w h : WorkerHandle) (ws : List WorkerHandle)
    → is_idle p w ≡ true
    → find_idle p (w ∷ ws) ≡ some h
    → w ≡ h
unfolding find_idle
scan-hit p w h ws idle e = ground (arith, e)

scan-skip :
    (p : WorkerPool) (w h : WorkerHandle) (ws : List WorkerHandle)
    → is_idle p w ≡ false
    → find_idle p (w ∷ ws) ≡ some h
    → find_idle p ws ≡ some h
unfolding find_idle
scan-skip p w h ws busy e = ground (arith, e)

no_worker : (p : WorkerPool) (h : WorkerHandle) → find_idle p [] ≡ some h → ⊥
unfolding find_idle
no_worker p h e = cc

-- A caller scans up to the worker that `find_idle` finds, whatever the other caller is at.
first_sees :
    (p p' : WorkerPool) (ws : List WorkerHandle) (h : WorkerHandle) (a' b b' : Caller)
    → find_idle p ws ≡ some h
    → Interleaved p (saw_idle h) b p' a' b'
    → Interleaved p (scanning ws) b p' a' b'
first_sees p p' [] h a' b b' e k = absurd (no_worker p h e)
first_sees p p' (w ∷ ws) h a' b b' e k = elim (Bool-cases (is_idle p w)) [
  | inl idle ↦ first (sees p w ws idle) (rw (scan-hit p w h ws idle e) k)
  | inr busy ↦
      first (skips p w ws busy) (first_sees p p' ws h a' b b' (scan-skip p w h ws busy e) k)
]

second_sees :
    (p p' : WorkerPool) (ws : List WorkerHandle) (h : WorkerHandle) (a a' b' : Caller)
    → find_idle p ws ≡ some h
    → Interleaved p a (saw_idle h) p' a' b'
    → Interleaved p a (scanning ws) p' a' b'
second_sees p p' [] h a a' b' e k = absurd (no_worker p h e)
second_sees p p' (w ∷ ws) h a a' b' e k = elim (Bool-cases (is_idle p w)) [
  | inl idle ↦ second (sees p w ws idle) (rw (scan-hit p w h ws idle e) k)
  | inr busy ↦
      second (skips p w ws busy) (second_sees p p' ws h a a' b' (scan-skip p w h ws busy e) k)
]

-- Two callers that scan a pool with an idle worker at the same time can both get that worker.
pub both_get_one_worker :
    (p : WorkerPool) (h : WorkerHandle)
    → find_idle p p.workers ≡ some h
    → Interleaved p
        (scanning p.workers)
        (scanning p.workers)
        (mark_busy (mark_busy p h) h)
        (got h)
        (got h)
both_get_one_worker p h e = first_sees p _ p.workers h (got h) (scanning p.workers) (got h) e (
    second_sees p _ p.workers h (saw_idle h) (got h) (got h) e
      (first (marks p h) (second (marks (mark_busy p h) h) (done _ (got h) (got h)))))
