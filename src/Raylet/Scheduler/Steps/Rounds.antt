-- ===== src/Raylet/Scheduler/Steps/Rounds.antt =====
-- One round of the drain in the event loop (crates/ray-raylet/src/scheduler.rs).
use ray_rust.Common.{◌≡◌, refl, ◌⊎◌, true, false, List, [], ◌∷◌, ◌++◌, inl, inr}
use ray_rust.Core.Resources
use ray_rust.Core.Types.{TaskSpec}
use ray_rust.Raylet.Scheduler.{Node, run_task, allocate, drain_one}
use ray_rust.Raylet.Scheduler.Books.{allocate-cases, taken}
use ray_rust.Raylet.Scheduler.Steps.{draining, drain_next}

allocate_fitting :
    (n : Node) (spec : TaskSpec)
    → Resources.can_satisfy n.resource_manager.available spec.required_resources ≡ true
    → allocate n spec ≡ (true, taken n spec)
allocate_fitting n spec fits = elim (allocate-cases n spec) [ inl (_, e) ↦ e | inr (short, _) ↦ cc ]

allocate_short :
    (n : Node) (spec : TaskSpec)
    → Resources.can_satisfy n.resource_manager.available spec.required_resources ≡ false
    → allocate n spec ≡ (false, n)
allocate_short n spec short = elim (allocate-cases n spec) [ inl (fits, _) ↦ cc | inr (_, e) ↦ e ]

next_fitting :
    (n : Node) (spec : TaskSpec) (rest still : List TaskSpec)
    → Resources.can_satisfy n.resource_manager.available spec.required_resources ≡ true
    → drain_next n (draining (spec ∷ rest) still)
      ≡ record { node = run_task (taken n spec) spec; control = draining rest still }
unfolding drain_next drain_one
next_fitting n spec rest still fits = rw (allocate_fitting n spec fits, drain_one) refl

next_short :
    (n : Node) (spec : TaskSpec) (rest still : List TaskSpec)
    → Resources.can_satisfy n.resource_manager.available spec.required_resources ≡ false
    → drain_next n (draining (spec ∷ rest) still)
      ≡ record { node = n; control = draining rest (still ++ spec ∷ []) }
unfolding drain_next drain_one
next_short n spec rest still short = rw (allocate_short n spec short, drain_one) refl

-- The two ways of one round.
pub next_cases :
    (n : Node) (spec : TaskSpec) (rest still : List TaskSpec)
    → ((Resources.can_satisfy n.resource_manager.available spec.required_resources ≡ true)
        × (drain_next n (draining (spec ∷ rest) still)
            ≡ record { node = run_task (taken n spec) spec; control = draining rest still }))
      ⊎ ((Resources.can_satisfy n.resource_manager.available spec.required_resources ≡ false)
          × (drain_next n (draining (spec ∷ rest) still)
              ≡ record { node = n; control = draining rest (still ++ spec ∷ []) }))
next_cases n spec rest still = elim (allocate-cases n spec) [
  | inl (fits, _) ↦ inl (fits, next_fitting n spec rest still fits)
  | inr (short, _) ↦ inr (short, next_short n spec rest still short)
]
