-- ===== src/ObjectStore/Polling/Wait.antt =====
-- The loop of `wait` in crates/ray-object-store/src/store.rs, round by round.
use native.Mathlib.Decide.{ℕ_discrete}
use mathlib.Core.Path.{subst}
use ray_rust.Common.{
  ℕ, zero, suc, ◌+◌, ◌*◌, ◌/◌, ◌≤◌, ◌<◌, ◌≡◌, refl, ◌⊎◌, inl, inr, Bool, true, false, Option, some,
  List, Bool-cases, arith,
}
use ray_rust.Common.Int.{ℤ, ◌≤ℤ◌}
use ray_rust.Core.Error.{RayResult, ok}
use ray_rust.Core.Id.{ObjectId, id_eq}
use ray_rust.ObjectStore.Polling.{
  Schedule, as_u64, as_i32, ready_flags, ready_count, is_done, wait_loop, wait,
}
use ray_rust.ObjectStore.Polling.Total.{Advances}

-- Enough objects are there in this round.
abbrev pub Enough : Schedule → List ObjectId → ℤ → ℕ → Type 0
Enough rounds ids num_ready k =
    num_ready ≤ℤ as_i32 (ready_count (ready_flags (rounds k).objects ids))

abbrev pub WaitOutcome :
    Schedule → List ObjectId → ℤ → ℕ → ℕ → Option (RayResult (List Bool)) → Type 0
WaitOutcome rounds ids num_ready deadline i result =
    (k : ℕ) × (i ≤ k)
    × (result ≡ some (ok (ready_flags (rounds k).objects ids)))
    × ((j : ℕ) → i ≤ j → j < k → (¬ Enough rounds ids num_ready j) × ((rounds j).now < deadline))
    × (Enough rounds ids num_ready k ⊎ (deadline ≤ (rounds k).now))

done_lem :
    (rounds : Schedule) (ids : List ObjectId) (num_ready : ℤ) (deadline k : ℕ)
    → is_done (rounds k) ids num_ready deadline ≡ true
    → Enough rounds ids num_ready k ⊎ (deadline ≤ (rounds k).now)
unfolding is_done
done_lem rounds ids num_ready deadline k h = ground arith

undone_lem :
    (rounds : Schedule) (ids : List ObjectId) (num_ready : ℤ) (deadline k : ℕ)
    → is_done (rounds k) ids num_ready deadline ≡ false
    → (¬ Enough rounds ids num_ready k) × ((rounds k).now < deadline)
unfolding is_done
undone_lem rounds ids num_ready deadline k h = (λ e. ground arith, ground arith)

wait-later :
    (rounds : Schedule) (ids : List ObjectId) (num_ready : ℤ) (deadline i : ℕ)
    (rest : Option (RayResult (List Bool)))
    → is_done (rounds i) ids num_ready deadline ≡ false
    → WaitOutcome rounds ids num_ready deadline (suc i) rest
    → WaitOutcome rounds ids num_ready deadline i rest
wait-later rounds ids num_ready deadline i rest h (k, le, e, waits, decides) =
    (k, omega arith, e, waits_here, decides)
  where
    waits_here :
        (j : ℕ) → i ≤ j → j < k → (¬ Enough rounds ids num_ready j) × ((rounds j).now < deadline)
    waits_here j a l = elim (ℕ_discrete i j) [
      | yes same ↦
          subst (λ n. (¬ Enough rounds ids num_ready n) × ((rounds n).now < deadline)) same
            (undone_lem rounds ids num_ready deadline i h)
      | no other ↦ waits j (omega arith) l
    ]

wait_loop_total :
    (rounds : Schedule) (ids : List ObjectId) (num_ready : ℤ) (deadline fuel i : ℕ)
    → Advances rounds
    → deadline + 10 ≤ (rounds i).now + 10 * fuel
    → 0 < fuel
    → WaitOutcome rounds ids num_ready deadline i (wait_loop rounds ids num_ready deadline fuel i)
unfolding wait_loop
wait_loop_total rounds ids num_ready deadline zero i adv b p = elim p [ ]
wait_loop_total rounds ids num_ready deadline (suc fuel) i adv b p =
    elim (Bool-cases (is_done (rounds i) ids num_ready deadline)) [
      | inl done ↦ rw done (
        i,
        omega arith,
        refl,
        λ j h l. absurd (omega arith),
        done_lem rounds ids num_ready deadline i done,
      )
      | inr undone ↦
          let early : (rounds i).now < deadline =
            (undone_lem rounds ids num_ready deadline i undone).1 in
          rw undone (
            wait-later rounds ids num_ready deadline i
              (wait_loop rounds ids num_ready deadline fuel (suc i)) undone
              (wait_loop_total rounds ids num_ready deadline fuel (suc i) adv (grind (arith, adv i))
                (ground arith)))
    ]

-- `wait` answers, and never with an error: with a round every ten milliseconds or more, none of
-- them before the start, a tenth of the timeout in rounds and two more are enough. Its flags, one
-- for each identifier, are those of the first round in which enough objects are there or the time
-- is up.
pub wait_total :
    (rounds : Schedule) (start : ℕ) (ids : List ObjectId) (num_ready timeout_ms : ℤ) (fuel : ℕ)
    → Advances rounds
    → start ≤ (rounds 0).now
    → as_u64 timeout_ms / 10 + 2 ≤ fuel
    → WaitOutcome rounds ids num_ready
        (start + as_u64 timeout_ms)
        0
        (wait rounds start ids num_ready timeout_ms fuel)
unfolding wait
wait_total rounds start ids num_ready timeout_ms fuel adv s f =
    wait_loop_total rounds ids num_ready (start + as_u64 timeout_ms) fuel 0 adv (omega arith)
      (omega arith)
