-- ===== src/ObjectStore/Polling/Total.antt =====
-- The loop of `get` in crates/ray-object-store/src/store.rs, round by round.
use native.Mathlib.Decide.{ℕ_discrete}
use mathlib.Core.Path.{subst}
use ray_rust.Common.{
  ℕ, zero, suc, ◌+◌, ◌*◌, ◌/◌, ◌^◌, ◌≤◌, ◌<◌, ◌≡◌, ◌≢◌, refl, ◌⊎◌, inl, inr, Option, none, some,
  List, leb, Option-cases, Bool-cases, arith,
}
use ray_rust.Common.Int.{ℤ, negsuc}
use ray_rust.Common.HashMap
use ray_rust.Core.Error.{RayResult, ok, err, timeout}
use ray_rust.Core.Id.{ObjectId, id_eq}
use ray_rust.ObjectStore.{ObjectEntry}
use ray_rust.ObjectStore.Polling.{Schedule, as_u64, get_round, get_loop, get}

-- Each round is at least ten milliseconds after the one before.
abbrev pub Advances : Schedule → Type 0
Advances rounds = (i : ℕ) → (rounds i).now + 10 ≤ (rounds (suc i)).now

-- From round `i` up to `k`, the object is missing and the deadline ahead.
abbrev pub Waits : Schedule → ObjectId → ℕ → ℕ → ℕ → Type 0
Waits rounds id deadline i k =
    (j : ℕ)
    → i ≤ j
    → j < k
    → (HashMap.get (rounds j).objects id ≡ none) × ((rounds j).now < deadline)

-- Round `k` decides: the object is there, or the time is up without it.
abbrev pub Decides : Schedule → ObjectId → ℕ → ℕ → RayResult (List ℕ) → Type 0
Decides rounds id deadline k r =
    ((e : ObjectEntry) × (HashMap.get (rounds k).objects id ≡ some e) × (r ≡ ok e.bytes))
    ⊎ ((HashMap.get (rounds k).objects id ≡ none) × (deadline ≤ (rounds k).now) × (r ≡ err timeout))

abbrev pub GetOutcome : Schedule → ObjectId → ℕ → ℕ → Option (RayResult (List ℕ)) → Type 0
GetOutcome rounds id deadline i result =
    (k : ℕ) × (r : RayResult (List ℕ)) × (result ≡ some r)
    × (i ≤ k)
    × Waits rounds id deadline i k
    × Decides rounds id deadline k r

-- A round that decides nothing hands the outcome of the rest on.
get-later :
    (rounds : Schedule) (id : ObjectId) (deadline i : ℕ) (rest : Option (RayResult (List ℕ)))
    → HashMap.get (rounds i).objects id ≡ none
    → (rounds i).now < deadline
    → GetOutcome rounds id deadline (suc i) rest
    → GetOutcome rounds id deadline i rest
get-later rounds id deadline i rest missing early (k, r, e, le, waits, decides) =
    (k, r, e, omega arith, waits_here, decides)
  where
    waits_here : Waits rounds id deadline i k
    waits_here j h l = elim (ℕ_discrete i j) [
      | yes same ↦
          subst (λ n. (HashMap.get (rounds n).objects id ≡ none) × ((rounds n).now < deadline)) same
            (missing, early)
      | no other ↦ waits j (omega arith) l
    ]

get-here :
    (rounds : Schedule) (id : ObjectId) (deadline i : ℕ) (r : RayResult (List ℕ))
    → Decides rounds id deadline i r
    → GetOutcome rounds id deadline i (some r)
get-here rounds id deadline i r d = (i, r, refl, omega arith, λ j h l. absurd (omega arith), d)

get_loop_total :
    (rounds : Schedule) (id : ObjectId) (deadline fuel i : ℕ)
    → Advances rounds
    → deadline + 10 ≤ (rounds i).now + 10 * fuel
    → 0 < fuel
    → GetOutcome rounds id deadline i (get_loop rounds id deadline fuel i)
unfolding get_loop get_round
get_loop_total rounds id deadline zero i adv b p = elim p [ ]
get_loop_total rounds id deadline (suc fuel) i adv b p =
    elim (Option-cases (HashMap.get (rounds i).objects id)) [
      | inr (e, found) ↦
          rw (found, get_round) (get-here rounds id deadline i (ok e.bytes) (inl (e, found, refl)))
      | inl missing ↦ elim (Bool-cases (leb deadline (rounds i).now)) [
        | inl late ↦
            rw (missing, late, get_round)
              (get-here rounds id deadline i (err timeout) (inr (missing, ground arith, refl)))
        | inr early ↦
            rw (missing, early, get_round)
              (get-later rounds id deadline i (get_loop rounds id deadline fuel (suc i)) missing
                (ground arith)
                (get_loop_total rounds id deadline fuel (suc i) adv (grind (arith, adv i))
                  (ground arith)))
      ]
    ]

-- `get` answers: with a round every ten milliseconds or more, none of them before the start, a
-- tenth of the timeout in rounds and two more are enough. The answer is decided by one round,
-- before which the object was missing and the deadline ahead: the bytes if the object is there in
-- that round, and `Timeout` otherwise.
pub get_total :
    (rounds : Schedule) (start : ℕ) (id : ObjectId) (timeout_ms : ℤ) (fuel : ℕ)
    → Advances rounds
    → start ≤ (rounds 0).now
    → as_u64 timeout_ms / 10 + 2 ≤ fuel
    → GetOutcome rounds id (start + as_u64 timeout_ms) 0 (get rounds start id timeout_ms fuel)
unfolding get
get_total rounds start id timeout_ms fuel adv s f =
    get_loop_total rounds id (start + as_u64 timeout_ms) fuel 0 adv (omega arith) (omega arith)

as_u64_negative : (n : ℕ) → n < 2 ^ 63 → 2 ^ 63 ≤ as_u64 (negsuc n)
unfolding as_u64
as_u64_negative n h = omega arith

no_timeout_before :
    (rounds : Schedule) (id : ObjectId) (deadline fuel i : ℕ)
    → ((j : ℕ) → j < i + fuel → (rounds j).now < deadline)
    → get_loop rounds id deadline fuel i ≢ some (err timeout)
unfolding get_loop get_round
no_timeout_before rounds id deadline zero i h = λ e. cc
no_timeout_before rounds id deadline (suc fuel) i h =
    let now_early : (rounds i).now < deadline = h i (omega arith) in
    ground (
      arith,
      now_early,
      no_timeout_before rounds id deadline fuel (suc i) (λ j l. h j (omega arith)),
    )

-- A negative timeout of at most 2^63 milliseconds is a wait of at least 2^63 milliseconds: as long
-- as no round of the call reads a clock that is so much later than its start, the call does not
-- time out.
pub negative_timeout_waits :
    (rounds : Schedule) (start : ℕ) (id : ObjectId) (n fuel : ℕ)
    → n < 2 ^ 63
    → ((j : ℕ) → j < fuel → (rounds j).now < start + 2 ^ 63)
    → get rounds start id (negsuc n) fuel ≢ some (err timeout)
unfolding get
negative_timeout_waits rounds start id n fuel h early =
    no_timeout_before rounds id (start + as_u64 (negsuc n)) fuel 0
      (λ j l. omega (arith, early j (omega arith), as_u64_negative n h))
