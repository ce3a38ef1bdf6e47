-- ===== src/ObjectStore/Polling/Found.antt =====
-- The loop of `get` in crates/ray-object-store/src/store.rs when the object turns up, or never does.
use native.Mathlib.Decide.{ℕ_discrete}
use mathlib.Core.Path.{subst}
use ray_rust.Common.{
  ℕ, zero, suc, ◌+◌, ◌/◌, ◌≤◌, ◌<◌, ◌≡◌, refl, sym, none, some, false, leb, inl, inr, arith,
}
use ray_rust.Common.Int.{ℤ}
use ray_rust.Common.HashMap
use ray_rust.Core.Error.{ok, err, timeout}
use ray_rust.Core.Id.{ObjectId, id_eq}
use ray_rust.ObjectStore.{ObjectEntry}
use ray_rust.ObjectStore.Polling.{Schedule, as_u64, get_loop, get_round, get}
use ray_rust.ObjectStore.Polling.Total.{Advances, Waits, GetOutcome, get_total}

found_at-get_loop :
    (rounds : Schedule) (id : ObjectId) (deadline fuel i k : ℕ) (e : ObjectEntry)
    → i ≤ k
    → k < i + fuel
    → Waits rounds id deadline i k
    → HashMap.get (rounds k).objects id ≡ some e
    → get_loop rounds id deadline fuel i ≡ some (ok e.bytes)
unfolding get_loop get_round
found_at-get_loop rounds id deadline zero i k e a p w f = absurd (omega arith)
found_at-get_loop rounds id deadline (suc fuel) i k e a p w f = elim (ℕ_discrete i k) [
  | yes same ↦
      let here : HashMap.get (rounds i).objects id ≡ some e =
        subst (λ n. HashMap.get (rounds n).objects id ≡ some e) (sym same) f in
      rw (here, get_round) refl
  | no other ↦
      let (missing, early) = w i (omega arith) (omega arith) in
      let late : leb deadline (rounds i).now ≡ false = ground arith in
      rw (missing, late, get_round)
        (found_at-get_loop rounds id deadline fuel (suc i) k e (omega arith) (omega arith)
          (λ j b c. w j (omega arith) c) f)
]

-- The bytes of the first round that shows the object, if it comes before the deadline.
pub found_at-get :
    (rounds : Schedule) (start : ℕ) (id : ObjectId) (timeout_ms : ℤ) (fuel k : ℕ) (e : ObjectEntry)
    → k < fuel
    → Waits rounds id (start + as_u64 timeout_ms) 0 k
    → HashMap.get (rounds k).objects id ≡ some e
    → get rounds start id timeout_ms fuel ≡ some (ok e.bytes)
unfolding get
found_at-get rounds start id timeout_ms fuel k e p w f =
    found_at-get_loop rounds id (start + as_u64 timeout_ms) fuel 0 k e (omega arith) (omega arith) w
      f

-- Where no round shows the object, the answer is `Timeout`.
pub never_found-get :
    (rounds : Schedule) (start : ℕ) (id : ObjectId) (timeout_ms : ℤ) (fuel : ℕ)
    → Advances rounds
    → start ≤ (rounds 0).now
    → as_u64 timeout_ms / 10 + 2 ≤ fuel
    → ((k : ℕ) → HashMap.get (rounds k).objects id ≡ none)
    → get rounds start id timeout_ms fuel ≡ some (err timeout)
never_found-get rounds start id timeout_ms fuel adv s f never =
    decide (get_total rounds start id timeout_ms fuel adv s f)
  where
    decide :
        GetOutcome rounds id (start + as_u64 timeout_ms) 0 (get rounds start id timeout_ms fuel)
        → get rounds start id timeout_ms fuel ≡ some (err timeout)
    decide (k, r, e, le, w, inl (entry, there, r_ok)) = cc (never k)
    decide (k, r, e, le, w, inr (missing, late, r_err)) = cc
