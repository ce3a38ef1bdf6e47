-- ===== src/Runtime/Failure.antt =====
-- A function call by name through crates/ray-runtime/src/lib.rs that fails.
use ray_rust.Common.{
  ℕ, ◌+◌, ◌/◌, ◌≤◌, ◌≡◌, refl, ◌⊎◌, inl, inr, String, some, none, List, [], string_eq,
}
use ray_rust.Common.Int.{ℤ, pos, ◌≤ℤ◌}
use ray_rust.Core.Error.{RayError, ok, err, timeout}
use ray_rust.Core.Id.{WorkerId, id_eq}
use ray_rust.Core.Resources
use ray_rust.Core.Types.{TaskStatus}
use ray_rust.ObjectStore.{get_entry}
use ray_rust.ObjectStore.Polling.{as_u64}
use ray_rust.ObjectStore.Polling.Total.{Advances}
use ray_rust.ObjectStore.Polling.Found.{never_found-get}
use ray_rust.Raylet.Executor.{execute}
use ray_rust.Raylet.Scheduler.{write_result}
use ray_rust.Runtime.{LocalRuntime, FreshBytes, fn_spec, get_task_status, rounds_of, get_object}
use ray_rust.Runtime.Delivery.{
  after_call, return_id, task_id_of, CallEnded, call_ended, status_at_end,
}

nothing_written :
    (rt : LocalRuntime) (name : String) (payload : List ℕ) (fresh : FreshBytes) (now : ℕ)
    (e : RayError) (done : LocalRuntime)
    → CallEnded rt (fn_spec name payload fresh) now done
    → execute rt.executor (fn_spec name payload fresh) ≡ err e
    → done.node.object_store ≡ rt.node.object_store
unfolding write_result
nothing_written rt name payload fresh now e done c fails = rw (c.written, fails, write_result) refl

-- A call by name of a function that is not registered, returns an error or panics is never answered
-- with its error: where a CPU is free, the channel is empty and nothing comes in between, the task
-- ends and is still reported as running, and a caller who waits for the return object, which was
-- not there before, gets `Timeout`, whether a round, of which there is one every ten milliseconds
-- or more, sees the runtime before the call or after the end of the task.
pub failed_call_times_out :
    (rt : LocalRuntime) (name : String) (payload : List ℕ) (fresh : FreshBytes)
    (worker_id : WorkerId) (pid now : ℕ) (e : RayError) (history : ℕ → LocalRuntime) (clock : ℕ → ℕ)
    (start : ℕ) (timeout_ms : ℤ) (fuel : ℕ)
    → rt.channel ≡ []
    → pos 1 ≤ℤ Resources.get rt.node.resource_manager.available "CPU"
    → execute rt.executor (fn_spec name payload fresh) ≡ err e
    → get_entry rt.node.object_store (return_id fresh) ≡ none
    → ((k : ℕ)
        → (history k ≡ rt) ⊎ (history k ≡ after_call rt name payload fresh worker_id pid now))
    → Advances (rounds_of history clock)
    → start ≤ clock 0
    → as_u64 timeout_ms / 10 + 2 ≤ fuel
    → (get_object history clock start (return_id fresh) timeout_ms fuel ≡ some (err timeout))
      × ((get_task_status (after_call rt name payload fresh worker_id pid now) (task_id_of fresh)).0
          ≡ ok TaskStatus.running)
unfolding get_object rounds_of get_entry
failed_call_times_out rt name payload fresh worker_id pid now e history clock start timeout_ms fuel
      idle enough fails missing seen adv s f =
    (
      never_found-get (rounds_of history clock) start (return_id fresh) timeout_ms fuel adv s f
          absent,
      status_at_end rt name payload fresh now done c,
    )
  where
    done : LocalRuntime
    done = after_call rt name payload fresh worker_id pid now

    c : CallEnded rt (fn_spec name payload fresh) now done
    c = call_ended rt name payload fresh worker_id pid now idle enough

    absent : (k : ℕ) → get_entry (history k).node.object_store (return_id fresh) ≡ none
    absent k = elim (seen k) [
      | inl before ↦ rw before missing
      | inr after ↦ rw (after, nothing_written rt name payload fresh now e done c fails) missing
    ]
