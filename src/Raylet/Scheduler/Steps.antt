-- ===== src/Raylet/Scheduler/Steps.antt =====
-- The event loop of crates/ray-raylet/src/scheduler.rs in its single steps. It takes a command and
-- then goes through its queue, one task at a time; tasks that end and leases are served by other
-- threads, also between two of these steps.
pub mod Rounds
pub mod Safety
pub mod Outstanding
pub mod Accounts
mod Tests
use ray_rust.Common.{ℕ, List, [], ◌∷◌}
use ray_rust.Core.Error.{RayResult}
use ray_rust.Core.Id.{WorkerId}
use ray_rust.Core.Resources.{Resources}
use ray_rust.Core.Types.{TaskSpec}
use ray_rust.Raylet.Scheduler
use ray_rust.Raylet.Scheduler.{Command, Node, handle, allocate, drain_one}

-- Where the loop is: it waits for a command, or it drains its queue, with the tasks that it has not
-- come to and those that it keeps.
pub data Control : Type 0 where
  waiting : Control
  draining : List TaskSpec → List TaskSpec → Control

pub record Loop : Type 0 where
  pub node : Node
  pub control : Control

pub data Event : Type 0 where
  takes : Command → Event
  drains : Event
  starts : ℕ → WorkerId → ℕ → Event
  finishes : ℕ → RayResult (List ℕ) → ℕ → Event
  leases : Resources → Event

-- `pending_queue.drain(..)` leaves the queue empty.
unfoldable pub begin_drain : Node → Loop
begin_drain n = record {
  node = record n { pending_queue = [] };
  control = draining n.pending_queue [];
}

-- `cmd_rx.recv()`, and the handling of what it gives.
unfoldable pub receive : Node → Control → Command → Loop
receive n waiting c = begin_drain (handle n c)
receive n (draining rest still_pending) c = record {
  node = n;
  control = draining rest still_pending;
}

-- One round of the `for` loop, or its end: `pending_queue = still_pending`.
unfoldable pub drain_next : Node → Control → Loop
drain_next n waiting = record { node = n; control = waiting }
drain_next n (draining [] still_pending) = record {
  node = record n { pending_queue = still_pending };
  control = waiting;
}
drain_next n (draining (spec ∷ rest) still_pending) =
    let (n', still) = drain_one (allocate n spec) spec still_pending in
    record { node = n'; control = draining rest still }

unfoldable pub step : Loop → Event → Loop
step l (takes c) = receive l.node l.control c
step l drains = drain_next l.node l.control
step l (starts i worker_id pid) = record l {
  node = Scheduler.step l.node (Scheduler.starts i worker_id pid);
}
step l (finishes i result now) = record l {
  node = Scheduler.step l.node (Scheduler.finishes i result now);
}
step l (leases required) = record l { node = Scheduler.step l.node (Scheduler.leases required) }

unfoldable pub run : Loop → List Event → Loop
run l [] = l
run l (e ∷ es) = run (step l e) es
