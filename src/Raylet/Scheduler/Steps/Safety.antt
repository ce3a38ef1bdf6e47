-- ===== src/Raylet/Scheduler/Steps/Safety.antt =====
-- The books of a node through the single steps of crates/ray-raylet/src/scheduler.rs.
use mathlib.Core.Path.{subst}
use ray_rust.Common.{
  sym, String, ◌≡◌, refl, List, [], ◌∷◌, ◌++◌, get_elem?, inl, inr, string_eq, All, All-append,
  if◌then◌else◌,
}
use ray_rust.Common.Int.{pos, ◌+ℤ◌, ◌≤ℤ◌}
use ray_rust.Core.Resources
use ray_rust.Core.Resources.{Resources}
use ray_rust.ObjectStore.{InMemoryObjectStore}
use ray_rust.Raylet.ResourceManager
use ray_rust.Raylet.ResourceManager.Ledger.{holding, NonNegative}
use ray_rust.Raylet.Scheduler
use ray_rust.Raylet.Scheduler.{Command, Node, start_node, handle, run_task, drain_one}
use ray_rust.Raylet.Scheduler.Books.{
  IsFair, IsFairTask, IsFairEvent, required_by, IsSound, handle-IsSound, granted_task, requeue,
}
use ray_rust.Raylet.Scheduler.Jobs.{start_at-IsSound, finish_at-IsSound, lease-IsSound}
use ray_rust.Raylet.Scheduler.Oversubscription.{summary, start-IsSound}
use ray_rust.Raylet.Scheduler.Steps.{
  Control, waiting, draining, Loop, Event, takes, drains, starts, finishes, leases, begin_drain,
  receive, drain_next, step, run,
}
use ray_rust.Raylet.Scheduler.Steps.Rounds.{next_cases}
use ray_rust.Raylet.Worker.{WorkerPool}

abbrev pub IsFairStep : Event → Type 0
IsFairStep (takes c) = IsFairEvent (Scheduler.commands c)
IsFairStep drains = Unit
IsFairStep (starts i worker_id pid) = Unit
IsFairStep (finishes i result now) = Unit
IsFairStep (leases required) = IsFair required

-- The leases that are out: a step that grants one adds it, and none is given back.
abbrev pub add_lease : List Resources → Loop → Event → List Resources
add_lease held l (takes c) = held
add_lease held l drains = held
add_lease held l (starts i worker_id pid) = held
add_lease held l (finishes i result now) = held
add_lease held l (leases required) =
    if Resources.can_satisfy l.node.resource_manager.available required
    then required ∷ held
    else held

abbrev pub leases_after : List Resources → Loop → List Event → List Resources
leases_after held l [] = held
leases_after held l (e ∷ es) = leases_after (add_lease held l e) (step l e) es

abbrev IsFairControl : Control → Type 0
IsFairControl waiting = Unit
IsFairControl (draining rest still) = All IsFairTask rest × All IsFairTask still

record IsSoundLoop (total : Resources) (held : List Resources) (l : Loop) : Type 0 where
  node_sound : IsSound total held l.node
  control_fair : IsFairControl l.control

receive-IsSoundLoop :
    (total : Resources) (held : List Resources) (n : Node) (k : Control) (c : Command)
    → IsSound total held n
    → IsFairControl k
    → IsFairEvent (Scheduler.commands c)
    → IsSoundLoop total held (receive n k c)
unfolding receive begin_drain
receive-IsSoundLoop total held n waiting c s f fair =
    let h = handle-IsSound total held n c s fair in
    record {
      node_sound = requeue total held (handle n c) [] h tt;
      control_fair = (h.queue_fair, tt);
    }
receive-IsSoundLoop total held n (draining rest still) c s f fair = record {
  node_sound = s;
  control_fair = f;
}

drain_next-IsSoundLoop :
    (total : Resources) (held : List Resources) (n : Node) (k : Control)
    → IsSound total held n
    → IsFairControl k
    → IsSoundLoop total held (drain_next n k)
unfolding drain_next
drain_next-IsSoundLoop total held n waiting s f = record { node_sound = s; control_fair = f }
drain_next-IsSoundLoop total held n (draining [] still) s f = record {
  node_sound = requeue total held n still s f.1;
  control_fair = tt;
}
drain_next-IsSoundLoop total held n (draining (spec ∷ rest) still) s f =
    elim (next_cases n spec rest still) [
      | inl (fits, e) ↦ subst (IsSoundLoop total held) (sym e) (record {
        node_sound = granted_task total held n spec s f.0.0 fits;
        control_fair = (f.0.1, f.1);
      })
      | inr (short, e) ↦ subst (IsSoundLoop total held) (sym e) (record {
        node_sound = s;
        control_fair = (f.0.1, All-append IsFairTask still (spec ∷ []) f.1 (f.0.0, tt));
      })
    ]

step-IsSoundLoop :
    (total : Resources) (held : List Resources) (l : Loop) (e : Event)
    → IsSoundLoop total held l
    → IsFairStep e
    → IsSoundLoop total (add_lease held l e) (step l e)
unfolding step Scheduler.step
step-IsSoundLoop total held l (takes c) s fair =
    receive-IsSoundLoop total held l.node l.control c s.node_sound s.control_fair fair
step-IsSoundLoop total held l drains s fair =
    drain_next-IsSoundLoop total held l.node l.control s.node_sound s.control_fair
step-IsSoundLoop total held l (starts i worker_id pid) s fair = record {
  node_sound =
      start_at-IsSound total held l.node i (get_elem? l.node.jobs i) worker_id pid refl
        s.node_sound;
  control_fair = s.control_fair;
}
step-IsSoundLoop total held l (finishes i result now) s fair = record {
  node_sound =
      finish_at-IsSound total held l.node i (get_elem? l.node.jobs i) result now refl s.node_sound;
  control_fair = s.control_fair;
}
step-IsSoundLoop total held l (leases required) s fair = record {
  node_sound = lease-IsSound total held l.node required s.node_sound fair;
  control_fair = s.control_fair;
}

run-IsSoundLoop :
    (total : Resources) (held : List Resources) (l : Loop) (es : List Event)
    → IsSoundLoop total held l
    → All IsFairStep es
    → IsSoundLoop total (leases_after held l es) (run l es)
unfolding run
run-IsSoundLoop total held l [] s fair = s
run-IsSoundLoop total held l (e ∷ es) s fair =
    run-IsSoundLoop total (add_lease held l e) (step l e) es
      (step-IsSoundLoop total held l e s fair.0) fair.1

-- However the single steps of the event loop, task starts, task ends and leases follow each other
-- on a node, also between two steps of one drain, with requests that have distinct names and no
-- negative quantity: the total stays what it was; for every resource, what is available and what
-- the leases and the dispatched tasks hold add up to it; nothing negative is available; and so what
-- is held is never more than the total.
pub no_oversubscription_in_steps :
    (total : Resources) (p : WorkerPool) (o : InMemoryObjectStore) (es : List Event) (name : String)
    → NonNegative total
    → All IsFairStep es
    → let start : Loop = record {
      node = start_node (ResourceManager.new total) p o;
      control = waiting;
    } in
      let n = (run start es).node in
      let held = leases_after [] start es ++ required_by n.jobs in
      (n.resource_manager.total ≡ total)
      × (Resources.get total name
          ≡ Resources.get n.resource_manager.available name +ℤ holding name held)
      × (pos 0 ≤ℤ Resources.get n.resource_manager.available name)
      × (holding name held ≤ℤ Resources.get total name)
no_oversubscription_in_steps total p o es name h fair =
    let start : Loop = record {
      node = start_node (ResourceManager.new total) p o;
      control = waiting;
    } in
    summary total (leases_after [] start es) (run start es).node name
      (run-IsSoundLoop total [] start es
        (record { node_sound = start-IsSound total p o h; control_fair = tt }) fair).node_sound
