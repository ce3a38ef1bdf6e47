-- ===== src/Raylet/Scheduler/Steps/Tests.antt =====
-- The single steps of the event loop at concrete values.
use mathlib.Core.List.{Perm}
use ray_rust.Common.{◌≡◌, refl, List, [], ◌∷◌, ◌++◌, replicate, string_eq, All, arith}
use ray_rust.Common.Int.{pos, ◌+ℤ◌, ◌≤ℤ◌}
use ray_rust.Common.HashMap
use ray_rust.Core.Error.{ok}
use ray_rust.Core.Id.{TaskId}
use ray_rust.Core.Resources
use ray_rust.Core.Resources.{Resources}
use ray_rust.Core.Types.{TaskSpec}
use ray_rust.ObjectStore
use ray_rust.Raylet.ResourceManager
use ray_rust.Raylet.ResourceManager.Ledger.{holding, NonNegative}
use ray_rust.Raylet.Scheduler.{submit_task, Node, start_node}
use ray_rust.Raylet.Scheduler.Books.{IsFair, required_by}
use ray_rust.Raylet.Scheduler.Steps.{
  waiting, Loop, Event, takes, drains, starts, finishes, leases, run,
}
use ray_rust.Raylet.Scheduler.Steps.Accounts.{every_task_counts}
use ray_rust.Raylet.Scheduler.Steps.Outstanding.{known, all_entered, all_ended}
use ray_rust.Raylet.Scheduler.Steps.Safety.{IsFairStep, leases_after, no_oversubscription_in_steps}
use ray_rust.Raylet.Worker

abbrev one_cpu : Resources
one_cpu = record { map = ("CPU", pos 1) ∷ [] }

abbrev some_id : TaskId
some_id = record { bytes = replicate 16 7 }

abbrev some_task : TaskSpec
some_task = record {
  task_id = some_id;
  job_id = some_id;
  function_name = "echo";
  function_payload = 1 ∷ [];
  return_ids = [];
  dependency_ids = [];
  required_resources = one_cpu;
  max_retries = pos 0;
}

abbrev idle_node : Node
idle_node = start_node (ResourceManager.new one_cpu) (Worker.new 2) (ObjectStore.new 0)

-- A task ends while the queue with a second one is drained.
abbrev some_events : List Event
some_events =
    takes (submit_task some_task)
    ∷ drains
    ∷ starts 0 some_id 1
    ∷ takes (submit_task some_task)
    ∷ finishes 0 (ok []) 3
    ∷ drains
    ∷ leases one_cpu
    ∷ drains
    ∷ []

one_cpu-NonNegative : NonNegative one_cpu
unfolding Resources.get HashMap.get
one_cpu-NonNegative name = ground arith

one_cpu-IsFair : IsFair one_cpu
unfolding HashMap.get
one_cpu-IsFair = ((refl, tt), one_cpu-NonNegative)

some_events-IsFair : All IsFairStep some_events
some_events-IsFair =
    (one_cpu-IsFair, (tt, (tt, (one_cpu-IsFair, (tt, (tt, (one_cpu-IsFair, (tt, tt))))))))

no_oversubscription_in_steps_example :
    let start : Loop = record { node = idle_node; control = waiting } in
    let n = (run start some_events).node in
    let held = leases_after [] start some_events ++ required_by n.jobs in
    (n.resource_manager.total ≡ one_cpu)
    × (Resources.get one_cpu "CPU"
        ≡ Resources.get n.resource_manager.available "CPU" +ℤ holding "CPU" held)
    × (pos 0 ≤ℤ Resources.get n.resource_manager.available "CPU")
    × (holding "CPU" held ≤ℤ Resources.get one_cpu "CPU")
no_oversubscription_in_steps_example =
    no_oversubscription_in_steps one_cpu (Worker.new 2) (ObjectStore.new 0) some_events "CPU"
      one_cpu-NonNegative some_events-IsFair

every_task_counts_example :
    let start : Loop = record { node = idle_node; control = waiting } in
    Perm
      (all_ended start some_events ++ known (run start some_events))
      (all_entered start some_events)
every_task_counts_example =
    every_task_counts (ResourceManager.new one_cpu) (Worker.new 2) (ObjectStore.new 0) some_events
