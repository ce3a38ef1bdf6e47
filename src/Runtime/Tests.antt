-- ===== src/Runtime/Tests.antt =====
-- The theorems about the runtime at concrete values.
use ray_rust.Common.{
  ℕ, zero, suc, ◌*◌, ◌≡◌, refl, String, some, none, List, [], ◌∷◌, ◌⊎◌, inl, inr, replicate,
  string_eq, arith,
}
use ray_rust.Common.Int.{pos}
use ray_rust.Common.HashMap
use ray_rust.Core.Error.{ok, err, timeout, task_failed}
use ray_rust.Core.Id
use ray_rust.Core.Id.{ObjectId, WorkerId, id_eq}
use ray_rust.Core.Resources
use ray_rust.Core.Types.{TaskStatus}
use ray_rust.Gcs.Store
use ray_rust.ObjectStore
use ray_rust.ObjectStore.{ObjectEntry, get_entry, new_entry}
use ray_rust.ObjectStore.Polling.{as_u64}
use ray_rust.ObjectStore.Polling.Total.{Waits}
use ray_rust.Raylet.Executor
use ray_rust.Raylet.Executor.{TaskFn, returns, execute, join_blocking}
use ray_rust.Raylet.ResourceManager
use ray_rust.Raylet.Scheduler.{
  start_node, process, handle, submit, allocate, run_task, set_status, dispatch_task, drain,
  drain_loop, drain_one, start_at, start_job, finish_at, finish_job, write_result,
}
use ray_rust.Raylet.Worker
use ray_rust.Runtime
use ray_rust.Runtime.{
  default_config, handle_all, end_job, registry, put_object, submit_task, send, take_command,
  RuntimeConfig, LocalRuntime, FreshBytes, fn_spec, new, submit_fn, register_function, get_object,
  get_task_status, rounds_of, run, Event, registers, submits, asks_status, awaits_status, loops,
  starts, ends, puts,
}
use ray_rust.Runtime.Delivery.{after_call, return_id, task_id_of, submit_fn_delivers}
use ray_rust.Runtime.Failure.{failed_call_times_out}
use ray_rust.Runtime.Origins.{run_objects_from}
use ray_rust.Runtime.Traces.{Origin}
use ray_rust.Runtime.Permanence.{objects_stay}

abbrev echo : TaskFn
echo payload = returns (ok payload)

abbrev sixteen : ℕ → List ℕ
sixteen b = replicate 16 b

-- The default where the number of processors is not known.
default_of_unknown :
    default_config none ≡ record { num_cpus = 4; max_workers = 8; object_store_memory = 0 }
unfolding default_config
default_of_unknown = refl

abbrev some_config : RuntimeConfig
some_config = record { num_cpus = 2; max_workers = 4; object_store_memory = 0 }

abbrev idle_runtime : LocalRuntime
idle_runtime = record {
  gcs = Store.new;
  node =
      start_node (ResourceManager.new (Resources.set Resources.new "CPU" (pos 2))) (Worker.new 4)
        (ObjectStore.new 0);
  channel = [];
  executor = Executor.new;
  earlier = [];
  node_id = Id.new 16 (sixteen 9);
}

starts_idle : new some_config (sixteen 9) ≡ ok idle_runtime
unfolding new
starts_idle = refl

abbrev with_echo : LocalRuntime
with_echo = register_function idle_runtime "echo" echo

abbrev some_fresh : FreshBytes
some_fresh = record { return_bytes = sixteen 1; task_bytes = sixteen 2; job_bytes = sixteen 3 }

abbrev some_worker : WorkerId
some_worker = Id.new 16 (sixteen 4)

abbrev some_payload : List ℕ
some_payload = 5 ∷ 6 ∷ []

abbrev every_ten : ℕ → ℕ
every_ten i = 10 * i

-- The call is over when the second round looks.
abbrev seen : LocalRuntime → String → ℕ → LocalRuntime
seen rt name zero = rt
seen rt name (suc i) = after_call rt name some_payload some_fresh some_worker 7 8

submit_fn_delivers_example :
    let done = after_call with_echo "echo" some_payload some_fresh some_worker 7 8 in
    ((submit_fn with_echo "echo" some_payload some_fresh).0 ≡ ok (return_id some_fresh))
    × (get_object (seen with_echo "echo") every_ten 0 (return_id some_fresh) (pos 100) 12
        ≡ some (ok some_payload))
    × ((get_task_status done (task_id_of some_fresh)).0 ≡ ok TaskStatus.running)
unfolding register_function Executor.register_fn Executor.new HashMap.insert HashMap.get start_node
    ResourceManager.new Resources.set Resources.new Resources.get ObjectStore.new rounds_of as_u64
    get_entry
submit_fn_delivers_example =
    submit_fn_delivers with_echo "echo" echo some_payload some_payload some_fresh some_worker 7 8
      (seen with_echo "echo") every_ten 0 (pos 100) 12 1 refl refl refl (omega arith) refl refl
      (omega arith) waits
  where
    waits : Waits (rounds_of (seen with_echo "echo") every_ten) (return_id some_fresh) 100 0 1
    waits zero a l = (refl, omega arith)
    waits (suc j) a l = absurd (omega arith)

-- No function is registered under this name.
failed_call_times_out_example :
    (get_object (seen with_echo "absent") every_ten 0 (return_id some_fresh) (pos 100) 12
      ≡ some (err timeout))
    × ((get_task_status
          (after_call with_echo "absent" some_payload some_fresh some_worker 7 8)
          (task_id_of some_fresh)).0
        ≡ ok TaskStatus.running)
unfolding register_function Executor.register_fn Executor.new HashMap.insert HashMap.get start_node
    ResourceManager.new Resources.set Resources.new Resources.get ObjectStore.new as_u64 get_entry
    execute fn_spec rounds_of
failed_call_times_out_example =
    failed_call_times_out with_echo "absent" some_payload some_fresh some_worker 7 8 task_failed
      (seen with_echo "absent") every_ten 0 (pos 100) 12 refl (omega arith) refl refl either
      (λ i. omega arith) (omega arith) (omega arith)
  where
    either :
        (k : ℕ)
        → (seen with_echo "absent" k ≡ with_echo)
          ⊎ (seen with_echo "absent" k
              ≡ after_call with_echo "absent" some_payload some_fresh some_worker 7 8)
    either zero = inl refl
    either (suc k) = inr refl

abbrev some_events : List Event
some_events =
    registers "echo" echo
    ∷ submits (fn_spec "echo" some_payload some_fresh)
    ∷ loops
    ∷ puts (1 ∷ []) (sixteen 6) 2
    ∷ asks_status (Id.new 16 (sixteen 2))
    ∷ starts 0 some_worker 7
    ∷ awaits_status (Id.new 16 (sixteen 2))
    ∷ ends 0 0 8
    ∷ []

echo_stored :
    get_entry (run idle_runtime some_events).node.object_store (return_id some_fresh)
    ≡ some (new_entry (return_id some_fresh) some_payload 8)
unfolding run Runtime.step get_task_status handle_all end_job registry put_object submit_task send
    take_command register_function get_entry fn_spec start_node process handle submit allocate
    run_task set_status dispatch_task drain drain_loop drain_one start_at start_job finish_at
    finish_job write_result execute join_blocking Executor.register_fn Executor.new
    ResourceManager.new ResourceManager.try_allocate ResourceManager.release Resources.can_satisfy
    Resources.get Resources.subtract Resources.add Resources.set Resources.new HashMap.get
    HashMap.insert HashMap.remove Worker.new Worker.get_worker Worker.find_idle Worker.return_worker
    Worker.mark_idle Worker.mark_busy Worker.is_dead Worker.is_idle ObjectStore.put
    ObjectStore.admit ObjectStore.commit ObjectStore.new Id.new
echo_stored = refl

run_objects_from_example : Origin some_events (return_id some_fresh) some_payload
run_objects_from_example =
    run_objects_from some_config (sixteen 9) idle_runtime some_events (return_id some_fresh)
      (new_entry (return_id some_fresh) some_payload 8) starts_idle echo_stored

abbrev later_events : List Event
later_events = puts (2 ∷ []) (sixteen 7) 9 ∷ submits (fn_spec "echo" [] some_fresh) ∷ loops ∷ []

objects_stay_example :
    (e' : ObjectEntry) × (get_entry
        (run (run idle_runtime some_events) later_events).node.object_store
        (return_id some_fresh)
      ≡ some e')
objects_stay_example =
    objects_stay some_config (sixteen 9) idle_runtime some_events later_events
      (return_id some_fresh) (new_entry (return_id some_fresh) some_payload 8) starts_idle
      echo_stored
