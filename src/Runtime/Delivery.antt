-- ===== src/Runtime/Delivery.antt =====
-- A function call by name through crates/ray-runtime/src/lib.rs: from its submission to the object
-- that its caller waits for.
use ray_rust.Common.{
  ℕ, ◌+◌, ◌<◌, ◌≡◌, refl, String, true, some, List, [], ◌∷◌, ◌++◌, length, get_elem?-middle,
  nat_beq, leb, ◌||◌, string_eq, beq_refl, arith,
}
use ray_rust.Common.Int.{ℤ, pos, ◌≤ℤ◌}
use ray_rust.Common.HashMap
use ray_rust.Core.Error.{RayResult, ok}
use ray_rust.Core.Id
use ray_rust.Core.Id.{ObjectId, TaskId, WorkerId, id_eq}
use ray_rust.Core.Resources
use ray_rust.Core.Resources.Laws.{can_satisfy_iff}
use ray_rust.Core.Types.{TaskSpec, TaskStatus}
use ray_rust.ObjectStore
use ray_rust.ObjectStore.{new_entry, get_entry, total_size, commit}
use ray_rust.ObjectStore.Polling.{as_u64}
use ray_rust.ObjectStore.Polling.Total.{Waits}
use ray_rust.ObjectStore.Polling.Found.{found_at-get}
use ray_rust.ObjectStore.Put.{put_within, commit_lem}
use ray_rust.Raylet.Executor.{TaskFn, returns, execute, join_blocking}
use ray_rust.Raylet.Scheduler.{
  submit_task as submits_task, Job, Node, spawned, executing, process, start_job, finish_job,
  status, write_result,
}
use ray_rust.Raylet.Scheduler.Dispatch.{Dispatched, process-Dispatched, started, finished}
use ray_rust.Raylet.Worker
use ray_rust.Runtime.{
  LocalRuntime, FreshBytes, fn_spec, submit_fn, submit_task, send, answer_id, take_command, end_job,
  registry, handle_all, get_task_status, rounds_of, get_object, loops, starts, ends, step, run,
}

-- The call is handed in, the event loop takes it, and the task that it dispatches behind the jobs
-- at hand gets its worker and ends.
abbrev pub after_call :
    LocalRuntime → String → List ℕ → FreshBytes → WorkerId → ℕ → ℕ → LocalRuntime
after_call rt name payload fresh worker_id pid now =
    let i = length rt.node.jobs in
    run (submit_fn rt name payload fresh).1 (loops ∷ starts i worker_id pid ∷ ends i 0 now ∷ [])

abbrev pub return_id : FreshBytes → ObjectId
return_id fresh = Id.new _ fresh.return_bytes

abbrev pub task_id_of : FreshBytes → TaskId
task_id_of fresh = Id.new _ fresh.task_bytes

one_cpu_fits :
    (available : Resources.Resources) (name : String) (payload : List ℕ) (fresh : FreshBytes)
    → pos 1 ≤ℤ Resources.get available "CPU"
    → Resources.can_satisfy available (fn_spec name payload fresh).required_resources ≡ true
unfolding fn_spec Resources.set Resources.new HashMap.insert HashMap.get
one_cpu_fits available name payload fresh enough =
    (can_satisfy_iff available (record { map = ("CPU", pos 1) ∷ [] }) (refl, tt)).1
      (λ other q e. ground (arith, enough, string_eq.beq_iff "CPU" other))

taken_up :
    (rt : LocalRuntime) (name : String) (payload : List ℕ) (fresh : FreshBytes)
    → rt.channel ≡ []
    → step (submit_fn rt name payload fresh).1 loops ≡ record rt {
      node = process rt.node (submits_task (fn_spec name payload fresh));
      channel = [];
    }
unfolding step submit_fn submit_task send answer_id take_command
taken_up rt name payload fresh e = rw e refl

to_the_end :
    (rt : LocalRuntime) (n : Node) (before : List Job) (spec : TaskSpec) (after : List Job)
    (worker_id : WorkerId) (pid now : ℕ)
    → n.jobs ≡ before ++ record { spec = spec; phase = spawned } ∷ after
    → let i = length before in
      let w = (Worker.get_worker n.worker_pool worker_id pid).0 in
      run (record rt { node = n; channel = [] }) (starts i worker_id pid ∷ ends i 0 now ∷ [])
      ≡ record rt {
        node =
            finish_job
              (start_job n before spec after worker_id pid)
              before
              spec
              w
              after
              (execute rt.executor spec)
              now;
        channel = [];
      }
unfolding run step end_job registry start_job
to_the_end rt n before spec after worker_id pid now e =
    let w = (Worker.get_worker n.worker_pool worker_id pid).0 in
    let begun = start_job n before spec after worker_id pid in
    rw (started n before spec after worker_id pid e) (
      rw (get_elem?-middle before (record { spec = spec; phase = executing w }) after)
        (rw (finished begun before spec w after (execute rt.executor spec) now refl) refl))

-- The runtime at the end of the call.
pub record CallEnded (rt : LocalRuntime) (spec : TaskSpec) (now : ℕ) (done : LocalRuntime)
    : Type 0 where
  pub no_command : done.channel ≡ []
  pub same_executor : done.executor ≡ rt.executor
  pub written :
      done.node.object_store ≡ write_result rt.node.object_store spec (execute rt.executor spec) now
  pub running : HashMap.get done.node.task_statuses spec.task_id ≡ some TaskStatus.running

ended_node :
    (rt : LocalRuntime) (n : Node) (before : List Job) (spec : TaskSpec) (after : List Job)
    (worker_id : WorkerId) (pid now : ℕ)
    → n.object_store ≡ rt.node.object_store
    → HashMap.get n.task_statuses spec.task_id ≡ some TaskStatus.running
    → let w = (Worker.get_worker n.worker_pool worker_id pid).0 in
      CallEnded rt spec now (record rt {
        node =
            finish_job
              (start_job n before spec after worker_id pid)
              before
              spec
              w
              after
              (execute rt.executor spec)
              now;
        channel = [];
      })
unfolding finish_job start_job
ended_node rt n before spec after worker_id pid now s r = record {
  no_command = refl;
  same_executor = refl;
  written = rw s refl;
  running = r;
}

pub call_ended :
    (rt : LocalRuntime) (name : String) (payload : List ℕ) (fresh : FreshBytes)
    (worker_id : WorkerId) (pid now : ℕ)
    → rt.channel ≡ []
    → pos 1 ≤ℤ Resources.get rt.node.resource_manager.available "CPU"
    → CallEnded rt
        (fn_spec name payload fresh)
        now
        (after_call rt name payload fresh worker_id pid now)
unfolding run
call_ended rt name payload fresh worker_id pid now idle enough =
    let spec = fn_spec name payload fresh in
    let n = process rt.node (submits_task spec) in
    let d : Dispatched rt.node spec n =
      process-Dispatched rt.node spec
        (one_cpu_fits rt.node.resource_manager.available name payload fresh enough) in
    rw (taken_up rt name payload fresh idle) (
      rw (to_the_end rt n rt.node.jobs spec d.extra worker_id pid now d.jobs)
        (ended_node rt n rt.node.jobs spec d.extra worker_id pid now d.object_store d.running))

pub status_at_end :
    (rt : LocalRuntime) (name : String) (payload : List ℕ) (fresh : FreshBytes) (now : ℕ)
    (done : LocalRuntime)
    → CallEnded rt (fn_spec name payload fresh) now done
    → (get_task_status done (task_id_of fresh)).0 ≡ ok TaskStatus.running
unfolding get_task_status handle_all status fn_spec
status_at_end rt name payload fresh now done c = rw (c.no_command, handle_all, c.running) refl

execute_call :
    (rt : LocalRuntime) (name : String) (f : TaskFn) (payload : List ℕ) (fresh : FreshBytes)
    (r : RayResult (List ℕ))
    → HashMap.get rt.executor.fns name ≡ some f
    → f payload ≡ returns r
    → execute rt.executor (fn_spec name payload fresh) ≡ r
unfolding execute join_blocking fn_spec
execute_call rt name f payload fresh r registered answers = rw (registered, answers) refl

write_call :
    (s : ObjectStore.InMemoryObjectStore) (name : String) (payload bytes : List ℕ)
    (fresh : FreshBytes) (now : ℕ)
    → write_result s (fn_spec name payload fresh) (ok bytes) now
      ≡ (ObjectStore.put s (return_id fresh) bytes now).1
unfolding write_result fn_spec
write_call s name payload bytes fresh now = refl

answer_written :
    (rt : LocalRuntime) (name : String) (f : TaskFn) (payload bytes : List ℕ) (fresh : FreshBytes)
    (now : ℕ) (done : LocalRuntime)
    → CallEnded rt (fn_spec name payload fresh) now done
    → HashMap.get rt.executor.fns name ≡ some f
    → f payload ≡ returns (ok bytes)
    → (nat_beq rt.node.object_store.max_memory_bytes 0
        || leb
            (total_size rt.node.object_store + length bytes)
            rt.node.object_store.max_memory_bytes)
      ≡ true
    → HashMap.get done.node.object_store.objects (return_id fresh)
      ≡ some (new_entry (return_id fresh) bytes now)
unfolding get_entry
answer_written rt name f payload bytes fresh now done c registered answers fits =
    let s = rt.node.object_store in
    let id = return_id fresh in
    let e = execute_call rt name f payload fresh (ok bytes) registered answers in
    rw (c.written, e, write_call s name payload bytes fresh now, put_within s id bytes now fits)
      (rw (commit_lem s id bytes now id, beq_refl id) refl)

-- Where a function is registered, its bytes are returned, a CPU is free, the channel is empty and
-- the result fits the budget, a call by name answers its return object at once; and when the event
-- loop takes it and its task starts and ends with nothing in between, a caller who waits for that
-- object gets the function's bytes in the first round after the end of the task, if the object was
-- missing and the deadline ahead in the rounds before. The task is still reported as running then.
pub submit_fn_delivers :
    (rt : LocalRuntime) (name : String) (f : TaskFn) (payload bytes : List ℕ) (fresh : FreshBytes)
    (worker_id : WorkerId) (pid now : ℕ) (history : ℕ → LocalRuntime) (clock : ℕ → ℕ) (start : ℕ)
    (timeout_ms : ℤ) (fuel k : ℕ)
    → rt.channel ≡ []
    → HashMap.get rt.executor.fns name ≡ some f
    → f payload ≡ returns (ok bytes)
    → pos 1 ≤ℤ Resources.get rt.node.resource_manager.available "CPU"
    → (nat_beq rt.node.object_store.max_memory_bytes 0
        || leb
            (total_size rt.node.object_store + length bytes)
            rt.node.object_store.max_memory_bytes)
      ≡ true
    → history k ≡ after_call rt name payload fresh worker_id pid now
    → k < fuel
    → Waits (rounds_of history clock) (return_id fresh) (start + as_u64 timeout_ms) 0 k
    → let done = after_call rt name payload fresh worker_id pid now in
      ((submit_fn rt name payload fresh).0 ≡ ok (return_id fresh))
      × (get_object history clock start (return_id fresh) timeout_ms fuel ≡ some (ok bytes))
      × ((get_task_status done (task_id_of fresh)).0 ≡ ok TaskStatus.running)
unfolding submit_fn submit_task send answer_id get_object rounds_of
submit_fn_delivers rt name f payload bytes fresh worker_id pid now history clock start timeout_ms
      fuel k idle registered answers enough fits here soon w =
    let done = after_call rt name payload fresh worker_id pid now in
    let c = call_ended rt name payload fresh worker_id pid now idle enough in
    (
      refl,
      found_at-get (rounds_of history clock) start (return_id fresh) timeout_ms fuel k
          (new_entry (return_id fresh) bytes now) soon w
          (rw here
            (answer_written rt name f payload bytes fresh now done c registered answers fits)),
      status_at_end rt name payload fresh now done c,
    )
