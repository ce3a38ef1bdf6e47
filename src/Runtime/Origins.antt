-- ===== src/Runtime/Origins.antt =====
-- Where the objects of a runtime (crates/ray-runtime/src/lib.rs) come from.
use mathlib.Core.Path.{subst}
use ray_rust.Common.{
  All-In_self, ℕ, ◌≡◌, refl, ap, some, List, [], ◌∷◌, inl, inr, get_elem?, All, All-append, In,
  string_eq, arith,
}
use ray_rust.Common.HashMap
use ray_rust.Common.HashMap.Laws.{insert-cases, remove-found}
use ray_rust.Core.Error.{ok_unwrap_or, ok}
use ray_rust.Core.Id
use ray_rust.Core.Id.{ObjectId, WorkerId, id_eq}
use ray_rust.ObjectStore
use ray_rust.ObjectStore.{InMemoryObjectStore, ObjectEntry, get_entry}
use ray_rust.Raylet.Executor
use ray_rust.Raylet.Executor.{
  FunctionRegistryExecutor, TaskFn, FnOutcome, returns, execute, register_fn, unregister_fn,
}
use ray_rust.Raylet.Scheduler.Tasks.{OfCommand, start_at-AllTasks, start_at-object_store}
use ray_rust.ObjectStore.Entries.{put-Unique}
use ray_rust.Common.HashMap.{Unique}
use ray_rust.Raylet.Scheduler.{Command, submit_task, cancel_task, get_status, start_node}
use ray_rust.Runtime.{
  RuntimeConfig, LocalRuntime, new, Event, submits, cancels, asks_status, awaits_status, registers,
  unregisters, puts, loops, starts, ends, step, run, send, submit_task as submits_task,
  cancel_task as cancels_task, register_function, unregister_function, put_object,
}
use ray_rust.Runtime.Traces.{
  Origin, was_put, IsSubmitted, IsTraced, answered, written-AllFrom, take_command-IsTraced,
  end_job-IsTraced, get_task_status-IsTraced,
}

module _ (es : List Event) where
  sent-IsTraced :
      (rt : LocalRuntime) (c : Command)
      → OfCommand (IsSubmitted es) c
      → IsTraced es rt
      → IsTraced es (send rt c).1
  unfolding send
  sent-IsTraced rt c h t = record {
    commands = All-append (OfCommand (IsSubmitted es)) rt.channel (c ∷ []) t.commands (h, tt);
    tasks = t.tasks;
    registries = t.registries;
    objects = t.objects;
    distinct = t.distinct;
  }

  step-IsTraced :
      (rt : LocalRuntime) (e : Event) → In e es → IsTraced es rt → IsTraced es (step rt e)
  unfolding step submits_task cancels_task send register_function unregister_function register_fn
      unregister_fn put_object
  step-IsTraced rt (submits spec) h t = sent-IsTraced rt (submit_task spec) h t
  step-IsTraced rt (cancels task_id) h t = sent-IsTraced rt (cancel_task task_id) tt t
  step-IsTraced rt (asks_status task_id) h t = sent-IsTraced rt (get_status task_id) tt t
  step-IsTraced rt (awaits_status task_id) h t = get_task_status-IsTraced es rt task_id t
  step-IsTraced rt (registers name f) h t = record {
    commands = t.commands;
    tasks = t.tasks;
    registries = (
      λ other g there. elim (insert-cases rt.executor.fns name f other g there) [
        | inl (same, same_f) ↦
            subst (λ n. In (registers n g) es) same (subst (λ k. In (registers name k) es) same_f h)
        | inr before ↦ t.registries.0 other g before
      ],
      t.registries,
    );
    objects = t.objects;
    distinct = t.distinct;
  }
  step-IsTraced rt (unregisters name) h t = record {
    commands = t.commands;
    tasks = t.tasks;
    registries = (
      λ other g there. t.registries.0 other g (remove-found rt.executor.fns name other g there),
      t.registries,
    );
    objects = t.objects;
    distinct = t.distinct;
  }
  step-IsTraced rt (puts bytes uuid_bytes now) h t =
      let s = rt.node.object_store in
      let id = Id.new _ uuid_bytes in
      let put = ObjectStore.put s id bytes now in
      rw (answered put.0 (record rt { node = record rt.node { object_store = put.1 } }) id)
        (record {
          commands = t.commands;
          tasks = record { queue = t.tasks.queue; jobs = t.tasks.jobs };
          registries = t.registries;
          objects =
              written-AllFrom es s id bytes now t.distinct t.objects
                (was_put uuid_bytes now h refl);
          distinct = put-Unique s id bytes now t.distinct;
        })
  step-IsTraced rt loops h t = take_command-IsTraced es rt rt.channel t.commands t
  step-IsTraced rt (starts i worker_id pid) h t =
      let same = start_at-object_store rt.node i (get_elem? rt.node.jobs i) worker_id pid in
      record {
        commands = t.commands;
        tasks =
            start_at-AllTasks (IsSubmitted es) rt.node i (get_elem? rt.node.jobs i) worker_id pid
              refl t.tasks;
        registries = t.registries;
        objects = rw same t.objects;
        distinct = rw same t.distinct;
      }
  step-IsTraced rt (ends i age now) h t =
      end_job-IsTraced es rt i (get_elem? rt.node.jobs i) age now refl t

  run-IsTraced :
      (rt : LocalRuntime) (later : List Event)
      → All (λ e. In e es) later
      → IsTraced es rt
      → IsTraced es (run rt later)
  unfolding run
  run-IsTraced rt [] a t = t
  run-IsTraced rt (e ∷ later) a t = run-IsTraced (step rt e) later a.1 (step-IsTraced rt e a.0 t)

-- A runtime that starts holds nothing.
new-IsTraced :
    (config : RuntimeConfig) (uuid_bytes : List ℕ) (rt : LocalRuntime) (es : List Event)
    → new config uuid_bytes ≡ ok rt
    → IsTraced es rt
unfolding new start_node ObjectStore.new Executor.new HashMap.get get_entry
new-IsTraced config uuid_bytes rt es h =
    subst (IsTraced es) (ap (λ r. ok_unwrap_or r rt) h) (record {
      commands = tt;
      tasks = record { queue = tt; jobs = tt };
      registries = (λ name f there. ground arith, tt);
      objects = λ id e there. ground arith;
      distinct = tt;
    })

-- Whatever happens in a process that starts with a new runtime and uses it through its own calls,
-- where a round of the event loop, and the wait for a status, are done with nothing in between,
-- every object of its store was put there by the client, under an identifier of fresh bytes, or is
-- the first return object of a task that the client submitted, with the bytes that a function
-- returned for the payload of that task when the client had registered it under the name of the
-- task.
pub run_objects_from :
    (config : RuntimeConfig) (uuid_bytes : List ℕ) (rt : LocalRuntime) (es : List Event)
    (id : ObjectId) (e : ObjectEntry)
    → new config uuid_bytes ≡ ok rt
    → get_entry (run rt es).node.object_store id ≡ some e
    → Origin es id e.bytes
run_objects_from config uuid_bytes rt es id e h there =
    (run-IsTraced es rt es (All-In_self es) (new-IsTraced config uuid_bytes rt es h)).objects id e
      there
