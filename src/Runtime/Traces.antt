-- ===== src/Runtime/Traces.antt =====
-- What a runtime (crates/ray-runtime/src/lib.rs) holds, and the events that it comes from.
use ray_rust.Common.{
  ℕ, ◌≡◌, refl, String, Option, some, none, List, [], ◌∷◌, inl, inr, get_elem?, All, All-get, In,
  string_eq,
}
use ray_rust.Common.Cells.{All-get_or}
use ray_rust.Common.HashMap
use ray_rust.Core.Error.{RayResult, RayResult-cases, ok, err}
use ray_rust.Core.Id
use ray_rust.Core.Id.{ObjectId, TaskId, WorkerId, id_eq}
use ray_rust.Core.Types.{TaskSpec}
use ray_rust.ObjectStore
use ray_rust.ObjectStore.{InMemoryObjectStore, ObjectEntry, get_entry}
use ray_rust.Raylet.Executor.{FunctionRegistryExecutor, TaskFn, returns, execute}
use ray_rust.Raylet.Executor.Laws.{executed}
use ray_rust.Raylet.Scheduler.Tasks.{
  AllTasks, OfCommand, process-AllTasks, finish_at-AllTasks, process-object_store,
  finish_at-object_store,
}
use ray_rust.ObjectStore.Entries.{put-entries, put-Unique}
use ray_rust.Common.HashMap.{Unique}
use ray_rust.Raylet.Scheduler.{write_result, process, Command, get_status, Job}
use ray_rust.Runtime.{
  LocalRuntime, Event, submits, registers, puts, take_command, handle_all, get_task_status,
  registry, end_job, answer_id,
}

-- An object was put by the client, or it is the first return object of a submitted task, with the
-- bytes that a function gave which was registered under the name of the task.
pub data Origin (es : List Event) (id : ObjectId) (bytes : List ℕ) : Type 0 where
  was_put :
      (uuid_bytes : List ℕ) (now : ℕ)
      → In (puts bytes uuid_bytes now) es
      → id ≡ Id.new 28 uuid_bytes
      → Origin es id bytes
  was_returned :
      (spec : TaskSpec) (rest : List ObjectId) (f : TaskFn)
      → In (submits spec) es
      → In (registers spec.function_name f) es
      → spec.return_ids ≡ id ∷ rest
      → f spec.function_payload ≡ returns (ok bytes)
      → Origin es id bytes

abbrev pub IsSubmitted : List Event → TaskSpec → Type 0
IsSubmitted es spec = In (submits spec) es

abbrev pub AllFrom : List Event → InMemoryObjectStore → Type 0
AllFrom es s = (id : ObjectId) (e : ObjectEntry) → get_entry s id ≡ some e → Origin es id e.bytes

-- Every function of a registry was registered.
abbrev pub Knows : List Event → FunctionRegistryExecutor → Type 0
Knows es x =
    (name : String) (f : TaskFn) → HashMap.get x.fns name ≡ some f → In (registers name f) es

-- All that a runtime holds comes from the events `es`.
pub record IsTraced (es : List Event) (rt : LocalRuntime) : Type 0 where
  pub commands : All (OfCommand (IsSubmitted es)) rt.channel
  pub tasks : AllTasks (IsSubmitted es) rt.node
  pub registries : All (Knows es) (rt.executor ∷ rt.earlier)
  pub objects : AllFrom es rt.node.object_store
  pub distinct : Unique rt.node.object_store.objects

pub answered :
    (r : RayResult (Unit {0})) (rt : LocalRuntime) (id : ObjectId) → (answer_id (r, rt) id).1 ≡ rt
unfolding answer_id
answered (ok _) rt id = refl
answered (err e) rt id = refl

module _ (es : List Event) where
  pub written-AllFrom :
      (s : InMemoryObjectStore) (id : ObjectId) (bytes : List ℕ) (now : ℕ)
      → Unique s.objects
      → AllFrom es s
      → Origin es id bytes
      → AllFrom es (ObjectStore.put s id bytes now).1
  written-AllFrom s id bytes now u a o j e h = elim (put-entries s id bytes now j e u h) [
    | inl before ↦ a j e before
    | inr (same, bs) ↦ rw (same, bs) o
  ]

  -- What the end of a task writes, if anything.
  result-AllFrom :
      (x : FunctionRegistryExecutor) (s : InMemoryObjectStore) (spec : TaskSpec) (now : ℕ)
      → ((f : TaskFn)
          → HashMap.get x.fns spec.function_name ≡ some f
          → In (registers spec.function_name f) es)
      → IsSubmitted es spec
      → Unique s.objects
      → AllFrom es s
      → let s' = write_result s spec (execute x spec) now in AllFrom es s' × Unique s'.objects
  unfolding write_result
  result-AllFrom x s spec now known sent u a = elim (RayResult-cases (execute x spec)) [
    | inr (e, failed) ↦ rw failed (a, u)
    | inl (bytes, done) ↦ rw done (returned spec.return_ids refl bytes done)
  ]
    where
      returned :
          (ids : List ObjectId)
          → spec.return_ids ≡ ids
          → (bytes : List ℕ) → execute x spec ≡ ok bytes
          → let s' = write_result s spec (ok bytes) now in AllFrom es s' × Unique s'.objects
      returned [] none_asked bytes done = rw (none_asked, write_result) (a, u)
      returned (id ∷ rest) asked bytes done =
          let (f, there, gives) = executed x spec bytes done in
          rw (asked, write_result)
            (
              written-AllFrom s id bytes now u a
                  (was_returned spec rest f sent (known f there) asked gives),
              put-Unique s id bytes now u,
            )

  pub take_command-IsTraced :
      (rt : LocalRuntime) (cs : List Command)
      → All (OfCommand (IsSubmitted es)) cs
      → IsTraced es rt
      → IsTraced es (take_command rt cs)
  unfolding take_command
  take_command-IsTraced rt [] a t = t
  take_command-IsTraced rt (c ∷ rest) a t =
      let same = process-object_store rt.node c in
      record {
        commands = a.1;
        tasks = process-AllTasks (IsSubmitted es) rt.node c t.tasks a.0;
        registries = t.registries;
        objects = rw same t.objects;
        distinct = rw same t.distinct;
      }

  -- A command that comes from the events and is handled at once.
  handled :
      (rt : LocalRuntime) (c : Command)
      → OfCommand (IsSubmitted es) c
      → IsTraced es rt
      → IsTraced es (record rt { node = process rt.node c })
  handled rt c h t =
      let same = process-object_store rt.node c in
      record {
        commands = t.commands;
        tasks = process-AllTasks (IsSubmitted es) rt.node c t.tasks h;
        registries = t.registries;
        objects = rw same t.objects;
        distinct = rw same t.distinct;
      }

  handle_all-IsTraced :
      (rt : LocalRuntime) (cs : List Command)
      → All (OfCommand (IsSubmitted es)) cs
      → IsTraced es rt
      → IsTraced es (handle_all rt cs)
  unfolding handle_all
  handle_all-IsTraced rt [] a t = record {
    commands = tt;
    tasks = t.tasks;
    registries = t.registries;
    objects = t.objects;
    distinct = t.distinct;
  }
  handle_all-IsTraced rt (c ∷ rest) a t =
      handle_all-IsTraced (record rt { node = process rt.node c }) rest a.1 (handled rt c a.0 t)

  pub get_task_status-IsTraced :
      (rt : LocalRuntime) (task_id : TaskId)
      → IsTraced es rt
      → IsTraced es (get_task_status rt task_id).1
  unfolding get_task_status
  get_task_status-IsTraced rt task_id t =
      handled (handle_all rt rt.channel) (get_status task_id) tt
        (handle_all-IsTraced rt rt.channel t.commands t)

  registry-Knows : (rt : LocalRuntime) (age : ℕ) → IsTraced es rt → Knows es (registry rt age)
  unfolding registry
  registry-Knows rt age t =
      All-get_or (Knows es) (rt.executor ∷ rt.earlier) age rt.executor t.registries t.registries.0

  pub end_job-IsTraced :
      (rt : LocalRuntime) (i : ℕ) (found : Option Job) (age now : ℕ)
      → get_elem? rt.node.jobs i ≡ found
      → IsTraced es rt
      → IsTraced es (end_job rt i found age now)
  unfolding end_job
  end_job-IsTraced rt i none age now h t = t
  end_job-IsTraced rt i (some job) age now h t =
      let x = registry rt age in
      let result = execute x job.spec in
      let sent = All-get (λ j. IsSubmitted es j.spec) rt.node.jobs i job t.tasks.jobs h in
      let (a, u) =
        result-AllFrom x rt.node.object_store job.spec now
          (registry-Knows rt age t job.spec.function_name) sent t.distinct t.objects in
      let tasks = finish_at-AllTasks (IsSubmitted es) rt.node i (some job) result now t.tasks in
      elim (finish_at-object_store rt.node i job result now) [
        | inl same ↦ record {
          commands = t.commands;
          tasks = tasks;
          registries = t.registries;
          objects = rw same t.objects;
          distinct = rw same t.distinct;
        }
        | inr written ↦ record {
          commands = t.commands;
          tasks = tasks;
          registries = t.registries;
          objects = rw written a;
          distinct = rw written u;
        }
      ]
