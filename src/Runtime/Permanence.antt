-- ===== src/Runtime/Permanence.antt =====
-- What becomes of the objects of a runtime (crates/ray-runtime/src/lib.rs).
use mathlib.Core.Path.{subst}
use ray_rust.Common.{
  ℕ, ◌≡◌, refl, sym, ap, ◌∙◌, ◌⊎◌, inl, inr, Option, none, some, List, [], ◌∷◌, get_elem?, ◌==◌,
  Bool-cases,
}
use ray_rust.Core.Error.{RayResult, ok, err, ok_unwrap_or}
use ray_rust.Core.Id
use ray_rust.Core.Id.{ObjectId, TaskId, id_eq}
use ray_rust.Core.Types.{TaskSpec}
use ray_rust.ObjectStore
use ray_rust.ObjectStore.{InMemoryObjectStore, ObjectEntry, get_entry, new_entry, put, commit}
use ray_rust.ObjectStore.Put.{commit_lem}
use ray_rust.ObjectStore.Entries.{AllHeld, put-held, commit-AllHeld}
use ray_rust.Raylet.Executor.{execute}
use ray_rust.Raylet.Scheduler.{Command, get_status, Job, start_node, process, write_result}
use ray_rust.Raylet.Scheduler.Tasks.{
  process-object_store, start_at-object_store, finish_at-object_store,
}
use ray_rust.Runtime.{
  RuntimeConfig, LocalRuntime, new, Event, submits, cancels, asks_status, awaits_status, registers,
  unregisters, puts, loops, starts, ends, step, run, take_command, handle_all, get_task_status,
  registry, end_job, send, submit_task as submits_task, cancel_task as cancels_task,
  register_function, unregister_function, put_object,
}
use ray_rust.Runtime.Traces.{answered}

-- What one step does to a store: nothing, or a `put`.
abbrev Follows : InMemoryObjectStore → InMemoryObjectStore → Type 0
Follows s s' =
    (s' ≡ s) ⊎ ((id : ObjectId) × (bytes : List ℕ) × (now : ℕ) × (s' ≡ (put s id bytes now).1))

write_result-Follows :
    (s : InMemoryObjectStore) (spec : TaskSpec) (result : RayResult (List ℕ)) (now : ℕ)
    → Follows s (write_result s spec result now)
unfolding write_result
write_result-Follows s spec (err e) now = inl refl
write_result-Follows s spec (ok bytes) now = first spec.return_ids refl
  where
    first :
        (ids : List ObjectId)
        → spec.return_ids ≡ ids
        → Follows s (write_result s spec (ok bytes) now)
    first [] none_asked = inl (rw (none_asked, write_result) refl)
    first (id ∷ rest) asked = inr (id, bytes, now, rw (asked, write_result) refl)

end_job-Follows :
    (rt : LocalRuntime) (i : ℕ) (found : Option Job) (age now : ℕ)
    → Follows rt.node.object_store (end_job rt i found age now).node.object_store
unfolding end_job
end_job-Follows rt i none age now = inl refl
end_job-Follows rt i (some job) age now =
    let result = execute (registry rt age) job.spec in
    elim (finish_at-object_store rt.node i job result now) [
      | inl same ↦ inl same
      | inr written ↦
          subst (λ s. Follows rt.node.object_store s) (sym written)
            (write_result-Follows rt.node.object_store job.spec result now)
    ]

take_command-Follows :
    (rt : LocalRuntime) (cs : List Command)
    → Follows rt.node.object_store (take_command rt cs).node.object_store
unfolding take_command
take_command-Follows rt [] = inl refl
take_command-Follows rt (c ∷ rest) = inl (process-object_store rt.node c)

handle_all-object_store :
    (rt : LocalRuntime) (cs : List Command)
    → (handle_all rt cs).node.object_store ≡ rt.node.object_store
unfolding handle_all
handle_all-object_store rt [] = refl
handle_all-object_store rt (c ∷ rest) =
    handle_all-object_store (record rt { node = process rt.node c }) rest
    ∙ process-object_store rt.node c

get_task_status-object_store :
    (rt : LocalRuntime) (task_id : TaskId)
    → (get_task_status rt task_id).1.node.object_store ≡ rt.node.object_store
unfolding get_task_status
get_task_status-object_store rt task_id =
    process-object_store (handle_all rt rt.channel).node (get_status task_id)
    ∙ handle_all-object_store rt rt.channel

step-Follows :
    (rt : LocalRuntime) (e : Event) → Follows rt.node.object_store (step rt e).node.object_store
unfolding step submits_task cancels_task send register_function unregister_function put_object
step-Follows rt (submits spec) = inl refl
step-Follows rt (cancels task_id) = inl refl
step-Follows rt (asks_status task_id) = inl refl
step-Follows rt (awaits_status task_id) = inl (get_task_status-object_store rt task_id)
step-Follows rt (registers name f) = inl refl
step-Follows rt (unregisters name) = inl refl
step-Follows rt (puts bytes uuid_bytes now) =
    let id = Id.new _ uuid_bytes in
    let made = put rt.node.object_store id bytes now in
    inr (
      id,
      bytes,
      now,
      ap (λ r. r.node.object_store)
          (answered made.0 (record rt { node = record rt.node { object_store = made.1 } }) id),
    )
step-Follows rt loops = take_command-Follows rt rt.channel
step-Follows rt (starts i worker_id pid) =
    inl (start_at-object_store rt.node i (get_elem? rt.node.jobs i) worker_id pid)
step-Follows rt (ends i age now) = end_job-Follows rt i (get_elem? rt.node.jobs i) age now

abbrev IsStored : InMemoryObjectStore → ObjectId → Type 0
IsStored s id = (e : ObjectEntry) × (get_entry s id ≡ some e)

commit-IsStored :
    (s : InMemoryObjectStore) (id other : ObjectId) (bytes : List ℕ) (now : ℕ)
    → IsStored s id
    → IsStored (commit s other bytes now) id
commit-IsStored s id other bytes now (e, there) = elim (Bool-cases (other == id)) [
  | inl same ↦ (new_entry other bytes now, commit_lem s other bytes now id ∙ rw same refl)
  | inr differs ↦ (e, commit_lem s other bytes now id ∙ rw differs there)
]

Follows-keeps :
    (s s' : InMemoryObjectStore) (id : ObjectId)
    → Follows s s'
    → AllHeld s
    → AllHeld s' × (IsStored s id → IsStored s' id)
Follows-keeps s s' id (inl same) h = rw same (h, λ x. x)
Follows-keeps s s' id (inr (other, bytes, now, e)) h =
    subst (λ t. AllHeld t × (IsStored s id → IsStored t id)) (sym e)
      (elim (put-held s other bytes now h) [
        | inl same ↦ rw same (h, λ x. x)
        | inr written ↦
            rw written (commit-AllHeld s other bytes now h, commit-IsStored s id other bytes now)
      ])

run-keeps :
    (rt : LocalRuntime) (es : List Event) (id : ObjectId)
    → AllHeld rt.node.object_store
    → let s = (run rt es).node.object_store in
      AllHeld s × (IsStored rt.node.object_store id → IsStored s id)
unfolding run
run-keeps rt [] id h = (h, λ x. x)
run-keeps rt (e ∷ es) id h =
    let (h', kept) =
      Follows-keeps rt.node.object_store (step rt e).node.object_store id (step-Follows rt e) h in
    let (h'', kept') = run-keeps (step rt e) es id h' in (h'', λ x. kept' (kept x))

new-AllHeld :
    (config : RuntimeConfig) (uuid_bytes : List ℕ) (rt : LocalRuntime)
    → new config uuid_bytes ≡ ok rt
    → AllHeld rt.node.object_store
unfolding new start_node ObjectStore.new
new-AllHeld config uuid_bytes rt h =
    subst (λ r. AllHeld r.node.object_store) (ap (λ r. ok_unwrap_or r rt) h) tt

-- In a process that starts with a new runtime and uses it through its own calls, where a round of
-- the event loop, and the wait for a status, are done with nothing in between, an object that is in
-- the store at some time is there at every later time, also when its budget is short: no object is
-- ever evicted or lost.
pub objects_stay :
    (config : RuntimeConfig) (uuid_bytes : List ℕ) (rt : LocalRuntime) (es later : List Event)
    (id : ObjectId) (e : ObjectEntry)
    → new config uuid_bytes ≡ ok rt
    → get_entry (run rt es).node.object_store id ≡ some e
    → (e' : ObjectEntry) × (get_entry (run (run rt es) later).node.object_store id ≡ some e')
objects_stay config uuid_bytes rt es later id e h there =
    let (held, _) = run-keeps rt es id (new-AllHeld config uuid_bytes rt h) in
    (run-keeps (run rt es) later id held).1 (e, there)
