-- ===== src/Scheduling/Placement.antt =====
-- `schedule_task` of crates/ray-scheduler/src/global.rs over any view that its calls build.
use mathlib.Core.Path.{subst}
use ray_rust.Common.{
  ◌≡◌, refl, sym, ap, true, none, some, List, [], ◌∷◌, keep, ◌⊎◌, inl, inr, All, All-map, In,
  All-In, In-keep, All-keep_inv, arith,
}
use ray_rust.Common.HashMap
use ray_rust.Common.HashMap.{HashMap, Unique}
use ray_rust.Common.HashMap.Laws.{Unique-insert, Unique-remove}
use ray_rust.Core.Error.{RayResult, ok, err, insufficient_resources, scheduling_failed, ◌>>=◌}
use ray_rust.Core.Id.{NodeId, id_eq}
use ray_rust.Core.Types.{TaskSpec}
use ray_rust.Scheduling.Policy.{NodeView, SchedulingPolicy, spread_policy, pack_policy}
use ray_rust.Scheduling.Global.{
  GlobalScheduler, new, with_default_policy, update_node, remove_node, alive_nodes, select,
  schedule_task, Call, updates, removes, step, run,
}
use ray_rust.Scheduling.Selection.{
  Fits, Preference, Selection, Chooses, LessCpu, MoreCpu, spread-Chooses, pack-Chooses,
}

-- Every view stands under its own identifier, and once.
abbrev IsKeyed : HashMap NodeId NodeView → Type 0
IsKeyed m = Unique m × All (λ e. e.0 ≡ e.1.node_id) m

insert-keys :
    (m : HashMap NodeId NodeView) (v : NodeView)
    → All (λ e. e.0 ≡ e.1.node_id) m
    → All (λ e. e.0 ≡ e.1.node_id) (HashMap.insert m v.node_id v)
unfolding HashMap.insert
insert-keys [] v h = (refl, tt)
insert-keys ((k, w) ∷ m) v h = ground (arith, id_eq.beq_iff k v.node_id, insert-keys m v h.1)

remove-keys :
    (m : HashMap NodeId NodeView) (k : NodeId)
    → All (λ e. e.0 ≡ e.1.node_id) m
    → All (λ e. e.0 ≡ e.1.node_id) (HashMap.remove m k)
unfolding HashMap.remove
remove-keys [] k h = tt
remove-keys ((j, w) ∷ m) k h = ground (arith, remove-keys m k h.1)

found-head :
    (m : HashMap NodeId NodeView) (k : NodeId) (w : NodeView)
    → k ≡ w.node_id
    → HashMap.get ((k, w) ∷ m) w.node_id ≡ some w
unfolding HashMap.get
found-head m k w e = ground (arith, id_eq.beq_iff k w.node_id)

found-tail :
    (m : HashMap NodeId NodeView) (k : NodeId) (w : NodeView)
    → HashMap.get m k ≡ none
    → (v : NodeView) → HashMap.get m v.node_id ≡ some v
    → HashMap.get ((k, w) ∷ m) v.node_id ≡ some v
unfolding HashMap.get
found-tail m k w missing v found = ground (arith, id_eq.beq_iff k v.node_id, ap (HashMap.get m))

-- The views are found under their identifiers.
values-found :
    (m : HashMap NodeId NodeView)
    → IsKeyed m
    → All (λ v. HashMap.get m v.node_id ≡ some v) (HashMap.values m)
values-found [] h = tt
values-found ((k, w) ∷ m) h = (
  found-head m k w h.1.0,
  All-map (λ v. HashMap.get m v.node_id ≡ some v) _ (HashMap.values m) (found-tail m k w h.0.0)
      (values-found m (h.0.1, h.1.1)),
)

run-IsKeyed : (g : GlobalScheduler) (cs : List Call) → IsKeyed g.nodes → IsKeyed (run g cs).nodes
unfolding run step update_node remove_node
run-IsKeyed g [] h = h
run-IsKeyed g (updates v ∷ cs) h =
    run-IsKeyed (update_node g v) cs
      (Unique-insert g.nodes v.node_id v h.0, insert-keys g.nodes v h.1)
run-IsKeyed g (removes k ∷ cs) h =
    run-IsKeyed (remove_node g k) cs (Unique-remove g.nodes k h.0, remove-keys g.nodes k h.1)

-- A placement: an alive node of the view that fits the task, no better one being alive; or the error
-- that says what is missing.
abbrev pub Placement : Preference → GlobalScheduler → TaskSpec → RayResult NodeId → Type 0
Placement better g task r =
    ((v : NodeView) × (r ≡ ok v.node_id)
      × (HashMap.get g.nodes v.node_id ≡ some v)
      × (v.is_alive ≡ true)
      × Fits v task.required_resources
      × All (λ n. n.is_alive ≡ true → Fits n task.required_resources → better n v)
          (HashMap.values g.nodes))
    ⊎ ((r ≡ err insufficient_resources)
        × ((n : NodeView) × In n (HashMap.values g.nodes) × (n.is_alive ≡ true))
        × All (λ n. n.is_alive ≡ true → ¬ Fits n task.required_resources) (HashMap.values g.nodes))
    ⊎ ((r ≡ err scheduling_failed) × All (λ n. ¬ (n.is_alive ≡ true)) (HashMap.values g.nodes))

none_alive :
    (better : Preference) (g : GlobalScheduler) (task : TaskSpec)
    → keep (λ n. n.is_alive) (HashMap.values g.nodes) ≡ []
    → Placement better g task (err scheduling_failed)
none_alive better g task e = inr (
    inr (
      refl,
      All-keep_inv (λ _. ⊥) (λ n. n.is_alive) (HashMap.values g.nodes)
          (subst (λ l. All (λ _. ⊥) l) (sym e) tt),
    ))

-- What a policy selects from the alive nodes is a placement.
placed :
    (better : Preference) (g : GlobalScheduler) (task : TaskSpec) (n : NodeView)
    (ns : List NodeView) (r : RayResult NodeView)
    → IsKeyed g.nodes
    → keep (λ k. k.is_alive) (HashMap.values g.nodes) ≡ n ∷ ns
    → Selection better (n ∷ ns) task.required_resources r
    → Placement better g task (r >>= (λ v. ok v.node_id))
placed better g task n ns r keyed e (inl (v, h, there, fits, best)) =
    let (up, found) =
      In-keep (λ k. k.is_alive) (HashMap.values g.nodes) v (subst (λ l. In v l) (sym e) there) in
    inl (
      v,
      rw h refl,
      All-In (λ k. HashMap.get g.nodes k.node_id ≡ some k) (HashMap.values g.nodes) v
          (values-found g.nodes keyed) found,
      up,
      fits,
      All-keep_inv (λ k. Fits k task.required_resources → better k v) (λ k. k.is_alive)
          (HashMap.values g.nodes)
          (subst (λ l. All (λ k. Fits k task.required_resources → better k v) l) (sym e) best),
    )
placed better g task n ns r keyed e (inr (h, none_fits)) =
    let (up, found) =
      In-keep (λ k. k.is_alive) (HashMap.values g.nodes) n
        (subst (λ l. In n l) (sym e) (inl refl)) in
    inr (
      inl (
        rw h refl,
        (n, found, up),
        All-keep_inv (λ k. ¬ Fits k task.required_resources) (λ k. k.is_alive)
            (HashMap.values g.nodes)
            (subst (λ l. All (λ k. ¬ Fits k task.required_resources) l) (sym e) none_fits),
      ))

-- A scheduler with a policy that keeps its contract places tasks by it.
schedule_task_lem :
    (better : Preference) (g : GlobalScheduler) (task : TaskSpec)
    → IsKeyed g.nodes
    → Chooses better g.policy
    → Placement better g task (schedule_task g task)
unfolding schedule_task alive_nodes select
schedule_task_lem better g task keyed chooses =
    cases (keep (λ n. n.is_alive) (HashMap.values g.nodes)) refl
  where
    cases :
        (l : List NodeView)
        → keep (λ n. n.is_alive) (HashMap.values g.nodes) ≡ l
        → Placement better g task (select g.policy l task)
    cases [] e = none_alive better g task e
    cases (n ∷ ns) e =
        placed better g task n ns (g.policy.select_node (n ∷ ns) task.required_resources) keyed e
          (chooses (n ∷ ns) task.required_resources)

run-policy : (g : GlobalScheduler) (cs : List Call) → (run g cs).policy ≡ g.policy
unfolding run step update_node remove_node
run-policy g [] = refl
run-policy g (updates v ∷ cs) = run-policy (update_node g v) cs
run-policy g (removes k ∷ cs) = run-policy (remove_node g k) cs

new-IsKeyed : (policy : SchedulingPolicy) → IsKeyed (new policy).nodes
unfolding new
new-IsKeyed policy = (tt, tt)

-- Whatever nodes were reported and removed, the default scheduler answers the identifier of an
-- alive node of its view that fits the task and has the most CPU available among the alive nodes
-- that fit; it answers `InsufficientResources` when nodes are alive and none of them fits, and
-- `SchedulingFailed` when none is alive.
pub spread_places :
    (cs : List Call) (task : TaskSpec)
    → let g = run with_default_policy cs in Placement LessCpu g task (schedule_task g task)
unfolding with_default_policy new
spread_places cs task =
    let g = run with_default_policy cs in
    schedule_task_lem LessCpu g task
      (run-IsKeyed with_default_policy cs (new-IsKeyed spread_policy))
      (subst (λ p. Chooses LessCpu p) (sym (run-policy with_default_policy cs)) spread-Chooses)

-- Whatever nodes were reported and removed, a scheduler with the pack policy answers the identifier
-- of an alive node of its view that fits the task and has the least CPU available among the alive
-- nodes that fit; it answers `InsufficientResources` when nodes are alive and none of them fits,
-- and `SchedulingFailed` when none is alive.
pub pack_places :
    (cs : List Call) (task : TaskSpec)
    → let g = run (new pack_policy) cs in Placement MoreCpu g task (schedule_task g task)
unfolding new
pack_places cs task =
    let g = run (new pack_policy) cs in
    schedule_task_lem MoreCpu g task (run-IsKeyed (new pack_policy) cs (new-IsKeyed pack_policy))
      (subst (λ p. Chooses MoreCpu p) (sym (run-policy (new pack_policy) cs)) pack-Chooses)
