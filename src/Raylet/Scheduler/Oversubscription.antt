-- ===== src/Raylet/Scheduler/Oversubscription.antt =====
-- The books of a node (crates/ray-raylet/src/scheduler.rs) over a whole run.
use ray_rust.Common.{
  String, ◌≡◌, refl, sym, ap, ◌∙◌, List, [], ◌∷◌, ◌++◌, get_elem?, string_eq, All,
}
use ray_rust.Common.Int.{pos, ◌+ℤ◌, ◌≤ℤ◌}
use ray_rust.Core.Resources
use ray_rust.Core.Resources.{Resources}
use ray_rust.ObjectStore.{InMemoryObjectStore}
use ray_rust.Raylet.ResourceManager
use ray_rust.Raylet.ResourceManager.{ResourceManager, try_allocate, release}
use ray_rust.Raylet.ResourceManager.Ledger.{holding, new-Balanced, NonNegative, holding-le-total}
use ray_rust.Raylet.Scheduler.{
  Node, start_node, Event, commands, starts, finishes, leases, step, run,
}
use ray_rust.Raylet.Scheduler.Books.{
  IsFairEvent, required_by, add_lease, leases_after, IsSound, process-IsSound,
}
use ray_rust.Raylet.Worker.{WorkerPool}
use ray_rust.Raylet.Scheduler.Jobs.{start_at-IsSound, finish_at-IsSound, lease-IsSound}

step-IsSound :
    (total : Resources) (held : List Resources) (n : Node) (e : Event)
    → IsSound total held n
    → IsFairEvent e
    → IsSound total (add_lease held n e) (step n e)
unfolding step
step-IsSound total held n (commands c) s fair = process-IsSound total held n c s fair
step-IsSound total held n (starts i worker_id pid) s fair =
    start_at-IsSound total held n i (get_elem? n.jobs i) worker_id pid refl s
step-IsSound total held n (finishes i result now) s fair =
    finish_at-IsSound total held n i (get_elem? n.jobs i) result now refl s
step-IsSound total held n (leases required) s fair = lease-IsSound total held n required s fair

run-IsSound :
    (total : Resources) (held : List Resources) (n : Node) (es : List Event)
    → IsSound total held n
    → All IsFairEvent es
    → IsSound total (leases_after held n es) (run n es)
unfolding run
run-IsSound total held n [] s fair = s
run-IsSound total held n (e ∷ es) s fair =
    run-IsSound total (add_lease held n e) (step n e) es (step-IsSound total held n e s fair.0)
      fair.1

pub start-IsSound :
    (total : Resources) (p : WorkerPool) (o : InMemoryObjectStore)
    → NonNegative total
    → IsSound total [] (start_node (ResourceManager.new total) p o)
unfolding start_node ResourceManager.new
start-IsSound total p o h = record {
  same_total = refl;
  balanced = new-Balanced total;
  nonneg = h;
  jobs_fair = tt;
  queue_fair = tt;
}

pub summary :
    (total : Resources) (held : List Resources) (n : Node) (name : String)
    → IsSound total held n
    → (n.resource_manager.total ≡ total)
      × (Resources.get total name
          ≡ Resources.get n.resource_manager.available name
            +ℤ holding name (held ++ required_by n.jobs))
      × (pos 0 ≤ℤ Resources.get n.resource_manager.available name)
      × (holding name (held ++ required_by n.jobs) ≤ℤ Resources.get total name)
summary total held n name s = (
  s.same_total,
  ap (λ t. Resources.get t name) (sym s.same_total) ∙ s.balanced name,
  s.nonneg name,
  rw (ap (λ t. Resources.get t name) (sym s.same_total))
      (holding-le-total n.resource_manager (held ++ required_by n.jobs) s.balanced s.nonneg name),
)

-- However commands, task starts, task ends and leases follow each other on a node, with requests
-- that have distinct names and no negative quantity: the total stays what it was; for every
-- resource, what is available and what the leases and the dispatched tasks hold add up to it;
-- nothing negative is available; and so what is held is never more than the total.
pub no_oversubscription :
    (total : Resources) (p : WorkerPool) (o : InMemoryObjectStore) (es : List Event) (name : String)
    → NonNegative total
    → All IsFairEvent es
    → let start = start_node (ResourceManager.new total) p o in
      let n = run start es in
      let held = leases_after [] start es ++ required_by n.jobs in
      (n.resource_manager.total ≡ total)
      × (Resources.get total name
          ≡ Resources.get n.resource_manager.available name +ℤ holding name held)
      × (pos 0 ≤ℤ Resources.get n.resource_manager.available name)
      × (holding name held ≤ℤ Resources.get total name)
no_oversubscription total p o es name h fair =
    let start = start_node (ResourceManager.new total) p o in
    summary total (leases_after [] start es) (run start es) name
      (run-IsSound total [] start es (start-IsSound total p o h) fair)
