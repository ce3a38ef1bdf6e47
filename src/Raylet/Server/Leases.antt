-- ===== src/Raylet/Server/Leases.antt =====
-- The lease handlers of crates/ray-raylet/src/server.rs.
use ray_rust.Common.{String, ◌≡◌, refl, true, Option, string_eq}
use ray_rust.Common.Int.{◌-ℤ◌}
use ray_rust.Core.Id.{NodeId}
use ray_rust.Core.Proto.{ProtoResources}
use ray_rust.Core.Resources
use ray_rust.Core.Resources.{Resources}
use ray_rust.Core.Resources.Laws.{IsProper, subtract_exact}
use ray_rust.Raylet.ResourceManager.{try_allocate}
use ray_rust.Raylet.Scheduler.{Node}
use ray_rust.Raylet.Server.{lease_request, lease_reply, request_worker_lease, release_worker_lease}

-- A lease request with distinct names that fits is fulfilled, and after the lease is released, what
-- it took is still missing from what is available.
pub lease_is_kept :
    (node_id : NodeId) (n : Node) (request : Option ProtoResources) (name : String)
    → IsProper (lease_request request)
    → Resources.can_satisfy n.resource_manager.available (lease_request request) ≡ true
    → let r = request_worker_lease node_id n request in
      (r.0 ≡ lease_reply node_id true)
      × (Resources.get (release_worker_lease r.1).1.resource_manager.available name
          ≡ Resources.get n.resource_manager.available name
            -ℤ Resources.get (lease_request request) name)
unfolding request_worker_lease release_worker_lease try_allocate
lease_is_kept node_id n request name proper fits =
    rw fits
      (refl, subtract_exact n.resource_manager.available (lease_request request) name proper fits)
