-- ===== src/Lib.antt =====
-- A verification library for ray_rust, a small Ray: a control store, a daemon with a scheduler on
-- each node, and a store of immutable objects that tasks read and write. A client submits tasks;
-- the daemon's scheduler allocates resources for them, runs them on workers and writes their
-- results to the object store; the global scheduler chooses nodes from the views that heartbeats
-- bring to the control store.
--
-- Which file models which part:
-- - Common: Boolean tests, lists and integers over the native numbers, cells, decimal digits,
--   equality of keys, and `HashMap` as an association list with distinct keys, with the laws of
--   lookup.
-- - Core models crates/ray-core: Id (id.rs), Resources (resource.rs), Serialize (serialize.rs),
--   Error (error.rs), Types (the data of traits.rs), Proto (proto/common.proto), Convert
--   (proto_conv.rs), and Status (the part of a gRPC status that the servers build).
-- - ObjectStore models crates/ray-object-store: the file itself has the calls of store.rs that take
--   no time, Polling its loops `get` and `wait`, Disk its spilling; Server and Server/Info have the
--   handlers of server.rs, and SharedMemory the regions and the pool of shared_memory.rs. Budget,
--   Interleaving, References, Counting, Put, Entries, Polling/Total, Polling/Wait, Polling/Found,
--   Disk/RoundTrip, Disk/Stale, Server/Batches, SharedMemory/Names and SharedMemory/Regions have
--   the theorems.
-- - Raylet models crates/ray-raylet: ResourceManager (resource_manager.rs), Worker (worker.rs),
--   Executor (executor.rs), Scheduler (scheduler.rs) and Server (server.rs), each with its theorems
--   below it.
-- - Scheduling models crates/ray-scheduler: Policy (policy.rs) and Global (global.rs); Selection
--   has the contract of a policy and Placement what it means for the scheduler.
-- - Gcs models crates/ray-gcs: Interface (the trait `GcsStore` of crates/ray-core/src/traits.rs),
--   Store (store.rs), Messages (proto/gcs.proto), Translate and Server (server.rs, over any
--   backend); Nodes, Heartbeat, Lifecycle and Dead have the theorems.
-- - Runtime models crates/ray-runtime (lib.rs), the runtime of one process: its methods over the
--   node of Raylet/Scheduler, the executor, the object store and the channel of commands. Delivery,
--   Failure, Origins and Permanence have the theorems, and Traces what Origins carries through a
--   run.
-- - Python models crates/ray-py (runtime.rs), the functions and classes of the Python module over
--   its global cells; Objects and Lifecycle have the theorems.
-- - The modules Tests have the theorems at concrete values.
--
-- How the code is modelled:
-- - State is passed explicitly: a method takes the state and gives its answer with the state that
--   it leaves. A method that is one section under a lock is one step. Where the source releases a
--   lock in the middle, the parts have names of their own, so that they can be interleaved: the two
--   halves of `put` (`admit`, `commit`), the scan of `get_worker` (Raylet/Worker/Race), the read
--   and the write of a heartbeat, and the part of a spill that writes the file and marks the entry
--   (`spill_file`). A run of calls of the object store (`Call`) has no spill and no restore.
-- - A result is `RayResult`, whose error is the variant without its text; a handler's is `Reply`.
-- - A quantity of a resource is an `f64` in the source and an integer here: the runtime writes
--   whole numbers, on which `f64` is exact up to 2^53. The numbers of a message that no code
--   computes with are integers too. The reference count is a `u32` that wraps as in a release
--   build, and the casts `as u64` and `as i32` are written out.
-- - A `HashMap` is an association list; its order, which the source leaves open, is the order of
--   insertion. What depends on the order, such as which of two equal nodes is placed, is not
--   claimed.
-- - The clock, random identifiers and the answers of closures are arguments. The file system is an
--   interface with the one law that a file just written reads back; the package shared_memory is
--   one with the laws that a segment is at least as long as asked for and shows the bytes that were
--   written last; bincode and serde_json are functions that may fail.
-- - A call that may panic gives an `Outcome`. The addition of an offset and a length is modelled
--   with overflow checks and without. A slice that goes beyond a mapping is no value.
-- - The polling loops look at the store every ten milliseconds. What other tasks do in between is a
--   schedule of rounds, each with the objects that are seen and the time. The loops take fuel, one
--   unit for each round; a tenth of the timeout and two more are enough when each round takes ten
--   milliseconds or more.
-- - In the runtime of one process the channel of commands is a queue, of which the event loop takes
--   the oldest; the function of a task is looked up in the registry as it is or as it was before,
--   since the registry may change while the task runs, and is called when the task ends. Each round
--   of its event loop handles a command and drains the queue at once. The call `get_task_status` is
--   an event twice: as its question alone, which the event loop answers in a later round, and as
--   the whole call, in which the event loop first handles all that is in the channel. In the Python
--   module a call holds the interpreter lock while it waits, so that the store does not change in
--   between.
-- - The event loop of the node's scheduler handles a command and drains its queue before it takes
--   the next one. A node's history is a list of events: a command, a dispatched task that asks for
--   a worker, one that ends with whatever result its executor gave, and a lease. There a release by
--   a task that ends while the queue is drained comes before or after the drain;
--   Raylet/Scheduler/Steps has the event loop in single steps, between which tasks end and leases
--   are granted.
--
-- What is not modelled:
-- - The transport (tonic, tokio channels, `serve`), logging, and the text of errors and of Debug
--   and Display: they carry or print what the handlers compute.
-- - What a client of the runtime does to the parts that its accessors (`gcs`, `object_store` and
--   the others) hand out, past the runtime's own calls.
-- - The registration of names with pyo3, the hash of a reference, build scripts, examples and
--   tests.
mod Common
pub mod Core
pub mod ObjectStore
pub mod Raylet
pub mod Scheduling
pub mod Gcs
pub mod Runtime
pub mod Python
