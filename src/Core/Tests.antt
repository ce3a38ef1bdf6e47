-- ===== src/Core/Tests.antt =====
-- The theorems about the core types at concrete values.
use ray_rust.Common.{
  ℕ, List, ◌+◌, ◌-◌, ◌^◌, leb, ltb, length, false, if◌then◌else◌, arith, ◌≡◌, refl, [], ◌∷◌,
  replicate, string_eq, true,
}
use ray_rust.Common.Int.{pos, negsuc}
use ray_rust.Common.HashMap
use ray_rust.Core.Convert.{task_spec_from_proto, task_spec_to_proto}
use ray_rust.Core.Convert.RoundTrip.{IsWellFormed, task_spec_round_trip}
use ray_rust.Core.Error.{ok, err, shared_memory_error}
use ray_rust.Core.Serialize.{answers, panics, write_at}
use ray_rust.Core.Serialize.Buffers.{spliced, write_at_exact}
use ray_rust.Core.Id.{TaskId, ObjectId}
use ray_rust.Core.Resources
use ray_rust.Core.Resources.{Resources}
use ray_rust.Core.Resources.Laws.{IsProper}
use ray_rust.Core.Types.{TaskSpec, ActorSpec}

abbrev four_cpus : Resources
four_cpus = record { map = ("CPU", pos 4) ∷ ("GPU", pos 1) ∷ [] }

abbrev one_cpu : Resources
one_cpu = record { map = ("CPU", pos 1) ∷ [] }

one_cpu-IsProper : IsProper one_cpu
unfolding HashMap.get
one_cpu-IsProper = (refl, tt)

abbrev some_task_id : TaskId
some_task_id = record { bytes = replicate 16 7 }

abbrev some_object_id : ObjectId
some_object_id = record { bytes = replicate 28 9 }

abbrev some_task : TaskSpec
some_task = record {
  task_id = some_task_id;
  job_id = some_task_id;
  function_name = "echo";
  function_payload = 1 ∷ 2 ∷ [];
  return_ids = some_object_id ∷ [];
  dependency_ids = [];
  required_resources = one_cpu;
  max_retries = negsuc 0;
}

abbrev some_actor : ActorSpec
some_actor = record {
  actor_id = some_task_id;
  job_id = some_task_id;
  class_name = "Counter";
  class_payload = 1 ∷ [];
  constructor_args = [];
  required_resources = one_cpu;
  max_restarts = pos 3;
}

fits : Resources.can_satisfy four_cpus one_cpu ≡ true
unfolding Resources.can_satisfy Resources.get HashMap.get
fits = refl

some_task-IsWellFormed : IsWellFormed some_task
some_task-IsWellFormed = record {
  task_id_sized = refl;
  job_id_sized = refl;
  returns_sized = (refl, tt);
  dependencies_sized = tt;
  proper = one_cpu-IsProper;
}

task_spec_round_trip_example : task_spec_from_proto (task_spec_to_proto some_task) ≡ ok some_task
task_spec_round_trip_example = task_spec_round_trip some_task some_task-IsWellFormed

abbrev two_zeros : List ℕ
two_zeros = 0 ∷ 0 ∷ []

abbrev one_seven : List ℕ
one_seven = 7 ∷ []

-- A write at the last index of a `usize`.
write_at_exact_example : write_at false two_zeros (2 ^ 64 - 1) one_seven ≡ (
    if leb (2 ^ 64 - 1 + length one_seven) (length two_zeros)
    then answers (ok tt, spliced two_zeros (2 ^ 64 - 1) one_seven)
    else if ltb (2 ^ 64 - 1 + length one_seven) (2 ^ 64)
    then answers (err shared_memory_error, two_zeros)
    else if false
    then panics
    else if ltb (length two_zeros) (2 ^ 64 - 1 + length one_seven - 2 ^ 64)
    then answers (err shared_memory_error, two_zeros)
    else panics)
write_at_exact_example =
    write_at_exact false two_zeros (2 ^ 64 - 1) one_seven (omega arith) (omega arith) (omega arith)
