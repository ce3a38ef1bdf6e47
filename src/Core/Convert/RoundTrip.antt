-- ===== src/Core/Convert/RoundTrip.antt =====
-- crates/ray-core/src/proto_conv.rs: the conversions in both directions, one after the other.
use ray_rust.Common.{
  ℕ, zero, suc, String, ◌≡◌, refl, sym, ◌∙◌, ◌⊎◌, inl, inr, ◌≢◌, none, List, [], ◌∷◌, ◌++◌, map,
  All, string_eq, arith,
}
use mathlib.Core.List.{append_assoc, append-nil}
use ray_rust.Common.Int.{ℤ, pos, negsuc}
use ray_rust.Common.HashMap
use ray_rust.Common.HashMap.{HashMap, Unique}
use ray_rust.Core.Error.{ok}
use ray_rust.Core.Id.{FixedId, IsSized}
use ray_rust.Core.Id.Laws.{from_vec-to_vec}
use ray_rust.Core.Resources.{Resources}
use ray_rust.Core.Resources.Laws.{IsProper}
use ray_rust.Core.Types.{TaskStatus, ActorState, TaskSpec, ActorSpec}
use ray_rust.Core.Convert.{
  id_from_proto, id_to_proto, id_to_option, insert_all, resources_from_proto, resources_to_proto,
  resources_from_option, resources_to_option, task_spec_from_proto, task_spec_to_proto,
  actor_spec_from_proto, actor_spec_to_proto, task_status_from_proto, task_status_to_proto,
  actor_state_from_proto, actor_state_to_proto,
}

pub id_round_trip : {size : ℕ} (i : FixedId size) → IsSized i → id_from_proto (id_to_proto i) ≡ i
unfolding id_from_proto id_to_proto
id_round_trip i h = from_vec-to_vec i h

pub ids_round_trip :
    {size : ℕ} (is : List (FixedId size))
    → All IsSized is
    → map (id_from_proto {size = size}) (map id_to_proto is) ≡ is
ids_round_trip [] h = refl
ids_round_trip (i ∷ is) h = λ j. id_round_trip i h.0 j ∷ ids_round_trip is h.1 j

insert_fresh :
    (m : HashMap String ℤ) (k : String) (v : ℤ)
    → HashMap.get m k ≡ none
    → HashMap.insert m k v ≡ m ++ (k, v) ∷ []
unfolding HashMap.get HashMap.insert
insert_fresh [] k v h = refl
insert_fresh ((i, w) ∷ m) k v h = ground (arith, insert_fresh m k v)

get-append_ne :
    (a r : HashMap String ℤ) (k : String) (v : ℤ) → HashMap.get (a ++ (k, v) ∷ r) k ≢ none
unfolding HashMap.get
get-append_ne [] r k v h = ground (arith, string_eq.beq_iff k k)
get-append_ne ((i, w) ∷ a) r k v h = ground (arith, get-append_ne a r k v)

fresh_of_Unique :
    (a r : HashMap String ℤ) (k : String) (v : ℤ)
    → Unique (a ++ (k, v) ∷ r)
    → HashMap.get a k ≡ none
unfolding HashMap.get
fresh_of_Unique [] r k v u = refl
fresh_of_Unique ((i, w) ∷ a) r k v u =
    ground (arith, string_eq.beq_iff i k, get-append_ne a r k v, fresh_of_Unique a r k v u.1, u.0)

insert_all-eq-append : (m o : HashMap String ℤ) → Unique (m ++ o) → insert_all m o ≡ m ++ o
unfolding insert_all
insert_all-eq-append m [] u = sym (append-nil m)
insert_all-eq-append m ((k, v) ∷ o) u = rw (insert_fresh m k v (fresh_of_Unique m o k v u)) (
    insert_all-eq-append (m ++ (k, v) ∷ []) o (rw (append_assoc m ((k, v) ∷ []) o) u)
    ∙ append_assoc m ((k, v) ∷ []) o)

pub resources_round_trip :
    (r : Resources) → IsProper r → resources_from_proto (resources_to_proto r) ≡ r
unfolding resources_from_proto resources_to_proto
resources_round_trip r u = λ i. record { map = insert_all-eq-append [] r.map u i }

pub record IsWellFormed (c : TaskSpec) : Type 0 where
  pub task_id_sized : IsSized c.task_id
  pub job_id_sized : IsSized c.job_id
  pub returns_sized : All IsSized c.return_ids
  pub dependencies_sized : All IsSized c.dependency_ids
  pub proper : IsProper c.required_resources

-- A task specification, with identifiers of the right length and distinct resource names, survives
-- the way over the wire.
pub task_spec_round_trip :
    (c : TaskSpec) → IsWellFormed c → task_spec_from_proto (task_spec_to_proto c) ≡ ok c
unfolding task_spec_from_proto task_spec_to_proto id_to_option resources_to_option
    resources_from_option
task_spec_round_trip c w = λ i. ok (record {
  task_id = id_round_trip c.task_id w.task_id_sized i;
  job_id = id_round_trip c.job_id w.job_id_sized i;
  function_name = c.function_name;
  function_payload = c.function_payload;
  return_ids = ids_round_trip c.return_ids w.returns_sized i;
  dependency_ids = ids_round_trip c.dependency_ids w.dependencies_sized i;
  required_resources = resources_round_trip c.required_resources w.proper i;
  max_retries = c.max_retries;
})

-- An actor specification, with identifiers of the right length and distinct resource names,
-- survives the way over the wire.
pub actor_spec_round_trip :
    (c : ActorSpec)
    → IsSized c.actor_id
    → IsSized c.job_id
    → IsProper c.required_resources
    → actor_spec_from_proto (actor_spec_to_proto c) ≡ ok c
unfolding actor_spec_from_proto actor_spec_to_proto id_to_option resources_to_option
    resources_from_option
actor_spec_round_trip c a j u = λ i. ok (record {
  actor_id = id_round_trip c.actor_id a i;
  job_id = id_round_trip c.job_id j i;
  class_name = c.class_name;
  class_payload = c.class_payload;
  constructor_args = c.constructor_args;
  required_resources = resources_round_trip c.required_resources u i;
  max_restarts = c.max_restarts;
})

status_numbers :
    (n : ℕ)
    → (task_status_from_proto (pos n) ≡ TaskStatus.pending)
      ⊎ (pos n ≡ task_status_to_proto (task_status_from_proto (pos n)))
unfolding task_status_from_proto task_status_to_proto
status_numbers zero = inl refl
status_numbers (suc zero) = inl refl
status_numbers (suc (suc zero)) = inr refl
status_numbers (suc (suc (suc zero))) = inr refl
status_numbers (suc (suc (suc (suc zero)))) = inr refl
status_numbers (suc (suc (suc (suc (suc zero))))) = inr refl
status_numbers (suc (suc (suc (suc (suc (suc zero)))))) = inr refl
status_numbers _ = inl refl

status_codes :
    (v : ℤ)
    → (task_status_from_proto v ≡ TaskStatus.pending)
      ⊎ (v ≡ task_status_to_proto (task_status_from_proto v))
unfolding task_status_from_proto
status_codes (pos n) = status_numbers n
status_codes (negsuc n) = inl refl

status_round_trip : (s : TaskStatus) → task_status_from_proto (task_status_to_proto s) ≡ s
unfolding task_status_from_proto task_status_to_proto
status_round_trip TaskStatus.pending = refl
status_round_trip _ = refl

-- A task status survives the way through its number; and a number that is read as any status but
-- `Pending` is that status's own number, so every unknown number reads as `Pending`.
pub task_status_codes :
    (s : TaskStatus) (v : ℤ)
    → (task_status_from_proto (task_status_to_proto s) ≡ s)
      × ((task_status_from_proto v ≡ TaskStatus.pending)
          ⊎ (v ≡ task_status_to_proto (task_status_from_proto v)))
task_status_codes s v = (status_round_trip s, status_codes v)

state_numbers :
    (n : ℕ)
    → (actor_state_from_proto (pos n) ≡ ActorState.pending)
      ⊎ (pos n ≡ actor_state_to_proto (actor_state_from_proto (pos n)))
unfolding actor_state_from_proto actor_state_to_proto
state_numbers zero = inl refl
state_numbers (suc zero) = inl refl
state_numbers (suc (suc zero)) = inr refl
state_numbers (suc (suc (suc zero))) = inr refl
state_numbers (suc (suc (suc (suc zero)))) = inr refl
state_numbers _ = inl refl

state_codes :
    (v : ℤ)
    → (actor_state_from_proto v ≡ ActorState.pending)
      ⊎ (v ≡ actor_state_to_proto (actor_state_from_proto v))
unfolding actor_state_from_proto
state_codes (pos n) = state_numbers n
state_codes (negsuc n) = inl refl

state_round_trip : (s : ActorState) → actor_state_from_proto (actor_state_to_proto s) ≡ s
unfolding actor_state_from_proto actor_state_to_proto
state_round_trip ActorState.pending = refl
state_round_trip _ = refl

-- An actor state survives the way through its number; and a number that is read as any state but
-- `Pending` is that state's own number, so every unknown number reads as `Pending`.
pub actor_state_codes :
    (s : ActorState) (v : ℤ)
    → (actor_state_from_proto (actor_state_to_proto s) ≡ s)
      × ((actor_state_from_proto v ≡ ActorState.pending)
          ⊎ (v ≡ actor_state_to_proto (actor_state_from_proto v)))
actor_state_codes s v = (state_round_trip s, state_codes v)
