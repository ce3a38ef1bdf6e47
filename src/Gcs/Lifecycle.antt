-- ===== src/Gcs/Lifecycle.antt =====
-- `register_actor`, `get_actor_info` and `kill_actor` of crates/ray-gcs/src/server.rs over the
-- store in memory.
use ray_rust.Common.{
  ℕ, String, length, replicate, ◌≡◌, refl, sym, ap, ◌∙◌, Bool, true, false, Option, none, some,
  ◌==◌, ◌⊎◌, inl, inr, Option-cases, if◌then◌else◌, option_map,
}
use ray_rust.Common.HashMap
use ray_rust.Common.HashMap.{HashMap}
use ray_rust.Common.HashMap.Laws.{get-insert, get-modify}
use ray_rust.Core.Convert.{
  actor_info_to_proto_fields, id_to_option, actor_state_to_proto, id_from_proto, id_to_proto,
  resources_from_option, actor_spec_from_proto,
}
use ray_rust.Core.Convert.RoundTrip.{id_round_trip}
use ray_rust.Common.Int.{pos}
use ray_rust.Gcs.Messages
use ray_rust.Core.Error.{RayResult, ok as done, actor_not_found}
use ray_rust.Core.Id.{ActorId, to_vec, default, id_eq}
use ray_rust.Core.Proto.{ProtoId, ProtoActorSpec}
use ray_rust.Core.Status
use ray_rust.Core.Status.{Reply, ok, err, invalid_argument, not_found}
use ray_rust.Core.Types.{ActorState, ActorInfo, ActorSpec}
use ray_rust.Gcs.Store
use ray_rust.Gcs.Store.{InMemoryGcsStore, in_memory, new_actor}
use ray_rust.Gcs.Translate.{message_of_actor}
use ray_rust.Gcs.Server.{
  register_converted, register_actor, get_actor_info, kill_actor, found_actor,
}

abbrev pub killed : ActorInfo → ActorInfo
killed a = record a { state = ActorState.dead }

-- A kill request for a known actor marks it dead and changes no other actor; for an unknown one it
-- is refused with the error of the backend, and nothing changes.
pub kill_actor_lem :
    (s : InMemoryGcsStore) (p : ProtoId)
    → let r = kill_actor in_memory s (some p) in
      (((a : ActorInfo) × (HashMap.get s.actors (id_from_proto p) ≡ some a)
          × (r.0 ≡ ok true)
          × ((j : ActorId)
              → HashMap.get r.1.actors j ≡ (
                  if id_from_proto p == j
                  then option_map killed (HashMap.get s.actors j)
                  else HashMap.get s.actors j)))
        ⊎ ((HashMap.get s.actors (id_from_proto p) ≡ none)
            × (r.0 ≡ err (Status.internal actor_not_found))
            × (r.1 ≡ s)))
unfolding kill_actor in_memory Store.kill_actor HashMap.contains_key
kill_actor_lem s p = elim (Option-cases (HashMap.get s.actors (id_from_proto p))) [
  | inr (a, known) ↦
      inl (a, known, rw known refl, λ j. rw known (get-modify s.actors (id_from_proto p) killed j))
  | inl unknown ↦ inr (unknown, rw unknown refl, rw unknown refl)
]

-- What a client is told about the actor with an identifier.
told :
    (s : InMemoryGcsStore) (q : ProtoId)
    → get_actor_info in_memory s (some q) ≡ found_actor (HashMap.get s.actors (id_from_proto q))
unfolding get_actor_info in_memory Store.get_actor
told s q = refl

found_actor-if :
    (b : Bool) (a : ActorInfo) (o : Option ActorInfo)
    → found_actor (if b then some a else o) ≡ (if b then ok (message_of_actor a) else found_actor o)
unfolding found_actor
found_actor-if true a o = refl
found_actor-if false a o = refl

pub inserted :
    (s : InMemoryGcsStore) (core_spec : ActorSpec)
    → (register_converted in_memory s (done core_spec)).1.actors
      ≡ HashMap.insert s.actors core_spec.actor_id (new_actor core_spec)
unfolding register_converted in_memory Store.register_actor
inserted s core_spec = refl

accepted :
    (s : InMemoryGcsStore) (core_spec : ActorSpec)
    → (register_converted in_memory s (done core_spec)).0
      ≡ ok (record { success = true; actor_id = some (id_to_proto core_spec.actor_id) })
unfolding register_converted in_memory Store.register_actor
accepted s core_spec = refl

told_after :
    (s : InMemoryGcsStore) (core_spec : ActorSpec) (q : ProtoId)
    → get_actor_info in_memory (register_converted in_memory s (done core_spec)).1 (some q) ≡ (
        if core_spec.actor_id == id_from_proto q
        then ok (message_of_actor (new_actor core_spec))
        else get_actor_info in_memory s (some q))
told_after s core_spec q =
    told (register_converted in_memory s (done core_spec)).1 q
    ∙ ap (λ m. found_actor (HashMap.get m (id_from_proto q))) (inserted s core_spec)
    ∙ ap found_actor
        (get-insert s.actors core_spec.actor_id (new_actor core_spec) (id_from_proto q))
    ∙ found_actor-if (core_spec.actor_id == id_from_proto q) (new_actor core_spec)
        (HashMap.get s.actors (id_from_proto q))
    ∙ ap
        (λ o.
          if core_spec.actor_id == id_from_proto q
          then ok (message_of_actor (new_actor core_spec))
          else o)
        (sym (told s q))

pub converted :
    (s : InMemoryGcsStore) (spec : ProtoActorSpec) (r : RayResult ActorSpec)
    → actor_spec_from_proto spec ≡ r
    → register_actor in_memory s (some spec) ≡ register_converted in_memory s r
unfolding register_actor
converted s spec r e = ap (register_converted in_memory s) e

-- An identifier of the right length is read as its bytes.
read_id :
    {size : ℕ} (p : ProtoId) → length p.id ≡ size → id_to_proto (id_from_proto {size = size} p) ≡ p
unfolding id_to_proto id_from_proto to_vec
read_id p sized = ap id_to_proto (id_round_trip (record { bytes = p.id }) sized)

-- The specification in a request with these identifiers.
abbrev read_spec : ProtoActorSpec → ProtoId → ProtoId → ActorSpec
read_spec spec a j = record {
  actor_id = id_from_proto a;
  job_id = id_from_proto j;
  class_name = spec.class_name;
  class_payload = spec.class_payload;
  constructor_args = spec.constructor_args;
  required_resources = resources_from_option spec.required_resources;
  max_restarts = spec.max_restarts;
}

-- How the request of a client is read.
read_request :
    (spec : ProtoActorSpec) (a j : ProtoId)
    → spec.actor_id ≡ some a
    → spec.job_id ≡ some j
    → actor_spec_from_proto spec ≡ done (read_spec spec a j)
unfolding actor_spec_from_proto
read_request spec a j has_id has_job = rw (has_id, has_job) refl

-- What the service tells of an actor that was just registered: it is pending (1 on the wire), on no
-- node yet, and was never restarted.
abbrev pub pending_actor : ProtoId → ProtoId → String → Messages.ActorInfo
pending_actor actor_id job_id class_name = record {
  actor_id = some actor_id;
  job_id = some job_id;
  class_name = class_name;
  state = pos 1;
  address = none;
  node_id = some (record { id = replicate 16 0 });
  start_time_ms = pos 0;
  end_time_ms = pos 0;
  num_restarts = pos 0;
}

new_actor-pending :
    (spec : ProtoActorSpec) (a j : ProtoId)
    → length a.id ≡ 16
    → length j.id ≡ 16
    → message_of_actor (new_actor (read_spec spec a j)) ≡ pending_actor a j spec.class_name
unfolding message_of_actor new_actor actor_info_to_proto_fields id_to_option actor_state_to_proto
    to_vec default
new_actor-pending spec a j sized job_sized =
    ap (λ p. pending_actor p (id_to_proto (id_from_proto {size = 16} j)) spec.class_name)
      (read_id {size = 16} a sized)
    ∙ ap (λ p. pending_actor a p spec.class_name) (read_id {size = 16} j job_sized)

-- After an actor is registered from a request with both its identifiers, of the right length, the
-- reply names the actor of the request, and the service tells whoever asks for that actor that it
-- is pending, with the job and the class of the request, on the node of the default identifier, all
-- zeros, and never restarted; about every other actor it tells what it told before.
pub register_actor_lem :
    (s : InMemoryGcsStore) (spec : ProtoActorSpec) (a j q : ProtoId)
    → spec.actor_id ≡ some a
    → spec.job_id ≡ some j
    → length a.id ≡ 16
    → length j.id ≡ 16
    → let r = register_actor in_memory s (some spec) in
      (r.0 ≡ ok (record { success = true; actor_id = some a }))
      × (get_actor_info in_memory r.1 (some q) ≡ (
          if id_from_proto {size = 16} a == id_from_proto q
          then ok (pending_actor a j spec.class_name)
          else get_actor_info in_memory s (some q)))
register_actor_lem s spec a j q has_id has_job sized job_sized =
    let core_spec = read_spec spec a j in
    let same = converted s spec (done core_spec) (read_request spec a j has_id has_job) in
    (
      ap (λ r. r.0) same
          ∙ accepted s core_spec
          ∙ ap (λ p. ok (record { success = true; actor_id = some p }))
              (read_id {size = 16} a sized),
      ap (λ r. get_actor_info in_memory r.1 (some q)) same
          ∙ told_after s core_spec q
          ∙ ap
              (λ m.
                if id_from_proto {size = 16} a == id_from_proto q
                then ok m
                else get_actor_info in_memory s (some q))
              (new_actor-pending spec a j sized job_sized),
    )
