-- ===== src/Core/Serialize.antt =====
-- crates/ray-core/src/serialize.rs: the serializers over their formats, which are packages, and the
-- buffers that are read and written in place. An index is a `usize` of 64 bits; a sum that does not
-- fit panics in a build with overflow checks and wraps in one without.
pub mod Buffers
use ray_rust.Common.{
  ℕ, ◌+◌, ◌-◌, ◌%◌, ◌^◌, Bool, true, false, Option, none, some, List, ◌++◌, length, take, drop, ltb,
  leb, nat_beq, if◌then◌else◌,
}
use ray_rust.Core.Error.{
  RayResult, ok, err, serialization_error, deserialization_error, shared_memory_error,
}

-- What a package's format does with the values of a type: bincode, whose texts are bytes, and
-- serde_json, whose texts are strings.
pub record Format {ℓ κ} (T : Type ℓ) (Text : Type κ) : Type (ℓ ⊔ κ) where
  pub to_text : T → Option Text
  pub from_text : Text → Option T

module _ {ℓ κ} {T : Type ℓ} {Text : Type κ} where
  -- `serialize` and `serialize_json`
  unfoldable pub serialize : Format T Text → T → RayResult Text
  serialize format value = elim (format.to_text value) [
    | none ↦ err serialization_error
    | some text ↦ ok text
  ]

  -- `deserialize` and `deserialize_json`
  unfoldable pub deserialize : Format T Text → Text → RayResult T
  deserialize format text = elim (format.from_text text) [
    | none ↦ err deserialization_error
    | some value ↦ ok value
  ]

-- A call that may panic.
pub data Outcome {ℓ} (A : Type ℓ) : Type ℓ where
  answers : A → Outcome A
  panics : Outcome A

-- `a + b` on `usize`
unfoldable pub add_usize : Bool → ℕ → ℕ → Outcome ℕ
add_usize overflow_checks a b =
    if ltb (a + b) (2 ^ 64)
    then answers (a + b)
    else (if overflow_checks then panics else answers ((a + b) % 2 ^ 64))

-- `ZeroCopyRead`, whose one method gives the bytes: its other two.
unfoldable pub buffer_len : List ℕ → ℕ
buffer_len bytes = length bytes

unfoldable pub is_empty : List ℕ → Bool
is_empty bytes = nat_beq (buffer_len bytes) 0

-- `buf[offset..end].copy_from_slice(data)`, which panics unless `offset ≤ end ≤ len` and the two
-- slices have one length.
unfoldable pub copy_into : List ℕ → ℕ → ℕ → List ℕ → Outcome (List ℕ)
copy_into buf offset stop written =
    if leb offset stop
    then (if leb stop (length buf)
        then (if nat_beq (length written) (stop - offset)
            then answers (take offset buf ++ (written ++ drop stop buf))
            else panics)
        else panics)
    else panics

copied : Outcome (List ℕ) → Outcome (RayResult (Unit {0}) × List ℕ)
copied panics = panics
copied (answers buf) = answers (ok tt, buf)

write_up_to : List ℕ → ℕ → List ℕ → Outcome ℕ → Outcome (RayResult (Unit {0}) × List ℕ)
unfolding copied
write_up_to buf offset written panics = panics
write_up_to buf offset written (answers stop) =
    if ltb (length buf) stop
    then answers (err shared_memory_error, buf)
    else copied (copy_into buf offset stop written)

-- `ZeroCopyWrite::write_at`: the answer, and the buffer that is left.
unfoldable pub write_at : Bool → List ℕ → ℕ → List ℕ → Outcome (RayResult (Unit {0}) × List ℕ)
unfolding write_up_to
write_at overflow_checks buf offset written =
    write_up_to buf offset written (add_usize overflow_checks offset (length written))
