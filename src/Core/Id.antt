-- ===== src/Core/Id.antt =====
-- crates/ray-core/src/id.rs. The macro `define_id!` makes six types of one shape: an array of
-- `size` bytes. `FixedId size` is that shape; the randomness of `new` is an argument.
pub mod Laws
pub mod Hex
use Prim.Native.Nat.{min}
use ray_rust.Common.{
  ℕ, ◌≡◌, ◌↔◌, Bool, true, List, ◌++◌, length, take, drop, replicate, PartialEq, nat_beq, list_beq,
  list_beq_iff,
}

-- `struct $name([u8; $size])`: the length is the type's in the source, and `IsSized` here.
pub record FixedId (size : ℕ) : Type 0 where
  pub bytes : List ℕ

abbrev pub TaskId : Type 0
TaskId = FixedId 16

abbrev pub ActorId : Type 0
ActorId = FixedId 16

abbrev pub WorkerId : Type 0
WorkerId = FixedId 16

abbrev pub NodeId : Type 0
NodeId = FixedId 16

abbrev pub JobId : Type 0
JobId = FixedId 16

abbrev pub ObjectId : Type 0
ObjectId = FixedId 28

abbrev pub IsSized : {size : ℕ} → FixedId size → Type 0
IsSized {size} i = length i.bytes ≡ size

-- `bytes[..n].copy_from_slice(&slice[..n])` on an array of zeros, where n is the smaller length.
copy_into_zeros : ℕ → List ℕ → List ℕ
copy_into_zeros size slice =
    let copy_len = min (length slice) size in
    take copy_len slice ++ drop copy_len (replicate size 0)

unfoldable pub from_slice : (size : ℕ) → List ℕ → FixedId size
unfolding copy_into_zeros
from_slice size slice = record { bytes = copy_into_zeros size slice }

-- `uuid_bytes` are the sixteen bytes of `Uuid::new_v4`.
unfoldable pub new : (size : ℕ) → List ℕ → FixedId size
unfolding copy_into_zeros
new size uuid_bytes = record { bytes = copy_into_zeros size uuid_bytes }

unfoldable pub from_bytes : (size : ℕ) → List ℕ → FixedId size
from_bytes size bytes = record { bytes = bytes }

unfoldable pub to_vec : {size : ℕ} → FixedId size → List ℕ
to_vec i = i.bytes

unfoldable pub from_vec : (size : ℕ) → List ℕ → FixedId size
unfolding from_slice
from_vec size v = from_slice size v

unfoldable pub default : (size : ℕ) → FixedId size
default size = record { bytes = replicate size 0 }

-- `#[derive(PartialEq)]`
abbrev pub id_beq : {size : ℕ} → FixedId size → FixedId size → Bool
id_beq a b = list_beq nat_beq a.bytes b.bytes

pub id_beq_iff : {size : ℕ} (a b : FixedId size) → (id_beq a b ≡ true) ↔ (a ≡ b)
id_beq_iff a b = (
  λ h. λ i. record { bytes = (list_beq_iff a.bytes b.bytes).0 h i },
  λ h. (list_beq_iff a.bytes b.bytes).1 (λ i. (h i).bytes),
)

instance abbrev pub id_eq : {size : ℕ} → PartialEq (FixedId size)
id_eq = record { beq = id_beq; beq_iff = id_beq_iff }
