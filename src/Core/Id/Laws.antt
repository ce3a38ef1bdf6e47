-- ===== src/Core/Id/Laws.antt =====
-- The constructors of an identifier in crates/ray-core/src/id.rs.
use Prim.Native.Nat.{min}
use ray_rust.Common.{
  ℕ, zero, suc, ◌≤◌, ◌≡◌, refl, sym, ◌∙◌, ap, List, [], ◌∷◌, ◌++◌, length, take, drop, replicate,
  length-append, length-take, length-drop, length-replicate, arith,
}
use ray_rust.Core.Id.{FixedId, IsSized, from_slice, new, copy_into_zeros, to_vec, from_vec, default}

length-copy_into_zeros : (size : ℕ) (s : List ℕ) → length (copy_into_zeros size s) ≡ size
unfolding copy_into_zeros
length-copy_into_zeros size s =
    let n = min (length s) size in
    omega (
      arith,
      length-append (take n s) (drop n (replicate size 0)),
      length-take n s,
      length-drop n (replicate {A = ℕ} size 0),
      length-replicate {A = ℕ} size 0,
    )

pub from_slice-IsSized : (size : ℕ) (s : List ℕ) → IsSized (from_slice size s)
unfolding from_slice
from_slice-IsSized size s = length-copy_into_zeros size s

pub new-IsSized : (size : ℕ) (uuid_bytes : List ℕ) → IsSized (new size uuid_bytes)
unfolding new
new-IsSized size uuid_bytes = length-copy_into_zeros size uuid_bytes

pub default-IsSized : (size : ℕ) → IsSized (default size)
unfolding default
default-IsSized size = length-replicate size 0

take-replicate : (n k : ℕ) → n ≤ k → take n (replicate {A = ℕ} k 0) ≡ replicate n 0
take-replicate zero k h = refl
take-replicate (suc n) zero h = elim h [ ]
take-replicate (suc n) (suc k) h = ap (◌∷◌ 0) (take-replicate n k (omega arith))

copy-eq-take : (n k : ℕ) (s : List ℕ) → n ≤ k → copy_into_zeros n s ≡ take n (s ++ replicate k 0)
unfolding copy_into_zeros
copy-eq-take zero k s h = let e : min (length s) zero ≡ zero = omega arith in rw e refl
copy-eq-take (suc n) k [] h =
    let e : min zero (suc n) ≡ zero = omega arith in rw e (sym (take-replicate (suc n) k h))
copy-eq-take (suc n) k (x ∷ s) h =
    let e : min (suc (length s)) (suc n) ≡ suc (min (length s) n) = omega arith in
    rw e (ap (◌∷◌ x) (copy-eq-take n k s (omega arith)))

take-append_self : (s t : List ℕ) → take (length s) (s ++ t) ≡ s
take-append_self [] t = refl
take-append_self (x ∷ s) t = ap (◌∷◌ x) (take-append_self s t)

-- `from_slice` accepts any slice: the identifier has the right length, and its bytes are the first
-- of the slice, padded with zeros at the end.
pub from_slice-bytes :
    (size : ℕ) (s : List ℕ)
    → (IsSized (from_slice size s))
      × ((from_slice size s).bytes ≡ take size (s ++ replicate size 0))
unfolding from_slice
from_slice-bytes size s = (length-copy_into_zeros size s, copy-eq-take size size s (omega arith))

-- An identifier survives the way through a byte vector.
pub from_vec-to_vec : {size : ℕ} (i : FixedId size) → IsSized i → from_vec size (to_vec i) ≡ i
unfolding from_vec to_vec
from_vec-to_vec {size} i h = λ j. record { bytes = bytes_eq j }
  where
    bytes_eq : copy_into_zeros size i.bytes ≡ i.bytes
    bytes_eq =
        copy-eq-take size size i.bytes (omega arith)
        ∙ rw (← h) (take-append_self i.bytes (replicate (length i.bytes) 0))

-- A byte vector of the right length survives the way through an identifier.
pub to_vec-from_vec : {size : ℕ} (v : List ℕ) → length v ≡ size → to_vec (from_vec size v) ≡ v
unfolding from_vec to_vec
to_vec-from_vec {size} v h =
    ap (λ (i : FixedId size). i.bytes) (from_vec-to_vec (record { bytes = v }) h)
