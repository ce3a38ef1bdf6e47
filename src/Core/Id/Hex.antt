-- ===== src/Core/Id/Hex.antt =====
-- `hex::encode` of crates/ray-core/src/id.rs: two lower-case digits for each byte (`{:02x}`), as
-- character codes. The spill path of an object is built from the same digits.
use ray_rust.Common.{
  ℕ, ◌+◌, ◌-◌, ◌/◌, ◌%◌, ◌<◌, ◌≡◌, refl, List, [], ◌∷◌, All, ltb, if◌then◌else◌, arith,
}

hex_digit : ℕ → ℕ
hex_digit d = if ltb d 10 then b'0' + d else b'a' + (d - 10)

unfoldable pub encode : List ℕ → List ℕ
unfolding hex_digit
encode [] = []
encode (b ∷ bytes) = hex_digit (b / 16) ∷ hex_digit (b % 16) ∷ encode bytes

hex_digit_injective : (a b : ℕ) → a < 16 → b < 16 → hex_digit a ≡ hex_digit b → a ≡ b
unfolding hex_digit
hex_digit_injective a b ha hb e = ground arith

byte_of_digits :
    (a b : ℕ)
    → a < 256
    → b < 256
    → hex_digit (a / 16) ≡ hex_digit (b / 16)
    → hex_digit (a % 16) ≡ hex_digit (b % 16)
    → a ≡ b
byte_of_digits a b ha hb hi lo = omega (
  arith,
  hex_digit_injective (a / 16) (b / 16) (omega arith) (omega arith) hi,
  hex_digit_injective (a % 16) (b % 16) (omega arith) (omega arith) lo,
)

abbrev pub IsBytes : List ℕ → Type 0
IsBytes = All (λ b. b < 256)

-- Two byte strings with the same hexadecimal text are equal.
pub encode-injective : (xs ys : List ℕ) → IsBytes xs → IsBytes ys → encode xs ≡ encode ys → xs ≡ ys
unfolding encode
encode-injective [] [] hx hy e = refl
encode-injective [] (y ∷ ys) hx hy e = cc
encode-injective (x ∷ xs) [] hx hy e = cc
encode-injective (x ∷ xs) (y ∷ ys) hx hy e =
    ground (arith, byte_of_digits x y hx.0 hy.0, encode-injective xs ys hx.1 hy.1)

encode_runs : encode (0 ∷ 171 ∷ 255 ∷ []) ≡ b'0' ∷ b'0' ∷ b'a' ∷ b'b' ∷ b'f' ∷ b'f' ∷ []
unfolding encode
encode_runs = refl
