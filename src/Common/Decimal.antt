-- ===== src/Common/Decimal.antt =====
-- Texts as lists of character char_codes, and `{}` of an unsigned number: its decimal digits.
use Prim.Native.Char.{code}
use Prim.Native.Nat.{ℕ, zero, suc, ◌+◌, ◌-◌, ◌*◌, ◌/◌, ◌%◌, ◌<◌}
use Prim.Native.String.{String}
use mathlib.Core.Path.{◌≡◌, sym, ap, ◌∙◌}
use mathlib.Core.List.{List, [], ◌∷◌}
use native.Mathlib.Omega.{arith}
use ray_rust.Common.Tests.{ltb, if◌then◌else◌, Bool-cases}
use mathlib.Core.Logic.{inl, inr}

abbrev pub char_codes : String → List ℕ
char_codes String.[] = []
char_codes (String.◌∷◌ c s) = code c ∷ char_codes s

-- The last digit first; `n` rounds are enough for `n`, and one more for zero.
decimal_loop : ℕ → ℕ → List ℕ → List ℕ
decimal_loop zero n later = later
decimal_loop (suc fuel) n later =
    let rest = decimal_loop fuel (n / 10) ((b'0' + n % 10) ∷ later) in
    if ltb n 10 then (b'0' + n) ∷ later else rest

unfoldable pub decimal : ℕ → List ℕ
unfolding decimal_loop
decimal n = decimal_loop (suc n) n []

-- The number that digits stand for, after those before them.
value : List ℕ → ℕ → ℕ
value [] n = n
value (d ∷ ds) n = value ds (n * 10 + (d - b'0'))

value-decimal_loop :
    (fuel n : ℕ) (later : List ℕ) → n < fuel → value (decimal_loop fuel n later) 0 ≡ value later n
unfolding decimal_loop value
value-decimal_loop zero n later h = absurd (omega arith)
value-decimal_loop (suc fuel) n later h = elim (Bool-cases (ltb n 10)) [
  | inl small ↦ rw small (ap (value later) (omega arith))
  | inr large ↦ rw large (
      value-decimal_loop fuel (n / 10) ((b'0' + n % 10) ∷ later) (ground arith)
      ∙ ap (value later) (omega arith))
]

pub decimal-injective : (n m : ℕ) → decimal n ≡ decimal m → n ≡ m
unfolding decimal value
decimal-injective n m h =
    sym (value-decimal_loop (suc n) n [] (omega arith))
    ∙ ap (λ ds. value ds 0) h
    ∙ value-decimal_loop (suc m) m [] (omega arith)
