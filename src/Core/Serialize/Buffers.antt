-- ===== src/Core/Serialize/Buffers.antt =====
-- Writes in place (crates/ray-core/src/serialize.rs).
use ray_rust.Common.{
  ℕ, zero, suc, ◌+◌, ◌-◌, ◌^◌, ◌≤◌, ◌<◌, ◌≡◌, refl, ap, ◌∙◌, Bool-cases, inl, inr, Bool, true,
  false, List, [], ◌∷◌, ◌++◌, length, take, drop, get_elem?, ltb, leb, ◌&&◌, length-append,
  length-take, length-drop, if◌then◌else◌, arith,
}
use ray_rust.Core.Error.{ok, err, shared_memory_error}
use ray_rust.Core.Serialize.{answers, panics, add_usize, copy_into, copied, write_up_to, write_at}

abbrev pub spliced : List ℕ → ℕ → List ℕ → List ℕ
spliced buf offset written = take offset buf ++ (written ++ drop (offset + length written) buf)

-- On a buffer and data shorter than 2^63 bytes: a write that fits is done; one that does not is
-- refused and leaves the buffer; and one whose end is no `usize` panics, but for a build without
-- overflow checks in which the wrapped end is behind the buffer, which refuses it.
pub write_at_exact :
    (checks : Bool) (buf : List ℕ) (offset : ℕ) (written : List ℕ)
    → length buf < 2 ^ 63
    → length written < 2 ^ 63
    → offset < 2 ^ 64
    → write_at checks buf offset written ≡ (
        if leb (offset + length written) (length buf)
        then answers (ok tt, spliced buf offset written)
        else if ltb (offset + length written) (2 ^ 64)
        then answers (err shared_memory_error, buf)
        else if checks
        then panics
        else if ltb (length buf) (offset + length written - 2 ^ 64)
        then answers (err shared_memory_error, buf)
        else panics)
unfolding write_at write_up_to add_usize copy_into copied
write_at_exact checks buf offset written b w o = ground arith

get_elem?-append :
    (xs ys : List ℕ) (j : ℕ)
    → get_elem? (xs ++ ys) j
      ≡ (if ltb j (length xs) then get_elem? xs j else get_elem? ys (j - length xs))
get_elem?-append [] ys j = ground arith
get_elem?-append (x ∷ xs) ys zero = ground arith
get_elem?-append (x ∷ xs) ys (suc j) = ground (arith, get_elem?-append xs ys j)

get_elem?-take : (n : ℕ) (xs : List ℕ) (j : ℕ) → j < n → get_elem? (take n xs) j ≡ get_elem? xs j
get_elem?-take zero xs j h = absurd (omega arith)
get_elem?-take (suc n) [] j h = refl
get_elem?-take (suc n) (x ∷ xs) zero h = refl
get_elem?-take (suc n) (x ∷ xs) (suc j) h = get_elem?-take n xs j (omega arith)

get_elem?-drop : (n : ℕ) (xs : List ℕ) (k : ℕ) → get_elem? (drop n xs) k ≡ get_elem? xs (n + k)
get_elem?-drop zero xs k = let e : k ≡ 0 + k = omega arith in ap (get_elem? xs) e
get_elem?-drop (suc n) [] k = refl
get_elem?-drop (suc n) (x ∷ xs) k =
    let e : suc (n + k) ≡ suc n + k = omega arith in
    get_elem?-drop n xs k ∙ ap (get_elem? (x ∷ xs)) e

pub length-spliced :
    (buf : List ℕ) (offset : ℕ) (written : List ℕ)
    → offset + length written ≤ length buf
    → length (spliced buf offset written) ≡ length buf
length-spliced buf offset written fits =
    let rest = drop (offset + length written) buf in
    omega (
      arith,
      length-append (take offset buf) (written ++ rest),
      length-append written rest,
      length-take offset buf,
      length-drop (offset + length written) buf,
    )

get_elem?-spliced :
    (buf : List ℕ) (offset : ℕ) (written : List ℕ) (j : ℕ)
    → offset + length written ≤ length buf
    → get_elem? (spliced buf offset written) j ≡ (
        if leb offset j && ltb j (offset + length written)
        then get_elem? written (j - offset)
        else get_elem? buf j)
get_elem?-spliced buf offset written j fits =
    let front = take offset buf in
    let stop = offset + length written in
    let rest = drop stop buf in
    let n : length front ≡ offset = omega (arith, length-take offset buf) in
    rw (get_elem?-append front (written ++ rest) j, n)
      (rw (get_elem?-append written rest (j - offset)) (elim (Bool-cases (ltb j offset)) [
        | inl early ↦
            let before : leb offset j ≡ false = ground arith in
            rw (early, before) (get_elem?-take offset buf j (ground arith))
        | inr reached ↦
            let after : leb offset j ≡ true = ground arith in
            elim (Bool-cases (ltb j stop)) [
              | inl inside ↦
                  let there : ltb (j - offset) (length written) ≡ true = ground arith in
                  rw (reached, after, inside, there) refl
              | inr late ↦
                  let past : ltb (j - offset) (length written) ≡ false = ground arith in
                  let e : stop + (j - offset - length written) ≡ j = ground arith in
                  rw (reached, after, late, past)
                    (get_elem?-drop stop buf (j - offset - length written) ∙ ap (get_elem? buf) e)
            ]
      ]))

pub write_at_fits :
    (checks : Bool) (buf : List ℕ) (offset : ℕ) (written : List ℕ)
    → length buf < 2 ^ 63
    → offset + length written ≤ length buf
    → write_at checks buf offset written ≡ answers (ok tt, spliced buf offset written)
write_at_fits checks buf offset written b fits =
    ground (arith, write_at_exact checks buf offset written b (omega arith) (omega arith))

-- A write that fits is done, with or without overflow checks: the buffer keeps its length, the
-- written bytes are read back in their place, and every other byte is as before.
pub write_at_reads_back :
    (checks : Bool) (buf : List ℕ) (offset : ℕ) (written : List ℕ)
    → length buf < 2 ^ 63
    → offset + length written ≤ length buf
    → (buf' : List ℕ) × (write_at checks buf offset written ≡ answers (ok tt, buf'))
      × (length buf' ≡ length buf)
      × ((j : ℕ)
          → get_elem? buf' j ≡ (
              if leb offset j && ltb j (offset + length written)
              then get_elem? written (j - offset)
              else get_elem? buf j))
write_at_reads_back checks buf offset written b fits = (
  spliced buf offset written,
  write_at_fits checks buf offset written b fits,
  length-spliced buf offset written fits,
  λ j. get_elem?-spliced buf offset written j fits,
)
