-- ===== src/Core/Resources/Laws.antt =====
-- crates/ray-core/src/resource.rs: a lookup after each operation, and the decision of
-- `can_satisfy`.
use ray_rust.Common.{
  String, ◌≡◌, ◌↔◌, refl, sym, true, Option, none, some, [], ◌∷◌, ◌==◌, string_eq, unwrap_or,
  if◌then◌else◌, arith, beq_refl,
}
use ray_rust.Common.Int.{
  ℤ, pos, sub_add_cancel, sub_nonneg, ◌+ℤ◌, ◌-ℤ◌, ◌≤ℤ◌, leb_ℤ, +ℤ_zero, -ℤ_zero,
}
use ray_rust.Common.HashMap
use ray_rust.Common.HashMap.{HashMap, Unique}
use ray_rust.Common.HashMap.Laws.{get-insert, get-remove}
use ray_rust.Core.Resources.{
  Resources, get, quantity, can_satisfy, can_satisfy_loop, subtract, subtract_entry, subtract_loop,
  add, add_entry, add_loop,
}

-- No name occurs twice, as in every `HashMap`.
abbrev pub IsProper : Resources → Type 0
IsProper r = Unique r.map

abbrev pub floor0 : ℤ → ℤ
floor0 x = if leb_ℤ x (pos 0) then pos 0 else x

quantity-subtract_entry :
    (m : HashMap String ℤ) (k : String) (q : ℤ) (j : String)
    → quantity (subtract_entry m k q) j
      ≡ (if k == j then floor0 (quantity m j -ℤ q) else quantity m j)
unfolding subtract_entry quantity
quantity-subtract_entry m k q j =
    let written = HashMap.insert m k (unwrap_or (HashMap.get m k) (pos 0) -ℤ q) in
    ground (
      arith,
      string_eq.beq_iff k j,
      get-insert m k (unwrap_or (HashMap.get m k) (pos 0) -ℤ q) j,
      get-remove written k j,
    )

quantity-add_entry :
    (m : HashMap String ℤ) (k : String) (q : ℤ) (j : String)
    → quantity (add_entry m k q) j ≡ (if k == j then quantity m j +ℤ q else quantity m j)
unfolding add_entry quantity
quantity-add_entry m k q j =
    ground
      (arith, string_eq.beq_iff k j, get-insert m k (unwrap_or (HashMap.get m k) (pos 0) +ℤ q) j)

abbrev pub minus : Option ℤ → ℤ → ℤ
minus none x = x
minus (some q) x = floor0 (x -ℤ q)

abbrev plus : Option ℤ → ℤ → ℤ
plus none x = x
plus (some q) x = x +ℤ q

quantity-subtract_loop :
    (m o : HashMap String ℤ) (j : String)
    → Unique o
    → quantity (subtract_loop m o) j ≡ minus (HashMap.get o j) (quantity m j)
unfolding subtract_loop HashMap.get
quantity-subtract_loop m [] j u = refl
quantity-subtract_loop m ((k, q) ∷ o) j u = ground (
  arith,
  string_eq.beq_iff k j,
  quantity-subtract_entry m k q j,
  quantity-subtract_loop (subtract_entry m k q) o j u.1,
)

quantity-add_loop :
    (m o : HashMap String ℤ) (j : String)
    → Unique o
    → quantity (add_loop m o) j ≡ plus (HashMap.get o j) (quantity m j)
unfolding add_loop HashMap.get
quantity-add_loop m [] j u = refl
quantity-add_loop m ((k, q) ∷ o) j u = ground (
  arith,
  string_eq.beq_iff k j,
  quantity-add_entry m k q j,
  quantity-add_loop (add_entry m k q) o j u.1,
)

-- Every listed requirement is met when the loop answers `true`.
fits-can_satisfy_loop :
    (r : Resources) (o : HashMap String ℤ) (j : String) (q : ℤ)
    → can_satisfy_loop r o ≡ true
    → HashMap.get o j ≡ some q
    → q ≤ℤ get r j
unfolding can_satisfy_loop HashMap.get
fits-can_satisfy_loop r [] j q h e = cc
fits-can_satisfy_loop r ((k, p) ∷ o) j q h e =
    ground (arith, string_eq.beq_iff k j, fits-can_satisfy_loop r o j q)

can_satisfy_loop-fits :
    (r : Resources) (o : HashMap String ℤ)
    → Unique o
    → ((j : String) (q : ℤ) → HashMap.get o j ≡ some q → q ≤ℤ get r j)
    → can_satisfy_loop r o ≡ true
unfolding can_satisfy_loop HashMap.get
can_satisfy_loop-fits r [] u h = refl
can_satisfy_loop-fits r ((k, p) ∷ o) u h =
    let here : p ≤ℤ get r k = h k p (rw (beq_refl k)) in
    let there : (j : String) (q : ℤ) → HashMap.get o j ≡ some q → q ≤ℤ get r j =
      λ j q e. h j q (ground (arith, string_eq.beq_iff k j, u.0, e)) in
    ground (arith, here, can_satisfy_loop-fits r o u.1 there)

-- For a request with distinct names, `can_satisfy` answers `true` exactly when every quantity that
-- is asked for is at most the quantity at hand.
pub can_satisfy_iff :
    (r o : Resources)
    → IsProper o
    → (can_satisfy r o ≡ true)
      ↔ ((name : String) (q : ℤ) → HashMap.get o.map name ≡ some q → q ≤ℤ get r name)
unfolding can_satisfy
can_satisfy_iff r o u =
    (λ h name q e. fits-can_satisfy_loop r o.map name q h e, λ h. can_satisfy_loop-fits r o.map u h)

-- `add` raises each listed quantity by what the other side holds, and no other.
pub get-add :
    (r o : Resources) (name : String) → IsProper o → get (add r o) name ≡ get r name +ℤ get o name
unfolding add get quantity
get-add r o name u = ground (arith, quantity-add_loop r.map o.map name u, +ℤ_zero (get r name))

-- `subtract` takes a request with distinct names off each quantity; what would fall below zero
-- becomes zero, and a quantity that is not listed stays.
pub get-subtract :
    (r o : Resources) (name : String)
    → IsProper o
    → get (subtract r o) name ≡ minus (HashMap.get o.map name) (get r name)
unfolding subtract get
get-subtract r o name u = quantity-subtract_loop r.map o.map name u

floor0_id : (x : ℤ) → pos 0 ≤ℤ x → floor0 x ≡ x
floor0_id x h = ground arith

-- After a test that passed, nothing is cut off: the difference is exact for every name.
pub subtract_exact :
    (r o : Resources) (name : String)
    → IsProper o
    → can_satisfy r o ≡ true
    → get (subtract r o) name ≡ get r name -ℤ get o name
unfolding can_satisfy get quantity
subtract_exact r o name u h = rw (get-subtract r o name u) (exact (HashMap.get o.map name) refl)
  where
    exact :
        (found : Option ℤ)
        → HashMap.get o.map name ≡ found
        → minus found (get r name) ≡ get r name -ℤ get o name
    exact none e = rw e (sym (-ℤ_zero (get r name)))
    exact (some q) e =
        rw e (floor0_id _ (sub_nonneg _ q (fits-can_satisfy_loop r o.map name q h e)))

-- After a request with distinct names passed the test, adding it to what `subtract` left gives back
-- every quantity.
pub add-subtract :
    (r o : Resources) (name : String)
    → IsProper o
    → can_satisfy r o ≡ true
    → get (add (subtract r o) o) name ≡ get r name
add-subtract r o name u h =
    rw (get-add (subtract r o) o name u, subtract_exact r o name u h) (sub_add_cancel _ _)
