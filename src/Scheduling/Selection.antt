-- ===== src/Scheduling/Selection.antt =====
-- The contract of a policy, and the two policies of crates/ray-scheduler/src/policy.rs.
use mathlib.Core.Path.{subst}
use ray_rust.Common.{
  ◌≡◌, refl, sym, true, false, List, [], ◌∷◌, ◌⊎◌, inl, inr, Bool-cases, All, In, In-keep,
  All-keep_inv, arith, string_eq,
}
use ray_rust.Common.Int.{ℤ, ◌≤ℤ◌, ltb_ℤ, int_laws}
use ray_rust.Core.Error.{RayResult, ok, err, insufficient_resources}
use ray_rust.Core.Resources
use ray_rust.Core.Resources.{Resources}
use ray_rust.Scheduling.Policy.{
  NodeView, SchedulingPolicy, cpu, max_by_cpu, min_by_cpu, eligible, pick_max, pick_min,
  spread_policy, pack_policy,
}

abbrev pub Fits : NodeView → Resources → Type 0
Fits n required = Resources.can_satisfy n.available required ≡ true

-- An order on views: the right one is at least as good.
abbrev pub Preference : Type 1
Preference = NodeView → NodeView → Type 0

-- The contract of a policy with a preference: it answers a given node that fits and that no node
-- that fits is better than, and it fails exactly when none fits.
abbrev pub Selection : Preference → List NodeView → Resources → RayResult NodeView → Type 0
Selection better nodes required r =
    ((v : NodeView) × (r ≡ ok v)
      × In v nodes
      × Fits v required
      × All (λ n. Fits n required → better n v) nodes)
    ⊎ ((r ≡ err insufficient_resources) × All (λ n. ¬ Fits n required) nodes)

abbrev pub Chooses : Preference → SchedulingPolicy → Type 0
Chooses better policy =
    (nodes : List NodeView) (required : Resources)
    → Selection better nodes required (policy.select_node nodes required)

abbrev pub LessCpu : Preference
LessCpu n v = cpu n ≤ℤ cpu v

abbrev pub MoreCpu : Preference
MoreCpu n v = cpu v ≤ℤ cpu n

past : (m best n : NodeView) (ns : List NodeView) → In m (best ∷ ns) → In m (best ∷ n ∷ ns)
past m best n ns (inl e) = inl e
past m best n ns (inr i) = inr (inr i)

max_by_cpu-keeps :
    (best n : NodeView) (ns : List NodeView)
    → ltb_ℤ (cpu n) (cpu best) ≡ true
    → max_by_cpu best (n ∷ ns) ≡ max_by_cpu best ns
unfolding max_by_cpu
max_by_cpu-keeps best n ns less = rw less refl

max_by_cpu-moves :
    (best n : NodeView) (ns : List NodeView)
    → ltb_ℤ (cpu n) (cpu best) ≡ false
    → max_by_cpu best (n ∷ ns) ≡ max_by_cpu n ns
unfolding max_by_cpu
max_by_cpu-moves best n ns no_less = rw no_less refl

min_by_cpu-moves :
    (best n : NodeView) (ns : List NodeView)
    → ltb_ℤ (cpu n) (cpu best) ≡ true
    → min_by_cpu best (n ∷ ns) ≡ min_by_cpu n ns
unfolding min_by_cpu
min_by_cpu-moves best n ns less = rw less refl

min_by_cpu-keeps :
    (best n : NodeView) (ns : List NodeView)
    → ltb_ℤ (cpu n) (cpu best) ≡ false
    → min_by_cpu best (n ∷ ns) ≡ min_by_cpu best ns
unfolding min_by_cpu
min_by_cpu-keeps best n ns no_less = rw no_less refl

max_by_cpu-In : (best : NodeView) (ns : List NodeView) → In (max_by_cpu best ns) (best ∷ ns)
unfolding max_by_cpu
max_by_cpu-In best [] = inl refl
max_by_cpu-In best (n ∷ ns) = elim (Bool-cases (ltb_ℤ (cpu n) (cpu best))) [
  | inl less ↦
      subst (λ m. In m (best ∷ n ∷ ns)) (sym (max_by_cpu-keeps best n ns less))
        (past _ best n ns (max_by_cpu-In best ns))
  | inr no_less ↦
      subst (λ m. In m (best ∷ n ∷ ns)) (sym (max_by_cpu-moves best n ns no_less))
        (inr (max_by_cpu-In n ns))
]

min_by_cpu-In : (best : NodeView) (ns : List NodeView) → In (min_by_cpu best ns) (best ∷ ns)
unfolding min_by_cpu
min_by_cpu-In best [] = inl refl
min_by_cpu-In best (n ∷ ns) = elim (Bool-cases (ltb_ℤ (cpu n) (cpu best))) [
  | inl less ↦
      subst (λ m. In m (best ∷ n ∷ ns)) (sym (min_by_cpu-moves best n ns less))
        (inr (min_by_cpu-In n ns))
  | inr no_less ↦
      subst (λ m. In m (best ∷ n ∷ ns)) (sym (min_by_cpu-keeps best n ns no_less))
        (past _ best n ns (min_by_cpu-In best ns))
]

LessCpu-trans : (a b c : NodeView) → LessCpu a b → LessCpu b c → LessCpu a c
LessCpu-trans a b c h k = omega int_laws

LessCpu-refl : (a : NodeView) → LessCpu a a
LessCpu-refl a = omega int_laws

lt_or_ge : (a b : ℤ) → ((ltb_ℤ a b ≡ true) × (a ≤ℤ b)) ⊎ ((ltb_ℤ a b ≡ false) × (b ≤ℤ a))
lt_or_ge a b = ground arith

max_by_cpu-LessCpu :
    (best : NodeView) (ns : List NodeView) → All (λ n. LessCpu n (max_by_cpu best ns)) (best ∷ ns)
unfolding max_by_cpu
max_by_cpu-LessCpu best [] = (LessCpu-refl best, tt)
max_by_cpu-LessCpu best (n ∷ ns) = elim (lt_or_ge (cpu n) (cpu best)) [
  | inl (less, le) ↦
      let ih = max_by_cpu-LessCpu best ns in
      subst (λ m. All (λ k. LessCpu k m) (best ∷ n ∷ ns)) (sym (max_by_cpu-keeps best n ns less))
        (ih.0, (LessCpu-trans n best (max_by_cpu best ns) le ih.0, ih.1))
  | inr (no_less, ge) ↦
      let ih = max_by_cpu-LessCpu n ns in
      subst (λ m. All (λ k. LessCpu k m) (best ∷ n ∷ ns)) (sym (max_by_cpu-moves best n ns no_less))
        (LessCpu-trans best n (max_by_cpu n ns) ge ih.0, ih)
]

min_by_cpu-MoreCpu :
    (best : NodeView) (ns : List NodeView) → All (λ n. MoreCpu n (min_by_cpu best ns)) (best ∷ ns)
unfolding min_by_cpu
min_by_cpu-MoreCpu best [] = (LessCpu-refl best, tt)
min_by_cpu-MoreCpu best (n ∷ ns) = elim (lt_or_ge (cpu n) (cpu best)) [
  | inl (less, le) ↦
      let ih = min_by_cpu-MoreCpu n ns in
      subst (λ m. All (λ k. MoreCpu k m) (best ∷ n ∷ ns)) (sym (min_by_cpu-moves best n ns less))
        (LessCpu-trans (min_by_cpu n ns) n best ih.0 le, ih)
  | inr (no_less, ge) ↦
      let ih = min_by_cpu-MoreCpu best ns in
      subst (λ m. All (λ k. MoreCpu k m) (best ∷ n ∷ ns)) (sym (min_by_cpu-keeps best n ns no_less))
        (ih.0, (LessCpu-trans (min_by_cpu best ns) best n ih.0 ge, ih.1))
]

-- From the nodes that fit to all of them.
selected :
    (better : Preference) (nodes : List NodeView) (required : Resources) (v : NodeView)
    → In v (eligible nodes required)
    → All (λ n. better n v) (eligible nodes required)
    → Selection better nodes required (ok v)
unfolding eligible
selected better nodes required v i h =
    let (fits, there) = In-keep (λ n. Resources.can_satisfy n.available required) nodes v i in
    inl (
      v,
      refl,
      there,
      fits,
      All-keep_inv (λ n. better n v) (λ n. Resources.can_satisfy n.available required) nodes h,
    )

none_selected :
    (better : Preference) (nodes : List NodeView) (required : Resources)
    → eligible nodes required ≡ []
    → Selection better nodes required (err insufficient_resources)
unfolding eligible
none_selected better nodes required e = inr (
  refl,
  All-keep_inv (λ _. ⊥) (λ n. Resources.can_satisfy n.available required) nodes
      (subst (λ l. All (λ _. ⊥) l) (sym e) tt),
)

-- The spread policy answers a given node that fits the request and has the most CPU available of
-- those that fit; it fails exactly when none fits.
pub spread-Chooses : Chooses LessCpu spread_policy
unfolding spread_policy pick_max
spread-Chooses nodes required = cases (eligible nodes required) refl
  where
    cases :
        (l : List NodeView)
        → eligible nodes required ≡ l
        → Selection LessCpu nodes required (pick_max l)
    cases [] e = none_selected LessCpu nodes required e
    cases (n ∷ ns) e =
        selected LessCpu nodes required (max_by_cpu n ns) (rw e (max_by_cpu-In n ns))
          (rw e (max_by_cpu-LessCpu n ns))

-- The pack policy answers a given node that fits the request and has the least CPU available of
-- those that fit; it fails exactly when none fits.
pub pack-Chooses : Chooses MoreCpu pack_policy
unfolding pack_policy pick_min
pack-Chooses nodes required = cases (eligible nodes required) refl
  where
    cases :
        (l : List NodeView)
        → eligible nodes required ≡ l
        → Selection MoreCpu nodes required (pick_min l)
    cases [] e = none_selected MoreCpu nodes required e
    cases (n ∷ ns) e =
        selected MoreCpu nodes required (min_by_cpu n ns) (rw e (min_by_cpu-In n ns))
          (rw e (min_by_cpu-MoreCpu n ns))
