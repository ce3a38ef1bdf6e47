-- ===== src/Raylet/Scheduler/Jobs.antt =====
-- The books of a node (crates/ray-raylet/src/scheduler.rs) when a dispatched task starts or ends,
-- and when a lease is granted.
use mathlib.Core.List.{map-append, append_assoc}
use ray_rust.Common.{
  ℕ, suc, ◌≡◌, refl, sym, ap, ◌∙◌, false, Option, none, some, List, [], ◌∷◌, ◌++◌, take, drop,
  get_elem?, Bool-cases, inl, inr, string_eq, All, All-append, All-take, All-drop, All-get,
  split_at,
}
use ray_rust.Core.Error.{RayResult}
use ray_rust.Core.Id.{WorkerId}
use ray_rust.Core.Resources
use ray_rust.Core.Resources.{Resources}
use ray_rust.Raylet.ResourceManager.{ResourceManager, try_allocate, release}
use ray_rust.Raylet.ResourceManager.Ledger.{
  Balanced, granted-Balanced, release-Balanced, allocate-NonNegative, release-NonNegative,
}
use ray_rust.Raylet.Scheduler.{
  Phase, Job, Node, start_job, start_at, finish_job, finish_at, leases, step,
}
use ray_rust.Raylet.Scheduler.Books.{
  IsFair, IsFairTask, required_by, add_lease, IsSound, Phase-cases,
}

abbrev with_phase : Job → Phase → Job
with_phase job phase = record { spec = job.spec; phase = phase }

abbrev parts : List Job → ℕ → List Job → List Job
parts jobs i middle = take i jobs ++ (middle ++ drop (suc i) jobs)

required_by-parts :
    (jobs : List Job) (i : ℕ) (middle : List Job)
    → required_by (parts jobs i middle)
      ≡ required_by (take i jobs) ++ (required_by middle ++ required_by (drop (suc i) jobs))
required_by-parts jobs i middle =
    rw
      (
        map-append (λ j. j.spec.required_resources) (take i jobs) (middle ++ drop (suc i) jobs),
        map-append (λ j. j.spec.required_resources) middle (drop (suc i) jobs),
      )
      refl

required_by-at :
    (jobs : List Job) (i : ℕ) (job : Job)
    → get_elem? jobs i ≡ some job
    → required_by jobs
      ≡ required_by (take i jobs) ++ job.spec.required_resources ∷ required_by (drop (suc i) jobs)
required_by-at jobs i job h =
    ap required_by (split_at jobs i job h) ∙ required_by-parts jobs i (job ∷ [])

jobs_fair-parts :
    (jobs : List Job) (i : ℕ) (middle : List Job)
    → All (λ j. IsFairTask j.spec) jobs
    → All (λ j. IsFairTask j.spec) middle
    → All (λ j. IsFairTask j.spec) (parts jobs i middle)
jobs_fair-parts jobs i middle h m =
    All-append Fair (take i jobs) _ (All-take Fair i jobs h)
      (All-append Fair middle _ m (All-drop Fair (suc i) jobs h))
  where
    Fair : Job → Type 0
    Fair j = IsFairTask j.spec

start_same_books :
    (n : Node) (i : ℕ) (job : Job) (phase : Phase)
    → get_elem? n.jobs i ≡ some job
    → required_by (parts n.jobs i (record { spec = job.spec; phase = phase } ∷ []))
      ≡ required_by n.jobs
start_same_books n i job phase h =
    required_by-parts n.jobs i (_ ∷ []) ∙ sym (required_by-at n.jobs i job h)

pub start_at-IsSound :
    (total : Resources) (held : List Resources) (n : Node) (i : ℕ) (found : Option Job)
    (worker_id : WorkerId) (pid : ℕ)
    → get_elem? n.jobs i ≡ found
    → IsSound total held n
    → IsSound total held (start_at n i found worker_id pid)
unfolding start_at start_job
start_at-IsSound total held n i none worker_id pid h s = s
start_at-IsSound total held n i (some job) worker_id pid h s = elim (Phase-cases job.phase) [
  | inr (w, e) ↦ rw e s
  | inl e ↦ rw e (record {
    same_total = s.same_total;
    balanced = rw (start_same_books n i job _ h) s.balanced;
    nonneg = s.nonneg;
    jobs_fair =
        jobs_fair-parts n.jobs i (_ ∷ []) s.jobs_fair
          (All-get (λ j. IsFairTask j.spec) n.jobs i job s.jobs_fair h, tt);
    queue_fair = s.queue_fair;
  })
]

release_same_total : (rm : ResourceManager) (q : Resources) → (release rm q).total ≡ rm.total
unfolding release
release_same_total rm q = refl

refused_same :
    (rm : ResourceManager) (q : Resources)
    → Resources.can_satisfy rm.available q ≡ false
    → (try_allocate rm q).1 ≡ rm
unfolding try_allocate
refused_same rm q short = rw short refl

release-IsSound :
    (total : Resources) (held : List Resources) (n : Node) (i : ℕ) (job : Job)
    → get_elem? n.jobs i ≡ some job
    → IsSound total held n
    → Balanced
        (release n.resource_manager job.spec.required_resources)
        (held ++ required_by (take i n.jobs ++ drop (suc i) n.jobs))
release-IsSound total held n i job h s =
    rw
      (
        required_by-parts n.jobs i [],
        sym (append_assoc held (required_by (take i n.jobs)) (required_by (drop (suc i) n.jobs))),
      )
      (release-Balanced n.resource_manager job.spec.required_resources
        (held ++ required_by (take i n.jobs)) (required_by (drop (suc i) n.jobs))
        (All-get (λ j. IsFairTask j.spec) n.jobs i job s.jobs_fair h).0
        (rw
          (
            append_assoc held (required_by (take i n.jobs))
                (job.spec.required_resources ∷ required_by (drop (suc i) n.jobs)),
            sym (required_by-at n.jobs i job h),
          )
          s.balanced))

pub finish_at-IsSound :
    (total : Resources) (held : List Resources) (n : Node) (i : ℕ) (found : Option Job)
    (result : RayResult (List ℕ)) (now : ℕ)
    → get_elem? n.jobs i ≡ found
    → IsSound total held n
    → IsSound total held (finish_at n i found result now)
unfolding finish_at finish_job
finish_at-IsSound total held n i none result now h s = s
finish_at-IsSound total held n i (some job) result now h s = elim (Phase-cases job.phase) [
  | inl e ↦ rw e s
  | inr (w, e) ↦ rw e (record {
    same_total = release_same_total n.resource_manager job.spec.required_resources ∙ s.same_total;
    balanced = release-IsSound total held n i job h s;
    nonneg =
        release-NonNegative n.resource_manager job.spec.required_resources fair.0 fair.1 s.nonneg;
    jobs_fair = jobs_fair-parts n.jobs i [] s.jobs_fair tt;
    queue_fair = s.queue_fair;
  })
]
  where
    fair : IsFairTask job.spec
    fair = All-get (λ j. IsFairTask j.spec) n.jobs i job s.jobs_fair h

pub lease-IsSound :
    (total : Resources) (held : List Resources) (n : Node) (required : Resources)
    → IsSound total held n
    → IsFair required
    → IsSound total (add_lease held n (leases required)) (step n (leases required))
unfolding step
lease-IsSound total held n required s fair =
    elim (Bool-cases (Resources.can_satisfy n.resource_manager.available required)) [
      | inr short ↦ rw (short, refused_same n.resource_manager required short) s
      | inl fits ↦
          let (same, b) =
            granted-Balanced n.resource_manager required (held ++ required_by n.jobs) fair.0
              s.balanced fits in
          rw fits (record {
            same_total = same ∙ s.same_total;
            balanced = b;
            nonneg = allocate-NonNegative n.resource_manager required fair.0 s.nonneg;
            jobs_fair = s.jobs_fair;
            queue_fair = s.queue_fair;
          })
    ]
