-- ===== src/ObjectStore/Interleaving.antt =====
-- The two halves of `put` in crates/ray-object-store/src/store.rs, in an order in which two tasks
-- can run them.
use ray_rust.Common.{ℕ, ◌+◌, ◌≢◌, ◌≤◌, ◌<◌, ◌≡◌, none, List, length, arith}
use ray_rust.Common.HashMap
use ray_rust.Common.HashMap.{HashMap}
use ray_rust.Common.HashMap.Laws.{get-insert}
use ray_rust.Common.HashMap.Sums.{sum-insert}
use ray_rust.Core.Error.{ok}
use ray_rust.Core.Id.{ObjectId, id_eq}
use ray_rust.ObjectStore.{
  InMemoryObjectStore, get_entry, data_size, new_entry, total_size, admit, commit,
}
use ray_rust.ObjectStore.Budget.{WithinBudget, max-commit}

admit-fits :
    (s : InMemoryObjectStore) (bytes : List ℕ)
    → total_size s + length bytes ≤ s.max_memory_bytes
    → admit s bytes ≡ (ok tt, s)
unfolding admit
admit-fits s bytes h = ground arith

commit_twice-size :
    (s : InMemoryObjectStore) (a b : ObjectId) (first second : List ℕ) (t u : ℕ)
    → get_entry s a ≡ none
    → get_entry s b ≡ none
    → a ≢ b
    → total_size (commit (commit s a first t) b second u)
      ≡ total_size s + length first + length second
unfolding commit total_size get_entry
commit_twice-size s a b first second t u na nb ne = ground (
  arith,
  id_eq.beq_iff a b,
  sum-insert data_size s.objects a (new_entry a first t),
  sum-insert data_size (HashMap.insert s.objects a (new_entry a first t)) b (new_entry b second u),
  get-insert s.objects a (new_entry a first t) b,
)

-- Two puts of new and different objects that interleave overrun the budget whenever each fits alone
-- and both together do not: both are admitted on the same store, and the second write goes over the
-- limit.
pub interleaved_puts_overrun :
    (s : InMemoryObjectStore) (a b : ObjectId) (first second : List ℕ) (t u : ℕ)
    → get_entry s a ≡ none
    → get_entry s b ≡ none
    → a ≢ b
    → 0 < s.max_memory_bytes
    → total_size s + length first ≤ s.max_memory_bytes
    → total_size s + length second ≤ s.max_memory_bytes
    → s.max_memory_bytes < total_size s + length first + length second
    → (admit s first ≡ (ok tt, s))
      × (admit s second ≡ (ok tt, s))
      × (¬ WithinBudget (commit (commit s a first t) b second u))
interleaved_puts_overrun s a b first second t u na nb ne pos f g over =
    (admit-fits s first f, admit-fits s second g, λ w. overrun w)
  where
    both :
        total_size (commit (commit s a first t) b second u)
        ≡ total_size s + length first + length second
    both = commit_twice-size s a b first second t u na nb ne

    overrun : WithinBudget (commit (commit s a first t) b second u) → ⊥
    overrun w =
        grind (arith, both, max-commit (commit s a first t) b second u, max-commit s a first t)
