-- ===== src/Tasks/Assignment/Popping.antt =====
-- A pop from the queue of tasks of pallets/tasks/src/lib.rs, and the assignment of the task.
use timechain.Prelude.{
  ℕ, ◌≡◌, refl, inl, inr, some, List, [], ◌∷◌, arith, All, Bool-cases, ◌==◌, if◌then◌else◌, ==_refl,
  All-map, retain, Bool, true, false, ap, sym, ◌∙◌, unwrap_or,
}
use timechain.Storage.{Map, get, get₂, keys, Unique, get₂-remove₂}
use timechain.Tasks.Queue.{pop, remove_at}
use timechain.Tasks.Queue.Fifo.{pop-some, pop_slot, pop_stays, pop_end}
use timechain.Tasks.State.{State}
use timechain.Tasks.Core.{assign_task}
use timechain.Tasks.Assignment.{ledger, except, IsValid}
use timechain.Tasks.Assignment.Updates.{shrink-IsValid}
use timechain.Tasks.Assignment.Steps.{assign_task-IsValid}

-- Every key of a map has a value, and every entry of one with unique keys is found.
pub keys-All :
    {P : ℕ → Type 0} (m : Map (Unit {0})) → ((k : ℕ) → get m k ≡ some tt → P k) → All P (keys m)
unfolding get
keys-All [] h = tt
keys-All {P} ((k, u) ∷ m) h = (
  h k (rw (==_refl k)),
  keys-All {P = P} m
      (λ j e. h j (elim (Bool-cases (j == k)) [ inl same ↦ rw same | inr other ↦ rw other e ])),
)

pub entries-All : (m : Map ℕ) → Unique m → All (λ (e : ℕ × ℕ). get m e.0 ≡ some e.1) m
unfolding get
entries-All [] u = tt
entries-All ((k, v) ∷ m) u = (
  rw (==_refl k),
  All-map (λ (e : ℕ × ℕ). get m e.0 ≡ some e.1) _ (λ e h. ground arith) m (entries-All m u.1),
)

pub retain-All : (P : ℕ → Type 0) (keep : ℕ → Bool) (l : List ℕ) → All P l → All P (retain keep l)
retain-All P keep [] h = tt
retain-All P keep (x ∷ l) h = elim (Bool-cases (keep x)) [
  | inl stays ↦ rw stays (h.0, retain-All P keep l h.1)
  | inr goes ↦ rw goes (retain-All P keep l h.1)
]

module _ (Home : ℕ → ℕ → Type 0) where
  -- The task that is popped does not count until it is in a shard.
  pub pop-IsValid :
      (s : State) (n : ℕ) (hidden : ℕ → Bool)
      → IsValid Home (ledger s)
      → ((u : ℕ) → (pop s.ua_tasks n).1 ≡ some u → hidden u ≡ true)
      → IsValid Home (except hidden (ledger (record s { ua_tasks = (pop s.ua_tasks n).0 })))
  pop-IsValid s n hidden v taken =
      shrink-IsValid Home (ledger s) _ v (λ m j t h. pop_slot s.ua_tasks n m j t h) (λ m k h. h)
        (λ m t h. h) refl refl (omega arith) (λ u h. (shown u h).0)
        (λ m j u h g.
          pop_stays s.ua_tasks n m j u g (λ e. ground (arith, (shown u h).1, taken u e)))
        (pop_end s.ua_tasks n) v.unique_read
    where
      shown :
          (u : ℕ)
          → (if hidden u then false else (ledger s).pending u) ≡ true
          → ((ledger s).pending u ≡ true) × (hidden u ≡ false)
      shown u h = elim (Bool-cases (hidden u)) [
        | inl masked ↦ absurd (ground (arith, masked, h))
        | inr counts ↦ (ground (arith, counts, h), counts)
      ]

  -- The task that was popped is in no other slot.
  popped_unqueued :
      (s : State) (n t : ℕ)
      → IsValid Home (ledger s)
      → (pop s.ua_tasks n).1 ≡ some t
      → (m j : ℕ) → get₂ (pop s.ua_tasks n).0.queue m j ≡ some t
      → ⊥
  popped_unqueued s n t v e m j h =
      let taken = pop-some s.ua_tasks n t e in
      let (same_network, same_index) = v.once n _ m j t taken.1 (pop_slot s.ua_tasks n m j t h) in
      ground (arith, get₂-remove₂ s.ua_tasks.queue n (remove_at s.ua_tasks n) m j)

  pub pop_assign-IsValid :
      (s : State) (n shard t : ℕ)
      → IsValid Home (ledger s)
      → (pop s.ua_tasks n).1 ≡ some t
      → Home n shard
      → IsValid Home (ledger (assign_task (record s { ua_tasks = (pop s.ua_tasks n).0 }) shard t))
  pop_assign-IsValid s n shard t v e may =
      let slot = (pop-some s.ua_tasks n t e).1 in
      assign_task-IsValid Home _ shard t
        (pop-IsValid s n (λ u. u == t) v
          (λ u h. ground (arith, ap (λ o. unwrap_or o u) (sym e ∙ h))))
        (v.waiting n _ t slot) (popped_unqueued s n t v e) (n, may)
        (λ m r. absurd (v.unread m t n _ r slot)) (λ m r h. v.unread m t n _ r slot)
        (v.known_slot n _ t slot)
