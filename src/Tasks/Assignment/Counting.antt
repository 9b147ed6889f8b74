-- ===== src/Tasks/Assignment/Counting.antt =====
-- Which tasks count as open, and which shards may work, in an assignment of
-- pallets/tasks/src/lib.rs.
use timechain.Prelude.{
  ℕ, refl, Bool, true, false, ◌≢◌, ◌≡◌, some, arith, subst, inl, inr, Bool-cases, ◌==◌,
}
use timechain.Tasks.Assignment.{Ledger, IsValid, except}
use timechain.Tasks.Assignment.Updates.{shrink-IsValid}

-- Who may work for a network may be told otherwise, as long as the shards in use still may.
pub rehome-IsValid :
    (Home Home' : ℕ → ℕ → Type 0) (l : Ledger)
    → ((n t k : ℕ) → l.shard_of t ≡ some k → Home n k → Home' n k)
    → ((n k : ℕ) → l.member n k ≡ some tt → Home n k → Home' n k)
    → IsValid Home l
    → IsValid Home' l
rehome-IsValid Home Home' l in_use listed v = record {
  held = v.held;
  listed = v.listed;
  waiting = v.waiting;
  once = v.once;
  unread = v.unread;
  read_once = v.read_once;
  read_home = λ n t k r h. in_use n t k h (v.read_home n t k r h);
  alive = λ t k h. let (n, home) = v.alive t k h in (n, in_use n t k h home);
  members = λ n k h. listed n k h (v.members n k h);
  kept = v.kept;
  unread_pending = v.unread_pending;
  within = v.within;
  known_slot = v.known_slot;
  known_held = v.known_held;
  known_read = v.known_read;
  unique_shards = v.unique_shards;
  unique_read = v.unique_read;
}

-- Open tasks need not count.
pub except-IsValid :
    (Home : ℕ → ℕ → Type 0) (l : Ledger) (hidden : ℕ → Bool)
    → IsValid Home l
    → IsValid Home (except hidden l)
except-IsValid Home l hidden v =
    shrink-IsValid Home l (except hidden l) v (λ n i t h. h) (λ n k h. h) (λ n t h. h) refl refl
      (omega arith)
      (λ u h. elim (Bool-cases (hidden u)) [
        | inl masked ↦ absurd (ground (arith, masked, h))
        | inr counts ↦ ground (arith, counts, h)
      ])
      (λ n i u h g. g) refl v.unique_read

pub except_other :
    (l : Ledger) (t u : ℕ) → l.pending u ≡ true → u ≢ t → (except (λ x. x == t) l).pending u ≡ true
except_other l t u h ne = let apart : (u == t) ≡ false = ground (arith, ne) in rw apart h

-- A task that is not open need not be left out.
pub include-IsValid :
    (Home : ℕ → ℕ → Type 0) (l : Ledger) (t : ℕ)
    → (l.pending t ≡ true → ⊥)
    → IsValid Home (except (λ x. x == t) l)
    → IsValid Home l
include-IsValid Home l t closed v =
    shrink-IsValid Home (except (λ x. x == t) l) l v (λ n i t h. h) (λ n k h. h) (λ n t h. h) refl
      refl (omega arith)
      (λ u h. except_other l t u h (λ e. closed (subst (λ x. l.pending x ≡ true) e h)))
      (λ n i u h g. g) refl v.unique_read
