-- ===== src/Tasks/Assignment/Adding.antt =====
-- The updates that put something new into an assignment of pallets/tasks/src/lib.rs keep it valid: a
-- task in a slot, a read task, a shard.
use timechain.Prelude.{
  ℕ, true, false, ap, ◌≢◌, u64_max, saturating_add, ◌≤◌, ◌<◌, ◌≡◌, none, some, arith, inl, inr,
  Bool-cases, ◌==◌, if◌then◌else◌,
}
use timechain.Storage.{Unique}
use timechain.Tasks.Assignment.{Ledger, IsValid, read}
use timechain.Tasks.Assignment.Updates.{move-IsPlaced, same-IsPlaced}

module _ (Home : ℕ → ℕ → Type 0) (l l' : Ledger) (v : IsValid Home l) where
  -- Task `t`, which is in no shard, in no queue and is no read task, goes into a slot.
  pub enqueue-IsValid :
      (n i t : ℕ)
      → l.shard_of t ≡ none
      → ((m j : ℕ) → l.slot m j ≡ some t → ⊥)
      → ((m : ℕ) → read l m ≡ some t → ⊥)
      → t ≤ l'.counter
      → l.counter ≤ l'.counter
      → ((m j : ℕ)
          → l'.slot m j ≡ (if m == n then (if j == i then some t else l.slot n j) else l.slot m j))
      → ((u : ℕ) → l'.pending u ≡ true → u ≢ t → l.pending u ≡ true)
      → l.end n ≡ i
      → ((m : ℕ) → l'.end m ≡ (if m == n then saturating_add u64_max i 1 else l.end m))
      → l'.shard_map ≡ l.shard_map
      → l'.shard_of ≡ l.shard_of
      → l'.member ≡ l.member
      → l'.read_map ≡ l.read_map
      → IsValid Home l'
  enqueue-IsValid n i t free unqueued unread known counter slot grown at end holding shard_of member
        reading =
      record {
        held = rw (holding, shard_of) v.held;
        listed = rw (holding, shard_of) v.listed;
        waiting = λ m j u h. rw shard_of (ground (arith, slot m j, v.waiting m j u));
        once = λ m j m' j' u h k.
            ground (arith, slot m j, slot m' j', v.once m j m' j' u, unqueued m j, unqueued m' j');
        unread = λ m u m' j r h.
            let r' : read l m ≡ some u = rw (← reading) r in
            ground (arith, slot m' j, v.unread m u m' j r', unread m);
        read_once = rw reading v.read_once;
        read_home = rw (reading, shard_of) v.read_home;
        alive = rw shard_of v.alive;
        kept = λ u h. elim (Bool-cases (u == t)) [
          | inl same ↦ inl (n, i, ground (arith, slot n i, same))
          | inr other ↦
              let was = grown u h (λ e. ground (arith, e, other)) in
              move-IsPlaced l l' u
                (λ m j g. elim (v.within m j u g) [
                  | inl before ↦ inl (m, j, ground (arith, slot m j, at, before, g))
                  | inr full ↦ inr (inr (m, ground (arith, end m, at, full)))
                ])
                (λ k g. inr (inl (k, rw shard_of g))) (λ m full. ground (arith, end m, at, full))
                (v.kept u was)
        ];
        unread_pending = λ m u r h.
            let r' : read l m ≡ some u = rw (← reading) r in
            elim (Bool-cases (u == t)) [
              | inl same ↦ unread m (ground (arith, same, r'))
              | inr other ↦ v.unread_pending m u r' (grown u h (λ e. ground (arith, e, other)))
            ];
        within = λ m j u h. elim (Bool-cases (m == n)) [
          | inr other ↦ ground (arith, slot m j, end m, other, h, v.within m j u)
          | inl same ↦ elim (Bool-cases (j == i)) [
            | inl last ↦ ground (arith, end m, same, last)
            | inr before ↦ ground (arith, end m, slot m j, same, before, h, at, v.within m j u)
          ]
        ];
        members = rw member v.members;
        known_slot = λ m j u h. ground (arith, slot m j, v.known_slot m j u);
        known_held = λ u k h.
            let h' : l.shard_of u ≡ some k = rw (← shard_of) h in
            omega (arith, v.known_held u k h');
        known_read = λ m u h.
            let h' : read l m ≡ some u = rw (← reading) h in omega (arith, v.known_read m u h');
        unique_shards = rw holding v.unique_shards;
        unique_read = rw reading v.unique_read;
      }

  -- A new task id becomes the read task of a network.
  pub new_read-IsValid :
      (n t : ℕ)
      → l.counter < t
      → t ≤ l'.counter
      → ((m : ℕ) → read l' m ≡ (if m == n then some t else read l m))
      → l'.pending t ≡ false
      → ((u : ℕ) → l'.pending u ≡ true → l.pending u ≡ true)
      → l'.end ≡ l.end
      → l'.slot ≡ l.slot
      → l'.shard_map ≡ l.shard_map
      → l'.shard_of ≡ l.shard_of
      → l'.member ≡ l.member
      → Unique l'.read_map
      → IsValid Home l'
  new_read-IsValid n t fresh known reading closed fewer end slot holding shard_of member unique_r =
      record {
        held = rw (holding, shard_of) v.held;
        listed = rw (holding, shard_of) v.listed;
        waiting = rw (slot, shard_of) v.waiting;
        once = rw slot v.once;
        unread = λ m u m' j r h.
            let h' : l.slot m' j ≡ some u = rw (← slot) h in
            ground (arith, reading m, v.unread m u m' j, v.known_slot m' j u h');
        read_once = λ m m' u a b.
            ground (
              arith,
              reading m,
              reading m',
              v.read_once m m' u,
              v.known_read m u,
              v.known_read m' u,
            );
        read_home = λ m u k r h.
            let h' : l.shard_of u ≡ some k = rw (← shard_of) h in
            ground (arith, reading m, v.read_home m u k, v.known_held u k h');
        alive = rw shard_of v.alive;
        kept = λ u h. same-IsPlaced Home l l' v u slot (ap (λ f. f u) shard_of) end (fewer u h);
        unread_pending =
            λ m u r h. ground (arith, reading m, closed, h, fewer u, v.unread_pending m u);
        within = rw (slot, end) v.within;
        members = rw member v.members;
        known_slot = λ m j u h.
            let h' : l.slot m j ≡ some u = rw (← slot) h in omega (arith, v.known_slot m j u h');
        known_held = λ u k h.
            let h' : l.shard_of u ≡ some k = rw (← shard_of) h in
            omega (arith, v.known_held u k h');
        known_read = λ m u h. ground (arith, reading m, v.known_read m u);
        unique_shards = rw holding v.unique_shards;
        unique_read = unique_r;
      }

  -- A shard joins a network that it may work for.
  pub join-IsValid :
      (n shard : ℕ)
      → Home n shard
      → ((m k : ℕ)
          → l'.member m k
            ≡ (if m == n then (if k == shard then some tt else l.member n k) else l.member m k))
      → l'.pending ≡ l.pending
      → l'.end ≡ l.end
      → l'.slot ≡ l.slot
      → l'.shard_map ≡ l.shard_map
      → l'.shard_of ≡ l.shard_of
      → l'.read_map ≡ l.read_map
      → l'.counter ≡ l.counter
      → IsValid Home l'
  join-IsValid n shard made member pending end slot holding shard_of reading counter = record {
    held = rw (holding, shard_of) v.held;
    listed = rw (holding, shard_of) v.listed;
    waiting = rw (slot, shard_of) v.waiting;
    once = rw slot v.once;
    unread = rw (slot, reading) v.unread;
    read_once = rw reading v.read_once;
    read_home = rw (reading, shard_of) v.read_home;
    alive = rw shard_of v.alive;
    kept = λ u h. same-IsPlaced Home l l' v u slot (ap (λ f. f u) shard_of) end (rw (← pending) h);
    unread_pending = rw (reading, pending) v.unread_pending;
    within = rw (slot, end) v.within;
    members = λ m k h. ground (arith, member m k, v.members m k);
    known_slot = rw (slot, counter) v.known_slot;
    known_held = rw (shard_of, counter) v.known_held;
    known_read = rw (reading, counter) v.known_read;
    unique_shards = rw holding v.unique_shards;
    unique_read = rw reading v.unique_read;
  }
