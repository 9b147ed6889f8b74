-- ===== src/Tasks/Assignment/Updates.antt =====
-- The updates that the operations of pallets/tasks/src/lib.rs make to an assignment keep it valid.
use timechain.Prelude.{
  ℕ, true, ◌∙◌, ==→eq, ◌≢◌, u64_max, ◌≤◌, ◌≡◌, none, some, arith, subst, inl, inr, Bool-cases, ◌==◌,
  if◌then◌else◌,
}
use timechain.Storage.{Unique}
use timechain.Tasks.Assignment.{Ledger, IsPlaced, IsValid, holds, read}

pub move-IsPlaced :
    (l l' : Ledger) (t : ℕ)
    → ((n i : ℕ) → l.slot n i ≡ some t → IsPlaced l' t)
    → ((k : ℕ) → l.shard_of t ≡ some k → IsPlaced l' t)
    → ((n : ℕ) → u64_max ≤ l.end n → u64_max ≤ l'.end n)
    → IsPlaced l t
    → IsPlaced l' t
move-IsPlaced l l' t queued held later (inl (n, i, h)) = queued n i h
move-IsPlaced l l' t queued held later (inr (inl (k, h))) = held k h
move-IsPlaced l l' t queued held later (inr (inr (n, full))) = inr (inr (n, later n full))

module _ (Home : ℕ → ℕ → Type 0) (l l' : Ledger) (v : IsValid Home l) where
  -- An pending task keeps its slot or its shard.
  pub same-IsPlaced :
      (t : ℕ)
      → l'.slot ≡ l.slot
      → l'.shard_of t ≡ l.shard_of t
      → l'.end ≡ l.end
      → l.pending t ≡ true
      → IsPlaced l' t
  same-IsPlaced t slot shard_of end was =
      move-IsPlaced l l' t (λ n i h. inl (n, i, rw slot h)) (λ k h. inr (inl (k, shard_of ∙ h)))
        (λ n full. rw end full) (v.kept t was)

  -- Task `t`, which is neither queued nor in a shard, is assigned to `shard`. If it is a read task,
  -- the shard may work for its network.
  pub assign-IsValid :
      (shard t : ℕ)
      → l.shard_of t ≡ none
      → ((n i : ℕ) → l.slot n i ≡ some t → ⊥)
      → ((n : ℕ) × Home n shard)
      → ((n : ℕ) → read l n ≡ some t → Home n shard)
      → ((n : ℕ) → read l n ≡ some t → l'.pending t ≡ true → ⊥)
      → ((u : ℕ) → l'.pending u ≡ true → u ≢ t → l.pending u ≡ true)
      → l'.end ≡ l.end
      → t ≤ l.counter
      → ((k u : ℕ)
          → holds l' k u
            ≡ (if k == shard then (if u == t then some tt else holds l shard u) else holds l k u))
      → ((u : ℕ) → l'.shard_of u ≡ (if u == t then some shard else l.shard_of u))
      → l'.slot ≡ l.slot
      → l'.member ≡ l.member
      → l'.read_map ≡ l.read_map
      → l'.counter ≡ l.counter
      → ((k : ℕ) → Unique (l'.shard_map k))
      → IsValid Home l'
  assign-IsValid shard t free unqueued may home_read closed grown end known holding shard_of slot
        member reading counter unique_s =
      record {
        held = λ k u h.
            ground (arith, v.held k u, holding k u, shard_of u, v.held k t, v.held shard u);
        listed = λ u k h. ground (arith, v.listed u k, holding k u, shard_of u);
        waiting = λ n i u h.
            let h' : l.slot n i ≡ some u = rw (← slot) h in
            ground (arith, shard_of u, v.waiting n i u h', unqueued n i);
        once = rw slot v.once;
        unread = rw (slot, reading) v.unread;
        read_once = rw reading v.read_once;
        read_home = λ n u k r h.
            let r' : read l n ≡ some u = rw (← reading) r in
            ground (arith, shard_of u, v.read_home n u k r', home_read n);
        alive = λ u k h. elim (Bool-cases (u == t)) [
          | inl same ↦
              let e : shard ≡ k = ground (arith, shard_of u, same, h) in
              subst (λ j. (n : ℕ) × Home n j) e may
          | inr other ↦ v.alive u k (ground (arith, shard_of u, other, h))
        ];
        kept = λ u h. elim (Bool-cases (u == t)) [
          | inl same ↦ inr (inl (shard, ground (arith, shard_of u, same)))
          | inr other ↦
              same-IsPlaced u slot (ground (arith, shard_of u, other)) end
                (grown u h (λ e. ground (arith, e, other)))
        ];
        unread_pending = λ n u r h.
            let r' : read l n ≡ some u = rw (← reading) r in
            elim (Bool-cases (u == t)) [
              | inl same ↦
                  closed n (ground (arith, same, r'))
                    (subst (λ x. l'.pending x ≡ true) (==→eq u t same) h)
              | inr other ↦ v.unread_pending n u r' (grown u h (λ e. ground (arith, e, other)))
            ];
        within = rw (slot, end) v.within;
        members = rw member v.members;
        known_slot = rw (slot, counter) v.known_slot;
        known_held = λ u k h. ground (arith, shard_of u, v.known_held u k, counter);
        known_read = rw (reading, counter) v.known_read;
        unique_shards = unique_s;
        unique_read = rw reading v.unique_read;
      }

  -- Queued tasks, members and read tasks may go, and task ids may be given out.
  pub shrink-IsValid :
      ((n i t : ℕ) → l'.slot n i ≡ some t → l.slot n i ≡ some t)
      → ((n k : ℕ) → l'.member n k ≡ some tt → l.member n k ≡ some tt)
      → ((n t : ℕ) → read l' n ≡ some t → read l n ≡ some t)
      → l'.shard_map ≡ l.shard_map
      → l'.shard_of ≡ l.shard_of
      → l.counter ≤ l'.counter
      → ((u : ℕ) → l'.pending u ≡ true → l.pending u ≡ true)
      → ((n i u : ℕ) → l'.pending u ≡ true → l.slot n i ≡ some u → l'.slot n i ≡ some u)
      → l'.end ≡ l.end
      → Unique l'.read_map
      → IsValid Home l'
  shrink-IsValid slot member reading holding shard_of counter fewer stays end unique_r = record {
    held = rw (holding, shard_of) v.held;
    listed = rw (holding, shard_of) v.listed;
    waiting = λ n i t h. rw shard_of (v.waiting n i t (slot n i t h));
    once = λ n i m j t h k. v.once n i m j t (slot n i t h) (slot m j t k);
    unread = λ n t m i r h. v.unread n t m i (reading n t r) (slot m i t h);
    read_once = λ n m t a b. v.read_once n m t (reading n t a) (reading m t b);
    read_home = λ n t k r h. v.read_home n t k (reading n t r) (rw (← shard_of) h);
    alive = rw shard_of v.alive;
    kept = λ u h.
        move-IsPlaced l l' u (λ n i g. inl (n, i, stays n i u h g))
          (λ k g. inr (inl (k, rw shard_of g))) (λ n full. rw end full) (v.kept u (fewer u h));
    unread_pending = λ n t r h. v.unread_pending n t (reading n t r) (fewer t h);
    within = λ n i t h. rw end (v.within n i t (slot n i t h));
    members = λ n k h. v.members n k (member n k h);
    known_slot = λ n i t h. omega (arith, v.known_slot n i t (slot n i t h));
    known_held = λ t k h.
        let h' : l.shard_of t ≡ some k = rw (← shard_of) h in omega (arith, v.known_held t k h');
    known_read = λ n t h. omega (arith, v.known_read n t (reading n t h));
    unique_shards = rw holding v.unique_shards;
    unique_read = unique_r;
  }

  -- Task `t` leaves its shard.
  pub release-IsValid :
      (shard t : ℕ)
      → l.shard_of t ≡ some shard
      → ((k u : ℕ)
          → holds l' k u
            ≡ (if k == shard then (if u == t then none else holds l shard u) else holds l k u))
      → ((u : ℕ) → l'.shard_of u ≡ (if u == t then none else l.shard_of u))
      → ((u : ℕ) → l'.pending u ≡ true → (l.pending u ≡ true) × (u ≢ t))
      → l'.end ≡ l.end
      → l'.slot ≡ l.slot
      → l'.member ≡ l.member
      → l'.read_map ≡ l.read_map
      → l'.counter ≡ l.counter
      → ((k : ℕ) → Unique (l'.shard_map k))
      → IsValid Home l'
  release-IsValid shard t assigned holding shard_of freed end slot member reading counter unique_s =
      record {
        held = λ k u h.
            ground (arith, v.held k u, holding k u, shard_of u, v.held k t, v.held shard u);
        listed = λ u k h. ground (arith, v.listed u k, holding k u, shard_of u);
        waiting = λ n i u h.
            let h' : l.slot n i ≡ some u = rw (← slot) h in
            ground (arith, shard_of u, v.waiting n i u h');
        once = rw slot v.once;
        unread = rw (slot, reading) v.unread;
        read_once = rw reading v.read_once;
        read_home = λ n u k r h.
            let r' : read l n ≡ some u = rw (← reading) r in
            ground (arith, shard_of u, v.read_home n u k r');
        alive = λ u k h. v.alive u k (ground (arith, shard_of u, h));
        kept = λ u h.
            let (was, other) = freed u h in
            same-IsPlaced u slot (ground (arith, shard_of u, other)) end was;
        unread_pending = λ n u r h.
            let r' : read l n ≡ some u = rw (← reading) r in v.unread_pending n u r' (freed u h).0;
        within = rw (slot, end) v.within;
        members = rw member v.members;
        known_slot = rw (slot, counter) v.known_slot;
        known_held = λ u k h. ground (arith, shard_of u, v.known_held u k, counter);
        known_read = rw (reading, counter) v.known_read;
        unique_shards = unique_s;
        unique_read = rw reading v.unique_read;
      }
