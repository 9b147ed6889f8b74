-- ===== src/Tasks/Queue/Fifo.antt =====
-- The queue of pallets/tasks/src/queue.rs as a list: the abstract view that its two index maps and
-- its slots represent.
use timechain.Prelude.{
  ℕ, suc, ◌-◌, ◌≤◌, ◌<◌, ◌≡◌, refl, sym, ap, ◌∙◌, ◌⊎◌, inl, inr, true, false, Option, none, some,
  List, [], ◌∷◌, ◌++◌, arith, leb, is_some, Bool-cases, u64_max, saturating_add, if◌then◌else◌,
  ◌==◌, ==_refl,
}
use timechain.Storage.{get₂, remove₂, get-insert_self, get₂-insert₂, get₂-remove₂}
use timechain.Tasks.Queue.{QueueImpl, insert_at, remove_at, push, pop, skip, advance}
use timechain.Tasks.Queue.Slots.{
  is_some_value, collect, collect_congr, collect_taken, collect_end, collect_extend, Stops,
  skip-Stops,
}

module _ {ℓ} {V : Type ℓ} where
  unfoldable pub view : QueueImpl V → ℕ → List V
  view q network =
      collect (get₂ q.queue network) (remove_at q network)
        (insert_at q network - remove_at q network)

  -- The indices are in order and in range, and the remove index stands at a value or at the end.
  pub record IsValid (q : QueueImpl V) (network : ℕ) : Type 0 where
    pub ordered : remove_at q network ≤ insert_at q network
    pub in_range : insert_at q network ≤ u64_max
    pub at_head :
        remove_at q network < insert_at q network
        → is_some (get₂ q.queue network (remove_at q network)) ≡ true

  pub insert_at-push :
      (q : QueueImpl V) (n : ℕ) (v : V)
      → insert_at q n < u64_max
      → insert_at (push q n v) n ≡ suc (insert_at q n)
  unfolding push
  insert_at-push q n v h =
      rw (get-insert_self q.insert_index n (saturating_add u64_max (insert_at q n) 1)) (omega arith)

  remove_at-push : (q : QueueImpl V) (n : ℕ) (v : V) → remove_at (push q n v) n ≡ remove_at q n
  unfolding push
  remove_at-push q n v = refl

  push_slot :
      (q : QueueImpl V) (n j : ℕ) (v : V)
      → get₂ (push q n v).queue n j ≡ (if j == insert_at q n then some v else get₂ q.queue n j)
  unfolding push
  push_slot q n j v = ground (arith, get₂-insert₂ q.queue n (insert_at q n) n j v)

  -- A push appends to the view, as long as the insert index can still grow.
  pub view-push :
      (q : QueueImpl V) (n : ℕ) (v : V)
      → IsValid q n
      → insert_at q n < u64_max
      → view (push q n v) n ≡ view q n ++ v ∷ []
  unfolding view
  view-push q n v ok room =
      rw (insert_at-push q n v room, remove_at-push q n v)
        (collect_extend (get₂ q.queue n) (get₂ (push q n v).queue n) (remove_at q n) (insert_at q n)
          v ok.ordered (λ j h. ground (arith, push_slot q n j v))
          (ground (arith, push_slot q n (insert_at q n) v)))

  pub push-IsValid :
      (q : QueueImpl V) (n : ℕ) (v : V)
      → IsValid q n
      → insert_at q n < u64_max
      → IsValid (push q n v) n
  push-IsValid q n v ok room = record {
    ordered = omega (arith, insert_at-push q n v room, remove_at-push q n v, ok.ordered);
    in_range = omega (arith, insert_at-push q n v room);
    at_head = λ h. ground (
      arith,
      ok.ordered,
      ok.at_head,
      insert_at-push q n v room,
      remove_at-push q n v,
      push_slot q n (remove_at q n) v,
    );
  }

  -- How a pop of the view `xs` may end: the queue is empty and stays as it is, or its oldest
  -- value comes back and the rest is left.
  abbrev pub Pops : QueueImpl V → ℕ → QueueImpl V × Option V → Type ℓ
  Pops q n (q', r) =
      ((view q n ≡ []) × (r ≡ none) × (q' ≡ q))
      ⊎ ((v : V) × (r ≡ some v) × (view q n ≡ v ∷ view q' n) × IsValid q' n)

  -- The queue after its head has been taken.
  taken : QueueImpl V → ℕ → QueueImpl V
  taken q n = record q { queue = remove₂ q.queue n (remove_at q n) }

  next_head : QueueImpl V → ℕ → ℕ
  next_head q n =
      skip (get₂ (remove₂ q.queue n (remove_at q n)) n) (insert_at q n) (insert_at q n)
        (saturating_add u64_max (remove_at q n) 1)

  remove_at-advance :
      (q : QueueImpl V) (n : ℕ)
      → remove_at (advance (taken q n) n (insert_at q n) (remove_at q n)) n ≡ next_head q n
  unfolding advance taken next_head
  remove_at-advance q n = rw (get-insert_self q.remove_index n (next_head q n))

  next_head-Stops :
      (q : QueueImpl V) (n : ℕ)
      → remove_at q n < insert_at q n
      → insert_at q n ≤ u64_max
      → Stops
          (get₂ (remove₂ q.queue n (remove_at q n)) n)
          (insert_at q n)
          (suc (remove_at q n))
          (next_head q n)
  unfolding next_head
  next_head-Stops q n h top =
      let next : saturating_add u64_max (remove_at q n) 1 ≡ suc (remove_at q n) = omega arith in
      rw next
        (skip-Stops _ (insert_at q n) (insert_at q n) (suc (remove_at q n)) h top (omega arith))

  taken_slot :
      (q : QueueImpl V) (n j : ℕ)
      → remove_at q n < j
      → get₂ (remove₂ q.queue n (remove_at q n)) n j ≡ get₂ q.queue n j
  taken_slot q n j h = ground (arith, get₂-remove₂ q.queue n (remove_at q n) n j)

  advance-IsValid :
      (q : QueueImpl V) (n : ℕ)
      → remove_at q n < insert_at q n
      → insert_at q n ≤ u64_max
      → IsValid (advance (taken q n) n (insert_at q n) (remove_at q n)) n
  advance-IsValid q n h top =
      let s = next_head-Stops q n h top in
      record {
        ordered = rw (remove_at-advance q n) (unfold advance taken in s.within);
        in_range = unfold advance taken in top;
        at_head = rw (remove_at-advance q n) (unfold advance taken in s.taken);
      }

  view-advance :
      (q : QueueImpl V) (n : ℕ)
      → remove_at q n < insert_at q n
      → insert_at q n ≤ u64_max
      → view (advance (taken q n) n (insert_at q n) (remove_at q n)) n
        ≡ collect (get₂ q.queue n) (suc (remove_at q n)) (insert_at q n - suc (remove_at q n))
  unfolding view
  view-advance q n h top =
      let s = next_head-Stops q n h top in
      rw (remove_at-advance q n) (
        unfold advance taken in
        (s.same ∙ collect_congr _ _ (suc (remove_at q n)) _ (λ j a b. taken_slot q n j a)))

  view_empty : (q : QueueImpl V) (n : ℕ) → insert_at q n ≤ remove_at q n → view q n ≡ []
  unfolding view
  view_empty q n h = collect_end (get₂ q.queue n) (remove_at q n) (insert_at q n) h

  view_head :
      (q : QueueImpl V) (n : ℕ) (v : V)
      → remove_at q n < insert_at q n
      → insert_at q n ≤ u64_max
      → get₂ q.queue n (remove_at q n) ≡ some v
      → view q n ≡ v ∷ view (advance (taken q n) n (insert_at q n) (remove_at q n)) n
  unfolding view
  view_head q n v h top e =
      collect_taken (get₂ q.queue n) (remove_at q n) (insert_at q n) v h e
      ∙ ap (◌∷◌ v) (sym (unfold view in view-advance q n h top))

  pop_head :
      (q : QueueImpl V) (n : ℕ)
      → (leb (insert_at q n) (remove_at q n)) ≡ false
      → IsValid q n
      → (v : V) × (get₂ q.queue n (remove_at q n) ≡ some v)
        × (view q n ≡ v ∷ view (advance (taken q n) n (insert_at q n) (remove_at q n)) n)
        × IsValid (advance (taken q n) n (insert_at q n) (remove_at q n)) n
  pop_head q n more ok =
      let below : remove_at q n < insert_at q n = ground arith in
      let head = is_some_value (get₂ q.queue n (remove_at q n)) (ok.at_head below) in
      (
        head.0,
        head.1,
        view_head q n head.0 below ok.in_range head.1,
        advance-IsValid q n below ok.in_range,
      )

  -- A pop of a queue whose indices are in order takes the oldest value, and leaves an empty queue
  -- as it is.
  pub pop-Pops : (q : QueueImpl V) (n : ℕ) → IsValid q n → Pops q n (pop q n)
  unfolding pop taken
  pop-Pops q n ok = elim (Bool-cases (leb (insert_at q n) (remove_at q n))) [
    | inl none_left ↦ rw none_left (inl (view_empty q n (ground arith), refl, refl))
    | inr more ↦ rw (more, ==_refl (remove_at q n)) (inr (pop_head q n more ok))
  ]

  pub insert_at-pop : (q : QueueImpl V) (n : ℕ) → insert_at (pop q n).0 n ≡ insert_at q n
  unfolding pop advance
  insert_at-pop q n = ground arith

  -- A pop that yields a value takes it out of the slot at the remove index.
  pub pop-some :
      (q : QueueImpl V) (n : ℕ) (v : V)
      → (pop q n).1 ≡ some v
      → ((pop q n).0.queue ≡ remove₂ q.queue n (remove_at q n))
        × (get₂ q.queue n (remove_at q n) ≡ some v)
  unfolding pop advance
  pop-some q n v h = ground arith

  -- A pop puts nothing into a slot.
  pub pop_slot :
      (q : QueueImpl V) (n m j : ℕ) (v : V)
      → get₂ (pop q n).0.queue m j ≡ some v
      → get₂ q.queue m j ≡ some v
  unfolding pop advance
  pop_slot q n m j v h = ground (arith, get₂-remove₂ q.queue n (remove_at q n) m j)

  -- It takes no other value than the one that it gives out.
  pub pop_stays :
      (q : QueueImpl V) (n m j : ℕ) (v : V)
      → get₂ q.queue m j ≡ some v
      → ((pop q n).1 ≡ some v → ⊥)
      → get₂ (pop q n).0.queue m j ≡ some v
  unfolding pop advance
  pop_stays q n m j v h other = elim (Bool-cases (leb (insert_at q n) (remove_at q n))) [
    | inl none_left ↦ rw none_left h
    | inr more ↦
        let apart : get₂ q.queue n (remove_at q n) ≡ some v → ⊥ =
          rw (more, ==_refl (remove_at q n)) at other in
        rw (more, ==_refl (remove_at q n))
          (ground (arith, get₂-remove₂ q.queue n (remove_at q n) m j, h, apart))
  ]

  pub pop_end : (q : QueueImpl V) (n : ℕ) → insert_at (pop q n).0 ≡ insert_at q
  unfolding pop advance
  pop_end q n = elim (Bool-cases (leb (insert_at q n) (remove_at q n))) [
    | inl none_left ↦ rw none_left refl
    | inr more ↦ rw (more, ==_refl (remove_at q n)) refl
  ]
