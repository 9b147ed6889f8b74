-- ===== src/Tasks/Batches/Filling.antt =====
-- The loop of `prepare_batches` in pallets/tasks/src/lib.rs that empties the queue of a network: it ends,
-- and no operation is lost, doubled or moved.
use timechain.Prelude.{
  ℕ, zero, suc, ◌+◌, ◌-◌, ◌≤◌, ◌<◌, ◌≡◌, ◌⊎◌, refl, sym, subst, ap, ◌∙◌, Option, none, some, List,
  [], ◌∷◌, ◌++◌, arith, length, get_elem?, Bool-cases, inl, inr, ◌==◌, ==→eq, saturating_add,
  u32_max, u64_max,
}
use timechain.Storage.{get, insert, get-insert_self, get-insert_ne}
use timechain.Primitives.Gmp.{GatewayOp, GatewayMessage}
use timechain.Primitives.Batch.{BatchBuilder, push}
use timechain.Primitives.Batch.Order.{push_all}
use timechain.Tasks.Queue.{QueueImpl, pop}
use timechain.Tasks.Queue.Fifo.{view, IsValid, pop-Pops, Pops}
use timechain.Tasks.State.{State, Config}
use timechain.Tasks.Batches.{start_some, start_batch, fill_batches}
use timechain.Tasks.Batches.Starting.{start_batch-stock}

stored_cons :
    (m : GatewayMessage) (ms : List GatewayMessage) (c : ℕ) (look : ℕ → Option GatewayMessage)
    → look c ≡ some m
    → ((i : ℕ) (x : GatewayMessage) → get_elem? ms i ≡ some x → look (suc c + i) ≡ some x)
    → (i : ℕ) (x : GatewayMessage) → get_elem? (m ∷ ms) i ≡ some x
    → look (c + i) ≡ some x
stored_cons m ms c look first rest zero x h =
    let e : c + 0 ≡ c = omega arith in ap look e ∙ first ∙ h
stored_cons m ms c look first rest (suc i) x h =
    let e : c + suc i ≡ suc c + i = omega arith in ap look e ∙ rest i x h

module _ (cfg : Config) where
  -- What the loop leaves: `ops` were popped, in the order of the queue, and fed to the builder; the
  -- batches that the builder gave out are stored under the next batch ids.
  pub record Filled (s : State) (n : ℕ) (b : BatchBuilder) (started : ℕ)
      (r : State × BatchBuilder × ℕ) : Type 0 where
    pub ops : List GatewayOp
    pub order : view s.ops n ≡ ops ++ view r.0.ops n
    pub held : r.1 ≡ (push_all b ops).0
    pub stored :
        (i : ℕ) (m : GatewayMessage)
        → get_elem? (push_all b ops).1 i ≡ some m
        → get r.0.batch_message (s.batch_id_counter + i) ≡ some m
    pub kept : (j : ℕ) → j < s.batch_id_counter → get r.0.batch_message j ≡ get s.batch_message j
    pub counter : r.0.batch_id_counter ≡ s.batch_id_counter + length (push_all b ops).1
    pub counted :
        started + length (push_all b ops).1 ≤ u32_max → r.2 ≡ started + length (push_all b ops).1
    -- It ended because the queue was empty, or at one batch less than the maximum.
    pub ended : (view r.0.ops n ≡ []) ⊎ (r.2 ≡ cfg.max_batches_per_block - 1)

  nothing :
      (s : State) (n : ℕ) (b : BatchBuilder) (started : ℕ)
      → (view s.ops n ≡ []) ⊎ (started ≡ cfg.max_batches_per_block - 1)
      → Filled s n b started (s, b, started)
  unfolding push_all
  nothing s n b started e = record {
    ops = [];
    order = refl;
    held = refl;
    stored = λ i m h. absurd (cc);
    kept = λ j h. refl;
    counter = omega arith;
    counted = λ h. omega arith;
    ended = e;
  }

  prepend :
      (s : State) (n : ℕ) (b : BatchBuilder) (started : ℕ) (queue : QueueImpl GatewayOp)
      (op : GatewayOp) (b' : BatchBuilder) (batch : Option GatewayMessage)
      (r : State × BatchBuilder × ℕ)
      → push b op ≡ (b', batch)
      → view s.ops n ≡ op ∷ view queue n
      → s.batch_id_counter < u64_max
      → (let t = start_some cfg (record s { ops = queue }) n started batch in Filled t.0 n b' t.1 r)
      → Filled s n b started r
  unfolding push_all start_some
  prepend s n b started queue op b' none r pushed popped room f = record {
    ops = op ∷ f.ops;
    order = popped ∙ ap (◌∷◌ op) f.order;
    held = rw pushed f.held;
    stored = rw pushed f.stored;
    kept = f.kept;
    counter = rw pushed f.counter;
    counted = rw pushed f.counted;
    ended = f.ended;
  }
  prepend s n b started queue op b' (some m) r pushed popped room f =
      let st = start_batch-stock cfg (record s { ops = queue }) n m in
      let ops_same = ap (λ x. x.ops) st in
      let messages = ap (λ x. x.batches) st in
      let next : (start_batch cfg (record s { ops = queue }) n m).batch_id_counter
          ≡ suc s.batch_id_counter =
        ap (λ x. x.counter) st ∙ omega arith in
      let same : (j : ℕ)
          → get (start_batch cfg (record s { ops = queue }) n m).batch_message j
            ≡ get (insert s.batch_message s.batch_id_counter m) j =
        λ j. ap (λ x. get x j) messages in
      record {
        ops = op ∷ f.ops;
        order = popped ∙ ap (◌∷◌ op) (sym (ap (λ q. view q n) ops_same) ∙ f.order);
        held = rw pushed f.held;
        stored = rw pushed (
            stored_cons m (push_all b' f.ops).1 s.batch_id_counter (get r.0.batch_message)
              (f.kept s.batch_id_counter (omega (arith, next))
                ∙ same s.batch_id_counter
                ∙ get-insert_self s.batch_message s.batch_id_counter m)
              (λ i x h. ap (λ c. get r.0.batch_message (c + i)) (sym next) ∙ f.stored i x h));
        kept = λ j h.
            f.kept j (omega (arith, next))
            ∙ same j
            ∙ get-insert_ne s.batch_message s.batch_id_counter j m (λ e. omega arith);
        counter = rw pushed (omega (arith, next, f.counter));
        counted = rw pushed (λ h.
            let one : saturating_add u32_max started 1 ≡ started + 1 = omega (arith, h) in
            omega (arith, one, h, f.counted (omega (arith, one, h))));
        ended = f.ended;
      }

  start_some_ops :
      (s : State) (n started : ℕ) (batch : Option GatewayMessage)
      → (start_some cfg s n started batch).0.ops ≡ s.ops
  unfolding start_some
  start_some_ops s n started none = refl
  start_some_ops s n started (some m) = ap (λ x. x.ops) (start_batch-stock cfg s n m)

  start_some_counter :
      (s : State) (n started : ℕ) (batch : Option GatewayMessage)
      → (start_some cfg s n started batch).0.batch_id_counter ≤ suc s.batch_id_counter
  unfolding start_some
  start_some_counter s n started none = omega arith
  start_some_counter s n started (some m) =
      let e = ap (λ x. x.counter) (start_batch-stock cfg s n m) in omega (arith, e)

  fill_step :
      (fuel : ℕ) (s : State) (n : ℕ) (b : BatchBuilder) (started : ℕ)
      → ((s' : State) (b' : BatchBuilder) (started' : ℕ)
          → IsValid s'.ops n
          → length (view s'.ops n) < fuel
          → s'.batch_id_counter + fuel ≤ u64_max
          → Filled s' n b' started' (fill_batches cfg fuel s' n b' started'))
      → length (view s.ops n) < suc fuel
      → s.batch_id_counter + suc fuel ≤ u64_max
      → Pops s.ops n (pop s.ops n)
      → Filled s n b started (fill_batches cfg (suc fuel) s n b started)
  unfolding fill_batches
  fill_step fuel s n b started rest fits room (inl (empty, none_left, same)) =
      rw (none_left, fill_batches, same) (nothing s n b started (inl empty))
  fill_step fuel s n b started rest fits room (inr (op, taken, front, ok)) =
      let queue = (pop s.ops n).0 in
      let (b', batch) = push b op in
      let (s', started') = start_some cfg (record s { ops = queue }) n started batch in
      let ops_same = start_some_ops (record s { ops = queue }) n started batch in
      let count = start_some_counter (record s { ops = queue }) n started batch in
      let fewer : length (view s.ops n) ≡ suc (length (view queue n)) = ap length front in
      let back = prepend s n b started queue op b' batch in
      rw (taken, fill_batches)
        (elim (Bool-cases (started' == cfg.max_batches_per_block - 1)) [
          | inl full ↦ rw full (
              back (s', b', started') refl front (omega arith)
                (nothing s' n b' started'
                  (inr (==→eq started' (cfg.max_batches_per_block - 1) full))))
          | inr more ↦ rw more (
              back (fill_batches cfg fuel s' n b' started') refl front (omega arith) (
                rest s' b' started' (subst (λ q. IsValid q n) (sym ops_same) ok)
                  (subst (λ q. length (view q n) < fuel) (sym ops_same) (omega (arith, fewer)))
                  (omega (arith, count))))
        ])

  -- With more rounds than operations in the queue, the loop never runs out of rounds: it ends because
  -- the queue is empty, or at one batch less than a block may start. The operations that left the
  -- queue are, in its order, in the batches under the next batch ids and in the builder; no older
  -- batch is touched. The queue is in order and there are batch ids left for every round.
  pub fill_batches-Filled :
      (fuel : ℕ) (s : State) (n : ℕ) (b : BatchBuilder) (started : ℕ)
      → IsValid s.ops n
      → length (view s.ops n) < fuel
      → s.batch_id_counter + fuel ≤ u64_max
      → Filled s n b started (fill_batches cfg fuel s n b started)
  fill_batches-Filled zero s n b started ok fits room = absurd (omega arith)
  fill_batches-Filled (suc fuel) s n b started ok fits room =
      fill_step fuel s n b started (λ s' b' started'. fill_batches-Filled fuel s' n b' started')
        fits room (pop-Pops s.ops n ok)
