-- ===== src/Tasks/Batches/Conserving.antt =====
-- `prepare_batches` of pallets/tasks/src/lib.rs at one network: every operation that leaves the queue is in
-- a batch, and the loop over the queue ends at its limit or with the queue.
use mathlib.Core.List.{append-nil, append_assoc}
use timechain.Prelude.{
  ℕ, zero, suc, ◌+◌, ◌-◌, ◌≤◌, ◌<◌, ◌≡◌, ◌⊎◌, refl, sym, ap, ◌∙◌, true, Option, none, some, List,
  [], ◌∷◌, ◌++◌, arith, length, length-append, get_elem?, is_empty, is_empty-nil, Bool-cases,
  Option-cases, inl, inr, saturating_add, u32_max, u64_max,
}
use timechain.Storage.{get, get₂, insert, get-insert_self, get-insert_ne}
use timechain.Primitives.Gmp.{GatewayOp, GatewayMessage}
use timechain.Primitives.Batch.{BatchBuilder, push, new, take_batch}
use timechain.Primitives.Batch.Order.{push_all, push_all_ops, ops_of, cons_some}
use timechain.Tasks.Queue.{insert_at, remove_at}
use timechain.Tasks.Queue.Slots.{collect}
use timechain.Tasks.Queue.Fifo.{view, IsValid}
use timechain.Tasks.State.{State, Config}
use timechain.Tasks.Batches.{start_some, start_batch, fill_batches, rounds, prepare_network}
use timechain.Tasks.Batches.Starting.{start_batch-stock}
use timechain.Tasks.Batches.Filling.{Filled, fill_batches-Filled}

length-collect :
    {V : Type 0} (slot : ℕ → Option V) (i count : ℕ) → length (collect slot i count) ≤ count
unfolding collect
length-collect slot i zero = omega arith
length-collect slot i (suc count) =
    let rest = length-collect slot (suc i) count in
    elim (Option-cases (slot i)) [
      | inl free ↦ rw (free, collect) (omega (arith, rest))
      | inr (v, e) ↦ rw (e, collect) (omega (arith, rest))
    ]

-- There are more rounds than operations in the queue.
rounds_enough : (s : State) (n : ℕ) → IsValid s.ops n → length (view s.ops n) < rounds s n
unfolding view
rounds_enough s n ok =
    let bound =
      length-collect (get₂ s.ops.queue n) (remove_at s.ops n)
        (insert_at s.ops n - remove_at s.ops n) in
    omega (arith, bound, ok.ordered)

length-push_all : (b : BatchBuilder) (ops : List GatewayOp) → length (push_all b ops).1 ≤ length ops
unfolding push_all
length-push_all b [] = omega arith
length-push_all b (op ∷ ops) =
    one (push b op).1 (push_all (push b op).0 ops).1 (length-push_all (push b op).0 ops)
  where
    one :
        (batch : Option GatewayMessage) (batches : List GatewayMessage)
        → length batches ≤ length ops
        → length (cons_some batch batches) ≤ suc (length ops)
    one none batches h = omega arith
    one (some m) batches h = omega arith

ops_of-append : (ms ns : List GatewayMessage) → ops_of (ms ++ ns) ≡ ops_of ms ++ ops_of ns
unfolding ops_of
ops_of-append [] ns = refl
ops_of-append (m ∷ ms) ns =
    ap (λ l. m.ops ++ l) (ops_of-append ms ns) ∙ sym (append_assoc m.ops (ops_of ms) (ops_of ns))

last_or_before :
    (ms : List GatewayMessage) (x m : GatewayMessage) (i : ℕ)
    → get_elem? (ms ++ x ∷ []) i ≡ some m
    → (get_elem? ms i ≡ some m) ⊎ ((i ≡ length ms) × (x ≡ m))
last_or_before [] x m zero h = inr (refl, cc)
last_or_before [] x m (suc i) h = absurd (cc)
last_or_before (y ∷ ms) x m zero h = inl h
last_or_before (y ∷ ms) x m (suc i) h = elim (last_or_before ms x m i h) [
  | inl before ↦ inl before
  | inr (at, same) ↦ inr (ap suc at, same)
]

elem_below :
    (ms : List GatewayMessage) (m : GatewayMessage) (i : ℕ)
    → get_elem? ms i ≡ some m
    → i < length ms
elem_below [] m i h = absurd (cc)
elem_below (y ∷ ms) m zero h = omega arith
elem_below (y ∷ ms) m (suc i) h = let below = elem_below ms m i h in omega (arith, below)

fed :
    (limit : ℕ) (ops : List GatewayOp)
    → ops ≡ ops_of (push_all (new limit) ops).1 ++ (push_all (new limit) ops).0.ops
unfolding new
fed limit ops = sym (push_all_ops (new limit) ops)

-- What `prepare_batches` leaves of one network: the operations that left the queue are those of
-- `batches`, in the order of the queue, and these are stored under the next batch ids; `r` is the
-- state with the number of batches that were started in this block, where `started` were before.
pub record Prepared (cfg : Config) (s : State) (n started : ℕ) (r : State × ℕ) : Type 0 where
  pub batches : List GatewayMessage
  pub order : view s.ops n ≡ ops_of batches ++ view r.0.ops n
  pub stored :
      (i : ℕ) (m : GatewayMessage)
      → get_elem? batches i ≡ some m
      → get r.0.batch_message (s.batch_id_counter + i) ≡ some m
  pub kept : (j : ℕ) → j < s.batch_id_counter → get r.0.batch_message j ≡ get s.batch_message j
  pub counter : r.0.batch_id_counter ≡ s.batch_id_counter + length batches
  pub counted : started + length batches ≤ u32_max → r.1 ≡ started + length batches
  -- Either nothing is left in the queue, or the loop broke at one batch less than a block may start:
  -- then so many are started, or one more for what the builder still held.
  pub ended :
      (view r.0.ops n ≡ [])
      ⊎ ((r.1 ≡ cfg.max_batches_per_block - 1)
          ⊎ (r.1 ≡ saturating_add u32_max (cfg.max_batches_per_block - 1) 1))

module _ (cfg : Config) where
  -- The loop's batches, before the last one.
  looped :
      (s : State) (n limit started : ℕ) (r : State × BatchBuilder × ℕ)
      → Filled cfg s n (new limit) started r
      → is_empty r.1.ops ≡ true
      → Prepared cfg s n started (r.0, r.2)
  looped s n limit started r f empty =
      let batches = (push_all (new limit) f.ops).1 in
      let none_held = ap (λ x. x.ops) (sym f.held) ∙ is_empty-nil r.1.ops empty in
      let whole =
        fed limit f.ops ∙ ap (λ l. ops_of batches ++ l) none_held ∙ append-nil (ops_of batches) in
      record {
        batches = batches;
        order = f.order ∙ ap (λ l. l ++ view r.0.ops n) whole;
        stored = f.stored;
        kept = f.kept;
        counter = f.counter;
        counted = f.counted;
        ended = elim f.ended [ inl emptied ↦ inl emptied | inr full ↦ inr (inl full) ];
      }

  finished :
      (s : State) (n limit started : ℕ) (r : State × BatchBuilder × ℕ)
      → Filled cfg s n (new limit) started r
      → r.0.batch_id_counter < u64_max
      → Prepared cfg s n started
          (start_batch cfg r.0 n (record { ops = r.1.ops }), saturating_add u32_max r.2 1)
  unfolding ops_of
  finished s n limit started r f room =
      let x : GatewayMessage = record { ops = r.1.ops } in
      let batches = (push_all (new limit) f.ops).1 in
      let st = start_batch-stock cfg r.0 n x in
      let ops_same = ap (λ y. y.ops) st in
      let count = ap (λ y. y.counter) st in
      let same : (j : ℕ)
          → get (start_batch cfg r.0 n x).batch_message j
            ≡ get (insert r.0.batch_message r.0.batch_id_counter x) j =
        λ j. ap (λ y. get y.batches j) st in
      let whole =
        fed limit f.ops
        ∙ ap (λ l. ops_of batches ++ l) (ap (λ y. y.ops) (sym f.held))
        ∙ ap (λ l. ops_of batches ++ l) (sym (append-nil r.1.ops))
        ∙ sym (ops_of-append batches (x ∷ [])) in
      record {
        batches = batches ++ x ∷ [];
        order =
            f.order
            ∙ ap (λ l. l ++ view r.0.ops n) whole
            ∙ ap (λ q. ops_of (batches ++ x ∷ []) ++ view q n) (sym ops_same);
        stored = λ i m h. same (s.batch_id_counter + i) ∙ elim (last_or_before batches x m i h) [
          | inl before ↦
              let below = elem_below batches m i before in
              get-insert_ne r.0.batch_message r.0.batch_id_counter (s.batch_id_counter + i) x
                (λ e. omega (arith, f.counter, below))
              ∙ f.stored i m before
          | inr (at, last) ↦
              let end : s.batch_id_counter + i ≡ r.0.batch_id_counter = omega (arith, f.counter) in
              ap (get (insert r.0.batch_message r.0.batch_id_counter x)) end
              ∙ get-insert_self r.0.batch_message r.0.batch_id_counter x
              ∙ ap some last
        ];
        kept = λ j h.
            same j
            ∙ get-insert_ne r.0.batch_message r.0.batch_id_counter j x
                (λ e. omega (arith, f.counter))
            ∙ f.kept j h;
        counter = count ∙ omega (arith, f.counter, length-append batches (x ∷ []));
        counted = λ h.
            let more = length-append batches (x ∷ []) in
            let before = f.counted (omega (arith, more, h)) in omega (arith, more, before, h);
        ended = elim f.ended [
          | inl emptied ↦ inl (ap (λ q. view q n) ops_same ∙ emptied)
          | inr full ↦ inr (inr (ap (λ k. saturating_add u32_max k 1) full))
        ];
      }

  -- The queue is in order, and there are batch ids left for its operations. Then preparing the batches
  -- of a network leaves its queue empty, or it stops with as many batches started in the block as
  -- one less than the maximum, or with one more than those. Every operation that leaves the queue is
  -- in one of the batches that are started, in the order of the queue: the operations of the new
  -- batches and what is left in the queue are the queue before. The batches are stored under the
  -- next batch ids, no older one is touched, and the number of started batches grows by theirs, if
  -- it stays in a u32.
  pub prepare_network-Prepared :
      (s : State) (n started : ℕ)
      → IsValid s.ops n
      → s.batch_id_counter + rounds s n < u64_max
      → Prepared cfg s n started (prepare_network cfg s n started)
  unfolding prepare_network take_batch start_some
  prepare_network-Prepared s n started ok room =
      let limit : ℕ = cfg.batch_gas_limit n in
      let r = fill_batches cfg (rounds s n) s n (new limit) started in
      let enough = rounds_enough s n ok in
      let f =
        fill_batches-Filled cfg (rounds s n) s n (new limit) started ok enough (omega arith) in
      let fewer = length-push_all (new limit) f.ops in
      let part = ap length f.order in
      let ids : r.0.batch_id_counter < u64_max =
        omega (arith, f.counter, fewer, part, enough, length-append f.ops (view r.0.ops n)) in
      elim (Bool-cases (is_empty r.1.ops)) [
        | inl empty ↦ rw (empty, prepare_network) (looped s n limit started r f empty)
        | inr held ↦ rw (held, prepare_network) (finished s n limit started r f ids)
      ]
