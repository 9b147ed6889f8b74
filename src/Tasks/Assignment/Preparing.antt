-- ===== src/Tasks/Assignment/Preparing.antt =====
-- `prepare_batches` of pallets/tasks/src/lib.rs keeps the assignment valid, as long as task ids do
-- not run out.
use timechain.Prelude.{
  ℕ, zero, suc, ◌<◌, ◌≡◌, refl, sym, ap, subst, ◌∙◌, inl, inr, Option, none, some, List, [], ◌∷◌,
  u64_max, Bool-cases, Option-cases, ◌==◌, saturating_sub,
}
use timechain.Storage.{Map}
use timechain.Primitives.Gmp.{
  GatewayOp, send_message, register_shard, unregister_shard, GatewayMessage,
}
use timechain.Primitives.Batch
use timechain.Primitives.Batch.{BatchBuilder}
use timechain.Primitives.Task.{submit_gateway_message}
use timechain.Tasks.Queue.{pop}
use timechain.Tasks.State.{State, Config}
use timechain.Tasks.Batches.{
  note_op, note_ops, start_batch, start_some, fill_batches, rounds, prepare_network,
  prepare_networks, prepare_batches,
}
use timechain.Tasks.Assignment.{ledger, IsValid}
use timechain.Tasks.Assignment.Steps.{create_task-IsValid, create_task_room}

module _ (Home : ℕ → ℕ → Type 0) (cfg : Config) where
  -- Noting the operations of a batch touches no assignment.
  note_op-ledger : (s : State) (b : ℕ) (op : GatewayOp) → ledger (note_op cfg s b op) ≡ ledger s
  unfolding note_op
  note_op-ledger s b (send_message m) = refl
  note_op-ledger s b (register_shard key) = refl
  note_op-ledger s b (unregister_shard key) = refl

  note_ops-ledger :
      (s : State) (b : ℕ) (ops : List GatewayOp) → ledger (note_ops cfg s b ops) ≡ ledger s
  unfolding note_ops
  note_ops-ledger s b [] = refl
  note_ops-ledger s b (op ∷ ops) =
      note_ops-ledger (note_op cfg s b op) b ops ∙ note_op-ledger s b op

  -- The batch's task is created from a state with the same assignment.
  start_batch-IsValid :
      (s : State) (n : ℕ) (msg : GatewayMessage)
      → IsValid Home (ledger s)
      → (start_batch cfg s n msg).task_id_counter < u64_max
      → IsValid Home (ledger (start_batch cfg s n msg))
  unfolding start_batch
  start_batch-IsValid s n msg v room =
      create_task-IsValid Home _ n (submit_gateway_message s.batch_id_counter)
        (subst (IsValid Home) (sym (note_ops-ledger _ s.batch_id_counter msg.ops)) v)
        (create_task_room _ n (submit_gateway_message s.batch_id_counter) room)

  start_batch_room :
      (s : State) (n : ℕ) (msg : GatewayMessage)
      → (start_batch cfg s n msg).task_id_counter < u64_max
      → s.task_id_counter < u64_max
  unfolding start_batch
  start_batch_room s n msg room =
      let noted = note_ops-ledger (record s { batch_id_counter = _ }) s.batch_id_counter msg.ops in
      let same = ap (λ l. l.counter) noted in
      subst (λ c. c < u64_max) same
        (create_task_room _ n (submit_gateway_message s.batch_id_counter) room)

  start_some-IsValid :
      (s : State) (n started : ℕ) (msg : Option GatewayMessage)
      → IsValid Home (ledger s)
      → (start_some cfg s n started msg).0.task_id_counter < u64_max
      → IsValid Home (ledger (start_some cfg s n started msg).0)
  unfolding start_some
  start_some-IsValid s n started none v room = v
  start_some-IsValid s n started (some msg) v room = start_batch-IsValid s n msg v room

  start_some_room :
      (s : State) (n started : ℕ) (msg : Option GatewayMessage)
      → (start_some cfg s n started msg).0.task_id_counter < u64_max
      → s.task_id_counter < u64_max
  unfolding start_some
  start_some_room s n started none room = room
  start_some_room s n started (some msg) room = start_batch_room s n msg room

  -- The state and the count after one operation of the loop in `fill_batches`.
  abbrev round : State → ℕ → BatchBuilder → ℕ → GatewayOp → State × ℕ
  round s n b started op =
      start_some cfg (record s { ops = (pop s.ops n).0 }) n started (Batch.push b op).1

  fill_batches_room :
      (fuel : ℕ) (s : State) (n : ℕ) (b : BatchBuilder) (started : ℕ)
      → (fill_batches cfg fuel s n b started).0.task_id_counter < u64_max
      → s.task_id_counter < u64_max
  unfolding fill_batches
  fill_batches_room zero s n b started room = room
  fill_batches_room (suc fuel) s n b started room = elim (Option-cases (pop s.ops n).1) [
    | inl e ↦ rw (e, fill_batches) at room
    | inr (op, e) ↦
        let next = round s n b started op in
        let room' = rw (e, fill_batches) at room in
        start_some_room _ n started (Batch.push b op).1
          (elim (Bool-cases (next.1 == saturating_sub cfg.max_batches_per_block 1)) [
            | inl stop ↦ rw stop at room'
            | inr more ↦
                fill_batches_room fuel next.0 n (Batch.push b op).0 next.1 (rw more at room')
          ])
  ]

  fill_batches-IsValid :
      (fuel : ℕ) (s : State) (n : ℕ) (b : BatchBuilder) (started : ℕ)
      → IsValid Home (ledger s)
      → (fill_batches cfg fuel s n b started).0.task_id_counter < u64_max
      → IsValid Home (ledger (fill_batches cfg fuel s n b started).0)
  unfolding fill_batches
  fill_batches-IsValid zero s n b started v room = v
  fill_batches-IsValid (suc fuel) s n b started v room = elim (Option-cases (pop s.ops n).1) [
    | inl e ↦ rw (e, fill_batches) v
    | inr (op, e) ↦
        let next = round s n b started op in
        let room' = rw (e, fill_batches) at room in
        rw (e, fill_batches)
          (elim (Bool-cases (next.1 == saturating_sub cfg.max_batches_per_block 1)) [
            | inl stop ↦
                rw stop (start_some-IsValid _ n started (Batch.push b op).1 v (rw stop at room'))
            | inr more ↦
                let room'' = rw more at room' in
                rw more (
                  fill_batches-IsValid fuel next.0 n (Batch.push b op).0 next.1
                    (start_some-IsValid _ n started (Batch.push b op).1 v
                      (fill_batches_room fuel next.0 n (Batch.push b op).0 next.1 room''))
                    room'')
          ])
  ]

  prepare_network_room :
      (s : State) (n started : ℕ)
      → (prepare_network cfg s n started).0.task_id_counter < u64_max
      → s.task_id_counter < u64_max
  unfolding prepare_network
  prepare_network_room s n started room =
      let filled = fill_batches cfg (rounds s n) s n (Batch.new (cfg.batch_gas_limit n)) started in
      fill_batches_room (rounds s n) s n _ started
        (start_some_room filled.0 n filled.2 (Batch.take_batch filled.1).1 room)

  prepare_network-IsValid :
      (s : State) (n started : ℕ)
      → IsValid Home (ledger s)
      → (prepare_network cfg s n started).0.task_id_counter < u64_max
      → IsValid Home (ledger (prepare_network cfg s n started).0)
  unfolding prepare_network
  prepare_network-IsValid s n started v room =
      let filled = fill_batches cfg (rounds s n) s n (Batch.new (cfg.batch_gas_limit n)) started in
      start_some-IsValid filled.0 n filled.2 (Batch.take_batch filled.1).1
        (fill_batches-IsValid (rounds s n) s n _ started v
          (start_some_room filled.0 n filled.2 (Batch.take_batch filled.1).1 room))
        room

  prepare_networks_room :
      (entries : Map ℕ) (s : State) (started : ℕ)
      → (prepare_networks cfg entries s started).0.task_id_counter < u64_max
      → s.task_id_counter < u64_max
  unfolding prepare_networks
  prepare_networks_room [] s started room = room
  prepare_networks_room ((n, t) ∷ entries) s started room =
      let next = prepare_network cfg s n started in
      prepare_network_room s n started (prepare_networks_room entries next.0 next.1 room)

  prepare_networks-IsValid :
      (entries : Map ℕ) (s : State) (started : ℕ)
      → IsValid Home (ledger s)
      → (prepare_networks cfg entries s started).0.task_id_counter < u64_max
      → IsValid Home (ledger (prepare_networks cfg entries s started).0)
  unfolding prepare_networks
  prepare_networks-IsValid [] s started v room = v
  prepare_networks-IsValid ((n, t) ∷ entries) s started v room =
      let next = prepare_network cfg s n started in
      prepare_networks-IsValid entries next.0 next.1
        (prepare_network-IsValid s n started v (prepare_networks_room entries next.0 next.1 room))
        room

  pub prepare_batches-IsValid :
      (s : State)
      → IsValid Home (ledger s)
      → (prepare_batches cfg s).0.task_id_counter < u64_max
      → IsValid Home (ledger (prepare_batches cfg s).0)
  unfolding prepare_batches
  prepare_batches-IsValid s v room = prepare_networks-IsValid s.read_events_task s 0 v room
