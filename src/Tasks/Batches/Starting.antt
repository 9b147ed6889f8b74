-- ===== src/Tasks/Batches/Starting.antt =====
-- What `start_batch` of pallets/tasks/src/lib.rs does to the batches and the queues of operations.
use timechain.Prelude.{ℕ, ◌≡◌, refl, ap, ◌∙◌, List, [], ◌∷◌, saturating_add, u64_max}
use timechain.Storage.{Map, insert}
use timechain.Primitives.Gmp.{
  GatewayOp, send_message, register_shard, unregister_shard, GatewayMessage,
}
use timechain.Primitives.Task.{submit_gateway_message, needs_registration}
use timechain.Tasks.Queue.{QueueImpl}
use timechain.Tasks.State.{State, Config}
use timechain.Tasks.Core.{create_task}
use timechain.Tasks.Batches.{note_op, note_ops, start_batch}

-- The part of the state that holds operations and batches.
pub record Stock : Type 0 where
  pub ops : QueueImpl GatewayOp
  pub batches : Map GatewayMessage
  pub counter : ℕ

abbrev pub stock : State → Stock
stock s = record { ops = s.ops; batches = s.batch_message; counter = s.batch_id_counter }

module _ (cfg : Config) where
  note_op-stock : (s : State) (b : ℕ) (op : GatewayOp) → stock (note_op cfg s b op) ≡ stock s
  unfolding note_op
  note_op-stock s b (send_message m) = refl
  note_op-stock s b (register_shard k) = refl
  note_op-stock s b (unregister_shard k) = refl

  note_ops-stock :
      (s : State) (b : ℕ) (ops : List GatewayOp) → stock (note_ops cfg s b ops) ≡ stock s
  unfolding note_ops
  note_ops-stock s b [] = refl
  note_ops-stock s b (op ∷ ops) = note_ops-stock (note_op cfg s b op) b ops ∙ note_op-stock s b op

  create_task-stock :
      (s : State) (n b : ℕ) → stock (create_task s n (submit_gateway_message b)).0 ≡ stock s
  unfolding create_task needs_registration
  create_task-stock s n b = refl

  -- A batch is stored under the next batch id.
  pub start_batch-stock :
      (s : State) (n : ℕ) (m : GatewayMessage)
      → stock (start_batch cfg s n m) ≡ record {
        ops = s.ops;
        batches = insert s.batch_message s.batch_id_counter m;
        counter = saturating_add u64_max s.batch_id_counter 1;
      }
  unfolding start_batch
  start_batch-stock s n m =
      let counted : State = record s {
        batch_id_counter = saturating_add u64_max s.batch_id_counter 1;
      } in
      let noted = note_ops-stock counted s.batch_id_counter m.ops in
      create_task-stock
        (record (note_ops cfg counted s.batch_id_counter m.ops) {
          batch_message =
              insert (note_ops cfg counted s.batch_id_counter m.ops).batch_message
                s.batch_id_counter m;
        })
        n s.batch_id_counter
      ∙ ap (λ (x : Stock). record x { batches = insert x.batches s.batch_id_counter m }) noted
