-- ===== src/Tasks/Queue.antt =====
-- pallets/tasks/src/queue.rs: the queue over two index maps and a double map of slots. The trait
-- object of the source is the storage and the network as arguments here.
pub mod Slots
pub mod Fifo
pub mod Refinement
use timechain.Prelude.{
  ℕ, zero, suc, ◌&&◌, Option, none, ltb, leb, ◌==◌, if◌then◌else◌, is_none, unwrap_or,
  saturating_add, u64_max,
}
use timechain.Storage.{Map, DoubleMap, get, insert, get₂, insert₂, remove₂}

-- The three storages that a `QueueImpl` names.
pub record QueueImpl {ℓ} (V : Type ℓ) : Type ℓ where
  pub insert_index : Map ℕ
  pub remove_index : Map ℕ
  pub queue : DoubleMap V

module _ {ℓ} {V : Type ℓ} where
  abbrev pub insert_at : QueueImpl V → ℕ → ℕ
  insert_at q network = unwrap_or (get q.insert_index network) 0

  abbrev pub remove_at : QueueImpl V → ℕ → ℕ
  remove_at q network = unwrap_or (get q.remove_index network) 0

  unfoldable pub push : QueueImpl V → ℕ → V → QueueImpl V
  push q network value =
      let insert_i = insert_at q network in
      record q {
        queue = insert₂ q.queue network insert_i value;
        insert_index = insert q.insert_index network (saturating_add u64_max insert_i 1);
      }

  -- The `while` of `remove`: on to the next slot that is taken.
  unfoldable pub skip : (ℕ → Option V) → ℕ → ℕ → ℕ → ℕ
  skip slot zero insert_i remove_i = remove_i
  skip slot (suc fuel) insert_i remove_i =
      let rest = skip slot fuel insert_i (saturating_add u64_max remove_i 1) in
      if is_none (slot remove_i) && ltb remove_i insert_i then rest else remove_i

  -- The head has left: the remove index moves on. `insert_i` rounds are enough fuel.
  advance : QueueImpl V → ℕ → ℕ → ℕ → QueueImpl V
  advance q network insert_i remove_i = record q {
    remove_index =
        insert q.remove_index network
          (skip (get₂ q.queue network) insert_i insert_i (saturating_add u64_max remove_i 1));
  }

  unfoldable pub remove : QueueImpl V → ℕ → ℕ → QueueImpl V × Option V
  unfolding advance
  remove q network index =
      let insert_i = insert_at q network in
      let remove_i = remove_at q network in
      if leb insert_i remove_i
      then (q, none)
      else let value = get₂ q.queue network index in
        let taken : QueueImpl V = record q { queue = remove₂ q.queue network index } in
        if index == remove_i
        then (advance taken network insert_i remove_i, value)
        else (taken, value)

  unfoldable pub pop : QueueImpl V → ℕ → QueueImpl V × Option V
  unfolding remove
  pop q network = remove q network (remove_at q network)
