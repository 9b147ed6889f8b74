-- ===== src/Primitives/Batch/Order.antt =====
-- The batches of `BatchBuilder` in primitives/src/gmp.rs against the operations that went in.
use mathlib.Core.List.{append_assoc, append-nil}
use timechain.Prelude.{
  ◌≡◌, refl, sym, ap, ◌∙◌, Option, none, some, List, [], ◌∷◌, ◌++◌, is_empty, inl, inr, Bool-cases,
}
use timechain.Primitives.Gmp.{GatewayOp, GatewayMessage}
use timechain.Primitives.Batch.{BatchBuilder, push, take_batch, over}

abbrev pub cons_some {ℓ} : {A : Type ℓ} → Option A → List A → List A
cons_some none l = l
cons_some (some a) l = a ∷ l

-- A builder that is fed a list of operations, and the batches that it gives out meanwhile.
unfoldable pub push_all : BatchBuilder → List GatewayOp → BatchBuilder × List GatewayMessage
push_all b [] = (b, [])
push_all b (op ∷ ops) =
    let (b', batch) = push b op in
    let (b'', batches) = push_all b' ops in (b'', cons_some batch batches)

-- The operations of a sequence of batches.
unfoldable pub ops_of : List GatewayMessage → List GatewayOp
ops_of [] = []
ops_of (m ∷ ms) = m.ops ++ ops_of ms

abbrev pub batch_ops : Option GatewayMessage → List GatewayOp
batch_ops none = []
batch_ops (some m) = m.ops

take_batch_ops : (b : BatchBuilder) → batch_ops (take_batch b).1 ++ (take_batch b).0.ops ≡ b.ops
unfolding take_batch
take_batch_ops b = elim (Bool-cases (is_empty b.ops)) [
  | inl none_held ↦ rw none_held
  | inr held ↦ rw held (append-nil b.ops)
]

-- One push gives out a batch or none, and then holds the new operation at the end.
pub push_ops :
    (b : BatchBuilder) (op : GatewayOp)
    → batch_ops (push b op).1 ++ (push b op).0.ops ≡ b.ops ++ op ∷ []
unfolding push
push_ops b op = elim (Bool-cases (over b op)) [
  | inl o ↦ rw o (
      sym (append_assoc (batch_ops (take_batch b).1) (take_batch b).0.ops (op ∷ []))
      ∙ ap (λ l. l ++ op ∷ []) (take_batch_ops b))
  | inr u ↦ rw u
]

ops_of-cons_some :
    (m : Option GatewayMessage) (ms : List GatewayMessage)
    → ops_of (cons_some m ms) ≡ batch_ops m ++ ops_of ms
unfolding ops_of
ops_of-cons_some none ms = refl
ops_of-cons_some (some m) ms = refl

-- Whatever the limits, the batches in their order and then what is still held are the operations
-- that were held before and those that were pushed, in their order: none is lost, doubled or moved.
pub push_all_ops :
    (b : BatchBuilder) (ops : List GatewayOp)
    → ops_of (push_all b ops).1 ++ (push_all b ops).0.ops ≡ b.ops ++ ops
unfolding push_all ops_of
push_all_ops b [] = sym (append-nil b.ops)
push_all_ops b (op ∷ ops) =
    let (b', batch) = push b op in
    let (b'', batches) = push_all b' ops in
    ap (λ l. l ++ b''.ops) (ops_of-cons_some batch batches)
    ∙ append_assoc (batch_ops batch) (ops_of batches) b''.ops
    ∙ ap (◌++◌ (batch_ops batch)) (push_all_ops b' ops)
    ∙ sym (append_assoc (batch_ops batch) b'.ops ops)
    ∙ ap (λ l. l ++ ops) (push_ops b op)
    ∙ append_assoc b.ops (op ∷ []) ops
