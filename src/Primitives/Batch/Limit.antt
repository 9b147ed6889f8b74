-- ===== src/Primitives/Batch/Limit.antt =====
-- When `BatchBuilder` of primitives/src/gmp.rs closes a batch.
use mathlib.Core.List.{append_assoc, append-nil}
use timechain.Prelude.{ℕ, ◌≤◌, ◌<◌, ◌≡◌, false, none, List, [], ◌∷◌, ◌++◌, arith, All, u128_mod}
use timechain.Primitives.Gmp.{GatewayOp, gas}
use timechain.Primitives.Batch.{BatchBuilder, push, take_batch, over}
use timechain.Primitives.Batch.Order.{push_all}

abbrev pub Within : ℕ → GatewayOp → Type 0
Within limit op = (gas op ≤ limit) × (gas op < u128_mod)

over-Within :
    (b : BatchBuilder) (op : GatewayOp)
    → b.gas_used ≡ 0
    → Within b.batch_gas_limit op
    → over b op ≡ false
over-Within b op z w = ground arith

push-Within :
    (b : BatchBuilder) (op : GatewayOp)
    → b.gas_used ≡ 0
    → Within b.batch_gas_limit op
    → push b op ≡ (record b { ops = b.ops ++ op ∷ [] }, none)
unfolding push
push-Within b op z w = rw (over-Within b op z w)

-- A builder that has counted no gas gives out no batch for operations that each stay within the
-- limit, however many they are and however much gas they take together: it holds them all.
pub push_all-Within :
    (b : BatchBuilder) (ops : List GatewayOp)
    → b.gas_used ≡ 0
    → All (Within b.batch_gas_limit) ops
    → push_all b ops ≡ (record b { ops = b.ops ++ ops }, [])
unfolding push_all
push_all-Within b [] z w = rw (append-nil b.ops)
push_all-Within b (op ∷ ops) z w = rw (push-Within b op z w.0) (
    rw (push_all-Within (record b { ops = b.ops ++ op ∷ [] }) ops z w.1)
      (rw (append_assoc b.ops (op ∷ []) ops)))

-- So the count of gas is never raised: it stays at 0 from the start on.
pub push-gas_used :
    (b : BatchBuilder) (op : GatewayOp) → b.gas_used ≡ 0 → (push b op).0.gas_used ≡ 0
unfolding push take_batch
push-gas_used b op z = ground arith
