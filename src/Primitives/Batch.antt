-- ===== src/Primitives/Batch.antt =====
-- `BatchBuilder` of primitives/src/gmp.rs.
pub mod Order
pub mod Limit
use timechain.Prelude.{
  ℕ, Bool, Option, none, some, List, [], ◌∷◌, ◌++◌, ltb, if◌then◌else◌, is_empty, wrapping_add,
  u128_mod,
}
use timechain.Primitives.Gmp.{GatewayOp, GatewayMessage, gas}

pub record BatchBuilder : Type 0 where
  pub batch_gas_limit : ℕ
  pub gas_used : ℕ
  pub ops : List GatewayOp

unfoldable pub new : ℕ → BatchBuilder
new limit = record { batch_gas_limit = limit; gas_used = 0; ops = [] }

pub set_gas_limit : BatchBuilder → ℕ → BatchBuilder
set_gas_limit b limit = record b { batch_gas_limit = limit }

unfoldable pub take_batch : BatchBuilder → BatchBuilder × Option GatewayMessage
take_batch b =
    if is_empty b.ops
    then (b, none)
    else (record b { gas_used = 0; ops = [] }, some (record { ops = b.ops }))

-- The field `gas` of the source is `gas_used` here. `push` reads it and never raises it.
abbrev pub over : BatchBuilder → GatewayOp → Bool
over b op = ltb b.batch_gas_limit (wrapping_add u128_mod b.gas_used (gas op))

unfoldable pub push : BatchBuilder → GatewayOp → BatchBuilder × Option GatewayMessage
push b op =
    let (b', batch) = if over b op then take_batch b else (b, none) in
    (record b' { ops = b'.ops ++ op ∷ [] }, batch)
