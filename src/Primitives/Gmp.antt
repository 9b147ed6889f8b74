-- ===== src/Primitives/Gmp.antt =====
-- primitives/src/gmp.rs: messages, gateway operations and their hashes. Addresses, message ids,
-- hashes and public keys are byte strings of 32 or 33 bytes, read as numbers. `Keccak256` is the
-- parameter `keccak256`, a function from bytes to a 32-byte digest.
pub mod Header
use timechain.Prelude.{
  ℕ, ◌+◌, Option, List, [], ◌∷◌, ◌++◌, replicate, length, saturating_add, u128_max,
}
use timechain.Primitives.Bytes.{to_be_bytes, left_pad_32}

pub record GmpMessage : Type 0 where
  pub src_network : ℕ
  pub dest_network : ℕ
  pub src : ℕ
  pub dest : ℕ
  pub nonce : ℕ
  pub gas_limit : ℕ
  pub gas_cost : ℕ
  pub bytes : List ℕ

pub data GatewayOp : Type 0 where
  send_message : GmpMessage → GatewayOp
  register_shard : ℕ → GatewayOp
  unregister_shard : ℕ → GatewayOp

pub record GatewayMessage : Type 0 where
  pub ops : List GatewayOp

pub data GmpEvent : Type 0 where
  shard_registered : ℕ → GmpEvent
  shard_unregistered : ℕ → GmpEvent
  message_received : GmpMessage → GmpEvent
  message_executed : ℕ → GmpEvent
  batch_executed : ℕ → Option ℕ → GmpEvent

abbrev pub header_len : ℕ
header_len = 224

pub encoded_len : GmpMessage → ℕ
encoded_len m = header_len + length m.bytes

-- The seven words that are copied into the header: the first one stays zero.
unfoldable pub encode_header : GmpMessage → List ℕ
encode_header m =
    replicate 32 0
    ++ (left_pad_32 (to_be_bytes 32 m.src)
        ++ (left_pad_32 (to_be_bytes 2 m.src_network)
            ++ (left_pad_32 (to_be_bytes 32 m.dest)
                ++ (left_pad_32 (to_be_bytes 2 m.dest_network)
                    ++ (left_pad_32 (to_be_bytes 16 m.gas_limit)
                        ++ left_pad_32 (to_be_bytes 8 m.nonce))))))

-- `GatewayOp::gas`.
unfoldable pub gas : GatewayOp → ℕ
gas (send_message m) = m.gas_cost
gas (register_shard key) = 40000
gas (unregister_shard key) = 40000

-- `GatewayOp::code`.
pub code : GatewayOp → ℕ
code (send_message m) = 1
code (register_shard key) = 2
code (unregister_shard key) = 3

-- `GatewayMessage::gas`.
pub message_gas : GatewayMessage → ℕ
message_gas msg = fold 0 msg.ops
  where
    fold : ℕ → List GatewayOp → ℕ
    fold acc [] = acc
    fold acc (op ∷ ops) = fold (saturating_add u128_max acc (gas op)) ops

module _ (keccak256 : List ℕ → ℕ) where
  unfoldable pub message_id : GmpMessage → ℕ
  message_id m = keccak256 (encode_header m)

  -- The 64 bytes that `GatewayOp::hash` digests: a key fills the last 33.
  op_bytes : GatewayOp → List ℕ
  op_bytes (send_message m) = to_be_bytes 32 (message_id m) ++ to_be_bytes 32 (keccak256 m.bytes)
  op_bytes (register_shard key) = replicate 31 0 ++ to_be_bytes 33 key
  op_bytes (unregister_shard key) = replicate 31 0 ++ to_be_bytes 33 key

  op_hash : GatewayOp → ℕ
  op_hash op = keccak256 (op_bytes op)

  -- The loop of `GatewayMessage::hash`.
  ops_hash : ℕ → List GatewayOp → ℕ
  ops_hash acc [] = acc
  ops_hash acc (op ∷ ops) =
      ops_hash
        (keccak256
          (to_be_bytes 32 acc ++ (replicate 31 0 ++ code op ∷ []) ++ to_be_bytes 32 (op_hash op)))
        ops

  -- `GatewayMessage::hash`.
  pub message_hash : GatewayMessage → ℕ → ℕ
  message_hash msg batch_id = keccak256 (
      replicate 32 0 ++ left_pad_32 (to_be_bytes 8 batch_id) ++ to_be_bytes 32 (ops_hash 0 msg.ops))

pub record GmpParams : Type 0 where
  pub network : ℕ
  pub gateway : ℕ

-- The bytes of "Analog GMP v2".
abbrev pub gmp_version : List ℕ
gmp_version =
    0x41 ∷ 0x6e ∷ 0x61 ∷ 0x6c ∷ 0x6f ∷ 0x67 ∷ 0x20 ∷ 0x47 ∷ 0x4d ∷ 0x50 ∷ 0x20 ∷ 0x76 ∷ 0x32 ∷ []

-- `GmpParams::hash`: the bytes to sign.
unfoldable pub params_hash : GmpParams → List ℕ → List ℕ
params_hash p payload =
    gmp_version ++ (to_be_bytes 2 p.network ++ (to_be_bytes 32 p.gateway ++ payload))
