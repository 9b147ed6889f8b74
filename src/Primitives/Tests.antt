-- ===== src/Primitives/Tests.antt =====
-- Tests of the model of primitives/src, and the theorems at concrete messages and operations.
use timechain.Prelude.{ℕ, ◌≡◌, ◌↔◌, refl, List, [], ◌∷◌, ◌++◌, arith, All}
use timechain.Primitives.Gmp.{
  gas, GmpMessage, GatewayOp, send_message, register_shard, encode_header, GmpParams,
}
use timechain.Primitives.Gmp.Header.{Fits, SameHeader, encode_header-eq_iff, params_hash-injective}
use timechain.Outcome.{ok}
use timechain.Prelude.{length}
use timechain.Primitives.Cctp.{CctpMessage, encode_dynamic, decode_dynamic, encode, from_bytes}
use timechain.Primitives.Cctp.Roundtrip.{decode_dynamic-encode_dynamic}
use timechain.Primitives.Cctp.Message.{from_bytes-encode}
use timechain.Primitives.Batch.{BatchBuilder, new}
use timechain.Primitives.Batch.Order.{push_all, push_all_ops, ops_of}
use timechain.Primitives.Batch.Limit.{push_all-Within, Within}

abbrev transfer : GmpMessage
transfer = record {
  src_network = 1;
  dest_network = 2;
  src = 0xa1;
  dest = 0xb2;
  nonce = 3;
  gas_limit = 100;
  gas_cost = 90;
  bytes = 1 ∷ 2 ∷ [];
}

-- The same transfer with another payload and another cost.
abbrev other_payload : GmpMessage
other_payload = record transfer { gas_cost = 10; bytes = 7 ∷ [] }

transfer-Fits : Fits transfer
transfer-Fits = record {
  src = omega arith;
  src_network = omega arith;
  dest = omega arith;
  dest_network = omega arith;
  gas_limit = omega arith;
  nonce = omega arith;
}

other_payload-Fits : Fits other_payload
other_payload-Fits = record {
  src = omega arith;
  src_network = omega arith;
  dest = omega arith;
  dest_network = omega arith;
  gas_limit = omega arith;
  nonce = omega arith;
}

encode_header-eq_iff_example :
    (encode_header transfer ≡ encode_header other_payload) ↔ SameHeader transfer other_payload
encode_header-eq_iff_example =
    encode_header-eq_iff transfer other_payload transfer-Fits other_payload-Fits

abbrev params : GmpParams
params = record { network = 2; gateway = 0xc3 }

abbrev payload : List ℕ
payload = 1 ∷ 2 ∷ []

params_hash-injective_example : (params ≡ params) × (payload ≡ payload)
params_hash-injective_example =
    params_hash-injective params params payload payload (omega arith) (omega arith) (omega arith)
      (omega arith) refl

abbrev two_ops : List GatewayOp
two_ops = send_message transfer ∷ register_shard 5 ∷ []

-- A limit of 50 gas lets no two operations into a batch.
push_all_ops_example :
    ops_of (push_all (new 50) two_ops).1 ++ (push_all (new 50) two_ops).0.ops
    ≡ (new 50).ops ++ two_ops
push_all_ops_example = push_all_ops (new 50) two_ops

-- A limit of 40000 gas, and operations of 40090 gas together: nothing is given out.
abbrev small : BatchBuilder
small = record { batch_gas_limit = 40000; gas_used = 0; ops = [] }

two_ops-Within : All (Within small.batch_gas_limit) two_ops
unfolding gas
two_ops-Within = ((omega arith, omega arith), ((omega arith, omega arith), tt))

push_all-Within_example : push_all small two_ops ≡ (record small { ops = small.ops ++ two_ops }, [])
push_all-Within_example = push_all-Within small two_ops refl two_ops-Within

abbrev three : List ℕ
three = 7 ∷ 8 ∷ 9 ∷ []

decode_dynamic-encode_dynamic_example :
    decode_dynamic (encode_dynamic three ++ 5 ∷ []) ≡ ok (three, length (encode_dynamic three))
decode_dynamic-encode_dynamic_example = decode_dynamic-encode_dynamic three (5 ∷ []) (omega arith)

abbrev attested : CctpMessage
attested = record { attestation = three; message = 1 ∷ 2 ∷ []; extra_data = [] }

from_bytes-encode_example : from_bytes (encode attested) ≡ ok attested
from_bytes-encode_example = from_bytes-encode attested (omega arith)
