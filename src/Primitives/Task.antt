-- ===== src/Primitives/Task.antt =====
-- primitives/src/task.rs: the tasks and their results.
use timechain.Prelude.{ℕ, Bool, true, false, List}
use timechain.Primitives.Gmp.{GmpEvent}

pub data Task : Type 0 where
  -- `Range<u64>` by its start and its end.
  read_gateway_events : ℕ → ℕ → Task
  submit_gateway_message : ℕ → Task

unfoldable pub needs_registration : Task → Bool
needs_registration (read_gateway_events start end) = false
needs_registration (submit_gateway_message batch_id) = true

pub needs_signer : Task → Bool
needs_signer (read_gateway_events start end) = false
needs_signer (submit_gateway_message batch_id) = true

pub start_block : Task → ℕ
start_block (read_gateway_events start end) = end
start_block (submit_gateway_message batch_id) = 0

abbrev pub max_gmp_events : ℕ
max_gmp_events = 10000

-- The two results that a shard may submit: events with a signature, or an error message.
pub data TaskResult : Type 0 where
  read_result : List GmpEvent → ℕ → TaskResult
  submit_error : List ℕ → TaskResult

-- `Result<(), ErrorMsg>`, what is kept of a finished task.
pub data Output : Type 0 where
  success : Output
  failure : List ℕ → Output
