-- ===== src/Lib.antt =====
-- A formal model of the core of the timechain runtime: the pallets that turn the messages of the
-- general message passing protocol (GMP) into tasks, give the tasks to shards of chronicle nodes
-- and settle their results.
--
-- How the parts interact. The networks pallet holds the configuration of each connected chain and
-- tells the tasks pallet when a gateway is registered. The tasks pallet keeps one read task for
-- each network; a shard that reads the gateway submits the events, whose messages become gateway
-- operations in the queue of the destination. In every block the operations are put into batches,
-- a task is made for each batch, and the tasks are assigned to shards. The elections pallet makes
-- shards of the members that wait for one; the shards pallet tells the tasks pallet when a shard
-- goes online or offline. The members pallet tells the elections when a member goes online or
-- offline. The timegraph and airdrop pallets move tokens beside these: rewards of the users of
-- timegraph, and claims of those who registered for an airdrop; the launch pallet makes such
-- claims, and deposits, at an upgrade of the runtime. The chronicle of each member of a shard runs
-- the machine of tss, which generates the key of the shard and then makes its signatures, with the
-- other members over the network.
--
-- The files and the code that they model:
--   Prelude, Storage, Outcome: shared definitions: words with saturating and wrapping arithmetic, the
--       storage maps of frame_support as association lists, and the results of calls.
--   Primitives/Bytes: byte strings and the padding of primitives/src/cctp.rs.
--   Primitives/Gmp, Primitives/Batch: primitives/src/gmp.rs: messages, gateway operations, their
--       encodings and hashes, and BatchBuilder.
--   Primitives/Cctp: the byte strings of any length and CCTPMessage of primitives/src/cctp.rs.
--   Primitives/Task: primitives/src/task.rs.
--   Tasks/Queue: pallets/tasks/src/queue.rs: QueueImpl as two index maps and a map of slots; push,
--       pop and remove as there.
--   Tasks/State, Core, Events, Calls, Schedule, Batches, Interface: pallets/tasks/src/lib.rs. One field
--       of State for each storage; a function for each internal function, extrinsic, hook and
--       function of TasksInterface, under the name that it has there.
--   Tasks/Assignment, Tasks/Reach: the invariant of the assignment of tasks to shards, each operation
--       against it, and the runs of the pallet.
--   Networks: pallets/networks/src/lib.rs.
--   Elections: pallets/elections/src/lib.rs.
--   Shards: pallets/shards/src/lib.rs; the extrinsics in Calls, ShardsInterface in Interface.
--   Members: pallets/members/src/lib.rs. Members/Periods, Expiry, Reach: the heartbeats and timeouts
--       against the members that are online, over the runs of the pallet; Absence,
--       Stranded: what an unregistered member does to them.
--   Runtime: runtime/src/configs/custom.rs: the shards and the tasks pallet, each as the parameter of
--       the other, and the runs of both. Runtime/Online, Creating, Removing, Leaving, Effects: each call
--       against the shards that are online; Keeping: the tasks that send batches.
--   Currency: the balances as the token pallets use them, an interface with its laws.
--   Timegraph: pallets/timegraph/src/lib.rs. Timegraph/Effects, Withdrawal: what each call moves,
--       and a withdrawal on every branch.
--   Airdrop: pallets/airdrop/src/lib.rs. Airdrop/Totals, Runs, Claiming, Message: the total
--       against the claims, over runs too, a claim, and the message that it signs.
--   Launch: pallets/launch/src/lib.rs and stage.rs. Launch/Allocations, Stages, Airdrops, Ledger:
--       allocation.rs, deposits.rs, airdrops.rs and ledger.rs there; Mainnet: the ledger of the main network.
--       Launch/Plan, Versions, Funding: the debug assertion of the ledger, and what airdrops cost.
--   BTree: the ordered maps and sets of the Rust standard library.
--   Tss/Signer, Coordinator, Roast: tss/src/roast.rs: RoastSigner, then RoastSession and
--       RoastCoordinator, then Roast, whose next_action is made of the turns of both.
--   Tss/Dkg: tss/src/dkg.rs. Tss/Machine, Actions: tss/src/lib.rs: the state of Tss and what it is
--       told, and next_action with its loops. Tss/KeyGeneration, Ready: the runs of the key generation.
--
-- Conventions. Accounts, addresses, digests and ids are natural numbers; the arithmetic of the
-- machine words is written out, saturating where the code saturates and wrapping where a release
-- build wraps. A division by zero is the outcome `panic`. A dispatch error is the outcome `err`,
-- which leaves no changed state behind, as the dispatch of an extrinsic is transactional.
--
-- Bounds and fuel. The search of the queue for its next slot has the insert index as fuel, which
-- is never passed. The loop over a signing session has as fuel what the session has left to do,
-- and the loop that cuts the commitments down to the threshold their number. The loop that empties
-- a queue of operations has one round for each slot and one more.
--
-- Parameters. Keccak-256, the SCALE encoding of events and the check of a Schnorr signature belong
-- to other crates, and so does frost_evm, the library of threshold signatures, with its random
-- source (Tss/Frost). The currency is a parameter of the token pallets, and for airdrops also the
-- vesting pallet, the two signature schemes and the encoding of an account. What a pallet asks of
-- the others through its Config is a parameter of that pallet's model.
--
-- Not modelled: weights and benchmarks, the migrations, the rest of the runtime configurations, the node, the
-- chronicle, the connectors, the command line tools, and the dmail and governance pallets.
pub mod Prelude
pub mod BTree
pub mod Storage
pub mod Outcome
pub mod Primitives
pub mod Tasks
pub mod Networks
pub mod Elections
pub mod Shards
pub mod Members
pub mod Tss
pub mod Currency
pub mod Timegraph
pub mod Airdrop
pub mod Launch
pub mod Runtime
