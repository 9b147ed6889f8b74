-- ===== src/Launch.antt =====
-- pallets/launch/src/lib.rs and stage.rs: the migrations that put the tokens of the launch into
-- circulation: the data of the stages, the state of the pallet, and what it asks of others.
pub mod Allocations
pub mod Stages
pub mod Airdrops
pub mod Ledger
pub mod Keeping
pub mod Plan
pub mod Versions
pub mod Funding
pub mod Mainnet
pub mod Tests
use timechain.Prelude.{ℕ, Option, none, some, List, [], ◌∷◌}
use timechain.Outcome.{Outcome, Error}
use timechain.Airdrop
use timechain.Launch.Allocations.{Allocation, sub_id}
use timechain.Airdrop.{Schedule}

-- Text as its bytes.
abbrev pub Text : Type 0
Text = List ℕ

-- `RawAirdropMint` and `RawDepositWithSchedule`.
abbrev pub RawMint : Type 0
RawMint = Text × ℕ × Option Schedule

-- `DepositDetails` and `AirdropMint`.
abbrev pub Details : Type 0
Details = ℕ × ℕ × Option Schedule

pub data Stage : Type 0 where
  retired : Stage
  deposit_from_unlocked : List RawMint → Stage
  deposit_as_vested : List (Text × ℕ) → Stage
  airdrop_from_unlocked : List RawMint → Stage
  airdrop_transfer : List (Text × Text) → Stage

-- Texts are those of accounts and of sub ids; a stage is named by its hash.
pub data Event : Type 0 where
  ledger_invalid : Error → Event
  stage_exceeded_issuance : ℕ → ℕ → Event
  stage_executed : ℕ → ℕ → Event
  deposit_invalid : Text → Event
  deposit_source_missmatch : Text → Event
  deposit_vesting_missmatch : ℕ → Event
  deposit_too_small : ℕ → Event
  deposit_too_large : ℕ → Event
  deposit_failed : ℕ → Event
  airdrop_mint_invalid : Text → Event
  airdrop_mint_exists : ℕ → Event
  airdrop_mint_too_large : ℕ → Event
  airdrop_mint_failed : Event
  airdrop_transfer_invalid : Text → Event
  airdrop_transfer_missing : ℕ → Event
  airdrop_transfer_exists : ℕ → Event
  airdrop_transfer_failed : Event
  transfer_from_virtual : Text → ℕ → ℕ → Event

-- The trait `Config` with the airdrop pallet, the balances, the vesting pallet, the text form of
-- accounts, the wallets of the pallet, `Perbill::from_rational(a, b) * c`, and the hash.
pub record Config (W : Type 0) : Type 0 where
  pub airdrop : Airdrop.Config W
  -- With `ExistenceRequirement::AllowDeath`.
  pub transfer : W → ℕ → ℕ → ℕ → Outcome W
  pub withdraw : W → ℕ → ℕ → Outcome W
  pub total_balance : W → ℕ → ℕ
  pub set_lock : W → Text → ℕ → ℕ → W
  pub vesting_balance : W → ℕ → Option ℕ
  pub remove_vesting_schedule : W → ℕ → ℕ → Outcome W
  pub from_ss58check : Text → Option ℕ
  pub into_sub_account : Text → ℕ
  pub minimum_deposit : ℕ
  pub max_balance : ℕ
  pub max_block : ℕ
  pub from_rational : ℕ → ℕ → ℕ → ℕ
  pub hash_of : Stage → ℕ

-- The airdrop pallet, which holds the balances, and the storage version.
pub record State (W : Type 0) : Type 0 where
  pub airdrop : Airdrop.State W
  pub stage_version : ℕ
  pub events : List Event

module _ {W : Type 0} where
  abbrev pub deposit_event : State W → Event → State W
  deposit_event s e = record s { events = e ∷ s.events }

  abbrev pub with_balances : State W → W → State W
  with_balances s w = record s { airdrop = record s.airdrop { balances = w } }

  abbrev pub account_id : Config W → Allocation → ℕ
  account_id cfg source = cfg.into_sub_account (sub_id source)
