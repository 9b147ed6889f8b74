-- ===== src/Launch/Stages.antt =====
-- pallets/launch/src/deposits.rs, airdrops.rs and stage.rs: the data of a stage is parsed, and its
-- deposits, airdrops and moves are made as far as they can be.
use timechain.Prelude.{
  ℕ, Bool, true, false, ◌&&◌, not, Option, none, some, List, [], ◌∷◌, ltb, leb, ◌==◌, if◌then◌else◌,
  wrapping_add, u128_mod,
}
use timechain.Outcome.{Outcome, ok, err, panic, ◌>>=◌}
use timechain.Airdrop.{Schedule}
use timechain.Launch.{
  Text, RawMint, Details, Config, State, deposit_invalid, deposit_source_missmatch,
  deposit_vesting_missmatch, deposit_too_small, deposit_too_large, deposit_failed,
  airdrop_mint_invalid, airdrop_transfer_invalid, deposit_event, with_balances, account_id,
}
use timechain.Launch.Allocations.{Allocation, sub_id, schedule_raw}

-- The `fold` of `total`, whose additions wrap.
unfoldable pub total_of : ℕ → List Details → ℕ
total_of acc [] = acc
total_of acc ((who, amount, vs) ∷ ds) = total_of (wrapping_add u128_mod acc amount) ds

module _ {W : Type 0} (cfg : Config W) where
  -- `checked_from` of the three numbers of a schedule.
  abbrev pub parse_schedule : Option Schedule → Option (Option Schedule)
  parse_schedule none = some none
  parse_schedule (some (locked, per_block, start)) =
      if leb locked cfg.max_balance && leb per_block cfg.max_balance && leb start cfg.max_block
      then some (some (locked, per_block, start))
      else none

  abbrev with_schedule : ℕ → ℕ → Option (Option Schedule) → Option Details
  with_schedule who amount none = none
  with_schedule who amount (some vs) = some (who, amount, vs)

  abbrev with_account : Option ℕ → ℕ → Option Schedule → Option Details
  with_account none amount vs = none
  with_account (some who) amount vs =
      if leb amount cfg.max_balance then with_schedule who amount (parse_schedule vs) else none

  -- `parse_mint` and `parse_scheduled_details`; without a schedule it is `parse_details`.
  unfoldable pub parse_mint : RawMint → Option Details
  parse_mint (id, amount, vs) = with_account (cfg.from_ss58check id) amount vs

  -- `DepositStage::parse_with_schedule`.
  unfoldable pub parse_with_schedule : State W → List RawMint → State W × List Details
  parse_with_schedule s [] = (s, [])
  parse_with_schedule s ((id, amount, vs) ∷ raw) = elim (parse_mint (id, amount, vs)) [
    | none ↦ parse_with_schedule (deposit_event s (deposit_invalid id)) raw
    | some details ↦
        if ltb details.1 cfg.minimum_deposit
        then parse_with_schedule (deposit_event s (deposit_too_small details.0)) raw
        else (let r = parse_with_schedule s raw in (r.0, details ∷ r.1))
  ]

  -- `DepositStage::parse`.
  unfoldable pub parse_deposits : State W → List (Text × ℕ) → State W × List Details
  parse_deposits s [] = (s, [])
  parse_deposits s ((id, amount) ∷ raw) = elim (parse_mint (id, amount, none)) [
    | none ↦ parse_deposits (deposit_event s (deposit_invalid id)) raw
    | some details ↦
        if ltb details.1 cfg.minimum_deposit
        then parse_deposits (deposit_event s (deposit_too_small details.0)) raw
        else (let r = parse_deposits s raw in (r.0, details ∷ r.1))
  ]

  -- `AirdropMintStage::parse`.
  unfoldable pub parse_mints : State W → List RawMint → State W × List Details
  parse_mints s [] = (s, [])
  parse_mints s ((id, amount, vs) ∷ raw) = elim (parse_mint (id, amount, vs)) [
    | none ↦ parse_mints (deposit_event s (airdrop_mint_invalid id)) raw
    | some details ↦ (let r = parse_mints s raw in (r.0, details ∷ r.1))
  ]

  abbrev both : Option ℕ → Option ℕ → Option (ℕ × ℕ)
  both none b = none
  both (some a) none = none
  both (some a) (some b) = some (a, b)

  -- `AirdropTransferStage::parse`, with `parse_transfer`.
  unfoldable pub parse_transfers : State W → List (Text × Text) → State W × List (ℕ × ℕ)
  parse_transfers s [] = (s, [])
  parse_transfers s ((from, to) ∷ raw) =
      elim (both (cfg.from_ss58check from) (cfg.from_ss58check to)) [
        | none ↦ parse_transfers (deposit_event s (airdrop_transfer_invalid from)) raw
        | some accounts ↦ (let r = parse_transfers s raw in (r.0, accounts ∷ r.1))
      ]

  -- `add_vesting_schedule(...).expect(...)`.
  abbrev pub vest : State W → ℕ → Option Schedule → Outcome (State W)
  vest s who none = ok s
  vest s who (some vs) = elim (cfg.airdrop.add_vesting_schedule s.airdrop.balances who vs) [
    | ok w ↦ ok (with_balances s w)
    | err e ↦ panic
    | panic ↦ panic
  ]

  abbrev pub may_vest : State W → ℕ → Option Schedule → Bool
  may_vest s who none = true
  may_vest s who (some vs) = cfg.airdrop.can_add_vesting_schedule s.airdrop.balances who vs

  -- One deposit: `transfer` and the schedule, or an event.
  unfoldable pub pay : State W → ℕ → Details → Outcome (State W)
  pay s account (target, amount, vs) =
      if not (may_vest s target vs)
      then ok (deposit_event s (deposit_failed target))
      else elim (cfg.transfer s.airdrop.balances account target amount) [
        | ok w ↦ vest (with_balances s w) target vs
        | err e ↦ ok (deposit_event s (deposit_too_large target))
        | panic ↦ panic
      ]

  unfoldable pub pay_all : State W → ℕ → List Details → Outcome (State W)
  pay_all s account [] = ok s
  pay_all s account (d ∷ ds) = pay s account d >>= λ s'. pay_all s' account ds

  unfoldable pub transfer_unlocked : State W → List Details → Allocation → Outcome (State W)
  transfer_unlocked s ds source = pay_all s (account_id cfg source) ds

  -- `schedule_rel`: the schedule of the allocation for an amount.
  abbrev pub schedule_of : Option Schedule → ℕ → Option Schedule
  schedule_of none amount = none
  schedule_of (some (locked, per_block, start)) amount =
      let rel = cfg.from_rational amount locked per_block in
      if leb amount cfg.max_balance && leb rel cfg.max_balance && leb start cfg.max_block
      then some (amount, rel, start)
      else none

  unfoldable pub schedule_rel : Allocation → ℕ → Option Schedule
  schedule_rel source amount = schedule_of (schedule_raw source) amount

  -- One deposit of `transfer_as_vested`.
  unfoldable pub pay_vested : State W → Allocation → Details → Outcome (State W)
  pay_vested s source (target, amount, some vs) =
      ok (deposit_event s (deposit_vesting_missmatch target))
  pay_vested s source (target, amount, none) = elim (schedule_rel source amount) [
    | none ↦ ok (deposit_event s (deposit_vesting_missmatch target))
    | some vs ↦ pay s (account_id cfg source) (target, amount, some vs)
  ]

  unfoldable pub pay_all_vested : State W → Allocation → List Details → Outcome (State W)
  pay_all_vested s source [] = ok s
  pay_all_vested s source (d ∷ ds) = pay_vested s source d >>= λ s'. pay_all_vested s' source ds

  -- A schedule of the allocation for an amount of its wallet.
  unfoldable pub relock : State W → Allocation → ℕ → Outcome (State W)
  relock s source amount = elim (schedule_rel source amount) [
    | none ↦ ok (deposit_event s (deposit_source_missmatch (sub_id source)))
    | some vs ↦ vest s (account_id cfg source) (some vs)
  ]

  -- `Allocation::set_locked`.
  unfoldable pub set_locked : State W → Allocation → ℕ → Outcome (State W)
  set_locked s source locked =
      elim (cfg.remove_vesting_schedule s.airdrop.balances (account_id cfg source) 0) [
        | ok w ↦ relock (with_balances s w) source locked
        | err e ↦ ok (deposit_event s (deposit_source_missmatch (sub_id source)))
        | panic ↦ panic
      ]

  -- The rest of the wallet is locked again.
  unfoldable pub lock_again : State W → Allocation → Outcome (State W)
  lock_again s source =
      relock s source (cfg.airdrop.currency.free_balance s.airdrop.balances (account_id cfg source))

  abbrev pub is_some_of : Option ℕ → ℕ → Bool
  is_some_of none n = false
  is_some_of (some m) n = m == n

  unfoldable pub transfer_as_vested : State W → List Details → Allocation → Outcome (State W)
  transfer_as_vested s ds source =
      let account = account_id cfg source in
      let w = s.airdrop.balances in
      if not
        (is_some_of (cfg.vesting_balance w account) (cfg.airdrop.currency.free_balance w account))
      then ok (deposit_event s (deposit_source_missmatch (sub_id source)))
      else elim (cfg.remove_vesting_schedule w account 0) [
        | ok w' ↦ pay_all_vested (with_balances s w') source ds >>= λ s'. lock_again s' source
        | err e ↦ ok (deposit_event s (deposit_source_missmatch (sub_id source)))
        | panic ↦ panic
      ]
