-- ===== src/Launch/Tests.antt =====
-- Tests of the model of pallets/launch, and the theorems at small stages.
use timechain.Prelude.{
  ℕ, zero, suc, ◌+◌, ◌-◌, ◌*◌, ◌≡◌, refl, ap, Bool-cases, inl, inr, true, false, Option, none, some,
  List, [], ◌∷◌, arith, leb, ◌==◌, if◌then◌else◌, u128_max,
}
use timechain.Storage.{get, insert}
use timechain.Outcome.{
  Outcome, ok, err, stage_retired, total_issuance_exceeded, insufficient_balance,
}
use timechain.Currency.Ledger.{Ledger, ledger}
use timechain.Airdrop
use timechain.Airdrop.{mint_airdrop}
use timechain.Launch.{
  Stage, retired, airdrop_from_unlocked, Config, State, Event, airdrop_mint_invalid,
  airdrop_mint_exists, ledger_invalid, stage_executed,
}
use timechain.Launch.Allocations.{
  Allocation, index, analog, airdrop, ecosystem, total, sub_id, from_index, new, add, is_valid,
  check_below, check,
}
use timechain.Launch.Stages.{parse_mint, parse_mints, total_of}
use timechain.Launch.Airdrops.{mint_one, mint, execute, sum}
use timechain.Launch.Ledger.{
  LaunchStage, compile_entry, compile_from, compile, run_stages, run, on_runtime_upgrade,
}
use timechain.Launch.Versions.{upgrade_asserting, on_runtime_upgrade-upgrade_asserting}
use timechain.Launch.Funding.{WithdrawLaw, Funded, execute-Funded}
use timechain.Launch.Mainnet.{launch_version, launch_ledger}

-- The first byte of a text is the account; the wallet of an allocation is told by its bytes.
first : List ℕ → Option ℕ
first [] = none
first (x ∷ xs) = some x

code : List ℕ → ℕ
code [] = 1000
code (x ∷ xs) = x + 2 * code xs

free_of : Outcome Ledger → ℕ → ℕ
free_of (ok m) b = m.free b
free_of m b = 0

claims_after : Outcome (State Ledger) → ℕ × ℕ × List Event
claims_after (ok s) = (s.stage_version, s.airdrop.total, s.events)
claims_after m = (0, 0, [])

abbrev withdraw : Ledger → ℕ → ℕ → Outcome Ledger
withdraw w who n =
    if leb n (w.free who)
    then ok (record w { free = λ a. w.free a - (if a == who then n else 0) })
    else err insufficient_balance

abbrev test_config : Config Ledger
test_config = record {
  airdrop = record {
    currency = ledger;
    can_add_vesting_schedule = λ w who vs. true;
    add_vesting_schedule = λ w who vs. ok w;
    verify_schnorr = λ proof message source. false;
    verify_edwards = λ proof message source. false;
    raw_prefix = [];
    minimum_balance = 5;
    encode_account = λ a. [];
  };
  transfer = ledger.transfer;
  withdraw = withdraw;
  total_balance = λ w a. w.free a + w.reserved a;
  set_lock = λ w id a n. w;
  vesting_balance = λ w a. none;
  remove_vesting_schedule = λ w a i. ok w;
  from_ss58check = first;
  into_sub_account = code;
  minimum_deposit = 5;
  max_balance = u128_max;
  max_block = 4294967295;
  from_rational = λ a b c. a;
  hash_of = λ stage. 77;
}

-- What a ledger issues of an allocation.
issued : List LaunchStage → Allocation → ℕ
issued [] alloc = 0
issued ((version, source, amount, stage) ∷ stages) alloc =
    (if index source == index alloc then amount else 0) + issued stages alloc

-- The wallets that match it.
rest_of : List LaunchStage → ℕ → ℕ → ℕ
rest_of stages a zero = 0
rest_of stages a (suc n) =
    if a == code (sub_id (from_index (suc n)))
    then total (from_index (suc n)) - issued stages (from_index (suc n))
    else rest_of stages a n

abbrev matching : ℕ → List LaunchStage → State Ledger
matching version stages = record {
  airdrop = record {
    balances = record { free = λ a. rest_of stages a 11; reserved = λ a. 0 };
    claims = (3, 50) ∷ [];
    total = 50;
    vesting = [];
    events = [];
  };
  stage_version = version;
  events = [];
}

-- The main network after its last stage: nothing is left to do.
mainnet-done :
    on_runtime_upgrade test_config (matching 31 launch_ledger) launch_version launch_ledger
    ≡ ok (matching 31 launch_ledger)
unfolding on_runtime_upgrade compile compile_from compile_entry run run_stages add check check_below
    is_valid from_index code new rest_of issued
mainnet-done = refl

-- With other balances nothing is run.
mainnet-unmatched :
    on_runtime_upgrade test_config (matching 31 []) launch_version launch_ledger
    ≡ ok (record (matching 31 []) { events = ledger_invalid total_issuance_exceeded ∷ [] })
unfolding on_runtime_upgrade compile compile_from compile_entry add check check_below is_valid
    from_index code new rest_of issued
mainnet-unmatched = refl

-- The data of the stages is gone, so a chain of an older version cannot catch up.
mainnet-retired :
    on_runtime_upgrade test_config
      (matching 0 ((0, ecosystem, 3100 * analog, retired) ∷ []))
      launch_version
      launch_ledger
    ≡ ok (record (matching 0 ((0, ecosystem, 3100 * analog, retired) ∷ [])) {
      events = ledger_invalid stage_retired ∷ [];
    })
unfolding on_runtime_upgrade compile compile_from compile_entry add check check_below is_valid
    from_index code new rest_of issued
mainnet-retired = refl

-- Of the airdrops the first is made; the second account has a claim, and the third text names none.
abbrev airdrops : Stage
airdrops = airdrop_from_unlocked ((4 ∷ [], 30, none) ∷ (3 ∷ [], 20, none) ∷ ([], 7, none) ∷ [])

abbrev small_ledger : List LaunchStage
small_ledger = (0, ecosystem, 9, retired) ∷ (1, airdrop, 50, airdrops) ∷ []

small-upgrade :
    claims_after
      (on_runtime_upgrade test_config (matching 0 ((0, ecosystem, 9, retired) ∷ [])) 1 small_ledger)
    ≡ (
      1,
      80,
      stage_executed 1 77
          ∷ airdrop_mint_exists 3
          ∷ airdrop_mint_invalid []
          ∷ airdrop_mint_invalid []
          ∷ [],
    )
unfolding on_runtime_upgrade compile compile_from compile_entry sum total_of parse_mints parse_mint
    first run run_stages execute mint mint_one mint_airdrop get insert add check check_below
    is_valid from_index code new rest_of issued claims_after
small-upgrade = refl

on_runtime_upgrade-upgrade_asserting_example :
    on_runtime_upgrade test_config (matching 0 ((0, ecosystem, 9, retired) ∷ [])) 1 small_ledger
    ≡ upgrade_asserting test_config (matching 0 ((0, ecosystem, 9, retired) ∷ [])) 1 small_ledger
on_runtime_upgrade-upgrade_asserting_example =
    on_runtime_upgrade-upgrade_asserting test_config (matching 0 ((0, ecosystem, 9, retired) ∷ []))
      1 small_ledger

-- The wallet of the airdrops has 100.
abbrev start : State Ledger
start = record {
  airdrop = record {
    balances = record {
      free = λ a. if a == code (sub_id airdrop) then 100 else 0;
      reserved = λ a. 0;
    };
    claims = (3, 50) ∷ [];
    total = 50;
    vesting = [];
    events = [];
  };
  stage_version = 31;
  events = [];
}

abbrev dropped : State Ledger
dropped = record start {
  airdrop = record start.airdrop {
    balances = record {
      free = λ a.
          (if a == code (sub_id airdrop) then 100 else 0)
          - (if a == code (sub_id airdrop) then 30 else 0)
          - (if a == code (sub_id airdrop) then 20 else 0);
      reserved = λ a. 0;
    };
    claims = (3, 50) ∷ (4, 30) ∷ [];
    total = 80;
    events = Airdrop.minted 4 30 ∷ [];
  };
  events = airdrop_mint_exists 3 ∷ airdrop_mint_invalid [] ∷ [];
}

start-dropped : execute test_config start airdrops airdrop ≡ ok dropped
unfolding execute mint mint_one mint_airdrop parse_mints parse_mint first get insert code
start-dropped = refl

withdraw-WithdrawLaw : WithdrawLaw test_config
unfolding free_of
withdraw-WithdrawLaw w w' who n h = elim (Bool-cases (leb n (w.free who))) [
  | inr less ↦ absurd (ground (arith, less))
  | inl enough ↦
      let e : ◌≡◌ {A = Outcome Ledger}
          (ok (record w { free = λ a. w.free a - (if a == who then n else 0) })) (ok w') =
        ground (arith, enough) in
      let f : w.free who - (if who == who then n else 0) ≡ w'.free who =
        ap (λ (m : Outcome Ledger). free_of m who) e in
      ground (arith, f, enough)
]

execute-Funded_example : Funded test_config airdrop start.airdrop dropped.airdrop
unfolding get code
execute-Funded_example =
    execute-Funded test_config withdraw-WithdrawLaw start dropped
      ((4 ∷ [], 30, none) ∷ (3 ∷ [], 20, none) ∷ ([], 7, none) ∷ []) airdrop
      (record { unique = (refl, tt); total = refl }) (omega arith) start-dropped
