-- ===== src/Timegraph/Tests.antt =====
-- Tests of the model of pallets/timegraph/src/lib.rs, and the theorems at small balances.
use timechain.Prelude.{ℕ, ◌+◌, ◌-◌, ◌≡◌, refl, false, some, [], ◌∷◌, arith, ◌==◌, if◌then◌else◌}
use timechain.Storage.{get, insert}
use timechain.Outcome.{ok, err, Origin, withdrawal_amount_over_reserve}
use timechain.Currency.Ledger.{Ledger, ledger, ledger-Laws}
use timechain.Timegraph.{
  State, awarded, withdrawn, ensure_timegraph, transfer_award_to_user, withdraw,
}
use timechain.Timegraph.Effects.{award_call, dispatch, Effect, dispatch-Effect}
use timechain.Timegraph.Withdrawal.{withdraw-withdrawal_of}

-- Account 7 is timegraph, account 8 the reward pool; user 1 has reserved 40.
abbrev start : State Ledger
start = record {
  balances = record { free = λ a. 100; reserved = λ a. if a == 1 then 40 else 0 };
  next_deposit_sequence = [];
  next_withdrawal_sequence = (1, 4) ∷ [];
  timegraph_account = 7;
  reward_pool_account = 8;
  threshold = 15;
  events = [];
}

abbrev by : ℕ → Origin
by who = record { signer = some who; is_admin = false }

abbrev rewarded : State Ledger
rewarded = record start {
  balances = record {
    free = λ a.
        (100 + (if a == 1 then 30 else 0) - (if a == 8 then 30 else 0))
        - (if a == 1 then 30 else 0);
    reserved = λ a. (if a == 1 then 40 else 0) + (if a == 1 then 30 else 0);
  };
  events = awarded 8 1 30 ∷ [];
}

start-rewarded : dispatch ledger start (by 7) (award_call 1 30) ≡ ok rewarded
unfolding dispatch transfer_award_to_user ensure_timegraph
start-rewarded = refl

dispatch-Effect_example : Effect ledger start rewarded (by 7) (award_call 1 30)
dispatch-Effect_example =
    dispatch-Effect ledger ledger-Laws start rewarded (by 7) (award_call 1 30) start-rewarded

-- 26 of 40 would leave less than 15.
withdraw-over : withdraw ledger start (by 1) 26 ≡ err withdrawal_amount_over_reserve
unfolding withdraw
withdraw-over = refl

withdraw-withdrawal_of_example :
    withdraw ledger start (by 1) 25
    ≡ ok (record start {
      balances = (ledger.unreserve start.balances 1 25).0;
      next_withdrawal_sequence = (1, 5) ∷ [];
      events = withdrawn 1 25 5 ∷ [];
    })
unfolding get insert
withdraw-withdrawal_of_example =
    withdraw-withdrawal_of ledger ledger-Laws start (by 1) 1 25 refl (omega arith) (omega arith)
