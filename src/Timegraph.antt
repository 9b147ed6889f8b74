-- ===== src/Timegraph.antt =====
-- pallets/timegraph/src/lib.rs: deposits of the users of timegraph, and the rewards that they get.
pub mod Effects
pub mod Withdrawal
pub mod Tests
use timechain.Prelude.{
  ℕ, ◌+◌, ◌-◌, ◌≤◌, ◌<◌, Bool, true, false, Option, none, some, List, [], ◌∷◌, ltb, leb, ◌==◌, not,
  if◌then◌else◌, unwrap_or, saturating_add, u64_max, u128_max,
}
use timechain.Storage.{Map, get, insert}
use timechain.Outcome.{
  Outcome, ok, err, ◌>>=◌, ◌>>◌, ensure, Origin, ensure_signed, ensure_admin, Error,
  sequence_number_overflow, zero_amount, withdrawal_amount_over_reserve, not_withdrawal_required,
  reward_pool_out_of_balance, reward_to_same_account, same_timegraph_account,
  same_reward_pool_account, same_threshold, sender_is_not_timegraph,
}
use timechain.Currency.{Currency}

pub data Event : Type 0 where
  deposited : ℕ → ℕ → ℕ → Event
  withdrawn : ℕ → ℕ → ℕ → Event
  transferred_to_pool : ℕ → ℕ → ℕ → Event
  awarded : ℕ → ℕ → ℕ → Event
  timegraph_account_reset : ℕ → ℕ → Event
  reward_pool_account_reset : ℕ → ℕ → Event
  threshold_reset : ℕ → ℕ → Event

-- The storages, with the balances of the currency.
pub record State (W : Type 0) : Type 0 where
  pub balances : W
  pub next_deposit_sequence : Map ℕ
  pub next_withdrawal_sequence : Map ℕ
  pub timegraph_account : ℕ
  pub reward_pool_account : ℕ
  pub threshold : ℕ
  pub events : List Event

-- `try_mutate` with `checked_add(1)` on a counter of 64 bits; with it the new value.
unfoldable pub increment : Map ℕ → ℕ → Outcome (Map ℕ × ℕ)
increment m who =
    let x = unwrap_or (get m who) 0 in
    if ltb x u64_max then ok (insert m who (x + 1), x + 1) else err sequence_number_overflow

module _ {W : Type 0} (c : Currency W) where
  abbrev pub deposit_event : State W → Event → State W
  deposit_event s e = record s { events = e ∷ s.events }

  unfoldable pub ensure_timegraph : State W → Origin → Outcome (Unit {0})
  ensure_timegraph s origin =
      ensure_signed origin >>= λ who. ensure (who == s.timegraph_account) sender_is_not_timegraph

  unfoldable pub deposit : State W → Origin → ℕ → Outcome (State W)
  deposit s origin amount = ensure_signed origin >>= λ who.
      ensure (ltb 0 amount) zero_amount
      >> (c.reserve s.balances who amount >>= λ w. increment s.next_deposit_sequence who >>= λ x.
          ok (
            deposit_event (record s { balances = w; next_deposit_sequence = x.0 })
              (deposited who amount x.1)))

  unfoldable pub withdraw : State W → Origin → ℕ → Outcome (State W)
  withdraw s origin amount = ensure_signed origin >>= λ who.
      ensure (ltb 0 amount) zero_amount
      >> (ensure
            (leb (saturating_add u128_max amount s.threshold) (c.reserved_balance s.balances who))
            withdrawal_amount_over_reserve
          >> (ensure ((c.unreserve s.balances who amount).1 == 0) not_withdrawal_required
              >> (increment s.next_withdrawal_sequence who >>= λ x. ok (
                  deposit_event
                    (record s {
                      balances = (c.unreserve s.balances who amount).0;
                      next_withdrawal_sequence = x.0;
                    })
                    (withdrawn who amount x.1)))))

  unfoldable pub transfer_to_pool : State W → Origin → ℕ → ℕ → Outcome (State W)
  transfer_to_pool s origin account amount =
      ensure_timegraph s origin
      >> (ensure ((c.unreserve s.balances account amount).1 == 0) not_withdrawal_required
          >> (c.transfer (c.unreserve s.balances account amount).0 account s.reward_pool_account
                amount
              >>= λ w. ok (
                  deposit_event (record s { balances = w })
                    (transferred_to_pool account s.reward_pool_account amount))))

  unfoldable pub transfer_award_to_user : State W → Origin → ℕ → ℕ → Outcome (State W)
  transfer_award_to_user s origin account amount =
      ensure_timegraph s origin
      >> (ensure (not (account == s.reward_pool_account)) reward_to_same_account
          >> (ensure (ltb amount (c.free_balance s.balances s.reward_pool_account))
                reward_pool_out_of_balance
              >> (c.transfer s.balances s.reward_pool_account account amount >>= λ w.
                  c.reserve w account amount >>= λ w'. ok (
                    deposit_event (record s { balances = w' })
                      (awarded s.reward_pool_account account amount)))))

  unfoldable pub set_timegraph_account : State W → Origin → ℕ → Outcome (State W)
  set_timegraph_account s origin account =
      ensure_admin origin
      >> (ensure (not (account == s.timegraph_account)) same_timegraph_account
          >> ok (record (deposit_event s (timegraph_account_reset s.timegraph_account account)) {
            timegraph_account = account;
          }))

  unfoldable pub set_reward_pool_account : State W → Origin → ℕ → Outcome (State W)
  set_reward_pool_account s origin account =
      ensure_admin origin
      >> (ensure (not (account == s.reward_pool_account)) same_reward_pool_account
          >> ok
              (record (deposit_event s (reward_pool_account_reset s.reward_pool_account account)) {
                reward_pool_account = account;
              }))

  unfoldable pub set_threshold : State W → Origin → ℕ → Outcome (State W)
  set_threshold s origin amount =
      ensure_admin origin
      >> (ensure (not (amount == s.threshold)) same_threshold
          >> ok (record (deposit_event s (threshold_reset s.threshold amount)) {
            threshold = amount;
          }))
