-- ===== src/Currency.antt =====
-- `Currency` and `ReservableCurrency` of frame_support, as the token pallets use them: a parameter,
-- with the balances as a state of type `W`. Accounts are numbers.
pub mod Ledger
use timechain.Prelude.{ℕ, ◌+◌, ◌-◌, ◌≤◌, ◌≡◌, ◌≢◌, ◌==◌, if◌then◌else◌}
use timechain.Outcome.{Outcome, ok}

pub record Currency (W : Type 0) : Type 0 where
  pub free_balance : W → ℕ → ℕ
  pub reserved_balance : W → ℕ → ℕ
  -- Moves a value from free to reserved, or fails.
  pub reserve : W → ℕ → ℕ → Outcome W
  -- Moves up to a value from reserved to free; with it what could not be moved.
  pub unreserve : W → ℕ → ℕ → W × ℕ
  -- `ExistenceRequirement::KeepAlive`: from one account to another, or a failure.
  pub transfer : W → ℕ → ℕ → ℕ → Outcome W
  pub deposit_creating : W → ℕ → ℕ → W

-- What the documentation of the traits says of the balances after each call.
pub record Laws {W : Type 0} (c : Currency W) : Type 0 where
  pub reserve_free :
      (w w' : W) (who n : ℕ)
      → c.reserve w who n ≡ ok w'
      → (a : ℕ) → c.free_balance w' a + (if a == who then n else 0) ≡ c.free_balance w a
  pub reserve_reserved :
      (w w' : W) (who n : ℕ)
      → c.reserve w who n ≡ ok w'
      → (a : ℕ) → c.reserved_balance w' a ≡ c.reserved_balance w a + (if a == who then n else 0)
  pub unreserve_rest : (w : W) (who n : ℕ) → (c.unreserve w who n).1 ≡ n - c.reserved_balance w who
  pub unreserve_reserved :
      (w : W) (who n a : ℕ)
      → c.reserved_balance (c.unreserve w who n).0 a
        ≡ c.reserved_balance w a - (if a == who then n else 0)
  pub unreserve_free :
      (w : W) (who n a : ℕ)
      → c.free_balance (c.unreserve w who n).0 a
        ≡ c.free_balance w a + (if a == who then n - (c.unreserve w who n).1 else 0)
  pub transfer_free :
      (w w' : W) (from to n : ℕ)
      → c.transfer w from to n ≡ ok w'
      → (a : ℕ)
      → c.free_balance w' a + (if a == from then n else 0)
        ≡ c.free_balance w a + (if a == to then n else 0)
  pub transfer_reserved :
      (w w' : W) (from to n : ℕ)
      → c.transfer w from to n ≡ ok w'
      → (a : ℕ) → c.reserved_balance w' a ≡ c.reserved_balance w a
  -- A deposit adds up to its value: less, or nothing, where the account could not be made or held.
  pub deposit_creating_le :
      (w : W) (who n a : ℕ)
      → c.free_balance (c.deposit_creating w who n) a
        ≤ c.free_balance w a + (if a == who then n else 0)
  pub deposit_creating_keeps :
      (w : W) (who n a : ℕ) → c.free_balance w a ≤ c.free_balance (c.deposit_creating w who n) a
