-- ===== src/Timegraph/Withdrawal.antt =====
-- When a withdrawal of pallets/timegraph/src/lib.rs succeeds, and what it answers else.
use timechain.Prelude.{
  ℕ, ◌+◌, ◌≤◌, ◌<◌, ◌≡◌, refl, true, false, some, ◌∷◌, arith, ltb, leb, ◌==◌, if◌then◌else◌,
  Bool-cases, inl, inr, unwrap_or, saturating_add, u64_max, u128_max,
}
use timechain.Storage.{get, insert}
use timechain.Outcome.{
  Outcome, ok, err, Origin, ensure_signed, sequence_number_overflow, zero_amount,
  withdrawal_amount_over_reserve,
}
use timechain.Currency.{Currency, Laws}
use timechain.Timegraph.{State, withdrawn, increment, withdraw}

module _ {W : Type 0} (c : Currency W) where
  -- The withdrawal of `amount` by `who`, in the order of the checks.
  abbrev pub withdrawal_of : State W → ℕ → ℕ → Outcome (State W)
  withdrawal_of s who amount =
      let sequence = unwrap_or (get s.next_withdrawal_sequence who) 0 in
      if amount == 0
      then err zero_amount
      else if ltb (c.reserved_balance s.balances who) (amount + s.threshold)
      then err withdrawal_amount_over_reserve
      else if sequence == u64_max
      then err sequence_number_overflow
      else ok (record s {
        balances = (c.unreserve s.balances who amount).0;
        next_withdrawal_sequence = insert s.next_withdrawal_sequence who (sequence + 1);
        events = withdrawn who amount (sequence + 1) ∷ s.events;
      })

-- A withdrawal by a signer whose reserved balance is below the largest balance and whose sequence
-- number fits 64 bits: it is refused for an amount of 0, when less than the threshold would stay
-- reserved, and when the sequence number cannot grow; else the amount is released and the sequence
-- number, which the event carries, grows by one. It is never refused as not required.
pub withdraw-withdrawal_of :
    {W : Type 0} (c : Currency W) (laws : Laws c) (s : State W) (o : Origin) (who amount : ℕ)
    → o.signer ≡ some who
    → c.reserved_balance s.balances who < u128_max
    → unwrap_or (get s.next_withdrawal_sequence who) 0 ≤ u64_max
    → withdraw c s o amount ≡ withdrawal_of c s who amount
unfolding withdraw increment
withdraw-withdrawal_of c laws s o who amount signed small fits =
    let signer : ensure_signed o ≡ ok who = ground (arith, signed) in
    let sequence : ℕ = unwrap_or (get s.next_withdrawal_sequence who) 0 in
    elim (Bool-cases (amount == 0)) [
      | inl nothing ↦ ground (arith, signed, nothing)
      | inr something ↦
          elim (Bool-cases (ltb (c.reserved_balance s.balances who) (amount + s.threshold))) [
            | inl over ↦ ground (arith, signed, something, over)
            | inr within ↦
                let full : ((c.unreserve s.balances who amount).1 == 0) ≡ true =
                  ground (arith, laws.unreserve_rest s.balances who amount, within) in
                let positive : ltb 0 amount ≡ true = ground (arith, something) in
                let low : leb (saturating_add u128_max amount s.threshold)
                      (c.reserved_balance s.balances who)
                    ≡ true =
                  ground (arith, within) in
                elim (Bool-cases (sequence == u64_max)) [
                  | inl last ↦
                      let stuck : ltb sequence u64_max ≡ false = ground (arith, last) in
                      rw (signer, positive, low, full, stuck, something, within, last) refl
                  | inr more ↦
                      let goes : ltb sequence u64_max ≡ true = ground (arith, more, fits) in
                      rw (signer, positive, low, full, goes, something, within, more) refl
                ]
          ]
    ]
