-- ===== src/Timegraph/Effects.antt =====
-- What the calls of pallets/timegraph/src/lib.rs move between accounts.
use timechain.Prelude.{
  ℕ, ◌+◌, ◌≤◌, ◌≡◌, ◌≢◌, ap, ◌∙◌, true, some, arith, ltb, leb, ◌==◌, not, if◌then◌else◌, Bool-cases,
  inl, inr, saturating_add, u128_max,
}
use timechain.Outcome.{Outcome, ok, ensure, Origin, ensure_signed, ensure_admin, bind_ok, ensure_ok}
use timechain.Currency.{Currency, Laws}
use timechain.Timegraph.{
  State, increment, ensure_timegraph, deposit, withdraw, transfer_to_pool, transfer_award_to_user,
  set_timegraph_account, set_reward_pool_account, set_threshold,
}

-- The calls of the pallet.
pub data Call : Type 0 where
  deposit_call : ℕ → Call
  withdraw_call : ℕ → Call
  to_pool_call : ℕ → ℕ → Call
  award_call : ℕ → ℕ → Call
  timegraph_call : ℕ → Call
  pool_call : ℕ → Call
  threshold_call : ℕ → Call

module _ {W : Type 0} (c : Currency W) where
  unfoldable pub dispatch : State W → Origin → Call → Outcome (State W)
  dispatch s o (deposit_call n) = deposit c s o n
  dispatch s o (withdraw_call n) = withdraw c s o n
  dispatch s o (to_pool_call account n) = transfer_to_pool c s o account n
  dispatch s o (award_call account n) = transfer_award_to_user c s o account n
  dispatch s o (timegraph_call account) = set_timegraph_account c s o account
  dispatch s o (pool_call account) = set_reward_pool_account c s o account
  dispatch s o (threshold_call n) = set_threshold c s o n

  -- `n` at the account `who`, and nothing elsewhere.
  abbrev pub at : ℕ → ℕ → ℕ → ℕ
  at who n a = if a == who then n else 0

  -- Who has to sign, and what account `a` gives and gets.
  pub record Moves (s s' : State W) (free_out free_in reserved_out reserved_in : ℕ → ℕ)
      : Type 0 where
    pub free :
        (a : ℕ)
        → c.free_balance s'.balances a + free_out a ≡ c.free_balance s.balances a + free_in a
    pub reserved :
        (a : ℕ)
        → c.reserved_balance s'.balances a + reserved_out a
          ≡ c.reserved_balance s.balances a + reserved_in a

  -- What each call is for.
  abbrev pub Effect : State W → State W → Origin → Call → Type 0
  Effect s s' o (deposit_call n) =
      (who : ℕ) × (o.signer ≡ some who) × Moves s s' (at who n) (λ a. 0) (λ a. 0) (at who n)
  Effect s s' o (withdraw_call n) =
      (who : ℕ) × (o.signer ≡ some who) × Moves s s' (λ a. 0) (at who n) (at who n) (λ a. 0)
  Effect s s' o (to_pool_call account n) =
      (o.signer ≡ some s.timegraph_account)
      × Moves s s' (λ a. 0) (at s.reward_pool_account n) (at account n) (λ a. 0)
  Effect s s' o (award_call account n) =
      (o.signer ≡ some s.timegraph_account)
      × (account ≢ s.reward_pool_account)
      × Moves s s' (at s.reward_pool_account n) (λ a. 0) (λ a. 0) (at account n)
  Effect s s' o (timegraph_call account) = (o.is_admin ≡ true) × (s'.balances ≡ s.balances)
  Effect s s' o (pool_call account) = (o.is_admin ≡ true) × (s'.balances ≡ s.balances)
  Effect s s' o (threshold_call n) = (o.is_admin ≡ true) × (s'.balances ≡ s.balances)

signed_lem : (o : Origin) (who : ℕ) → ensure_signed o ≡ ok who → o.signer ≡ some who
signed_lem o who h = ground arith

module _ {W : Type 0} (c : Currency W) where
  set_timegraph-Effect :
      (s s' : State W) (o : Origin) (account : ℕ)
      → set_timegraph_account c s o account ≡ ok s'
      → Effect c s s' o (timegraph_call account)
  unfolding set_timegraph_account
  set_timegraph-Effect s s' o account h =
      let (u, p, q) = bind_ok (ensure_admin o) _ h in
      let (u2, p2, q2) = bind_ok (ensure (not (account == s.timegraph_account)) _) _ q in
      (ensure_ok o.is_admin _ p, ground arith)

  set_pool-Effect :
      (s s' : State W) (o : Origin) (account : ℕ)
      → set_reward_pool_account c s o account ≡ ok s'
      → Effect c s s' o (pool_call account)
  unfolding set_reward_pool_account
  set_pool-Effect s s' o account h =
      let (u, p, q) = bind_ok (ensure_admin o) _ h in
      let (u2, p2, q2) = bind_ok (ensure (not (account == s.reward_pool_account)) _) _ q in
      (ensure_ok o.is_admin _ p, ground arith)

  set_threshold-Effect :
      (s s' : State W) (o : Origin) (n : ℕ)
      → set_threshold c s o n ≡ ok s'
      → Effect c s s' o (threshold_call n)
  unfolding set_threshold
  set_threshold-Effect s s' o n h =
      let (u, p, q) = bind_ok (ensure_admin o) _ h in
      let (u2, p2, q2) = bind_ok (ensure (not (n == s.threshold)) _) _ q in
      (ensure_ok o.is_admin _ p, ground arith)

module _ {W : Type 0} (c : Currency W) (laws : Laws c) where
  deposit-Effect :
      (s s' : State W) (o : Origin) (n : ℕ)
      → deposit c s o n ≡ ok s'
      → Effect c s s' o (deposit_call n)
  unfolding deposit
  deposit-Effect s s' o n h =
      let (who, p, q) = bind_ok (ensure_signed o) _ h in
      let (u, p2, q2) = bind_ok (ensure (ltb 0 n) _) _ q in
      let (w, r, q3) = bind_ok (c.reserve s.balances who n) _ q2 in
      let (x, p4, q4) = bind_ok (increment s.next_deposit_sequence who) _ q3 in
      let e : s'.balances ≡ w = ground arith in
      (
        who,
        signed_lem o who p,
        record {
          free = λ a.
              omega
                (arith, laws.reserve_free s.balances w who n r a, ap (λ b. c.free_balance b a) e);
          reserved = λ a. omega (
            arith,
            laws.reserve_reserved s.balances w who n r a,
            ap (λ b. c.reserved_balance b a) e,
          );
        },
      )

  -- A value that was unreserved in full.
  unreserve-Moves :
      (w : W) (who n : ℕ)
      → ((c.unreserve w who n).1 == 0) ≡ true
      → (a : ℕ)
      → (c.free_balance (c.unreserve w who n).0 a ≡ c.free_balance w a + at c who n a)
        × (c.reserved_balance (c.unreserve w who n).0 a + at c who n a ≡ c.reserved_balance w a)
  unreserve-Moves w who n full a =
      let rest : (c.unreserve w who n).1 ≡ 0 = ground (arith, full) in
      let there : n ≤ c.reserved_balance w who = omega (arith, laws.unreserve_rest w who n, rest) in
      elim (Bool-cases (a == who)) [
        | inl same ↦
            let e : a ≡ who = ground (arith, same) in
            (
              ground (arith, laws.unreserve_free w who n a, rest, same),
              ground (arith, laws.unreserve_reserved w who n a, there, e, same),
            )
        | inr other ↦ (
          ground (arith, laws.unreserve_free w who n a, other),
          ground (arith, laws.unreserve_reserved w who n a, other),
        )
      ]

  withdraw-Effect :
      (s s' : State W) (o : Origin) (n : ℕ)
      → withdraw c s o n ≡ ok s'
      → Effect c s s' o (withdraw_call n)
  unfolding withdraw
  withdraw-Effect s s' o n h =
      let (who, p, q) = bind_ok (ensure_signed o) _ h in
      let (u, p2, q2) = bind_ok (ensure (ltb 0 n) _) _ q in
      let (u3, p3, q3) =
        bind_ok
          (ensure (leb (saturating_add u128_max n s.threshold) (c.reserved_balance s.balances who))
            _)
          _ q2 in
      let (u4, p4, q4) = bind_ok (ensure ((c.unreserve s.balances who n).1 == 0) _) _ q3 in
      let (x, p5, q5) = bind_ok (increment s.next_withdrawal_sequence who) _ q4 in
      let full = ensure_ok ((c.unreserve s.balances who n).1 == 0) _ p4 in
      let e : s'.balances ≡ (c.unreserve s.balances who n).0 = ground arith in
      let moved = unreserve-Moves s.balances who n full in
      (
        who,
        signed_lem o who p,
        record {
          free = λ a. omega (arith, moved a, ap (λ b. c.free_balance b a) e);
          reserved = λ a. omega (arith, moved a, ap (λ b. c.reserved_balance b a) e);
        },
      )

  ensure_timegraph_lem :
      (s : State W) (o : Origin) {u : Unit {0}}
      → ensure_timegraph c s o ≡ ok u
      → o.signer ≡ some s.timegraph_account
  unfolding ensure_timegraph
  ensure_timegraph_lem s o h =
      let (who, p, q) = bind_ok (ensure_signed o) _ h in
      let same = ensure_ok (who == s.timegraph_account) _ q in
      let e : who ≡ s.timegraph_account = ground (arith, same) in signed_lem o who p ∙ ap some e

  transfer_to_pool-Effect :
      (s s' : State W) (o : Origin) (account n : ℕ)
      → transfer_to_pool c s o account n ≡ ok s'
      → Effect c s s' o (to_pool_call account n)
  unfolding transfer_to_pool
  transfer_to_pool-Effect s s' o account n h =
      let (u, p, q) = bind_ok (ensure_timegraph c s o) _ h in
      let (u2, p2, q2) = bind_ok (ensure ((c.unreserve s.balances account n).1 == 0) _) _ q in
      let v = (c.unreserve s.balances account n).0 in
      let (w, r, q3) = bind_ok (c.transfer v account s.reward_pool_account n) _ q2 in
      let full = ensure_ok ((c.unreserve s.balances account n).1 == 0) _ p2 in
      let e : s'.balances ≡ w = ground arith in
      let moved = unreserve-Moves s.balances account n full in
      (
        ensure_timegraph_lem s o p,
        record {
          free = λ a. omega (
            arith,
            moved a,
            laws.transfer_free v w account s.reward_pool_account n r a,
            ap (λ b. c.free_balance b a) e,
          );
          reserved = λ a. omega (
            arith,
            moved a,
            laws.transfer_reserved v w account s.reward_pool_account n r a,
            ap (λ b. c.reserved_balance b a) e,
          );
        },
      )

  transfer_award_to_user-Effect :
      (s s' : State W) (o : Origin) (account n : ℕ)
      → transfer_award_to_user c s o account n ≡ ok s'
      → Effect c s s' o (award_call account n)
  unfolding transfer_award_to_user
  transfer_award_to_user-Effect s s' o account n h =
      let (u, p, q) = bind_ok (ensure_timegraph c s o) _ h in
      let (u2, p2, q2) = bind_ok (ensure (not (account == s.reward_pool_account)) _) _ q in
      let (u3, p3, q3) = bind_ok (ensure (ltb n _) _) _ q2 in
      let (w, r, q4) = bind_ok (c.transfer s.balances s.reward_pool_account account n) _ q3 in
      let (w', r', q5) = bind_ok (c.reserve w account n) _ q4 in
      let apart = ensure_ok (not (account == s.reward_pool_account)) _ p2 in
      let e : s'.balances ≡ w' = ground arith in
      (
        ensure_timegraph_lem s o p,
        ground (arith, apart),
        record {
          free = λ a. omega (
            arith,
            laws.transfer_free s.balances w s.reward_pool_account account n r a,
            laws.reserve_free w w' account n r' a,
            ap (λ b. c.free_balance b a) e,
          );
          reserved = λ a. omega (
            arith,
            laws.transfer_reserved s.balances w s.reward_pool_account account n r a,
            laws.reserve_reserved w w' account n r' a,
            ap (λ b. c.reserved_balance b a) e,
          );
        },
      )

-- What a call of the pallet that succeeds moves, for every account. A deposit reserves the value at
-- the signer, a withdrawal releases it there; the timegraph account alone takes a reserved value of
-- an account to the free balance of the reward pool, or gives one of the pool to the reserve of
-- another account; the settings are for the admin and move nothing.
pub dispatch-Effect :
    {W : Type 0} (c : Currency W) (laws : Laws c) (s s' : State W) (o : Origin) (call : Call)
    → dispatch c s o call ≡ ok s'
    → Effect c s s' o call
unfolding dispatch
dispatch-Effect c laws s s' o (deposit_call n) h = deposit-Effect c laws s s' o n h
dispatch-Effect c laws s s' o (withdraw_call n) h = withdraw-Effect c laws s s' o n h
dispatch-Effect c laws s s' o (to_pool_call account n) h =
    transfer_to_pool-Effect c laws s s' o account n h
dispatch-Effect c laws s s' o (award_call account n) h =
    transfer_award_to_user-Effect c laws s s' o account n h
dispatch-Effect c laws s s' o (timegraph_call account) h = set_timegraph-Effect c s s' o account h
dispatch-Effect c laws s s' o (pool_call account) h = set_pool-Effect c s s' o account h
dispatch-Effect c laws s s' o (threshold_call n) h = set_threshold-Effect c s s' o n h
