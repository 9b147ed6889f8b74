-- ===== src/Launch/Funding.antt =====
-- The airdrop stages of pallets/launch/src/airdrops.rs: what is promised is paid from the wallet.
use timechain.Prelude.{
  ℕ, ◌+◌, ◌≤◌, ◌≡◌, refl, sym, ap, Option, List, [], ◌∷◌, arith, leb, subst, is_none, u128_max,
}
use timechain.Storage.{get}
use timechain.Outcome.{ok, ensure, bind_ok, After, After-bind, After-catch, After_ok, After-map}
use timechain.Airdrop
use timechain.Airdrop.{Schedule, mint_airdrop}
use timechain.Airdrop.Totals.{IsValid, mint_airdrop-IsValid}
use timechain.Launch.{
  RawMint, Details, airdrop_from_unlocked, Config, State, Event, deposit_event, with_balances,
  account_id,
}
use timechain.Launch.Allocations.{Allocation}
use timechain.Launch.Stages.{parse_mints}
use timechain.Launch.Airdrops.{mint_one, mint, mint_event, with_airdrop, execute}

module _ {W : Type 0} (cfg : Config W) where
  -- A withdrawal takes its amount from the account, and with it what is too little to stay.
  abbrev pub WithdrawLaw : Type 0
  WithdrawLaw =
      (w w' : W) (who n : ℕ)
      → cfg.withdraw w who n ≡ ok w'
      → cfg.airdrop.currency.free_balance w' who + n ≤ cfg.airdrop.currency.free_balance w who

  abbrev pub wallet : Allocation → Airdrop.State W → ℕ
  wallet source a = cfg.airdrop.currency.free_balance a.balances (account_id cfg source)

  -- The total is valid, and with the wallet it is no more than before.
  pub record Funded (source : Allocation) (a a' : Airdrop.State W) : Type 0 where
    pub valid : IsValid a'
    pub funded : a'.total + wallet source a' ≤ a.total + wallet source a

  mint_airdrop-balances :
      (a a' : Airdrop.State W) (owner amount : ℕ) (vs : Option Schedule)
      → mint_airdrop cfg.airdrop a owner amount vs ≡ ok a'
      → a'.balances ≡ a.balances
  unfolding mint_airdrop
  mint_airdrop-balances a a' owner amount vs h =
      let (u, p, q) = bind_ok (ensure (leb cfg.airdrop.minimum_balance amount) _) _ h in
      let (u2, p2, q2) = bind_ok (ensure (is_none (get a.claims owner)) _) _ q in ground (arith, q2)

  mint_one-Funded :
      WithdrawLaw
      → (s : State W) (source : Allocation) (d : Details) → IsValid s.airdrop
      → s.airdrop.total + wallet source s.airdrop ≤ u128_max
      → After (λ (t : State W). Funded source s.airdrop t.airdrop) (mint_one cfg s source d)
  unfolding mint_one
  mint_one-Funded law s source (target, amount, vs) v room =
      After-catch (λ (t : State W). Funded source s.airdrop t.airdrop)
        (cfg.withdraw s.airdrop.balances (account_id cfg source) amount) _ _
        (λ w h.
          let paid : State W = with_balances s w in
          let took = law s.airdrop.balances w (account_id cfg source) amount h in
          let still : IsValid paid.airdrop = record { unique = v.unique; total = v.total } in
          After-catch (λ (t : State W). Funded source s.airdrop t.airdrop)
            (mint_airdrop cfg.airdrop paid.airdrop target amount vs)
            (λ a. ok (with_airdrop cfg paid a))
            (λ e. ok (deposit_event paid (mint_event cfg target e)))
            (λ a k.
              let r =
                mint_airdrop-IsValid cfg.airdrop paid.airdrop a target amount vs still
                  (omega (arith, room, took)) k in
              let e = mint_airdrop-balances paid.airdrop a target amount vs k in
              let f : wallet source a ≡ wallet source paid.airdrop =
                ap (λ b. cfg.airdrop.currency.free_balance b (account_id cfg source)) e in
              record { valid = r.0; funded = omega (arith, r.1, f, took) })
            (λ e. record { valid = still; funded = omega (arith, took) }))
        (λ e. record { valid = v; funded = omega arith })

  mint-Funded :
      WithdrawLaw
      → (s : State W) (ds : List Details) (source : Allocation) → IsValid s.airdrop
      → s.airdrop.total + wallet source s.airdrop ≤ u128_max
      → After (λ (t : State W). Funded source s.airdrop t.airdrop) (mint cfg s ds source)
  unfolding mint
  mint-Funded law s [] source v room = record { valid = v; funded = omega arith }
  mint-Funded law s (d ∷ ds) source v room =
      After-bind (λ (t : State W). Funded source s.airdrop t.airdrop)
        (λ (t : State W). Funded source s.airdrop t.airdrop) (mint_one cfg s source d)
        (λ t. mint cfg t ds source) (mint_one-Funded law s source d v room)
        (λ t f.
          After-map (λ (x : State W). Funded source t.airdrop x.airdrop)
            (λ (x : State W). Funded source s.airdrop x.airdrop) (mint cfg t ds source)
            (λ x g. record { valid = g.valid; funded = omega (arith, g.funded, f.funded) })
            (mint-Funded law t ds source f.valid (omega (arith, f.funded, room))))

  parse_mints-airdrop :
      (s : State W) (raw : List RawMint) → (parse_mints cfg s raw).0.airdrop ≡ s.airdrop
  unfolding parse_mints
  parse_mints-airdrop s [] = refl
  parse_mints-airdrop s ((id, amount, vs) ∷ raw) =
      let rest : (e : Event) → (parse_mints cfg (deposit_event s e) raw).0.airdrop ≡ s.airdrop =
        λ e. parse_mints-airdrop (deposit_event s e) raw in
      grind (arith, rest, parse_mints-airdrop s raw)

  -- If a withdrawal takes at least its amount from the wallet, the total of the airdrops is the sum of the
  -- claims, one for each account, and it and the wallet of the allocation fit in a u128 together:
  -- then a stage of airdrops that returns leaves the total the sum of the claims, and the total and
  -- the wallet together are at most what they were, so no airdrop is made that the wallet has not paid.
  pub execute-Funded :
      WithdrawLaw
      → (s s' : State W) (raw : List RawMint) (source : Allocation) → IsValid s.airdrop
      → s.airdrop.total + wallet source s.airdrop ≤ u128_max
      → execute cfg s (airdrop_from_unlocked raw) source ≡ ok s'
      → Funded source s.airdrop s'.airdrop
  unfolding execute
  execute-Funded law s s' raw source v room h =
      let r = parse_mints cfg s raw in
      let e = parse_mints-airdrop s raw in
      subst (λ a. Funded source a s'.airdrop) e
        (After_ok (λ (t : State W). Funded source r.0.airdrop t.airdrop) (mint cfg r.0 r.1 source)
          (mint-Funded law r.0 r.1 source (subst IsValid (sym e) v)
            (subst (λ (a : Airdrop.State W). a.total + wallet source a ≤ u128_max) (sym e) room))
          h)
