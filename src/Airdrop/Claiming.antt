-- ===== src/Airdrop/Claiming.antt =====
-- The claims of pallets/airdrop/src/lib.rs: what a claim that succeeds has checked and done.
use timechain.Prelude.{
  ℕ, ◌+◌, ◌-◌, ◌≤◌, ◌≡◌, ◌≢◌, refl, sym, ap, ◌∙◌, ◌∷◌, true, Option, none, some, List, arith, leb,
  ◌==◌, ◌||◌, if◌then◌else◌,
}
use timechain.Storage.{get, remove, get-remove, get-remove_self}
use timechain.Outcome.{Outcome, ok, err, panic, ensure, ok_or, bind_ok, ensure_ok}
use timechain.Currency.{Laws}
use timechain.Airdrop.{
  Config, State, Schedule, RawOrigin, root, signed, unsigned, claimed, to_message, process_airdrop,
  verify_proof, claim_raw, ensure_none, may_vest, vest,
}

module _ {W : Type 0} (cfg : Config W) where
  -- A vesting schedule locks a part of the free balance, and does not change it.
  abbrev pub VestingLaw : Type 0
  VestingLaw =
      (w w' : W) (target : ℕ) (vs : Schedule)
      → cfg.add_vesting_schedule w target vs ≡ ok w'
      → (a : ℕ) → cfg.currency.free_balance w' a ≡ cfg.currency.free_balance w a

  -- What a claim that succeeds has checked and done.
  pub record Claimed (s s' : State W) (origin : RawOrigin) (source : ℕ) (proof : List ℕ)
      (target amount : ℕ) : Type 0 where
    pub inherent : origin ≡ unsigned
    pub proved :
        (cfg.verify_schnorr proof (to_message cfg target) source
          || cfg.verify_edwards proof (to_message cfg target) source)
        ≡ true
    pub claim : get s.claims source ≡ some amount
    pub covered : amount ≤ s.total
    pub total : s'.total ≡ s.total - amount
    -- The free balances are those after one deposit of exactly the claim, for its target.
    pub deposited :
        (a : ℕ)
        → cfg.currency.free_balance s'.balances a
          ≡ cfg.currency.free_balance (cfg.currency.deposit_creating s.balances target amount) a
    pub paid :
        (a : ℕ)
        → (cfg.currency.free_balance s.balances a ≤ cfg.currency.free_balance s'.balances a)
          × (cfg.currency.free_balance s'.balances a
              ≤ cfg.currency.free_balance s.balances a + (if a == target then amount else 0))
    pub claims : (j : ℕ) → get s'.claims j ≡ (if j == source then none else get s.claims j)
    pub vesting : (j : ℕ) → get s'.vesting j ≡ (if j == source then none else get s.vesting j)

  ensure_none_lem : (o : RawOrigin) (u : Unit {0}) → ensure_none o ≡ ok u → o ≡ unsigned
  ensure_none_lem root u h = absurd (ground (arith, h))
  ensure_none_lem (signed who) u h = absurd (ground (arith, h))
  ensure_none_lem unsigned u h = refl

  vest-free :
      VestingLaw
      → (w w' : W) (target : ℕ) (schedule : Option Schedule) → vest cfg w target schedule ≡ ok w'
      → (a : ℕ) → cfg.currency.free_balance w' a ≡ cfg.currency.free_balance w a
  vest-free law w w' target none h a =
      let e : w ≡ w' = ground (arith, h) in ap (λ x. cfg.currency.free_balance x a) (sym e)
  vest-free law w w' target (some vs) h a = added (cfg.add_vesting_schedule w target vs) refl h
    where
      added :
          (m : Outcome W)
          → cfg.add_vesting_schedule w target vs ≡ m
          → elim m [ ok x ↦ ok x | err e ↦ panic | panic ↦ panic ] ≡ ok w'
          → cfg.currency.free_balance w' a ≡ cfg.currency.free_balance w a
      added (ok x) e k = law w w' target vs (e ∙ k) a
      added (err x) e k = absurd (ground (arith, k))
      added panic e k = absurd (ground (arith, k))

  process_airdrop-err :
      (s s' : State W) (source target : ℕ)
      → get s.claims source ≡ none
      → process_airdrop cfg s source target ≢ ok s'
  unfolding process_airdrop
  process_airdrop-err s s' source target h e =
      let (amount, p, q) = bind_ok (ok_or (get s.claims source) _) _ e in ground (arith, p, h)

  process_airdrop_lem :
      (s s' : State W) (source target : ℕ)
      → process_airdrop cfg s source target ≡ ok s'
      → (amount : ℕ) × (w : W) × (get s.claims source ≡ some amount)
        × (amount ≤ s.total)
        × (vest cfg
              (cfg.currency.deposit_creating s.balances target amount)
              target
              (get s.vesting source)
            ≡ ok w)
        × (record s {
          balances = w;
          total = s.total - amount;
          claims = remove s.claims source;
          vesting = remove s.vesting source;
          events = claimed source target amount ∷ s.events;
        }
            ≡ s')
  unfolding process_airdrop
  process_airdrop_lem s s' source target h =
      let (amount, p, q) = bind_ok (ok_or (get s.claims source) _) _ h in
      let (u1, p1, q1) = bind_ok (ensure (leb amount s.total) _) _ q in
      let (u2, p2, q2) =
        bind_ok (ensure (may_vest cfg s.balances target (get s.vesting source)) _) _ q1 in
      let (w, p3, q3) =
        bind_ok
          (vest cfg (cfg.currency.deposit_creating s.balances target amount) target
            (get s.vesting source))
          _ q2 in
      (
        amount,
        w,
        ground (arith, p),
        ground (arith, ensure_ok (leb amount s.total) _ p1),
        p3,
        ground (arith, q3),
      )

  -- With a currency that meets its laws and a vesting schedule that keeps the free balances, a claim
  -- that succeeds was unsigned, one of the two signature schemes accepted its proof over the
  -- message of the target, the source had a claim that the total covers, the free balances
  -- are those after one deposit of exactly its amount for the target, so the target has at most this
  -- amount more and no less than before, and no other free balance changed, the total is less by this
  -- amount, the claim and the schedule of the source are gone and no others, and no later claim from that state for the
  -- same source succeeds, whatever its origin, proof and target.
  pub claim_raw-Claimed :
      Laws cfg.currency
      → VestingLaw
      → (s s' : State W) (origin : RawOrigin) (source : ℕ) (proof : List ℕ) (target : ℕ)
      → claim_raw cfg s origin source proof target ≡ ok s'
      → ((amount : ℕ) × Claimed s s' origin source proof target amount)
        × ((o : RawOrigin) (p : List ℕ) (t : ℕ) (s'' : State W)
            → claim_raw cfg s' o source p t ≢ ok s'')
  unfolding claim_raw verify_proof
  claim_raw-Claimed laws law s s' origin source proof target h =
      let (u, p, q) = bind_ok (ensure_none origin) _ h in
      let (u1, p1, q1) = bind_ok (verify_proof cfg source proof target) _ q in
      let (amount, w, there, covered, vested, e) = process_airdrop_lem s s' source target q1 in
      let one_deposit : (a : ℕ)
          → cfg.currency.free_balance s'.balances a
            ≡ cfg.currency.free_balance (cfg.currency.deposit_creating s.balances target amount) a =
        λ a.
          ap (λ (x : State W). cfg.currency.free_balance x.balances a) (sym e)
          ∙ vest-free law _ w target (get s.vesting source) vested a in
      let gone : get s'.claims source ≡ none =
        ap (λ (x : State W). get x.claims source) (sym e) ∙ get-remove_self s.claims source in
      (
        (
          amount,
          record {
            inherent = ensure_none_lem origin u p;
            proved = ensure_ok _ _ p1;
            claim = there;
            covered = covered;
            total = ap (λ (x : State W). x.total) (sym e);
            deposited = one_deposit;
            paid = λ a. (
              omega (arith, one_deposit a, laws.deposit_creating_keeps s.balances target amount a),
              omega (arith, one_deposit a, laws.deposit_creating_le s.balances target amount a),
            );
            claims =
                λ j. ap (λ (x : State W). get x.claims j) (sym e) ∙ get-remove s.claims source j;
            vesting =
                λ j. ap (λ (x : State W). get x.vesting j) (sym e) ∙ get-remove s.vesting source j;
          },
        ),
        λ o p2 t s'' k.
            let (u2, r2, k2) = bind_ok (ensure_none o) _ k in
            let (u3, r3, k3) = bind_ok (verify_proof cfg source p2 t) _ k2 in
            process_airdrop-err s' s'' source t gone k3,
      )
