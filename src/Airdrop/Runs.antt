-- ===== src/Airdrop/Runs.antt =====
-- The runs of the calls of pallets/airdrop/src/lib.rs, from a genesis.
use timechain.Prelude.{
  ℕ, ◌+◌, ◌≤◌, ◌≡◌, refl, ◌≢◌, sym, ◌∙◌, none, some, List, [], ◌∷◌, arith, ◌==◌, Bool-cases, inl,
  inr, ◌⊎◌, subst, wrapping_add, u128_max, u128_mod,
}
use timechain.Storage.{Map, get, insert, Unique, insert-Unique, get-insert_ne}
use timechain.Outcome.{Outcome, Error, ok, err, panic}
use timechain.Airdrop.{Config, State, Schedule, RawOrigin, insert_all, sum_of, build}
use timechain.Airdrop.Totals.{
  sum, sum-insert_new, IsValid, Call, claim_call, mint_call, add_call, transfer_call, minted_by,
  dispatch, dispatch-IsValid,
}

module _ {W : Type 0} (cfg : Config W) where
  -- A call that fails leaves the state as it was; a panic ends the run.
  unfoldable pub run : State W → List (RawOrigin × Call) → Outcome (State W)
  run s [] = ok s
  run s ((o, call) ∷ cs) =
      let skipped = run s cs in
      elim (dispatch cfg s o call) [ ok s' ↦ run s' cs | err e ↦ skipped | panic ↦ panic ]

  minted-cons :
      (o : RawOrigin) (call : Call) (cs : List (RawOrigin × Call))
      → minted_by ((o, call) ∷ cs) ≡ minted_by ((o, call) ∷ []) + minted_by cs
  minted-cons o (claim_call source proof target) cs = omega arith
  minted-cons o (mint_call owner amount vesting) cs = omega arith
  minted-cons o (add_call owner amount vesting) cs = omega arith
  minted-cons o (transfer_call from to) cs = omega arith

  dispatch-cases :
      (m : Outcome (State W))
      → ((t : State W) × (m ≡ ok t)) ⊎ (((e : Error) × (m ≡ err e)) ⊎ (m ≡ panic))
  dispatch-cases (ok t) = inl (t, refl)
  dispatch-cases (err e) = inr (inl (e, refl))
  dispatch-cases panic = inr (inr refl)

  run_ok :
      (s t : State W) (o : RawOrigin) (call : Call) (cs : List (RawOrigin × Call))
      → dispatch cfg s o call ≡ ok t
      → run s ((o, call) ∷ cs) ≡ run t cs
  unfolding run
  run_ok s t o call cs h = ground (arith, h)

  run_err :
      (s : State W) (o : RawOrigin) (call : Call) (cs : List (RawOrigin × Call)) (e : Error)
      → dispatch cfg s o call ≡ err e
      → run s ((o, call) ∷ cs) ≡ run s cs
  unfolding run
  run_err s o call cs e h = ground (arith, h)

  run_panic :
      (s : State W) (o : RawOrigin) (call : Call) (cs : List (RawOrigin × Call))
      → dispatch cfg s o call ≡ panic
      → run s ((o, call) ∷ cs) ≡ panic
  unfolding run
  run_panic s o call cs h = ground (arith, h)

  run-IsValid :
      (s s' : State W) (cs : List (RawOrigin × Call))
      → IsValid s
      → s.total + minted_by cs ≤ u128_max
      → run s cs ≡ ok s'
      → IsValid s'
  run-IsValid s s' [] v room h = unfold run in subst IsValid (let e : s ≡ s' = ground arith in e) v
  run-IsValid s s' ((o, call) ∷ cs) v room h =
      let same = run-IsValid s s' cs in
      elim (dispatch-cases (dispatch cfg s o call)) [
        | inl (t, e) ↦
            let r =
              dispatch-IsValid cfg s t o call v (omega (arith, room, minted-cons o call cs)) e in
            run-IsValid t s' cs r.0 (omega (arith, room, minted-cons o call cs, r.1))
              (sym (run_ok s t o call cs e) ∙ h)
        | inr (inl (x, e)) ↦
            same v (omega (arith, room, minted-cons o call cs)) (sym (run_err s o call cs x e) ∙ h)
        | inr (inr e) ↦ absurd (ground (arith, sym (run_panic s o call cs e) ∙ h))
      ]

-- The genesis, if no account stands in it twice.
insert_all-sum :
    (m es : Map ℕ)
    → Unique m
    → Unique es
    → ((k : ℕ) (v : ℕ) → get es k ≡ some v → get m k ≡ none)
    → Unique (insert_all m es) × (sum (insert_all m es) ≡ sum m + sum es)
unfolding insert_all get
insert_all-sum m [] u d apart = (u, omega arith)
insert_all-sum m ((k, v) ∷ es) u d apart =
    let here : get m k ≡ none = apart k v (ground arith) in
    let r = insert_all-sum (insert m k v) es (insert-Unique m k v u) d.1 (λ j w h.
      elim (Bool-cases (j == k)) [
        | inl same ↦
            let e : j ≡ k = ground (arith, same) in
            absurd (ground (arith, subst (λ i. get es i ≡ some w) e h, d.0))
        | inr other ↦
            let n : j ≢ k = ground (arith, other) in
            get-insert_ne m k j v n ∙ apart j w (ground (arith, h, other))
      ]) in
    (r.0, omega (arith, r.1, sum-insert_new m k v here))

-- While the claims fit, the fold is their sum.
sum_of-sum : (acc : ℕ) (es : Map ℕ) → acc + sum es ≤ u128_max → sum_of acc es ≡ acc + sum es
unfolding sum_of
sum_of-sum acc [] h = omega arith
sum_of-sum acc ((k, v) ∷ es) h =
    omega (arith, h, sum_of-sum (wrapping_add u128_mod acc v) es (omega (arith, h)))

build-IsValid :
    {W : Type 0} (cfg : Config W) (w : W) (claims : Map ℕ) (vesting : Map Schedule)
    → Unique claims
    → sum claims ≤ u128_max
    → IsValid (build cfg w claims vesting) × ((build cfg w claims vesting).total ≡ sum claims)
unfolding build get
build-IsValid cfg w claims vesting d fits =
    let r = insert_all-sum [] claims tt d (λ k v h. refl) in
    let t : sum_of 0 claims ≡ sum claims =
      omega (arith, sum_of-sum 0 claims (omega (arith, fits))) in
    (record { unique = r.0; total = omega (arith, t, r.1) }, t)

-- From a genesis that names no account twice, and while the claims of the genesis and all that
-- `mint` and `add_airdrop` may add fit in a u128, after any sequence of calls, from any origins,
-- failing ones included, the total is the sum of the claims, and each account has one claim.
pub run-Total :
    {W : Type 0} (cfg : Config W) (w : W) (claims : Map ℕ) (vesting : Map Schedule)
    (cs : List (RawOrigin × Call)) (s : State W)
    → Unique claims
    → sum claims + minted_by cs ≤ u128_max
    → run cfg (build cfg w claims vesting) cs ≡ ok s
    → (s.total ≡ sum s.claims) × Unique s.claims
run-Total cfg w claims vesting cs s d fits h =
    let r = build-IsValid cfg w claims vesting d (omega (arith, fits)) in
    let v = run-IsValid cfg (build cfg w claims vesting) s cs r.0 (omega (arith, fits, r.1)) h in
    (v.total, v.unique)
