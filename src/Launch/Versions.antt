-- ===== src/Launch/Versions.antt =====
-- The versions of the stages that pallets/launch/src/ledger.rs compiles and runs: what its debug
-- assertion says.
use timechain.Prelude.{
  ℕ, ◌+◌, ◌≡◌, refl, sym, ap, ◌∙◌, Bool, true, false, List, [], ◌∷◌, arith, subst, ◌==◌,
  if◌then◌else◌,
}
use timechain.Outcome.{Outcome, ok, err, panic, ◌>>=◌}
use timechain.Launch.{
  Config, State, ledger_invalid, stage_executed, stage_exceeded_issuance, deposit_event,
}
use timechain.Launch.Allocations.{AllocationTracker, add}
use timechain.Launch.Airdrops.{execute, hash}
use timechain.Launch.Ledger.{
  LaunchStage, LaunchLedger, check_on, compile, run_stages, run, on_runtime_upgrade,
}
use timechain.Launch.Plan.{Follows, compile-Follows, compile-stage_version}

if_true {ℓ} : {A : Type ℓ} (b : Bool) (x y : A) → b ≡ true → (if b then x else y) ≡ x
if_true true x y h = refl
if_true false x y h = absurd (cc)

bind_cong :
    {A B : Type 0} (m : Outcome A) (f g : A → Outcome B)
    → ((a : A) → f a ≡ g a)
    → ◌≡◌ {A = Outcome B} (m >>= f) (m >>= g)
bind_cong (ok a) f g h = h a
bind_cong (err e) f g h = refl
bind_cong panic f g h = refl

module _ {W : Type 0} (cfg : Config W) where
  -- `run` with its debug assertion.
  unfoldable pub run_asserting : State W → AllocationTracker → List LaunchStage → Outcome (State W)
  run_asserting s t [] = ok s
  run_asserting s t ((version, source, amount, stage) ∷ stages) =
      if version == s.stage_version + 1
      then (execute cfg s stage source >>= λ done. add t source amount >>= λ t'.
          let stored : State W = record done { stage_version = version } in
          elim (check_on cfg stored false t') [
            | true ↦
                run_asserting (deposit_event stored (stage_executed version (hash cfg stage))) t'
                  stages
            | false ↦ ok (deposit_event stored (stage_exceeded_issuance version (hash cfg stage)))
          ])
      else panic

  run_stages-run_asserting :
      (s : State W) (t : AllocationTracker) (stages : List LaunchStage)
      → Follows s.stage_version stages
      → run_stages cfg s t stages ≡ run_asserting s t stages
  unfolding run_stages run_asserting
  run_stages-run_asserting s t [] f = refl
  run_stages-run_asserting s t ((version, source, amount, stage) ∷ stages) f =
      let here : (version == s.stage_version + 1) ≡ true = ground (arith, f.0) in
      let after : (x : State W)
          → x.stage_version ≡ version
          → (t' : AllocationTracker) → run_stages cfg x t' stages ≡ run_asserting x t' stages =
        λ x e t'.
          run_stages-run_asserting x t' stages
            (subst (λ n. Follows n stages) (sym (e ∙ f.0)) f.1) in
      let same = bind_cong (execute cfg s stage source) _ _ (λ done.
        bind_cong (add t source amount) _ _ (λ t'.
          let stored : State W = record done { stage_version = version } in
          ap
            (λ (m : Outcome (State W)). elim (check_on cfg stored false t') [
              | true ↦ m
              | false ↦ ok (deposit_event stored (stage_exceeded_issuance version (hash cfg stage)))
            ])
            (after (deposit_event stored (stage_executed version (hash cfg stage))) refl t'))) in
      same ∙ sym (if_true _ _ _ here)

  -- `on_runtime_upgrade` with the debug assertion of `run`.
  unfoldable pub upgrade_asserting : State W → ℕ → List LaunchStage → Outcome (State W)
  upgrade_asserting s launch_version ledger =
      let r = compile cfg s launch_version ledger in
      elim r.1 [
        | ok plan ↦ run_asserting r.0 plan.tracker plan.stages
        | err e ↦ ok (deposit_event r.0 (ledger_invalid e))
        | panic ↦ panic
      ]

  -- On every chain and with every ledger, an upgrade is the same with the debug assertion that each
  -- stage that is run is the next one after the version on the chain: the assertion never
  -- fails.
  pub on_runtime_upgrade-upgrade_asserting :
      (s : State W) (launch_version : ℕ) (ledger : List LaunchStage)
      → on_runtime_upgrade cfg s launch_version ledger ≡ upgrade_asserting s launch_version ledger
  unfolding on_runtime_upgrade upgrade_asserting run
  on_runtime_upgrade-upgrade_asserting s launch_version ledger = after r.1 refl
    where
      r : State W × Outcome LaunchLedger
      r = compile cfg s launch_version ledger

      after :
          (m : Outcome LaunchLedger)
          → r.1 ≡ m
          → ◌≡◌ {A = Outcome (State W)}
              (elim m [
                | ok plan ↦ run cfg r.0 plan
                | err e ↦ ok (deposit_event r.0 (ledger_invalid e))
                | panic ↦ panic
              ])
              (elim m [
                | ok plan ↦ run_asserting r.0 plan.tracker plan.stages
                | err e ↦ ok (deposit_event r.0 (ledger_invalid e))
                | panic ↦ panic
              ])
      after (ok plan) k =
          let same = compile-stage_version cfg s launch_version ledger in
          run_stages-run_asserting r.0 plan.tracker plan.stages (
            subst (λ n. Follows n plan.stages) (sym same)
              (compile-Follows cfg s launch_version ledger plan k).0)
      after (err e) k = refl
      after panic k = refl
