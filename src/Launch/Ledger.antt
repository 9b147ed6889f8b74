-- ===== src/Launch/Ledger.antt =====
-- pallets/launch/src/ledger.rs and the calls of pallets/launch/src/lib.rs: the ledger of all stages is
-- checked against the chain, and those that are new are run.
use timechain.Prelude.{
  ℕ, zero, suc, ◌+◌, Bool, true, false, not, List, [], ◌∷◌, ◌++◌, ltb, leb, ◌==◌, if◌then◌else◌,
}
use timechain.Outcome.{
  Outcome, ok, err, panic, ◌>>=◌, ◌>>◌, ensure, Origin, ensure_admin, stage_missing,
  stage_version_missmatch, total_issuance_exceeded, stage_retired, stage_issuance_missmatch,
  funds_unavailable,
}
use timechain.Launch.{
  Text, Stage, Config, State, ledger_invalid, stage_exceeded_issuance, stage_executed,
  transfer_from_virtual, deposit_event, with_balances, account_id,
}
use timechain.Launch.Allocations.{Allocation, index, sub_id, AllocationTracker, new, add, check}
use timechain.Launch.Airdrops.{is_executable, sum, execute, hash}

-- The version, the allocation, the amount and the data.
abbrev pub LaunchStage : Type 0
LaunchStage = ℕ × Allocation × ℕ × Stage

pub data Application : Type 0 where
  bridging over_the_counter : Application

abbrev pub application_id : Application → Text
application_id bridging =
    b'b' ∷ b'r' ∷ b'i' ∷ b'd' ∷ b'g' ∷ b'e' ∷ b'd' ∷ 45 ∷ b'e' ∷ b'r' ∷ b'c' ∷ b'2' ∷ b'0' ∷ []
application_id over_the_counter =
    b'o' ∷ b'v' ∷ b'e' ∷ b'r' ∷ 45 ∷ b't' ∷ b'h' ∷ b'e' ∷ 45 ∷ b'c' ∷ b'o' ∷ b'u' ∷ b'n' ∷ b't'
    ∷ b'e' ∷ b'r' ∷ []

abbrev pub lock_id : Application → Text
lock_id bridging = b'b' ∷ b'r' ∷ b'i' ∷ b'd' ∷ b'g' ∷ b'e' ∷ b'd' ∷ b'0' ∷ []
lock_id over_the_counter = b'o' ∷ b't' ∷ b'c' ∷ b'l' ∷ b'o' ∷ b'c' ∷ b'k' ∷ b'0' ∷ []

-- The compiled ledger.
pub record LaunchLedger : Type 0 where
  pub tracker : AllocationTracker
  pub stages : List LaunchStage

module _ {W : Type 0} (cfg : Config W) where
  -- `check` reads the balances of the wallets.
  abbrev pub check_on : State W → Bool → AllocationTracker → Bool
  check_on s exact t =
      check (λ a. cfg.airdrop.currency.free_balance s.airdrop.balances (account_id cfg a)) exact t

  -- One turn of the loop of `compile`, with the version that the chain had at its start; the events of parsing stay when it fails.
  unfoldable pub compile_entry :
      ℕ → State W → LaunchLedger → ℕ → LaunchStage → State W × Outcome LaunchLedger
  compile_entry on_chain s l i (version, source, amount, stage) =
      if not (version == i)
      then (s, err stage_version_missmatch)
      else if index source == 12
      then (s, err stage_issuance_missmatch)
      else if ltb version on_chain
      then (s, add l.tracker source amount >>= λ t. ok (record l { tracker = t }))
      else if version == on_chain
      then (
        s,
        add l.tracker source amount >>= λ t.
            ensure (check_on s true t) total_issuance_exceeded >> ok (record l { tracker = t }),
      )
      else if not (is_executable cfg stage)
      then (s, err stage_retired)
      else (let r = sum cfg s stage in
          (
            r.0,
            ensure (r.1 == amount) stage_issuance_missmatch
                >> ok (record l { stages = l.stages ++ (version, source, amount, stage) ∷ [] }),
          ))

  -- The `?` of the loop.
  abbrev pub next :
      State W
      → (LaunchLedger → State W × Outcome LaunchLedger)
      → Outcome LaunchLedger
      → State W × Outcome LaunchLedger
  next s f (ok l) = f l
  next s f (err e) = (s, err e)
  next s f panic = (s, panic)

  -- The loop over `count` indices from `i`, which the ledger holds from there.
  unfoldable pub compile_from :
      ℕ → State W → LaunchLedger → ℕ → ℕ → List LaunchStage → State W × Outcome LaunchLedger
  compile_from on_chain s l i zero ledger = (s, ok l)
  compile_from on_chain s l i (suc count) [] = (s, err stage_missing)
  compile_from on_chain s l i (suc count) (entry ∷ ledger) =
      let r = compile_entry on_chain s l i entry in
      next r.0 (λ l'. compile_from on_chain r.0 l' (i + 1) count ledger) r.1

  -- With the constant LAUNCH_VERSION.
  unfoldable pub compile : State W → ℕ → List LaunchStage → State W × Outcome LaunchLedger
  compile s launch_version ledger =
      compile_from s.stage_version s (record { tracker = new; stages = [] }) 0 (launch_version + 1)
        ledger

  unfoldable pub run_stages : State W → AllocationTracker → List LaunchStage → Outcome (State W)
  run_stages s t [] = ok s
  run_stages s t ((version, source, amount, stage) ∷ stages) =
      execute cfg s stage source >>= λ done. add t source amount >>= λ t'.
      let stored : State W = record done { stage_version = version } in
      elim (check_on stored false t') [
        | true ↦
            run_stages (deposit_event stored (stage_executed version (hash cfg stage))) t' stages
        | false ↦ ok (deposit_event stored (stage_exceeded_issuance version (hash cfg stage)))
      ]

  -- `LaunchLedger::run`.
  unfoldable pub run : State W → LaunchLedger → Outcome (State W)
  run s l = run_stages s l.tracker l.stages

  unfoldable pub on_runtime_upgrade : State W → ℕ → List LaunchStage → Outcome (State W)
  on_runtime_upgrade s launch_version ledger =
      let r = compile s launch_version ledger in
      elim r.1 [
        | ok plan ↦ run r.0 plan
        | err e ↦ ok (deposit_event r.0 (ledger_invalid e))
        | panic ↦ panic
      ]

  unfoldable pub lock_operational : State W → Origin → Application → ℕ → Outcome (State W)
  lock_operational s origin target amount =
      let account = cfg.into_sub_account (application_id target) in
      ensure_admin origin
      >> (ensure (leb amount (cfg.total_balance s.airdrop.balances account)) funds_unavailable
          >> ok (with_balances s (cfg.set_lock s.airdrop.balances (lock_id target) account amount)))

  unfoldable pub transfer_virtual : State W → Allocation → ℕ → ℕ → Outcome (State W)
  transfer_virtual s source target amount =
      cfg.transfer s.airdrop.balances (account_id cfg source) target amount >>= λ w.
      ok (deposit_event (with_balances s w) (transfer_from_virtual (sub_id source) target amount))
