-- ===== src/Launch/Plan.antt =====
-- The stages that pallets/launch/src/ledger.rs compiles follow the version of the chain one by one.
use timechain.Prelude.{
  ℕ, zero, suc, ◌+◌, ◌-◌, ◌≤◌, ◌<◌, ◌≡◌, refl, sym, ap, ◌∙◌, true, List, [], ◌∷◌, ◌++◌, arith,
  subst, ltb, ◌==◌, Bool-cases, inl, inr, ◌⊎◌,
}
use timechain.Outcome.{
  Outcome, ok, err, panic, ◌>>=◌, ◌>>◌, ensure, bind_ok, stage_issuance_missmatch,
  total_issuance_exceeded,
}
use timechain.Launch.{Config, State}
use timechain.Launch.Allocations.{index, new, add}
use timechain.Launch.Airdrops.{is_executable, sum}
use timechain.Launch.Keeping.{sum-stage_version}
use timechain.Launch.Ledger.{
  LaunchStage, LaunchLedger, check_on, compile_entry, next, compile_from, compile,
}

-- The versions of the stages go up one by one from `v`.
abbrev pub Follows : ℕ → List LaunchStage → Type 0
Follows v [] = Unit
Follows v (e ∷ es) = (e.0 ≡ v + 1) × Follows (v + 1) es

pub count : List LaunchStage → ℕ
count [] = 0
count (e ∷ es) = count es + 1

Follows-append :
    (v : ℕ) (es : List LaunchStage) (e : LaunchStage)
    → Follows v es
    → e.0 ≡ v + count es + 1
    → Follows v (es ++ e ∷ [])
unfolding count
Follows-append v [] e f h = (omega (arith, h), tt)
Follows-append v (d ∷ es) e f h = (f.0, Follows-append (v + 1) es e f.1 (omega (arith, h)))

count-append : (es : List LaunchStage) (e : LaunchStage) → count (es ++ e ∷ []) ≡ count es + 1
unfolding count
count-append [] e = refl
count-append (d ∷ es) e = omega (arith, count-append es e)

module _ {W : Type 0} (cfg : Config W) where
  -- An entry that compiles is one of the past, or is put behind the plan.
  compile_entry_lem :
      (on_chain : ℕ) (s : State W) (l l' : LaunchLedger) (i : ℕ) (e : LaunchStage)
      → (compile_entry cfg on_chain s l i e).1 ≡ ok l'
      → ((l'.stages ≡ l.stages) × (i ≤ on_chain))
        ⊎ ((l'.stages ≡ l.stages ++ e ∷ []) × (e.0 ≡ i) × (on_chain < i))
  unfolding compile_entry
  compile_entry_lem on_chain s l l' i (version, source, amount, stage) h =
      elim (Bool-cases (version == i)) [
        | inr other ↦ absurd (ground (arith, h, other))
        | inl same ↦ elim (Bool-cases (index source == 12)) [
          | inl outside ↦ absurd (ground (arith, h, same, outside))
          | inr placed ↦ elim (Bool-cases (ltb version on_chain)) [
            | inl past ↦
                let k : (add l.tracker source amount >>= λ x. ok (record l { tracker = x }))
                    ≡ ok l' =
                  ground (arith, h, same, placed, past) in
                let (t, p, q) = bind_ok (add l.tracker source amount) _ k in
                inl (ground (arith, q), ground (arith, past, same))
            | inr ahead ↦ elim (Bool-cases (version == on_chain)) [
              | inl now ↦
                  let k : (add l.tracker source amount >>= λ x.
                  ensure (check_on cfg s true x) total_issuance_exceeded
                  >> ok (record l { tracker = x }))
                      ≡ ok l' =
                    ground (arith, h, same, placed, ahead, now) in
                  let (t, p, q) = bind_ok (add l.tracker source amount) _ k in
                  let (u, p2, q2) = bind_ok (ensure (check_on cfg s true t) _) _ q in
                  inl (ground (arith, q2), ground (arith, now, same))
              | inr later ↦ elim (Bool-cases (is_executable cfg stage)) [
                | inr empty ↦ absurd (ground (arith, h, same, placed, ahead, later, empty))
                | inl full ↦
                    let k : (ensure ((sum cfg s stage).1 == amount) stage_issuance_missmatch
                          >> ok (record l {
                            stages = l.stages ++ (version, source, amount, stage) ∷ [];
                          }))
                        ≡ ok l' =
                      ground (arith, h, same, placed, ahead, later, full) in
                    let (u, p, q) = bind_ok (ensure ((sum cfg s stage).1 == amount) _) _ k in
                    inr
                      (ground (arith, q), ground (arith, same), ground (arith, same, ahead, later))
              ]
            ]
          ]
        ]
      ]

  compile_entry-Follows :
      (on_chain : ℕ) (s : State W) (l l' : LaunchLedger) (i : ℕ) (e : LaunchStage)
      → Follows on_chain l.stages
      → count l.stages ≡ i - (on_chain + 1)
      → (compile_entry cfg on_chain s l i e).1 ≡ ok l'
      → Follows on_chain l'.stages × (count l'.stages ≡ i + 1 - (on_chain + 1))
  compile_entry-Follows on_chain s l l' i e f n h = elim (compile_entry_lem on_chain s l l' i e h) [
    | inl (same, past) ↦
        (subst (Follows on_chain) (sym same) f, omega (arith, ap count same, n, past))
    | inr (longer, version, ahead) ↦ (
      subst (Follows on_chain) (sym longer)
          (Follows-append on_chain l.stages e f (omega (arith, version, n, ahead))),
      omega (arith, ap count longer, count-append l.stages e, n, ahead),
    )
  ]

  compile_entry-stage_version :
      (on_chain : ℕ) (s : State W) (l : LaunchLedger) (i : ℕ) (e : LaunchStage)
      → (compile_entry cfg on_chain s l i e).0.stage_version ≡ s.stage_version
  unfolding compile_entry
  compile_entry-stage_version on_chain s l i (version, source, amount, stage) =
      ground (arith, sum-stage_version cfg s stage)

  compile_from-Follows :
      (on_chain : ℕ) (s : State W) (l l' : LaunchLedger) (i n : ℕ) (ledger : List LaunchStage)
      → Follows on_chain l.stages
      → count l.stages ≡ i - (on_chain + 1)
      → (compile_from cfg on_chain s l i n ledger).1 ≡ ok l'
      → Follows on_chain l'.stages × (count l'.stages ≡ i + n - (on_chain + 1))
  unfolding compile_from
  compile_from-Follows on_chain s l l' i zero ledger f c h =
      let same : l.stages ≡ l'.stages = ground (arith, h) in
      (subst (Follows on_chain) same f, omega (arith, c, ap count same))
  compile_from-Follows on_chain s l l' i (suc n) [] f c h = absurd (ground (arith, h))
  compile_from-Follows on_chain s l l' i (suc n) (e ∷ ledger) f c h =
      after (λ x g d q. compile_from-Follows on_chain r.0 x l' (i + 1) n ledger g d q) r.1 refl h
    where
      r : State W × Outcome LaunchLedger
      r = compile_entry cfg on_chain s l i e

      after :
          ((x : LaunchLedger)
            → Follows on_chain x.stages
            → count x.stages ≡ i + 1 - (on_chain + 1)
            → (compile_from cfg on_chain r.0 x (i + 1) n ledger).1 ≡ ok l'
            → Follows on_chain l'.stages × (count l'.stages ≡ i + 1 + n - (on_chain + 1)))
          → (m : Outcome LaunchLedger) → r.1 ≡ m
          → ◌≡◌ {A = Outcome LaunchLedger}
              (next cfg r.0 (λ x. compile_from cfg on_chain r.0 x (i + 1) n ledger) m).1
              (ok l')
          → Follows on_chain l'.stages × (count l'.stages ≡ i + suc n - (on_chain + 1))
      after rest (ok x) k q =
          let (g, d) = compile_entry-Follows on_chain s l x i e f c k in
          let (g', d') = rest x g d q in (g', omega (arith, d'))
      after rest (err x) k q = absurd (ground (arith, q))
      after rest panic k q = absurd (ground (arith, q))

  compile_from-stage_version :
      (on_chain : ℕ) (s : State W) (l : LaunchLedger) (i n : ℕ) (ledger : List LaunchStage)
      → (compile_from cfg on_chain s l i n ledger).0.stage_version ≡ s.stage_version
  unfolding compile_from
  compile_from-stage_version on_chain s l i zero ledger = refl
  compile_from-stage_version on_chain s l i (suc n) [] = refl
  compile_from-stage_version on_chain s l i (suc n) (e ∷ ledger) =
      after (λ x. compile_from-stage_version on_chain r.0 x (i + 1) n ledger) r.1
    where
      r : State W × Outcome LaunchLedger
      r = compile_entry cfg on_chain s l i e

      after :
          ((x : LaunchLedger)
            → (compile_from cfg on_chain r.0 x (i + 1) n ledger).0.stage_version
              ≡ r.0.stage_version)
          → (m : Outcome LaunchLedger)
          → (next cfg r.0 (λ x. compile_from cfg on_chain r.0 x (i + 1) n ledger) m).0.stage_version
            ≡ s.stage_version
      after rest (ok x) = rest x ∙ compile_entry-stage_version on_chain s l i e
      after rest (err x) = compile_entry-stage_version on_chain s l i e
      after rest panic = compile_entry-stage_version on_chain s l i e

  pub compile-Follows :
      (s : State W) (launch_version : ℕ) (ledger : List LaunchStage) (l : LaunchLedger)
      → (compile cfg s launch_version ledger).1 ≡ ok l
      → Follows s.stage_version l.stages × (count l.stages ≡ launch_version - s.stage_version)
  unfolding compile count
  compile-Follows s launch_version ledger l h =
      let (f, c) =
        compile_from-Follows s.stage_version s (record { tracker = new; stages = [] }) l 0
          (launch_version + 1) ledger tt (omega arith) h in
      (f, omega (arith, c))

  pub compile-stage_version :
      (s : State W) (launch_version : ℕ) (ledger : List LaunchStage)
      → (compile cfg s launch_version ledger).0.stage_version ≡ s.stage_version
  unfolding compile
  compile-stage_version s launch_version ledger =
      compile_from-stage_version s.stage_version s (record { tracker = new; stages = [] }) 0
        (launch_version + 1) ledger
