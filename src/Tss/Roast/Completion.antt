-- ===== src/Tss/Roast/Completion.antt =====
-- When a session of tss/src/roast.rs is complete: once, with shares of as many signers as wanted.
use timechain.Prelude.{
  ℕ, ◌+◌, ◌≤◌, ◌≡◌, refl, ◌∙◌, true, false, Option, none, some, List, [], ◌∷◌, arith, if◌then◌else◌,
  All, Option-cases, Bool-cases, inl, inr, subst, ◌⊎◌,
}
use timechain.Storage.{contains_key}
use timechain.BTree.{Keys}
use timechain.Outcome.{Outcome, ok, err, panic, ◌>>=◌, After, After-bind, After_ok}
use timechain.Tss.Frost.{Frost}
use timechain.Tss.Coordinator
use timechain.Tss.Coordinator.{
  RoastCoordinator, RoastSession, on_commit, on_response, start_session, aggregate_signature,
}
use timechain.Tss.Coordinator.Sessions
use timechain.Tss.Coordinator.Keeping.{
  on_commit-threshold, on_response-threshold, new-IsValid, on_commit-IsValid, on_response-IsValid,
}
use timechain.Tss.Roast.Turns.{
  weight, room, Genuine, IsValid, Turn, next_action-Turn, with_coordinator,
}
use timechain.Tss.Roast.{RoastMessage, RoastAction, Roast, new, set_data, on_message, next_action}

abbrev pub completions : List (Option RoastAction) → ℕ
completions [] = 0
completions (a ∷ rest) = weight a + completions rest

-- What a member is told, hears, and is asked to do.
pub data Event : Type 0 where
  tell : List ℕ → Event
  receive : ℕ → RoastMessage → Event
  act : Event

module _ (frost : Frost) where
  -- The actions, in their order; `none` where there was nothing to do.
  unfoldable pub run : Roast → List Event → Outcome (Roast × List (Option RoastAction))
  run r [] = ok (r, [])
  run r (tell bytes ∷ es) = run (set_data r bytes) es
  run r (receive peer m ∷ es) = run (on_message frost r peer m) es
  run r (act ∷ es) = next_action frost r >>= λ x. run x.0 es >>= λ y. ok (y.0, x.1 ∷ y.1)

module _ (frost : Frost) (threshold pkp : ℕ) where
  pub on_message-Kept :
      (r : Roast) (peer : ℕ) (m : RoastMessage)
      → IsValid frost threshold pkp r
      → IsValid frost threshold pkp (on_message frost r peer m)
        × (room (on_message frost r peer m) ≡ room r)
  on_message-Kept r peer (RoastMessage.commit commitment) v = elim (Option-cases r.coordinator) [
    | inl gone ↦
        let same : on_message frost r peer (RoastMessage.commit commitment) ≡ r =
          unfold on_message in ground (arith, gone) in
        rw same (v, refl)
    | inr (c, there) ↦
        let d = on_commit c peer commitment in
        let w = v.coordinator c there in
        let same : on_message frost r peer (RoastMessage.commit commitment)
            ≡ record r { coordinator = some d } =
          unfold on_message in ground (arith, there) in
        rw same (
          with_coordinator frost threshold pkp r d v (on_commit-IsValid c peer commitment w.0)
              (on_commit-threshold c peer commitment ∙ w.1),
          ground (arith, there),
        )
  ]
  on_message-Kept r peer (RoastMessage.sign request) v =
      unfold on_message in
      (record { public_key_package = v.public_key_package; coordinator = v.coordinator }, refl)
  on_message-Kept r peer (RoastMessage.signature response) v = elim (Option-cases r.coordinator) [
    | inl gone ↦
        let same : on_message frost r peer (RoastMessage.signature response) ≡ r =
          unfold on_message in ground (arith, gone) in
        rw same (v, refl)
    | inr (c, there) ↦
        let d = on_response c peer response in
        let w = v.coordinator c there in
        let same : on_message frost r peer (RoastMessage.signature response)
            ≡ record r { coordinator = some d } =
          unfold on_message in ground (arith, there) in
        rw same (
          with_coordinator frost threshold pkp r d v (on_response-IsValid c peer response w.0)
              (on_response-threshold c peer response ∙ w.1),
          ground (arith, there),
        )
  ]

  -- What a run from `r` makes.
  abbrev Bounded : Roast → Roast × List (Option RoastAction) → Type 0
  Bounded r (r', actions) =
      (completions actions ≤ room r) × All (Genuine frost threshold pkp) actions

  Bounded-act :
      (r : Roast) (x : Roast × Option RoastAction) (m : Outcome (Roast × List (Option RoastAction)))
      → Turn frost threshold pkp r x
      → After (Bounded x.0) m
      → After (Bounded r) (m >>= λ y. ok (y.0, x.1 ∷ y.1))
  Bounded-act r x (ok y) t h = (omega (arith, t.1, h.0), (t.2, h.1))
  Bounded-act r x (err e) t h = tt
  Bounded-act r x panic t h = tt

  run-Bounded :
      (r : Roast) (es : List Event)
      → IsValid frost threshold pkp r
      → After (Bounded r) (run frost r es)
  unfolding run
  run-Bounded r [] v = (omega arith, tt)
  run-Bounded r (tell bytes ∷ es) v =
      run-Bounded (set_data r bytes) es
        (record { public_key_package = v.public_key_package; coordinator = v.coordinator })
  run-Bounded r (receive peer m ∷ es) v =
      let k = on_message-Kept r peer m v in
      let rest = run-Bounded (on_message frost r peer m) es k.0 in
      lower r (on_message frost r peer m) (run frost (on_message frost r peer m) es) k.1 rest
    where
      lower :
          (r r' : Roast) (m : Outcome (Roast × List (Option RoastAction)))
          → room r' ≡ room r
          → After (Bounded r') m
          → After (Bounded r) m
      lower r r' (ok x) same h = (omega (arith, same, h.0), h.1)
      lower r r' (err e) same h = tt
      lower r r' panic same h = tt
  run-Bounded r (act ∷ es) v =
      let ih = λ (x : Roast × Option RoastAction) (t : Turn frost threshold pkp r x).
        Bounded-act r x (run frost x.0 es) t (run-Bounded x.0 es t.0) in
      After-bind (Turn frost threshold pkp r) (Bounded r) (next_action frost r)
        (λ x. run frost x.0 es >>= λ y. ok (y.0, x.1 ∷ y.1))
        (next_action-Turn frost threshold pkp r v) ih

  pub new-IsValid_roast :
      (id key : ℕ) (coordinators : Keys) (stream : ℕ)
      → IsValid frost threshold pkp (new id threshold key pkp coordinators stream)
  new-IsValid_roast id key coordinators stream = record {
    public_key_package = refl;
    coordinator = λ c h. started c h (Bool-cases (contains_key coordinators id));
  }
    where
      started :
          (c : RoastCoordinator)
          → (if contains_key coordinators id then some (Coordinator.new threshold) else none)
            ≡ some c
          → (contains_key coordinators id ≡ true) ⊎ (contains_key coordinators id ≡ false)
          → Sessions.IsValid c × (c.threshold ≡ threshold)
      started c h (inl member) =
          let same : Coordinator.new threshold ≡ c = ground (arith, member, h) in
          subst (λ x. Sessions.IsValid x × (x.threshold ≡ threshold)) same
            (new-IsValid threshold, refl)
      started c h (inr other) = absurd (ground (arith, other, h))

-- Over every run of a new member of a signing session, whatever data it is given and whatever
-- messages it gets, it completes the session at most once, and a signature with which it does is
-- aggregated of a session of as many signers as the threshold, a share of each of them and no other
-- share, over some data, whose hash goes with it.
pub run-Completed :
    (frost : Frost) (threshold pkp id key : ℕ) (coordinators : Keys) (stream : ℕ) (es : List Event)
    (r : Roast) (actions : List (Option RoastAction))
    → run frost (new id threshold key pkp coordinators stream) es ≡ ok (r, actions)
    → (completions actions ≤ 1) × All (Genuine frost threshold pkp) actions
run-Completed frost threshold pkp id key coordinators stream es r actions h =
    let first : Roast = new id threshold key pkp coordinators stream in
    let b =
      After_ok (Bounded frost threshold pkp first) (run frost first es)
        (run-Bounded frost threshold pkp first es
          (new-IsValid_roast frost threshold pkp id key coordinators stream))
        h in
    let small : room first ≤ 1 = ground arith in (omega (arith, b.0, small), b.1)
