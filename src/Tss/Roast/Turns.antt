-- ===== src/Tss/Roast/Turns.antt =====
-- What one turn of Roast of tss/src/roast.rs does, and what the member keeps.
use timechain.Prelude.{
  ℕ, ◌+◌, ◌≤◌, ◌≡◌, refl, sym, ◌∙◌, Option, none, some, List, arith, if◌then◌else◌, Option-cases,
  inl, inr, subst, is_some,
}
use timechain.Storage.{keys}
use timechain.BTree.{Keys, pop_last}
use timechain.Outcome.{Outcome, ok, err, panic, ◌>>=◌, After, After-bind}
use timechain.Tss.Frost.{Frost, SigningPackage}
use timechain.Tss.Signer
use timechain.Tss.Signer.{RoastSigner, RoastSignerRequest, RoastSignerResponse}
use timechain.Tss.Coordinator.{RoastCoordinator, RoastSession, start_session, aggregate_signature}
use timechain.Tss.Coordinator.Sessions
use timechain.Tss.Coordinator.Keeping.{
  start_session-threshold, aggregate_signature-threshold, start_session-IsValid,
  aggregate_signature-IsValid,
}
use timechain.Tss.Coordinator.Runs.{Signed, aggregate_valid}
use timechain.Tss.Roast.{
  RoastMessage, RoastAction, Roast, aggregate, coordinate, speak, participate, next_action,
}

abbrev pub weight : Option RoastAction → ℕ
weight none = 0
weight (some (RoastAction.send p m)) = 0
weight (some (RoastAction.send_many ps m)) = 0
weight (some (RoastAction.complete h s)) = 1

abbrev pub room : Roast → ℕ
room r = if is_some r.coordinator then 1 else 0

module _ (frost : Frost) (threshold pkp : ℕ) where
  -- A signature was aggregated of the shares of `threshold` signers, one each.
  abbrev pub Genuine : Option RoastAction → Type 0
  Genuine none = Unit {0}
  Genuine (some (RoastAction.send p m)) = Unit {0}
  Genuine (some (RoastAction.send_many ps m)) = Unit {0}
  Genuine (some (RoastAction.complete h s)) =
      (bytes : List ℕ) × (session : RoastSession) × Signed threshold session
      × (frost.aggregate (record { commitments = session.commitments; message = bytes })
            session.signature_shares pkp
          ≡ some s)
      × (h ≡ frost.message_hash bytes)

  pub record IsValid (r : Roast) : Type 0 where
    pub public_key_package : r.public_key_package ≡ pkp
    pub coordinator :
        (c : RoastCoordinator)
        → r.coordinator ≡ some c
        → Sessions.IsValid c × (c.threshold ≡ threshold)

  -- What a turn leaves.
  abbrev pub Turn : Roast → Roast × Option RoastAction → Type 0
  Turn r (r', a) = IsValid r' × (weight a + room r' ≤ room r) × Genuine a

  speak-Turn :
      (r : Roast) (x : RoastSigner × Option (ℕ × RoastSignerResponse))
      → IsValid r
      → Turn r (speak frost r x)
  unfolding speak
  speak-Turn r (s, none) v = (
    record { public_key_package = v.public_key_package; coordinator = v.coordinator },
    omega arith,
    tt,
  )
  speak-Turn r (s, some (c, response)) v = (
    record { public_key_package = v.public_key_package; coordinator = v.coordinator },
    omega arith,
    tt,
  )

  commit-Turn :
      (r : Roast) (s : RoastSigner) (k : Keys) (p : ℕ) (m : RoastMessage)
      → IsValid r
      → Turn r (record r { signer = s; coordinators = k }, some (RoastAction.send p m))
  commit-Turn r s k p m v = (
    record { public_key_package = v.public_key_package; coordinator = v.coordinator },
    omega arith,
    tt,
  )

  participate-Turn : (r : Roast) → IsValid r → After (Turn r) (participate frost r)
  participate-Turn r v = elim (Option-cases (pop_last r.coordinators)) [
    | inr ((rest, last), more) ↦
        let made = Signer.commit frost r.signer last.0 in
        let same : participate frost r
            ≡ ok (
              record r { signer = made.0; coordinators = rest },
              some (RoastAction.send last.0 (RoastMessage.commit made.1)),
            ) =
          unfold participate in ground (arith, more) in
        subst (After (Turn r)) (sym same)
          (commit-Turn r made.0 rest last.0 (RoastMessage.commit made.1) v)
    | inl done ↦
        let same : participate frost r
            ≡ (Signer.message frost r.signer >>= λ x. ok (speak frost r x)) =
          unfold participate in ground (arith, done) in
        subst (After (Turn r)) (sym same) (
          After-bind (λ _. Unit {0}) (Turn r) (Signer.message frost r.signer)
            (λ x. ok (speak frost r x)) (trivial (Signer.message frost r.signer))
            (λ x _. speak-Turn r x v))
  ]
    where
      trivial :
          (m : Outcome (RoastSigner × Option (ℕ × RoastSignerResponse))) → After (λ _. Unit {0}) m
      trivial (ok a) = tt
      trivial (err e) = tt
      trivial panic = tt

  -- What the coordinator is after an attempt, with what it makes.
  abbrev pub Tried : RoastCoordinator × Option RoastAction → Type 0
  Tried (c, a) = Sessions.IsValid c × (c.threshold ≡ threshold) × Genuine a

  pub aggregate-Tried :
      (r : Roast) (c : RoastCoordinator)
      → IsValid r
      → r.coordinator ≡ some c
      → Tried (aggregate frost r c)
  aggregate-Tried r c v there =
      let w = v.coordinator c there in
      let found = aggregate_signature c in
      let left : Sessions.IsValid found.0 × (found.0.threshold ≡ threshold) =
        (aggregate_signature-IsValid c w.0, aggregate_signature-threshold c ∙ w.1) in
      elim (Option-cases r.signer.payload) [
        | inl nothing ↦
            let same : aggregate frost r c ≡ (c, none) =
              unfold aggregate in ground (arith, nothing) in
            subst Tried (sym same) (w.0, w.1, tt)
        | inr (bytes, given) ↦ elim (Option-cases found.1) [
          | inl nothing ↦
              let same : aggregate frost r c ≡ (found.0, none) =
                unfold aggregate in ground (arith, given, nothing) in
              subst Tried (sym same) (left.0, left.1, tt)
          | inr (session, complete) ↦
              let pkg : SigningPackage = record {
                commitments = session.commitments;
                message = bytes;
              } in
              let signed =
                subst (λ t. Signed t session) w.1 (aggregate_valid c session w.0 complete) in
              elim (Option-cases
                (frost.aggregate pkg session.signature_shares r.public_key_package)) [
                  | inl refused ↦
                      let same : aggregate frost r c ≡ (found.0, none) =
                        unfold aggregate in ground (arith, given, complete, refused) in
                      subst Tried (sym same) (left.0, left.1, tt)
                  | inr (made, valid) ↦
                      let same : aggregate frost r c
                          ≡ (found.0, some (RoastAction.complete (frost.message_hash bytes) made)) =
                        unfold aggregate in ground (arith, given, complete, valid) in
                      let proper : frost.aggregate pkg session.signature_shares pkp ≡ some made =
                        subst (λ k. frost.aggregate pkg session.signature_shares k ≡ some made)
                          v.public_key_package valid in
                      subst Tried (sym same)
                        (left.0, left.1, (bytes, session, signed, proper, refl))
                ]
        ]
      ]

  pub with_coordinator :
      (r : Roast) (c : RoastCoordinator)
      → IsValid r
      → Sessions.IsValid c
      → c.threshold ≡ threshold
      → IsValid (record r { coordinator = some c })
  with_coordinator r c v w e = record {
    public_key_package = v.public_key_package;
    coordinator = λ d h.
        let same : c ≡ d = ground arith in
        subst (λ x. Sessions.IsValid x × (x.threshold ≡ threshold)) same (w, e);
  }

  without_coordinator : (r : Roast) → IsValid r → IsValid (record r { coordinator = none })
  without_coordinator r v = record {
    public_key_package = v.public_key_package;
    coordinator = λ d h. absurd (cc);
  }

  weight-le : (a : Option RoastAction) → weight a ≤ 1
  weight-le none = omega arith
  weight-le (some (RoastAction.send p m)) = omega arith
  weight-le (some (RoastAction.send_many ps m)) = omega arith
  weight-le (some (RoastAction.complete h s)) = omega arith

  coordinate-Turn :
      (r : Roast) (c : RoastCoordinator)
      → IsValid r
      → r.coordinator ≡ some c
      → Turn r (coordinate frost r c)
  coordinate-Turn r c v there =
      let tried = aggregate frost r c in
      let w = aggregate-Tried r c v there in
      let one : room r ≡ 1 = rw there refl in
      elim (Option-cases tried.1) [
        | inr (action, done) ↦
            let same : coordinate frost r c ≡ (record r { coordinator = none }, some action) =
              unfold coordinate in ground (arith, done) in
            subst (Turn r) (sym same) (
              without_coordinator r v,
              omega (arith, one, weight-le (some action)),
              subst Genuine done w.2,
            )
        | inl not_yet ↦
            let begun = start_session tried.0 in
            let valid =
              with_coordinator r begun.0 v (start_session-IsValid tried.0 w.0)
                (start_session-threshold tried.0 ∙ w.1) in
            elim (Option-cases begun.1) [
              | inl nothing ↦
                  let same : coordinate frost r c
                      ≡ (record r { coordinator = some begun.0 }, none) =
                    unfold coordinate in ground (arith, not_yet, nothing) in
                  subst (Turn r) (sym same) (valid, omega (arith, one), tt)
              | inr (request, started) ↦
                  let same : coordinate frost r c ≡ (
                    record r { coordinator = some begun.0 },
                    some (
                        RoastAction.send_many (keys request.commitments)
                          (RoastMessage.sign request)),
                  ) =
                    unfold coordinate in ground (arith, not_yet, started) in
                  subst (Turn r) (sym same) (valid, omega (arith, one), tt)
            ]
      ]

  After-Turn :
      (r r' : Roast) (m : Outcome (Roast × Option RoastAction))
      → room r' ≤ room r
      → After (Turn r') m
      → After (Turn r) m
  After-Turn r r' (ok x) le h = (h.0, omega (arith, h.1), h.2)
  After-Turn r r' (err e) le h = tt
  After-Turn r r' panic le h = tt

  pub next_action-Turn : (r : Roast) → IsValid r → After (Turn r) (next_action frost r)
  next_action-Turn r v = elim (Option-cases r.coordinator) [
    | inl gone ↦
        let same : next_action frost r ≡ participate frost r =
          unfold next_action in ground (arith, gone) in
        subst (After (Turn r)) (sym same) (participate-Turn r v)
    | inr (c, there) ↦
        let turn = coordinate frost r c in
        let w = coordinate-Turn r c v there in
        elim (Option-cases turn.1) [
          | inl nothing ↦
              let same : next_action frost r ≡ participate frost turn.0 =
                unfold next_action in ground (arith, there, nothing) in
              subst (After (Turn r)) (sym same) (
                After-Turn r turn.0 (participate frost turn.0) (omega (arith, w.1))
                  (participate-Turn turn.0 w.0))
          | inr (action, done) ↦
              let same : next_action frost r ≡ ok (turn.0, some action) =
                unfold next_action in ground (arith, there, done) in
              subst (After (Turn r)) (sym same)
                (w.0, subst (λ a. weight a + room turn.0 ≤ room r) done w.1, subst Genuine done w.2)
        ]
  ]
