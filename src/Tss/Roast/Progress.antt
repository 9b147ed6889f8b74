-- ===== src/Tss/Roast/Progress.antt =====
-- How Roast of tss/src/roast.rs comes nearer to having nothing to do.
use timechain.Prelude.{
  ℕ, suc, ◌+◌, ◌<◌, ◌≡◌, refl, sym, ap, ◌∙◌, Option, none, some, List, [], ◌∷◌, arith, ltb, length,
  length-append, take, length-take, take-append-drop, drop, Option-cases, Bool-cases, inl, inr,
  subst,
}
use timechain.Storage.{Map, get, keys}
use timechain.BTree.{Keys, pop_last, pop_last_lem, Sorted, Sorted-append}
use timechain.Outcome.{ok, ◌>>=◌, After, After-bind, After-map}
use timechain.Tss.Frost.{Frost}
use timechain.Tss.Signer
use timechain.Tss.Signer.{RoastSigner, RoastSignerRequest, RoastSignerResponse, answer, serve}
use timechain.Tss.Signer.Serving.{answer_lem, serve_gone, serve_refused, serve_answered}
use timechain.Tss.Signer.Nonces.{popped}
use timechain.Tss.Coordinator.{RoastCoordinator, start_session}
use timechain.Tss.Coordinator.Sessions
use timechain.Tss.Coordinator.Sessions.{started, start_session-started}
use timechain.Tss.Roast.{
  RoastMessage, RoastAction, Roast, on_message, aggregate, coordinate, speak, participate,
  next_action,
}
use timechain.Tss.Roast.Turns.{IsValid, aggregate-Tried}

-- The commitments that are still to be sent and the requests that wait.
abbrev pub measure : Roast → ℕ
measure r = length r.coordinators + length r.signer.requests

module _ (frost : Frost) where
  abbrev Shorter : ℕ → RoastSigner × Option (ℕ × RoastSignerResponse) → Type 0
  Shorter n (s, none) = Unit {0}
  Shorter n (s, some x) = length s.requests < n

  commit-requests : (s : RoastSigner) (c : ℕ) → (Signer.commit frost s c).0.requests ≡ s.requests
  unfolding Signer.commit
  commit-requests s c = refl

  serve-Shorter :
      (s : RoastSigner) (bytes : List ℕ) (rs : List (ℕ × RoastSignerRequest))
      → After (Shorter (length rs)) (serve frost s bytes rs)
  serve-Shorter s bytes [] = unfold serve in tt
  serve-Shorter s bytes ((c, request) ∷ rest) =
      let P = Shorter (suc (length rest)) in
      let p = popped s c rest in
      elim (Option-cases (get s.coordinators c)) [
        | inl gone ↦ subst (After P) (sym (serve_gone frost s bytes c request rest gone)) tt
        | inr (n, there) ↦ elim (Option-cases (answer frost p c request bytes n)) [
          | inl refused ↦
              subst (After P) (sym (serve_refused frost s bytes c request rest n there refused)) (
                After-map (Shorter (length rest)) P (serve frost p bytes rest) longer
                  (serve-Shorter p bytes rest))
          | inr ((s', response), answered) ↦
              let made = (answer_lem frost p c request bytes n s' response answered).1 in
              let e : s'.requests ≡ rest = ap (λ x. x.requests) (sym made) ∙ commit-requests p c in
              subst (After P)
                (sym (serve_answered frost s bytes c request rest n (s', response) there answered))
                (let small : length s'.requests < suc (length rest) = omega (arith, ap length e) in
                  small)
        ]
      ]
    where
      longer :
          (x : RoastSigner × Option (ℕ × RoastSignerResponse))
          → Shorter (length rest) x
          → Shorter (suc (length rest)) x
      longer (s', none) h = tt
      longer (s', some y) h = omega (arith, h)

  message-Shorter : (s : RoastSigner) → After (Shorter (length s.requests)) (Signer.message frost s)
  message-Shorter s = elim (Option-cases s.payload) [
    | inl nothing ↦
        let same : Signer.message frost s ≡ ok (s, none) =
          unfold Signer.message in ground (arith, nothing) in
        subst (After (Shorter (length s.requests))) (sym same) tt
    | inr (bytes, given) ↦
        let same : Signer.message frost s ≡ serve frost s bytes s.requests =
          unfold Signer.message in ground (arith, given) in
        subst (After (Shorter (length s.requests))) (sym same) (serve-Shorter s bytes s.requests)
  ]

  -- After an action: a message of a member to itself leaves less to do, and a request goes to the
  -- signers of a session, in the order of their identifiers.
  abbrev pub Progress : ℕ → Roast → Roast × Option RoastAction → Type 0
  Progress t r (r', none) = Unit {0}
  Progress t r (r', some (RoastAction.send p m)) =
      (q : ℕ) → measure (on_message frost r' q m) < measure r
  Progress t r (r', some (RoastAction.send_many ps m)) =
      (c : Map ℕ) × (ps ≡ keys c) × Sorted c × (length c ≡ t)
  Progress t r (r', some (RoastAction.complete h s)) = Unit {0}

  measure-commit :
      (r : Roast) (q commitment : ℕ)
      → measure (on_message frost r q (RoastMessage.commit commitment)) ≡ measure r
  unfolding on_message
  measure-commit r q commitment = ground arith

  measure-signature :
      (r : Roast) (q : ℕ) (response : RoastSignerResponse)
      → measure (on_message frost r q (RoastMessage.signature response)) ≡ measure r
  unfolding on_message
  measure-signature r q response = ground arith

  speak-Progress :
      (t : ℕ) (r : Roast) (x : RoastSigner × Option (ℕ × RoastSignerResponse))
      → Shorter (length r.signer.requests) x
      → Progress t r (speak frost r x)
  unfolding speak
  speak-Progress t r (s, none) h = tt
  speak-Progress t r (s, some (c, response)) h =
      λ q. omega (arith, measure-signature (record r { signer = s }) q response, h)

  pop_last-shorter :
      (m rest : Keys) (l : ℕ × Unit {0}) → pop_last m ≡ some (rest, l) → length rest < length m
  pop_last-shorter [] rest l h = unfold pop_last in absurd (cc)
  pop_last-shorter (e ∷ m) rest l h =
      let (m', k, p, q) = pop_last_lem e m in
      let same : m' ≡ rest = ground (arith, p, h) in
      omega (arith, ap length q, length-append m' (k ∷ []), ap length same)

  participate-Progress : (t : ℕ) (r : Roast) → After (Progress t r) (participate frost r)
  participate-Progress t r = elim (Option-cases (pop_last r.coordinators)) [
    | inr ((rest, last), more) ↦
        let made = Signer.commit frost r.signer last.0 in
        let r' : Roast = record r { signer = made.0; coordinators = rest } in
        let same : participate frost r
            ≡ ok (r', some (RoastAction.send last.0 (RoastMessage.commit made.1))) =
          unfold participate in ground (arith, more) in
        let less : measure r' < measure r = omega (
          arith,
          pop_last-shorter r.coordinators rest last more,
          ap length (commit-requests r.signer last.0),
        ) in
        subst (After (Progress t r)) (sym same)
          (λ q. omega (arith, measure-commit r' q made.1, less))
    | inl done ↦
        let same : participate frost r
            ≡ (Signer.message frost r.signer >>= λ x. ok (speak frost r x)) =
          unfold participate in ground (arith, done) in
        subst (After (Progress t r)) (sym same) (
          After-bind (Shorter (length r.signer.requests)) (Progress t r)
            (Signer.message frost r.signer) (λ x. ok (speak frost r x)) (message-Shorter r.signer)
            (λ x h. speak-Progress t r x h))
  ]

module _ (frost : Frost) (threshold pkp : ℕ) where
  -- The turn of the coordinator leaves the signer alone.
  abbrev Turned : Roast → Roast × Option RoastAction → Type 0
  Turned r x = (measure x.0 ≡ measure r) × Progress frost threshold r x

  aggregate-completes :
      (r : Roast) (c : RoastCoordinator) (a : RoastAction)
      → (aggregate frost r c).1 ≡ some a
      → Progress frost threshold r (record r { coordinator = none }, some a)
  aggregate-completes r c (RoastAction.complete h s) e = tt
  aggregate-completes r c (RoastAction.send p m) e = unfold aggregate in absurd (ground arith)
  aggregate-completes r c (RoastAction.send_many ps m) e = unfold aggregate in absurd (ground arith)

  request-signers :
      (c : RoastCoordinator) (request : Signer.RoastSignerRequest)
      → Sessions.IsValid c
      → (start_session c).1 ≡ some request
      → Sorted request.commitments × (length request.commitments ≡ c.threshold)
  request-signers c request v h =
      let e : (started c).1 ≡ some request = ap (λ x. x.1) (sym (start_session-started c v)) ∙ h in
      elim (Bool-cases (ltb (length c.commitments) c.threshold)) [
        | inl few ↦ absurd (ground arith)
        | inr enough ↦
            let taken : take c.threshold c.commitments ≡ request.commitments = ground arith in
            let halves =
              Sorted-append (take c.threshold c.commitments) (drop c.threshold c.commitments)
                (subst Sorted (sym (take-append-drop c.threshold c.commitments)) v.sorted) in
            (
              subst Sorted taken halves.0,
              let size : length (take c.threshold c.commitments) ≡ c.threshold =
                    ground (arith, length-take c.threshold c.commitments) in
                  ap length (sym taken) ∙ size,
            )
      ]

  coordinate-Turned :
      (r : Roast) (c : RoastCoordinator)
      → IsValid frost threshold pkp r
      → r.coordinator ≡ some c
      → Turned r (coordinate frost r c)
  coordinate-Turned r c v there =
      let tried = aggregate frost r c in
      let w = aggregate-Tried frost threshold pkp r c v there in
      elim (Option-cases tried.1) [
        | inr (action, done) ↦
            let same : coordinate frost r c ≡ (record r { coordinator = none }, some action) =
              unfold coordinate in ground (arith, done) in
            subst (Turned r) (sym same) (refl, aggregate-completes r c action done)
        | inl not_yet ↦
            let begun = start_session tried.0 in
            elim (Option-cases begun.1) [
              | inl nothing ↦
                  let same : coordinate frost r c
                      ≡ (record r { coordinator = some begun.0 }, none) =
                    unfold coordinate in ground (arith, not_yet, nothing) in
                  subst (Turned r) (sym same) (refl, tt)
              | inr (request, started) ↦
                  let same : coordinate frost r c ≡ (
                    record r { coordinator = some begun.0 },
                    some (
                        RoastAction.send_many (keys request.commitments)
                          (RoastMessage.sign request)),
                  ) =
                    unfold coordinate in ground (arith, not_yet, started) in
                  let signers = request-signers tried.0 request w.0 started in
                  subst (Turned r) (sym same)
                    (refl, (request.commitments, refl, signers.0, signers.1 ∙ w.1))
            ]
      ]

  same_measure :
      (r r' : Roast) (x : Roast × Option RoastAction)
      → measure r' ≡ measure r
      → Progress frost threshold r' x
      → Progress frost threshold r x
  same_measure r r' (s, none) e h = tt
  same_measure r r' (s, some (RoastAction.send p m)) e h = λ q. omega (arith, h q, e)
  same_measure r r' (s, some (RoastAction.send_many ps m)) e h = h
  same_measure r r' (s, some (RoastAction.complete hash sig)) e h = tt

  pub next_action-Progress :
      (r : Roast)
      → IsValid frost threshold pkp r
      → After (Progress frost threshold r) (next_action frost r)
  next_action-Progress r v =
      let P = Progress frost threshold r in
      elim (Option-cases r.coordinator) [
        | inl gone ↦
            let same : next_action frost r ≡ participate frost r =
              unfold next_action in ground (arith, gone) in
            subst (After P) (sym same) (participate-Progress frost threshold r)
        | inr (c, there) ↦
            let turn = coordinate frost r c in
            let w = coordinate-Turned r c v there in
            elim (Option-cases turn.1) [
              | inl nothing ↦
                  let same : next_action frost r ≡ participate frost turn.0 =
                    unfold next_action in ground (arith, there, nothing) in
                  subst (After P) (sym same) (
                    After-map (Progress frost threshold turn.0) P (participate frost turn.0)
                      (λ x h. same_measure r turn.0 x w.0 h)
                      (participate-Progress frost threshold turn.0))
              | inr (action, done) ↦
                  let same : next_action frost r ≡ ok (turn.0, some action) =
                    unfold next_action in ground (arith, there, done) in
                  subst (After P) (sym same) (subst (λ a. P (turn.0, a)) done w.1)
            ]
      ]
