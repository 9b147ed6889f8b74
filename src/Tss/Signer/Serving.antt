-- ===== src/Tss/Signer/Serving.antt =====
-- What RoastSigner of tss/src/roast.rs answers to the requests in its queue.
use timechain.Prelude.{
  ℕ, ◌≡◌, sym, Option, none, some, List, [], ◌∷◌, arith, unwrap_or, Option-cases, inl, inr, subst,
}
use timechain.Storage.{Map, get}
use timechain.Outcome.{Outcome, ok, err, panic, After, After_ok}
use timechain.Tss.Frost.{Frost, SigningPackage}
use timechain.Tss.Signer.{
  RoastSignerRequest, RoastSignerResponse, RoastSigner, commit, answer, serve, message,
}
use timechain.Tss.Signer.Nonces.{
  DrawsDiffer, IsFresh, popped, popped-IsFresh, used-IsFresh, commit-IsFresh, kept,
}

module _ (frost : Frost) where
  -- The share of a response was made with the nonces `nonces` that were held for the coordinator.
  pub record Answered (s : RoastSigner) (bytes : List ℕ) (c : ℕ) (response : RoastSignerResponse)
      (nonces : ℕ) : Type 0 where
    pub held : get s.coordinators c ≡ some nonces
    pub commitments : Map ℕ
    pub share :
        frost.sign (record { commitments = commitments; message = bytes }) nonces s.key_package
        ≡ some response.signature_share

  pub answer_lem :
      (s : RoastSigner) (c : ℕ) (request : RoastSignerRequest) (bytes : List ℕ) (n : ℕ)
      (s' : RoastSigner) (response : RoastSignerResponse)
      → answer frost s c request bytes n ≡ some (s', response)
      → (frost.sign (record { commitments = request.commitments; message = bytes }) n s.key_package
          ≡ some response.signature_share)
        × ((commit frost s c).0 ≡ s')
  unfolding answer
  answer_lem s c request bytes n s' response h =
      let pkg : SigningPackage = record { commitments = request.commitments; message = bytes } in
      elim (Option-cases (frost.sign pkg n s.key_package)) [
        | inl refused ↦ absurd (ground (arith, refused))
        | inr (share, signed) ↦ (ground (arith, signed), ground (arith, signed))
      ]

  pub serve_gone :
      (s : RoastSigner) (bytes : List ℕ) (c : ℕ) (request : RoastSignerRequest)
      (rest : List (ℕ × RoastSignerRequest))
      → get s.coordinators c ≡ none
      → serve frost s bytes ((c, request) ∷ rest) ≡ panic
  unfolding serve
  serve_gone s bytes c request rest gone = ground (arith, gone)

  pub serve_refused :
      (s : RoastSigner) (bytes : List ℕ) (c : ℕ) (request : RoastSignerRequest)
      (rest : List (ℕ × RoastSignerRequest)) (n : ℕ)
      → get s.coordinators c ≡ some n
      → answer frost (popped s c rest) c request bytes n ≡ none
      → serve frost s bytes ((c, request) ∷ rest) ≡ serve frost (popped s c rest) bytes rest
  unfolding serve
  serve_refused s bytes c request rest n there refused = ground (arith, there, refused)

  pub serve_answered :
      (s : RoastSigner) (bytes : List ℕ) (c : ℕ) (request : RoastSignerRequest)
      (rest : List (ℕ × RoastSignerRequest)) (n : ℕ) (r : RoastSigner × RoastSignerResponse)
      → get s.coordinators c ≡ some n
      → answer frost (popped s c rest) c request bytes n ≡ some r
      → serve frost s bytes ((c, request) ∷ rest) ≡ ok (r.0, some (c, r.1))
  unfolding serve
  serve_answered s bytes c request rest n r there answered = ground (arith, there, answered)

module _ (frost : Frost) (key stream : ℕ) (differ : DrawsDiffer frost key stream) where
  -- What is known after a message was asked for.
  abbrev pub AfterMessage :
      List ℕ → RoastSigner → List ℕ → RoastSigner × Option (ℕ × RoastSignerResponse) → Type 0
  AfterMessage used s bytes (s', none) = IsFresh frost key stream used s'
  AfterMessage used s bytes (s', some (c, response)) =
      (n : ℕ) × Answered frost s bytes c response n × IsFresh frost key stream (n ∷ used) s'

  lift_answer :
      (used : List ℕ) (s : RoastSigner) (bytes : List ℕ) (c : ℕ)
      (rest : List (ℕ × RoastSignerRequest)) (r : RoastSigner × Option (ℕ × RoastSignerResponse))
      → AfterMessage used (popped s c rest) bytes r
      → AfterMessage used s bytes r
  lift_answer used s bytes c rest (s', none) h = h
  lift_answer used s bytes c rest (s', some (d, response)) (n, a, f) = (
    n,
    record { held = (kept s c d n a.held).0; commitments = a.commitments; share = a.share },
    f,
  )

  After-lift :
      (used : List ℕ) (s : RoastSigner) (bytes : List ℕ) (c : ℕ)
      (rest : List (ℕ × RoastSignerRequest))
      (m : Outcome (RoastSigner × Option (ℕ × RoastSignerResponse)))
      → After (AfterMessage used (popped s c rest) bytes) m
      → After (AfterMessage used s bytes) m
  After-lift used s bytes c rest (ok r) h = lift_answer used s bytes c rest r h
  After-lift used s bytes c rest (err e) h = tt
  After-lift used s bytes c rest panic h = tt

  serve-IsFresh :
      (used : List ℕ) (s : RoastSigner) (bytes : List ℕ) (rs : List (ℕ × RoastSignerRequest))
      → IsFresh frost key stream used s
      → After (AfterMessage used s bytes) (serve frost s bytes rs)
  unfolding serve
  serve-IsFresh used s bytes [] f = record {
    key_package = f.key_package;
    source = f.source;
    held = f.held;
    spent = f.spent;
    apart = f.apart;
    single = f.single;
    distinct = f.distinct;
  }
  serve-IsFresh used s bytes ((c, request) ∷ rest) f =
      let P = AfterMessage used s bytes in
      let p = popped s c rest in
      elim (Option-cases (get s.coordinators c)) [
        | inl gone ↦ subst (After P) (sym (serve_gone frost s bytes c request rest gone)) tt
        | inr (n, there) ↦ elim (Option-cases (answer frost p c request bytes n)) [
          | inl refused ↦
              subst (After P) (sym (serve_refused frost s bytes c request rest n there refused)) (
                After-lift used s bytes c rest (serve frost p bytes rest) (
                  serve-IsFresh used p bytes rest
                    (popped-IsFresh frost key stream used s c rest f)))
          | inr ((s', response), answered) ↦
              let made = answer_lem frost p c request bytes n s' response answered in
              let fresh =
                commit-IsFresh frost key stream differ (n ∷ used) p c
                  (used-IsFresh frost key stream used s c n rest there f) in
              let result : P (s', some (c, response)) = (
                n,
                record { held = there; commitments = request.commitments; share = made.0 },
                subst (IsFresh frost key stream (n ∷ used)) made.1 fresh,
              ) in
              subst (After P)
                (sym (serve_answered frost s bytes c request rest n (s', response) there answered))
                result
        ]
      ]

  pub message-IsFresh :
      (used : List ℕ) (s : RoastSigner)
      → IsFresh frost key stream used s
      → (t : RoastSigner) (r : Option (ℕ × RoastSignerResponse)) → message frost s ≡ ok (t, r)
      → AfterMessage used s (unwrap_or s.payload []) (t, r)
  unfolding message
  message-IsFresh used s f t r h = elim (Option-cases s.payload) [
    | inl nothing ↦
        let e : (s, none) ≡ (t, r) = ground (arith, nothing) in
        subst (AfterMessage used s (unwrap_or s.payload [])) e f
    | inr (bytes, given) ↦
        let e : serve frost s bytes s.requests ≡ ok (t, r) = ground (arith, given) in
        let same : bytes ≡ unwrap_or s.payload [] = ground (arith, given) in
        subst (λ b. AfterMessage used s b (t, r)) same
          (After_ok (AfterMessage used s bytes) (serve frost s bytes s.requests)
            (serve-IsFresh used s bytes s.requests f) e)
  ]

pub message-payload :
    (frost : Frost) (s t : RoastSigner) (a : ℕ × RoastSignerResponse)
    → message frost s ≡ ok (t, some a)
    → s.payload ≡ some (unwrap_or s.payload [])
unfolding message
message-payload frost s t a h = elim (Option-cases s.payload) [
  | inl nothing ↦ absurd (ground (arith, nothing))
  | inr (bytes, given) ↦ ground (arith, given)
]
