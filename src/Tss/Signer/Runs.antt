-- ===== src/Tss/Signer/Runs.antt =====
-- What RoastSigner of tss/src/roast.rs answers, over every run of its operations.
use timechain.Prelude.{ℕ, ◌≡◌, refl, none, some, List, [], ◌∷◌, arith, unwrap_or, subst}
use timechain.Storage.{get}
use timechain.Outcome.{ok}
use timechain.Tss.Frost.{Frost}
use timechain.Tss.Signer.{
  RoastSignerRequest, RoastSignerResponse, RoastSigner, new, set_data, commit, sign, message,
}
use timechain.Tss.Signer.Serving.{Answered, message-IsFresh, message-payload}
use timechain.Tss.Signer.Nonces.{Distinct, DrawsDiffer, IsFresh, commit-IsFresh}

-- A run of a new signer: it gets data, is asked for commitments and for shares, and speaks; `used`
-- are the nonces that were held for the coordinators whom it answered, the latest first.
pub data Run (frost : Frost) (key stream : ℕ) : List ℕ → RoastSigner → Type 0 where
  started : Run frost key stream [] (new key stream)
  told :
      {used : List ℕ} {s : RoastSigner}
      → Run frost key stream used s
      → (bytes : List ℕ) → Run frost key stream used (set_data s bytes)
  committed :
      {used : List ℕ} {s : RoastSigner}
      → Run frost key stream used s
      → (c : ℕ) → Run frost key stream used (commit frost s c).0
  asked :
      {used : List ℕ} {s : RoastSigner}
      → Run frost key stream used s
      → (c : ℕ) → (request : RoastSignerRequest)
      → Run frost key stream used (sign frost s c request)
  quiet :
      {used : List ℕ} {s : RoastSigner}
      → Run frost key stream used s
      → (t : RoastSigner) → message frost s ≡ ok (t, none)
      → Run frost key stream used t
  answered :
      {used : List ℕ} {s : RoastSigner}
      → Run frost key stream used s
      → (t : RoastSigner) (c : ℕ) → (response : RoastSignerResponse) (n : ℕ)
      → message frost s ≡ ok (t, some (c, response))
      → get s.coordinators c ≡ some n
      → Run frost key stream (n ∷ used) t

Run-IsFresh :
    (frost : Frost) (key stream : ℕ)
    → DrawsDiffer frost key stream
    → {used : List ℕ} {s : RoastSigner} → Run frost key stream used s
    → IsFresh frost key stream used s
unfolding get
Run-IsFresh frost key stream differ started = record {
  key_package = refl;
  source = refl;
  held = λ c n h. absurd (cc);
  spent = tt;
  apart = λ c n h. tt;
  single = λ c d n h k. absurd (cc);
  distinct = tt;
}
Run-IsFresh frost key stream differ (told r bytes) =
    let f = Run-IsFresh frost key stream differ r in
    record {
      key_package = f.key_package;
      source = f.source;
      held = f.held;
      spent = f.spent;
      apart = f.apart;
      single = f.single;
      distinct = f.distinct;
    }
Run-IsFresh frost key stream differ (committed {used} {s} r c) =
    commit-IsFresh frost key stream differ used s c (Run-IsFresh frost key stream differ r)
Run-IsFresh frost key stream differ (asked r c request) =
    let f = Run-IsFresh frost key stream differ r in
    record {
      key_package = f.key_package;
      source = f.source;
      held = f.held;
      spent = f.spent;
      apart = f.apart;
      single = f.single;
      distinct = f.distinct;
    }
Run-IsFresh frost key stream differ (quiet {used} {s} r t h) =
    message-IsFresh frost key stream differ used s (Run-IsFresh frost key stream differ r) t none h
Run-IsFresh frost key stream differ (answered {used} {s} r t c response n h held) =
    let (m, a, f) =
      message-IsFresh frost key stream differ used s (Run-IsFresh frost key stream differ r) t
        (some (c, response)) h in
    let same : m ≡ n = ground (arith, a.held, held) in
    subst (λ k. IsFresh frost key stream (k ∷ used) t) same f

-- An answer of a signer, after every run and if the random source does not repeat itself: it has a
-- share that was made of the data that was set, with the nonces that were held for the coordinator
-- to whom it goes, and no two of these nonces and of those of all answers before are equal.
pub message-Distinct :
    (frost : Frost) (key stream : ℕ)
    → DrawsDiffer frost key stream
    → (used : List ℕ) (s : RoastSigner) → Run frost key stream used s
    → (t : RoastSigner) (c : ℕ) (response : RoastSignerResponse)
    → message frost s ≡ ok (t, some (c, response))
    → (bytes : List ℕ) × (n : ℕ) × (s.payload ≡ some bytes)
      × Answered frost s bytes c response n
      × Distinct (n ∷ used)
message-Distinct frost key stream differ used s r t c response h =
    let (n, a, g) =
      message-IsFresh frost key stream differ used s (Run-IsFresh frost key stream differ r) t
        (some (c, response)) h in
    (unwrap_or s.payload [], n, message-payload frost s t (c, response) h, a, g.distinct)
