-- ===== src/Tss/Roast/Unasked.antt =====
-- Requests to sign from a peer who holds no commitment: RoastSigner::message of tss/src/roast.rs.
use timechain.Prelude.{ℕ, ◌≡◌, refl, ap, ◌∙◌, none, some, List, [], ◌∷◌, ◌++◌, arith}
use timechain.Storage.{get}
use timechain.BTree.{pop_last}
use timechain.Outcome.{panic}
use timechain.Tss.Frost.{Frost}
use timechain.Tss.Signer
use timechain.Tss.Signer.{RoastSigner, RoastSignerRequest, RoastSignerResponse, serve}
use timechain.Tss.Signer.Serving.{serve_gone}
use timechain.Tss.Roast.{RoastMessage, Roast, on_message, participate, next_action}

module _ (frost : Frost) where
  message-panic :
      (s : RoastSigner) (bytes : List ℕ) (c : ℕ) (request : RoastSignerRequest)
      → s.payload ≡ some bytes
      → s.requests ≡ (c, request) ∷ []
      → get s.coordinators c ≡ none
      → Signer.message frost s ≡ panic
  unfolding Signer.message
  message-panic s bytes c request given asked gone =
      let e : Signer.message frost s ≡ serve frost s bytes s.requests = ground (arith, given) in
      e ∙ ap (serve frost s bytes) asked ∙ serve_gone frost s bytes c request [] gone

-- A member that is no coordinator, has sent its commitments, has answered what it was asked and has
-- data panics at its next action when a peer to whom no commitment is out asks it to sign.
pub next_action-panic :
    (frost : Frost) (r : Roast) (peer : ℕ) (request : RoastSignerRequest) (bytes : List ℕ)
    → r.coordinator ≡ none
    → r.coordinators ≡ []
    → r.signer.payload ≡ some bytes
    → r.signer.requests ≡ []
    → get r.signer.coordinators peer ≡ none
    → next_action frost (on_message frost r peer (RoastMessage.sign request)) ≡ panic
unfolding next_action on_message participate pop_last
next_action-panic frost r peer request bytes no_coordinator sent given answered gone =
    let s : RoastSigner = Signer.sign frost r.signer peer request in
    let queue : s.requests ≡ (peer, request) ∷ [] = ap (λ l. l ++ (peer, request) ∷ []) answered in
    let stop = message-panic frost s bytes peer request given queue gone in
    rw (no_coordinator, sent, stop) refl
