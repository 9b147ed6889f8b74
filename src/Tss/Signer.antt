-- ===== src/Tss/Signer.antt =====
-- tss/src/roast.rs: RoastSigner, one participant that commits to nonces and signs with them.
pub mod Nonces
pub mod Serving
pub mod Runs
use timechain.Prelude.{ℕ, ◌+◌, Option, none, some, List, [], ◌∷◌, ◌++◌, Bool, true, false}
use timechain.Storage.{Map, get, remove}
use timechain.BTree.{insert}
use timechain.Outcome.{Outcome, ok, panic}
use timechain.Tss.Frost.{Frost, SigningPackage}

pub record RoastSignerRequest : Type 0 where
  pub session_id : ℕ
  pub commitments : Map ℕ

pub record RoastSignerResponse : Type 0 where
  pub session_id : ℕ
  pub signature_share : ℕ
  pub commitment : ℕ

-- `draws` is how often the random source was asked, in the stream of this signer.
pub record RoastSigner : Type 0 where
  pub key_package : ℕ
  pub payload : Option (List ℕ)
  pub coordinators : Map ℕ
  pub requests : List (ℕ × RoastSignerRequest)
  pub stream : ℕ
  pub draws : ℕ

abbrev pub new : ℕ → ℕ → RoastSigner
new key_package stream = record {
  key_package = key_package;
  payload = none;
  coordinators = [];
  requests = [];
  stream = stream;
  draws = 0;
}

abbrev pub set_data : RoastSigner → List ℕ → RoastSigner
set_data s bytes = record s { payload = some bytes }

module _ (frost : Frost) where
  unfoldable pub commit : RoastSigner → ℕ → RoastSigner × ℕ
  commit s coordinator =
      let drawn = frost.commit s.key_package s.stream s.draws in
      (
        record s { coordinators = insert s.coordinators coordinator drawn.0; draws = s.draws + 1 },
        drawn.1,
      )

  abbrev pub sign : RoastSigner → ℕ → RoastSignerRequest → RoastSigner
  sign s coordinator request = record s { requests = s.requests ++ (coordinator, request) ∷ [] }

  -- The request at the front with its nonces: `round2::sign`, and the next commitment with it.
  unfoldable pub answer :
      RoastSigner → ℕ → RoastSignerRequest → List ℕ → ℕ → Option (RoastSigner × RoastSignerResponse)
  unfolding commit
  answer s coordinator request bytes nonces =
      let pkg : SigningPackage = record { commitments = request.commitments; message = bytes } in
      elim (frost.sign pkg nonces s.key_package) [
        | none ↦ none
        | some share ↦
            let next = commit s coordinator in
            some (
              next.0,
              record {
                session_id = request.session_id;
                signature_share = share;
                commitment = next.1;
              },
            )
      ]

  -- The loop over the requests; a request of a coordinator that holds no commitment panics.
  unfoldable pub serve :
      RoastSigner
      → List ℕ
      → List (ℕ × RoastSignerRequest)
      → Outcome (RoastSigner × Option (ℕ × RoastSignerResponse))
  serve s bytes [] = ok (record s { requests = [] }, none)
  serve s bytes ((coordinator, request) ∷ rest) = elim (get s.coordinators coordinator) [
    | none ↦ panic
    | some nonces ↦
        let popped : RoastSigner = record s {
          coordinators = remove s.coordinators coordinator;
          requests = rest;
        } in
        elim (answer popped coordinator request bytes nonces) [
          | none ↦ serve popped bytes rest
          | some (s', response) ↦ ok (s', some (coordinator, response))
        ]
  ]

  unfoldable pub message : RoastSigner → Outcome (RoastSigner × Option (ℕ × RoastSignerResponse))
  message s = elim s.payload [ none ↦ ok (s, none) | some bytes ↦ serve s bytes s.requests ]
