-- ===== src/Tss/Tests.antt =====
-- Tests of the model of tss/src, and the theorems at small sessions.
pub mod Machines
use timechain.Prelude.{
  ℕ, ◌+◌, ◌≡◌, refl, Bool, true, Option, none, some, List, [], ◌∷◌, arith, length, contains,
}
use timechain.Storage
use timechain.Storage.{Map, get, remove}
use timechain.BTree
use timechain.BTree.{insert, pop_last}
use timechain.Outcome.{Outcome, ok, panic}
use timechain.Tss.Frost.{Frost, SigningPackage}
use timechain.Tss.Signer
use timechain.Tss.Signer.{RoastSigner, RoastSignerRequest, RoastSignerResponse}
use timechain.Tss.Signer.Nonces.{Distinct}
use timechain.Tss.Signer.Serving.{Answered}
use timechain.Tss.Signer.Runs.{Run, message-Distinct}
use timechain.Tss.Coordinator
use timechain.Tss.Coordinator.{
  RoastCoordinator, RoastSession, on_signature_share, on_commit, on_response, trim, start_session,
  first_complete, aggregate_signature,
}
use timechain.Tss.Coordinator.Sessions
use timechain.Tss.Coordinator.Sessions.{start_session-started}
use timechain.Tss.Coordinator.Runs
use timechain.Tss.Coordinator.Runs.{Event, Signed, aggregate_signature-Signed}

-- A library that signs everything; a nonce is the number of its draw.
abbrev pub toy : Frost
toy = record {
  commit = λ key stream draw. (draw, draw + 1000);
  sign = λ pkg nonces key. some (nonces + 1);
  aggregate = λ pkg shares pkp. some 7;
  message_hash = λ bytes. length bytes;
  part1 = λ id n threshold stream draw. some (11, 12, 13);
  share_for = λ secret peer. secret + peer;
  add_share = λ a b. a + b;
  zero_share = 0;
  key_package = λ id share commitment. some share;
  public_key_package = λ members commitment. some 5;
  signing_share = λ key. key;
  verifying_key = λ pkp. pkp;
}

abbrev pub request : RoastSignerRequest
request = record { session_id = 0; commitments = (1, 1000) ∷ [] }

-- A signer that has committed to coordinator 4, has data, and is asked to sign.
abbrev asked : RoastSigner
asked =
    Signer.sign toy (Signer.set_data (Signer.commit toy (Signer.new 1 0) 4).0 (9 ∷ [])) 4 request

abbrev pub answered : RoastSigner
answered = record {
  key_package = 1;
  payload = some (9 ∷ []);
  coordinators = (4, 1) ∷ [];
  requests = [];
  stream = 0;
  draws = 2;
}

asked-answered :
    Signer.message toy asked
    ≡ ok (answered, some (4, record { session_id = 0; signature_share = 1; commitment = 1001 }))
unfolding Signer.message Signer.serve Signer.answer Signer.commit insert get remove
asked-answered = refl

-- It is asked again, now with one nonce used.
abbrev asked_again : RoastSigner
asked_again = Signer.sign toy answered 4 request

abbrev answered_again : RoastSigner
answered_again = record answered { coordinators = (4, 2) ∷ []; draws = 3 }

asked_again-answered :
    Signer.message toy asked_again
    ≡ ok (
      answered_again,
      some (4, record { session_id = 0; signature_share = 2; commitment = 1002 }),
    )
unfolding Signer.message Signer.serve Signer.answer Signer.commit insert get remove
asked_again-answered = refl

asked-run : Run toy 1 0 (0 ∷ []) asked_again
unfolding Signer.commit insert get
asked-run =
    Run.asked
      (Run.answered (Run.asked (Run.told (Run.committed Run.started 4) (9 ∷ [])) 4 request) answered
        4 (record { session_id = 0; signature_share = 1; commitment = 1001 }) 0 asked-answered refl)
      4 request

message-Distinct_example :
    (bytes : List ℕ) × (n : ℕ) × (asked_again.payload ≡ some bytes)
    × Answered toy asked_again bytes 4
        (record { session_id = 0; signature_share = 2; commitment = 1002 })
        n
    × Distinct (n ∷ 0 ∷ [])
message-Distinct_example =
    message-Distinct toy 1 0 (λ i j e. e) (0 ∷ []) asked_again asked-run answered_again 4
      (record { session_id = 0; signature_share = 2; commitment = 1002 }) asked_again-answered

-- Two signers commit and answer.
abbrev events : List Event
events =
    Event.commit 1 100
    ∷ (Event.commit 2 200
        ∷ (Event.start
            ∷ (Event.response 1 (record { session_id = 0; signature_share = 11; commitment = 101 })
                ∷ (Event.response 2
                      (record { session_id = 0; signature_share = 12; commitment = 201 })
                    ∷ []))))

abbrev complete_session : RoastSession
complete_session = record {
  commitments = (1, 100) ∷ (2, 200) ∷ [];
  signature_shares = (1, 11) ∷ (2, 12) ∷ [];
}

events_complete :
    (aggregate_signature (Runs.run (Coordinator.new 2) events)).1 ≡ some complete_session
unfolding Runs.run Runs.apply on_commit on_response on_signature_share start_session trim pop_last
    insert get first_complete aggregate_signature Storage.insert
events_complete = refl

aggregate_signature-Signed_example : Signed 2 complete_session
aggregate_signature-Signed_example =
    aggregate_signature-Signed 2 events complete_session events_complete

abbrev three_commitments : RoastCoordinator
three_commitments = record {
  threshold = 2;
  session_id = 65535;
  commitments = (1, 100) ∷ (2, 200) ∷ (5, 500) ∷ [];
  sessions = [];
  committed = (1, tt) ∷ (2, tt) ∷ (5, tt) ∷ [];
}

three_commitments-IsValid : Sessions.IsValid three_commitments
unfolding get
three_commitments-IsValid = record {
  sorted = omega arith;
  ordered = tt;
  sessions = λ id s h. absurd (cc);
}

start_session-started_example : start_session three_commitments ≡ (
  record three_commitments {
    session_id = 0;
    commitments = (5, 500) ∷ [];
    sessions =
        (65535, record { commitments = (1, 100) ∷ (2, 200) ∷ []; signature_shares = [] }) ∷ [];
  },
  some (record { session_id = 65535; commitments = (1, 100) ∷ (2, 200) ∷ [] }),
)
unfolding insert
start_session-started_example = start_session-started three_commitments three_commitments-IsValid
