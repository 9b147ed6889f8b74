-- ===== src/Tss/Tests/Machines.antt =====
-- Tests of the machines of tss/src, and the theorems at small runs.
use timechain.Prelude.{ℕ, ◌≡◌, ◌≢◌, ◌≤◌, refl, true, Option, none, some, List, [], ◌∷◌, arith, All}
use timechain.Storage
use timechain.Storage.{Map, get, remove}
use timechain.BTree.{insert, pop_last}
use timechain.Outcome.{ok, panic}
use timechain.Tss.Signer
use timechain.Tss.Coordinator
use timechain.Tss.Coordinator.{
  RoastCoordinator, RoastSession, on_signature_share, on_commit, on_response, trim, start_session,
  first_complete, aggregate_signature,
}
use timechain.Tss.Roast
use timechain.Tss.Roast.{Roast, RoastMessage, RoastAction}
use timechain.Tss.Roast.Completion
use timechain.Tss.Roast.Completion.{completions, run-Completed, new-IsValid_roast}
use timechain.Tss.Roast.Unasked.{next_action-panic}
use timechain.Tss.Roast.Turns.{Genuine}
use timechain.Tss.Dkg
use timechain.Tss.Dkg.{Dkg}
use timechain.Tss.Machine
use timechain.Tss.Machine.{Tss, TssState, TssMessage, TssAction}
use timechain.Tss.Actions
use timechain.Tss.Actions.Termination.{Sufficient, next_action-Ends}
use timechain.Tss.KeyGeneration.{Done}
use timechain.Tss.Ready
use timechain.Tss.Ready.Shares.{next_action-Done_ready}
use timechain.Tss.Tests.{toy, request, answered}

-- A coordinator that gets two commitments, asks for shares and gets them.
abbrev session : Roast
session = Roast.new 1 2 3 5 ((1, tt) ∷ []) 0

abbrev events : List Completion.Event
events =
    Completion.tell (9 ∷ [])
    ∷ (Completion.receive 1 (RoastMessage.commit 100)
        ∷ (Completion.receive 2 (RoastMessage.commit 200)
            ∷ (Completion.act
                ∷ (Completion.receive 1 (
                      RoastMessage.signature
                        (record { session_id = 0; signature_share = 11; commitment = 101 }))
                    ∷ (Completion.receive 2 (
                          RoastMessage.signature
                            (record { session_id = 0; signature_share = 12; commitment = 201 }))
                        ∷ (Completion.act ∷ []))))))

abbrev both : Map ℕ
both = (1, 100) ∷ (2, 200) ∷ []

abbrev actions : List (Option RoastAction)
actions =
    some (
      RoastAction.send_many (1 ∷ 2 ∷ [])
        (RoastMessage.sign (record { session_id = 0; commitments = both })))
    ∷ some (RoastAction.complete 1 7)
    ∷ []

abbrev done : Roast
done = record session { signer = Signer.set_data (Signer.new 3 0) (9 ∷ []); coordinator = none }

events-actions : Completion.run toy session events ≡ ok (done, actions)
unfolding Completion.run Roast.on_message Roast.next_action Roast.coordinate Roast.aggregate
    Roast.participate on_commit on_response on_signature_share start_session trim pop_last insert
    get remove first_complete aggregate_signature Storage.insert
events-actions = refl

run-Completed_example : (completions actions ≤ 1) × All (Genuine toy 2 5) actions
run-Completed_example =
    run-Completed toy 2 5 1 3 ((1, tt) ∷ []) 0 events done actions events-actions

-- A member that has sent its commitment to coordinator 4, and a request of another peer.
abbrev waiting : Roast
waiting = record {
  signer = answered;
  coordinator = none;
  public_key_package = 5;
  coordinators = [];
}

next_action-panic_example :
    Roast.next_action toy (Roast.on_message toy waiting 2 (RoastMessage.sign request)) ≡ panic
unfolding get
next_action-panic_example =
    next_action-panic toy waiting 2 request (9 ∷ []) refl refl refl refl refl

-- The identifier of a peer is its number; a machine with the session above under id 8.
abbrev machine : Tss
machine = record {
  peer_id = 1;
  frost_id = 1;
  frost_to_peer = (1, 1) ∷ (2, 2) ∷ [];
  threshold = 2;
  coordinators = (1, tt) ∷ [];
  state = TssState.signing 3 5 ((8, session) ∷ []);
  committed = true;
  streams = 1;
}

abbrev pumped : Tss
pumped = record machine {
  state = TssState.signing 3 5 (
      (
        8,
        record session {
          signer = (Signer.commit toy (Signer.new 3 0) 1).0;
          coordinator = some (record (Coordinator.new 2) {
            commitments = (1, 1000) ∷ [];
            committed = (1, tt) ∷ [];
          });
          coordinators = [];
        },
      )
      ∷ []);
}

-- The member commits to itself, and then there is nothing to do.
machine-pumped : Actions.next_action toy 3 machine ≡ ok (pumped, some none)
unfolding Actions.act Actions.pump_all Actions.pump Actions.react Actions.settle Actions.deliver
    Actions.to_self Roast.next_action Roast.on_message Roast.coordinate Roast.aggregate
    Roast.participate Roast.speak Signer.commit Signer.message on_commit start_session trim pop_last
    insert get
machine-pumped = refl

-- Nothing to do.
abbrev idle : Option (Option TssAction)
idle = some none

next_action-Ends_example : idle ≢ none
unfolding Sufficient
next_action-Ends_example =
    next_action-Ends toy 2 5 (omega arith) 3 machine pumped idle
      ((tt, tt), (new-IsValid_roast toy 2 5 1 3 ((1, tt) ∷ []) 0, omega arith, tt)) machine-pumped

-- A key generation of two members, seen by the first.
abbrev key_events : List Ready.Event
key_events =
    Ready.turn 1 ∷ (Ready.agree 20 ∷ (Ready.turn 1 ∷ (Ready.hear 2 (TssMessage.dkg 30) ∷ [])))

abbrev generated : Tss
generated = record machine {
  state = TssState.generating (record {
    id = 1;
    members = (1, tt) ∷ (2, tt) ∷ [];
    threshold = 2;
    secret_package = some 11;
    commitment = some 20;
    sent_round2_packages = true;
    round2_packages = (2, 30) ∷ [];
    stream = 0;
    draws = 1;
  });
}

key_events-generated :
    Ready.run (λ p. p) toy (Machine.new (λ p. p) 1 (1 ∷ 2 ∷ []) 2) key_events ≡ ok generated
unfolding Ready.run Ready.step Actions.act Actions.advance Actions.generate Actions.to_peers
    Actions.address Dkg.next_action Dkg.open_round1 Dkg.round2_messages Machine.on_message
    Machine.receive insert get Storage.insert
key_events-generated = refl

generated-ready :
    Actions.next_action toy 1 generated
    ≡ ok (
      record generated { state = TssState.signing 42 5 [] },
      some (some (TssAction.ready 42 20 5)),
    )
unfolding Actions.act Actions.advance Actions.generate Dkg.next_action Dkg.finish Dkg.signing_share
    Dkg.sum_shares
generated-ready = refl

next_action-Done_ready_example :
    (d : Dkg) × (key : ℕ) × (pkp : ℕ) × (generated.state ≡ TssState.generating d)
    × Done toy d key pkp 20
    × (42 ≡ toy.signing_share key)
    × (5 ≡ toy.verifying_key pkp)
    × (TssState.signing 42 5 [] ≡ TssState.signing key pkp [])
next_action-Done_ready_example =
    next_action-Done_ready (λ p. p) toy (λ p q e. e) 1 (1 ∷ 2 ∷ []) 2 refl (omega arith) key_events
      generated key_events-generated 1 (record generated { state = TssState.signing 42 5 [] }) 42 20
      5 generated-ready
