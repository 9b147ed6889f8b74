-- ===== src/Tss/Roast.antt =====
-- tss/src/roast.rs: Roast, which joins a signer and, on some members, a coordinator.
pub mod Turns
pub mod Completion
pub mod Progress
pub mod Unasked
use timechain.Prelude.{ℕ, Option, none, some, List, [], ◌∷◌, Bool, true, false, if◌then◌else◌}
use timechain.Storage.{Map, keys, contains_key}
use timechain.BTree.{Keys, pop_last}
use timechain.Outcome.{Outcome, ok, ◌>>=◌}
use timechain.Tss.Frost.{Frost, SigningPackage}
use timechain.Tss.Signer
use timechain.Tss.Signer.{RoastSigner, RoastSignerRequest, RoastSignerResponse}
use timechain.Tss.Coordinator
use timechain.Tss.Coordinator.{
  RoastCoordinator, RoastSession, on_commit, on_response, start_session, aggregate_signature,
}

pub data RoastMessage : Type 0 where
  commit : ℕ → RoastMessage
  sign : RoastSignerRequest → RoastMessage
  signature : RoastSignerResponse → RoastMessage

pub data RoastAction : Type 0 where
  send : ℕ → RoastMessage → RoastAction
  send_many : List ℕ → RoastMessage → RoastAction
  complete : ℕ → ℕ → RoastAction

pub record Roast : Type 0 where
  pub signer : RoastSigner
  pub coordinator : Option RoastCoordinator
  pub public_key_package : ℕ
  pub coordinators : Keys

abbrev pub new : ℕ → ℕ → ℕ → ℕ → Keys → ℕ → Roast
new id threshold key_package public_key_package coordinators stream = record {
  signer = Signer.new key_package stream;
  coordinator = if contains_key coordinators id then some (Coordinator.new threshold) else none;
  public_key_package = public_key_package;
  coordinators = coordinators;
}

abbrev pub set_data : Roast → List ℕ → Roast
set_data r bytes = record r { signer = Signer.set_data r.signer bytes }

module _ (frost : Frost) where
  unfoldable pub on_message : Roast → ℕ → RoastMessage → Roast
  on_message r peer (commit commitment) = elim r.coordinator [
    | none ↦ r
    | some c ↦ record r { coordinator = some (on_commit c peer commitment) }
  ]
  on_message r peer (sign request) = record r { signer = Signer.sign frost r.signer peer request }
  on_message r peer (signature response) = elim r.coordinator [
    | none ↦ r
    | some c ↦ record r { coordinator = some (on_response c peer response) }
  ]

  -- A complete session, if its shares can be aggregated.
  unfoldable pub aggregate : Roast → RoastCoordinator → RoastCoordinator × Option RoastAction
  aggregate r c = elim r.signer.payload [
    | none ↦ (c, none)
    | some bytes ↦
        let found = aggregate_signature c in
        elim found.1 [
          | none ↦ (found.0, none)
          | some session ↦
              let pkg : SigningPackage = record {
                commitments = session.commitments;
                message = bytes;
              } in
              elim (frost.aggregate pkg session.signature_shares r.public_key_package) [
                | none ↦ (found.0, none)
                | some s ↦ (found.0, some (complete (frost.message_hash bytes) s))
              ]
        ]
  ]

  -- The turn of the coordinator; it is given up with the signature.
  unfoldable pub coordinate : Roast → RoastCoordinator → Roast × Option RoastAction
  coordinate r c =
      let tried = aggregate r c in
      elim tried.1 [
        | some action ↦ (record r { coordinator = none }, some action)
        | none ↦
            let begun = start_session tried.0 in
            let r' : Roast = record r { coordinator = some begun.0 } in
            elim begun.1 [
              | none ↦ (r', none)
              | some request ↦ (r', some (send_many (keys request.commitments) (sign request)))
            ]
      ]

  -- An answer of the signer goes to its coordinator.
  unfoldable pub speak :
      Roast → RoastSigner × Option (ℕ × RoastSignerResponse) → Roast × Option RoastAction
  speak r (s, none) = (record r { signer = s }, none)
  speak r (s, some (c, response)) = (record r { signer = s }, some (send c (signature response)))

  -- The turn of the signer: a commitment for each coordinator, then the answers.
  unfoldable pub participate : Roast → Outcome (Roast × Option RoastAction)
  participate r = elim (pop_last r.coordinators) [
    | some (rest, last) ↦
        let made = Signer.commit frost r.signer last.0 in
        ok (record r { signer = made.0; coordinators = rest }, some (send last.0 (commit made.1)))
    | none ↦ Signer.message frost r.signer >>= λ x. ok (speak r x)
  ]

  unfoldable pub next_action : Roast → Outcome (Roast × Option RoastAction)
  next_action r = elim r.coordinator [
    | none ↦ participate r
    | some c ↦
        let turn = coordinate r c in
        elim turn.1 [ none ↦ participate turn.0 | some action ↦ ok (turn.0, some action) ]
  ]
