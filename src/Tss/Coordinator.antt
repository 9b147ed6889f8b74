-- ===== src/Tss/Coordinator.antt =====
-- tss/src/roast.rs: RoastSession and RoastCoordinator, which gather commitments and shares.
pub mod Sessions
pub mod Keeping
pub mod Runs
use timechain.Prelude.{
  ℕ, zero, suc, ◌%◌, Option, none, some, List, [], ◌∷◌, Bool, true, false, ltb, ◌==◌, if◌then◌else◌,
  length, wrapping_add, u16_mod,
}
use timechain.Storage
use timechain.Storage.{Map, get, remove, contains_key}
use timechain.BTree
use timechain.BTree.{Keys, insert, pop_last}
use timechain.Tss.Signer.{RoastSignerRequest, RoastSignerResponse}

-- The shares are in a `HashMap`.
pub record RoastSession : Type 0 where
  pub commitments : Map ℕ
  pub signature_shares : Map ℕ

unfoldable pub on_signature_share : RoastSession → ℕ → ℕ → RoastSession
on_signature_share s peer share =
    if contains_key s.commitments peer
    then record s { signature_shares = Storage.insert s.signature_shares peer share }
    else s

abbrev pub is_complete : RoastSession → Bool
is_complete s = length s.commitments == length s.signature_shares

pub record RoastCoordinator : Type 0 where
  pub threshold : ℕ
  pub session_id : ℕ
  pub commitments : Map ℕ
  pub sessions : Map RoastSession
  pub committed : Keys

abbrev pub new : ℕ → RoastCoordinator
new threshold = record {
  threshold = threshold;
  session_id = 0;
  commitments = [];
  sessions = [];
  committed = [];
}

unfoldable pub on_commit : RoastCoordinator → ℕ → ℕ → RoastCoordinator
on_commit c peer commitment = if contains_key c.committed peer then c else record c {
  commitments = insert c.commitments peer commitment;
  committed = insert c.committed peer tt;
}

unfoldable pub on_response : RoastCoordinator → ℕ → RoastSignerResponse → RoastCoordinator
on_response c peer response = elim (get c.sessions response.session_id) [
  | none ↦ c
  | some session ↦ record c {
    commitments = insert c.commitments peer response.commitment;
    sessions =
        insert c.sessions response.session_id
          (on_signature_share session peer response.signature_share);
  }
]

-- `while commitments.len() > threshold`: the last entries go back. `pop_last` is `some` there, so the
-- length of the map is enough fuel.
unfoldable pub trim : ℕ → ℕ → Map ℕ → Map ℕ → Map ℕ × Map ℕ
trim zero threshold commitments back = (commitments, back)
trim (suc fuel) threshold commitments back = elim (ltb threshold (length commitments)) [
  | false ↦ (commitments, back)
  | true ↦ elim (pop_last commitments) [
    | none ↦ (commitments, back)
    | some (rest, last) ↦ trim fuel threshold rest (insert back last.0 last.1)
  ]
]

unfoldable pub start_session : RoastCoordinator → RoastCoordinator × Option RoastSignerRequest
start_session c =
    let (taken, back) = trim (length c.commitments) c.threshold c.commitments [] in
    if ltb (length c.commitments) c.threshold then (c, none) else (
      record c {
        session_id = wrapping_add u16_mod c.session_id 1;
        commitments = back;
        sessions =
            insert c.sessions c.session_id (record { commitments = taken; signature_shares = [] });
      },
      some (record { session_id = c.session_id; commitments = taken }),
    )

-- The id of the first complete session.
unfoldable pub first_complete : Map RoastSession → Option ℕ
first_complete [] = none
first_complete ((id, s) ∷ sessions) = if is_complete s then some id else first_complete sessions

unfoldable pub aggregate_signature : RoastCoordinator → RoastCoordinator × Option RoastSession
aggregate_signature c = elim (first_complete c.sessions) [
  | none ↦ (c, none)
  | some id ↦ (record c { sessions = remove c.sessions id }, get c.sessions id)
]
