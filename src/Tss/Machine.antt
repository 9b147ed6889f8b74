-- ===== src/Tss/Machine.antt =====
-- tss/src/lib.rs: Tss, one member of a shard, from the key generation to the signing sessions.
use timechain.Prelude.{
  ℕ, ◌+◌, Bool, true, false, none, some, List, [], ◌∷◌, map, ◌==◌, not, if◌then◌else◌, length, take,
  wrapping_add, wrapping_sub, u64_mod,
}
use timechain.Storage.{Map, get, remove, contains_key}
use timechain.BTree.{Keys, insert}
use timechain.Outcome.{Outcome, ok, panic}
use timechain.Tss.Frost.{Frost}
use timechain.Tss.Dkg
use timechain.Tss.Dkg.{Dkg, DkgAction}
use timechain.Tss.Roast
use timechain.Tss.Roast.{Roast, RoastAction, RoastMessage}

pub data TssMessage : Type 0 where
  dkg : ℕ → TssMessage
  roast : ℕ → RoastMessage → TssMessage

pub data TssAction : Type 0 where
  send : List (ℕ × TssMessage) → TssAction
  commit : ℕ → ℕ → TssAction
  ready : ℕ → ℕ → ℕ → TssAction
  signature : ℕ → ℕ → ℕ → TssAction

pub data TssState : Type 0 where
  generating : Dkg → TssState
  signing : ℕ → ℕ → Map Roast → TssState
  failed : TssState

-- Peers are read as numbers; `streams` counts the streams of the random source that were given out.
pub record Tss : Type 0 where
  pub peer_id : ℕ
  pub frost_id : ℕ
  pub frost_to_peer : Map ℕ
  pub threshold : ℕ
  pub coordinators : Keys
  pub state : TssState
  pub committed : Bool
  pub streams : ℕ

-- What the pump of one session ends with.
pub data Pumped : Type 0 where
  quiet : Pumped
  sent : List ℕ → RoastMessage → Pumped
  signed : ℕ → ℕ → Pumped
  exhausted : Pumped

-- `ToFrostIdentifier`.
module _ (to_frost : ℕ → ℕ) where
  abbrev pub identify : List ℕ → Map ℕ → Map ℕ
  identify [] m = m
  identify (p ∷ ps) m = identify ps (insert m (to_frost p) p)

  abbrev pub to_set : Map ℕ → Keys
  to_set m = map (λ e. (e.0, tt)) m

  -- `new` for a member that does not recover its share.
  abbrev pub new : ℕ → List ℕ → ℕ → Tss
  new peer_id members threshold =
      let frost_to_peer = identify members [] in
      let ids = to_set frost_to_peer in
      let count = wrapping_add u64_mod (wrapping_sub u64_mod (length ids) threshold) 1 in
      record {
        peer_id = peer_id;
        frost_id = to_frost peer_id;
        frost_to_peer = frost_to_peer;
        threshold = threshold;
        coordinators = take count ids;
        state = generating (Dkg.new (to_frost peer_id) ids threshold 0);
        committed = false;
        streams = 1;
      }

  module _ (frost : Frost) where
    -- `new` with a share that was stored: `expect` and `unwrap` panic.
    unfoldable pub recover : ℕ → List ℕ → ℕ → ℕ → ℕ → Outcome Tss
    recover peer_id members threshold share commitment =
        let t = new peer_id members threshold in
        elim (frost.key_package t.frost_id share commitment) [
          | none ↦ panic
          | some key_package ↦ elim (frost.public_key_package (to_set t.frost_to_peer) commitment) [
            | none ↦ panic
            | some public_key_package ↦
                ok
                  (record t { state = signing key_package public_key_package []; committed = true })
          ]
        ]

    -- A message to the state: whether it fits the state is tested last.
    unfoldable pub receive : TssState → ℕ → TssMessage → TssState
    receive (generating d) peer (dkg msg) = generating (Dkg.on_message d peer msg)
    receive (generating d) peer (roast id msg) = generating d
    receive (signing key pkp sessions) peer (dkg msg) = signing key pkp sessions
    receive (signing key pkp sessions) peer (roast id msg) = elim (get sessions id) [
      | none ↦ signing key pkp sessions
      | some session ↦
          signing key pkp (insert sessions id (Roast.on_message frost session peer msg))
    ]
    receive failed peer msg = failed

    unfoldable pub on_message : Tss → ℕ → TssMessage → Tss
    on_message t peer_id msg =
        if t.peer_id == peer_id
        then t
        else if not (contains_key t.frost_to_peer (to_frost peer_id))
        then t
        else record t { state = receive t.state (to_frost peer_id) msg }

abbrev pub take_commitment : Tss → TssState → ℕ → Tss
take_commitment t (generating d) commitment = record t {
  state = generating (Dkg.on_commit d commitment);
  committed = true;
}
take_commitment t (signing key pkp sessions) commitment = t
take_commitment t failed commitment = t

abbrev pub on_commit : Tss → ℕ → Tss
on_commit t commitment = take_commitment t t.state commitment

-- `get_or_insert_session` and then a change of the session; nothing where there are no sessions.
abbrev pub with_session : Tss → TssState → ℕ → (Roast → Roast) → Tss
with_session t (generating d) id f = t
with_session t (signing key pkp sessions) id f = elim (get sessions id) [
  | some session ↦ record t { state = signing key pkp (insert sessions id (f session)) }
  | none ↦
      let session = Roast.new t.frost_id t.threshold key pkp t.coordinators t.streams in
      record t { state = signing key pkp (insert sessions id (f session)); streams = t.streams + 1 }
]
with_session t failed id f = t

abbrev pub on_start : Tss → ℕ → Tss
on_start t id = with_session t t.state id (λ session. session)

abbrev pub on_sign : Tss → ℕ → List ℕ → Tss
on_sign t id bytes = with_session t t.state id (λ session. Roast.set_data session bytes)

abbrev pub drop_session : Tss → TssState → ℕ → Tss
drop_session t (generating d) id = t
drop_session t (signing key pkp sessions) id = record t {
  state = signing key pkp (remove sessions id);
}
drop_session t failed id = t

abbrev pub on_complete : Tss → ℕ → Tss
on_complete t id = drop_session t t.state id
