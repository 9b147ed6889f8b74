-- ===== src/Tss/Actions.antt =====
-- tss/src/lib.rs: Tss::next_action, which drives the key generation and the signing sessions.
pub mod Termination
use timechain.Prelude.{
  ℕ, zero, suc, Bool, true, false, Option, none, some, List, [], ◌∷◌, map, ◌==◌, not, if◌then◌else◌,
  length, retain, is_empty,
}
use timechain.Storage.{Map, get, keys}
use timechain.BTree.{insert}
use timechain.Outcome.{Outcome, ok, panic, ◌>>=◌}
use timechain.Tss.Frost.{Frost}
use timechain.Tss.Dkg
use timechain.Tss.Dkg.{Dkg, DkgAction}
use timechain.Tss.Roast
use timechain.Tss.Roast.{Roast, RoastAction, RoastMessage}
use timechain.Tss.Machine.{Tss, TssState, TssMessage, TssAction, Pumped}

-- `frost_to_peer` of each identifier: an unknown one panics.
unfoldable pub to_peers : Map ℕ → List ℕ → Outcome (List ℕ)
to_peers m [] = ok []
to_peers m (id ∷ ids) = elim (get m id) [
  | none ↦ panic
  | some peer ↦ to_peers m ids >>= λ peers. ok (peer ∷ peers)
]

-- The peers of an action that are not this member.
abbrev pub others : ℕ → List ℕ → List ℕ
others frost_id peers = retain (λ peer. not (peer == frost_id)) peers

-- The messages of the key generation with the peers that they go to.
unfoldable pub address : List ℕ → List ℕ → List (ℕ × TssMessage)
address [] msgs = []
address (p ∷ ps) [] = []
address (p ∷ ps) (m ∷ ms) = (p, TssMessage.dkg m) ∷ address ps ms

module _ (frost : Frost) where
  unfoldable pub to_self : Bool → Roast → ℕ → RoastMessage → Roast
  to_self true r frost_id msg = Roast.on_message frost r frost_id msg
  to_self false r frost_id msg = r

  -- What the loop does with an action; `go` goes on with the session.
  unfoldable pub react :
      (Roast → Outcome (Roast × Pumped)) → ℕ → Roast × Option RoastAction → Outcome (Roast × Pumped)
  react go frost_id (r, none) = ok (r, Pumped.quiet)
  react go frost_id (r, some (RoastAction.complete hash s)) = ok (r, Pumped.signed hash s)
  react go frost_id (r, some (RoastAction.send peer msg)) =
      let own = peer == frost_id in
      let r' = to_self own r frost_id msg in
      if own then go r' else ok (r', Pumped.sent (peer ∷ []) msg)
  react go frost_id (r, some (RoastAction.send_many all_peers msg)) =
      let peers = others frost_id all_peers in
      let own = not (length peers == length all_peers) in
      let r' = to_self own r frost_id msg in
      if is_empty peers then go r' else ok (r', Pumped.sent peers msg)

  -- The loop `while let Some(action) = session.next_action()` over one session.
  unfoldable pub pump : ℕ → ℕ → Roast → Outcome (Roast × Pumped)
  pump zero frost_id r = ok (r, Pumped.exhausted)
  pump (suc fuel) frost_id r =
      Roast.next_action frost r >>= λ x. react (pump fuel frost_id) frost_id x

  -- The session as the pump left it; `go` goes on with the other sessions.
  unfoldable pub settle :
      (Map Roast → Outcome (Map Roast × Option (ℕ × Pumped)))
      → Map Roast
      → ℕ
      → Roast × Pumped
      → Outcome (Map Roast × Option (ℕ × Pumped))
  settle go sessions id (r, Pumped.quiet) = go (insert sessions id r)
  settle go sessions id (r, Pumped.sent peers msg) =
      ok (insert sessions id r, some (id, Pumped.sent peers msg))
  settle go sessions id (r, Pumped.signed hash s) =
      ok (insert sessions id r, some (id, Pumped.signed hash s))
  settle go sessions id (r, Pumped.exhausted) =
      ok (insert sessions id r, some (id, Pumped.exhausted))

  -- The loop over the sessions, up to the first that has something for the outside.
  unfoldable pub pump_all : ℕ → ℕ → Map Roast → List ℕ → Outcome (Map Roast × Option (ℕ × Pumped))
  pump_all fuel frost_id sessions [] = ok (sessions, none)
  pump_all fuel frost_id sessions (id ∷ ids) = elim (get sessions id) [
    | none ↦ panic
    | some session ↦
        pump fuel frost_id session >>= λ x. settle (λ m. pump_all fuel frost_id m ids) sessions id x
  ]

  -- `DkgAction` to `TssAction`, with the state after it.
  unfoldable pub generate : Tss → Dkg → DkgAction → Outcome (Tss × Option TssAction)
  generate t d (DkgAction.send msgs) = to_peers t.frost_to_peer (map (λ m. m.0) msgs) >>= λ peers.
      ok (
        record t { state = TssState.generating d },
        some (TssAction.send (address peers (map (λ m. m.1) msgs))),
      )
  generate t d (DkgAction.commit commitment proof) =
      ok (record t { state = TssState.generating d }, some (TssAction.commit commitment proof))
  generate t d (DkgAction.complete key pkp commitment) = ok (
    record t { state = TssState.signing key pkp [] },
    some (TssAction.ready (frost.signing_share key) commitment (frost.verifying_key pkp)),
  )
  generate t d DkgAction.failure = ok (record t { state = TssState.failed }, none)

  -- The result of the sessions; `none` in the place of the action means that the fuel ran out.
  unfoldable pub deliver : Tss → Option (ℕ × Pumped) → Outcome (Tss × Option (Option TssAction))
  deliver t none = ok (t, some none)
  deliver t (some (id, Pumped.quiet)) = ok (t, some none)
  deliver t (some (id, Pumped.exhausted)) = ok (t, none)
  deliver t (some (id, Pumped.signed hash s)) = ok (t, some (some (TssAction.signature id hash s)))
  deliver t (some (id, Pumped.sent ids msg)) = to_peers t.frost_to_peer ids >>= λ peers.
      ok (t, some (some (TssAction.send (map (λ peer. (peer, TssMessage.roast id msg)) peers))))

  -- The key generation after one of its actions.
  unfoldable pub advance : Tss → Dkg × Option DkgAction → Outcome (Tss × Option (Option TssAction))
  advance t (d, none) = ok (record t { state = TssState.generating d }, some none)
  advance t (d, some action) = generate t d action >>= λ y. ok (y.0, some y.1)

  unfoldable pub act : ℕ → Tss → TssState → Outcome (Tss × Option (Option TssAction))
  act fuel t (TssState.generating d) = Dkg.next_action frost d >>= λ x. advance t x
  act fuel t (TssState.signing key pkp sessions) =
      pump_all fuel t.frost_id sessions (keys sessions) >>= λ x.
      deliver (record t { state = TssState.signing key pkp x.0 }) x.1
  act fuel t TssState.failed = ok (t, some none)

  abbrev pub next_action : ℕ → Tss → Outcome (Tss × Option (Option TssAction))
  next_action fuel t = act fuel t t.state
