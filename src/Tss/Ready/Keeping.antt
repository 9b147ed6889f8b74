-- ===== src/Tss/Ready/Keeping.antt =====
-- Every event of Tss of tss/src/lib.rs keeps what is known of the key generation.
use timechain.Prelude.{
  ℕ, ◌≡◌, refl, sym, ap, ◌∙◌, true, Option, none, some, List, [], ◌∷◌, map, arith, length, subst,
}
use timechain.Storage.{contains_key, Unique, keys}
use timechain.Outcome.{ok, After, After-bind, After-any}
use timechain.Tss.Frost.{Frost}
use timechain.Tss.Dkg
use timechain.Tss.Dkg.{Dkg, DkgAction}
use timechain.Tss.Roast
use timechain.Tss.Roast.{Roast}
use timechain.Tss.Machine.{Tss, TssState, TssMessage, TssAction, Pumped}
use timechain.Tss.Actions.{
  to_peers, address, pump_all, generate, advance, deliver, act, next_action,
}
use timechain.Tss.KeyGeneration.{Same, next_action-Same}
use timechain.Tss.Ready.{
  Event, hear, agree, start, sign, complete, turn, step, run, Among, StateIsValid, IsValid,
}
use timechain.Tss.Ready.Hearing.{
  on_message-IsValid, take_commitment-IsValid, with_session-IsValid, drop_session-IsValid,
}

module _ (to_frost : ℕ → ℕ) (frost : Frost)
    (apart : (p q : ℕ) → to_frost p ≡ to_frost q → p ≡ q) where
  generate-IsValid :
      (t : Tss) (d : Dkg) (a : DkgAction)
      → Among t d
      → t.frost_id ≡ to_frost t.peer_id
      → After (λ y. IsValid to_frost y.0) (generate frost t d a)
  unfolding generate
  generate-IsValid t d (DkgAction.send msgs) v f =
      After-bind (λ _. Unit {0}) (λ y. IsValid to_frost y.0)
        (to_peers t.frost_to_peer (map (λ m. m.0) msgs))
        (λ peers. ok (
          record t { state = TssState.generating d },
          some (TssAction.send (address peers (map (λ m. m.1) msgs))),
        ))
        (After-any (to_peers t.frost_to_peer (map (λ m. m.0) msgs)))
        (λ peers _. record {
          state = record { dkg = v.dkg; id = v.id; known = v.known };
          frost_id = f;
        })
  generate-IsValid t d (DkgAction.commit c proof) v f = record {
    state = record { dkg = v.dkg; id = v.id; known = v.known };
    frost_id = f;
  }
  generate-IsValid t d (DkgAction.complete key pkp c) v f = record { state = tt; frost_id = f }
  generate-IsValid t d DkgAction.failure v f = record { state = tt; frost_id = f }

  Among-Same : (t : Tss) (d d' : Dkg) → Same frost d d' → Among t d → Among t d'
  Among-Same t d d' s v = record {
    dkg = record {
      members = subst Unique (sym s.members) v.dkg.members;
      own = let e : contains_key d'.members d'.id ≡ true = rw (s.members, s.id) v.dkg.own in e;
      few = omega (arith, v.dkg.few, ap length s.members);
      unique = subst Unique (sym s.packages) v.dkg.unique;
      others = rw (s.packages, s.members, s.id) v.dkg.others;
    };
    id = s.id ∙ v.id;
    known = λ j h. rw s.members (v.known j h);
  }

  advance-IsValid :
      (t : Tss) (x : Dkg × Option DkgAction)
      → Among t x.0
      → t.frost_id ≡ to_frost t.peer_id
      → After (λ y. IsValid to_frost y.0) (advance frost t x)
  unfolding advance
  advance-IsValid t (d, none) v f = record {
    state = record { dkg = v.dkg; id = v.id; known = v.known };
    frost_id = f;
  }
  advance-IsValid t (d, some a) v f =
      After-bind (λ y. IsValid to_frost y.0) (λ y. IsValid to_frost y.0) (generate frost t d a)
        (λ y. ok (y.0, some y.1)) (generate-IsValid t d a v f) (λ y w. w)

  deliver-IsValid :
      (t : Tss) (x : Option (ℕ × Pumped))
      → IsValid to_frost t
      → After (λ y. IsValid to_frost y.0) (deliver frost t x)
  unfolding deliver
  deliver-IsValid t none v = v
  deliver-IsValid t (some (id, Pumped.quiet)) v = v
  deliver-IsValid t (some (id, Pumped.exhausted)) v = v
  deliver-IsValid t (some (id, Pumped.signed h x)) v = v
  deliver-IsValid t (some (id, Pumped.sent ids msg)) v =
      After-bind (λ _. Unit {0}) (λ y. IsValid to_frost y.0) (to_peers t.frost_to_peer ids)
        (λ peers.
          ok
            (t, some (some (TssAction.send (map (λ peer. (peer, TssMessage.roast id msg)) peers)))))
        (After-any (to_peers t.frost_to_peer ids)) (λ peers _. v)

  act-IsValid :
      (fuel : ℕ) (t : Tss) (s : TssState)
      → StateIsValid t s
      → IsValid to_frost t
      → After (λ y. IsValid to_frost y.0) (act frost fuel t s)
  unfolding act
  act-IsValid fuel t (TssState.generating d) a v =
      After-bind (λ x. Same frost d x.0) (λ y. IsValid to_frost y.0) (Dkg.next_action frost d)
        (advance frost t) (next_action-Same frost d)
        (λ x h. advance-IsValid t x (Among-Same t d x.0 h a) v.frost_id)
  act-IsValid fuel t (TssState.signing key pkp m) a v =
      After-bind (λ _. Unit {0}) (λ y. IsValid to_frost y.0)
        (pump_all frost fuel t.frost_id m (keys m))
        (λ x. deliver frost (record t { state = TssState.signing key pkp x.0 }) x.1)
        (After-any (pump_all frost fuel t.frost_id m (keys m)))
        (λ x _.
          deliver-IsValid (record t { state = TssState.signing key pkp x.0 }) x.1
            (record { state = tt; frost_id = v.frost_id }))
  act-IsValid fuel t TssState.failed a v = v

  step-IsValid :
      (t : Tss) (e : Event)
      → IsValid to_frost t
      → After (IsValid to_frost) (step to_frost frost t e)
  unfolding step
  step-IsValid t (hear peer msg) v = on_message-IsValid to_frost frost apart t peer msg v
  step-IsValid t (agree c) v =
      take_commitment-IsValid to_frost frost apart t t.state c v.state refl v.frost_id
  step-IsValid t (start id) v =
      with_session-IsValid to_frost frost apart t t.state id (λ session. session) v
  step-IsValid t (sign id bytes) v =
      with_session-IsValid to_frost frost apart t t.state id
        (λ session. Roast.set_data session bytes) v
  step-IsValid t (complete id) v = drop_session-IsValid to_frost frost apart t t.state id v
  step-IsValid t (turn fuel) v =
      After-bind (λ y. IsValid to_frost y.0) (IsValid to_frost) (next_action frost fuel t)
        (λ x. ok x.0) (act-IsValid fuel t t.state v.state v) (λ y w. w)

  pub run-IsValid :
      (t : Tss) (es : List Event)
      → IsValid to_frost t
      → After (IsValid to_frost) (run to_frost frost t es)
  unfolding run
  run-IsValid t [] v = v
  run-IsValid t (e ∷ es) v =
      let ih = λ (t' : Tss) (w : IsValid to_frost t'). run-IsValid t' es w in
      After-bind (IsValid to_frost) (IsValid to_frost) (step to_frost frost t e)
        (λ t'. run to_frost frost t' es) (step-IsValid t e v) ih
