-- ===== src/Tss/Ready/Shares.antt =====
-- What a member of tss/src/lib.rs has when it announces that it is ready.
use timechain.Prelude.{
  ℕ, ◌<◌, ◌≡◌, ◌≢◌, refl, ap, ◌∙◌, true, Option, none, some, List, [], map, arith, length, contains,
  u64_mod,
}
use timechain.Storage.{keys}
use timechain.Outcome.{ok, After_ok, bind_ok}
use timechain.Tss.Frost.{Frost}
use timechain.Tss.Dkg
use timechain.Tss.Dkg.{Dkg, DkgAction}
use timechain.Tss.Machine.{Tss, TssState, TssMessage, TssAction, Pumped, new}
use timechain.Tss.Actions.{
  to_peers, address, pump_all, generate, advance, deliver, act, next_action,
}
use timechain.Tss.KeyGeneration.{Done, next_action-Done}
use timechain.Tss.Ready.{Event, run, StateIsValid, IsValid}
use timechain.Tss.Ready.Keeping.{run-IsValid}
use timechain.Tss.Ready.Members.{new-IsValid}

module _ (frost : Frost) where
  generate-ready :
      (t t' : Tss) (d : Dkg) (a : DkgAction) (share c vk : ℕ)
      → generate frost t d a ≡ ok (t', some (TssAction.ready share c vk))
      → (key : ℕ) × (pkp : ℕ) × (a ≡ DkgAction.complete key pkp c)
        × (share ≡ frost.signing_share key)
        × (vk ≡ frost.verifying_key pkp)
        × (t'.state ≡ TssState.signing key pkp [])
  unfolding generate
  generate-ready t t' d (DkgAction.send msgs) share c vk h =
      let (peers, p, q) =
        bind_ok {B = Tss × Option TssAction} (to_peers t.frost_to_peer (map (λ m. m.0) msgs))
          (λ peers. ok (
            record t { state = TssState.generating d },
            some (TssAction.send (address peers (map (λ m. m.1) msgs))),
          ))
          h in
      absurd (ground arith)
  generate-ready t t' d (DkgAction.commit b proof) share c vk h = absurd (ground arith)
  generate-ready t t' d (DkgAction.complete key pkp b) share c vk h =
      (key, pkp, ground arith, ground arith, ground arith, ground arith)
  generate-ready t t' d DkgAction.failure share c vk h = absurd (ground arith)

  advance-ready :
      (t t' : Tss) (x : Dkg × Option DkgAction) (share c vk : ℕ)
      → advance frost t x ≡ ok (t', some (some (TssAction.ready share c vk)))
      → (key : ℕ) × (pkp : ℕ) × (x.1 ≡ some (DkgAction.complete key pkp c))
        × (share ≡ frost.signing_share key)
        × (vk ≡ frost.verifying_key pkp)
        × (t'.state ≡ TssState.signing key pkp [])
  unfolding advance
  advance-ready t t' (d, none) share c vk h = absurd (ground arith)
  advance-ready t t' (d, some a) share c vk h =
      let (y, p, q) =
        bind_ok {B = Tss × Option (Option TssAction)} (generate frost t d a)
          (λ y. ok (y.0, some y.1)) h in
      let e : y ≡ (t', some (TssAction.ready share c vk)) = ground arith in
      let (key, pkp, l, m, n, o) = generate-ready t t' d a share c vk (p ∙ ap ok e) in
      (key, pkp, ap some l, m, n, o)

  deliver-ready :
      (t t' : Tss) (x : Option (ℕ × Pumped)) (share c vk : ℕ)
      → deliver frost t x ≢ ok (t', some (some (TssAction.ready share c vk)))
  unfolding deliver
  deliver-ready t t' none share c vk h = ground arith
  deliver-ready t t' (some (id, Pumped.quiet)) share c vk h = ground arith
  deliver-ready t t' (some (id, Pumped.exhausted)) share c vk h = ground arith
  deliver-ready t t' (some (id, Pumped.signed hash x)) share c vk h = ground arith
  deliver-ready t t' (some (id, Pumped.sent ids msg)) share c vk h =
      let (peers, p, q) =
        bind_ok {B = Tss × Option (Option TssAction)} (to_peers t.frost_to_peer ids)
          (λ peers.
            ok (
              t,
              some (some (TssAction.send (map (λ peer. (peer, TssMessage.roast id msg)) peers))),
            ))
          h in
      ground arith

  act-ready :
      (fuel : ℕ) (t t' : Tss) (s : TssState) (share c vk : ℕ)
      → StateIsValid t s
      → act frost fuel t s ≡ ok (t', some (some (TssAction.ready share c vk)))
      → (d : Dkg) × (key : ℕ) × (pkp : ℕ) × (s ≡ TssState.generating d)
        × Done frost d key pkp c
        × (share ≡ frost.signing_share key)
        × (vk ≡ frost.verifying_key pkp)
        × (t'.state ≡ TssState.signing key pkp [])
  unfolding act
  act-ready fuel t t' (TssState.generating d) share c vk v h =
      let (x, p, q) = bind_ok (Dkg.next_action frost d) (advance frost t) h in
      let (key, pkp, l, m, n, o) = advance-ready t t' x share c vk q in
      let e : Dkg.next_action frost d ≡ ok (x.0, some (DkgAction.complete key pkp c)) =
        p ∙ ap (λ a. ok (x.0, a)) l in
      (d, key, pkp, refl, next_action-Done frost d x.0 key pkp c v.dkg e, m, n, o)
  act-ready fuel t t' (TssState.signing key pkp m) share c vk v h =
      let (x, p, q) =
        bind_ok (pump_all frost fuel t.frost_id m (keys m))
          (λ x. deliver frost (record t { state = TssState.signing key pkp x.0 }) x.1) h in
      absurd (deliver-ready (record t { state = TssState.signing key pkp x.0 }) t' x.1 share c vk q)
  act-ready fuel t t' TssState.failed share c vk v h = absurd (ground arith)

-- A member that takes part, of fewer than 2 ^ 64 members with distinct identifiers, announces that
-- it is ready, after any events, only out of a key generation in which it has its secret, the
-- commitment of the shard and a package from every other member; its key package is made of the sum
-- of their shares and its own and of that commitment, the announced share and key are those of the
-- packages, and it goes on to sign with these packages and no session.
pub next_action-Done_ready :
    (to_frost : ℕ → ℕ) (frost : Frost)
    → ((p q : ℕ) → to_frost p ≡ to_frost q → p ≡ q)
    → (peer : ℕ) (members : List ℕ) (threshold : ℕ) → contains members peer ≡ true
    → length members < u64_mod
    → (es : List Event) (t : Tss)
    → run to_frost frost (new to_frost peer members threshold) es ≡ ok t
    → (fuel : ℕ) (t' : Tss) (share c vk : ℕ)
    → next_action frost fuel t ≡ ok (t', some (some (TssAction.ready share c vk)))
    → (d : Dkg) × (key : ℕ) × (pkp : ℕ) × (t.state ≡ TssState.generating d)
      × Done frost d key pkp c
      × (share ≡ frost.signing_share key)
      × (vk ≡ frost.verifying_key pkp)
      × (t'.state ≡ TssState.signing key pkp [])
next_action-Done_ready to_frost frost apart peer members threshold member few es t r fuel t' share c
      vk h =
    let first = new to_frost peer members threshold in
    let v =
      After_ok (IsValid to_frost) (run to_frost frost first es)
        (run-IsValid to_frost frost apart first es
          (new-IsValid to_frost peer members threshold member few))
        r in
    act-ready frost fuel t t' t.state share c vk v.state h
