-- ===== src/Tss/Ready/Hearing.antt =====
-- What Tss of tss/src/lib.rs is told keeps what is known of the key generation.
use timechain.Prelude.{
  ℕ, ◌+◌, ◌≡◌, ◌≢◌, refl, sym, ◌∙◌, true, [], ◌∷◌, arith, ◌==◌, Option-cases, Bool-cases, inl, inr,
  subst,
}
use timechain.Storage
use timechain.Storage.{Map, get, remove, contains_key, Unique, insert-Unique, get-remove, keys}
use timechain.BTree
use timechain.BTree.{Keys, Sorted, Sorted-insert, Sorted-Unique, Within}
use timechain.Tss.Frost.{Frost}
use timechain.Tss.Dkg
use timechain.Tss.Dkg.{Dkg, DkgAction}
use timechain.Tss.Roast
use timechain.Tss.Roast.{Roast}
use timechain.Tss.Machine.{
  Tss, TssState, TssMessage, receive, on_message, take_commitment, with_session, drop_session,
}
use timechain.Tss.KeyGeneration.{DkgIsValid}
use timechain.Tss.Ready.{StateIsValid, IsValid}

Within-insert :
    (m : Map ℕ) (c : Keys) (k v : ℕ)
    → contains_key c k ≡ true
    → Within m c
    → Within (Storage.insert m k v) c
unfolding Storage.insert
Within-insert [] c k v h w = (h, tt)
Within-insert ((j, x) ∷ m) c k v h w = ground (arith, Within-insert m c k v h w.1)

on_message-DkgIsValid :
    (d : Dkg) (peer msg : ℕ)
    → DkgIsValid d
    → contains_key d.members peer ≡ true
    → peer ≢ d.id
    → DkgIsValid (Dkg.on_message d peer msg)
on_message-DkgIsValid d peer msg v member other = record {
  members = v.members;
  own = v.own;
  few = v.few;
  unique = insert-Unique d.round2_packages peer msg v.unique;
  others =
      Within-insert d.round2_packages (remove d.members d.id) peer msg
        (ground (arith, get-remove d.members d.id peer)) v.others;
}

module _ (to_frost : ℕ → ℕ) (frost : Frost)
    (apart : (p q : ℕ) → to_frost p ≡ to_frost q → p ≡ q) where
  receive-IsValid :
      (t : Tss) (s : TssState) (peer : ℕ) (msg : TssMessage)
      → contains_key t.frost_to_peer peer ≡ true
      → peer ≢ t.frost_id
      → StateIsValid t s
      → StateIsValid t (receive to_frost frost s peer msg)
  unfolding receive
  receive-IsValid t (TssState.generating d) peer (TssMessage.dkg msg) member other v = record {
    dkg = on_message-DkgIsValid d peer msg v.dkg (v.known peer member) (λ e. other (e ∙ v.id));
    id = v.id;
    known = v.known;
  }
  receive-IsValid t (TssState.generating d) peer (TssMessage.roast id msg) member other v = v
  receive-IsValid t (TssState.signing key pkp m) peer (TssMessage.dkg msg) member other v = tt
  receive-IsValid t (TssState.signing key pkp m) peer (TssMessage.roast id msg) member other v =
      elim (Option-cases (get m id)) [
        | inl gone ↦
            let same : receive to_frost frost (TssState.signing key pkp m) peer
                  (TssMessage.roast id msg)
                ≡ TssState.signing key pkp m =
              ground (arith, gone) in
            subst (StateIsValid t) (sym same) tt
        | inr (r, there) ↦
            let same : receive to_frost frost (TssState.signing key pkp m) peer
                  (TssMessage.roast id msg)
                ≡ TssState.signing key pkp (BTree.insert m id (Roast.on_message frost r peer msg)) =
              ground (arith, there) in
            subst (StateIsValid t) (sym same) tt
      ]
  receive-IsValid t TssState.failed peer msg member other v = tt

  -- A record with the same members and another state.
  other_state :
      (t t' : Tss) (s : TssState)
      → t'.frost_id ≡ t.frost_id
      → t'.frost_to_peer ≡ t.frost_to_peer
      → StateIsValid t s
      → StateIsValid t' s
  other_state t t' (TssState.generating d) e f v = record {
    dkg = v.dkg;
    id = v.id ∙ sym e;
    known = λ j h. v.known j (subst (λ m. contains_key m j ≡ true) f h);
  }
  other_state t t' (TssState.signing key pkp m) e f v = tt
  other_state t t' TssState.failed e f v = tt

  pub on_message-IsValid :
      (t : Tss) (peer : ℕ) (msg : TssMessage)
      → IsValid to_frost t
      → IsValid to_frost (on_message to_frost frost t peer msg)
  on_message-IsValid t peer msg v = elim (Bool-cases (t.peer_id == peer)) [
    | inl self ↦
        let same : on_message to_frost frost t peer msg ≡ t =
          unfold on_message in ground (arith, self) in
        subst (IsValid to_frost) (sym same) v
    | inr other ↦ elim (Bool-cases (contains_key t.frost_to_peer (to_frost peer))) [
      | inr stranger ↦
          let same : on_message to_frost frost t peer msg ≡ t =
            unfold on_message in ground (arith, other, stranger) in
          subst (IsValid to_frost) (sym same) v
      | inl member ↦
          let s = receive to_frost frost t.state (to_frost peer) msg in
          let same : on_message to_frost frost t peer msg ≡ record t { state = s } =
            unfold on_message in ground (arith, other, member) in
          let foreign : to_frost peer ≢ t.frost_id = λ e.
            let p : t.peer_id ≡ peer = sym (apart peer t.peer_id (e ∙ v.frost_id)) in
            ground (arith, p, other) in
          let w = receive-IsValid t t.state (to_frost peer) msg member foreign v.state in
          subst (IsValid to_frost) (sym same) (record {
            state = other_state t (record t { state = s }) s refl refl w;
            frost_id = v.frost_id;
          })
    ]
  ]

  pub take_commitment-IsValid :
      (t : Tss) (s : TssState) (commitment : ℕ)
      → StateIsValid t s
      → t.state ≡ s
      → t.frost_id ≡ to_frost t.peer_id
      → IsValid to_frost (take_commitment t s commitment)
  take_commitment-IsValid t (TssState.generating d) commitment v e f = record {
    state = record {
      dkg = record {
        members = v.dkg.members;
        own = v.dkg.own;
        few = v.dkg.few;
        unique = v.dkg.unique;
        others = v.dkg.others;
      };
      id = v.id;
      known = v.known;
    };
    frost_id = f;
  }
  take_commitment-IsValid t (TssState.signing key pkp m) commitment v e f = record {
    state = subst (StateIsValid t) (sym e) tt;
    frost_id = f;
  }
  take_commitment-IsValid t TssState.failed commitment v e f = record {
    state = subst (StateIsValid t) (sym e) tt;
    frost_id = f;
  }

  pub with_session-IsValid :
      (t : Tss) (s : TssState) (id : ℕ) (f : Roast → Roast)
      → IsValid to_frost t
      → IsValid to_frost (with_session t s id f)
  with_session-IsValid t (TssState.generating d) id f v = v
  with_session-IsValid t (TssState.signing key pkp m) id f v = elim (Option-cases (get m id)) [
    | inl gone ↦
        let session = Roast.new t.frost_id t.threshold key pkp t.coordinators t.streams in
        let after : Tss = record t {
          state = TssState.signing key pkp (BTree.insert m id (f session));
          streams = t.streams + 1;
        } in
        let same : with_session t (TssState.signing key pkp m) id f ≡ after =
          ground (arith, gone) in
        subst (IsValid to_frost) (sym same) (record { state = tt; frost_id = v.frost_id })
    | inr (r, there) ↦
        let after : Tss = record t { state = TssState.signing key pkp (BTree.insert m id (f r)) } in
        let same : with_session t (TssState.signing key pkp m) id f ≡ after =
          ground (arith, there) in
        subst (IsValid to_frost) (sym same) (record { state = tt; frost_id = v.frost_id })
  ]
  with_session-IsValid t TssState.failed id f v = v

  pub drop_session-IsValid :
      (t : Tss) (s : TssState) (id : ℕ)
      → IsValid to_frost t
      → IsValid to_frost (drop_session t s id)
  drop_session-IsValid t (TssState.generating d) id v = v
  drop_session-IsValid t (TssState.signing key pkp m) id v = record {
    state = tt;
    frost_id = v.frost_id;
  }
  drop_session-IsValid t TssState.failed id v = v
