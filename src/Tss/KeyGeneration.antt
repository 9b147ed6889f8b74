-- ===== src/Tss/KeyGeneration.antt =====
-- The key generation of tss/src: a member is ready only with the shares of all the others.
use timechain.Prelude.{
  ℕ, ◌<◌, ◌≡◌, ◌≢◌, refl, sym, ap, ◌∙◌, true, Option, none, some, arith, ◌==◌, length, Option-cases,
  Bool-cases, inl, inr, subst, wrapping_sub, u64_mod, u16_mod, ◌%◌,
}
use timechain.Storage.{remove, contains_key, Unique, get-remove, remove-Unique}
use timechain.BTree.{Within, Within-full, length-remove}
use timechain.Outcome.{Outcome, ok, err, panic, ◌>>=◌, After, bind_ok}
use timechain.Tss.Frost.{Frost}
use timechain.Tss.Dkg.{
  Dkg, DkgAction, open_round1, round2_messages, signing_share, finish, next_action,
}

-- The packages are from other members, one from each at most.
pub record DkgIsValid (d : Dkg) : Type 0 where
  pub members : Unique d.members
  pub own : contains_key d.members d.id ≡ true
  pub few : length d.members < u64_mod
  pub unique : Unique d.round2_packages
  pub others : Within d.round2_packages (remove d.members d.id)

-- What a member has when it is done: its own secret, the commitment of the shard, a package of every
-- other member, and a key package of the sum of the shares.
pub record Done (frost : Frost) (d : Dkg) (key pkp commitment : ℕ) : Type 0 where
  pub secret : ℕ
  pub opened : d.secret_package ≡ some secret
  pub agreed : d.commitment ≡ some commitment
  pub sent : d.sent_round2_packages ≡ true
  pub received :
      (peer : ℕ)
      → contains_key d.members peer ≡ true
      → peer ≢ d.id
      → contains_key d.round2_packages peer ≡ true
  pub key_package : frost.key_package d.id (signing_share frost d secret) commitment ≡ some key
  pub public_key_package : frost.public_key_package d.members commitment ≡ some pkp

module _ (frost : Frost) where
  finish_lem :
      (d : Dkg) (secret c key pkp commitment : ℕ)
      → finish frost d secret c ≡ ok (DkgAction.complete key pkp commitment)
      → (frost.key_package d.id (signing_share frost d secret) c ≡ some key)
        × (frost.public_key_package d.members c ≡ some pkp)
        × (c ≡ commitment)
  unfolding finish
  finish_lem d secret c key pkp commitment h =
      elim (Option-cases (frost.key_package d.id (signing_share frost d secret) c)) [
        | inl bad ↦ absurd (ground (arith, bad))
        | inr (k, good) ↦ elim (Option-cases (frost.public_key_package d.members c)) [
          | inl bad ↦ absurd (ground (arith, good, bad))
          | inr (p, fine) ↦
              (ground (arith, good, fine), ground (arith, good, fine), ground (arith, good, fine))
        ]
      ]

  no_round1 :
      (d d' : Dkg) (key pkp commitment : ℕ)
      → open_round1 frost d ≢ (d', some (DkgAction.complete key pkp commitment))
  unfolding open_round1
  no_round1 d d' key pkp commitment h =
      elim (Option-cases
        (frost.part1 d.id (length d.members % u16_mod) d.threshold d.stream d.draws)) [
          | inl bad ↦ absurd (ground (arith, bad))
          | inr (r, good) ↦ absurd (ground (arith, good))
        ]

  all_received :
      (d : Dkg)
      → DkgIsValid d
      → (length d.round2_packages == wrapping_sub u64_mod (length d.members) 1) ≡ true
      → (peer : ℕ) → contains_key d.members peer ≡ true
      → peer ≢ d.id
      → contains_key d.round2_packages peer ≡ true
  all_received d v full peer member other =
      let shorter = length-remove d.members d.id v.own v.members in
      let same : length (remove d.members d.id) ≡ length d.round2_packages =
        ground (arith, shorter, v.few) in
      Within-full d.round2_packages (remove d.members d.id) v.unique
        (remove-Unique d.members d.id v.members) v.others same peer
        (ground (arith, get-remove d.members d.id peer))

  -- A member that is ready has the package of every other member.
  pub next_action-Done :
      (d d' : Dkg) (key pkp commitment : ℕ)
      → DkgIsValid d
      → next_action frost d ≡ ok (d', some (DkgAction.complete key pkp commitment))
      → Done frost d key pkp commitment
  unfolding next_action
  next_action-Done d d' key pkp commitment v h = elim (Option-cases d.secret_package) [
    | inl unopened ↦ absurd (no_round1 d d' key pkp commitment (ground (arith, unopened)))
    | inr (secret, opened) ↦ elim (Option-cases d.commitment) [
      | inl waiting ↦ absurd (ground (arith, opened, waiting))
      | inr (c, agreed) ↦ elim (Bool-cases d.sent_round2_packages) [
        | inr unsent ↦ absurd (ground (arith, opened, agreed, unsent))
        | inl sent ↦
            elim (Bool-cases
              (length d.round2_packages == wrapping_sub u64_mod (length d.members) 1)) [
                | inr missing ↦ absurd (ground (arith, opened, agreed, sent, missing))
                | inl full ↦
                    let fin : ◌>>=◌ {B = Dkg × Option DkgAction} (finish frost d secret c)
                          (λ action. ok (d, some action))
                        ≡ ok (d', some (DkgAction.complete key pkp commitment)) =
                      ground (arith, opened, agreed, sent, full) in
                    let (action, made, given) =
                      bind_ok {B = Dkg × Option DkgAction} (finish frost d secret c)
                        (λ action. ok (d, some action)) fin in
                    let same : action ≡ DkgAction.complete key pkp commitment = ground arith in
                    let (k, p, e) = finish_lem d secret c key pkp commitment (made ∙ ap ok same) in
                    record {
                      secret = secret;
                      opened = opened;
                      agreed = agreed ∙ ap some e;
                      sent = sent;
                      received = all_received d v full;
                      key_package =
                          subst
                            (λ x.
                              frost.key_package d.id (signing_share frost d secret) x ≡ some key)
                            e k;
                      public_key_package =
                          subst (λ x. frost.public_key_package d.members x ≡ some pkp) e p;
                    }
              ]
      ]
    ]
  ]

  -- What a turn of the key generation leaves alone.
  pub record Same (d d' : Dkg) : Type 0 where
    pub id : d'.id ≡ d.id
    pub members : d'.members ≡ d.members
    pub packages : d'.round2_packages ≡ d.round2_packages

  open_round1-Same : (d : Dkg) → Same d (open_round1 frost d).0
  unfolding open_round1
  open_round1-Same d = record { id = ground arith; members = ground arith; packages = ground arith }

  finish-Same :
      (d : Dkg) (m : Outcome DkgAction)
      → After {A = Dkg × Option DkgAction} (λ x. Same d x.0) (m >>= λ action. ok (d, some action))
  finish-Same d (ok a) = record { id = refl; members = refl; packages = refl }
  finish-Same d (err e) = tt
  finish-Same d panic = tt

  pub next_action-Same : (d : Dkg) → After (λ x. Same d x.0) (next_action frost d)
  next_action-Same d =
      let P = λ (x : Dkg × Option DkgAction). Same d x.0 in
      let here : Same d d = record { id = refl; members = refl; packages = refl } in
      elim (Option-cases d.secret_package) [
        | inl unopened ↦
            let same : next_action frost d ≡ ok (open_round1 frost d) =
              unfold next_action in ground (arith, unopened) in
            subst (After P) (sym same) (open_round1-Same d)
        | inr (secret, opened) ↦ elim (Option-cases d.commitment) [
          | inl waiting ↦
              let same : next_action frost d ≡ ok (d, none) =
                unfold next_action in ground (arith, opened, waiting) in
              subst (After P) (sym same) here
          | inr (c, agreed) ↦ elim (Bool-cases d.sent_round2_packages) [
            | inr unsent ↦
                let same : next_action frost d
                    ≡ ok (
                      record d { sent_round2_packages = true },
                      some (DkgAction.send (round2_messages frost d secret)),
                    ) =
                  unfold next_action in ground (arith, opened, agreed, unsent) in
                subst (After P) (sym same) (record { id = refl; members = refl; packages = refl })
            | inl sent ↦
                elim (Bool-cases
                  (length d.round2_packages == wrapping_sub u64_mod (length d.members) 1)) [
                    | inr missing ↦
                        let same : next_action frost d ≡ ok (d, none) =
                          unfold next_action in ground (arith, opened, agreed, sent, missing) in
                        subst (After P) (sym same) here
                    | inl full ↦
                        let same : next_action frost d
                            ≡ ◌>>=◌ {B = Dkg × Option DkgAction} (finish frost d secret c)
                                (λ action. ok (d, some action)) =
                          unfold next_action in ground (arith, opened, agreed, sent, full) in
                        subst (After P) (sym same) (finish-Same d (finish frost d secret c))
                  ]
          ]
        ]
      ]
