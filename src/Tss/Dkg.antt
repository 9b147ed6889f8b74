-- ===== src/Tss/Dkg.antt =====
-- tss/src/dkg.rs: the state machine of the distributed key generation.
use timechain.Prelude.{
  ℕ, ◌+◌, ◌%◌, Bool, true, false, Option, none, some, List, [], ◌∷◌, ◌++◌, map, ◌==◌, not,
  if◌then◌else◌, length, retain, wrapping_sub, u16_mod, u64_mod,
}
use timechain.Storage.{Map, keys}
use timechain.Storage
use timechain.BTree.{Keys}
use timechain.Outcome.{Outcome, ok, panic, ◌>>=◌}
use timechain.Tss.Frost.{Frost}

-- A message holds the share for the peer who gets it.
pub data DkgAction : Type 0 where
  commit : ℕ → ℕ → DkgAction
  send : List (ℕ × ℕ) → DkgAction
  complete : ℕ → ℕ → ℕ → DkgAction
  failure : DkgAction

-- The packages are in a `HashMap`; `stream` and `draws` are those of the random source.
pub record Dkg : Type 0 where
  pub id : ℕ
  pub members : Keys
  pub threshold : ℕ
  pub secret_package : Option ℕ
  pub commitment : Option ℕ
  pub sent_round2_packages : Bool
  pub round2_packages : Map ℕ
  pub stream : ℕ
  pub draws : ℕ

abbrev pub new : ℕ → Keys → ℕ → ℕ → Dkg
new id members threshold stream = record {
  id = id;
  members = members;
  threshold = threshold;
  secret_package = none;
  commitment = none;
  sent_round2_packages = false;
  round2_packages = [];
  stream = stream;
  draws = 0;
}

abbrev pub on_commit : Dkg → ℕ → Dkg
on_commit d commitment = record d { commitment = some commitment }

abbrev pub on_message : Dkg → ℕ → ℕ → Dkg
on_message d peer msg = record d { round2_packages = Storage.insert d.round2_packages peer msg }

module _ (frost : Frost) where
  -- The first round: the commitment of this member.
  unfoldable pub open_round1 : Dkg → Dkg × Option DkgAction
  open_round1 d =
      elim (frost.part1 d.id (length d.members % u16_mod) d.threshold d.stream d.draws) [
        | none ↦ (record d { draws = d.draws + 1 }, some failure)
        | some (secret, commitment, proof) ↦ (
          record d { secret_package = some secret; draws = d.draws + 1 },
          some (commit commitment proof),
        )
      ]

  -- The shares for the other members.
  unfoldable pub round2_messages : Dkg → ℕ → List (ℕ × ℕ)
  round2_messages d secret =
      map (λ peer. (peer, frost.share_for secret peer))
        (retain (λ peer. not (peer == d.id)) (keys d.members))

  -- `fold` over the shares of the others and then the own one.
  unfoldable pub sum_shares : ℕ → List ℕ → ℕ
  sum_shares acc [] = acc
  sum_shares acc (x ∷ xs) = sum_shares (frost.add_share acc x) xs

  unfoldable pub signing_share : Dkg → ℕ → ℕ
  signing_share d secret =
      sum_shares frost.zero_share
        (map (λ e. e.1) d.round2_packages ++ frost.share_for secret d.id ∷ [])

  -- The key packages; `from_commitment` is unwrapped.
  unfoldable pub finish : Dkg → ℕ → ℕ → Outcome DkgAction
  finish d secret commitment = elim (frost.key_package d.id (signing_share d secret) commitment) [
    | none ↦ ok failure
    | some key_package ↦ elim (frost.public_key_package d.members commitment) [
      | none ↦ panic
      | some public_key_package ↦ ok (complete key_package public_key_package commitment)
    ]
  ]

  unfoldable pub next_action : Dkg → Outcome (Dkg × Option DkgAction)
  next_action d = elim d.secret_package [
    | none ↦ ok (open_round1 d)
    | some secret ↦ elim d.commitment [
      | none ↦ ok (d, none)
      | some commitment ↦
          if not d.sent_round2_packages
          then ok (record d { sent_round2_packages = true }, some (send (round2_messages d secret)))
          else if not (length d.round2_packages == wrapping_sub u64_mod (length d.members) 1)
          then ok (d, none)
          else (finish d secret commitment >>= λ action. ok (d, some action))
    ]
  ]
