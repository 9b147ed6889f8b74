-- ===== src/Tss/Ready.antt =====
-- Over every run of Tss of tss/src/lib.rs, a member is ready only with the shares of all others.
pub mod Hearing
pub mod Keeping
pub mod Members
pub mod Shares
use timechain.Prelude.{
  ℕ, zero, suc, ◌+◌, ◌-◌, ◌≤◌, ◌<◌, ◌≡◌, ◌≢◌, refl, sym, ap, ◌∙◌, Bool, true, false, Option, none,
  some, List, [], ◌∷◌, ◌++◌, map, arith, ◌==◌, not, if◌then◌else◌, length, contains, Option-cases,
  Bool-cases, inl, inr, subst, is_some, u64_mod,
}
use timechain.Storage
use timechain.Storage.{Map, get, remove, contains_key, Unique, insert-Unique, get-remove, keys}
use timechain.BTree
use timechain.BTree.{Keys, Sorted, Sorted-insert, Sorted-Unique, Within}
use timechain.Outcome.{
  Outcome, ok, err, panic, ◌>>=◌, After, After-bind, After-any, After_ok, bind_ok,
}
use timechain.Tss.Frost.{Frost}
use timechain.Tss.Dkg
use timechain.Tss.Dkg.{Dkg, DkgAction}
use timechain.Tss.Roast
use timechain.Tss.Roast.{Roast}
use timechain.Tss.Machine.{
  Tss, TssState, TssMessage, TssAction, Pumped, identify, to_set, new, receive, on_message,
  on_commit, take_commitment, with_session, on_start, on_sign, on_complete, drop_session,
}
use timechain.Tss.Actions.{
  to_peers, address, pump_all, generate, advance, deliver, act, next_action,
}
use timechain.Tss.KeyGeneration.{DkgIsValid, Done, Same, next_action-Same, next_action-Done}

-- What a member hears and is asked to do; `turn` carries the fuel of `next_action`.
pub data Event : Type 0 where
  hear : ℕ → TssMessage → Event
  agree : ℕ → Event
  start : ℕ → Event
  sign : ℕ → List ℕ → Event
  complete : ℕ → Event
  turn : ℕ → Event

module _ (to_frost : ℕ → ℕ) (frost : Frost) where
  unfoldable pub step : Tss → Event → Outcome Tss
  step t (hear peer msg) = ok (on_message to_frost frost t peer msg)
  step t (agree commitment) = ok (on_commit t commitment)
  step t (start id) = ok (on_start t id)
  step t (sign id bytes) = ok (on_sign t id bytes)
  step t (complete id) = ok (on_complete t id)
  step t (turn fuel) = next_action frost fuel t >>= λ x. ok x.0

  unfoldable pub run : Tss → List Event → Outcome Tss
  run t [] = ok t
  run t (e ∷ es) = step t e >>= λ t'. run t' es

-- The key generation is among the members that the machine knows.
pub record Among (t : Tss) (d : Dkg) : Type 0 where
  pub dkg : DkgIsValid d
  pub id : d.id ≡ t.frost_id
  pub known : (j : ℕ) → contains_key t.frost_to_peer j ≡ true → contains_key d.members j ≡ true

abbrev pub StateIsValid : Tss → TssState → Type 0
StateIsValid t (TssState.generating d) = Among t d
StateIsValid t (TssState.signing key pkp sessions) = Unit {0}
StateIsValid t TssState.failed = Unit {0}

-- The machine keeps its own identity and the members.
pub record IsValid (to_frost : ℕ → ℕ) (t : Tss) : Type 0 where
  pub state : StateIsValid t t.state
  pub frost_id : t.frost_id ≡ to_frost t.peer_id
