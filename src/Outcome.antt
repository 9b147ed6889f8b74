-- ===== src/Outcome.antt =====
-- What a call of a pallet returns: a value, a dispatch error, or a panic of the runtime.
use mathlib.Core.Path.{subst}
use timechain.Prelude.{ℕ, Bool, true, false, Option, none, some, ◌≡◌, refl}

-- The errors of the pallets, and the refusal of an origin by `frame_system`.
pub data Error : Type 0 where
  bad_origin : Error
  -- primitives/src/cctp.rs
  insufficient_data invalid_block_size : Error
  -- pallets/networks
  network_exists network_not_found shard_size_above_max threshold_larger_than_size : Error
  -- pallets/tasks
  unknown_task unknown_shard invalid_signature invalid_task_result invalid_signer : Error
  unassigned_task invalid_batch_id cannot_remove_task : Error
  -- pallets/members
  not_member not_registered already_submitted_heartbeat : Error
  -- pallets/shards
  unexpected_commit commitment_len_not_equal_to_threshold : Error
  invalid_verifying_key_in_commitment member_peer_id_not_found invalid_proof_of_knowledge : Error
  invalid_commitment unexpected_ready unknown_shard_network unknown_shard_commitment : Error
  max_shards_created_this_block : Error
  -- pallet_balances
  insufficient_balance : Error
  -- pallets/timegraph
  sequence_number_overflow zero_amount withdrawal_amount_over_reserve : Error
  not_withdrawal_required reward_pool_out_of_balance reward_to_same_account : Error
  same_timegraph_account same_reward_pool_account same_threshold sender_is_not_timegraph : Error
  -- pallets/airdrop
  has_no_claim bad_proof bad_signer pot_underflow balance_too_small vesting_not_possible : Error
  already_has_claim : Error
  -- pallets/launch
  stage_missing stage_version_missmatch total_issuance_exceeded stage_retired : Error
  stage_issuance_missmatch funds_unavailable : Error

pub data Outcome {ℓ} (A : Type ℓ) : Type ℓ where
  ok : A → Outcome A
  err : Error → Outcome A
  panic : Outcome A

infixl 5 ◌>>=◌ ◌>>◌
abbrev pub ◌>>=◌ {ℓ κ} : {A : Type ℓ} {B : Type κ} → Outcome A → (A → Outcome B) → Outcome B
ok a >>= f = f a
err e >>= f = err e
panic >>= f = panic

abbrev pub ◌>>◌ {ℓ} : {B : Type ℓ} → Outcome (Unit {0}) → Outcome B → Outcome B
m >> k = m >>= λ _. k

-- `ensure!(test, e)`.
abbrev pub ensure : Bool → Error → Outcome (Unit {0})
ensure true e = ok tt
ensure false e = err e

-- `opt.ok_or(e)?`.
abbrev pub ok_or {ℓ} : {A : Type ℓ} → Option A → Error → Outcome A
ok_or none e = err e
ok_or (some a) e = ok a

-- An origin, by the answers that `frame_system` gives about it: the account that signed, for
-- `ensure_signed`, and whether it passes the `AdminOrigin` of the pallets.
pub record Origin : Type 0 where
  pub signer : Option ℕ
  pub is_admin : Bool

abbrev pub ensure_admin : Origin → Outcome (Unit {0})
ensure_admin o = ensure o.is_admin bad_origin

abbrev pub ensure_signed : Origin → Outcome ℕ
ensure_signed o = ok_or o.signer bad_origin

-- What holds of the value that is returned, if one is.
abbrev pub After {ℓ κ} : {A : Type ℓ} → (A → Type κ) → Outcome A → Type κ
After P (ok a) = P a
After P (err e) = Unit
After P panic = Unit

pub After-bind {ℓ κ μ ν} :
    {A : Type ℓ} {B : Type κ} (P : A → Type μ) (Q : B → Type ν) (m : Outcome A) (f : A → Outcome B)
    → After P m
    → ((a : A) → P a → After Q (f a))
    → After Q (m >>= f)
After-bind P Q (ok a) f p g = g a p
After-bind P Q (err e) f p g = tt
After-bind P Q panic f p g = tt

-- A check decides between its error and what follows.
pub After-skip {ℓ κ ν} :
    {A : Type ℓ} {B : Type κ} (Q : B → Type ν) (m : Outcome A) (f : A → Outcome B)
    → ((a : A) → m ≡ ok a → After Q (f a))
    → After Q (m >>= f)
After-skip Q (ok a) f g = g a refl
After-skip Q (err e) f g = tt
After-skip Q panic f g = tt

-- A call whose result is caught, but for a panic.
pub After-catch {ℓ κ ν} :
    {A : Type ℓ} {B : Type κ} (Q : B → Type ν) (m : Outcome A) (f : A → Outcome B)
    (g : Error → Outcome B)
    → ((a : A) → m ≡ ok a → After Q (f a))
    → ((e : Error) → After Q (g e))
    → After Q (elim m [ ok a ↦ f a | err e ↦ g e | panic ↦ panic ])
After-catch Q (ok a) f g p q = p a refl
After-catch Q (err e) f g p q = q e
After-catch Q panic f g p q = tt

-- What holds after a call, for the value that it returned.
pub After_ok {ℓ κ} :
    {A : Type ℓ} (P : A → Type κ) (m : Outcome A) {a : A} → After P m → m ≡ ok a → P a
After_ok P m h e = subst (After P) e h

pub ensure_ok : (b : Bool) (e : Error) {u : Unit {0}} → ensure b e ≡ ok u → b ≡ true
ensure_ok true e h = refl
ensure_ok false e h = absurd (cc)

-- Two things that hold of the value that is returned.
pub After-both {ℓ κ μ} :
    {A : Type ℓ} (P : A → Type κ) (Q : A → Type μ) (m : Outcome A)
    → After P m
    → After Q m
    → After (λ a. P a × Q a) m
After-both P Q (ok a) p q = (p, q)
After-both P Q (err e) p q = tt
After-both P Q panic p q = tt

pub After-map {ℓ κ μ} :
    {A : Type ℓ} (P : A → Type κ) (Q : A → Type μ) (m : Outcome A)
    → ((a : A) → P a → Q a)
    → After P m
    → After Q m
After-map P Q (ok a) f p = f a p
After-map P Q (err e) f p = tt
After-map P Q panic f p = tt

pub After-any {ℓ} : {A : Type ℓ} (m : Outcome A) → After (λ a. Unit {0}) m
After-any (ok a) = tt
After-any (err e) = tt
After-any panic = tt

-- A chain that returned a value has returned one at its first step.
pub bind_ok {ℓ κ} :
    {A : Type ℓ} {B : Type κ} (m : Outcome A) (f : A → Outcome B) {b : B}
    → (m >>= f) ≡ ok b
    → (a : A) × (m ≡ ok a) × (f a ≡ ok b)
bind_ok (ok a) f h = (a, refl, h)
bind_ok (err e) f h = absurd (cc)
bind_ok panic f h = absurd (cc)
