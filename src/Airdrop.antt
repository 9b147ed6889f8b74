-- ===== src/Airdrop.antt =====
-- pallets/airdrop/src/lib.rs: claims of tokens by the accounts that registered for them.
pub mod Totals
pub mod Runs
pub mod Claiming
pub mod Message
pub mod Tests
use timechain.Prelude.{
  ℕ, ◌+◌, ◌-◌, ◌/◌, ◌%◌, Bool, true, false, Option, none, some, List, [], ◌∷◌, ◌++◌, ltb, leb, ◌==◌,
  ◌||◌, if◌then◌else◌, unwrap_or, is_none, is_some, saturating_add, wrapping_add, u128_max,
  u128_mod,
}
use timechain.Storage.{Map, get, insert, remove, contains_key}
use timechain.Outcome.{
  Outcome, ok, err, panic, ◌>>=◌, ◌>>◌, ensure, ok_or, Error, bad_origin, invalid_signature,
  has_no_claim, bad_proof, bad_signer, pot_underflow, balance_too_small, vesting_not_possible,
  already_has_claim,
}
use timechain.Currency.{Currency}

-- The locked amount, what is unlocked in each block, and the first block.
abbrev pub Schedule : Type 0
Schedule = ℕ × ℕ × ℕ

-- `RawOrigin` of frame_system.
pub data RawOrigin : Type 0 where
  root : RawOrigin
  signed : ℕ → RawOrigin
  unsigned : RawOrigin

-- The trait `Config` with the currency: the vesting backend, the two signature schemes, the prefix of
-- the message, and the encoding of an account.
pub record Config (W : Type 0) : Type 0 where
  pub currency : Currency W
  pub can_add_vesting_schedule : W → ℕ → Schedule → Bool
  pub add_vesting_schedule : W → ℕ → Schedule → Outcome W
  pub verify_schnorr : List ℕ → List ℕ → ℕ → Bool
  pub verify_edwards : List ℕ → List ℕ → ℕ → Bool
  pub raw_prefix : List ℕ
  pub minimum_balance : ℕ
  pub encode_account : ℕ → List ℕ

pub data Event : Type 0 where
  minted : ℕ → ℕ → Event
  moved : ℕ → ℕ → Event
  claimed : ℕ → ℕ → ℕ → Event

pub record State (W : Type 0) : Type 0 where
  pub balances : W
  pub claims : Map ℕ
  pub total : ℕ
  pub vesting : Map Schedule
  pub events : List Event

unfoldable pub insert_all {ℓ} : {V : Type ℓ} → Map V → Map V → Map V
insert_all m [] = m
insert_all m ((k, v) ∷ es) = insert_all (insert m k v) es

-- `fold` with `+`, which wraps.
unfoldable pub sum_of : ℕ → Map ℕ → ℕ
sum_of acc [] = acc
sum_of acc ((k, v) ∷ es) = sum_of (wrapping_add u128_mod acc v) es

-- `ensure_root` and `ensure_none`.
abbrev pub ensure_root : RawOrigin → Outcome (Unit {0})
ensure_root root = ok tt
ensure_root (signed who) = err bad_origin
ensure_root unsigned = err bad_origin

abbrev pub ensure_none : RawOrigin → Outcome (Unit {0})
ensure_none root = err bad_origin
ensure_none (signed who) = err bad_origin
ensure_none unsigned = ok tt

unfoldable pub nibble : ℕ → ℕ
nibble n = if ltb n 10 then b'0' + n else b'a' - 10 + n

unfoldable pub to_ascii_hex : List ℕ → List ℕ
to_ascii_hex [] = []
to_ascii_hex (b ∷ bytes) = nibble (b / 16) ∷ nibble (b % 16) ∷ to_ascii_hex bytes

-- `<Bytes>` and `</Bytes>`.
abbrev pub open_tag : List ℕ
open_tag = 60 ∷ 66 ∷ 121 ∷ 116 ∷ 101 ∷ 115 ∷ 62 ∷ []

abbrev pub close_tag : List ℕ
close_tag = 60 ∷ 47 ∷ 66 ∷ 121 ∷ 116 ∷ 101 ∷ 115 ∷ 62 ∷ []

module _ {W : Type 0} (cfg : Config W) where
  -- `GenesisConfig::build`.
  unfoldable pub build : W → Map ℕ → Map Schedule → State W
  build w claims vesting = record {
    balances = w;
    claims = insert_all [] claims;
    total = sum_of 0 claims;
    vesting = insert_all [] vesting;
    events = [];
  }

  abbrev pub deposit_event : State W → Event → State W
  deposit_event s e = record s { events = e ∷ s.events }

  -- `if let Some(vs) = vesting { Vesting::insert(owner, vs) }`.
  abbrev pub with_vesting : Map Schedule → ℕ → Option Schedule → Map Schedule
  with_vesting m owner none = m
  with_vesting m owner (some vs) = insert m owner vs

  unfoldable pub to_message : ℕ → List ℕ
  to_message target =
      open_tag ++ (cfg.raw_prefix ++ (to_ascii_hex (cfg.encode_account target) ++ close_tag))

  unfoldable pub verify_proof : ℕ → List ℕ → ℕ → Outcome (Unit {0})
  verify_proof source proof target =
      ensure
        (cfg.verify_schnorr proof (to_message target) source
          || cfg.verify_edwards proof (to_message target) source)
        invalid_signature

  unfoldable pub mint_airdrop : State W → ℕ → ℕ → Option Schedule → Outcome (State W)
  mint_airdrop s owner amount vesting =
      ensure (leb cfg.minimum_balance amount) balance_too_small
      >> (ensure (is_none (get s.claims owner)) already_has_claim
          >> ok (
              deposit_event
                (record s {
                  total = wrapping_add u128_mod s.total amount;
                  claims = insert s.claims owner amount;
                  vesting = with_vesting s.vesting owner vesting;
                })
                (minted owner amount)))

  unfoldable pub add_airdrop : State W → ℕ → ℕ → Option Schedule → Outcome (State W)
  add_airdrop s owner amount vesting =
      ensure (leb cfg.minimum_balance amount) balance_too_small
      >> (ensure (is_none vesting || is_none (get s.vesting owner)) vesting_not_possible
          >> ok (
              deposit_event
                (record s {
                  total = saturating_add u128_max s.total amount;
                  claims =
                      insert (remove s.claims owner) owner
                        (saturating_add u128_max amount (unwrap_or (get s.claims owner) 0));
                  vesting = with_vesting s.vesting owner vesting;
                })
                (minted owner amount)))

  -- The schedule goes with the claim, if there is one.
  abbrev pub move_vesting : Map Schedule → ℕ → ℕ → Option Schedule → Map Schedule
  move_vesting m from to none = m
  move_vesting m from to (some vs) = insert (remove m from) to vs

  unfoldable pub move_airdrop : State W → ℕ → ℕ → Outcome (State W)
  move_airdrop s from to =
      ensure (is_none (get s.claims to)) already_has_claim
      >> (ok_or (get s.claims from) has_no_claim >>= λ amount. ok (
          deposit_event
            (record s {
              claims = insert (remove s.claims from) to amount;
              vesting = move_vesting s.vesting from to (get s.vesting from);
            })
            (moved from to)))

  -- Whether the schedule of a claim can be given to the target.
  abbrev pub may_vest : W → ℕ → Option Schedule → Bool
  may_vest w target none = true
  may_vest w target (some vs) = cfg.can_add_vesting_schedule w target vs

  -- `add_vesting_schedule(...).expect(...)`.
  abbrev pub vest : W → ℕ → Option Schedule → Outcome W
  vest w target none = ok w
  vest w target (some vs) = elim (cfg.add_vesting_schedule w target vs) [
    | ok w' ↦ ok w'
    | err e ↦ panic
    | panic ↦ panic
  ]

  unfoldable pub process_airdrop : State W → ℕ → ℕ → Outcome (State W)
  process_airdrop s source target = ok_or (get s.claims source) has_no_claim >>= λ amount.
      ensure (leb amount s.total) pot_underflow
      >> (ensure (may_vest s.balances target (get s.vesting source)) vesting_not_possible
          >> (vest (cfg.currency.deposit_creating s.balances target amount) target
                (get s.vesting source)
              >>= λ w. ok (
                  deposit_event
                    (record s {
                      balances = w;
                      total = s.total - amount;
                      claims = remove s.claims source;
                      vesting = remove s.vesting source;
                    })
                    (claimed source target amount))))

  unfoldable pub claim_raw : State W → RawOrigin → ℕ → List ℕ → ℕ → Outcome (State W)
  claim_raw s origin source proof target =
      ensure_none origin >> (verify_proof source proof target >> process_airdrop s source target)

  unfoldable pub mint : State W → RawOrigin → ℕ → ℕ → Option Schedule → Outcome (State W)
  mint s origin owner amount vesting = ensure_root origin >> mint_airdrop s owner amount vesting

  unfoldable pub transfer : State W → RawOrigin → ℕ → ℕ → Outcome (State W)
  transfer s origin from to = ensure_root origin >> move_airdrop s from to

  -- `validate_unsigned` of a call of `claim_raw`.
  unfoldable pub validate_claim : State W → ℕ → List ℕ → ℕ → Outcome (Unit {0})
  validate_claim s source proof target = elim (verify_proof source proof target) [
    | ok u ↦ ensure (contains_key s.claims source) bad_signer
    | err e ↦ err bad_proof
    | panic ↦ panic
  ]
