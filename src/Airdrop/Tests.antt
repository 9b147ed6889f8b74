-- ===== src/Airdrop/Tests.antt =====
-- Tests of the model of pallets/airdrop/src/lib.rs, and the theorems at small claims.
use timechain.Prelude.{
  ℕ, ◌+◌, ◌%◌, ◌≡◌, ◌≢◌, refl, Bool, true, false, none, some, List, [], ◌∷◌, arith, ◌==◌,
  if◌then◌else◌,
}
use timechain.Storage.{Unique, get, insert, remove}
use timechain.Outcome.{
  ok, err, invalid_signature, balance_too_small, already_has_claim, bad_origin, bad_proof,
  vesting_not_possible,
}
use timechain.Currency.Ledger.{Ledger, ledger, ledger-Laws}
use timechain.Airdrop.{
  Config, State, RawOrigin, root, signed, unsigned, minted, moved, claimed, insert_all, sum_of,
  build, to_message, to_ascii_hex, nibble, verify_proof, mint_airdrop, add_airdrop, move_airdrop,
  process_airdrop, claim_raw, mint, transfer, validate_claim,
}
use timechain.Airdrop.Totals.{Call, claim_call, mint_call, add_call, transfer_call, dispatch, sum}
use timechain.Airdrop.Runs.{run, run-Total}
use timechain.Airdrop.Claiming.{VestingLaw, Claimed, claim_raw-Claimed}
use timechain.Airdrop.Message.{to_message-injective}

starts_with : ℕ → List ℕ → Bool
starts_with n [] = false
starts_with n (x ∷ xs) = x == n

-- A proof that starts with 1 is a good Schnorr signature, one that starts with 2 a good Edwards
-- signature; an account is one byte.
abbrev test_config : Config Ledger
test_config = record {
  currency = ledger;
  can_add_vesting_schedule = λ w who vs. true;
  add_vesting_schedule = λ w who vs. ok w;
  verify_schnorr = λ proof message source. starts_with 1 proof;
  verify_edwards = λ proof message source. starts_with 2 proof;
  raw_prefix = 58 ∷ [];
  minimum_balance = 5;
  encode_account = λ a. a % 256 ∷ [];
}

abbrev no_balances : Ledger
no_balances = record { free = λ a. 0; reserved = λ a. 0 }

abbrev genesis : State Ledger
genesis = build test_config no_balances ((1, 10) ∷ (2, 20) ∷ []) ((1, (8, 1, 0)) ∷ [])

message-of-31 :
    to_message test_config 31
    ≡ 60 ∷ 66 ∷ 121 ∷ 116 ∷ 101 ∷ 115 ∷ 62 ∷ 58 ∷ 49 ∷ 102 ∷ 60 ∷ 47 ∷ 66 ∷ 121 ∷ 116 ∷ 101 ∷ 115
      ∷ 62 ∷ []
unfolding to_message to_ascii_hex nibble
message-of-31 = refl

genesis-total : genesis.total ≡ 30
unfolding build sum_of
genesis-total = refl

-- An account that stands twice in the genesis is counted twice.
genesis-twice : (build test_config no_balances ((1, 10) ∷ (1, 20) ∷ []) []).total ≡ 30
unfolding build sum_of
genesis-twice = refl

genesis-twice_claims : sum (build test_config no_balances ((1, 10) ∷ (1, 20) ∷ []) []).claims ≡ 20
unfolding build insert_all insert
genesis-twice_claims = refl

claim-unproved : claim_raw test_config genesis unsigned 1 (3 ∷ []) 9 ≡ err invalid_signature
unfolding claim_raw verify_proof starts_with
claim-unproved = refl

validate-unproved : validate_claim test_config genesis 1 (3 ∷ []) 9 ≡ err bad_proof
unfolding validate_claim verify_proof starts_with
validate-unproved = refl

mint-small : mint test_config genesis root 3 4 none ≡ err balance_too_small
unfolding mint mint_airdrop
mint-small = refl

mint-again : mint test_config genesis root 2 7 none ≡ err already_has_claim
unfolding mint mint_airdrop get build insert_all insert
mint-again = refl

add-vesting_again : add_airdrop test_config genesis 1 7 (some (7, 1, 0)) ≡ err vesting_not_possible
unfolding add_airdrop get build insert_all insert
add-vesting_again = refl

transfer-signed : transfer test_config genesis (signed 1) 1 3 ≡ err bad_origin
unfolding transfer
transfer-signed = refl

abbrev claimed_state : State Ledger
claimed_state = record {
  balances = record { free = λ a. 0 + (if a == 9 then 10 else 0); reserved = λ a. 0 };
  claims = (2, 20) ∷ [];
  total = 20;
  vesting = [];
  events = claimed 1 9 10 ∷ [];
}

claim-proved : claim_raw test_config genesis unsigned 1 (2 ∷ []) 9 ≡ ok claimed_state
unfolding claim_raw verify_proof starts_with process_airdrop build insert_all insert sum_of get
    remove
claim-proved = refl

keeps : VestingLaw test_config
keeps w w' target vs h a = ground (arith, h)

claim_raw-Claimed_example :
    ((amount : ℕ) × Claimed test_config genesis claimed_state unsigned 1 (2 ∷ []) 9 amount)
    × ((o : RawOrigin) (p : List ℕ) (t : ℕ) (s : State Ledger)
        → claim_raw test_config claimed_state o 1 p t ≢ ok s)
claim_raw-Claimed_example =
    claim_raw-Claimed test_config ledger-Laws keeps genesis claimed_state unsigned 1 (2 ∷ []) 9
      claim-proved

to_message-injective_example : test_config.encode_account 1 ≡ test_config.encode_account 257
unfolding to_message
to_message-injective_example = to_message-injective test_config 1 257 refl

-- A claim that is refused, a mint, an addition to it, a transfer, and a claim.
abbrev some_calls : List (RawOrigin × Call)
some_calls =
    (unsigned, claim_call 1 (3 ∷ []) 9)
    ∷ (root, mint_call 3 30 none)
    ∷ (root, add_call 3 5 none)
    ∷ (root, transfer_call 2 4)
    ∷ (unsigned, claim_call 1 (1 ∷ []) 9)
    ∷ []

abbrev after_calls : State Ledger
after_calls = record {
  balances = record { free = λ a. 0 + (if a == 9 then 10 else 0); reserved = λ a. 0 };
  claims = (3, 35) ∷ (4, 20) ∷ [];
  total = 55;
  vesting = [];
  events = claimed 1 9 10 ∷ moved 2 4 ∷ minted 3 5 ∷ minted 3 30 ∷ [];
}

calls-run : run test_config genesis some_calls ≡ ok after_calls
unfolding run dispatch claim_raw verify_proof starts_with mint mint_airdrop add_airdrop transfer
    move_airdrop process_airdrop build insert_all insert sum_of get remove
calls-run = refl

run-Total_example : (55 ≡ sum after_calls.claims) × Unique after_calls.claims
unfolding get
run-Total_example =
    run-Total test_config no_balances ((1, 10) ∷ (2, 20) ∷ []) ((1, (8, 1, 0)) ∷ []) some_calls
      after_calls (refl, (refl, tt)) (omega arith) calls-run
