-- ===== src/Launch/Allocations.antt =====
-- pallets/launch/src/allocation.rs: the allocations of the tokens, and the tracker of what was
-- issued of each.
use timechain.Prelude.{
  zero, suc, ℕ, ◌*◌, Bool, true, ◌&&◌, Option, none, some, List, [], ◌∷◌, ltb, leb, ◌==◌,
  if◌then◌else◌, wrapping_add, wrapping_sub, u128_mod,
}
use timechain.Outcome.{Outcome, ok, panic}
use timechain.Airdrop.{Schedule}

-- 10^9, of primitives/src/currency.rs; there are 1000 in an ANLOG.
abbrev pub milli_analog : ℕ
milli_analog = 1000000000

abbrev pub analog : ℕ
analog = 1000000000000

pub data Allocation : Type 0 where
  ignore seed opportunity1 private1 opportunity2 opportunity3 opportunity4 strategic : Allocation
  team airdrop initiatives ecosystem : Allocation
  size : Allocation

-- The discriminant.
abbrev pub index : Allocation → ℕ
index ignore = 0
index seed = 1
index opportunity1 = 2
index private1 = 3
index opportunity2 = 4
index opportunity3 = 5
index opportunity4 = 6
index strategic = 7
index team = 8
index airdrop = 9
index initiatives = 10
index ecosystem = 11
index size = 12

unfoldable pub from_index : ℕ → Allocation
from_index i =
    if i == 1
    then seed
    else if i == 2
    then opportunity1
    else if i == 3
    then private1
    else if i == 4
    then opportunity2
    else if i == 5
    then opportunity3
    else if i == 6
    then opportunity4
    else if i == 7
    then strategic
    else if i == 8
    then team
    else if i == 9
    then airdrop
    else if i == 10
    then initiatives
    else if i == 11
    then ecosystem
    else ignore

abbrev pub sub_id : Allocation → List ℕ
sub_id ignore = []
sub_id seed = b's' ∷ b'e' ∷ b'e' ∷ b'd' ∷ []
sub_id opportunity1 =
    b'o' ∷ b'p' ∷ b'p' ∷ b'o' ∷ b'r' ∷ b't' ∷ b'u' ∷ b'n' ∷ b'i' ∷ b't' ∷ b'y' ∷ b'1' ∷ []
sub_id private1 = b'p' ∷ b'r' ∷ b'i' ∷ b'v' ∷ b'a' ∷ b't' ∷ b'e' ∷ b'1' ∷ []
sub_id opportunity2 =
    b'o' ∷ b'p' ∷ b'p' ∷ b'o' ∷ b'r' ∷ b't' ∷ b'u' ∷ b'n' ∷ b'i' ∷ b't' ∷ b'y' ∷ b'2' ∷ []
sub_id opportunity3 =
    b'o' ∷ b'p' ∷ b'p' ∷ b'o' ∷ b'r' ∷ b't' ∷ b'u' ∷ b'n' ∷ b'i' ∷ b't' ∷ b'y' ∷ b'3' ∷ []
sub_id opportunity4 =
    b'o' ∷ b'p' ∷ b'p' ∷ b'o' ∷ b'r' ∷ b't' ∷ b'u' ∷ b'n' ∷ b'i' ∷ b't' ∷ b'y' ∷ b'4' ∷ []
sub_id strategic = b's' ∷ b't' ∷ b'r' ∷ b'a' ∷ b't' ∷ b'e' ∷ b'g' ∷ b'i' ∷ b'c' ∷ []
sub_id team = b't' ∷ b'e' ∷ b'a' ∷ b'm' ∷ []
sub_id airdrop = b'a' ∷ b'i' ∷ b'r' ∷ b'd' ∷ b'r' ∷ b'o' ∷ b'p' ∷ []
sub_id initiatives = b'i' ∷ b'n' ∷ b'i' ∷ b't' ∷ b'i' ∷ b'a' ∷ b't' ∷ b'i' ∷ b'v' ∷ b'e' ∷ b's' ∷ []
sub_id ecosystem = b'e' ∷ b'c' ∷ b'o' ∷ b's' ∷ b'y' ∷ b's' ∷ b't' ∷ b'e' ∷ b'm' ∷ []
sub_id size = []

abbrev pub total : Allocation → ℕ
total ignore = 0
total seed = 2116870581830 * milli_analog
total opportunity1 = 170807453140 * milli_analog
total private1 = 914546375350 * milli_analog
total opportunity2 = 42701863290 * milli_analog
total opportunity3 = 53495311080 * milli_analog
total opportunity4 = 44418704640 * milli_analog
total strategic = 376857707180 * milli_analog
total team = 1714673910300 * milli_analog
total airdrop = 452898550000 * milli_analog
total initiatives = 1811594200000 * milli_analog
total ecosystem = 1359106343190 * milli_analog
total size = 0

abbrev pub schedule_raw : Allocation → Option Schedule
schedule_raw ignore = none
schedule_raw seed = some (2116870581830 * milli_analog, 178512 * milli_analog, 4586070)
schedule_raw opportunity1 = some (170807453140 * milli_analog, 16204 * milli_analog, 3268470)
schedule_raw private1 = some (914546375350 * milli_analog, 86762 * milli_analog, 3268470)
schedule_raw opportunity2 = some (42701863290 * milli_analog, 4051 * milli_analog, 3268470)
schedule_raw opportunity3 = some (53495311080 * milli_analog, 6766 * milli_analog, 3268470)
schedule_raw opportunity4 = some (44418704640 * milli_analog, 5618 * milli_analog, 1950870)
schedule_raw strategic = some (376857707180 * milli_analog, 47669 * milli_analog, 1950870)
schedule_raw team = some (1714673910300 * milli_analog, 108446 * milli_analog, 4586070)
schedule_raw airdrop = none
schedule_raw initiatives = some (1086956520000 * milli_analog, 68745 * milli_analog, 633270)
schedule_raw ecosystem = some (679553171595 * milli_analog, 32234 * milli_analog, 633270)
schedule_raw size = none

-- `AllocationTracker`, an array with a place for each allocation, as a function of the index.
pub record AllocationTracker : Type 0 where
  pub issued : ℕ → ℕ

unfoldable pub new : AllocationTracker
new = record { issued = λ i. 0 }

-- Outside of the array the access panics.
unfoldable pub add : AllocationTracker → Allocation → ℕ → Outcome AllocationTracker
add t source amount =
    if ltb (index source) 12
    then ok (record {
      issued =
          λ i. if i == index source then wrapping_add u128_mod (t.issued i) amount else t.issued i;
    })
    else panic

abbrev pub per : AllocationTracker → Allocation → ℕ
per t source = t.issued (index source)

-- `remaining`, which wraps when more was issued than the allocation has.
abbrev pub remaining : AllocationTracker → Allocation → ℕ
remaining t alloc = wrapping_sub u128_mod (total alloc) (per t alloc)

-- One turn of the loop of `check`, with the free balance of the virtual wallet.
unfoldable pub is_valid : Bool → AllocationTracker → Allocation → ℕ → Bool
is_valid exact t alloc free =
    leb (per t alloc) (total alloc)
    && (if exact then remaining t alloc == free else leb (remaining t alloc) free)

-- The loop of `check`, over the indices below `n` from the last; 0 is left out.
unfoldable pub check_below : (Allocation → ℕ) → Bool → AllocationTracker → ℕ → Bool
check_below free exact t zero = true
check_below free exact t (suc n) =
    is_valid exact t (from_index (suc n)) (free (from_index (suc n))) && check_below free exact t n

-- `check`, with the free balance of the wallet of an allocation.
unfoldable pub check : (Allocation → ℕ) → Bool → AllocationTracker → Bool
check free exact t = check_below free exact t 11
