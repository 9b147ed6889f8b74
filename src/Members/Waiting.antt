-- ===== src/Members/Waiting.antt =====
-- How often a member stands in the lists of pallets/members/src/lib.rs.
use timechain.Prelude.{
  ℕ, suc, ◌≤◌, ◌≡◌, ◌+◌, refl, false, none, some, List, [], ◌∷◌, ◌++◌, arith, leb, ltb, length,
  retain, not, Bool-cases, Option-cases, inl, inr, ◌==◌, if◌then◌else◌, is_some,
}
use timechain.Storage.{Map, get, keys, remove, Unique, get-remove}
use timechain.Shards.{extend_entry}
use timechain.Members.{State, sort_out, remove_online}
use timechain.Members.Timeouts.{everyone}

unfoldable pub count : ℕ → List ℕ → ℕ
count x [] = 0
count x (y ∷ l) = (if x == y then 1 else 0) + count x l

pub count-append : (x : ℕ) (l r : List ℕ) → count x (l ++ r) ≡ count x l + count x r
unfolding count
count-append x [] r = omega arith
count-append x (y ∷ l) r = omega (arith, count-append x l r)

count-extend_entry :
    (x : ℕ) (current : Map (List ℕ)) (n m : ℕ)
    → count x (everyone (extend_entry current n (m ∷ [])))
      ≡ count x (m ∷ []) + count x (everyone current)
unfolding extend_entry everyone count
count-extend_entry x [] n m = omega arith
count-extend_entry x ((k, ms) ∷ current) n m = elim (Bool-cases (n == k)) [
  | inl same ↦ rw same (
      omega (
        arith,
        count-append x (ms ++ m ∷ []) (everyone current),
        count-append x ms (m ∷ []),
        count-append x ms (everyone current),
      ))
  | inr other ↦ rw other (elim (Bool-cases (ltb n k)) [
    | inl before ↦ rw before (omega arith)
    | inr after ↦ rw after (
        omega (
          arith,
          count-extend_entry x current n m,
          count-append x ms (everyone current),
          count-append x ms (everyone (extend_entry current n (m ∷ []))),
        ))
  ])
]

sort_out_count :
    (x : ℕ) (s : State) (limit : ℕ) (members : List ℕ) (n : ℕ) (current : Map (List ℕ))
    (next : List ℕ)
    → (let r = sort_out s limit members n current next in
        count x (everyone r.0) + count x r.1
        ≡ (count x (everyone current) + count x next) + count x members)
unfolding sort_out count
sort_out_count x s limit [] n current next = omega arith
sort_out_count x s limit (m ∷ members) n current next =
    let later = sort_out_count x s limit members n current (next ++ m ∷ []) in
    elim (Bool-cases (leb limit n)) [
      | inl full ↦ rw full (omega (arith, later, count-append x next (m ∷ [])))
      | inr more ↦ rw more (elim (Option-cases (get s.member_network m)) [
        | inl unknown ↦ rw unknown (omega (arith, later, count-append x next (m ∷ [])))
        | inr (network, at) ↦ rw at (
            omega (
              arith,
              sort_out_count x s limit members (suc n) (extend_entry current network (m ∷ [])) next,
              count-extend_entry x current network m,
            ))
      ])
    ]

sort_out_all_gone :
    (x k : ℕ) (s : State) (limit : ℕ) (members : List ℕ) (n : ℕ) (current : Map (List ℕ))
    (next : List ℕ)
    → get s.member_network x ≡ some k
    → n + length members ≤ limit
    → count x (sort_out s limit members n current next).1 ≡ count x next
unfolding sort_out count
sort_out_all_gone x k s limit [] n current next has room = refl
sort_out_all_gone x k s limit (m ∷ members) n current next has room =
    elim (Bool-cases (leb limit n)) [
      | inl full ↦ absurd (ground (arith, full, room))
      | inr more ↦ rw more (elim (Option-cases (get s.member_network m)) [
        | inl unknown ↦ rw unknown (elim (Bool-cases (x == m)) [
          | inl same ↦ absurd (ground (arith, same, has, unknown))
          | inr other ↦
              let rest =
                sort_out_all_gone x k s limit members n current (next ++ m ∷ []) has
                  (omega (arith, room)) in
              let apart : count x (m ∷ []) ≡ 0 = rw other refl in
              omega (arith, rest, count-append x next (m ∷ []), apart)
        ])
        | inr (network, at) ↦ rw at (
            sort_out_all_gone x k s limit members (suc n) (extend_entry current network (m ∷ []))
              next has (omega (arith, room)))
      ])
    ]

-- A member without a network is put off, never taken.
pub sort_out_absent :
    (x : ℕ) (s : State) (limit : ℕ) (members : List ℕ) (n : ℕ) (current : Map (List ℕ))
    (next : List ℕ)
    → get s.member_network x ≡ none
    → count x (everyone (sort_out s limit members n current next).0) ≡ count x (everyone current)
unfolding sort_out count
sort_out_absent x s limit [] n current next absent = refl
sort_out_absent x s limit (m ∷ members) n current next absent =
    let later = sort_out_absent x s limit members n current (next ++ m ∷ []) absent in
    elim (Bool-cases (leb limit n)) [
      | inl full ↦ rw full later
      | inr more ↦ rw more (elim (Option-cases (get s.member_network m)) [
        | inl unknown ↦ rw unknown later
        | inr (network, at) ↦
            let apart : (x == m) ≡ false = elim (Bool-cases (x == m)) [
              | inl same ↦ absurd (ground (arith, same, absent, at))
              | inr other ↦ other
            ] in
            let none_more : count x (m ∷ []) ≡ 0 = rw apart refl in
            rw at (
              omega (
                arith,
                sort_out_absent x s limit members (suc n) (extend_entry current network (m ∷ []))
                    next absent,
                count-extend_entry x current network m,
                none_more,
              ))
      ])
    ]

-- The members that timed out are split.
pub sort_out_whole :
    (x : ℕ) (s : State) (limit : ℕ) (members : List ℕ)
    → (let r = sort_out s limit members 0 [] [] in
        count x (everyone r.0) + count x r.1 ≡ count x members)
unfolding everyone count
sort_out_whole x s limit members = omega (arith, sort_out_count x s limit members 0 [] [])

-- With room for all in the block, nobody who has a network is put off.
pub sort_out_room :
    (x n : ℕ) (s : State) (limit : ℕ) (members : List ℕ)
    → get s.member_network x ≡ some n
    → length members ≤ limit
    → count x (sort_out s limit members 0 [] []).1 ≡ 0
unfolding count
sort_out_room x n s limit members has room =
    sort_out_all_gone x n s limit members 0 [] [] has (omega (arith, room))

pub count-retain :
    (x m : ℕ) (l : List ℕ)
    → count x (retain (λ j. not (j == m)) l) ≡ (if x == m then 0 else count x l)
unfolding count
count-retain x m [] = ground arith
count-retain x m (j ∷ l) = ground (arith, count-retain x m l)

-- The keys of a map without a key twice.
pub count-keys :
    {V : Type 0} (x : ℕ) (m : Map V)
    → Unique m
    → count x (keys m) ≡ (if is_some (get m x) then 1 else 0)
unfolding count get
count-keys x [] u = refl
count-keys x ((j, v) ∷ m) u = ground (arith, count-keys x m u.1, u.0)

pub get-remove_online :
    (online : Map (Unit {0})) (members : List ℕ) (x : ℕ)
    → get (remove_online online members) x ≡ (if count x members == 0 then get online x else none)
unfolding remove_online count
get-remove_online online [] x = refl
get-remove_online online (m ∷ members) x =
    ground (arith, get-remove_online (remove online m) members x, get-remove online m x)
