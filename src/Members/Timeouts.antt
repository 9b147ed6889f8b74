-- ===== src/Members/Timeouts.antt =====
-- The members that time out in pallets/members/src/lib.rs.
use mathlib.Core.Path.{subst}
use mathlib.Core.List.{Perm, append_assoc, append-nil, perm_middle}
use mathlib.Core.List.Perm
use timechain.Prelude.{
  ℕ, suc, ◌≤◌, ◌≡◌, refl, sym, ap, ◌∙◌, List, [], ◌∷◌, ◌++◌, arith, leb, ltb, length, length-append,
  Bool-cases, Option-cases, inl, inr, ◌==◌,
}
use timechain.Storage.{Map, get}
use timechain.Shards.{extend_entry}
use timechain.Members.{State, sort_out}

-- All members of a map from networks to members.
unfoldable pub everyone : Map (List ℕ) → List ℕ
everyone [] = []
everyone ((n, ms) ∷ current) = ms ++ everyone current

extend_entry-Perm :
    (current : Map (List ℕ)) (n m : ℕ)
    → Perm (everyone (extend_entry current n (m ∷ []))) (m ∷ everyone current)
unfolding extend_entry everyone
extend_entry-Perm [] n m = Perm.refl (m ∷ [])
extend_entry-Perm ((k, ms) ∷ current) n m = elim (Bool-cases (n == k)) [
  | inl same ↦ rw same (
      subst (λ l. Perm l (m ∷ (ms ++ everyone current)))
        (sym (append_assoc ms (m ∷ []) (everyone current))) (perm_middle ms (everyone current)))
  | inr other ↦ rw other (elim (Bool-cases (ltb n k)) [
    | inl before ↦ rw before (Perm.refl (m ∷ (ms ++ everyone current)))
    | inr after ↦ rw after (
        Perm.trans (Perm.append_left ms (extend_entry-Perm current n m))
          (perm_middle ms (everyone current)))
  ])
]

length-extend_entry :
    (current : Map (List ℕ)) (n m : ℕ)
    → length (everyone (extend_entry current n (m ∷ []))) ≡ suc (length (everyone current))
unfolding extend_entry everyone
length-extend_entry [] n m = refl
length-extend_entry ((k, ms) ∷ current) n m = elim (Bool-cases (n == k)) [
  | inl same ↦ rw same (
      omega (
        arith,
        length-append (ms ++ m ∷ []) (everyone current),
        length-append ms (m ∷ []),
        length-append ms (everyone current),
      ))
  | inr other ↦ rw other (elim (Bool-cases (ltb n k)) [
    | inl before ↦ rw before refl
    | inr after ↦ rw after (
        omega (
          arith,
          length-extend_entry current n m,
          length-append ms (everyone current),
          length-append ms (everyone (extend_entry current n (m ∷ []))),
        ))
  ])
]

-- How the members that timed out are split: those that go offline now, at most `limit`, and those
-- that are put off.
pub record Split (limit : ℕ) (members : List ℕ) (r : Map (List ℕ) × List ℕ) : Type 0 where
  pub all : Perm (everyone r.0 ++ r.1) members
  pub few : length (everyone r.0) ≤ limit

move :
    (a b : List ℕ) (m : ℕ) (members : List ℕ)
    → Perm ((a ++ (b ++ m ∷ [])) ++ members) ((a ++ b) ++ m ∷ members)
move a b m members =
    subst (λ l. Perm l ((a ++ b) ++ m ∷ members))
      (sym (
        ap (λ l. l ++ members) (sym (append_assoc a b (m ∷ [])))
        ∙ append_assoc (a ++ b) (m ∷ []) members))
      (Perm.refl ((a ++ b) ++ m ∷ members))

entered :
    (current : Map (List ℕ)) (network m : ℕ) (next members : List ℕ)
    → Perm
        ((everyone (extend_entry current network (m ∷ [])) ++ next) ++ members)
        ((everyone current ++ next) ++ m ∷ members)
entered current network m next members =
    Perm.trans
      (Perm.append_right members (Perm.append_right next (extend_entry-Perm current network m)))
      (Perm.symm (perm_middle (everyone current ++ next) members))

sort_out_all :
    (s : State) (limit : ℕ) (members : List ℕ) (n : ℕ) (current : Map (List ℕ)) (next : List ℕ)
    → (let r = sort_out s limit members n current next in
        Perm (everyone r.0 ++ r.1) ((everyone current ++ next) ++ members))
unfolding sort_out
sort_out_all s limit [] n current next =
    subst (Perm (everyone current ++ next)) (sym (append-nil (everyone current ++ next)))
      (Perm.refl (everyone current ++ next))
sort_out_all s limit (m ∷ members) n current next =
    let put_off =
      Perm.trans (sort_out_all s limit members n current (next ++ m ∷ []))
        (move (everyone current) next m members) in
    elim (Bool-cases (leb limit n)) [
      | inl full ↦ rw full put_off
      | inr more ↦ rw more (elim (Option-cases (get s.member_network m)) [
        | inl unknown ↦ rw unknown put_off
        | inr (network, at) ↦ rw at (
            Perm.trans
              (sort_out_all s limit members (suc n) (extend_entry current network (m ∷ [])) next)
              (entered current network m next members))
      ])
    ]

sort_out_few :
    (s : State) (limit : ℕ) (members : List ℕ) (n : ℕ) (current : Map (List ℕ)) (next : List ℕ)
    → length (everyone current) ≡ n
    → n ≤ limit
    → length (everyone (sort_out s limit members n current next).0) ≤ limit
unfolding sort_out
sort_out_few s limit [] n current next e h = omega arith
sort_out_few s limit (m ∷ members) n current next e h = elim (Bool-cases (leb limit n)) [
  | inl full ↦ rw full (sort_out_few s limit members n current (next ++ m ∷ []) e h)
  | inr more ↦ rw more (elim (Option-cases (get s.member_network m)) [
    | inl unknown ↦ rw unknown (sort_out_few s limit members n current (next ++ m ∷ []) e h)
    | inr (network, at) ↦ rw at (
        sort_out_few s limit members (suc n) (extend_entry current network (m ∷ [])) next
          (length-extend_entry current network m ∙ ap suc e) (ground arith))
  ])
]

-- The members that timed out are split: those that go offline, grouped by network, and those that
-- are put off are together the members that timed out, each as often as there, and at most `limit`
-- go offline.
pub sort_out-Split :
    (s : State) (limit : ℕ) (members : List ℕ)
    → Split limit members (sort_out s limit members 0 [] [])
unfolding everyone
sort_out-Split s limit members = record {
  all = sort_out_all s limit members 0 [] [];
  few = sort_out_few s limit members 0 [] [] refl (omega arith);
}
