-- ===== src/Elections/Lists.antt =====
-- The lists of pallets/elections/src/lib.rs: chunks of one size, and the members in order.
use mathlib.Core.Path.{subst}
use mathlib.Core.List.{Perm, append-nil, perm_middle}
use mathlib.Core.List.Perm
use native.Mathlib.Nat.{suc-mul}
use timechain.Prelude.{
  ℕ, zero, suc, ◌+◌, ◌*◌, ◌≤◌, ◌<◌, ◌≡◌, refl, sym, ap, ◌∙◌, List, [], ◌∷◌, ◌++◌, arith, length,
  take, drop, All, ltb, Bool-cases, inl, inr, take-append-drop, length-take, length-drop,
}
use timechain.Elections.{insert_sorted, sort_reverse, chunks_of, flatten}

-- `l` is cut into `k` parts of `size` members each, which together are `l`.
pub record Cut (size k : ℕ) (l : List ℕ) (cs : List (List ℕ)) : Type 0 where
  pub full : All (λ (c : List ℕ). length c ≡ size) cs
  pub count : length cs ≡ k
  pub whole : flatten cs ≡ l

chunks_of-nil : (fuel size : ℕ) → chunks_of fuel size [] ≡ []
unfolding chunks_of
chunks_of-nil zero size = refl
chunks_of-nil (suc fuel) size = refl

pub chunks_of-Cut :
    (fuel size k : ℕ) (l : List ℕ)
    → 0 < size
    → length l ≡ k * size
    → length l ≤ fuel
    → Cut size k l (chunks_of fuel size l)
unfolding chunks_of
chunks_of-Cut fuel size zero [] h e b =
    rw (chunks_of-nil fuel size) (record { full = tt; count = refl; whole = refl })
chunks_of-Cut fuel size zero (x ∷ l) h e b = absurd (omega (arith))
chunks_of-Cut fuel size (suc k) [] h e b = absurd (omega (arith, suc-mul k size))
chunks_of-Cut zero size (suc k) (x ∷ l) h e b = absurd (omega arith)
chunks_of-Cut (suc fuel) size (suc k) (x ∷ l) h e b =
    let len : length (x ∷ l) ≡ size + k * size = omega (arith, suc-mul k size) in
    let rest =
      chunks_of-Cut fuel size k (drop size (x ∷ l)) h (omega (arith, length-drop size (x ∷ l)))
        (omega (arith, length-drop size (x ∷ l))) in
    record {
      full = (omega (arith, length-take size (x ∷ l)), rest.full);
      count = omega (arith, rest.count);
      whole = ap (λ r. take size (x ∷ l) ++ r) rest.whole ∙ take-append-drop size (x ∷ l);
    }

insert_sorted-Perm : (a : ℕ) (l : List ℕ) → Perm (insert_sorted a l) (a ∷ l)
unfolding insert_sorted
insert_sorted-Perm a [] = Perm.refl (a ∷ [])
insert_sorted-Perm a (b ∷ l) = elim (Bool-cases (ltb a b)) [
  | inl less ↦ rw less (Perm.trans (Perm.cons b (insert_sorted-Perm a l)) (Perm.swap a b l))
  | inr more ↦ rw more (Perm.refl (a ∷ b ∷ l))
]

pub sort_reverse-Perm : (l : List ℕ) → Perm (sort_reverse l) l
unfolding sort_reverse
sort_reverse-Perm [] = Perm.refl []
sort_reverse-Perm (a ∷ l) =
    Perm.trans (insert_sorted-Perm a (sort_reverse l)) (Perm.cons a (sort_reverse-Perm l))

-- Each member is followed by none that is larger.
pub Falling : List ℕ → Type 0
Falling [] = Unit
Falling (a ∷ l) = All (λ (b : ℕ). b ≤ a) l × Falling l

All-insert_sorted :
    (top a : ℕ) (l : List ℕ)
    → a ≤ top
    → All (λ (b : ℕ). b ≤ top) l
    → All (λ (b : ℕ). b ≤ top) (insert_sorted a l)
unfolding insert_sorted
All-insert_sorted top a [] h all = (h, tt)
All-insert_sorted top a (b ∷ l) h all = elim (Bool-cases (ltb a b)) [
  | inl less ↦ rw less (all.0, All-insert_sorted top a l h all.1)
  | inr more ↦ rw more (h, all)
]

All-le_trans : (a b : ℕ) (l : List ℕ) → a ≤ b → All (λ (c : ℕ). c ≤ a) l → All (λ (c : ℕ). c ≤ b) l
All-le_trans a b [] h all = tt
All-le_trans a b (c ∷ l) h all = (omega (arith, all.0), All-le_trans a b l h all.1)

insert_sorted-Falling : (a : ℕ) (l : List ℕ) → Falling l → Falling (insert_sorted a l)
unfolding insert_sorted Falling
insert_sorted-Falling a [] f = (tt, tt)
insert_sorted-Falling a (b ∷ l) f = elim (Bool-cases (ltb a b)) [
  | inl less ↦ rw less (All-insert_sorted b a l (ground arith) f.0, insert_sorted-Falling a l f.1)
  | inr more ↦ rw more ((ground arith, All-le_trans b a l (ground arith) f.0), f)
]

pub sort_reverse-Falling : (l : List ℕ) → Falling (sort_reverse l)
unfolding sort_reverse Falling
sort_reverse-Falling [] = tt
sort_reverse-Falling (a ∷ l) = insert_sorted-Falling a (sort_reverse l) (sort_reverse-Falling l)

pub append_comm-Perm : (xs ys : List ℕ) → Perm (xs ++ ys) (ys ++ xs)
append_comm-Perm [] ys = subst (Perm ys) (sym (append-nil ys)) (Perm.refl ys)
append_comm-Perm (x ∷ xs) ys =
    Perm.trans (Perm.cons x (append_comm-Perm xs ys)) (Perm.symm (perm_middle ys xs))
