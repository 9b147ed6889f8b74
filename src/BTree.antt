-- ===== src/BTree.antt =====
-- `BTreeMap` of the Rust standard library, as the list of its entries in the order of their keys;
-- a `BTreeSet` is a map to nothing. `get`, `remove` and `contains_key` are those of Storage.
use timechain.Prelude.{
  ℕ, ◌+◌, ◌≤◌, ◌<◌, ◌≡◌, refl, ap, true, Option, none, some, [], ◌∷◌, ◌++◌, arith, ltb, ◌==◌,
  if◌then◌else◌, length, Option-cases, inl, inr,
}
use timechain.Storage.{Map, get, remove, contains_key, Unique, get-remove, remove-Unique}

abbrev pub Keys : Type 0
Keys = Map (Unit {0})

module _ {ℓ} {V : Type ℓ} where
  unfoldable pub insert : Map V → ℕ → V → Map V
  insert [] k v = (k, v) ∷ []
  insert ((j, w) ∷ m) k v =
      if k == j then (k, v) ∷ m else if ltb k j then (k, v) ∷ (j, w) ∷ m else (j, w) ∷ insert m k v

  -- The map without its last entry, and that entry.
  unfoldable pub pop_last : Map V → Option (Map V × (ℕ × V))
  pop_last [] = none
  pop_last (e ∷ m) = elim (pop_last m) [ none ↦ some ([], e) | some (m', l) ↦ some (e ∷ m', l) ]

  -- Every key is above `k`.
  abbrev pub Above : ℕ → Map V → Type 0
  Above k [] = Unit {0}
  Above k ((j, v) ∷ m) = (k < j) × Above k m

  abbrev pub Sorted : Map V → Type 0
  Sorted [] = Unit {0}
  Sorted ((k, v) ∷ m) = Above k m × Sorted m

  pub get-insert :
      (m : Map V) (k j : ℕ) (v : V) → get (insert m k v) j ≡ (if j == k then some v else get m j)
  unfolding get insert
  get-insert [] k j v = refl
  get-insert ((i, w) ∷ m) k j v = ground (arith, get-insert m k j v)

  Above-insert : (m : Map V) (i k : ℕ) (v : V) → i < k → Above i m → Above i (insert m k v)
  unfolding insert
  Above-insert [] i k v h a = (h, tt)
  Above-insert ((j, w) ∷ m) i k v h a = ground (arith, Above-insert m i k v h a.1)

  Above-le : (m : Map V) (i k : ℕ) → i ≤ k → Above k m → Above i m
  Above-le [] i k h a = tt
  Above-le ((j, w) ∷ m) i k h a = (omega (arith, a.0), Above-le m i k h a.1)

  pub Sorted-insert : (m : Map V) (k : ℕ) (v : V) → Sorted m → Sorted (insert m k v)
  unfolding insert
  Sorted-insert [] k v s = (tt, tt)
  Sorted-insert ((j, w) ∷ m) k v s =
      ground (arith, Above-insert m j k v, Above-le m k j, Sorted-insert m k v s.1)

  pub get-Above : (m : Map V) (k j : ℕ) → Above k m → j ≤ k → get m j ≡ none
  unfolding get
  get-Above [] k j a h = refl
  get-Above ((i, w) ∷ m) k j a h = ground (arith, get-Above m k j a.1 h)

  pub Sorted-Unique : (m : Map V) → Sorted m → Unique m
  Sorted-Unique [] s = tt
  Sorted-Unique ((k, v) ∷ m) s = (get-Above m k k s.0 (omega arith), Sorted-Unique m s.1)

  -- An entry below all others goes to the front.
  pub insert-Above : (m : Map V) (k : ℕ) (v : V) → Above k m → insert m k v ≡ (k, v) ∷ m
  unfolding insert
  insert-Above [] k v a = refl
  insert-Above ((j, w) ∷ m) k v a = ground (arith, a.0)

  -- Any map but the empty one has a last entry.
  pub pop_last_lem :
      (e : ℕ × V) (m : Map V)
      → (m' : Map V) × (l : ℕ × V) × (pop_last (e ∷ m) ≡ some (m', l)) × (e ∷ m ≡ m' ++ l ∷ [])
  unfolding pop_last
  pop_last_lem e [] = ([], e, refl, refl)
  pop_last_lem e (f ∷ m) =
      let (m', l, p, q) = pop_last_lem f m in (e ∷ m', l, ground (arith, p), ap (◌∷◌ e) q)

  Above-append : (k : ℕ) (m n : Map V) → Above k (m ++ n) → Above k m × Above k n
  Above-append k [] n a = (tt, a)
  Above-append k ((j, v) ∷ m) n a = let r = Above-append k m n a.1 in ((a.0, r.0), r.1)

  pub Sorted-append : (m n : Map V) → Sorted (m ++ n) → Sorted m × Sorted n
  Sorted-append [] n s = (tt, s)
  Sorted-append ((j, v) ∷ m) n s =
      let r = Sorted-append m n s.1 in let a = Above-append j m n s.0 in ((a.0, r.0), r.1)

  pub Sorted-remove : (m : Map V) (k : ℕ) → Sorted m → Sorted (remove m k)
  unfolding remove
  Sorted-remove [] k s = tt
  Sorted-remove ((j, v) ∷ m) k s = ground (arith, Above-remove m j k s.0, Sorted-remove m k s.1)
    where
      Above-remove : (m : Map V) (i k : ℕ) → Above i m → Above i (remove m k)
      Above-remove [] i k a = tt
      Above-remove ((j, w) ∷ m) i k a = ground (arith, Above-remove m i k a.1)

module _ {ℓ κ} {V : Type ℓ} {W : Type κ} where
  -- Every key of the one stands in the other.
  abbrev pub Within : Map V → Map W → Type 0
  Within [] c = Unit {0}
  Within ((k, v) ∷ m) c = (contains_key c k ≡ true) × Within m c

  pub Within_of :
      (m : Map V) (c : Map W)
      → ((j : ℕ) → contains_key m j ≡ true → contains_key c j ≡ true)
      → Unique m
      → Within m c
  unfolding get
  Within_of [] c h u = tt
  Within_of ((k, v) ∷ m) c h u =
      let self : contains_key c k ≡ true = h k (ground arith) in
      (self, Within_of m c (λ j p. h j (ground (arith, u.0))) u.1)

  Within-remove :
      (m : Map V) (c : Map W) (k : ℕ) → get m k ≡ none → Within m c → Within m (remove c k)
  unfolding get
  Within-remove [] c k g w = tt
  Within-remove ((j, v) ∷ m) c k g w =
      (ground (arith, get-remove c k j, w.0), Within-remove m c k (ground arith) w.1)

length-remove-none {ℓ} :
    {V : Type ℓ} (c : Map V) (k : ℕ) → get c k ≡ none → length (remove c k) ≡ length c
unfolding get remove
length-remove-none [] k g = refl
length-remove-none ((j, v) ∷ c) k g = ground (arith, length-remove-none c k)

pub length-remove {ℓ} :
    {V : Type ℓ} (c : Map V) (k : ℕ)
    → contains_key c k ≡ true
    → Unique c
    → length (remove c k) + 1 ≡ length c
unfolding get remove
length-remove [] k h u = cc
length-remove ((j, v) ∷ c) k h u = ground (arith, length-remove c k, length-remove-none c k)

module _ {ℓ κ} {V : Type ℓ} {W : Type κ} where
  pub length-le : (m : Map V) (c : Map W) → Unique m → Unique c → Within m c → length m ≤ length c
  length-le [] c u d w = omega arith
  length-le ((k, v) ∷ m) c u d w =
      let rest = length-le m (remove c k) u.1 (remove-Unique c k d) (Within-remove m c k u.0 w.1) in
      omega (arith, rest, length-remove c k w.0 d)

  -- A map within another of the same size has all its keys.
  pub Within-full :
      (m : Map V) (c : Map W)
      → Unique m
      → Unique c
      → Within m c
      → length c ≡ length m
      → (j : ℕ) → contains_key c j ≡ true
      → contains_key m j ≡ true
  Within-full m c u d w same j there = elim (Option-cases (get m j)) [
    | inl gone ↦ absurd (
        omega (
          arith,
          length-le m (remove c j) u (remove-Unique c j d) (Within-remove m c j gone w),
          length-remove c j there d,
        ))
    | inr (v, e) ↦ rw e
  ]
