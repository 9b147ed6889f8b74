-- ===== src/Storage.antt =====
-- The storage maps of `frame_support` as the pallets use them: `StorageMap` as an association
-- list, `StorageDoubleMap` as a map of maps, which is what its prefix operations see.
-- A runtime iterates in the order of the hashed keys; here it is the order of the list, and every
-- theorem is about lists in any order.
use timechain.Prelude.{
  ℕ, ◌≡◌, ◌≢◌, refl, Bool, Option, none, some, List, [], ◌∷◌, map, arith, ◌==◌, if◌then◌else◌,
  is_some,
}

-- Keys are network, shard, task and batch ids and byte strings of one fixed length, all read as
-- numbers.
abbrev pub Map {ℓ} : Type ℓ → Type ℓ
Map V = List (ℕ × V)

abbrev pub DoubleMap {ℓ} : Type ℓ → Type ℓ
DoubleMap V = Map (Map V)

module _ {ℓ} {V : Type ℓ} where
  unfoldable pub get : Map V → ℕ → Option V
  get [] k = none
  get ((j, v) ∷ m) k = if k == j then some v else get m k

  unfoldable pub insert : Map V → ℕ → V → Map V
  insert [] k v = (k, v) ∷ []
  insert ((j, w) ∷ m) k v = if k == j then (k, v) ∷ m else (j, w) ∷ insert m k v

  unfoldable pub remove : Map V → ℕ → Map V
  remove [] k = []
  remove ((j, w) ∷ m) k = if k == j then remove m k else (j, w) ∷ remove m k

  abbrev pub contains_key : Map V → ℕ → Bool
  contains_key m k = is_some (get m k)

  -- `iter_keys`.
  abbrev pub keys : Map V → List ℕ
  keys m = map (λ e. e.0) m

  pub get-insert :
      (m : Map V) (k j : ℕ) (v : V) → get (insert m k v) j ≡ (if j == k then some v else get m j)
  unfolding get insert
  get-insert [] k j v = refl
  get-insert ((i, w) ∷ m) k j v = ground (arith, get-insert m k j v)

  pub get-remove : (m : Map V) (k j : ℕ) → get (remove m k) j ≡ (if j == k then none else get m j)
  unfolding get remove
  get-remove [] k j = ground arith
  get-remove ((i, w) ∷ m) k j = ground (arith, get-remove m k j)

  pub get-insert_self : (m : Map V) (k : ℕ) (v : V) → get (insert m k v) k ≡ some v
  get-insert_self m k v = ground (arith, get-insert m k k v)

  pub get-insert_ne : (m : Map V) (k j : ℕ) (v : V) → j ≢ k → get (insert m k v) j ≡ get m j
  get-insert_ne m k j v h = ground (arith, get-insert m k j v)

  pub get-remove_self : (m : Map V) (k : ℕ) → get (remove m k) k ≡ none
  get-remove_self m k = ground (arith, get-remove m k k)

  pub get-remove_ne : (m : Map V) (k j : ℕ) → j ≢ k → get (remove m k) j ≡ get m j
  get-remove_ne m k j h = ground (arith, get-remove m k j)

pub ruleset map_laws = (get-insert, get-remove)

module _ {ℓ} {V : Type ℓ} where
  -- The entries under the prefix `p`, as `iter_prefix` yields them.
  unfoldable pub prefix : DoubleMap V → ℕ → Map V
  prefix m p = elim (get m p) [ none ↦ [] | some e ↦ e ]

  abbrev pub get₂ : DoubleMap V → ℕ → ℕ → Option V
  get₂ m p k = get (prefix m p) k

  unfoldable pub insert₂ : DoubleMap V → ℕ → ℕ → V → DoubleMap V
  insert₂ m p k v = insert m p (insert (prefix m p) k v)

  unfoldable pub remove₂ : DoubleMap V → ℕ → ℕ → DoubleMap V
  remove₂ m p k = insert m p (remove (prefix m p) k)

  -- What is left after `drain_prefix`.
  unfoldable pub drain_prefix : DoubleMap V → ℕ → DoubleMap V
  drain_prefix m p = remove m p

  pub get₂-insert₂ :
      (m : DoubleMap V) (p k q j : ℕ) (v : V)
      → get₂ (insert₂ m p k v) q j
        ≡ (if q == p then (if j == k then some v else get₂ m p j) else get₂ m q j)
  unfolding insert₂ prefix
  get₂-insert₂ m p k q j v =
      ground (arith, get-insert m p q (insert (prefix m p) k v), get-insert (prefix m p) k j v)

  pub get₂-remove₂ :
      (m : DoubleMap V) (p k q j : ℕ)
      → get₂ (remove₂ m p k) q j
        ≡ (if q == p then (if j == k then none else get₂ m p j) else get₂ m q j)
  unfolding remove₂ prefix
  get₂-remove₂ m p k q j =
      ground (arith, get-insert m p q (remove (prefix m p) k), get-remove (prefix m p) k j)

  pub get₂-drain_prefix :
      (m : DoubleMap V) (p q j : ℕ)
      → get₂ (drain_prefix m p) q j ≡ (if q == p then none else get₂ m q j)
  unfolding drain_prefix prefix get
  get₂-drain_prefix m p q j = ground (arith, get-remove m p q)

pub ruleset map₂_laws = (get₂-insert₂, get₂-remove₂, get₂-drain_prefix)

module _ {ℓ} {V : Type ℓ} where
  -- No key stands twice in the list: what a storage map is.
  abbrev pub Unique : Map V → Type ℓ
  Unique [] = Unit
  Unique ((k, v) ∷ m) = (get m k ≡ none) × Unique m

  pub insert-Unique : (m : Map V) (k : ℕ) (v : V) → Unique m → Unique (insert m k v)
  unfolding insert get
  insert-Unique [] k v u = (refl, tt)
  insert-Unique ((j, w) ∷ m) k v u = ground (arith, insert-Unique m k v u.1, get-insert m k j v)

  pub remove-Unique : (m : Map V) (k : ℕ) → Unique m → Unique (remove m k)
  unfolding remove
  remove-Unique [] k u = tt
  remove-Unique ((j, w) ∷ m) k u = ground (arith, remove-Unique m k u.1, get-remove m k j)

  pub prefix-insert₂ :
      (m : DoubleMap V) (p k q : ℕ) (v : V)
      → prefix (insert₂ m p k v) q ≡ (if q == p then insert (prefix m p) k v else prefix m q)
  unfolding insert₂ prefix
  prefix-insert₂ m p k q v = ground (arith, get-insert m p q (insert (prefix m p) k v))

  pub prefix-remove₂ :
      (m : DoubleMap V) (p k q : ℕ)
      → prefix (remove₂ m p k) q ≡ (if q == p then remove (prefix m p) k else prefix m q)
  unfolding remove₂ prefix
  prefix-remove₂ m p k q = ground (arith, get-insert m p q (remove (prefix m p) k))

  pub prefix-drain_prefix :
      (m : DoubleMap V) (p q : ℕ)
      → prefix (drain_prefix m p) q ≡ (if q == p then [] else prefix m q)
  unfolding drain_prefix prefix
  prefix-drain_prefix m p q = ground (arith, get-remove m p q)
