-- ===== src/Tss/Ready/Members.antt =====
-- The members of a new Tss of tss/src/lib.rs.
use timechain.Prelude.{
  ℕ, suc, ◌+◌, ◌≤◌, ◌<◌, ◌≡◌, refl, ap, ◌∙◌, true, List, [], ◌∷◌, arith, ◌==◌, length, contains,
  Bool-cases, inl, inr, u64_mod,
}
use timechain.Storage.{Map, get, contains_key, Unique}
use timechain.BTree
use timechain.BTree.{Keys, Sorted, Sorted-insert, Sorted-Unique, Within}
use timechain.Tss.Machine.{identify, to_set, new}
use timechain.Tss.Ready.{IsValid}

module _ (to_frost : ℕ → ℕ) where
  -- The peers of a new machine.
  identify-Sorted : (ps : List ℕ) (m : Map ℕ) → Sorted m → Sorted (identify to_frost ps m)
  identify-Sorted [] m s = s
  identify-Sorted (p ∷ ps) m s =
      identify-Sorted ps (BTree.insert m (to_frost p) p) (Sorted-insert m (to_frost p) p s)

  identify-has :
      (ps : List ℕ) (m : Map ℕ) (id : ℕ)
      → contains_key m id ≡ true
      → contains_key (identify to_frost ps m) id ≡ true
  identify-has [] m id h = h
  identify-has (p ∷ ps) m id h =
      identify-has ps (BTree.insert m (to_frost p) p) id
        (ground (arith, BTree.get-insert m (to_frost p) id p))

  identify-contains :
      (ps : List ℕ) (m : Map ℕ) (p : ℕ)
      → contains ps p ≡ true
      → contains_key (identify to_frost ps m) (to_frost p) ≡ true
  identify-contains [] m p h = absurd (cc)
  identify-contains (q ∷ ps) m p h = elim (Bool-cases (p == q)) [
    | inl same ↦ identify-has ps (BTree.insert m (to_frost q) q) (to_frost p) (
        let e : p ≡ q = ground (arith, same) in
        rw e (ground (arith, BTree.get-insert m (to_frost q) (to_frost q) q)))
    | inr other ↦ identify-contains ps (BTree.insert m (to_frost q) q) p (ground (arith, other))
  ]

  length-insert : (m : Map ℕ) (k v : ℕ) → length (BTree.insert m k v) ≤ suc (length m)
  unfolding BTree.insert
  length-insert [] k v = omega arith
  length-insert ((j, w) ∷ m) k v = ground (arith, length-insert m k v)

  length-identify :
      (ps : List ℕ) (m : Map ℕ) → length (identify to_frost ps m) ≤ length ps + length m
  length-identify [] m = omega arith
  length-identify (p ∷ ps) m =
      omega
        (arith, length-identify ps (BTree.insert m (to_frost p) p), length-insert m (to_frost p) p)

  to_set-get : (m : Map ℕ) (k : ℕ) → contains_key (to_set to_frost m) k ≡ contains_key m k
  unfolding get
  to_set-get [] k = refl
  to_set-get ((j, v) ∷ m) k = ground (arith, to_set-get m k)

  to_set-Unique : (m : Map ℕ) → Unique m → Unique (to_set to_frost m)
  to_set-Unique [] u = tt
  to_set-Unique ((j, v) ∷ m) u = (ground (arith, to_set-get m j, u.0), to_set-Unique m u.1)

  length-to_set : (m : Map ℕ) → length (to_set to_frost m) ≡ length m
  length-to_set [] = refl
  length-to_set ((j, v) ∷ m) = ap suc (length-to_set m)

  pub new-IsValid :
      (peer : ℕ) (members : List ℕ) (threshold : ℕ)
      → contains members peer ≡ true
      → length members < u64_mod
      → IsValid to_frost (new to_frost peer members threshold)
  new-IsValid peer members threshold member few =
      let m = identify to_frost members [] in
      record {
        state = record {
          dkg = record {
            members = to_set-Unique m (Sorted-Unique m (identify-Sorted members [] tt));
            own = to_set-get m (to_frost peer) ∙ identify-contains members [] peer member;
            few = omega (arith, length-to_set m, length-identify members []);
            unique = tt;
            others = tt;
          };
          id = refl;
          known = λ j h. to_set-get m j ∙ h;
        };
        frost_id = refl;
      }
