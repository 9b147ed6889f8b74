-- ===== src/Tss/Coordinator/Sessions.antt =====
-- The sessions of RoastCoordinator of tss/src/roast.rs: who is in them, and when they are complete.
use mathlib.Core.List.{append_assoc, append-nil}
use timechain.Prelude.{
  ℕ, zero, suc, ◌+◌, ◌≤◌, ◌≡◌, refl, sym, ap, ◌∙◌, true, Option, none, some, [], ◌∷◌, ◌++◌, arith,
  ltb, if◌then◌else◌, length, take, drop, take-append, drop-append, length-append, Bool-cases, inl,
  inr, subst, wrapping_add, u16_mod,
}
use timechain.Storage.{Map, get, Unique}
use timechain.BTree.{insert, Sorted, Sorted-append, insert-Above, pop_last_lem, Within}
use timechain.Tss.Signer.{RoastSignerRequest}
use timechain.Tss.Coordinator.{
  RoastSession, RoastCoordinator, is_complete, trim, start_session, first_complete,
}

pub record SessionIsValid (threshold : ℕ) (s : RoastSession) : Type 0 where
  pub size : length s.commitments ≡ threshold
  pub sorted : Sorted s.commitments
  pub unique : Unique s.signature_shares
  pub within : Within s.signature_shares s.commitments

pub record IsValid (c : RoastCoordinator) : Type 0 where
  pub sorted : Sorted c.commitments
  pub ordered : Sorted c.sessions
  pub sessions :
      (id : ℕ) (s : RoastSession) → get c.sessions id ≡ some s → SessionIsValid c.threshold s

Sorted-snoc :
    (m back : Map ℕ) (l : ℕ × ℕ) → Sorted ((m ++ l ∷ []) ++ back) → insert back l.0 l.1 ≡ l ∷ back
Sorted-snoc m back l s =
    let tail = (Sorted-append m (l ∷ back) (subst Sorted (append_assoc m (l ∷ []) back) s)).1 in
    insert-Above back l.0 l.1 tail.0

-- The loop cuts the map after its first `threshold` entries.
trim_lem :
    (fuel threshold : ℕ) (c back : Map ℕ)
    → Sorted (c ++ back)
    → threshold ≤ length c
    → length c ≤ threshold + fuel
    → ((trim fuel threshold c back).0 ++ (trim fuel threshold c back).1 ≡ c ++ back)
      × (length (trim fuel threshold c back).0 ≡ threshold)
unfolding trim
trim_lem zero threshold c back s h k = (refl, omega arith)
trim_lem (suc fuel) threshold [] back s h k = ground arith
trim_lem (suc fuel) threshold (e ∷ c) back s h k =
    elim (Bool-cases (ltb threshold (length (e ∷ c)))) [
      | inr done ↦ rw (done, trim) (refl, ground arith)
      | inl more ↦
          let (rest, l, p, q) = pop_last_lem e c in
          let shape : (e ∷ c) ++ back ≡ rest ++ (l ∷ back) =
            ap (λ x. x ++ back) q ∙ append_assoc rest (l ∷ []) back in
          let len : length (e ∷ c) ≡ length rest + 1 =
            omega (arith, ap length q, length-append rest (l ∷ [])) in
          let front = Sorted-snoc rest back l (subst (λ x. Sorted (x ++ back)) q s) in
          let ih =
            trim_lem fuel threshold rest (l ∷ back) (subst Sorted shape s) (ground (arith, len))
              (omega (arith, len)) in
          rw (more, p, front, trim) (ih.0 ∙ sym shape, ih.1)
    ]

-- The same, as `take` and `drop`.
trim-take-drop :
    (threshold : ℕ) (c : Map ℕ)
    → Sorted c
    → threshold ≤ length c
    → trim (length c) threshold c [] ≡ (take threshold c, drop threshold c)
trim-take-drop threshold c s h =
    let r = trim (length c) threshold c [] in
    let cut =
      trim_lem (length c) threshold c [] (subst Sorted (sym (append-nil c)) s) h (omega arith) in
    let whole : r.0 ++ r.1 ≡ c = cut.0 ∙ append-nil c in
    let low : take threshold c ≡ r.0 =
      ap (take threshold) (sym whole) ∙ take-append r.0 r.1 threshold cut.1 in
    let high : drop threshold c ≡ r.1 =
      ap (drop threshold) (sym whole) ∙ drop-append r.0 r.1 threshold cut.1 in
    λ i. (sym low i, sym high i)

-- What `start_session` promises: the signers with the lowest identifiers, as many as the threshold.
abbrev pub started : RoastCoordinator → RoastCoordinator × Option RoastSignerRequest
started c =
    let taken = take c.threshold c.commitments in
    if ltb (length c.commitments) c.threshold then (c, none) else (
      record c {
        session_id = wrapping_add u16_mod c.session_id 1;
        commitments = drop c.threshold c.commitments;
        sessions =
            insert c.sessions c.session_id (record { commitments = taken; signature_shares = [] });
      },
      some (record { session_id = c.session_id; commitments = taken }),
    )

-- A session starts exactly when there are as many commitments as the threshold: with the lowest
-- identifiers, and the other commitments stay for the next session.
pub start_session-started : (c : RoastCoordinator) → IsValid c → start_session c ≡ started c
unfolding start_session
start_session-started c v = elim (Bool-cases (ltb (length c.commitments) c.threshold)) [
  | inl few ↦ rw few refl
  | inr enough ↦ rw (enough, trim-take-drop c.threshold c.commitments v.sorted (ground arith)) refl
]

pub first_complete_lem :
    (m : Map RoastSession) (id : ℕ)
    → Unique m
    → first_complete m ≡ some id
    → (s : RoastSession) × (get m id ≡ some s) × (is_complete s ≡ true)
unfolding first_complete get
first_complete_lem [] id u h = absurd (cc)
first_complete_lem ((k, s) ∷ m) id u h = elim (Bool-cases (is_complete s)) [
  | inl done ↦ (s, ground arith, done)
  | inr more ↦
      let (s', p, q) = first_complete_lem m id u.1 (ground arith) in (s', ground (arith, u.0), q)
]
