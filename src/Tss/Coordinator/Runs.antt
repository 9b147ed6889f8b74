-- ===== src/Tss/Coordinator/Runs.antt =====
-- What RoastCoordinator of tss/src/roast.rs keeps over its operations, and what it aggregates.
use timechain.Prelude.{
  ℕ, ◌≡◌, refl, ◌∙◌, true, some, List, [], ◌∷◌, arith, length, Option-cases, inl, inr, subst,
}
use timechain.Storage.{contains_key}
use timechain.BTree.{Sorted-Unique, Within-full}
use timechain.Tss.Signer.{RoastSignerResponse}
use timechain.Tss.Coordinator.{
  RoastSession, RoastCoordinator, new, on_commit, on_response, start_session, first_complete,
  aggregate_signature,
}
use timechain.Tss.Coordinator.Keeping.{
  on_commit-threshold, on_response-threshold, start_session-threshold,
  aggregate_signature-threshold, new-IsValid, on_commit-IsValid, on_response-IsValid,
  start_session-IsValid, aggregate_signature-IsValid,
}
use timechain.Tss.Coordinator.Sessions.{SessionIsValid, IsValid, first_complete_lem}

-- The operations of a coordinator, in any order.
pub data Event : Type 0 where
  commit : ℕ → ℕ → Event
  response : ℕ → RoastSignerResponse → Event
  start aggregate : Event

unfoldable pub apply : RoastCoordinator → Event → RoastCoordinator
apply c (commit peer commitment) = on_commit c peer commitment
apply c (response peer message) = on_response c peer message
apply c start = (start_session c).0
apply c aggregate = (aggregate_signature c).0

unfoldable pub run : RoastCoordinator → List Event → RoastCoordinator
run c [] = c
run c (e ∷ es) = run (apply c e) es

apply-IsValid : (c : RoastCoordinator) (e : Event) → IsValid c → IsValid (apply c e)
unfolding apply
apply-IsValid c (commit peer commitment) v = on_commit-IsValid c peer commitment v
apply-IsValid c (response peer message) v = on_response-IsValid c peer message v
apply-IsValid c start v = start_session-IsValid c v
apply-IsValid c aggregate v = aggregate_signature-IsValid c v

run-IsValid : (c : RoastCoordinator) (es : List Event) → IsValid c → IsValid (run c es)
unfolding run
run-IsValid c [] v = v
run-IsValid c (e ∷ es) v = run-IsValid (apply c e) es (apply-IsValid c e v)

apply-threshold : (c : RoastCoordinator) (e : Event) → (apply c e).threshold ≡ c.threshold
unfolding apply
apply-threshold c (commit peer commitment) = on_commit-threshold c peer commitment
apply-threshold c (response peer message) = on_response-threshold c peer message
apply-threshold c start = start_session-threshold c
apply-threshold c aggregate = aggregate_signature-threshold c

run-threshold : (c : RoastCoordinator) (es : List Event) → (run c es).threshold ≡ c.threshold
unfolding run
run-threshold c [] = refl
run-threshold c (e ∷ es) = run-threshold (apply c e) es ∙ apply-threshold c e

-- The signers of a session, by count and by who sent a share.
abbrev pub Signed : ℕ → RoastSession → Type 0
Signed t s =
    (length s.commitments ≡ t)
    × ((peer : ℕ)
        → contains_key s.commitments peer ≡ true
        → contains_key s.signature_shares peer ≡ true)
    × (length s.signature_shares ≡ t)

-- What a valid coordinator aggregates.
pub aggregate_valid :
    (c : RoastCoordinator) (s : RoastSession)
    → IsValid c
    → (aggregate_signature c).1 ≡ some s
    → Signed c.threshold s
unfolding aggregate_signature
aggregate_valid c s v h = elim (Option-cases (first_complete c.sessions)) [
  | inl nothing ↦ absurd (ground arith)
  | inr (id, found) ↦
      let (r, there, done) =
        first_complete_lem c.sessions id (Sorted-Unique c.sessions v.ordered) found in
      let e : r ≡ s = ground arith in
      let w = subst (SessionIsValid c.threshold) e (v.sessions id r there) in
      let full : length s.commitments ≡ length s.signature_shares = ground (arith, e) in
      (
        w.size,
        Within-full s.signature_shares s.commitments w.unique (Sorted-Unique s.commitments w.sorted)
            w.within full,
        omega (arith, w.size, full),
      )
]

-- Whatever commitments and responses a coordinator gets, and in which order, a session that it
-- gives out for aggregation has as many signers as the threshold, a share of each of them, and as
-- many shares as signers.
pub aggregate_signature-Signed :
    (threshold : ℕ) (es : List Event) (s : RoastSession)
    → (aggregate_signature (run (new threshold) es)).1 ≡ some s
    → Signed threshold s
aggregate_signature-Signed threshold es s h =
    let c = run (new threshold) es in
    let w = aggregate_valid c s (run-IsValid (new threshold) es (new-IsValid threshold)) h in
    subst (λ t. Signed t s) (run-threshold (new threshold) es) w
