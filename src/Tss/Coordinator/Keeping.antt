-- ===== src/Tss/Coordinator/Keeping.antt =====
-- The operations of RoastCoordinator of tss/src/roast.rs keep its sessions valid.
use timechain.Prelude.{
  ℕ, ◌≡◌, sym, true, some, [], ◌∷◌, arith, ltb, ◌==◌, length, take, drop, take-append-drop,
  length-take, Bool-cases, Option-cases, inl, inr, subst,
}
use timechain.Storage
use timechain.Storage.{Map, get, remove, contains_key, Unique, get-remove, insert-Unique}
use timechain.BTree.{
  insert, get-insert, Sorted, Sorted-insert, Sorted-append, Sorted-remove, Within,
}
use timechain.Tss.Signer.{RoastSignerResponse}
use timechain.Tss.Coordinator.{
  RoastSession, RoastCoordinator, new, on_signature_share, on_commit, on_response, start_session,
  first_complete, aggregate_signature,
}
use timechain.Tss.Coordinator.Sessions.{SessionIsValid, IsValid, start_session-started}

Within-insert :
    (m c : Map ℕ) (k v : ℕ) → contains_key c k ≡ true → Within m c → Within (Storage.insert m k v) c
unfolding Storage.insert
Within-insert [] c k v h w = (h, tt)
Within-insert ((j, x) ∷ m) c k v h w = ground (arith, Within-insert m c k v h w.1)

on_signature_share-IsValid :
    (t : ℕ) (s : RoastSession) (peer share : ℕ)
    → SessionIsValid t s
    → SessionIsValid t (on_signature_share s peer share)
unfolding on_signature_share
on_signature_share-IsValid t s peer share v = elim (Bool-cases (contains_key s.commitments peer)) [
  | inr stranger ↦ rw stranger v
  | inl member ↦ rw member (record {
    size = v.size;
    sorted = v.sorted;
    unique = insert-Unique s.signature_shares peer share v.unique;
    within = Within-insert s.signature_shares s.commitments peer share member v.within;
  })
]

-- A valid session under one id beside the valid ones.
insert-valid :
    (t : ℕ) (m : Map RoastSession) (id : ℕ) (s : RoastSession)
    → SessionIsValid t s
    → ((j : ℕ) (r : RoastSession) → get m j ≡ some r → SessionIsValid t r)
    → (j : ℕ) (r : RoastSession) → get (insert m id s) j ≡ some r
    → SessionIsValid t r
insert-valid t m id s v all j r h = elim (Bool-cases (j == id)) [
  | inl same ↦ let e : s ≡ r = ground (arith, get-insert m id j s) in subst (SessionIsValid t) e v
  | inr other ↦ all j r (ground (arith, get-insert m id j s))
]

pub new-IsValid : (t : ℕ) → IsValid (new t)
unfolding get
new-IsValid t = record { sorted = tt; ordered = tt; sessions = λ id s h. absurd (cc) }

pub on_commit-IsValid :
    (c : RoastCoordinator) (peer commitment : ℕ) → IsValid c → IsValid (on_commit c peer commitment)
unfolding on_commit
on_commit-IsValid c peer commitment v = elim (Bool-cases (contains_key c.committed peer)) [
  | inl known ↦ rw known v
  | inr fresh ↦ rw fresh (record {
    sorted = Sorted-insert c.commitments peer commitment v.sorted;
    ordered = v.ordered;
    sessions = v.sessions;
  })
]

pub on_response-IsValid :
    (c : RoastCoordinator) (peer : ℕ) (response : RoastSignerResponse)
    → IsValid c
    → IsValid (on_response c peer response)
unfolding on_response
on_response-IsValid c peer response v = elim (Option-cases (get c.sessions response.session_id)) [
  | inl gone ↦
      let same : on_response c peer response ≡ c = ground (arith, gone) in
      subst IsValid (sym same) v
  | inr (s, there) ↦
      let s' = on_signature_share s peer response.signature_share in
      let after : RoastCoordinator = record c {
        commitments = insert c.commitments peer response.commitment;
        sessions = insert c.sessions response.session_id s';
      } in
      let same : on_response c peer response ≡ after = ground (arith, there) in
      subst IsValid (sym same) (record {
        sorted = Sorted-insert c.commitments peer response.commitment v.sorted;
        ordered = Sorted-insert c.sessions response.session_id s' v.ordered;
        sessions =
            insert-valid c.threshold c.sessions response.session_id s'
              (on_signature_share-IsValid c.threshold s peer response.signature_share
                (v.sessions response.session_id s there))
              v.sessions;
      })
]

pub start_session-IsValid : (c : RoastCoordinator) → IsValid c → IsValid (start_session c).0
start_session-IsValid c v =
    rw (start_session-started c v) (elim (Bool-cases (ltb (length c.commitments) c.threshold)) [
      | inl few ↦ rw few v
      | inr enough ↦
          let t = c.threshold in
          let halves =
            Sorted-append (take t c.commitments) (drop t c.commitments)
              (subst Sorted (sym (take-append-drop t c.commitments)) v.sorted) in
          let s : RoastSession = record {
            commitments = take t c.commitments;
            signature_shares = [];
          } in
          let size : length (take t c.commitments) ≡ t =
            ground (arith, length-take t c.commitments) in
          let valid : SessionIsValid t s = record {
            size = size;
            sorted = halves.0;
            unique = tt;
            within = tt;
          } in
          rw enough (record {
            sorted = halves.1;
            ordered = Sorted-insert c.sessions c.session_id s v.ordered;
            sessions = insert-valid t c.sessions c.session_id s valid v.sessions;
          })
    ])

pub aggregate_signature-IsValid :
    (c : RoastCoordinator) → IsValid c → IsValid (aggregate_signature c).0
unfolding aggregate_signature
aggregate_signature-IsValid c v = elim (Option-cases (first_complete c.sessions)) [
  | inl nothing ↦
      let same : (aggregate_signature c).0 ≡ c = ground (arith, nothing) in
      subst IsValid (sym same) v
  | inr (id, found) ↦
      let after : RoastCoordinator = record c { sessions = remove c.sessions id } in
      let same : (aggregate_signature c).0 ≡ after = ground (arith, found) in
      subst IsValid (sym same) (record {
        sorted = v.sorted;
        ordered = Sorted-remove c.sessions id v.ordered;
        sessions = λ j s h. v.sessions j s (ground (arith, get-remove c.sessions id j));
      })
]

pub start_session-threshold : (c : RoastCoordinator) → (start_session c).0.threshold ≡ c.threshold
unfolding start_session
start_session-threshold c = ground arith

pub aggregate_signature-threshold :
    (c : RoastCoordinator) → (aggregate_signature c).0.threshold ≡ c.threshold
unfolding aggregate_signature
aggregate_signature-threshold c = ground arith

pub on_commit-threshold :
    (c : RoastCoordinator) (peer commitment : ℕ)
    → (on_commit c peer commitment).threshold ≡ c.threshold
unfolding on_commit
on_commit-threshold c peer commitment = ground arith

pub on_response-threshold :
    (c : RoastCoordinator) (peer : ℕ) (response : RoastSignerResponse)
    → (on_response c peer response).threshold ≡ c.threshold
unfolding on_response
on_response-threshold c peer response = ground arith
