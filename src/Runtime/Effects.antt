-- ===== src/Runtime/Effects.antt =====
-- The calls of pallets/shards/src/lib.rs that reach the tasks pallet, in the runtime.
use timechain.Prelude.{
  ℕ, ◌≡◌, refl, true, false, sym, ap, ◌∙◌, subst, some, List, [], ◌∷◌, is_empty, is_empty-nil,
  unwrap_or, all, get_elem?, arith, ◌==◌, ==→eq, Bool-cases, Option-cases, inl, inr, map,
}
use timechain.Storage.{
  Map, get, insert, insert₂, get₂, prefix, keys, drain_prefix, get-insert, get-insert_self,
  get₂-insert₂,
}
use timechain.Outcome.{
  After, After-skip, ensure, ok_or, unexpected_ready, unknown_shard_network,
  unknown_shard_commitment,
}
use timechain.Shards as Shards
use timechain.Shards.{
  MemberStatus, added, committed, ready, is_ready, is_some_committed, online, remove_shards_offline,
}
use timechain.Shards.Calls.{ready_shard, execute_ready, timeout_dkgs, timed_out, statuses}
use timechain.Shards.Interface.{members_offline, note_all, apply_updates}
use timechain.Tasks.State as Tasks
use timechain.Tasks.Assignment.{ledger, IsValid}
use timechain.Tasks.Assignment.Counting.{rehome-IsValid}
use timechain.Tasks.Assignment.Interfacing.{shard_online-IsValid}
use timechain.Runtime.{tasks_config, shards_config}
use timechain.Runtime.Online.{Online, IsSound, Steady, same-Steady}
use timechain.Runtime.Removing.{
  Outside, remove_shards_offline-Removed, remove_shards_offline-IsValid,
}
use timechain.Runtime.Leaving.{Applied, note_all-Applied}

-- The tasks are assigned to the shards that are online.
pub record IsJoined (s : Shards.State) (t : Tasks.State) : Type 0 where
  pub sound : IsSound s
  pub assigned : IsValid (Online s) (ledger t)

-- A change of the shards alone, in which no shard goes offline.
pub Steady-IsJoined :
    (s s' : Shards.State) (t : Tasks.State) → Steady s s' → IsJoined s t → IsJoined s' t
Steady-IsJoined s s' t st j = record {
  sound = st.sound;
  assigned =
      rehome-IsValid (Online s) (Online s') (ledger t) (λ n u k h home. st.still n k home)
        (λ n k h home. st.still n k home) j.assigned;
}

ready_lem : (status : MemberStatus) → is_ready status ≡ true → status ≡ ready
ready_lem added h = absurd cc
ready_lem (committed c) h = absurd cc
ready_lem ready h = refl

false≢true : false ≡ true → ⊥
false≢true e = cc

-- The members of a shard whose statuses are all `Ready`.
all_ready :
    (members : Map MemberStatus) (m : ℕ) (status : MemberStatus)
    → all is_ready (map (λ e. e.1) members) ≡ true
    → get members m ≡ some status
    → status ≡ ready
unfolding get
all_ready [] m status h g = absurd cc
all_ready ((j, first) ∷ members) m status h g = elim (Bool-cases (is_ready first)) [
  | inr not_yet ↦ absurd (false≢true (rw not_yet at h))
  | inl met ↦ elim (Bool-cases (m == j)) [
    | inl same ↦
        ap (λ o. unwrap_or {A = MemberStatus} o status) (sym (rw same at g)) ∙ ready_lem first met
    | inr other ↦ all_ready members m status (rw met at h) (rw other at g)
  ]
]

module _ {E : Type 0} (base : Shards.Config E) (cfg : Tasks.Config) where
  abbrev Both : Type 0
  Both = E × Tasks.State

  abbrev answers : Shards.Config Both
  answers = shards_config base cfg

  -- `t` is what was noted of some shards, which are removed now.
  removed-IsJoined :
      (s t : Shards.State) (w : Both) (shards : List ℕ)
      → IsJoined s w.1
      → Applied s shards t
      → (let r = remove_shards_offline answers t w shards in IsJoined r.0 r.1.1)
  removed-IsJoined s t w shards j a =
      let r = remove_shards_offline answers t w shards in
      let f = remove_shards_offline-Removed base cfg t w shards in
      let still : (n k : ℕ) → Online s n k × Outside shards k → Online r.0 n k = λ n k h.
        (f.network k h.1 ∙ rw a.network h.0.0, f.status k h.1 ∙ (a.noted k).stays h.0.1 h.1) in
      record {
        sound = record {
          met = λ k m st h g.
              let before = sym (f.status k (f.out k h)) ∙ h in
              j.sound.met k m st ((a.noted k).off before) (rw a.members at (f.members k m st g));
          known = λ k n h.
              rw (f.counter, a.counter) (j.sound.known k n (rw a.network at (f.fewer k n h)));
        };
        assigned =
            rehome-IsValid (λ n k. Online s n k × Outside shards k) (Online r.0) _
              (λ n u k h home. still n k home) (λ n k h home. still n k home)
              (remove_shards_offline-IsValid base cfg (Online s) t w shards
                (λ n k home. rw a.network home.0) j.assigned);
      }

  -- What was noted of no shard is removed with none.
  noted-IsJoined :
      (s t : Shards.State) (u : Tasks.State) → IsJoined s u → Applied s [] t → IsJoined t u
  noted-IsJoined s t u j a =
      Steady-IsJoined s t u
        (record {
          sound = record {
            met = λ k m st h g. j.sound.met k m st ((a.noted k).off h) (rw a.members at g);
            known = λ k n h. rw a.counter (j.sound.known k n (rw a.network at h));
          };
          still = λ n k h. (rw a.network h.0, (a.noted k).stays h.1 tt);
        })
        j

  pub members_offline-IsJoined :
      (s : Shards.State) (w : Both) (members : List ℕ)
      → IsJoined s w.1
      → (let r = members_offline answers s w members in IsJoined r.0 r.1.1)
  unfolding members_offline
  members_offline-IsJoined s w members j =
      let r = note_all s ([], []) members in
      let a = note_all-Applied s members in
      elim (Bool-cases (is_empty r.1)) [
        | inl quiet ↦ rw quiet (
            noted-IsJoined s _ w.1 j
              (subst (λ l. Applied s l (apply_updates s r.0)) (is_empty-nil r.1 quiet) a))
        | inr late ↦ rw late (removed-IsJoined s _ w r.1 j a)
      ]

  -- Shards that are removed without a note.
  pub remove_shards_offline-IsJoined :
      (s t : Shards.State) (w : Both) (shards : List ℕ)
      → IsJoined s w.1
      → t.shard_network ≡ s.shard_network
      → t.shard_state ≡ s.shard_state
      → t.shard_members ≡ s.shard_members
      → t.shard_id_counter ≡ s.shard_id_counter
      → (let r = remove_shards_offline answers t w shards in IsJoined r.0 r.1.1)
  remove_shards_offline-IsJoined s t w shards j network states members counter =
      removed-IsJoined s t w shards j (record {
        noted = λ k. record { off = λ h. rw (← states) h; stays = λ h o. rw states h };
        network = network;
        members = members;
        counter = counter;
      })

  pub timeout_dkgs-IsJoined :
      (s : Shards.State) (w : Both) (n : ℕ)
      → IsJoined s w.1
      → (let r = timeout_dkgs answers s w n in IsJoined r.0 r.1.1)
  unfolding timeout_dkgs
  timeout_dkgs-IsJoined s w n j =
      let drained : Shards.State = record s { dkg_timeout = drain_prefix s.dkg_timeout n } in
      let shards = timed_out drained (keys (prefix s.dkg_timeout n)) in
      elim (Bool-cases (is_empty shards)) [
        | inl quiet ↦
            rw quiet (Steady-IsJoined s _ w.1 (same-Steady s _ j.sound refl refl refl refl) j)
        | inr late ↦ rw late (
            let r = remove_shards_offline answers drained w shards in
            let k = remove_shards_offline-IsJoined s drained w shards j refl refl refl refl in
            Steady-IsJoined r.0 _ r.1.1 (same-Steady r.0 _ k.sound refl refl refl refl) k)
      ]

  -- `marked` is `s` with member `m` ready.
  ready_shard-IsJoined :
      (s : Shards.State) (w : Both) (k n : ℕ) (c : List ℕ)
      → get s.shard_network k ≡ some n
      → IsJoined s w.1
      → After (λ (r : Shards.State × Both). IsJoined r.0 r.1.1) (ready_shard answers s w k n c)
  unfolding ready_shard
  ready_shard-IsJoined s w k n c at j = elim (Bool-cases (all is_ready (statuses s k))) [
    | inr part ↦ rw part j
    | inl whole ↦ rw whole (elim (Option-cases (get_elem? c 0)) [
      | inl empty ↦ rw empty tt
      | inr (key, e) ↦ rw e (
          let s' : Shards.State = record s {
            shard_state = insert s.shard_state k online;
            events = Shards.shard_online k key ∷ s.events;
          } in
          let opened : Steady s s' = record {
            sound = record {
              met = λ i m st h g. elim (Bool-cases (i == k)) [
                | inl same ↦
                    all_ready (prefix s.shard_members k) m st whole
                      (subst (λ x. get₂ s.shard_members x m ≡ some st) (==→eq i k same) g)
                | inr other ↦
                    j.sound.met i m st
                      (ground (arith, h, other, get-insert s.shard_state k i online)) g
              ];
              known = j.sound.known;
            };
            still = λ m i h. (h.0, ground (arith, h.1, get-insert s.shard_state k i online));
          } in
          let v = Steady-IsJoined s s' w.1 opened j in
          record {
            sound = v.sound;
            assigned =
                shard_online-IsValid (Online s') (tasks_config cfg s') w.1 v.assigned k n
                  (at, get-insert_self s.shard_state k online);
          })
    ])
  ]

  pub execute_ready-IsJoined :
      (s : Shards.State) (w : Both) (m k : ℕ)
      → IsJoined s w.1
      → After (λ (r : Shards.State × Both). IsJoined r.0 r.1.1) (execute_ready answers s w m k)
  unfolding execute_ready
  execute_ready-IsJoined s w m k j =
      let Q : Shards.State × Both → Type 0 = λ r. IsJoined r.0 r.1.1 in
      let marked : Shards.State = record s { shard_members = insert₂ s.shard_members k m ready } in
      let marks : Steady s marked = record {
        sound = record {
          met = λ i p st h g.
              ground (arith, j.sound.met i p st h, g, get₂-insert₂ s.shard_members k m i p ready);
          known = j.sound.known;
        };
        still = λ n i h. h;
      } in
      After-skip Q (ensure (is_some_committed (get₂ s.shard_members k m)) unexpected_ready) _ λ _ _.
        After-skip Q (ok_or (get s.shard_network k) unknown_shard_network) _ λ n e.
          After-skip Q (ok_or (get s.shard_commitment k) unknown_shard_commitment) _ λ c _.
            ready_shard-IsJoined marked w k n c (ground (arith, e))
              (Steady-IsJoined s marked w.1 marks j)
