-- ===== src/Runtime/Leaving.antt =====
-- The members of pallets/shards/src/lib.rs that go offline: what is noted of their shards, and which
-- shards are removed for it.
use timechain.Prelude.{
  ℕ, ◌≡◌, refl, true, sym, ap, subst, Option, none, some, List, [], ◌∷◌, ◌++◌, arith, ltb,
  Bool-cases, Option-cases, inl, inr, ◌==◌, ==→eq, ◌&&◌, not, unwrap_or, if◌then◌else◌,
}
use timechain.Storage.{Map, get, insert, get-insert_self, get-insert_ne}
use timechain.Shards.{State, ShardStatus, created, group_committed, online, offline, is_offline}
use timechain.Shards.Interface.{
  note_all, note_offline, note_status, next_status, entry, Updates, apply_updates,
}
use timechain.Runtime.Removing.{Outside}

-- What is noted of shard `k` as its status: it is not put online, and a shard that is online stays
-- so or is removed.
pub record Noted (s : State) (removed : List ℕ) (k : ℕ) (status : Option ShardStatus) : Type 0 where
  pub off : status ≡ some online → get s.shard_state k ≡ some online
  pub stays : get s.shard_state k ≡ some online → Outside removed k → status ≡ some online

abbrev NotedAll : State → List ℕ → Map (ℕ × Option ShardStatus) → Type 0
NotedAll s removed [] = Unit
NotedAll s removed ((k, (count, status)) ∷ updates) =
    Noted s removed k status × NotedAll s removed updates

Outside-append :
    (removed more : List ℕ) (k : ℕ)
    → Outside (removed ++ more) k
    → Outside removed k × Outside more k
Outside-append [] more k o = (tt, o)
Outside-append (j ∷ removed) more k o =
    let rest = Outside-append removed more k o.1 in ((o.0, rest.0), rest.1)

append-Noted :
    (s : State) (removed more : List ℕ) (k : ℕ) (status : Option ShardStatus)
    → Noted s removed k status
    → Noted s (removed ++ more) k status
append-Noted s removed more k status v = record {
  off = v.off;
  stays = λ h o. v.stays h (Outside-append removed more k o).0;
}

append-NotedAll :
    (s : State) (removed more : List ℕ) (updates : Map (ℕ × Option ShardStatus))
    → NotedAll s removed updates
    → NotedAll s (removed ++ more) updates
append-NotedAll s removed more [] v = tt
append-NotedAll s removed more ((k, (count, status)) ∷ updates) v =
    (append-Noted s removed more k status v.0, append-NotedAll s removed more updates v.1)

insert-NotedAll :
    (s : State) (removed : List ℕ) (updates : Map (ℕ × Option ShardStatus)) (k count : ℕ)
    (status : Option ShardStatus)
    → Noted s removed k status
    → NotedAll s removed updates
    → NotedAll s removed (insert updates k (count, status))
unfolding insert
insert-NotedAll s removed [] k count status h v = (h, tt)
insert-NotedAll s removed ((j, (c, st)) ∷ updates) k count status h v = elim (Bool-cases (k == j)) [
  | inl same ↦ rw same (h, v.1)
  | inr other ↦ rw other (v.0, insert-NotedAll s removed updates k count status h v.1)
]

get-Noted :
    (s : State) (removed : List ℕ) (updates : Map (ℕ × Option ShardStatus)) (k : ℕ)
    (e : ℕ × Option ShardStatus)
    → NotedAll s removed updates
    → get updates k ≡ some e
    → Noted s removed k e.1
unfolding get
get-Noted s removed [] k e v h = absurd cc
get-Noted s removed ((j, (c, st)) ∷ updates) k e v h = elim (Bool-cases (k == j)) [
  | inl same ↦
      let e' : st ≡ e.1 =
        ap (λ o. (unwrap_or {A = ℕ × Option ShardStatus} o (c, st)).1) (rw same at h) in
      subst (Noted s removed k) e' (subst (λ i. Noted s removed i st) (sym (==→eq k j same)) v.0)
  | inr other ↦ get-Noted s removed updates k e v.1 (rw other at h)
]

entry-Noted :
    (s : State) (removed : List ℕ) (updates : Map (ℕ × Option ShardStatus)) (k : ℕ)
    → NotedAll s removed updates
    → Noted s removed k (entry s updates k).1
entry-Noted s removed updates k v = elim (Option-cases (get updates k)) [
  | inl fresh ↦ rw fresh (record { off = λ h. h; stays = λ h o. h })
  | inr (e, at) ↦ rw at (get-Noted s removed updates k e v at)
]

none_online : (status : ShardStatus) → is_offline status ≡ true → some status ≡ some online → ⊥
none_online created d e = absurd cc
none_online group_committed d e = absurd cc
none_online online d e = absurd cc
none_online offline d e = absurd cc

-- A shard that is to be removed goes offline.
removed-Noted :
    (s : State) (removed : List ℕ) (k : ℕ) → Noted s (removed ++ k ∷ []) k (some offline)
removed-Noted s removed k = record {
  off = λ e. absurd (none_online offline refl e);
  stays = λ h o. absurd ((Outside-append removed (k ∷ []) k o).1.0 refl);
}

-- The next status of a shard, and whether it is removed.
next-Noted :
    (s : State) (removed : List ℕ) (k count threshold : ℕ) (old : ShardStatus)
    → Noted s removed k (some old)
    → (let new : ShardStatus = next_status old count threshold in
        Noted s
          (if is_offline new && not (is_offline old) then removed ++ k ∷ [] else removed)
          k
          (some new))
next-Noted s removed k count threshold created v = removed-Noted s removed k
next-Noted s removed k count threshold group_committed v = removed-Noted s removed k
next-Noted s removed k count threshold online v = elim (Bool-cases (ltb count threshold)) [
  | inl few ↦ rw few (removed-Noted s removed k)
  | inr enough ↦ rw enough v
]
next-Noted s removed k count threshold offline v = v

note_status-NotedAll :
    (s : State) (updates : Map (ℕ × Option ShardStatus)) (removed : List ℕ) (k count : ℕ)
    (status : Option ShardStatus) (threshold : Option ℕ)
    → Noted s removed k status
    → NotedAll s removed updates
    → (let r = note_status (updates, removed) k count status threshold in NotedAll s r.1 r.0)
unfolding note_status
note_status-NotedAll s updates removed k count none threshold h v = v
note_status-NotedAll s updates removed k count (some old) none h v = v
note_status-NotedAll s updates removed k count (some old) (some threshold) h v =
    let new : ShardStatus = next_status old count threshold in
    let next = next-Noted s removed k count threshold old h in
    insert-NotedAll s _ updates k count (some new) next
      (elim (Bool-cases (is_offline new && not (is_offline old))) [
        | inl gone ↦ rw gone (append-NotedAll s removed (k ∷ []) updates v)
        | inr kept ↦ rw kept v
      ])

note_offline-NotedAll :
    (s : State) (r : Updates) (m : ℕ)
    → NotedAll s r.1 r.0
    → (let r' = note_offline s r m in NotedAll s r'.1 r'.0)
unfolding note_offline
note_offline-NotedAll s (updates, removed) m v = elim (Option-cases (get s.member_shard m)) [
  | inl alone ↦ rw (alone, note_offline) v
  | inr (k, at) ↦
      rw (at, note_offline)
        (let noted = entry-Noted s removed updates k v in
          note_status-NotedAll s _ removed k _ _ (get s.shard_threshold k) noted
            (insert-NotedAll s removed updates k _ _ noted v))
]

note_all-NotedAll :
    (members : List ℕ) (s : State) (r : Updates)
    → NotedAll s r.1 r.0
    → (let r' = note_all s r members in NotedAll s r'.1 r'.0)
unfolding note_all
note_all-NotedAll [] s r v = v
note_all-NotedAll (m ∷ members) s r v =
    note_all-NotedAll members s (note_offline s r m) (note_offline-NotedAll s r m v)

-- `t` is `s` with what was noted of some shards.
pub record Applied (s : State) (removed : List ℕ) (t : State) : Type 0 where
  pub noted : (k : ℕ) → Noted s removed k (get t.shard_state k)
  pub network : t.shard_network ≡ s.shard_network
  pub members : t.shard_members ≡ s.shard_members
  pub counter : t.shard_id_counter ≡ s.shard_id_counter

apply_updates-Applied :
    (updates : Map (ℕ × Option ShardStatus)) (s : State) (removed : List ℕ) (t : State)
    → NotedAll s removed updates
    → Applied s removed t
    → Applied s removed (apply_updates t updates)
unfolding apply_updates
apply_updates-Applied [] s removed t v a = a
apply_updates-Applied ((k, (count, none)) ∷ updates) s removed t v a =
    apply_updates-Applied updates s removed _ v.1
      (record { noted = a.noted; network = a.network; members = a.members; counter = a.counter })
apply_updates-Applied ((k, (count, some status)) ∷ updates) s removed t v a =
    apply_updates-Applied updates s removed _ v.1 (record {
      noted = λ j. elim (Bool-cases (j == k)) [
        | inl same ↦
            subst (λ i. Noted s removed i (get (insert t.shard_state k status) i))
              (sym (==→eq j k same)) (rw (get-insert_self t.shard_state k status) v.0)
        | inr other ↦
            rw (get-insert_ne t.shard_state k j status (λ e. ground (arith, e, other))) (a.noted j)
      ];
      network = a.network;
      members = a.members;
      counter = a.counter;
    })

-- What is noted when members go offline.
pub note_all-Applied :
    (s : State) (members : List ℕ)
    → (let r = note_all s ([], []) members in Applied s r.1 (apply_updates s r.0))
note_all-Applied s members =
    let (updates, removed) = note_all s ([], []) members in
    apply_updates-Applied updates s removed s (note_all-NotedAll members s ([], []) tt) (record {
      noted = λ k. record { off = λ h. h; stays = λ h o. h };
      network = refl;
      members = refl;
      counter = refl;
    })
