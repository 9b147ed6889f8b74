-- ===== src/Members/Expiry.antt =====
-- What the timeouts of a block of pallets/members/src/lib.rs do to those who wait.
use timechain.Prelude.{
  ℕ, ◌≤◌, ◌≡◌, ◌+◌, refl, sym, ap, ◌∙◌, none, some, List, [], ◌++◌, arith, length, Bool-cases,
  Option-cases, inl, inr, ◌==◌, if◌then◌else◌, is_some,
}
use timechain.Storage.{get, keys}
use timechain.Members.{State, Config, sort_out, timeout_heartbeats}
use timechain.Members.Timeouts.{everyone, sort_out-Split}
use timechain.Members.Waiting.{count, count-append, sort_out_whole, sort_out_room, count-keys}
use timechain.Members.Periods.{LeavesMembers, IsTimed, offline_by_network-Left}

-- What the timeouts of a block with room for `limit` do: a member goes offline when it is of those
-- that are taken of the waiting members, at most `limit`; whoever is online else stays so.
pub record Spared (limit : ℕ) (s s' : State) : Type 0 where
  pub gone : List ℕ
  pub few : length gone ≤ limit
  pub waited : (m : ℕ) → 1 ≤ count m gone → 1 ≤ count m s.timed_out
  pub off :
      (m : ℕ) → get s'.member_online m ≡ (if count m gone == 0 then get s.member_online m else none)
  -- A member that has sent its heartbeat stays online, and has another period for the next one.
  pub spared :
      (m : ℕ)
      → get s.heartbeat m ≡ some tt
      → (get s'.member_online m ≡ get s.member_online m) × (count m s'.timed_out ≡ 1)
  -- With room for all, whoever waited and has a network is offline.
  pub all_gone :
      (m n : ℕ)
      → length s.timed_out ≤ limit
      → 1 ≤ count m s.timed_out
      → get s.member_network m ≡ some n
      → get s'.member_online m ≡ none

module _ (s t : State) (limit : ℕ) (gone rest : List ℕ) (v : IsTimed s)
    (split : (x : ℕ) → count x gone + count x rest ≡ count x s.timed_out)
    (off : (x : ℕ)
      → get t.member_online x ≡ (if count x gone == 0 then get s.member_online x else none))
    (taken : t.heartbeat ≡ []) (waiting : t.timed_out ≡ rest ++ keys s.heartbeat) where
  waits_next :
      (x : ℕ) → count x t.timed_out ≡ count x rest + (if is_some (get s.heartbeat x) then 1 else 0)
  waits_next x = rw waiting (
      count-append x rest (keys s.heartbeat)
      ∙ ap (λ k. count x rest + k) (count-keys x s.heartbeat v.unique))

  pub expire-IsTimed : IsTimed t
  unfolding get
  expire-IsTimed = record {
    watched = λ x h.
        let on : (count x gone ≡ 0) × (get s.member_online x ≡ some tt) =
          elim (Bool-cases (count x gone == 0)) [
            | inl stays ↦ (ground (arith, stays), ground (arith, stays, off x, h))
            | inr goes ↦ absurd (ground (arith, goes, off x, h))
          ] in
        elim (v.watched x on.1) [
          | inl sent ↦ inr (ground (arith, waits_next x, sent))
          | inr waits ↦ inr (ground (arith, waits_next x, split x, on.0, waits))
        ];
    once = λ x. elim (Option-cases (get s.heartbeat x)) [
      | inl quiet ↦ ground (arith, waits_next x, quiet, split x, v.once x)
      | inr (u, sent) ↦ ground (arith, waits_next x, sent, split x, v.silent x sent)
    ];
    silent = λ x h. let e : none ≡ some tt = ap (λ m. get m x) (sym taken) ∙ h in absurd cc;
    unique = rw taken tt;
  }

  pub expire-Spared :
      length gone ≤ limit
      → ((x n : ℕ)
          → length s.timed_out ≤ limit
          → get s.member_network x ≡ some n
          → count x rest ≡ 0)
      → Spared limit s t
  expire-Spared few nobody = record {
    gone = gone;
    few = few;
    waited = λ x h. omega (arith, split x);
    off = off;
    spared = λ x h.
        let quiet = v.silent x h in
        let stays : count x gone ≡ 0 = omega (arith, split x, quiet) in
        (ground (arith, off x, stays), ground (arith, waits_next x, split x, quiet, h));
    all_gone = λ x n room waits has.
        let none_left = nobody x n room has in ground (arith, off x, split x, waits, none_left);
  }

pub timeout_heartbeats-Spared :
    {W : Type 0} (cfg : Config W) (elects : LeavesMembers cfg) (s : State) (w : W)
    → IsTimed s
    → (let t = (timeout_heartbeats cfg s w).0 in IsTimed t × Spared cfg.max_timeouts_per_block s t)
unfolding timeout_heartbeats
timeout_heartbeats-Spared cfg elects s w v =
    let limit : ℕ = cfg.max_timeouts_per_block in
    let taken : State = record s { timed_out = [] } in
    let r = sort_out taken limit s.timed_out 0 [] [] in
    let t = (timeout_heartbeats cfg s w).0 in
    let (online, heartbeat, _) = offline_by_network-Left cfg elects r.0 taken w in
    let split : (x : ℕ) → count x (everyone r.0) + count x r.1 ≡ count x s.timed_out =
      λ x. sort_out_whole x taken limit s.timed_out in
    let waiting : t.timed_out ≡ r.1 ++ keys s.heartbeat = ap (λ m. r.1 ++ keys m) heartbeat in
    (
      expire-IsTimed s t limit (everyone r.0) r.1 v split online refl waiting,
      expire-Spared s t limit (everyone r.0) r.1 v split online refl waiting
          (sort_out-Split taken limit s.timed_out).few
          (λ x n room has. sort_out_room x n taken limit s.timed_out has room),
    )
