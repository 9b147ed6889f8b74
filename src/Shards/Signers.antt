-- ===== src/Shards/Signers.antt =====
-- The order of the signers of a shard: `next_signer` of pallets/shards/src/lib.rs.
use native.Mathlib.Nat.{mod-eq_of_lt, mod_self}
use timechain.Prelude.{
  ℕ, zero, suc, ◌%◌, ◌<◌, ◌≡◌, refl, ap, ◌∙◌, true, some, List, [], ◌∷◌, arith, length, get_elem?,
  All, Bool-cases, Option-cases, inl, inr, if◌then◌else◌, ◌==◌, is_some, unwrap_or, saturating_add,
  u32_max, u32_mod, u64_max,
}
use timechain.Storage.{get, insert, get-insert_self}
use timechain.Outcome.{ok}
use timechain.Shards.{State, Config}
use timechain.Shards.Interface.{next_signer, shard_members}

-- What holds of all holds of the one at an index.
at_index :
    (P : ℕ → Type 0) (l : List ℕ) (i : ℕ)
    → i < length l
    → All P l
    → (m : ℕ) × (get_elem? l i ≡ some m) × P m
at_index P [] i h all = absurd (omega arith)
at_index P (m ∷ l) zero h all = (m, refl, all.0)
at_index P (m ∷ l) (suc i) h all = at_index P l i (omega arith) all.1

next_index :
    (n i : ℕ)
    → i < n
    → n < u32_max
    → (if (n % u32_mod) == saturating_add u32_max i 1 then 0 else saturating_add u64_max i 1)
        % u32_mod
      ≡ suc i % n
next_index n i h small =
    let whole : n % u32_mod ≡ n = mod-eq_of_lt (omega arith) in
    let next : saturating_add u32_max i 1 ≡ suc i = omega arith in
    let next' : saturating_add u64_max i 1 ≡ suc i = omega arith in
    rw (whole, next, next')
      (elim (Bool-cases (n == suc i)) [
        | inl last ↦ rw last (
            let e : suc i ≡ n = ground arith in
            let zero_mod : suc i % n ≡ 0 = ap (λ x. x % n) e ∙ mod_self n in
            omega (arith, zero_mod))
        | inr more ↦
            rw more (let e : suc i % n ≡ suc i = mod-eq_of_lt (ground arith) in omega (arith, e))
      ])

-- The key that signs next, and the state that is left: the turn goes on to the next member.
pub record Signed {W : Type 0} (cfg : Config W) (s : State) (w : W) (k : ℕ) : Type 0 where
  pub member : ℕ
  pub key : ℕ
  pub state : State
  pub run : next_signer cfg s w k ≡ ok (state, key)
  pub turn : get_elem? (shard_members s k) (unwrap_or (get s.signer_index k) 0) ≡ some member
  pub owns : cfg.member_public_key w member ≡ some key
  pub index :
      get state.signer_index k
      ≡ some (suc (unwrap_or (get s.signer_index k) 0) % length (shard_members s k))

-- The members of a shard sign in turn: if all of them have keys and the signer index is below
-- their number, which fits its type, the call returns the key of the member at the index, and the
-- index goes on by one and from the last member back to the first.
pub next_signer-Signed :
    {W : Type 0} (cfg : Config W) (s : State) (w : W) (k : ℕ)
    → unwrap_or (get s.signer_index k) 0 < length (shard_members s k)
    → length (shard_members s k) < u32_max
    → All (λ (m : ℕ). is_some (cfg.member_public_key w m) ≡ true) (shard_members s k)
    → Signed cfg s w k
unfolding next_signer
next_signer-Signed {W} cfg s w k h small keyed =
    let i : ℕ = unwrap_or (get s.signer_index k) 0 in
    let members = shard_members s k in
    let (m, at, has) =
      at_index (λ m. is_some (cfg.member_public_key w m) ≡ true) members i h keyed in
    elim (Option-cases (cfg.member_public_key w m)) [
      | inl keyless ↦ absurd (let bad = rw keyless at has in cc)
      | inr (key, e) ↦ record {
        member = m;
        key = key;
        state = record s { signer_index = insert s.signer_index k (suc i % length members) };
        run = rw (at, e, next_signer, next_index (length members) i h small) refl;
        turn = at;
        owns = e;
        index = get-insert_self s.signer_index k (suc i % length members);
      }
    ]
