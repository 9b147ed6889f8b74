-- ===== src/Networks/Alignment.antt =====
-- `next_batch_size` of pallets/networks/src/lib.rs.
use native.Mathlib.Nat.{mod-lt, div-add-mod, add-mul-mod_self_left, mod_self, mod-eq_of_lt}
use timechain.Prelude.{
  ℕ, ◌+◌, ◌-◌, ◌*◌, ◌%◌, ◌/◌, ◌<◌, ◌≤◌, ◌≡◌, ◌∙◌, ap, none, some, arith, unwrap_or, u64_mod, ◌==◌,
  Bool-cases, inl, inr, if◌then◌else◌, wrapping_add,
}
use timechain.Storage.{get}
use timechain.Networks.{State, next_batch_size}

-- What is left up to the next multiple of `n`, counted from `x`.
round_up : (x n : ℕ) → 0 < n → (x + (n - x % n)) % n ≡ 0
round_up x n h =
    let e : x + (n - x % n) ≡ n + n * (x / n) = omega (arith, div-add-mod x n, mod-lt x h) in
    ap (λ y. y % n) e ∙ add-mul-mod_self_left n n (x / n) ∙ mod_self n

aligned :
    (n x size : ℕ)
    → (if n == 0 then none else some (n - x % n)) ≡ some size
    → (0 < size) × (size ≤ n) × ((x + size) % n ≡ 0)
aligned n x size e = elim (Bool-cases (n == 0)) [
  | inl z ↦ absurd (let e' = rw z at e in cc)
  | inr p ↦
      let h : 0 < n = ground arith in
      let same : size ≡ n - x % n = ground (arith) in
      (omega (arith, mod-lt x h), omega (arith, mod-lt x h), rw same (round_up x n h))
]

-- A batch that starts at `block` has at least one block and at most the batch size of the network,
-- and it ends where the block number plus the offset of the network is a multiple of the batch
-- size. The batch size is not 0, and the block number plus the offset stays in its type.
pub next_batch_size-aligned :
    (s : State) (network block size : ℕ)
    → next_batch_size s network block ≡ some size
    → block + unwrap_or (get s.network_batch_offset network) 0 < u64_mod
    → (0 < size)
      × (size ≤ unwrap_or (get s.network_batch_size network) 32)
      × ((block + unwrap_or (get s.network_batch_offset network) 0 + size)
            % unwrap_or (get s.network_batch_size network) 32
          ≡ 0)
unfolding next_batch_size
next_batch_size-aligned s network block size e room =
    let offset : ℕ = unwrap_or (get s.network_batch_offset network) 0 in
    let whole : wrapping_add u64_mod block offset ≡ block + offset = mod-eq_of_lt room in
    aligned (unwrap_or (get s.network_batch_size network) 32) (block + offset) size (rw whole at e)
