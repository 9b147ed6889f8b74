-- ===== src/Currency/Ledger.antt =====
-- Balances as two functions of the account: a currency that meets the laws, for the tests.
use timechain.Prelude.{
  ℕ, ◌+◌, ◌-◌, ◌≤◌, ◌≡◌, refl, sym, ap, arith, leb, ◌==◌, if◌then◌else◌, min, Bool-cases, inl, inr,
}
use timechain.Outcome.{Outcome, ok, err, insufficient_balance}
use timechain.Currency.{Currency, Laws}

pub record Ledger : Type 0 where
  pub free : ℕ → ℕ
  pub reserved : ℕ → ℕ

abbrev at : ℕ → ℕ → ℕ → ℕ
at who n a = if a == who then n else 0

abbrev pub ledger : Currency Ledger
ledger = record {
  free_balance = λ w a. w.free a;
  reserved_balance = λ w a. w.reserved a;
  reserve = λ w who n.
      if leb n (w.free who)
      then ok
          (record { free = λ a. w.free a - at who n a; reserved = λ a. w.reserved a + at who n a })
      else err insufficient_balance;
  unreserve = λ w who n. (
    record {
      free = λ a. w.free a + at who (min n (w.reserved who)) a;
      reserved = λ a. w.reserved a - at who n a;
    },
    n - w.reserved who,
  );
  transfer = λ w from to n.
      if leb n (w.free from)
      then ok (record w { free = λ a. (w.free a + at to n a) - at from n a })
      else err insufficient_balance;
  deposit_creating = λ w who n. record w { free = λ a. w.free a + at who n a };
}

free_of : Outcome Ledger → ℕ → ℕ
free_of (ok m) b = m.free b
free_of m b = 0

reserved_of : Outcome Ledger → ℕ → ℕ
reserved_of (ok m) b = m.reserved b
reserved_of m b = 0

reserve_lem :
    (w w' : Ledger) (who n : ℕ)
    → ledger.reserve w who n ≡ ok w'
    → (a : ℕ) → (w'.free a + at who n a ≡ w.free a) × (w'.reserved a ≡ w.reserved a + at who n a)
unfolding free_of reserved_of
reserve_lem w w' who n h a = elim (Bool-cases (leb n (w.free who))) [
  | inr less ↦ absurd (ground (arith, less))
  | inl enough ↦
      let e : ◌≡◌ {A = Outcome Ledger}
          (ok (record {
            free = λ b. w.free b - at who n b;
            reserved = λ b. w.reserved b + at who n b;
          }))
          (ok w') =
        ground (arith, enough) in
      let f : w.free a - at who n a ≡ w'.free a = ap (λ (m : Outcome Ledger). free_of m a) e in
      let r : w.reserved a + at who n a ≡ w'.reserved a =
        ap (λ (m : Outcome Ledger). reserved_of m a) e in
      elim (Bool-cases (a == who)) [
        | inl same ↦
            let s : a ≡ who = ground (arith, same) in
            let g : n ≤ w.free a = ground (arith, enough, s) in
            (ground (arith, f, g, same), ground (arith, r, same))
        | inr other ↦ (ground (arith, f, other), ground (arith, r, other))
      ]
]

transfer_lem :
    (w w' : Ledger) (from to n : ℕ)
    → ledger.transfer w from to n ≡ ok w'
    → (a : ℕ) → (w'.free a + at from n a ≡ w.free a + at to n a) × (w'.reserved a ≡ w.reserved a)
unfolding free_of reserved_of
transfer_lem w w' from to n h a = elim (Bool-cases (leb n (w.free from))) [
  | inr less ↦ absurd (ground (arith, less))
  | inl enough ↦
      let e : ◌≡◌ {A = Outcome Ledger}
          (ok (record w { free = λ b. (w.free b + at to n b) - at from n b })) (ok w') =
        ground (arith, enough) in
      let f : (w.free a + at to n a) - at from n a ≡ w'.free a =
        ap (λ (m : Outcome Ledger). free_of m a) e in
      let r : w.reserved a ≡ w'.reserved a = ap (λ (m : Outcome Ledger). reserved_of m a) e in
      elim (Bool-cases (a == from)) [
        | inl same ↦
            let s : a ≡ from = ground (arith, same) in
            let g : n ≤ w.free a = ground (arith, enough, s) in
            (omega (arith, f, g, let k : at from n a ≡ n = ground (arith, same) in k), sym r)
        | inr other ↦
            (omega (arith, f, let k : at from n a ≡ 0 = ground (arith, other) in k), sym r)
      ]
]

pub ledger-Laws : Laws ledger
ledger-Laws = record {
  reserve_free = λ w w' who n h a. (reserve_lem w w' who n h a).0;
  reserve_reserved = λ w w' who n h a. (reserve_lem w w' who n h a).1;
  unreserve_rest = λ w who n. refl;
  unreserve_reserved = λ w who n a. refl;
  unreserve_free = λ w who n a.
      let e : min n (w.reserved who) ≡ n - (n - w.reserved who) = ground arith in
      ap (λ k. w.free a + at who k a) e;
  transfer_free = λ w w' from to n h a. (transfer_lem w w' from to n h a).0;
  transfer_reserved = λ w w' from to n h a. (transfer_lem w w' from to n h a).1;
  deposit_creating_le = λ w who n a. omega arith;
  deposit_creating_keeps = λ w who n a. omega arith;
}
