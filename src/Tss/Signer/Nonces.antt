-- ===== src/Tss/Signer/Nonces.antt =====
-- No nonce of RoastSigner of tss/src/roast.rs is used twice.
use timechain.Prelude.{
  ℕ, ◌+◌, ◌<◌, ◌≡◌, ◌≢◌, sym, ap, ◌∙◌, true, false, some, List, [], ◌∷◌, arith, ◌==◌, All, All-map,
  Bool-cases, inl, inr,
}
use timechain.Storage.{get, remove, get-remove}
use timechain.BTree.{insert, get-insert}
use timechain.Tss.Frost.{Frost}
use timechain.Tss.Signer.{RoastSignerRequest, RoastSigner, commit}

-- No two entries are equal.
abbrev pub Distinct : List ℕ → Type 0
Distinct [] = Unit {0}
Distinct (x ∷ xs) = All (λ m. x ≢ m) xs × Distinct xs

-- The signer without the request at the front and its nonces.
abbrev pub popped : RoastSigner → ℕ → List (ℕ × RoastSignerRequest) → RoastSigner
popped s c rest = record s { coordinators = remove s.coordinators c; requests = rest }

pub kept :
    (s : RoastSigner) (c j n : ℕ)
    → get (remove s.coordinators c) j ≡ some n
    → (get s.coordinators j ≡ some n) × ((j == c) ≡ false)
kept s c j n h = elim (Bool-cases (j == c)) [
  | inl same ↦ absurd (ground (arith, get-remove s.coordinators c j))
  | inr other ↦ (ground (arith, get-remove s.coordinators c j), other)
]

module _ (frost : Frost) (key stream : ℕ) where
  -- The random source never gives the nonces of an earlier draw again.
  abbrev pub DrawsDiffer : Type 0
  DrawsDiffer = (i j : ℕ) → (frost.commit key stream i).0 ≡ (frost.commit key stream j).0 → i ≡ j

  -- The nonces of one of the first `k` draws.
  pub record Drawn (k n : ℕ) : Type 0 where
    pub draw : ℕ
    pub before : draw < k
    pub nonces : n ≡ (frost.commit key stream draw).0

  -- The nonces in `used` have signed; those that are held have not.
  pub record IsFresh (used : List ℕ) (s : RoastSigner) : Type 0 where
    pub key_package : s.key_package ≡ key
    pub source : s.stream ≡ stream
    pub held : (c n : ℕ) → get s.coordinators c ≡ some n → Drawn s.draws n
    pub spent : All (Drawn s.draws) used
    pub apart : (c n : ℕ) → get s.coordinators c ≡ some n → All (λ m. n ≢ m) used
    pub single : (c d n : ℕ) → get s.coordinators c ≡ some n → get s.coordinators d ≡ some n → c ≡ d
    pub distinct : Distinct used

  later : (k n : ℕ) → Drawn k n → Drawn (k + 1) n
  later k n d = record { draw = d.draw; before = omega (arith, d.before); nonces = d.nonces }

  -- A new draw is none of those before.
  new_draw : DrawsDiffer → (k n : ℕ) → Drawn k n → (frost.commit key stream k).0 ≢ n
  new_draw differ k n d e = omega (arith, differ k d.draw (e ∙ d.nonces), d.before)

  pub popped-IsFresh :
      (used : List ℕ) (s : RoastSigner) (c : ℕ) (rest : List (ℕ × RoastSignerRequest))
      → IsFresh used s
      → IsFresh used (popped s c rest)
  popped-IsFresh used s c rest f = record {
    key_package = f.key_package;
    source = f.source;
    held = λ j n h. f.held j n (kept s c j n h).0;
    spent = f.spent;
    apart = λ j n h. f.apart j n (kept s c j n h).0;
    single = λ i j n h k. f.single i j n (kept s c i n h).0 (kept s c j n k).0;
    distinct = f.distinct;
  }

  pub used-IsFresh :
      (used : List ℕ) (s : RoastSigner) (c n : ℕ) (rest : List (ℕ × RoastSignerRequest))
      → get s.coordinators c ≡ some n
      → IsFresh used s
      → IsFresh (n ∷ used) (popped s c rest)
  used-IsFresh used s c n rest there f =
      let base = popped-IsFresh used s c rest f in
      record {
        key_package = f.key_package;
        source = f.source;
        held = base.held;
        spent = (f.held c n there, f.spent);
        apart = λ j m h.
            let k = kept s c j m h in
            (
              λ e. omega (
                arith,
                f.single j c n (k.0 ∙ ap some e) there,
                let ne : j ≢ c = ground (arith, k.1) in ne,
              ),
              base.apart j m h,
            );
        single = base.single;
        distinct = (f.apart c n there, f.distinct);
      }

  pub commit-IsFresh :
      DrawsDiffer
      → (used : List ℕ) (s : RoastSigner) (c : ℕ) → IsFresh used s
      → IsFresh used (commit frost s c).0
  unfolding commit
  commit-IsFresh differ used s c f =
      let x : ℕ = (frost.commit s.key_package s.stream s.draws).0 in
      let is_x : x ≡ (frost.commit key stream s.draws).0 =
        ap (λ k. (frost.commit k s.stream s.draws).0) f.key_package
        ∙ ap (λ k. (frost.commit key k s.draws).0) f.source in
      let other =
        λ (n : ℕ) (d : Drawn s.draws n) (e : x ≡ n). new_draw differ s.draws n d (sym is_x ∙ e) in
      let old =
        λ (j n : ℕ) (ne : (j == c) ≡ false) (h : get (insert s.coordinators c x) j ≡ some n).
          (let p : get s.coordinators j ≡ some n =
              ground (arith, get-insert s.coordinators c j x) in
            p) in
      let new =
        λ (j n : ℕ) (same : (j == c) ≡ true) (h : get (insert s.coordinators c x) j ≡ some n).
          (let p : x ≡ n = ground (arith, get-insert s.coordinators c j x) in p) in
      record {
        key_package = f.key_package;
        source = f.source;
        held = λ j n h. elim (Bool-cases (j == c)) [
          | inl same ↦ record {
            draw = s.draws;
            before = omega arith;
            nonces = sym (new j n same h) ∙ is_x;
          }
          | inr ne ↦ later s.draws n (f.held j n (old j n ne h))
        ];
        spent = All-map (Drawn s.draws) (Drawn (s.draws + 1)) (later s.draws) used f.spent;
        apart = λ j n h. elim (Bool-cases (j == c)) [
          | inl same ↦
              All-map (Drawn s.draws) (λ m. n ≢ m) (λ m d e. other m d (new j n same h ∙ e)) used
                f.spent
          | inr ne ↦ f.apart j n (old j n ne h)
        ];
        single = λ i j n h k. elim (Bool-cases (i == c)) [
          | inl p ↦ elim (Bool-cases (j == c)) [
            | inl q ↦ ground (arith, p, q)
            | inr q ↦ absurd (other n (f.held j n (old j n q k)) (new i n p h))
          ]
          | inr p ↦ elim (Bool-cases (j == c)) [
            | inl q ↦ absurd (other n (f.held i n (old i n p h)) (new j n q k))
            | inr q ↦ f.single i j n (old i n p h) (old j n q k)
          ]
        ];
        distinct = f.distinct;
      }
