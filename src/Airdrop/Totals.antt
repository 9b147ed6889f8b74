-- ===== src/Airdrop/Totals.antt =====
-- The total of pallets/airdrop/src/lib.rs against the claims.
use timechain.Prelude.{
  ℕ, ◌+◌, ◌-◌, ◌≤◌, ◌≡◌, refl, ap, ◌∙◌, Option, none, some, List, [], ◌∷◌, arith, leb, ◌||◌, subst,
  unwrap_or, is_none, saturating_add, u128_max,
}
use timechain.Storage.{
  Map, get, insert, remove, Unique, insert-Unique, remove-Unique, get-remove, get-remove_self,
}
use timechain.Outcome.{Outcome, ok, ensure, ok_or, bind_ok, ensure_ok}
use timechain.Airdrop.{
  Config, State, Schedule, RawOrigin, mint_airdrop, add_airdrop, move_airdrop, process_airdrop,
  verify_proof, claim_raw, mint, transfer, ensure_none, ensure_root, may_vest, vest,
}

-- The sum of the claims.
abbrev pub sum : Map ℕ → ℕ
sum [] = 0
sum ((k, v) ∷ m) = v + sum m

pub sum-insert_new : (m : Map ℕ) (k v : ℕ) → get m k ≡ none → sum (insert m k v) ≡ sum m + v
unfolding insert get
sum-insert_new [] k v h = omega arith
sum-insert_new ((j, w) ∷ m) k v h = ground (arith, sum-insert_new m k v)

sum-remove-none : (m : Map ℕ) (k : ℕ) → get m k ≡ none → sum (remove m k) ≡ sum m
unfolding remove get
sum-remove-none [] k h = refl
sum-remove-none ((j, w) ∷ m) k h = ground (arith, sum-remove-none m k)

sum-remove : (m : Map ℕ) (k : ℕ) → Unique m → sum (remove m k) + unwrap_or (get m k) 0 ≡ sum m
unfolding remove get
sum-remove [] k u = omega arith
sum-remove ((j, w) ∷ m) k u = ground (arith, sum-remove m k u.1, sum-remove-none m k, u.0)

-- The total is the sum of the claims, of which there is one for each account.
pub record IsValid {W : Type 0} (s : State W) : Type 0 where
  pub unique : Unique s.claims
  pub total : s.total ≡ sum s.claims

-- The calls, and `add_airdrop`, which the launch pallet calls.
pub data Call : Type 0 where
  claim_call : ℕ → List ℕ → ℕ → Call
  mint_call : ℕ → ℕ → Option Schedule → Call
  add_call : ℕ → ℕ → Option Schedule → Call
  transfer_call : ℕ → ℕ → Call

-- What the calls may add to the claims.
abbrev pub minted_by : List (RawOrigin × Call) → ℕ
minted_by [] = 0
minted_by ((o, claim_call source proof target) ∷ cs) = minted_by cs
minted_by ((o, mint_call owner amount vesting) ∷ cs) = amount + minted_by cs
minted_by ((o, add_call owner amount vesting) ∷ cs) = amount + minted_by cs
minted_by ((o, transfer_call from to) ∷ cs) = minted_by cs

module _ {W : Type 0} (cfg : Config W) where
  unfoldable pub dispatch : State W → RawOrigin → Call → Outcome (State W)
  dispatch s o (claim_call source proof target) = claim_raw cfg s o source proof target
  dispatch s o (mint_call owner amount vesting) = mint cfg s o owner amount vesting
  dispatch s o (add_call owner amount vesting) = add_airdrop cfg s owner amount vesting
  dispatch s o (transfer_call from to) = transfer cfg s o from to

  pub mint_airdrop-IsValid :
      (s s' : State W) (owner amount : ℕ) (vesting : Option Schedule)
      → IsValid s
      → s.total + amount ≤ u128_max
      → mint_airdrop cfg s owner amount vesting ≡ ok s'
      → IsValid s' × (s'.total ≡ s.total + amount)
  unfolding mint_airdrop
  mint_airdrop-IsValid s s' owner amount vesting v room h =
      let (u, p, q) = bind_ok (ensure (leb cfg.minimum_balance amount) _) _ h in
      let (u2, p2, q2) = bind_ok (ensure (is_none (get s.claims owner)) _) _ q in
      let fresh : get s.claims owner ≡ none = ground (arith, ensure_ok _ _ p2) in
      let c : insert s.claims owner amount ≡ s'.claims = ground arith in
      let t : s'.total ≡ s.total + amount = ground arith in
      (
        record {
          unique = subst Unique c (insert-Unique s.claims owner amount v.unique);
          total = t ∙ omega (arith, v.total, sum-insert_new s.claims owner amount fresh, ap sum c);
        },
        t,
      )

  add_airdrop-IsValid :
      (s s' : State W) (owner amount : ℕ) (vesting : Option Schedule)
      → IsValid s
      → s.total + amount ≤ u128_max
      → add_airdrop cfg s owner amount vesting ≡ ok s'
      → IsValid s' × (s'.total ≡ s.total + amount)
  unfolding add_airdrop
  add_airdrop-IsValid s s' owner amount vesting v room h =
      let (u, p, q) = bind_ok (ensure (leb cfg.minimum_balance amount) _) _ h in
      let (u2, p2, q2) =
        bind_ok (ensure (is_none vesting || is_none (get s.vesting owner)) _) _ q in
      let old : ℕ = unwrap_or (get s.claims owner) 0 in
      let rest = sum-remove s.claims owner v.unique in
      let both : saturating_add u128_max amount old ≡ amount + old = omega (arith, v.total, rest) in
      let t : s'.total ≡ s.total + amount =
        let e : s'.total ≡ saturating_add u128_max s.total amount = ground arith in
        omega (arith, e) in
      let c : insert (remove s.claims owner) owner (saturating_add u128_max amount old)
          ≡ s'.claims =
        ground arith in
      let new =
        sum-insert_new (remove s.claims owner) owner (saturating_add u128_max amount old)
          (get-remove_self s.claims owner) in
      (
        record {
          unique = subst Unique c (
              insert-Unique (remove s.claims owner) owner (saturating_add u128_max amount old)
                (remove-Unique s.claims owner v.unique));
          total = t ∙ omega (arith, v.total, rest, new, both, ap sum c);
        },
        t,
      )

  move_airdrop-IsValid :
      (s s' : State W) (from to : ℕ)
      → IsValid s
      → move_airdrop cfg s from to ≡ ok s'
      → IsValid s' × (s'.total ≡ s.total)
  unfolding move_airdrop
  move_airdrop-IsValid s s' from to v h =
      let (u, p, q) = bind_ok (ensure (is_none (get s.claims to)) _) _ h in
      let (amount, p2, q2) = bind_ok (ok_or (get s.claims from) _) _ q in
      let fresh : get s.claims to ≡ none = ground (arith, ensure_ok _ _ p) in
      let there : get s.claims from ≡ some amount = ground (arith, p2) in
      let gone : get (remove s.claims from) to ≡ none =
        ground (arith, get-remove s.claims from to, fresh) in
      let c : insert (remove s.claims from) to amount ≡ s'.claims = ground arith in
      let t : s'.total ≡ s.total = ground arith in
      let old : unwrap_or (get s.claims from) 0 ≡ amount = rw there refl in
      (
        record {
          unique = subst Unique c (
              insert-Unique (remove s.claims from) to amount
                (remove-Unique s.claims from v.unique));
          total =
              t
              ∙ omega (
                arith,
                v.total,
                sum-remove s.claims from v.unique,
                sum-insert_new (remove s.claims from) to amount gone,
                old,
                ap sum c,
              );
        },
        t,
      )

  process_airdrop-IsValid :
      (s s' : State W) (source target : ℕ)
      → IsValid s
      → process_airdrop cfg s source target ≡ ok s'
      → IsValid s' × (s'.total ≤ s.total)
  unfolding process_airdrop
  process_airdrop-IsValid s s' source target v h =
      let (amount, p, q) = bind_ok (ok_or (get s.claims source) _) _ h in
      let (u2, p2, q2) = bind_ok (ensure (leb amount s.total) _) _ q in
      let (u3, p3, q3) =
        bind_ok (ensure (may_vest cfg s.balances target (get s.vesting source)) _) _ q2 in
      let (w, p4, q4) =
        bind_ok
          (vest cfg (cfg.currency.deposit_creating s.balances target amount) target
            (get s.vesting source))
          _ q3 in
      let there : get s.claims source ≡ some amount = ground (arith, p) in
      let c : remove s.claims source ≡ s'.claims = ground arith in
      let t : s'.total ≡ s.total - amount = ground arith in
      let old : unwrap_or (get s.claims source) 0 ≡ amount = rw there refl in
      (
        record {
          unique = subst Unique c (remove-Unique s.claims source v.unique);
          total = t ∙ omega (arith, v.total, sum-remove s.claims source v.unique, old, ap sum c);
        },
        omega (arith, t),
      )

  -- One call keeps the total, and adds what it may.
  pub dispatch-IsValid :
      (s s' : State W) (o : RawOrigin) (call : Call)
      → IsValid s
      → s.total + minted_by ((o, call) ∷ []) ≤ u128_max
      → dispatch s o call ≡ ok s'
      → IsValid s' × (s'.total ≤ s.total + minted_by ((o, call) ∷ []))
  unfolding dispatch claim_raw mint transfer
  dispatch-IsValid s s' o (claim_call source proof target) v room h =
      let (u, p, q) = bind_ok (ensure_none o) _ h in
      let (u2, p2, q2) = bind_ok (verify_proof cfg source proof target) _ q in
      let r = process_airdrop-IsValid s s' source target v q2 in (r.0, omega (arith, r.1))
  dispatch-IsValid s s' o (mint_call owner amount vesting) v room h =
      let (u, p, q) = bind_ok (ensure_root o) _ h in
      let r = mint_airdrop-IsValid s s' owner amount vesting v (omega (arith, room)) q in
      (r.0, omega (arith, r.1))
  dispatch-IsValid s s' o (add_call owner amount vesting) v room h =
      let r = add_airdrop-IsValid s s' owner amount vesting v (omega (arith, room)) h in
      (r.0, omega (arith, r.1))
  dispatch-IsValid s s' o (transfer_call from to) v room h =
      let (u, p, q) = bind_ok (ensure_root o) _ h in
      let r = move_airdrop-IsValid s s' from to v q in (r.0, omega (arith, r.1))
