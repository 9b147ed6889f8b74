-- ===== src/Tasks/Queue/Slots.antt =====
-- The slots of the queue of pallets/tasks/src/queue.rs, read as a list, and where its `while` loop
-- stops.
use Prim.Native.Nat.add
use native.Mathlib.Nat.{add-zero}
use timechain.Prelude.{
  ℕ, zero, suc, ◌+◌, ◌-◌, ◌≤◌, ◌<◌, ◌≡◌, refl, sym, ap, ◌∙◌, ◌&&◌, inl, inr, true, false, Option,
  none, some, List, [], ◌∷◌, ◌++◌, arith, ltb, is_some, is_none, Bool-cases, Option-cases, u64_max,
  saturating_add,
}
use timechain.Tasks.Queue.{skip}

module _ {ℓ} {V : Type ℓ} where
  pub is_some_value : (o : Option V) → is_some o ≡ true → (v : V) × (o ≡ some v)
  is_some_value o h = ground arith

  -- The values in `count` slots from `i` on, free slots left out.
  unfoldable pub collect : (ℕ → Option V) → ℕ → ℕ → List V
  collect slot i zero = []
  collect slot i (suc count) =
      let rest = collect slot (suc i) count in elim (slot i) [ none ↦ rest | some v ↦ v ∷ rest ]

  pub collect_congr :
      (f g : ℕ → Option V) (i n : ℕ)
      → ((j : ℕ) → i ≤ j → j < i + n → f j ≡ g j)
      → collect f i n ≡ collect g i n
  unfolding collect
  collect_congr f g i zero h = refl
  collect_congr f g i (suc n) h = ground (
    arith,
    h i (omega arith) (omega arith),
    collect_congr f g (suc i) n (λ j a b. h j (omega arith) (omega arith)),
  )

  collect-add :
      (f : ℕ → Option V) (i m n : ℕ) → collect f i (m + n) ≡ collect f i m ++ collect f (i + m) n
  unfolding collect
  collect-add f i zero n = rw (add.zero n, add-zero i)
  collect-add f i (suc m) n =
      let step : suc m + n ≡ suc (m + n) = omega arith in
      let shift : i + suc m ≡ suc i + m = omega arith in
      rw (step, shift)
        (elim (Option-cases (f i)) [
          | inl e ↦ rw (e, collect) (collect-add f (suc i) m n)
          | inr (v, e) ↦ rw (e, collect) (ap (◌∷◌ v) (collect-add f (suc i) m n))
        ])

  collect_free :
      (f : ℕ → Option V) (r top : ℕ)
      → r < top
      → f r ≡ none
      → collect f r (top - r) ≡ collect f (suc r) (top - suc r)
  unfolding collect
  collect_free f r top h e =
      let step : top - r ≡ suc (top - suc r) = omega arith in rw step (rw (e, collect))

  pub collect_taken :
      (f : ℕ → Option V) (r top : ℕ) (v : V)
      → r < top
      → f r ≡ some v
      → collect f r (top - r) ≡ v ∷ collect f (suc r) (top - suc r)
  unfolding collect
  collect_taken f r top v h e =
      let step : top - r ≡ suc (top - suc r) = omega arith in rw step (rw (e, collect))

  pub collect_end : (f : ℕ → Option V) (r top : ℕ) → top ≤ r → collect f r (top - r) ≡ []
  unfolding collect
  collect_end f r top h = let none_left : top - r ≡ 0 = omega arith in rw none_left

  -- Where the loop may stop: at a value or at the end, with free slots only behind it.
  pub record Stops (f : ℕ → Option V) (top from at : ℕ) : Type ℓ where
    pub after : from ≤ at
    pub within : at ≤ top
    pub taken : at < top → is_some (f at) ≡ true
    pub same : collect f at (top - at) ≡ collect f from (top - from)

  stop_here :
      (f : ℕ → Option V) (top r : ℕ)
      → r ≤ top
      → (is_none (f r) && ltb r top) ≡ false
      → Stops f top r r
  stop_here f top r a t = record {
    after = omega arith;
    within = a;
    taken = λ h. ground arith;
    same = refl;
  }

  pub skip-Stops :
      (f : ℕ → Option V) (fuel top r : ℕ)
      → r ≤ top
      → top ≤ u64_max
      → top ≤ r + fuel
      → Stops f top r (skip f fuel top r)
  unfolding skip
  skip-Stops f zero top r a b c = stop_here f top r a (ground arith)
  skip-Stops f (suc fuel) top r a b c = elim (Bool-cases (is_none (f r) && ltb r top)) [
    | inl free ↦
        let below : r < top = ground arith in
        let next : saturating_add u64_max r 1 ≡ suc r = omega arith in
        let rest : Stops f top (suc r) (skip f fuel top (suc r)) =
          skip-Stops f fuel top (suc r) below b (omega arith) in
        rw free (
          rw next (record {
            after = omega (arith, rest.after);
            within = rest.within;
            taken = rest.taken;
            same = rest.same ∙ sym (collect_free f r top below (ground arith));
          }))
    | inr stop ↦ rw stop (stop_here f top r a stop)
  ]

  collect_one : (f : ℕ → Option V) (i : ℕ) (v : V) → f i ≡ some v → collect f i (suc zero) ≡ v ∷ []
  unfolding collect
  collect_one f i v e = rw (e, collect)

  pub collect_extend :
      (f g : ℕ → Option V) (r top : ℕ) (v : V)
      → r ≤ top
      → ((j : ℕ) → j < top → g j ≡ f j)
      → g top ≡ some v
      → collect g r (suc top - r) ≡ collect f r (top - r) ++ v ∷ []
  unfolding collect
  collect_extend f g r top v h same new =
      let last : suc top - r ≡ (top - r) + suc zero = omega arith in
      let place : r + (top - r) ≡ top = omega arith in
      rw (last, collect-add g r (top - r) (suc zero), place, collect_one g top v new)
        (ap (λ l. l ++ v ∷ []) (collect_congr g f r (top - r) (λ j _ b. same j (omega arith))))
