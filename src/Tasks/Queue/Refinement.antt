-- ===== src/Tasks/Queue/Refinement.antt =====
-- The queue of pallets/tasks/src/queue.rs refines a first-in first-out list: any sequence of calls
-- gives the same answers.
use mathlib.Core.Path.{ap₂}
use timechain.Prelude.{
  ℕ, ◌+◌, ◌≤◌, ◌≡◌, refl, sym, ap, ◌∙◌, inl, inr, Option, none, some, List, [], ◌∷◌, ◌++◌, arith,
  length, u64_max,
}
use timechain.Tasks.Queue.{QueueImpl, insert_at, push, pop}
use timechain.Tasks.Queue.Fifo.{
  view, IsValid, view-push, push-IsValid, pop-Pops, Pops, insert_at-push, insert_at-pop,
}

-- A call of the trait `QueueT`: `remove` is called by `pop` alone.
pub data QueueCall {ℓ} (V : Type ℓ) : Type ℓ where
  pushes : V → QueueCall V
  pops : QueueCall V

module _ {ℓ} {V : Type ℓ} where
  -- The queue of one network under a sequence of calls, with the answers of the pops.
  pub run : QueueImpl V → ℕ → List (QueueCall V) → QueueImpl V × List (Option V)
  run q n [] = (q, [])
  run q n (pushes v ∷ cs) = run (push q n v) n cs
  run q n (pops ∷ cs) = let (q', r) = pop q n in let (q'', rs) = run q' n cs in (q'', r ∷ rs)

  -- The same calls on a list: a value goes in at the end and comes out at the front.
  pub run_list : List V → List (QueueCall V) → List V × List (Option V)
  run_list l [] = (l, [])
  run_list l (pushes v ∷ cs) = run_list (l ++ v ∷ []) cs
  run_list [] (pops ∷ cs) = let (l', rs) = run_list [] cs in (l', none ∷ rs)
  run_list (v ∷ l) (pops ∷ cs) = let (l', rs) = run_list l cs in (l', some v ∷ rs)

  abbrev pub Agrees : QueueImpl V → ℕ → List V → List (QueueCall V) → Type ℓ
  Agrees q n l cs =
      ((run q n cs).1 ≡ (run_list l cs).1)
      × (view (run q n cs).0 n ≡ (run_list l cs).0)
      × IsValid (run q n cs).0 n

  -- One pop, given how it ends and what the rest of the calls does.
  pop_step :
      (q : QueueImpl V) (n : ℕ) (l : List V) (cs : List (QueueCall V))
      → ((l' : List V)
          → view (pop q n).0 n ≡ l'
          → IsValid (pop q n).0 n
          → Agrees (pop q n).0 n l' cs)
      → IsValid q n
      → view q n ≡ l
      → Pops q n (pop q n)
      → Agrees q n l (pops ∷ cs)
  unfolding run run_list
  pop_step q n [] cs rest ok e (inl (empty, r, same)) =
      let (o, v, k) = rest [] (rw same e) (rw same ok) in (ap₂ (◌∷◌) r o, v, k)
  pop_step q n (x ∷ l) cs rest ok e (inl (empty, r, same)) = absurd (cc)
  pop_step q n [] cs rest ok e (inr (v, r, front, ok')) = absurd (cc)
  pop_step q n (x ∷ l) cs rest ok e (inr (v, r, front, ok')) =
      let (o, w, k) = rest l (cc) ok' in
      let head : x ≡ v = cc in (ap₂ (◌∷◌) (r ∙ ap some (sym head)) o, w, k)

  -- Any sequence of pushes and pops of a queue that is in order gives the same answers as the list
  -- that it represents, and ends in order and representing the list that is left, as long as the
  -- insert index stays in its type.
  pub run-Agrees :
      (q : QueueImpl V) (n : ℕ) (l : List V) (cs : List (QueueCall V))
      → IsValid q n
      → insert_at q n + length cs ≤ u64_max
      → view q n ≡ l
      → Agrees q n l cs
  unfolding run run_list
  run-Agrees q n l [] ok room e = (refl, e, ok)
  run-Agrees q n l (pushes v ∷ cs) ok room e =
      run-Agrees (push q n v) n (l ++ v ∷ []) cs (push-IsValid q n v ok (omega arith))
        (omega (arith, insert_at-push q n v (omega arith)))
        (view-push q n v ok (omega arith) ∙ ap (λ x. x ++ v ∷ []) e)
  run-Agrees q n l (pops ∷ cs) ok room e =
      pop_step q n l cs
        (λ l' e' ok'. run-Agrees (pop q n).0 n l' cs ok' (omega (arith, insert_at-pop q n)) e') ok e
        (pop-Pops q n ok)
