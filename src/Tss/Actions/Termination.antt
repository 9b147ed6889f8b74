-- ===== src/Tss/Actions/Termination.antt =====
-- The loops of Tss::next_action of tss/src/lib.rs end.
use timechain.Prelude.{
  ℕ, zero, suc, ◌≤◌, ◌<◌, ◌≡◌, ◌≢◌, sym, false, Option, none, some, List, [], ◌∷◌, arith, ◌==◌,
  length, is_empty, map, All, Bool-cases, inl, inr, subst,
}
use timechain.Storage.{Map, get, keys}
use timechain.BTree.{insert, get-insert, Sorted, Above}
use timechain.Outcome.{Outcome, ok, ◌>>=◌, After, After-bind, After-both, After-any, After_ok}
use timechain.Tss.Frost.{Frost}
use timechain.Tss.Signer.Nonces.{Distinct}
use timechain.Tss.Dkg
use timechain.Tss.Dkg.{Dkg, DkgAction}
use timechain.Tss.Roast
use timechain.Tss.Roast.{Roast, RoastAction, RoastMessage, on_message}
use timechain.Tss.Roast.Turns
use timechain.Tss.Roast.Turns.{Turn, next_action-Turn}
use timechain.Tss.Roast.Completion.{on_message-Kept}
use timechain.Tss.Roast.Progress.{measure, Progress, next_action-Progress}
use timechain.Tss.Machine.{Tss, TssState, TssMessage, TssAction, Pumped}
use timechain.Tss.Actions.{
  to_peers, others, to_self, react, pump, settle, pump_all, deliver, generate, advance, act,
  next_action,
}

-- Of two signers or more, one is another member.
others_some : (c : Map ℕ) (id : ℕ) → Sorted c → 2 ≤ length c → is_empty (others id (keys c)) ≡ false
others_some [] id s h = absurd (omega arith)
others_some ((j, v) ∷ []) id s h = absurd (omega arith)
others_some ((j, v) ∷ ((k, w) ∷ m)) id s h = let apart : j < k = s.0.0 in ground (arith, apart)

module _ (frost : Frost) (threshold pkp : ℕ) where
  abbrev IsValid : Roast → Type 0
  IsValid r = Turns.IsValid frost threshold pkp r

  -- Every session of a state of the machine is valid, and the fuel is enough for it.
  unfoldable pub Sufficient : ℕ → Map Roast → Type 0
  Sufficient fuel [] = Unit {0}
  Sufficient fuel ((id, r) ∷ m) = IsValid r × (measure r < fuel) × Sufficient fuel m

  -- The sessions of a state are valid, and the fuel is more than what each has left to do.
  abbrev pub Fuelled : ℕ → TssState → Type 0
  Fuelled fuel (TssState.generating d) = Unit {0}
  Fuelled fuel (TssState.signing key pkp' sessions) = Sorted sessions × Sufficient fuel sessions
  Fuelled fuel TssState.failed = Unit {0}

module _ (frost : Frost) (threshold pkp : ℕ) (more : 2 ≤ threshold) where
  -- The pump stopped because it had nothing to do, or something for the outside.
  abbrev pub Stopped : Roast × Pumped → Type 0
  Stopped (r, Pumped.quiet) = Unit {0}
  Stopped (r, Pumped.sent ps m) = Unit {0}
  Stopped (r, Pumped.signed h s) = Unit {0}
  Stopped (r, Pumped.exhausted) = ⊥

  react-Stopped :
      (go : Roast → Outcome (Roast × Pumped)) (n id : ℕ) (r : Roast)
      (x : Roast × Option RoastAction)
      → ((r' : Roast) → IsValid frost threshold pkp r' → measure r' < n → After Stopped (go r'))
      → measure r < suc n
      → IsValid frost threshold pkp x.0
      → Progress frost threshold r x
      → After Stopped (react frost go id x)
  unfolding react to_self
  react-Stopped go n id r (r', none) ih le v p = tt
  react-Stopped go n id r (r', some (RoastAction.complete h s)) ih le v p = tt
  react-Stopped go n id r (r', some (RoastAction.send peer m)) ih le v p =
      elim (Bool-cases (peer == id)) [
        | inr other ↦ rw other tt
        | inl own ↦
            let k = on_message-Kept frost threshold pkp r' id m v in
            rw own (ih (on_message frost r' id m) k.0 (omega (arith, p id, le)))
      ]
  react-Stopped go n id r (r', some (RoastAction.send_many ps m)) ih le v (c, e, sorted, size) =
      let away : is_empty (others id ps) ≡ false =
        subst (λ l. is_empty (others id l) ≡ false) (sym e)
          (others_some c id sorted (omega (arith, size, more))) in
      rw away tt

  -- With more fuel than there are commitments to send and requests to answer, the loop over one
  -- session stops by itself.
  pump-Stopped :
      (fuel id : ℕ) (r : Roast)
      → IsValid frost threshold pkp r
      → measure r < fuel
      → After Stopped (pump frost fuel id r)
  unfolding pump
  pump-Stopped zero id r v h = absurd (omega arith)
  pump-Stopped (suc fuel) id r v h =
      let both =
        After-both (Turn frost threshold pkp r) (Progress frost threshold r)
          (Roast.next_action frost r) (next_action-Turn frost threshold pkp r v)
          (next_action-Progress frost threshold pkp r v) in
      let ih = λ (r' : Roast) (w : IsValid frost threshold pkp r') (l : measure r' < fuel).
        pump-Stopped fuel id r' w l in
      After-bind (λ x. Turn frost threshold pkp r x × Progress frost threshold r x) Stopped
        (Roast.next_action frost r) (λ x. react frost (pump frost fuel id) id x) both
        (λ x t. react-Stopped (pump frost fuel id) fuel id r x ih h t.0.0 t.1)

  -- The sessions under the ids are there, and the fuel is enough for each.
  abbrev Ready : ℕ → Map Roast → List ℕ → Type 0
  Ready fuel sessions ids =
      All
        (λ id.
          (r : Roast) × (get sessions id ≡ some r)
          × IsValid frost threshold pkp r
          × (measure r < fuel))
        ids

  Ready-insert :
      (fuel : ℕ) (sessions : Map Roast) (id : ℕ) (r : Roast) (ids : List ℕ)
      → All (λ j. id ≢ j) ids
      → Ready fuel sessions ids
      → Ready fuel (insert sessions id r) ids
  Ready-insert fuel sessions id r [] apart ready = tt
  Ready-insert fuel sessions id r (j ∷ ids) apart ready =
      let (s, there, v, l) = ready.0 in
      (
        (s, ground (arith, get-insert sessions id j r, apart.0, there), v, l),
        Ready-insert fuel sessions id r ids apart.1 ready.1,
      )

  abbrev StoppedAll : Map Roast × Option (ℕ × Pumped) → Type 0
  StoppedAll (m, none) = Unit {0}
  StoppedAll (m, some (id, Pumped.exhausted)) = ⊥
  StoppedAll (m, some (id, Pumped.quiet)) = Unit {0}
  StoppedAll (m, some (id, Pumped.signed h s)) = Unit {0}
  StoppedAll (m, some (id, Pumped.sent ps msg)) = Unit {0}

  settle-Stopped :
      (go : Map Roast → Outcome (Map Roast × Option (ℕ × Pumped))) (sessions : Map Roast) (id : ℕ)
      (x : Roast × Pumped)
      → ((r : Roast) → After StoppedAll (go (insert sessions id r)))
      → Stopped x
      → After StoppedAll (settle frost go sessions id x)
  unfolding settle
  settle-Stopped go sessions id (r, Pumped.quiet) ih s = ih r
  settle-Stopped go sessions id (r, Pumped.sent ps m) ih s = tt
  settle-Stopped go sessions id (r, Pumped.signed h x) ih s = tt
  settle-Stopped go sessions id (r, Pumped.exhausted) ih s = absurd s

  pump_all-Stopped :
      (fuel id : ℕ) (sessions : Map Roast) (ids : List ℕ)
      → Distinct ids
      → Ready fuel sessions ids
      → After StoppedAll (pump_all frost fuel id sessions ids)
  unfolding pump_all
  pump_all-Stopped fuel me sessions [] d ready = tt
  pump_all-Stopped fuel me sessions (id ∷ ids) d ready =
      let (r, there, v, l) = ready.0 in
      let go = λ (m : Map Roast). pump_all frost fuel me m ids in
      let same : pump_all frost fuel me sessions (id ∷ ids)
          ≡ (pump frost fuel me r >>= λ x. settle frost go sessions id x) =
        ground (arith, there) in
      let ih = λ (r' : Roast).
        pump_all-Stopped fuel me (insert sessions id r') ids d.1
          (Ready-insert fuel sessions id r' ids d.0 ready.1) in
      subst (After StoppedAll) (sym same) (
        After-bind Stopped StoppedAll (pump frost fuel me r) (λ x. settle frost go sessions id x)
          (pump-Stopped fuel me r v l) (λ x s. settle-Stopped go sessions id x ih s))

  Ready-cons :
      (fuel id : ℕ) (r : Roast) (m : Map Roast) (ids : List ℕ)
      → All (λ j. id ≢ j) ids
      → Ready fuel m ids
      → Ready fuel ((id, r) ∷ m) ids
  unfolding get
  Ready-cons fuel id r m [] apart ready = tt
  Ready-cons fuel id r m (j ∷ ids) apart ready =
      let (s, there, v, l) = ready.0 in
      ((s, ground (arith, apart.0, there), v, l), Ready-cons fuel id r m ids apart.1 ready.1)

  Above-keys : (id : ℕ) (m : Map Roast) → Above id m → All (λ j. id ≢ j) (keys m)
  Above-keys id [] a = tt
  Above-keys id ((j, r) ∷ m) a = (ground (arith, a.0), Above-keys id m a.1)

  Sorted-keys : (m : Map Roast) → Sorted m → Distinct (keys m)
  Sorted-keys [] s = tt
  Sorted-keys ((j, r) ∷ m) s = (Above-keys j m s.0, Sorted-keys m s.1)

  Sufficient-Ready :
      (fuel : ℕ) (m : Map Roast)
      → Sorted m
      → Sufficient frost threshold pkp fuel m
      → Ready fuel m (keys m)
  unfolding get Sufficient
  Sufficient-Ready fuel [] s f = tt
  Sufficient-Ready fuel ((id, r) ∷ m) s f = (
    (r, ground arith, f.0, f.1),
    Ready-cons fuel id r m (keys m) (Above-keys id m s.0) (Sufficient-Ready fuel m s.1 f.2),
  )

  deliver-Ends :
      (t : Tss) (x : Map Roast × Option (ℕ × Pumped))
      → StoppedAll x
      → After (λ y. y.1 ≢ none) (deliver frost t x.1)
  unfolding deliver
  deliver-Ends t (m, none) s = λ e. cc
  deliver-Ends t (m, some (id, Pumped.quiet)) s = λ e. cc
  deliver-Ends t (m, some (id, Pumped.exhausted)) s = absurd s
  deliver-Ends t (m, some (id, Pumped.signed h x)) s = λ e. cc
  deliver-Ends t (m, some (id, Pumped.sent ids msg)) s =
      After-bind (λ _. Unit {0}) (λ y. y.1 ≢ none) (to_peers t.frost_to_peer ids)
        (λ peers.
          ok
            (t, some (some (TssAction.send (map (λ peer. (peer, TssMessage.roast id msg)) peers)))))
        (After-any (to_peers t.frost_to_peer ids)) (λ peers _ e. cc)

  advance-Ends :
      (t : Tss) (x : Dkg × Option DkgAction) → After (λ y. y.1 ≢ none) (advance frost t x)
  unfolding advance
  advance-Ends t (d, none) = λ e. cc
  advance-Ends t (d, some action) =
      After-bind (λ _. Unit {0}) (λ y. y.1 ≢ none) (generate frost t d action)
        (λ y. ok (y.0, some y.1)) (After-any (generate frost t d action)) (λ y _ e. cc)

  act-Ends :
      (fuel : ℕ) (t : Tss) (s : TssState)
      → Fuelled frost threshold pkp fuel s
      → After (λ y. y.1 ≢ none) (act frost fuel t s)
  unfolding act
  act-Ends fuel t (TssState.generating d) f =
      After-bind (λ _. Unit {0}) (λ y. y.1 ≢ none) (Dkg.next_action frost d) (advance frost t)
        (After-any (Dkg.next_action frost d)) (λ x _. advance-Ends t x)
  act-Ends fuel t (TssState.signing key pkp' sessions) f =
      After-bind StoppedAll (λ y. y.1 ≢ none)
        (pump_all frost fuel t.frost_id sessions (keys sessions))
        (λ x. deliver frost (record t { state = TssState.signing key pkp' x.0 }) x.1)
        (pump_all-Stopped fuel t.frost_id sessions (keys sessions) (Sorted-keys sessions f.0)
          (Sufficient-Ready fuel sessions f.0 f.1))
        (λ x h. deliver-Ends (record t { state = TssState.signing key pkp' x.0 }) x h)
  act-Ends fuel t TssState.failed f = λ e. cc

-- With a threshold of two signers or more, `next_action` never runs out of fuel, if the fuel is more
-- than the commitments that each session has still to send and the requests that it has still to
-- answer together: the loop over a session ends, and so does that over the sessions.
pub next_action-Ends :
    (frost : Frost) (threshold pkp : ℕ)
    → 2 ≤ threshold
    → (fuel : ℕ) (t t' : Tss) (a : Option (Option TssAction))
    → Fuelled frost threshold pkp fuel t.state
    → next_action frost fuel t ≡ ok (t', a)
    → a ≢ none
next_action-Ends frost threshold pkp more fuel t t' a f h =
    After_ok (λ y. y.1 ≢ none) (next_action frost fuel t)
      (act-Ends frost threshold pkp more fuel t t.state f) h
