-- ===== src/Tasks/Calls/Authority.antt =====
-- Who may settle a task: `submit_task_result` of pallets/tasks/src/lib.rs.
use timechain.Prelude.{
  ℕ, ◌≡◌, ◌⊎◌, refl, Bool, true, false, Option, none, some, List, contains, Bool-cases, inl, inr,
}
use timechain.Storage.{get, contains_key}
use timechain.Outcome.{
  Error, Outcome, ok, err, panic, Origin, After, After-skip, After-bind, After_ok, ensure,
  ensure_ok, ok_or, ensure_signed, invalid_signer, invalid_signature, unknown_task, unassigned_task,
  unknown_shard, bad_origin,
}
use timechain.Primitives.Gmp.{GmpEvent}
use timechain.Primitives.Task.{
  Task, read_gateway_events, submit_gateway_message, TaskResult, read_result, submit_error, Output,
}
use timechain.Tasks.State.{State, Config}
use timechain.Tasks.Core.{verify_signature}
use timechain.Tasks.Calls.{settle, finish_settled, submit_task_result}

After-const : {B : Type 0} (A : Type 0) → A → (m : Outcome B) → After (λ (b : B). A) m
After-const A a (ok b) = a
After-const A a (err e) = tt
After-const A a panic = tt

After-map :
    {B : Type 0} {Q : B → Type 0} (A : Type 0)
    → A
    → (m : Outcome B) → ((b : B) → A → Q b)
    → After Q m
After-map A a (ok b) f = f b a
After-map A a (err e) f = tt
After-map A a panic f = tt

After-ensure :
    (A : Type 0) (b : Bool) (e : Error) → (b ≡ true → A) → After (λ (u : Unit {0}). A) (ensure b e)
After-ensure A true e f = f refl
After-ensure A false e f = tt

module _ (cfg : Config) where
  -- The events of a read task are signed with the key of the shard that holds the task; the failure of
  -- a batch is reported by a member of that shard.
  pub data Authority (s : State) (o : Origin) (t : ℕ) : TaskResult → Type 0 where
    signed :
        (shard key : ℕ) (events : List GmpEvent) (sig : ℕ)
        → get s.task_shard t ≡ some shard
        → cfg.tss_public_key shard ≡ some key
        → cfg.schnorr_verify key (cfg.encode_gmp_events t events) sig ≡ true
        → Authority s o t (read_result events sig)
    reported :
        (shard signer : ℕ) (error : List ℕ)
        → get s.task_shard t ≡ some shard
        → o.signer ≡ some signer
        → contains (cfg.shard_members shard) signer ≡ true
        → Authority s o t (submit_error error)

  ok_or-some : {A : Type 0} (x : Option A) (e : _) {a : A} → ok_or x e ≡ ok a → x ≡ some a
  ok_or-some none e h = absurd (cc)
  ok_or-some (some b) e h = cc

  settle-Authority :
      (s : State) (o : Origin) (t signer n shard : ℕ) (task : Task) (result : TaskResult)
      → o.signer ≡ some signer
      → get s.task_shard t ≡ some shard
      → After
          (λ (r : State × Option Output). Authority s o t result)
          (settle cfg s signer n shard t task result)
  unfolding settle verify_signature
  settle-Authority s o t signer n shard (read_gateway_events start end) (read_result events sig) who
        at =
      let bytes = cfg.encode_gmp_events t events in
      let A : Type 0 = Authority s o t (read_result events sig) in
      After-bind (λ (u : Unit {0}). A) (λ (r : State × Option Output). A)
        (verify_signature cfg shard bytes sig) _
        (After-skip (λ (u : Unit {0}). A) (ok_or (cfg.tss_public_key shard) unknown_shard) _
          λ key k. After-ensure A (cfg.schnorr_verify key bytes sig) invalid_signature λ good.
            signed shard key events sig at (ok_or-some (cfg.tss_public_key shard) unknown_shard k)
              good)
        λ u a. After-const A a _
  settle-Authority s o t signer n shard (submit_gateway_message b) (submit_error e) who at =
      After-skip (λ (r : State × Option Output). Authority s o t (submit_error e))
        (ensure (contains (cfg.shard_members shard) signer) invalid_signer) _
        λ _ ok_member.
          reported shard signer e at who
            (ensure_ok (contains (cfg.shard_members shard) signer) invalid_signer ok_member)
  settle-Authority s o t signer n shard (read_gateway_events start end) (submit_error e) who at = tt
  settle-Authority s o t signer n shard (submit_gateway_message b) (read_result events sig) who at =
      tt

  -- A submission of a task result that is accepted changes nothing or is authorised: the events of a
  -- read task carry a signature of them and of the task by the key of the shard that holds the task,
  -- and the failure of a batch is reported by a member of the shard that holds its task.
  pub submit_task_result-Authority :
      (s s' : State) (o : Origin) (t : ℕ) (result : TaskResult)
      → submit_task_result cfg s o t result ≡ ok s'
      → (s' ≡ s) ⊎ Authority s o t result
  unfolding submit_task_result
  submit_task_result-Authority s s' o t result e =
      let Q : State → Type 0 = λ x. (x ≡ s) ⊎ Authority s o t result in
      After_ok Q (submit_task_result cfg s o t result)
        (After-skip Q (ensure_signed o) _ λ signer who.
          After-skip Q (ok_or (get s.tasks t) unknown_task) _ λ task _.
            elim (Bool-cases (contains_key s.task_output t)) [
              | inl done ↦ rw done (inl refl)
              | inr fresh ↦ rw fresh (
                  After-skip Q (ok_or (get s.task_shard t) unassigned_task) _ λ shard at.
                    After-skip Q (ok_or (cfg.shard_network shard) unknown_shard) _ λ n _.
                      After-bind (λ (r : State × Option Output). Authority s o t result) Q
                        (settle cfg s signer n shard t task result) _
                        (settle-Authority s o t signer n shard task result
                          (ok_or-some o.signer bad_origin who)
                          (ok_or-some (get s.task_shard t) unassigned_task at))
                        (λ r a.
                          After-map {Q = Q} (Authority s o t result) a (finish_settled cfg n t r)
                            (λ x b. inr b)))
            ])
        e
