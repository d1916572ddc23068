-- ===== src/Scheduler/Invariant.antt =====
-- A tick keeps the invariant, whatever other sessions commit between its claims.
use coderus.Base.{
  ℕ, ◌+◌, Bool, true, false, ◌≡◌, refl, sym, List, [], ◌∷◌, if◌then◌else◌, arith, Bool-cases, inl,
  inr,
}
use coderus.Base.Table.{All, select_where-All}
use coderus.Store.{TaskStatus, status_eq, status_in, running_task_states, Task}
use coderus.TaskState.{write_task}
use coderus.TaskState.Graph.{IsOwned, is_edge, is_claimed}
use coderus.TaskState.Invariant.{Limits, same_tables-Inv}
use coderus.TaskState.Claim.{claim-Keeps}
use coderus.TaskState.Keeps.{
  Keeps, cas-Keeps, bind-Keeps, then-Keeps, get-Keeps, pure-Keeps, if-Keeps, transaction-Keeps,
  status_in-single,
}
use coderus.Scheduler.{
  is_expired, reconciles, recovery_target, recovery_updates, interrupt_runs, recover_task,
  recover_all, recover_expired, Launch, TickInput, has_room, claim_one, consider, launch_all, tick,
  claim_lease_seconds, holds_id,
}

-- An expired task is cancelled, queued again, or left to a person.
recovery_edge :
    (now : ℕ) (t : Task) → is_expired now t ≡ true → is_edge t.status (recovery_target t) ≡ true
unfolding is_expired recovery_target reconciles is_edge status_in
recovery_edge now t h = ground arith

recovery_idle : (t : Task) → status_in running_task_states (recovery_target t) ≡ false
unfolding recovery_target status_in
recovery_idle t = elim (Bool-cases (status_eq t.status TaskStatus.cancelling)) [
  | inl e ↦ rw e refl
  | inr e ↦ elim (Bool-cases (reconciles t)) [ inl r ↦ rw e (rw r refl) | inr r ↦ rw e (rw r refl) ]
]

recovery_unclaimed : (t : Task) → is_claimed (recovery_target t) ≡ false
unfolding recovery_target is_claimed
recovery_unclaimed t = elim (Bool-cases (status_eq t.status TaskStatus.cancelling)) [
  | inl e ↦ rw e refl
  | inr e ↦ elim (Bool-cases (reconciles t)) [ inl r ↦ rw e (rw r refl) | inr r ↦ rw e (rw r refl) ]
]

recovery_owner :
    (now : ℕ) (t c : Task) → IsOwned (write_task (recovery_target t) (recovery_updates t now) c)
unfolding write_task recovery_updates
recovery_owner now t c = sym (recovery_unclaimed t)

recover_task-Keeps :
    {l : Limits} (now : ℕ) (t : Task) → is_expired now t ≡ true → Keeps l (recover_task now t)
unfolding recover_task
recover_task-Keeps now t h =
    bind-Keeps _ _
      (cas-Keeps t.id t.status [] (recovery_target t) (recovery_updates t now) t.claim_token
        "recovery"
        λ c owned within fits.
          let same = status_in-single t.status c.status within in
          (rw same (recovery_edge now t h), recovery_owner now t c, λ runs. cc (recovery_idle t)))
      λ changed.
        if-Keeps changed _ _ (λ _. then-Keeps _ _ (interrupt_runs-Keeps t.id) (pure-Keeps true))
          (λ _. pure-Keeps false)
  where
    interrupt_runs-Keeps : {l : Limits} (task_id : ℕ) → Keeps l (interrupt_runs task_id now)
    interrupt_runs-Keeps task_id = record {
      apply = λ db v. unfold interrupt_runs in same_tables-Inv db _ refl refl v;
    }

recover_all-Keeps :
    {l : Limits} (now : ℕ) (tasks : List Task) (recovered : ℕ)
    → All (λ t. is_expired now t ≡ true) tasks
    → Keeps l (recover_all now tasks recovered)
unfolding recover_all
recover_all-Keeps now [] recovered h = pure-Keeps recovered
recover_all-Keeps now (t ∷ ts) recovered h =
    bind-Keeps _ _ (recover_task-Keeps now t h.0)
      λ changed. recover_all-Keeps now ts (if changed then recovered + 1 else recovered) h.1

pub recover_expired-Keeps : {l : Limits} (now : ℕ) → Keeps l (recover_expired now)
unfolding recover_expired
recover_expired-Keeps now = transaction-Keeps _ (
    bind-Keeps _ _ get-Keeps
      λ db. recover_all-Keeps now _ 0 (select_where-All (is_expired now) db.tasks))

module _ (l : Limits) (input : TickInput) (others : (k : ℕ) → Keeps l (input.meanwhile k)) where
  claim_one-Keeps :
      (t : Task) (s : Launch) → Keeps l (claim_one l.global_limit l.per_user_limit input t s)
  unfolding claim_one
  claim_one-Keeps t s = then-Keeps _ _ (others t.id) (
      bind-Keeps _ _
        (transaction-Keeps _ (
          claim-Keeps t.id l.global_limit l.per_user_limit claim_lease_seconds (input.token t.id)
            input.now))
        λ claim_token. pure-Keeps _)

  consider-Keeps :
      (persisted : List Task) (t : Task) (s : Launch)
      → Keeps l (consider l.global_limit l.per_user_limit input persisted t s)
  unfolding consider
  consider-Keeps persisted t s =
      if-Keeps (holds_id t.id s.running) _ _ (λ _. pure-Keeps s)
        λ _.
          if-Keeps (has_room l.global_limit l.per_user_limit input persisted t s) _ _
            (λ _. claim_one-Keeps t s) (λ _. pure-Keeps s)

  launch_all-Keeps :
      (persisted ts : List Task) (s : Launch)
      → Keeps l (launch_all l.global_limit l.per_user_limit input persisted ts s)
  unfolding launch_all
  launch_all-Keeps persisted [] s = pure-Keeps s
  launch_all-Keeps persisted (t ∷ ts) s =
      bind-Keeps _ _ (consider-Keeps persisted t s) (launch_all-Keeps persisted ts)

  pub tick-Keeps :
      (can_claim : Bool) (alive : List ℕ)
      → Keeps l (tick l.global_limit l.per_user_limit input can_claim alive)
  unfolding tick
  tick-Keeps can_claim alive = bind-Keeps _ _ (recover_expired-Keeps input.now) λ recovered.
      bind-Keeps _ _ get-Keeps λ db.
        if-Keeps can_claim _ _
          (λ _. bind-Keeps _ _ (launch_all-Keeps _ _ _) (λ s. pure-Keeps s.running))
          (λ _. pure-Keeps alive)
