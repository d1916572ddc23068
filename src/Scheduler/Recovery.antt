-- ===== src/Scheduler/Recovery.antt =====
-- What the recovery does to a task whose lease has run out, and the quotas after a tick.
use coderus.Base.{
  ℕ, ◌≤◌, Bool, true, false, ◌&&◌, ◌≡◌, refl, sym, ◌∙◌, String, Option, none, some, List, [], ◌∷◌,
  ◌==◌, str_eq, string_dec, truthy, if◌then◌else◌, Bool-cases, inl, inr, arith,
}
use coderus.Base.Table.{update_where, count_where}
use coderus.Store.{
  TaskStatus, status_in, status_eq, status_dec, Task, AgentRun, Db, return, pure, ◌>>=◌, ◌>>◌,
}
use coderus.Store.Tables.{get_task}
use coderus.TaskState.{write_task, token_matches, is_running, is_running_of}
use coderus.TaskState.Cas.{UniqueTasks}
use coderus.TaskState.Decision.{fits, cas_decides, cas_writes}
use coderus.TaskState.Invariant.{Limits, Inv}
use coderus.TaskState.Keeps.{Keeps}
use coderus.Scheduler.{
  reconciles, recovery_target, recovery_updates, recover_task, interrupt_runs, TickInput, tick,
}
use coderus.Scheduler.Invariant.{tick-Keeps}

fits_itself : (t : Task) → fits (t.status ∷ []) t.claim_token t ≡ true
unfolding status_in token_matches
fits_itself t = held t.claim_token
  where
    held : (o : Option String) → (status_in (t.status ∷ []) t.status && token_matches o o) ≡ true
    held none = ground arith
    held (some s) = ground arith

-- Whether a run of the task is under way.
abbrev pub is_under_way : ℕ → AgentRun → Bool
is_under_way task_id r = r.task_id == task_id && str_eq r.status "running"

-- No row is left that an update takes out of its own condition.
count_where_cleared :
    {A : Type 0} (p : A → Bool) (f : A → A) (xs : List A)
    → ((x : A) → p (f x) ≡ false)
    → count_where p (update_where p f xs) ≡ 0
unfolding count_where update_where
count_where_cleared p f [] h = refl
count_where_cleared p f (x ∷ xs) h = elim (Bool-cases (p x)) [
  | inl t ↦ rw t (rw (h x) (rw (count_where_cleared p f xs h) refl))
  | inr n ↦ rw n (rw n (rw (count_where_cleared p f xs h) refl))
]

interrupted_only :
    (task_id now : ℕ) (db : Db)
    → count_where (is_under_way task_id) (interrupt_runs task_id now db).1.agent_runs ≡ 0
unfolding interrupt_runs
interrupted_only task_id now db = count_where_cleared (is_under_way task_id) _ db.agent_runs closed
  where
    ended : str_eq "interrupted" "running" ≡ false
    ended = unfold string_dec in refl

    closed : (r : AgentRun) → (r.task_id == task_id && str_eq "interrupted" "running") ≡ false
    closed r = ground (arith, ended)

-- A publication that may have happened: of a task with a workspace, a branch and a commit.
abbrev pub may_be_published : Task → Bool
may_be_published t =
    status_eq t.status TaskStatus.publishing
    && (truthy t.workspace_path && truthy t.branch_name && truthy t.commit_sha)

-- The row of a task that the recovery has taken from its worker.
abbrev pub recovered_row : ℕ → Task → Task
recovered_row now t =
    if status_eq t.status TaskStatus.cancelling
    then record t {
      status = TaskStatus.cancelled;
      claim_token = none;
      claim_expires_at = none;
      finished_at = some now;
    }
    else (if may_be_published t
        then record t {
          status = TaskStatus.queued;
          claim_token = none;
          claim_expires_at = none;
          failure_code = some "publish_existing";
          failure_summary = some "发布过程被中断，系统将按固定分支核对并恢复 PR 记录";
          finished_at = none;
        }
        else record t {
          status = TaskStatus.manual_intervention;
          claim_token = none;
          claim_expires_at = none;
          failure_code = some "manager_restarted";
          failure_summary = some "服务重启或任务租约过期，运行已中断，请人工检查后重试";
          finished_at = some now;
        })

reconciles-may_be_published : (t : Task) → reconciles t ≡ may_be_published t
unfolding reconciles
reconciles-may_be_published t = ground arith

cancelling_publishes_nothing :
    (t : Task) → status_eq t.status TaskStatus.cancelling ≡ true → reconciles t ≡ false
unfolding reconciles
cancelling_publishes_nothing t h =
    let same : t.status ≡ TaskStatus.cancelling = ground arith in rw same apart
  where
    publishing_differs : status_eq TaskStatus.cancelling TaskStatus.publishing ≡ false
    publishing_differs = unfold status_dec in refl

    apart :
        (status_eq TaskStatus.cancelling TaskStatus.publishing
          && truthy t.workspace_path
          && truthy t.branch_name
          && truthy t.commit_sha)
        ≡ false
    apart = ground (arith, publishing_differs)

row_written :
    (now : ℕ) (t : Task)
    → write_task (recovery_target t) (recovery_updates t now) t ≡ recovered_row now t
unfolding write_task recovery_target recovery_updates
row_written now t = elim (Bool-cases (status_eq t.status TaskStatus.cancelling)) [
  | inl c ↦ rw (c, cancelling_publishes_nothing t c) refl
  | inr c ↦ elim (Bool-cases (reconciles t)) [
    | inl p ↦ let q = sym (reconciles-may_be_published t) ∙ p in rw (c, p, q) refl
    | inr p ↦ let q = sym (reconciles-may_be_published t) ∙ p in rw (c, p, q) refl
  ]
]

kept_row :
    (now task_id : ℕ) (db : Db)
    → get_task task_id (interrupt_runs task_id now db).1 ≡ get_task task_id db
unfolding interrupt_runs get_task
kept_row now task_id db = refl

interrupts_and_returns :
    (now task_id : ℕ) (db : Db)
    → (interrupt_runs task_id now >> pure true) db
      ≡ (return true, (interrupt_runs task_id now db).1)
unfolding interrupt_runs ◌>>◌ pure ◌>>=◌
interrupts_and_returns now task_id db = refl

-- A task that the recovery finds as it was read is recovered: the call says so, no run of the
-- task is under way any more, and its row has no claim and a new status. A cancelling one is
-- cancelled and keeps its failure; one that was publishing and has a workspace, a branch and a
-- commit is queued to publish what exists, with no end; any other waits for a person, as one
-- whose manager was restarted. Task ids are unique.
pub recover_task_writes :
    (now : ℕ) (t : Task) (db : Db)
    → UniqueTasks db
    → get_task t.id db ≡ some t
    → let r = recover_task now t db in
      (r.0 ≡ return true)
      × (get_task t.id r.1 ≡ some (recovered_row now t))
      × (count_where (is_under_way t.id) r.1.agent_runs ≡ 0)
unfolding recover_task ◌>>=◌
recover_task_writes now t db u e =
    let moved =
      cas_decides t.id t.status [] (recovery_target t) (recovery_updates t now) t.claim_token
        "recovery" db t u e in
    let written =
      cas_writes t.id t.status [] (recovery_target t) (recovery_updates t now) t.claim_token
        "recovery" db t u e in
    let kept = rw (moved, fits_itself t) at written in
    let row = rw (row_written now t) at kept in
    rw moved (
      rw (fits_itself t) (
        rw (interrupts_and_returns now t.id _)
          (refl, kept_row now t.id _ ∙ row, interrupted_only t.id now _)))

module _ (l : Limits) (input : TickInput) (others : (k : ℕ) → Keeps l (input.meanwhile k)) where
  -- From a database with the invariant a tick leads to one where both quotas hold, whatever
  -- other sessions commit between its claims, as long as each of these keeps the invariant.
  pub tick_quotas :
      (can_claim : Bool) (alive : List ℕ) (db : Db)
      → Inv l db
      → let after = (tick l.global_limit l.per_user_limit input can_claim alive db).1 in
        (count_where is_running after.tasks ≤ l.global_limit)
        × ((u : ℕ) → count_where (is_running_of u) after.tasks ≤ l.per_user_limit)
  tick_quotas can_claim alive db v =
      let after = (tick-Keeps l input others can_claim alive).apply db v in
      (after.quota, after.user_quota)
