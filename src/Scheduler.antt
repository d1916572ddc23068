-- ===== src/Scheduler.antt =====
-- coderus/workflow/scheduler.py: the recovery of tasks whose lease has run out, and the tick that
-- claims queued tasks within the quotas.
pub mod Invariant
pub mod Recovery
use coderus.Base.{
  ℕ, ◌+◌, Bool, true, false, not, ◌&&◌, ◌||◌, String, Option, none, some, List, [], ◌∷◌, ◌==◌, ltb,
  leb, if◌then◌else◌, str_eq, truthy,
}
use coderus.Base.Text.{codes}
use coderus.Base.Table.{find_where, select_where, update_where, count_where}
use coderus.Store.{
  TaskStatus, status_eq, status_in, running_task_states, Task, User, AgentRun, Db, Action, Result,
  return, get, pure, transaction, ◌>>=◌, ◌>>◌,
}
use coderus.Store.Tables.{get_user}
use coderus.TaskState.{
  TaskUpdates, no_updates, assign, cas_task_status, claim_queued_task, can_start_task, is_running,
  is_running_of,
}

abbrev pub claim_lease_seconds : ℕ
claim_lease_seconds = 120

abbrev lease_over : Option ℕ → ℕ → Bool
lease_over none now = true
lease_over (some t) now = leb t now

-- The rows that `_recover_expired` selects.
unfoldable pub is_expired : ℕ → Task → Bool
is_expired now t =
    status_eq t.status TaskStatus.cancelling
    || (status_in running_task_states t.status && lease_over t.claim_expires_at now)

-- The publication may have happened: it is reconciled by another run.
unfoldable pub reconciles : Task → Bool
reconciles t =
    status_eq t.status TaskStatus.publishing
    && truthy t.workspace_path
    && truthy t.branch_name
    && truthy t.commit_sha

unfoldable pub recovery_target : Task → TaskStatus
recovery_target t =
    if status_eq t.status TaskStatus.cancelling
    then TaskStatus.cancelled
    else (if reconciles t then TaskStatus.queued else TaskStatus.manual_intervention)

abbrev recovery_code : Task → Option String
recovery_code t =
    if status_eq t.status TaskStatus.cancelling
    then t.failure_code
    else (if reconciles t then some "publish_existing" else some "manager_restarted")

abbrev recovery_summary : Task → Option String
recovery_summary t =
    if status_eq t.status TaskStatus.cancelling
    then t.failure_summary
    else (if reconciles t
        then some "发布过程被中断，系统将按固定分支核对并恢复 PR 记录"
        else some "服务重启或任务租约过期，运行已中断，请人工检查后重试")

unfoldable pub recovery_updates : Task → ℕ → TaskUpdates
recovery_updates t now = record no_updates {
  claim_token = assign none;
  claim_expires_at = assign none;
  failure_code = assign (recovery_code t);
  failure_summary = assign (recovery_summary t);
  finished_at = assign (if reconciles t then none else some now);
}

-- The runs of a recovered task that had not ended.
unfoldable pub interrupt_runs : ℕ → ℕ → Action (Unit {0})
interrupt_runs task_id now db = (
  return tt,
  record db {
    agent_runs =
        update_where (λ r. r.task_id == task_id && str_eq r.status "running")
          (λ r. record r {
            status = "interrupted";
            finished_at = some now;
            error_summary = some (codes "任务租约过期或服务重启");
          })
          db.agent_runs;
  },
)

unfoldable pub recover_task : ℕ → Task → Action Bool
recover_task now task = do
  changed ←
      cas_task_status task.id (task.status ∷ []) (recovery_target task) (recovery_updates task now)
        task.claim_token "recovery"
  if changed then (interrupt_runs task.id now >> pure true) else pure false

-- The `for` loop; the result is the number of recovered tasks.
unfoldable pub recover_all : ℕ → List Task → ℕ → Action ℕ
recover_all now [] recovered = pure recovered
recover_all now (task ∷ tasks) recovered = do
  changed ← recover_task now task
  recover_all now tasks (if changed then recovered + 1 else recovered)

unfoldable pub recover_expired : ℕ → Action ℕ
recover_expired now =
    transaction (get >>= λ db. recover_all now (select_where (is_expired now) db.tasks) 0)

-- The key of `ORDER BY priority DESC, created_at, id`.
abbrev pub before : Task → Task → Bool
before a b =
    ltb b.priority a.priority
    || ((a.priority == b.priority)
        && (ltb a.created_at b.created_at || ((a.created_at == b.created_at) && leb a.id b.id)))

abbrev active_user : Option User → Bool
active_user none = false
active_user (some u) = u.is_active

abbrev holds_id : ℕ → List ℕ → Bool
holds_id k [] = false
holds_id k (x ∷ xs) = (k == x) || holds_id k xs

-- `Counter`: how often a user's id was added.
abbrev tally : ℕ → List ℕ → ℕ
tally u [] = 0
tally u (x ∷ xs) = (if u == x then 1 else 0) + tally u xs

-- What a tick keeps while it goes through the queue: the tasks with a worker of this process,
-- newest first, and the users for whom this tick has claimed one.
pub record Launch : Type 0 where
  pub running : List ℕ
  pub reserved_users : List ℕ
  pub reserved_global : ℕ

abbrev pub started : Task → Launch → Launch
started t s = record {
  running = t.id ∷ s.running;
  reserved_users = t.created_by ∷ s.reserved_users;
  reserved_global = s.reserved_global + 1;
}

abbrev launched : Task → Launch → Option String → Launch
launched t s none = s
launched t s (some token) = started t s

-- A tick's clock, its supply of secrets, what other sessions commit before each claim, and how the
-- database puts rows in order.
pub record TickInput : Type 0 where
  pub order_by : (Task → Task → Bool) → List Task → List Task
  pub now : ℕ
  pub token : ℕ → String
  pub meanwhile : ℕ → Action (Unit {0})

module _ (global_limit per_user_limit : ℕ) (input : TickInput) where
  -- The queued tasks of active users, in the order in which they are considered.
  unfoldable pub queued_tasks : Db → List Task
  queued_tasks db = input.order_by before (
      select_where
        (λ t. status_eq t.status TaskStatus.queued && active_user (get_user t.created_by db))
        db.tasks)

  -- The rows that ran when the tick began, and its own claims, leave room for the task.
  unfoldable pub has_room : List Task → Task → Launch → Bool
  has_room persisted t s =
      can_start_task (count_where is_running persisted + s.reserved_global)
        (count_where (is_running_of t.created_by) persisted + tally t.created_by s.reserved_users)
        global_limit per_user_limit

  unfoldable pub claim_one : Task → Launch → Action Launch
  claim_one t s = do
    input.meanwhile t.id
    claim_token ← transaction (
        claim_queued_task t.id global_limit per_user_limit claim_lease_seconds (input.token t.id)
          input.now)
    pure (launched t s claim_token)

  -- The body of the loop over the queue.
  unfoldable pub consider : List Task → Task → Launch → Action Launch
  consider persisted t s =
      if holds_id t.id s.running
      then pure s
      else (if has_room persisted t s then claim_one t s else pure s)

  unfoldable pub launch_all : List Task → List Task → Launch → Action Launch
  launch_all persisted [] s = pure s
  launch_all persisted (t ∷ ts) s = consider persisted t s >>= launch_all persisted ts

  -- `tick`: `alive` are the tasks whose worker has not ended. The result is the new `_running`.
  unfoldable pub tick : Bool → List ℕ → Action (List ℕ)
  tick can_claim alive = do
    recovered ← recover_expired input.now
    db ← get
    if can_claim
        then (launch_all (select_where is_running db.tasks) (queued_tasks db)
              (record { running = alive; reserved_users = []; reserved_global = 0 })
            >>= λ s. pure s.running)
        else pure alive
