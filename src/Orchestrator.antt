-- ===== src/Orchestrator.antt =====
-- coderus/workflow/orchestrator.py: the transactions by which a worker reports the progress and
-- the end of its task. Each is conditional on the worker's claim token.
pub mod Invariant
pub mod Refusal
pub mod Release
use coderus.Base.{
  ℕ, Bool, true, false, not, ◌&&◌, ◌||◌, String, Option, none, some, List, [], ◌∷◌, ◌++◌, ◌==◌,
  if◌then◌else◌, str_eq, column_eq, is_some, contains, is_empty,
}
use coderus.Base.Table.{find_where, update_where, count_where}
use coderus.Store.{
  TaskStatus, TriageState, status_eq, status_in, terminal_task_states, Task, PrFeedback, Db, Result,
  Action, Failure, value_error, runtime_error, claim_lost, task_cancelled, return, raise, get, pure,
  throw, transaction, commit_if, ◌>>=◌, ◌>>◌,
}
use coderus.Store.Tables.{get_task, update_tasks, update_issues, update_feedback}
use coderus.TaskState.{TaskUpdates, no_updates, assign, cas_task_status}

-- `_STATUS_EXPECTED`, as `dict.get`
unfoldable pub status_expected : TaskStatus → Option (List TaskStatus)
status_expected TaskStatus.preparing = some (TaskStatus.queued ∷ [])
status_expected TaskStatus.developer_working = some (TaskStatus.preparing ∷ [])
status_expected TaskStatus.reviewing =
    some (TaskStatus.developer_working ∷ TaskStatus.reviewing ∷ [])
status_expected TaskStatus.developer_revising =
    some (TaskStatus.preparing ∷ TaskStatus.reviewing ∷ [])
status_expected TaskStatus.sealing = some (
    TaskStatus.preparing ∷ TaskStatus.developer_working ∷ TaskStatus.reviewing
    ∷ TaskStatus.developer_revising ∷ [])
status_expected TaskStatus.publishing = some (TaskStatus.preparing ∷ TaskStatus.sealing ∷ [])
status_expected _ = none

-- Why `_set_status` raises where the update changed no row.
unfoldable pub refusal : String → Option Task → Failure
refusal claim_token none = value_error
refusal claim_token (some current) =
    if not (column_eq current.claim_token claim_token)
    then claim_lost
    else (if status_in (TaskStatus.cancelling ∷ TaskStatus.cancelled ∷ TaskStatus.dismissed ∷ [])
          current.status
        then task_cancelled
        else runtime_error)

unfoldable pub report_status : ℕ → String → Bool → Action (Unit {0})
report_status task_id claim_token true = pure tt
report_status task_id claim_token false =
    λ db. (raise (refusal claim_token (get_task task_id db)), db)

unfoldable pub set_status_from :
    ℕ → TaskStatus → String → Option (List TaskStatus) → Action (Unit {0})
set_status_from task_id status claim_token none = throw value_error
set_status_from task_id status claim_token (some expected) = do
  changed ←
      commit_if
        (cas_task_status task_id expected status no_updates (some claim_token) "orchestrator")
  report_status task_id claim_token changed

-- `_set_status`
unfoldable pub set_status : ℕ → TaskStatus → String → Action (Unit {0})
set_status task_id status claim_token =
    set_status_from task_id status claim_token (status_expected status)

-- An update of other columns, conditional on a status and on the token. It raises ClaimLost
-- unless one row was changed.
unfoldable pub holds : ℕ → TaskStatus → String → Task → Bool
holds task_id status claim_token t =
    t.id == task_id && status_eq t.status status && column_eq t.claim_token claim_token

unfoldable pub write_held : ℕ → TaskStatus → String → (Task → Task) → Action (Unit {0})
write_held task_id status claim_token written db = (
  if count_where (holds task_id status claim_token) db.tasks == 1
      then return tt
      else raise claim_lost,
  update_tasks (holds task_id status claim_token) written db,
)

-- What `workspace_git.prepare` returns.
pub record Prepared : Type 0 where
  pub workspace : String
  pub base_commit_sha : String
  pub branch : String

abbrev pub write_prepared : Prepared → Task → Task
write_prepared prepared t = record t {
  workspace_path = some prepared.workspace;
  base_commit_sha = some prepared.base_commit_sha;
  branch_name = some prepared.branch;
}

-- `_set_prepared`
unfoldable pub set_prepared : ℕ → String → Prepared → Action (Unit {0})
set_prepared task_id claim_token prepared =
    write_held task_id TaskStatus.preparing claim_token (write_prepared prepared)

-- What a forge returns for a published pull request.
pub record Published : Type 0 where
  pub url : String
  pub number : ℕ
  pub state : Option String

abbrev open_by_default : Option String → String
open_by_default none = "open"
open_by_default (some s) = s

abbrev pub cleared : ℕ → TaskUpdates
cleared now = record no_updates {
  claim_token = assign none;
  claim_expires_at = assign none;
  finished_at = assign (some now);
}

abbrev pub published_updates : Published → ℕ → TaskUpdates
published_updates published now = record no_updates {
  claim_token = assign none;
  claim_expires_at = assign none;
  failure_code = assign none;
  failure_summary = assign none;
  finished_at = assign (some now);
  pr_url = assign (some published.url);
  pr_number = assign (some published.number);
  pr_state = assign (some (open_by_default published.state));
}

abbrev pub awaits : ℕ → String → Task → Bool
awaits task_id claim_token t =
    t.id == task_id
    && column_eq t.claim_token claim_token
    && status_in (TaskStatus.publishing ∷ TaskStatus.cancelling ∷ []) t.status

abbrev pub published_target : TaskStatus → TaskStatus
published_target s =
    if status_eq s TaskStatus.cancelling
    then TaskStatus.cancelled
    else TaskStatus.awaiting_human_review

unfoldable pub awaiting_review_of : ℕ → String → Published → ℕ → Option Task → Action (Unit {0})
awaiting_review_of task_id claim_token published now none = throw claim_lost
awaiting_review_of task_id claim_token published now (some task) = do
  changed ←
      cas_task_status task_id (task.status ∷ []) (published_target task.status)
        (published_updates published now) (some claim_token) "publisher"
  if changed then pure tt else throw claim_lost

-- `_awaiting_review`. Its commit precedes the raise, which follows only an update of no row.
unfoldable pub awaiting_review : ℕ → String → Published → ℕ → Action (Unit {0})
awaiting_review task_id claim_token published now = do
  db ← get
  awaiting_review_of task_id claim_token published now
      (find_where (awaits task_id claim_token) db.tasks)

-- `_mark_cancelled`: the caller does not learn whether a row was changed.
unfoldable pub cancel_held : ℕ → String → ℕ → Action Bool
cancel_held task_id claim_token now = commit_if (
    cas_task_status task_id (TaskStatus.cancelling ∷ []) TaskStatus.cancelled (cleared now)
      (some claim_token) "orchestrator")

unfoldable pub mark_cancelled : ℕ → String → ℕ → Action (Unit {0})
mark_cancelled task_id claim_token now = cancel_held task_id claim_token now >> pure tt

abbrev pub failed_updates : String → String → ℕ → TaskUpdates
failed_updates code summary now = record (cleared now) {
  failure_code = assign (some code);
  failure_summary = assign (some summary);
}

abbrev pub settled_states : List TaskStatus
settled_states = terminal_task_states ++ TaskStatus.cancelling ∷ []

-- The issue of a task that failed before it was committed may be dispatched again.
unfoldable pub reopen_issue : Task → Bool → Action (Unit {0})
reopen_issue task changed =
    if changed && not (is_some task.commit_sha)
    then (λ db. (
      return tt,
      update_issues (λ i. i.id == task.issue_id)
          (λ i. record i { triage_state = TriageState.discovered }) db,
    ))
    else pure tt

unfoldable pub fail_held : ℕ → String → String → String → ℕ → Task → Action (Unit {0})
fail_held task_id claim_token code summary now task = do
  stopped ← cancel_held task_id claim_token now
  if stopped || status_in settled_states task.status then pure tt else (do
    changed ←
        cas_task_status task_id (task.status ∷ []) TaskStatus.failed
          (failed_updates code summary now) (some claim_token) "orchestrator"
    reopen_issue task changed)

-- A row that a worker's token still fits; the others are passed over.
unfoldable pub if_held : String → Option Task → (Task → Action (Unit {0})) → Action (Unit {0})
if_held claim_token none act = pure tt
if_held claim_token (some task) act =
    if column_eq task.claim_token claim_token then act task else pure tt

-- `_fail`; `code` is `classify_exception(exc)` and `summary` the exception's text.
unfoldable pub fail : ℕ → String → String → String → ℕ → Action (Unit {0})
fail task_id claim_token code summary now = do
  db ← get
  if_held claim_token (get_task task_id db) (fail_held task_id claim_token code summary now)

unfoldable pub intervene_held : ℕ → String → String → String → ℕ → Task → Action (Unit {0})
intervene_held task_id claim_token code summary now task =
    if status_in settled_states task.status
    then pure tt
    else (cas_task_status task_id (task.status ∷ []) TaskStatus.manual_intervention
          (failed_updates code summary now) (some claim_token) "orchestrator"
        >> pure tt)

-- `_manual_intervention`
unfoldable pub manual_intervention : ℕ → String → String → String → ℕ → Action (Unit {0})
manual_intervention task_id claim_token code summary now = do
  db ← get
  if_held claim_token (get_task task_id db) (intervene_held task_id claim_token code summary now)

abbrev pub interrupted_target : TaskStatus → TaskStatus
interrupted_target s =
    if status_eq s TaskStatus.cancelling
    then TaskStatus.cancelled
    else TaskStatus.manual_intervention

abbrev pub interrupted_updates : Task → ℕ → TaskUpdates
interrupted_updates task now =
    if status_eq task.status TaskStatus.cancelling
    then record (cleared now) {
      failure_code = assign task.failure_code;
      failure_summary = assign task.failure_summary;
    }
    else failed_updates "worker_interrupted" "任务执行协程被中断" now

unfoldable pub interrupt_held : ℕ → String → ℕ → Task → Action (Unit {0})
interrupt_held task_id claim_token now task =
    cas_task_status task_id (task.status ∷ []) (interrupted_target task.status)
      (interrupted_updates task now) (some claim_token) "orchestrator"
    >> pure tt

-- `_interrupt`
unfoldable pub interrupt : ℕ → String → ℕ → Action (Unit {0})
interrupt task_id claim_token now = do
  db ← get
  if_held claim_token (get_task task_id db) (interrupt_held task_id claim_token now)

-- The rows of `_selected_feedback`.
unfoldable pub is_selected : ℕ → PrFeedback → Bool
is_selected task_id row =
    row.task_id == task_id && is_some row.selected_at && not (is_some row.processed_at)

-- `_mark_feedback_processed`; `marked` says whether an id is among those given.
unfoldable pub mark_feedback_processed : ℕ → (ℕ → Bool) → ℕ → Action (Unit {0})
mark_feedback_processed task_id marked now db = (
  return tt,
  update_feedback (λ row. is_selected task_id row && marked row.id)
      (λ row. record row { processed_at = some now }) db,
)

-- The handler of `_notify`: a failed notification is noted on the task.
unfoldable pub note_notification : ℕ → String → Action (Unit {0})
note_notification task_id text db = (
  return tt,
  update_tasks (λ t. t.id == task_id) (λ t. record t { failure_summary = some text }) db,
)
