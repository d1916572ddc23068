-- ===== src/Commands.antt =====
-- coderus/application/tasks.py: the commands that a user gives for a task. Each is one
-- transaction; `Feedback` below has the rows of coderus/workflow/feedback.py.
pub mod Feedback
pub mod Invariant
pub mod Outcome
use coderus.Base.{
  ℕ, Bool, true, false, not, ◌&&◌, ◌||◌, String, Option, none, some, List, [], ◌∷◌, ◌==◌,
  if◌then◌else◌, str_eq, truthy, contains, string_dec, is_some, is_empty, length,
}
use coderus.Base.Table.{count_where, update_where}
use coderus.Store.{
  TaskStatus, status_eq, status_dec, status_in, running_task_states, Task, User, Repository,
  PrFeedback, Db, Result, Action, value_error, not_found, forbidden, conflict, runtime_error,
  return, raise, get, pure, throw, transaction, ◌>>=◌, ◌>>◌,
}
use coderus.Store.Tables.{get_task, get_user, repository_of, update_feedback}
use coderus.TaskState.{TaskUpdates, no_updates, assign, cas_task_status}
use Feedback.{FeedbackItem, upsert_all}

abbrev pub closable_task_statuses : List TaskStatus
closable_task_statuses =
    TaskStatus.awaiting_human_review ∷ TaskStatus.failed ∷ TaskStatus.manual_intervention
    ∷ TaskStatus.cancelled ∷ []

abbrev pub trusted_feedback_associations : List String
trusted_feedback_associations = "OWNER" ∷ "MEMBER" ∷ "COLLABORATOR" ∷ []

-- `_owned_task` on the rows that its two lookups give.
unfoldable pub permitted : Option Task → Option User → Result Task
permitted none actor = raise not_found
permitted (some task) none = raise forbidden
permitted (some task) (some actor) =
    if not (str_eq actor.role "admin") && not (task.created_by == actor.id)
    then raise forbidden
    else return task

unfoldable pub owned_task : ℕ → ℕ → Action Task
owned_task task_id actor_id db = (permitted (get_task task_id db) (get_user actor_id db), db)

-- `_transition`
unfoldable pub transition : ℕ → TaskStatus → TaskStatus → TaskUpdates → Action (Unit {0})
transition task_id expected new_status updates = do
  changed ← cas_task_status task_id (expected ∷ []) new_status updates none "system"
  if changed then pure tt else throw conflict

abbrev finish_at : Option ℕ → TaskUpdates
finish_at time = record no_updates { finished_at = assign time }

-- The body of `request_cancel` once the task has been read. The result says whether the
-- runner is to be signalled.
unfoldable pub cancel_task : ℕ → ℕ → Task → Action Bool
cancel_task task_id now task =
    if status_eq task.status TaskStatus.queued
    then (transition task_id task.status TaskStatus.cancelled (finish_at (some now)) >> pure false)
    else (if status_in running_task_states task.status
        then (transition task_id task.status TaskStatus.cancelling no_updates >> pure true)
        else throw conflict)

unfoldable pub request_cancel : ℕ → ℕ → ℕ → Action Bool
request_cancel task_id actor_id now =
    transaction (owned_task task_id actor_id >>= cancel_task task_id now)

unfoldable pub close_task : ℕ → ℕ → Task → Action (Unit {0})
close_task task_id now task =
    if status_in closable_task_statuses task.status
    then transition task_id task.status TaskStatus.dismissed (finish_at (some now))
    else throw conflict

unfoldable pub close : ℕ → ℕ → ℕ → Action (Unit {0})
close task_id actor_id now = transaction (owned_task task_id actor_id >>= close_task task_id now)

-- `task.pr_number` is read as a truth value.
abbrev pub numbered : Option ℕ → Bool
numbered none = false
numbered (some n) = not (n == 0)

abbrev repository_or_fail : Option Repository → Result Repository
repository_or_fail none = raise runtime_error
repository_or_fail (some r) = return r

-- The first session of `sync_feedback`: it reads, and writes nothing.
unfoldable pub sync_target : Task → Action Repository
sync_target task =
    if status_eq task.status TaskStatus.awaiting_human_review && numbered task.pr_number
    then (λ db. (repository_or_fail (repository_of task db), db))
    else throw conflict

-- The new status and the updates, by the pull request's status on the forge.
unfoldable pub sync_outcome : Option String → ℕ → TaskStatus × TaskUpdates
sync_outcome none now = (TaskStatus.awaiting_human_review, no_updates)
sync_outcome (some s) now =
    if str_eq s "merged"
    then (
      TaskStatus.completed,
      record no_updates { finished_at = assign (some now); pr_state = assign (some "merged") },
    )
    else (if str_eq s "closed"
        then (
          TaskStatus.closed,
          record no_updates { finished_at = assign (some now); pr_state = assign (some "closed") },
        )
        else (TaskStatus.awaiting_human_review, no_updates))

-- The second session of `sync_feedback`.
unfoldable pub store_feedback :
    (List PrFeedback → ℕ) → ℕ → String → List FeedbackItem → Option String → ℕ → Action (Unit {0})
store_feedback fresh_id task_id provider feedback pr_status now = transaction do
  let outcome = sync_outcome pr_status now
  transition task_id TaskStatus.awaiting_human_review outcome.0 outcome.1
  upsert_all fresh_id task_id provider feedback

-- What the forge supports, and what it answers: the feedback and the pull request's status.
pub record FeedbackForge : Type 0 where
  pub lists_feedback : String → Bool
  pub gets_status : String → Bool
  pub list_pr_feedback : Repository → Option ℕ → Result (List FeedbackItem)
  pub get_pr_status : Repository → Option ℕ → Result (Option String)

-- `meanwhile` is what other sessions commit while the forge is asked.
unfoldable pub sync_feedback :
    FeedbackForge
    → (List PrFeedback → ℕ)
    → Action (Unit {0})
    → ℕ
    → ℕ
    → ℕ
    → Action (List FeedbackItem)
sync_feedback forge fresh_id meanwhile task_id actor_id now = do
  task ← owned_task task_id actor_id
  repository ← sync_target task
  if forge.lists_feedback repository.provider then pure tt else throw conflict
  meanwhile
  feedback ← λ db. (forge.list_pr_feedback repository task.pr_number, db)
  pr_status ← λ db. (
    if forge.gets_status repository.provider
        then forge.get_pr_status repository task.pr_number
        else return none,
    db,
  )
  store_feedback fresh_id task_id repository.provider feedback pr_status now
  pure feedback

abbrev is_existing : (String → Bool) → Option String → Bool
is_existing is_dir none = false
is_existing is_dir (some path) = is_dir path

-- `queue_existing_publish` once the task has been read. `publishes` is the forge's capability
-- and `is_dir` the file system's answer for the workspace.
unfoldable pub publishable : (String → Bool) → (String → Bool) → Option Repository → Task → Bool
publishable publishes is_dir none task = false
publishable publishes is_dir (some repository) task =
    publishes repository.provider
    && status_in (TaskStatus.manual_intervention ∷ TaskStatus.failed ∷ []) task.status
    && truthy task.commit_sha
    && truthy task.workspace_path
    && truthy task.branch_name
    && is_existing is_dir task.workspace_path

abbrev pub requeue : String → TaskUpdates
requeue code = record no_updates {
  failure_code = assign (some code);
  failure_summary = assign none;
  finished_at = assign none;
}

unfoldable pub republish_task : (String → Bool) → (String → Bool) → ℕ → Task → Action (Unit {0})
republish_task publishes is_dir task_id task = do
  db ← get
  if publishable publishes is_dir (repository_of task db) task
      then transition task_id task.status TaskStatus.queued (requeue "publish_existing")
      else throw conflict

unfoldable pub queue_existing_publish :
    (String → Bool) → (String → Bool) → ℕ → ℕ → Action (Unit {0})
queue_existing_publish publishes is_dir task_id actor_id =
    transaction (owned_task task_id actor_id >>= republish_task publishes is_dir task_id)

abbrev has_number : ℕ → List ℕ → Bool
has_number k [] = false
has_number k (x ∷ xs) = (k == x) || has_number k xs

-- `set(values)`: each number once.
unfoldable pub distinct : List ℕ → List ℕ
distinct [] = []
distinct (x ∷ xs) = let rest = distinct xs in if has_number x rest then rest else x ∷ rest

-- A trusted maintainer's comment that is selected and not yet processed.
unfoldable pub revisable : ℕ → List ℕ → PrFeedback → Bool
revisable task_id selected_ids row =
    row.task_id == task_id
    && has_number row.id selected_ids
    && not (is_some row.processed_at)
    && contains string_dec trusted_feedback_associations row.author_association

unfoldable pub revise_task : ℕ → List ℕ → ℕ → Task → Action (Unit {0})
revise_task task_id feedback_ids now task = do
  let selected_ids = distinct feedback_ids
  let given = not (is_empty feedback_ids)
  if status_eq task.status TaskStatus.awaiting_human_review && given
      then pure tt
      else throw conflict
  db ← get
  if count_where (revisable task_id selected_ids) db.pr_feedback == length selected_ids
      then pure tt
      else throw conflict
  transition task_id TaskStatus.awaiting_human_review TaskStatus.queued
      (requeue "pr_feedback_revision")
  λ after. (
    return tt,
    update_feedback (revisable task_id selected_ids) (λ row. record row { selected_at = some now })
        after,
  )

unfoldable pub queue_feedback_revision : ℕ → ℕ → List ℕ → ℕ → Action (Unit {0})
queue_feedback_revision task_id actor_id feedback_ids now =
    transaction (owned_task task_id actor_id >>= revise_task task_id feedback_ids now)
