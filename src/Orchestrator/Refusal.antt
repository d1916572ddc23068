-- ===== src/Orchestrator/Refusal.antt =====
-- How a worker learns that it may not go on: what `_set_status` gives on every branch.
use coderus.Base.{
  ℕ, ◌≡◌, refl, not, String, some, List, [], ◌∷◌, if◌then◌else◌, column_eq, Bool-cases, inl, inr,
}
use coderus.Store.{
  TaskStatus, status_in, Task, Db, return, raise, claim_lost, task_cancelled, runtime_error,
  commit_if, pure, ◌>>=◌,
}
use coderus.Store.Tables.{get_task}
use coderus.TaskState.{no_updates}
use coderus.TaskState.Cas.{UniqueTasks, moved_db}
use coderus.TaskState.Decision.{fits, cas_decides}
use coderus.Orchestrator.{status_expected, refusal, report_status, set_status_from, set_status}

-- For a target with expected statuses, a worker that sets the status of a task that is in the
-- table moves it exactly where the task is in an expected status under the token of the worker.
-- Otherwise nothing is changed, and the call raises a lost claim where the token is another one,
-- a cancellation where the task is being or was cancelled or dismissed, and a runtime error in
-- every other case. Task ids are unique.
pub set_status_decides :
    (task_id : ℕ) (status s : TaskStatus) (more : List TaskStatus) (token : String) (db : Db)
    (t : Task)
    → UniqueTasks db
    → get_task task_id db ≡ some t
    → status_expected status ≡ some (s ∷ more)
    → set_status task_id status token db ≡ (
        if fits (s ∷ more) (some token) t
        then (return tt, moved_db task_id status no_updates (some token) "orchestrator" t db)
        else (
          raise (
              if not (column_eq t.claim_token token)
              then claim_lost
              else (if status_in
                    (TaskStatus.cancelling ∷ TaskStatus.cancelled ∷ TaskStatus.dismissed ∷ [])
                    t.status
                  then task_cancelled
                  else runtime_error)),
          db,
        ))
unfolding set_status set_status_from report_status refusal commit_if pure ◌>>=◌
set_status_decides task_id status s more token db t u e expected =
    let decided =
      cas_decides task_id s more status no_updates (some token) "orchestrator" db t u e in
    elim (Bool-cases (fits (s ∷ more) (some token) t)) [
      | inl f ↦ rw expected (rw decided (rw f refl))
      | inr f ↦ rw expected (rw decided (rw f (rw e refl)))
    ]
