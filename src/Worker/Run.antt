-- ===== src/Worker/Run.antt =====
-- coderus/workflow/orchestrator.py: the run of a worker, from the claim of its task to the handlers
-- of its exceptions. The heartbeat is among what others do in between.
use coderus.Base.{
  ℕ, Bool, false, ◌&&◌, ◌||◌, String, Option, none, some, List, [], ◌∷◌, ◌==◌, ltb, if◌then◌else◌,
  column_eq, str_eq, truthy,
}
use coderus.Base.Table.{select_where}
use coderus.Store.{
  TaskStatus, Task, AgentRun, PrFeedback, StructuredResult, DeveloperReport, ReviewerFinding,
  Result, return, raise, Failure, claim_lost, task_cancelled, worker_cancelled,
  developer_report_error, value_error,
}
use coderus.Store.Tables.{get_task}
use coderus.TaskState.{claim_queued_task}
use coderus.TaskState.Lease.{renew}
use coderus.Orchestrator.{
  Published, set_prepared, awaiting_review, fail, manual_intervention, mark_cancelled, interrupt,
  is_selected, mark_feedback_processed, note_notification,
}
use coderus.Report.{validate_report, checked_report}
use coderus.Worker.Steps.{
  JobResult, Process, finished, session, ask, expect, atomic, done, fail_with, rescue, ◌>>=◌, ◌>>◌,
}
use coderus.Worker.{developer, pause, is_run_of}
use coderus.Worker.Execute.{develop, revise, StageInput, execute, report_of_output, is_cancellation}
use coderus.Worker.Group.{settled}
use coderus.Worker.ReviewCycle.{CycleInput, review_cycle}
use coderus.Worker.Publish.{
  PublishInput, classify_exception, prepared_of, publish_existing, finalize,
}

-- The inputs of the stages, whether there is a notifier, whether a path is a directory, the texts
-- of exceptions, the new token and the time.
pub record RunInput : Type 0 where
  pub develop_stage : StageInput
  pub revise_stage : StageInput
  pub reviews : CycleInput
  pub publication : PublishInput
  pub has_notifier : Bool
  pub is_dir : String → Bool
  pub summary_of : Failure → String
  pub notification_text : Failure → String
  pub new_token : String
  pub now : ℕ

-- `_CLAIMED_STATES`
abbrev pub claimed_states : List TaskStatus
claimed_states =
    TaskStatus.preparing ∷ TaskStatus.developer_working ∷ TaskStatus.reviewing
    ∷ TaskStatus.developer_revising ∷ TaskStatus.sealing ∷ TaskStatus.publishing
    ∷ TaskStatus.cancelling ∷ []

abbrev pub claim_lease_seconds : ℕ
claim_lease_seconds = 120

abbrev pub unlimited : ℕ
unlimited = 2147483647

-- `_claim`, or `_renew_claim` of the token that the scheduler gives.
unfoldable pub claim_or_renew : RunInput → ℕ → Option String → Process (Option String)
claim_or_renew input task_id none =
    atomic
      (claim_queued_task task_id unlimited unlimited claim_lease_seconds input.new_token input.now)
claim_or_renew input task_id (some claim_token) =
    atomic (renew claimed_states claim_lease_seconds task_id claim_token input.now) >>= λ renewed.
    done (if renewed then some claim_token else none)

-- `_load_task`
abbrev loaded : Option Task → Result Task
loaded none = raise value_error
loaded (some task) = return task

unfoldable pub load_task : ℕ → Process Task
load_task task_id = session (λ db. db) (λ db. finished (loaded (get_task task_id db)))

unfoldable pub stage_report : StageInput → JobResult → Process DeveloperReport
stage_report input result = finished (report_of_output input result)

-- `_notify`: an exception is noted, but not a cancellation.
unfoldable pub notify : RunInput → ℕ → Process (Unit {0})
notify input task_id =
    if input.has_notifier
    then rescue pause (λ e.
      if is_cancellation e
      then fail_with e
      else atomic (note_notification task_id (input.notification_text e)))
    else done tt

unfoldable pub await_review : RunInput → ℕ → String → Published → Process (Unit {0})
await_review input task_id claim_token result =
    atomic (awaiting_review task_id claim_token result input.now) >> notify input task_id

-- `_finalize`
unfoldable pub finalize_task : RunInput → ℕ → String → Process (Unit {0})
finalize_task input task_id claim_token =
    finalize input.publication task_id claim_token >>= await_review input task_id claim_token

-- The stage in which a developer works on what was found.
unfoldable pub revise_stage_of : RunInput → ℕ → String → Process DeveloperReport
revise_stage_of input task_id claim_token =
    execute input.revise_stage task_id TaskStatus.developer_revising revise developer claim_token
    >>= stage_report input.revise_stage

unfoldable pub revise_found : RunInput → ℕ → String → List ReviewerFinding → Process (Unit {0})
revise_found input task_id claim_token [] = done tt
revise_found input task_id claim_token (_ ∷ _) = revise_stage_of input task_id claim_token >> pause

-- The run of a new task: preparation, development, review, revision and publication.
unfoldable pub run_new : RunInput → ℕ → String → Process (Unit {0})
run_new input task_id claim_token = ask (expect prepared_of) >>= λ p.
    atomic (set_prepared task_id claim_token p)
    >> execute input.develop_stage task_id TaskStatus.developer_working develop developer
        claim_token
    >>= λ result.
        stage_report input.develop_stage result
        >> pause
        >> review_cycle input.reviews task_id claim_token
        >>= λ findings.
            revise_found input task_id claim_token findings
            >> finalize_task input task_id claim_token

abbrev has_positive : Option ℕ → Bool
has_positive none = false
has_positive (some n) = ltb 0 n

-- Whether the task has a workspace, which is a directory, and a branch.
abbrev directory_of : RunInput → Option String → Bool
directory_of input none = false
directory_of input (some path) = input.is_dir path

unfoldable pub has_workspace : RunInput → Task → Bool
has_workspace input task =
    truthy task.workspace_path && truthy task.branch_name && directory_of input task.workspace_path

unfoldable pub feedback_ids : List PrFeedback → List ℕ
feedback_ids [] = []
feedback_ids (row ∷ rows) = row.id ∷ feedback_ids rows

abbrev pub is_among : List ℕ → ℕ → Bool
is_among [] n = false
is_among (m ∷ ms) n = m == n || is_among ms n

-- `_selected_feedback`, where the ids are those of its rows.
unfoldable pub selected_feedback : ℕ → Process (List ℕ)
selected_feedback task_id =
    session (λ db. db)
      (λ db. done (feedback_ids (select_where (is_selected task_id) db.pr_feedback)))

unfoldable pub revise_selected : RunInput → ℕ → String → List ℕ → Process (Unit {0})
revise_selected input task_id claim_token [] = fail_with value_error
revise_selected input task_id claim_token (id ∷ ids) =
    pause
    >> revise_stage_of input task_id claim_token
    >> finalize_task input task_id claim_token
    >> atomic (mark_feedback_processed task_id (is_among (id ∷ ids)) input.now)

-- `_run_feedback_revision`
unfoldable pub run_feedback_revision : RunInput → Task → ℕ → String → Process (Unit {0})
run_feedback_revision input task task_id claim_token =
    if has_workspace input task && has_positive task.pr_number
    then selected_feedback task_id >>= revise_selected input task_id claim_token
    else fail_with value_error

-- The latest run of a developer that has succeeded.
abbrev later_run : AgentRun → Option AgentRun → Option AgentRun
later_run r none = some r
later_run r (some s) = if ltb r.id s.id then some s else some r

unfoldable pub latest_run : ℕ → List AgentRun → Option AgentRun
latest_run task_id [] = none
latest_run task_id (r ∷ rs) =
    let rest = latest_run task_id rs in
    if is_run_of task_id "developer" r && str_eq r.status "succeeded"
    then later_run r rest
    else rest

abbrev kept_report : Option StructuredResult → Option DeveloperReport
kept_report none = none
kept_report (some s) = s.developer_report

abbrev checked_kept : Option DeveloperReport → Result DeveloperReport
checked_kept none = raise developer_report_error
checked_kept (some report) = checked_report (validate_report report)

abbrev report_of_run : Option AgentRun → Result DeveloperReport
report_of_run none = raise developer_report_error
report_of_run (some r) = checked_kept (kept_report r.structured_result)

-- `_existing_reports_and_findings`, of which the caller uses the report. The report that is stored
-- is decoded from its own JSON text, so that only its validation is left.
unfoldable pub existing_report : ℕ → Process DeveloperReport
existing_report task_id =
    session (λ db. db) (λ db. finished (report_of_run (latest_run task_id db.agent_runs)))

-- `_run_existing_publish`
unfoldable pub run_existing_publish : RunInput → Task → ℕ → String → Process (Unit {0})
run_existing_publish input task task_id claim_token =
    if has_workspace input task
    then (pause
        >> existing_report task_id
        >> (if truthy task.commit_sha
            then publish_existing input.publication task_id claim_token
              >>= await_review input task_id claim_token
            else finalize_task input task_id claim_token))
    else fail_with value_error

unfoldable pub work_on : RunInput → ℕ → String → Task → Process (Unit {0})
work_on input task_id claim_token task =
    if column_eq task.failure_code "pr_feedback_revision"
    then run_feedback_revision input task task_id claim_token
    else (if column_eq task.failure_code "publish_existing"
        then run_existing_publish input task task_id claim_token
        else run_new input task_id claim_token)

-- Which `except` clause of `run` an exception meets.
pub data Clause : Type 0 where
  on_claim_lost on_task_cancelled on_cancelled on_bad_report on_exception : Clause

abbrev pub clause_of : Failure → Clause
clause_of claim_lost = on_claim_lost
clause_of task_cancelled = on_task_cancelled
clause_of worker_cancelled = on_cancelled
clause_of developer_report_error = on_bad_report
clause_of _ = on_exception

unfoldable pub handle_by : RunInput → ℕ → String → Failure → Clause → Process (Unit {0})
handle_by input task_id claim_token e on_claim_lost = done tt
handle_by input task_id claim_token e on_task_cancelled =
    atomic (mark_cancelled task_id claim_token input.now)
handle_by input task_id claim_token e on_cancelled =
    atomic (interrupt task_id claim_token input.now) >> fail_with worker_cancelled
handle_by input task_id claim_token e on_bad_report = atomic (
    manual_intervention task_id claim_token "developer_report_invalid" (input.summary_of e)
      input.now)
handle_by input task_id claim_token e on_exception =
    atomic (fail task_id claim_token (classify_exception e) (input.summary_of e) input.now)

abbrev pub handle : RunInput → ℕ → String → Failure → Process (Unit {0})
handle input task_id claim_token e = handle_by input task_id claim_token e (clause_of e)

-- A `finally` that waits for the heartbeat.
unfoldable pub finally_wait : Process (Unit {0}) → Process (Unit {0})
finally_wait p = settled p >>= λ r. pause >> finished r

-- The `try` of `run` with its handlers.
unfoldable pub attend : RunInput → ℕ → String → Process (Unit {0})
attend input task_id claim_token =
    rescue (load_task task_id >>= work_on input task_id claim_token)
      (handle input task_id claim_token)

unfoldable pub run_claimed : RunInput → ℕ → Option String → Process (Unit {0})
run_claimed input task_id none = done tt
run_claimed input task_id (some claim_token) = finally_wait (attend input task_id claim_token)

-- `TaskOrchestrator.run`
unfoldable pub run : RunInput → ℕ → Option String → Process (Unit {0})
run input task_id claim_token =
    claim_or_renew input task_id claim_token >>= run_claimed input task_id
