-- ===== src/Worker/Execute.antt =====
-- coderus/workflow/agent_stage.py: one stage of a worker, from the change of the task's status to
-- the end of the agent's run, with the short-lived token of the model proxy.
use coderus.Base.{
  ℕ, Bool, true, false, not, ◌&&◌, String, Option, none, some, leb, if◌then◌else◌, is_empty,
}
use coderus.Base.Text.{Text}
use coderus.Base.Trim.{last}
use coderus.Store.{
  TaskStatus, DeveloperReport, Result, Failure, return, raise, worker_cancelled, task_cancelled,
  runtime_error, value_error,
}
use coderus.Orchestrator.{set_status}
use coderus.AgentOutput.{AgentEvent, and_then, final_message}
use coderus.Report.{parse_developer_report}
use coderus.Worker.Steps.{
  JobStatus, succeeded, cancelled, JobResult, Reply, ran, used, Process, ask, expect, atomic, done,
  fail_with, rescue, ◌>>=◌, ◌>>◌,
}
use coderus.Worker.{
  pause, retry_agent_operation, AgentRole, developer, reviewer_a, reviewer_b, pr_reviewer,
  is_developer, is_succeeded, status_value, begin_agent_run, RunEnd, finish_agent_run,
}

-- coderus/runner/protocol.py
pub data Stage : Type 0 where
  develop review_correctness review_security pr_review revise : Stage

-- `_STAGE_ROLES[stage] is role`
unfoldable pub role_fits : Stage → AgentRole → Bool
role_fits develop developer = true
role_fits review_correctness reviewer_a = true
role_fits review_security reviewer_b = true
role_fits pr_review pr_reviewer = true
role_fits revise developer = true
role_fits _ _ = false

abbrev is_pr_review : Stage → Bool
is_pr_review pr_review = true
is_pr_review _ = false

-- `JobSpec.__post_init__` for a spec of `execute`, which has a job id, the default limit of the
-- output, and neither a review base nor a session.
unfoldable pub spec_is_valid : Stage → AgentRole → ℕ → Bool
spec_is_valid stage role timeout_seconds =
    role_fits stage role && not (is_pr_review stage) && leb 1 timeout_seconds

-- What a stage needs beside its calls: whether there is a credential broker, the texts and the
-- class names of exceptions, the readers of events and of reports, the times at which the run
-- begins and ends, and the id of its row.
pub record StageInput : Type 0 where
  pub has_broker : Bool
  pub stage_timeout_seconds : ℕ
  pub text_of : Failure → Text
  pub class_name : Failure → Text
  pub event_of : Text → AgentEvent
  pub load_report : Text → Option DeveloperReport
  pub started_at : ℕ
  pub finished_at : ℕ
  pub run_id : ℕ

abbrev pub summary_or : Text → Text → Text
summary_or s t = if is_empty s then t else s

abbrev pub text_or_none : Text → Option Text
text_or_none s = if is_empty s then none else some s

-- What is read of the answers of the runner and of the broker.
abbrev pub job_result : Reply → Option JobResult
job_result (ran result) = some result
job_result _ = none

abbrev pub stage_usage : Reply → Option (Option (ℕ × ℕ))
stage_usage (used usage) = some usage
stage_usage _ = none

module _ {A : Type 0} where
  abbrev pub if_broker : Bool → A → Process A → Process A
  if_broker true a call = call
  if_broker false a call = done a

-- The usage, if it was read, and a result or an exception.
abbrev pub Attempted : Type 0
Attempted = Option (ℕ × ℕ) × Result JobResult

abbrev pub caught : Process JobResult → Process (Result JobResult)
caught p = rescue (p >>= λ result. done (return result)) (λ e. done (raise e))

-- The runs of the agent and, whatever comes of them, the reading of the usage.
unfoldable pub run_and_read : Bool → Bool → Process Attempted
run_and_read has_broker false = done (none, raise value_error)
run_and_read has_broker true =
    caught (retry_agent_operation 2 (ask (expect job_result)) (done tt)) >>= λ outcome.
    rescue (if_broker has_broker none (ask (expect stage_usage)) >>= λ u. done (u, outcome))
      (λ e. done (none, raise e))

-- `issued_stage_token`: the token is revoked at the end, and an exception of the revocation takes
-- the place of what there was.
unfoldable pub run_job : Bool → Bool → Process Attempted
run_job has_broker valid =
    rescue
      (if_broker has_broker tt pause >>= λ _. run_and_read has_broker valid >>= λ attempted.
        rescue (if_broker has_broker tt pause >>= λ _. done attempted)
          (λ e. done (attempted.0, raise e)))
      (λ e. done (none, raise e))

-- The report of a developer whose run has succeeded.
abbrev parsed : JobResult → Result DeveloperReport → Result (JobResult × Option DeveloperReport)
parsed result (return report) = return (result, some report)
parsed result (raise e) = raise e

-- `parse_developer_report(final_message(stdout))`
unfoldable pub report_of_output : StageInput → JobResult → Result DeveloperReport
report_of_output input result =
    and_then (final_message input.event_of result.stdout) (parse_developer_report input.load_report)

abbrev pub with_report :
    StageInput → AgentRole → Result JobResult → Result (JobResult × Option DeveloperReport)
with_report input role (raise e) = raise e
with_report input role (return result) =
    if is_succeeded result.status && is_developer role
    then parsed result (report_of_output input result)
    else return (result, none)

abbrev pub is_cancellation : Failure → Bool
is_cancellation worker_cancelled = true
is_cancellation _ = false

abbrev pub raised_status : Failure → String
raised_status e = if is_cancellation e then "interrupted" else "failed"

abbrev pub raised_end : StageInput → Option (ℕ × ℕ) → Failure → RunEnd
raised_end input usage e = record {
  status = raised_status e;
  exit_code = none;
  stdout = none;
  error_summary = some (summary_or (last 2000 (input.text_of e)) (input.class_name e));
  developer_report = none;
  model_usage = usage;
}

abbrev pub returned_end : Option (ℕ × ℕ) → JobResult → Option DeveloperReport → RunEnd
returned_end usage result report = record {
  status = status_value result.status;
  exit_code = result.exit_code;
  stdout = some result.stdout;
  error_summary = text_or_none (last 2000 result.stderr);
  developer_report = report;
  model_usage = usage;
}

unfoldable pub result_or_raise : JobStatus → JobResult → Process JobResult
result_or_raise succeeded result = done result
result_or_raise cancelled result = fail_with task_cancelled
result_or_raise _ result = fail_with runtime_error

unfoldable pub conclude :
    StageInput
    → ℕ
    → Option (ℕ × ℕ)
    → Result (JobResult × Option DeveloperReport)
    → Process JobResult
conclude input run_id usage (raise e) =
    atomic (finish_agent_run run_id (raised_end input usage e) input.finished_at) >> fail_with e
conclude input run_id usage (return (result, report)) =
    atomic (finish_agent_run run_id (returned_end usage result report) input.finished_at)
    >> result_or_raise result.status result

-- The `try` of `execute` and what follows it.
unfoldable pub run_agent : StageInput → Stage → AgentRole → ℕ → Process JobResult
run_agent input stage role run_id =
    run_job input.has_broker (spec_is_valid stage role input.stage_timeout_seconds) >>= λ attempted.
    conclude input run_id attempted.0 (with_report input role attempted.1)

-- `AgentStageExecutor.execute`
unfoldable pub execute :
    StageInput → ℕ → TaskStatus → Stage → AgentRole → String → Process JobResult
execute input task_id status stage role claim_token =
    atomic (set_status task_id status claim_token)
    >> atomic (begin_agent_run input.run_id task_id role input.started_at)
    >>= λ begun. run_agent input stage role begun.0
