-- ===== src/Worker.antt =====
-- coderus/workflow/limited_runner.py, agent_stage.py and review_cycle.py: the stages that a worker
-- goes through, each of which runs an agent and keeps a row of its run.
pub mod Steps
pub mod Execute
pub mod Group
pub mod ReviewCycle
pub mod Publish
pub mod Run
pub mod GroupCalls
pub mod RunCalls
pub mod RunEnds
pub mod Steady
pub mod StageKeeps
pub mod RunKeeps
pub mod Bookkeeping
pub mod Calls
use coderus.Base.{
  ℕ, zero, suc, ◌+◌, Bool, true, false, not, ◌&&◌, ◌||◌, String, Option, none, some, List, [], ◌∷◌,
  ◌==◌, leb, max, if◌then◌else◌, is_some, is_empty, length, str_eq,
}
use coderus.Base.Text.{Text, codes}
use coderus.Base.Trim.{last}
use coderus.Base.Table.{find_where, select_where, update_where, insert_row}
use coderus.Store.{
  TaskStatus, AgentRun, Review, ReviewerFinding, DeveloperReport, StructuredResult, ℤ, Db, Result,
  Action, Failure, return, raise, other, retryable_agent_error, worker_cancelled, task_cancelled,
  runtime_error, value_error,
}
use coderus.Orchestrator.{set_status}
use coderus.Report.{
  ReviewerResult, parse_developer_report, review_result, reviewer_contract_version, approve,
  deduplicate_findings,
}
use coderus.Base.Text.{text_dec, text_eq}
use coderus.Worker.Steps.{
  JobStatus, succeeded, failed, timed_out, cancelled, JobResult, Reply, broken, fine, ran, used,
  Process, finished, ask, atomic, done, expect, fail_with, rescue, ◌>>=◌, ◌>>◌,
}

-- A call that only waits, or that gives nothing that is read.
abbrev pub woken : Reply → Option (Unit {0})
woken r = some tt

abbrev pub pause : Process (Unit {0})
pause = ask (expect woken)

abbrev pub is_retryable : Failure → Bool
is_retryable retryable_agent_error = true
is_retryable _ = false

module _ {A : Type 0} where
  -- The `except RetryableAgentError` of the loop.
  abbrev pub retried : Process A → Failure → Process A
  retried next e = if is_retryable e then next else fail_with e

  -- The loop, by the retries that are left: the checkpoint is restored, and there is a pause. The
  -- pause's length is left out, with the check that the default one is not negative.
  unfoldable pub retry_from : ℕ → Process A → Process (Unit {0}) → Process A
  retry_from zero operation restore_checkpoint = operation
  retry_from (suc left) operation restore_checkpoint =
      let next = retry_from left operation restore_checkpoint in
      rescue operation (retried (restore_checkpoint >> (pause >> next)))

  -- `retry_agent_operation`
  unfoldable pub retry_agent_operation : ℕ → Process A → Process (Unit {0}) → Process A
  retry_agent_operation max_retries operation restore_checkpoint =
      if leb max_retries 2
      then retry_from max_retries operation restore_checkpoint
      else fail_with value_error

-- coderus/runner/protocol.py
pub data AgentRole : Type 0 where
  developer reviewer_a reviewer_b pr_reviewer : AgentRole

unfoldable pub role_value : AgentRole → String
role_value developer = "developer"
role_value reviewer_a = "reviewer_a"
role_value reviewer_b = "reviewer_b"
role_value pr_reviewer = "pr_reviewer"

abbrev pub is_developer : AgentRole → Bool
is_developer developer = true
is_developer _ = false

unfoldable pub status_value : JobStatus → String
status_value succeeded = "succeeded"
status_value failed = "failed"
status_value timed_out = "timed_out"
status_value cancelled = "cancelled"

abbrev pub is_succeeded : JobStatus → Bool
is_succeeded succeeded = true
is_succeeded _ = false

-- The attempts of a task in a role, of which the greatest counts, or 0.
abbrev pub is_run_of : ℕ → String → AgentRun → Bool
is_run_of task_id role r = r.task_id == task_id && str_eq r.role role

unfoldable pub greatest_attempt : ℕ → String → List AgentRun → ℕ
greatest_attempt task_id role [] = 0
greatest_attempt task_id role (r ∷ rs) =
    let rest = greatest_attempt task_id role rs in
    if is_run_of task_id role r then max r.attempt rest else rest

-- `_begin_agent_run`; the new row's id is an argument, and the result has it and the attempt.
abbrev pub new_run : ℕ → ℕ → String → ℕ → ℕ → AgentRun
new_run id task_id role attempt now = record {
  id = id;
  task_id = task_id;
  role = role;
  attempt = attempt;
  status = "running";
  started_at = some now;
  finished_at = none;
  exit_code = none;
  structured_result = none;
  error_summary = none;
}

unfoldable pub begin_agent_run : ℕ → ℕ → AgentRole → ℕ → Action (ℕ × ℕ)
begin_agent_run id task_id role now db =
    let attempt = greatest_attempt task_id (role_value role) db.agent_runs + 1 in
    (
      return (id, attempt),
      record db {
        agent_runs = insert_row (new_run id task_id (role_value role) attempt now) db.agent_runs;
      },
    )

-- The arguments of `_finish_agent_run` beside the id.
pub record RunEnd : Type 0 where
  pub status : String
  pub exit_code : Option ℤ
  pub stdout : Option Text
  pub error_summary : Option Text
  pub developer_report : Option DeveloperReport
  pub model_usage : Option (ℕ × ℕ)

abbrev cut_stdout : Option Text → Option Text
cut_stdout none = none
cut_stdout (some s) = some (last 100000 s)

-- The report is kept only beside an output; a result without keys is none.
abbrev reported : Option Text → Option DeveloperReport → Option DeveloperReport
reported none report = none
reported (some s) report = report

abbrev pub structured : RunEnd → Option StructuredResult
structured e =
    if is_some e.stdout || is_some e.model_usage
    then some (record {
      stdout = cut_stdout e.stdout;
      developer_report = reported e.stdout e.developer_report;
      model_usage = e.model_usage;
    })
    else none

abbrev pub end_run : RunEnd → ℕ → AgentRun → AgentRun
end_run e now r = record r {
  status = e.status;
  finished_at = some now;
  exit_code = e.exit_code;
  structured_result = structured e;
  error_summary = e.error_summary;
}

abbrev pub is_open_run : ℕ → AgentRun → Bool
is_open_run run_id r = r.id == run_id && str_eq r.status "running"

-- `_finish_agent_run`: a run that is not there or has ended stays as it is.
unfoldable pub finish_agent_run : ℕ → RunEnd → ℕ → Action (Unit {0})
finish_agent_run run_id e now db = (
  return tt,
  record db { agent_runs = update_where (is_open_run run_id) (end_run e now) db.agent_runs },
)
