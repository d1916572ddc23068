-- ===== src/Tests/Worker.antt =====
-- The theorems on the run of a worker at concrete inputs.
use coderus.Base.{ℕ, ◌≡◌, refl, ◌+◌, ◌*◌, true, none, some, []}
use coderus.AgentOutput.{item, event}
use coderus.Base.Text.{codes}
use coderus.Store.{Db, TaskStatus, task_cancelled, exception_group}
use coderus.Worker.Group.{turn, outcome, alone, group}
use coderus.Worker.Steps.{ask, done, fail_with, rescue, ◌>>=◌, expect, AtMost, AtMost-expect, Ends}
use coderus.Worker.{developer, retry_agent_operation}
use coderus.Worker.Execute.{develop, StageInput, job_result, execute, run_agent}
use coderus.Worker.Calls.{retry_calls, execute_calls}
use coderus.Worker.Bookkeeping.{
  IsEnded, run_agent-IsEnded, AttemptsApart, starts_run, run_session, run_session-AttemptsApart,
}
use coderus.Worker.Run.{RunInput, attend, run}
use coderus.TaskState.Invariant.{Limits}
use coderus.Worker.Steady.{Steady}
use coderus.Worker.RunKeeps.{run-Steady}
use coderus.Worker.RunCalls.{run_call_bound}
use coderus.Worker.RunEnds.{IsHandled, attend-IsHandled}

abbrev nothing : Db
nothing = record {
  users = [];
  repositories = [];
  issues = [];
  tasks = [];
  transitions = [];
  agent_runs = [];
  reviews = [];
  pr_feedback = [];
}

abbrev stage_input : StageInput
stage_input = record {
  has_broker = true;
  stage_timeout_seconds = 3600;
  text_of = λ e. codes "error";
  class_name = λ e. codes "Exception";
  event_of = λ line. event true (item true line);
  load_report = λ text. none;
  started_at = 200;
  finished_at = 300;
  run_id = 4;
}

retry_calls_example :
    AtMost (3 * 1 + 2) (retry_agent_operation 2 (ask (expect job_result)) (done tt))
retry_calls_example =
    retry_calls 1 2 (ask (expect job_result)) (done tt) (AtMost-expect job_result) tt

execute_calls_example :
    AtMost 8 (execute stage_input 1 TaskStatus.developer_working develop developer "secret")
execute_calls_example =
    execute_calls stage_input 1 TaskStatus.developer_working develop developer "secret"

run_agent-IsEnded_example : Ends (IsEnded 4) (run_agent stage_input develop developer 4) nothing
run_agent-IsEnded_example = run_agent-IsEnded stage_input develop developer 4 nothing

-- A database with one run of the same task and role.
abbrev begun : Db
begun = run_session (starts_run 3 1 developer 100) nothing

begun_apart : AttemptsApart begun
begun_apart = run_session-AttemptsApart (starts_run 3 1 developer 100) nothing tt

run_session-AttemptsApart_example : AttemptsApart (run_session (starts_run 4 1 developer 200) begun)
run_session-AttemptsApart_example =
    run_session-AttemptsApart (starts_run 4 1 developer 200) begun begun_apart

abbrev run_input : RunInput
run_input = record {
  develop_stage = stage_input;
  revise_stage = record stage_input { run_id = 7 };
  reviews = record {
    stage_a = record stage_input { run_id = 5 };
    stage_b = record stage_input { run_id = 6 };
    review_a = 1;
    review_b = 2;
    event_of = λ line. event true (item true line);
    load_result = λ text. none;
  };
  publication = record {
    has_forge = true;
    can_publish = true;
    publication_key = "key";
    begun_at = 250;
  };
  has_notifier = true;
  is_dir = λ path. true;
  summary_of = λ e. "error";
  notification_text = λ e. "notification";
  new_token = "secret";
  now = 300;
}

run_call_bound_example : AtMost 44 (run run_input 1 (some "secret"))
run_call_bound_example = run_call_bound run_input 1 (some "secret")

attend-IsHandled_example : Ends IsHandled (attend run_input 1 "secret") nothing
attend-IsHandled_example = attend-IsHandled run_input 1 "secret" nothing

abbrev limits : Limits
limits = record { global_limit = 2; per_user_limit = 1 }

run-Steady_example : Steady limits (run run_input 1 (some "secret"))
run-Steady_example = run-Steady limits run_input 1 "secret"

-- An exception of one reviewer ends the group in an ExceptionGroup, also after the other returned.
late_failure :
    group {A = ℕ} {B = ℕ} (done 1) (ask (λ r. fail_with task_cancelled))
    ≡ ask (λ r.
      turn r
        (λ s. fail_with exception_group)
        (λ s. fail_with exception_group)
        (fail_with exception_group))
unfolding group alone outcome ◌>>=◌ rescue
late_failure = refl
