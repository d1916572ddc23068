-- ===== src/Worker/StageKeeps.antt =====
-- The sessions of a stage keep the invariant of the tables.
use coderus.Base.{ℕ, String, Option, none, Bool, true, false, List, refl}
use coderus.Base.Text.{Text}
use coderus.Store.{Result, return, raise, TaskStatus, ReviewerFinding, DeveloperReport}
use coderus.TaskState.Invariant.{Limits, same_tables-Inv}
use coderus.TaskState.Keeps.{Keeps}
use coderus.Orchestrator.Invariant.{set_status-Keeps}
use coderus.Worker.{pause, woken, AgentRole, role_value, begin_agent_run, RunEnd, finish_agent_run}
use coderus.Worker.Steps.{
  JobStatus, succeeded, failed, timed_out, cancelled, JobResult, Process, ask, done, fail_with,
  expect,
}
use coderus.Worker.Steady.{
  Steady, Steady-atomic, Steady-rescue, Steady-expect, Steady->>=, Steady->>, Steady-settled,
  Steady-retry,
}
use coderus.Worker.Execute.{
  Stage, StageInput, job_result, stage_usage, if_broker, run_and_read, run_job, result_or_raise,
  conclude, run_agent, execute,
}
use coderus.Worker.ReviewCycle.{record_review, record_verdict, Verdict}

module _ (l : Limits) where
  begin_agent_run-Keeps :
      (id task_id : ℕ) (role : AgentRole) (now : ℕ) → Keeps l (begin_agent_run id task_id role now)
  unfolding begin_agent_run
  begin_agent_run-Keeps id task_id role now = record {
    apply = λ db v. same_tables-Inv db _ refl refl v;
  }

  finish_agent_run-Keeps : (id : ℕ) (e : RunEnd) (now : ℕ) → Keeps l (finish_agent_run id e now)
  unfolding finish_agent_run
  finish_agent_run-Keeps id e now = record { apply = λ db v. same_tables-Inv db _ refl refl v }

  record_review-Keeps :
      (id task_id : ℕ) (role : String) (decision : Text) (findings : List ReviewerFinding)
      → Keeps l (record_review id task_id role decision findings)
  unfolding record_review
  record_review-Keeps id task_id role decision findings = record {
    apply = λ db v. same_tables-Inv db _ refl refl v;
  }

  pub record_verdict-Steady :
      (id task_id : ℕ) (role : AgentRole) (v : Verdict)
      → Steady l (record_verdict id task_id role v)
  unfolding record_verdict
  record_verdict-Steady id task_id role (decision, findings) =
      Steady-atomic l (record_review id task_id (role_value role) decision findings)
        (record_review-Keeps id task_id (role_value role) decision findings)

  pub pause-Steady : Steady l pause
  pause-Steady = Steady-expect l woken

  module _ {A : Type 0} where
    if_broker-Steady : (b : Bool) (a : A) (p : Process A) → Steady l p → Steady l (if_broker b a p)
    if_broker-Steady true a p h = h
    if_broker-Steady false a p h = tt

  run_and_read-Steady : (has_broker valid : Bool) → Steady l (run_and_read has_broker valid)
  unfolding run_and_read
  run_and_read-Steady has_broker false = tt
  run_and_read-Steady has_broker true =
      Steady->>= l _ _
        (Steady-settled l _
          (Steady-retry l 2 (ask (expect job_result)) (done tt) (Steady-expect l job_result) tt))
        (λ outcome.
          Steady-rescue l _ _
            (Steady->>= l _ _
              (if_broker-Steady has_broker none (ask (expect stage_usage))
                (Steady-expect l stage_usage))
              (λ u. tt))
            (λ e. tt))

  run_job-Steady : (has_broker valid : Bool) → Steady l (run_job has_broker valid)
  unfolding run_job
  run_job-Steady has_broker valid =
      Steady-rescue l _ _
        (Steady->>= l _ _ (if_broker-Steady has_broker tt pause pause-Steady) (λ _.
          Steady->>= l _ _ (run_and_read-Steady has_broker valid) (λ attempted.
            Steady-rescue l _ _
              (Steady->>= l _ _ (if_broker-Steady has_broker tt pause pause-Steady) (λ _. tt))
              (λ e. tt))))
        (λ e. tt)

  result_or_raise-Steady :
      (s : JobStatus) (result : JobResult) → Steady l (result_or_raise s result)
  unfolding result_or_raise
  result_or_raise-Steady succeeded result = tt
  result_or_raise-Steady failed result = tt
  result_or_raise-Steady timed_out result = tt
  result_or_raise-Steady cancelled result = tt

  conclude-Steady :
      (input : StageInput) (run_id : ℕ) (usage : Option (ℕ × ℕ))
      (outcome : Result (JobResult × Option DeveloperReport))
      → Steady l (conclude input run_id usage outcome)
  unfolding conclude
  conclude-Steady input run_id usage (raise e) =
      Steady->> l _ (fail_with e) (Steady-atomic l _ (finish_agent_run-Keeps run_id _ _)) tt
  conclude-Steady input run_id usage (return (result, report)) =
      Steady->> l _ _ (Steady-atomic l _ (finish_agent_run-Keeps run_id _ _))
        (result_or_raise-Steady result.status result)

  pub execute-Steady :
      (input : StageInput) (task_id : ℕ) (status : TaskStatus) (stage : Stage) (role : AgentRole)
      (token : String)
      → Steady l (execute input task_id status stage role token)
  unfolding execute run_agent
  execute-Steady input task_id status stage role token =
      Steady->>= l _ _
        (Steady->> l _ _ (Steady-atomic l _ (set_status-Keeps task_id status token))
          (Steady-atomic l _ (begin_agent_run-Keeps input.run_id task_id role input.started_at)))
        (λ begun.
          Steady->>= l _ _ (run_job-Steady _ _)
            (λ attempted. conclude-Steady input begun.0 attempted.0 _))
