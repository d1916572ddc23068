-- ===== src/Worker/Calls.antt =====
-- How many calls a stage makes: every run of an agent comes to an end.
use coderus.Base.{
  ℕ, zero, suc, ◌+◌, ◌*◌, ◌≤◌, ◌≡◌, Bool, true, false, leb, String, Bool-cases, inl, inr, arith,
  none, Option,
}
use coderus.Store.{Result, return, raise, Failure, TaskStatus, DeveloperReport}
use coderus.Orchestrator.{set_status}
use coderus.Worker.Steps.{
  JobStatus, succeeded, failed, timed_out, cancelled, JobResult, Process, ask, done, ◌>>◌, expect,
  AtMost, AtMost-expect, AtMost_more, AtMost-rescue, AtMost->>=, AtMost->>, AtMost-atomic,
  fail_with,
}
use coderus.Worker.Execute.{
  raised_end, returned_end, Stage, StageInput, execute, run_agent, run_job, run_and_read, if_broker,
  job_result, stage_usage, conclude, result_or_raise,
}
use coderus.Worker.{
  AgentRole, begin_agent_run, finish_agent_run, woken, pause, is_retryable, retried, retry_from,
  retry_agent_operation,
}

pub AtMost-pause : AtMost 1 pause
AtMost-pause = AtMost-expect woken

module _ {A : Type 0} where
  AtMost-retried :
      (n : ℕ) (next : Process A) (e : Failure) → AtMost n next → AtMost n (retried next e)
  AtMost-retried n next e h = elim (Bool-cases (is_retryable e)) [
    | inl t ↦ rw t h
    | inr f ↦ rw f tt
  ]

  AtMost-retry_from :
      (c d left : ℕ) (operation : Process A) (restore : Process (Unit {0}))
      → AtMost c operation
      → AtMost d restore
      → AtMost (c + left * (c + d + 1)) (retry_from left operation restore)
  unfolding retry_from ◌>>◌
  AtMost-retry_from c d zero operation restore h k = AtMost_more c _ operation h (omega arith)
  AtMost-retry_from c d (suc left) operation restore h k =
      let next = AtMost-retry_from c d left operation restore h k in
      let rest = c + left * (c + d + 1) in
      let waited =
        AtMost->>= 1 rest pause (λ _. retry_from left operation restore) AtMost-pause (λ _. next) in
      let again =
        AtMost->>= d (1 + rest) restore (λ _. pause >> retry_from left operation restore) k
          (λ _. waited) in
      let all =
        AtMost-rescue c (d + (1 + rest)) operation _ h
          (λ e. AtMost-retried (d + (1 + rest)) _ e again) in
      AtMost_more _ _ (retry_from (suc left) operation restore) all (omega arith)

few : (c max_retries : ℕ) → leb max_retries 2 ≡ true → c + max_retries * (c + 0 + 1) ≤ 3 * c + 2
few c zero t = omega arith
few c (suc zero) t = omega arith
few c (suc (suc zero)) t = omega arith
few c (suc (suc (suc m))) t = ground arith

-- For every number of retries, an operation of at most `c` calls that is retried makes at most
-- `3 * c + 2` calls with the pauses, where the restoring of the checkpoint makes none.
pub retry_calls :
    {A : Type 0} (c max_retries : ℕ) (operation : Process A) (restore : Process (Unit {0}))
    → AtMost c operation
    → AtMost 0 restore
    → AtMost (3 * c + 2) (retry_agent_operation max_retries operation restore)
unfolding retry_agent_operation
retry_calls c max_retries operation restore h k = elim (Bool-cases (leb max_retries 2)) [
  | inl t ↦ rw t (
      AtMost_more _ _ (retry_from max_retries operation restore)
        (AtMost-retry_from c 0 max_retries operation restore h k) (few c max_retries t))
  | inr f ↦ rw f tt
]

module _ {A : Type 0} where
  AtMost-if_broker : (b : Bool) (a : A) (p : Process A) → AtMost 1 p → AtMost 1 (if_broker b a p)
  AtMost-if_broker true a p h = h
  AtMost-if_broker false a p h = tt

-- Three runs and two pauses, and the reading of the usage.
AtMost-run_and_read : (has_broker valid : Bool) → AtMost 6 (run_and_read has_broker valid)
unfolding run_and_read
AtMost-run_and_read has_broker false = tt
AtMost-run_and_read has_broker true =
    let retries =
      retry_calls 1 2 (ask (expect job_result)) (done tt) (AtMost-expect job_result) tt in
    let kept = AtMost-rescue 5 0 _ _ (AtMost->>= 5 0 _ _ retries (λ result. tt)) (λ e. tt) in
    AtMost->>= 5 1 _ _ kept (λ outcome.
      AtMost-rescue 1 0 _ _
        (AtMost->>= 1 0 _ _
          (AtMost-if_broker has_broker none (ask (expect stage_usage)) (AtMost-expect stage_usage))
          (λ u. tt))
        (λ e. tt))

AtMost-run_job : (has_broker valid : Bool) → AtMost 8 (run_job has_broker valid)
unfolding run_job
AtMost-run_job has_broker valid =
    AtMost-rescue 8 0 _ _
      (AtMost->>= 1 7 _ _ (AtMost-if_broker has_broker tt pause AtMost-pause) (λ _.
        AtMost->>= 6 1 _ _ (AtMost-run_and_read has_broker valid) (λ attempted.
          AtMost-rescue 1 0 _ _
            (AtMost->>= 1 0 _ _ (AtMost-if_broker has_broker tt pause AtMost-pause) (λ _. tt))
            (λ e. tt))))
      (λ e. tt)

AtMost-result_or_raise : (s : JobStatus) (result : JobResult) → AtMost 0 (result_or_raise s result)
unfolding result_or_raise
AtMost-result_or_raise succeeded result = tt
AtMost-result_or_raise failed result = tt
AtMost-result_or_raise timed_out result = tt
AtMost-result_or_raise cancelled result = tt

AtMost-conclude :
    (input : StageInput) (run_id : ℕ) (usage : Option (ℕ × ℕ))
    (outcome : Result (JobResult × Option DeveloperReport))
    → AtMost 0 (conclude input run_id usage outcome)
unfolding conclude
AtMost-conclude input run_id usage (raise e) =
    AtMost->> 0 0 _ (fail_with e)
      (AtMost-atomic (finish_agent_run run_id (raised_end input usage e) input.finished_at)) tt
AtMost-conclude input run_id usage (return (result, report)) =
    AtMost->> 0 0 _ _
      (AtMost-atomic (finish_agent_run run_id (returned_end usage result report) input.finished_at))
      (AtMost-result_or_raise result.status result)

-- A stage ends after at most eight calls of the broker, the runner and the clock, whatever they
-- answer and whatever the database has.
pub execute_calls :
    (input : StageInput) (task_id : ℕ) (status : TaskStatus) (stage : Stage) (role : AgentRole)
    (claim_token : String)
    → AtMost 8 (execute input task_id status stage role claim_token)
unfolding execute run_agent
execute_calls input task_id status stage role claim_token =
    AtMost->>= 0 8 _ _
      (AtMost->> 0 0 _ _ (AtMost-atomic (set_status task_id status claim_token))
        (AtMost-atomic (begin_agent_run input.run_id task_id role input.started_at)))
      (λ begun.
        AtMost->>= 8 0 _ _ (AtMost-run_job _ _)
          (λ attempted. AtMost-conclude input begun.0 attempted.0 _))
