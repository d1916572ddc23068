-- ===== src/Worker/RunCalls.antt =====
-- How many calls the run of a worker makes: every run comes to an end.
use coderus.Base.{
  ℕ, Bool, true, false, String, Option, none, some, List, [], ◌∷◌, if◌then◌else◌, truthy, column_eq,
  arith,
}
use coderus.Store.{Failure, Task, ReviewerFinding, worker_cancelled}
use coderus.Orchestrator.{Published, interrupt}
use coderus.Worker.Steps.{
  Process, atomic, done, fail_with, AtMost, AtMost-expect, AtMost_more, AtMost-rescue, AtMost->>=,
  AtMost->>,
}
use coderus.Worker.Calls.{AtMost-pause, execute_calls}
use coderus.Worker.GroupCalls.{AtMost-settled, AtMost-group}
use coderus.Worker.Execute.{is_cancellation}
use coderus.Worker.ReviewCycle.{review_cycle, record_verdict}
use coderus.Worker.Publish.{
  PublishInput, text_of, sealed_of, prepared_of, published_of, require_forge, publish,
  publish_existing, finalize,
}
use coderus.Worker.Run.{
  RunInput, claim_or_renew, load_task, stage_report, notify, await_review, finalize_task,
  revise_stage_of, revise_found, run_new, selected_feedback, revise_selected, run_feedback_revision,
  existing_report, run_existing_publish, work_on, Clause, on_claim_lost, on_task_cancelled,
  on_cancelled, on_bad_report, on_exception, clause_of, handle_by, finally_wait, attend,
  run_claimed, run,
}

-- Either way of a test.
module _ {A : Type 0} where
  AtMost_if :
      (n : ℕ) (b : Bool) (p q : Process A) → AtMost n p → AtMost n q → AtMost n (if b then p else q)
  AtMost_if n true p q h k = h
  AtMost_if n false p q h k = k

AtMost-require_forge : (input : PublishInput) → AtMost 0 (require_forge input)
unfolding require_forge
AtMost-require_forge input =
    AtMost_if 0 input.has_forge _ _ (AtMost_if 0 input.can_publish (done tt) (fail_with _) tt tt) tt

AtMost-publish :
    (input : PublishInput) (task_id : ℕ) (claim_token : String)
    → AtMost 1 (publish input task_id claim_token)
unfolding publish
AtMost-publish input task_id claim_token =
    AtMost->> 0 1 _ _ (AtMost->> 0 0 _ _ (AtMost-require_forge input) (λ db. tt))
      (AtMost-expect published_of)

AtMost-finalize :
    (input : PublishInput) (task_id : ℕ) (claim_token : String)
    → AtMost 7 (finalize input task_id claim_token)
unfolding finalize
AtMost-finalize input task_id claim_token =
    AtMost->>= 2 5 _ _
      (AtMost->> 1 1 _ _ (AtMost->> 1 0 _ _ AtMost-pause (λ db. tt)) (AtMost-expect sealed_of))
      (λ change.
        AtMost->>= 3 2 _ _
          (AtMost->> 2 1 _ _
            (AtMost->> 1 1 _ _ (AtMost->> 0 1 _ _ (λ db. tt) AtMost-pause) AtMost-pause)
            (AtMost-expect text_of))
          (λ commit_sha.
            AtMost->> 1 1 _ _ (AtMost->> 1 0 _ _ AtMost-pause (λ db. tt))
              (AtMost-publish input task_id claim_token)))

module _ (input : RunInput) (task_id : ℕ) (claim_token : String) where
  AtMost-notify : AtMost 1 (notify input task_id)
  unfolding notify
  AtMost-notify =
      AtMost_if 1 input.has_notifier _ _
        (AtMost-rescue 1 0 _ _ AtMost-pause
          (λ e. AtMost_if 0 (is_cancellation e) (fail_with e) _ tt (λ db. tt)))
        tt

  AtMost-await_review :
      (result : Published) → AtMost 1 (await_review input task_id claim_token result)
  unfolding await_review
  AtMost-await_review result = AtMost->> 0 1 _ _ (λ db. tt) AtMost-notify

  AtMost-finalize_task : AtMost 8 (finalize_task input task_id claim_token)
  unfolding finalize_task
  AtMost-finalize_task =
      AtMost->>= 7 1 _ _ (AtMost-finalize input.publication task_id claim_token) AtMost-await_review

  AtMost-revise_stage_of : AtMost 8 (revise_stage_of input task_id claim_token)
  unfolding revise_stage_of stage_report
  AtMost-revise_stage_of = AtMost->>= 8 0 _ _ (execute_calls _ _ _ _ _ _) (λ result. tt)

  AtMost-revise_found :
      (findings : List ReviewerFinding) → AtMost 9 (revise_found input task_id claim_token findings)
  unfolding revise_found
  AtMost-revise_found [] = tt
  AtMost-revise_found (_ ∷ _) = AtMost->> 8 1 _ _ AtMost-revise_stage_of AtMost-pause

  AtMost-review_cycle : AtMost 16 (review_cycle input.reviews task_id claim_token)
  unfolding review_cycle record_verdict
  AtMost-review_cycle =
      AtMost->>= 16 0 _ _
        (AtMost-group 8 8 _ _ (execute_calls _ _ _ _ _ _) (execute_calls _ _ _ _ _ _))
        (λ results. AtMost->>= 0 0 _ _ tt (λ a.
          AtMost->>= 0 0 _ _ (AtMost->> 0 0 _ _ (λ db. tt) tt)
            (λ b. AtMost->> 0 0 _ _ (λ db. tt) tt)))

  -- Preparation 1, development 8, check 1, review 16, revision 9, publication 8.
  AtMost-run_new : AtMost 43 (run_new input task_id claim_token)
  unfolding run_new stage_report
  AtMost-run_new = AtMost->>= 1 42 _ _ (AtMost-expect prepared_of) (λ p.
      AtMost->>= 8 34 _ _ (AtMost->> 0 8 _ _ (λ db. tt) (execute_calls _ _ _ _ _ _)) (λ result.
        AtMost->>= 17 17 _ _
          (AtMost->> 1 16 _ _ (AtMost->> 0 1 _ _ tt AtMost-pause) AtMost-review_cycle)
          (λ findings. AtMost->> 9 8 _ _ (AtMost-revise_found findings) AtMost-finalize_task)))

  AtMost-revise_selected :
      (ids : List ℕ) → AtMost 17 (revise_selected input task_id claim_token ids)
  unfolding revise_selected
  AtMost-revise_selected [] = tt
  AtMost-revise_selected (id ∷ ids) =
      AtMost->> 17 0 _ _
        (AtMost->> 9 8 _ _ (AtMost->> 1 8 _ _ AtMost-pause AtMost-revise_stage_of)
          AtMost-finalize_task)
        (λ db. tt)

  AtMost-run_feedback_revision :
      (task : Task) → AtMost 17 (run_feedback_revision input task task_id claim_token)
  unfolding run_feedback_revision selected_feedback
  AtMost-run_feedback_revision task =
      AtMost_if 17 _ _ (fail_with _) (AtMost->>= 0 17 _ _ (λ db. tt) AtMost-revise_selected) tt

  AtMost-run_existing_publish :
      (task : Task) → AtMost 9 (run_existing_publish input task task_id claim_token)
  unfolding run_existing_publish existing_report publish_existing
  AtMost-run_existing_publish task =
      AtMost_if 9 _ _ (fail_with _)
        (AtMost->> 1 8 _ _ (AtMost->> 1 0 _ _ AtMost-pause (λ db. tt)) (
          AtMost_if 8 (truthy task.commit_sha) _ _
            (AtMost_more 3 8 _
              (AtMost->>= 2 1 _ _
                (AtMost->> 1 1 _ _ AtMost-pause
                  (AtMost-publish input.publication task_id claim_token))
                AtMost-await_review)
              (omega arith))
            AtMost-finalize_task))
        tt

  AtMost-work_on : (task : Task) → AtMost 43 (work_on input task_id claim_token task)
  unfolding work_on
  AtMost-work_on task =
      AtMost_if 43 (column_eq task.failure_code "pr_feedback_revision") _ _
        (AtMost_more 17 43 _ (AtMost-run_feedback_revision task) (omega arith))
        (AtMost_if 43 (column_eq task.failure_code "publish_existing") _ _
          (AtMost_more 9 43 _ (AtMost-run_existing_publish task) (omega arith)) AtMost-run_new)

handle_calls :
    (input : RunInput) (task_id : ℕ) (claim_token : String) (e : Failure) (c : Clause)
    → AtMost 0 (handle_by input task_id claim_token e c)
unfolding handle_by
handle_calls input task_id claim_token e on_claim_lost = tt
handle_calls input task_id claim_token e on_task_cancelled = λ db. tt
handle_calls input task_id claim_token e on_cancelled =
    AtMost->> 0 0 (atomic (interrupt task_id claim_token input.now))
      (fail_with {A = Unit {0}} worker_cancelled) (λ db. tt) tt
handle_calls input task_id claim_token e on_bad_report = λ db. tt
handle_calls input task_id claim_token e on_exception = λ db. tt

AtMost-run_claimed :
    (input : RunInput) (task_id : ℕ) (claimed : Option String)
    → AtMost 44 (run_claimed input task_id claimed)
unfolding run_claimed finally_wait attend load_task
AtMost-run_claimed input task_id none = tt
AtMost-run_claimed input task_id (some claim_token) =
    AtMost->>= 43 1 _ _
      (AtMost-settled 43 _ (
        AtMost-rescue 43 0 _ _
          (AtMost->>= 0 43 _ _ (λ db. tt) (AtMost-work_on input task_id claim_token))
          (λ e. handle_calls input task_id claim_token e (clause_of e))))
      (λ r. AtMost->> 1 0 _ _ AtMost-pause tt)

-- The run of a worker ends after at most 44 calls of git, the agents, the broker, the forge, the
-- notifier and the heartbeat, whatever they answer and whatever the database has, the two
-- reviewers and the retries of every agent among them.
pub run_call_bound :
    (input : RunInput) (task_id : ℕ) (claim_token : Option String)
    → AtMost 44 (run input task_id claim_token)
unfolding run claim_or_renew
run_call_bound input task_id none =
    AtMost->>= 0 44 _ _ (λ db. tt) (AtMost-run_claimed input task_id)
run_call_bound input task_id (some claim_token) =
    AtMost->>= 0 44 _ _ (AtMost->>= 0 0 _ _ (λ db. tt) (λ renewed. tt))
      (AtMost-run_claimed input task_id)
