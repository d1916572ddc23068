-- ===== src/Worker/RunKeeps.antt =====
-- The run of a worker among all other sessions: each of its own keeps the invariant of the tables.
use coderus.Base.{ℕ, String, Option, none, some, List, [], ◌∷◌, truthy, column_eq}
use coderus.Store.{Failure, worker_cancelled, Task, TaskStatus, ReviewerFinding}
use coderus.TaskState.Invariant.{Limits}
use coderus.TaskState.Lease.{renew-Keeps}
use coderus.Orchestrator.Invariant.{
  set_status-Keeps, set_prepared-Keeps, awaiting_review-Keeps, mark_cancelled-Keeps, fail-Keeps,
  manual_intervention-Keeps, interrupt-Keeps, mark_feedback_processed-Keeps,
  note_notification-Keeps,
}
use coderus.Orchestrator.{Published, interrupt}
use coderus.Publication.{begin_publication-Keeps, set_sealed-Keeps, set_commit-Keeps}
use coderus.Worker.Steps.{atomic, done, fail_with}
use coderus.Worker.Steady.{
  Steady, Steady-atomic, Steady-rescue, Steady-expect, Steady-if, Steady->>=, Steady->>,
  Steady-settled, Steady-group,
}
use coderus.Worker.Execute.{is_cancellation}
use coderus.Worker.ReviewCycle.{review_cycle}
use coderus.Worker.Publish.{
  text_of, sealed_of, prepared_of, published_of, require_forge, publish, publish_existing, finalize,
}
use coderus.Worker.Run.{
  RunInput, claim_or_renew, load_task, stage_report, notify, await_review, finalize_task,
  revise_stage_of, revise_found, run_new, selected_feedback, revise_selected, run_feedback_revision,
  existing_report, run_existing_publish, work_on, Clause, on_claim_lost, on_task_cancelled,
  on_cancelled, on_bad_report, on_exception, clause_of, handle_by, finally_wait, attend,
  run_claimed, run,
}
use coderus.Worker.StageKeeps.{record_verdict-Steady, pause-Steady, execute-Steady}

module _ (l : Limits) where
  module _ (input : RunInput) (task_id : ℕ) (token : String) where
    review_cycle-Steady : Steady l (review_cycle input.reviews task_id token)
    unfolding review_cycle
    review_cycle-Steady =
        Steady->>= l _ _
          (Steady-group l _ _ (execute-Steady l _ _ _ _ _ _) (execute-Steady l _ _ _ _ _ _))
          (λ results. Steady->>= l _ _ tt (λ a.
            Steady->>= l _ _ (Steady->> l _ _ (record_verdict-Steady l _ _ _ _) tt)
              (λ b. Steady->> l _ _ (record_verdict-Steady l _ _ _ _) tt)))

    require_forge-Steady : Steady l (require_forge input.publication)
    unfolding require_forge
    require_forge-Steady =
        Steady-if l input.publication.has_forge _ (fail_with _)
          (Steady-if l input.publication.can_publish (done tt) (fail_with _) tt tt) tt

    publish-Steady : Steady l (publish input.publication task_id token)
    unfolding publish
    publish-Steady =
        Steady->> l _ _
          (Steady->> l _ _ require_forge-Steady
            (Steady-atomic l _ (begin_publication-Keeps task_id token _ _)))
          (Steady-expect l published_of)

    finalize-Steady : Steady l (finalize input.publication task_id token)
    unfolding finalize
    finalize-Steady =
        Steady->>= l _ _
          (Steady->> l _ _
            (Steady->> l _ _ (pause-Steady l)
              (Steady-atomic l _ (set_status-Keeps task_id TaskStatus.sealing token)))
            (Steady-expect l sealed_of))
          (λ change.
            Steady->>= l _ _
              (Steady->> l _ _
                (Steady->> l _ _
                  (Steady->> l _ _ (Steady-atomic l _ (set_sealed-Keeps task_id token _ _))
                    (pause-Steady l))
                  (pause-Steady l))
                (Steady-expect l text_of))
              (λ commit_sha.
                Steady->> l _ _
                  (Steady->> l _ _ (pause-Steady l)
                    (Steady-atomic l _ (set_commit-Keeps task_id token commit_sha)))
                  publish-Steady))

    notify-Steady : Steady l (notify input task_id)
    unfolding notify
    notify-Steady =
        Steady-if l input.has_notifier _ (done tt)
          (Steady-rescue l _ _ (pause-Steady l) (λ e.
            Steady-if l (is_cancellation e) (fail_with e) _ tt
              (Steady-atomic l _ (note_notification-Keeps task_id _))))
          tt

    await_review-Steady : (result : Published) → Steady l (await_review input task_id token result)
    unfolding await_review
    await_review-Steady result =
        Steady->> l _ _ (Steady-atomic l _ (awaiting_review-Keeps task_id token result input.now))
          notify-Steady

    finalize_task-Steady : Steady l (finalize_task input task_id token)
    unfolding finalize_task
    finalize_task-Steady = Steady->>= l _ _ finalize-Steady await_review-Steady

    revise_stage_of-Steady : Steady l (revise_stage_of input task_id token)
    unfolding revise_stage_of stage_report
    revise_stage_of-Steady = Steady->>= l _ _ (execute-Steady l _ _ _ _ _ _) (λ result. tt)

    revise_found-Steady :
        (fs : List ReviewerFinding) → Steady l (revise_found input task_id token fs)
    unfolding revise_found
    revise_found-Steady [] = tt
    revise_found-Steady (_ ∷ _) = Steady->> l _ _ revise_stage_of-Steady (pause-Steady l)

    run_new-Steady : Steady l (run_new input task_id token)
    unfolding run_new stage_report
    run_new-Steady = Steady->>= l _ _ (Steady-expect l prepared_of) (λ p.
        Steady->>= l _ _
          (Steady->> l _ _ (Steady-atomic l _ (set_prepared-Keeps task_id token p))
            (execute-Steady l _ _ _ _ _ _))
          (λ result.
            Steady->>= l _ _
              (Steady->> l _ _ (Steady->> l _ _ tt (pause-Steady l)) review_cycle-Steady)
              (λ findings. Steady->> l _ _ (revise_found-Steady findings) finalize_task-Steady)))

    revise_selected-Steady : (ids : List ℕ) → Steady l (revise_selected input task_id token ids)
    unfolding revise_selected
    revise_selected-Steady [] = tt
    revise_selected-Steady (id ∷ ids) =
        Steady->> l _ _
          (Steady->> l _ _ (Steady->> l _ _ (pause-Steady l) revise_stage_of-Steady)
            finalize_task-Steady)
          (Steady-atomic l _ (mark_feedback_processed-Keeps task_id _ input.now))

    run_feedback_revision-Steady :
        (task : Task) → Steady l (run_feedback_revision input task task_id token)
    unfolding run_feedback_revision selected_feedback
    run_feedback_revision-Steady task =
        Steady-if l _ _ (fail_with _)
          (Steady->>= l _ _ ((λ db v. v), λ db. tt) revise_selected-Steady) tt

    run_existing_publish-Steady :
        (task : Task) → Steady l (run_existing_publish input task task_id token)
    unfolding run_existing_publish existing_report publish_existing
    run_existing_publish-Steady task =
        Steady-if l _ _ (fail_with _)
          (Steady->> l _ _ (Steady->> l _ _ (pause-Steady l) ((λ db v. v), λ db. tt)) (
            Steady-if l (truthy task.commit_sha) _ _
              (Steady->>= l _ _ (Steady->> l _ _ (pause-Steady l) publish-Steady)
                await_review-Steady)
              finalize_task-Steady))
          tt

    work_on-Steady : (task : Task) → Steady l (work_on input task_id token task)
    unfolding work_on
    work_on-Steady task =
        Steady-if l (column_eq task.failure_code "pr_feedback_revision") _ _
          (run_feedback_revision-Steady task)
          (Steady-if l (column_eq task.failure_code "publish_existing") _ _
            (run_existing_publish-Steady task) run_new-Steady)

    handle_by-Steady : (e : Failure) (c : Clause) → Steady l (handle_by input task_id token e c)
    unfolding handle_by
    handle_by-Steady e on_claim_lost = tt
    handle_by-Steady e on_task_cancelled =
        Steady-atomic l _ (mark_cancelled-Keeps task_id token input.now)
    handle_by-Steady e on_cancelled =
        Steady->> l (atomic (interrupt task_id token input.now))
          (fail_with {A = Unit {0}} worker_cancelled)
          (Steady-atomic l _ (interrupt-Keeps task_id token input.now)) tt
    handle_by-Steady e on_bad_report =
        Steady-atomic l _ (manual_intervention-Keeps task_id token _ _ input.now)
    handle_by-Steady e on_exception = Steady-atomic l _ (fail-Keeps task_id token _ _ input.now)

  run_claimed-Steady :
      (input : RunInput) (task_id : ℕ) (claimed : Option String)
      → Steady l (run_claimed input task_id claimed)
  unfolding run_claimed finally_wait attend load_task
  run_claimed-Steady input task_id none = tt
  run_claimed-Steady input task_id (some token) =
      Steady->>= l _ _
        (Steady-settled l _ (
          Steady-rescue l _ _
            (Steady->>= l _ _ ((λ db v. v), λ db. tt) (work_on-Steady input task_id token))
            (λ e. handle_by-Steady input task_id token e (clause_of e))))
        (λ r. Steady->> l _ _ (pause-Steady l) tt)

  -- Every session of the run of a worker that is given a token keeps the invariant of the
  -- tables, on every database that meets it, whatever the calls have answered and whatever the
  -- earlier sessions have found.
  pub run-Steady :
      (input : RunInput) (task_id : ℕ) (claim_token : String)
      → Steady l (run input task_id (some claim_token))
  unfolding run claim_or_renew
  run-Steady input task_id claim_token =
      Steady->>= l _ _
        (Steady->>= l _ _ (Steady-atomic l _ (renew-Keeps _ _ task_id claim_token input.now))
          (λ renewed. tt))
        (run_claimed-Steady input task_id)
