-- ===== src/Commands/Invariant.antt =====
-- Every command of coderus/application/tasks.py keeps the invariant of the task tables.
use coderus.Base.{
  ℕ, Bool, true, false, ◌&&◌, ◌≡◌, refl, String, Option, none, some, List, [], ◌∷◌, arith,
}
use coderus.Store.{
  TaskStatus, status_eq, status_dec, status_in, running_task_states, Task, PrFeedback, Repository,
  Action, conflict,
}
use coderus.Store.Tables.{repository_of}
use coderus.TaskState.{TaskUpdates, no_updates, assign, write_task}
use coderus.Commands.Feedback.{FeedbackItem, upsert_pr_feedback, upsert_all}
use coderus.Commands.{
  FeedbackForge, sync_target, numbered, requeue, transition, cancel_task, request_cancel,
  close_task, close, owned_task, store_feedback, sync_outcome, republish_task, publishable,
  queue_existing_publish, revise_task, queue_feedback_revision, sync_feedback,
  closable_task_statuses,
}
use coderus.TaskState.Graph.{IsOwned, is_claimed, is_edge}
use coderus.TaskState.Invariant.{Limits, same_tables-Inv}
use coderus.TaskState.Keeps.{
  Keeps, bind-Keeps, cas-Keeps, get-Keeps, guard-Keeps, if-Keeps, pure-Keeps, read-Keeps,
  status_in-single, then-Keeps, throw-Keeps, transaction-Keeps,
}

-- A transition keeps the invariant if it follows an edge to a status that does not run, and
-- leaves the ownership right.
transition-Keeps :
    {l : Limits} (task_id : ℕ) (expected new_status : TaskStatus) (updates : TaskUpdates)
    → status_in running_task_states new_status ≡ false
    → ((c : Task)
        → IsOwned c
        → c.status ≡ expected
        → (is_edge expected new_status ≡ true) × IsOwned (write_task new_status updates c))
    → Keeps l (transition task_id expected new_status updates)
unfolding transition
transition-Keeps task_id expected new_status updates calm h =
    bind-Keeps _ _
      (cas-Keeps task_id expected [] new_status updates none "system" (λ c owned within _.
        let same = status_in-single expected c.status within in
        let (edge, owner) = h c owned same in (rw same edge, owner, λ runs. cc)))
      (λ changed. guard-Keeps changed conflict)

cancel_task-Keeps :
    {l : Limits} (task_id now : ℕ) (task : Task) → Keeps l (cancel_task task_id now task)
unfolding cancel_task
cancel_task-Keeps task_id now task =
    if-Keeps (status_eq task.status TaskStatus.queued) _ _
      (λ q.
        then-Keeps _ _
          (transition-Keeps task_id task.status TaskStatus.cancelled _ (unfold status_in in refl)
            (from_queue q))
          (pure-Keeps false))
      (λ _.
        if-Keeps (status_in running_task_states task.status) _ _
          (λ q.
            then-Keeps _ _
              (transition-Keeps task_id task.status TaskStatus.cancelling _
                (unfold status_in in refl) (from_run q))
              (pure-Keeps true))
          (λ _. throw-Keeps _ _))
  where
    from_queue :
        status_eq task.status TaskStatus.queued ≡ true
        → (c : Task) → IsOwned c
        → c.status ≡ task.status
        → (is_edge task.status TaskStatus.cancelled ≡ true)
          × IsOwned (
              write_task TaskStatus.cancelled
                (record no_updates { finished_at = assign (some now) })
                c)
    from_queue q c owned same = unfold status_dec is_edge is_claimed write_task in ground arith

    from_run :
        status_in running_task_states task.status ≡ true
        → (c : Task) → IsOwned c
        → c.status ≡ task.status
        → (is_edge task.status TaskStatus.cancelling ≡ true)
          × IsOwned (write_task TaskStatus.cancelling no_updates c)
    from_run q c owned same = unfold status_in is_edge is_claimed write_task in ground arith

-- A reading action keeps the database.
owned_task-Keeps : {l : Limits} (task_id actor_id : ℕ) → Keeps l (owned_task task_id actor_id)
unfolding owned_task
owned_task-Keeps task_id actor_id = read-Keeps _

pub request_cancel-Keeps :
    {l : Limits} (task_id actor_id now : ℕ) → Keeps l (request_cancel task_id actor_id now)
unfolding request_cancel
request_cancel-Keeps task_id actor_id now =
    transaction-Keeps _
      (bind-Keeps _ _ (owned_task-Keeps task_id actor_id) (cancel_task-Keeps task_id now))

close_task-Keeps :
    {l : Limits} (task_id now : ℕ) (task : Task) → Keeps l (close_task task_id now task)
unfolding close_task
close_task-Keeps task_id now task =
    if-Keeps (status_in closable_task_statuses task.status) _ _
      (λ q.
        transition-Keeps task_id task.status TaskStatus.dismissed _ (unfold status_in in refl)
          (closable q))
      (λ _. throw-Keeps _ _)
  where
    closable :
        status_in closable_task_statuses task.status ≡ true
        → (c : Task) → IsOwned c
        → c.status ≡ task.status
        → (is_edge task.status TaskStatus.dismissed ≡ true)
          × IsOwned (
              write_task TaskStatus.dismissed
                (record no_updates { finished_at = assign (some now) })
                c)
    closable q c owned same = unfold status_in is_edge is_claimed write_task in ground arith

pub close-Keeps : {l : Limits} (task_id actor_id now : ℕ) → Keeps l (close task_id actor_id now)
unfolding close
close-Keeps task_id actor_id now =
    transaction-Keeps _
      (bind-Keeps _ _ (owned_task-Keeps task_id actor_id) (close_task-Keeps task_id now))

upsert_all-Keeps :
    {l : Limits} (fresh_id : List PrFeedback → ℕ) (task_id : ℕ) (provider : String)
    (items : List FeedbackItem)
    → Keeps l (upsert_all fresh_id task_id provider items)
unfolding upsert_all upsert_pr_feedback
upsert_all-Keeps fresh_id task_id provider [] = pure-Keeps tt
upsert_all-Keeps fresh_id task_id provider (item ∷ items) =
    then-Keeps (upsert_pr_feedback fresh_id task_id provider item)
      (upsert_all fresh_id task_id provider items)
      (record {
        apply = λ db v.
            same_tables-Inv db (upsert_pr_feedback fresh_id task_id provider item db).1 refl refl v;
      })
      (upsert_all-Keeps fresh_id task_id provider items)

-- Every outcome of a synchronisation is an edge from `awaiting_human_review`.
sync_outcome_edge :
    (pr_status : Option String) (now : ℕ) (c : Task)
    → IsOwned c
    → c.status ≡ TaskStatus.awaiting_human_review
    → (is_edge TaskStatus.awaiting_human_review (sync_outcome pr_status now).0 ≡ true)
      × IsOwned (write_task (sync_outcome pr_status now).0 (sync_outcome pr_status now).1 c)
unfolding sync_outcome is_edge is_claimed status_in write_task
sync_outcome_edge pr_status now c owned same = ground arith

sync_outcome_calm :
    (pr_status : Option String) (now : ℕ)
    → status_in running_task_states (sync_outcome pr_status now).0 ≡ false
unfolding sync_outcome status_in
sync_outcome_calm pr_status now = ground arith

pub store_feedback-Keeps :
    {l : Limits} (fresh_id : List PrFeedback → ℕ) (task_id : ℕ) (provider : String)
    (feedback : List FeedbackItem) (pr_status : Option String) (now : ℕ)
    → Keeps l (store_feedback fresh_id task_id provider feedback pr_status now)
unfolding store_feedback
store_feedback-Keeps fresh_id task_id provider feedback pr_status now = transaction-Keeps _ (
    then-Keeps _ _
      (transition-Keeps task_id TaskStatus.awaiting_human_review (sync_outcome pr_status now).0
        (sync_outcome pr_status now).1 (sync_outcome_calm pr_status now)
        (sync_outcome_edge pr_status now))
      (upsert_all-Keeps fresh_id task_id provider feedback))

republish_task-Keeps :
    {l : Limits} (publishes is_dir : String → Bool) (task_id : ℕ) (task : Task)
    → Keeps l (republish_task publishes is_dir task_id task)
unfolding republish_task
republish_task-Keeps publishes is_dir task_id task = bind-Keeps _ _ get-Keeps (λ db.
    if-Keeps (publishable publishes is_dir (repository_of task db) task) _ _
      (λ q.
        transition-Keeps task_id task.status TaskStatus.queued _ (unfold status_in in refl)
          (stopped (repository_of task db) q))
      (λ _. throw-Keeps _ _))
  where
    stopped :
        (r : Option Repository)
        → publishable publishes is_dir r task ≡ true
        → (c : Task) → IsOwned c
        → c.status ≡ task.status
        → (is_edge task.status TaskStatus.queued ≡ true)
          × IsOwned (write_task TaskStatus.queued (requeue "publish_existing") c)
    stopped none q c owned same = unfold publishable in cc
    stopped (some r) q c owned same =
        unfold publishable status_in is_edge is_claimed write_task in ground arith

pub queue_existing_publish-Keeps :
    {l : Limits} (publishes is_dir : String → Bool) (task_id actor_id : ℕ)
    → Keeps l (queue_existing_publish publishes is_dir task_id actor_id)
unfolding queue_existing_publish
queue_existing_publish-Keeps publishes is_dir task_id actor_id = transaction-Keeps _ (
    bind-Keeps _ _ (owned_task-Keeps task_id actor_id)
      (republish_task-Keeps publishes is_dir task_id))

revise_task-Keeps :
    {l : Limits} (task_id : ℕ) (feedback_ids : List ℕ) (now : ℕ) (task : Task)
    → Keeps l (revise_task task_id feedback_ids now task)
unfolding revise_task
revise_task-Keeps task_id feedback_ids now task = then-Keeps _ _ (guard-Keeps _ _) (
    bind-Keeps _ _ get-Keeps λ db. then-Keeps _ _ (guard-Keeps _ _) (
      then-Keeps _ _
        (transition-Keeps task_id TaskStatus.awaiting_human_review TaskStatus.queued
          (requeue "pr_feedback_revision") (unfold status_in in refl) revised)
        (record { apply = λ after v. same_tables-Inv after _ refl refl v })))
  where
    revised :
        (c : Task)
        → IsOwned c
        → c.status ≡ TaskStatus.awaiting_human_review
        → (is_edge TaskStatus.awaiting_human_review TaskStatus.queued ≡ true)
          × IsOwned (write_task TaskStatus.queued (requeue "pr_feedback_revision") c)
    revised c owned same = unfold status_in is_edge is_claimed write_task in ground arith

pub queue_feedback_revision-Keeps :
    {l : Limits} (task_id actor_id : ℕ) (feedback_ids : List ℕ) (now : ℕ)
    → Keeps l (queue_feedback_revision task_id actor_id feedback_ids now)
unfolding queue_feedback_revision
queue_feedback_revision-Keeps task_id actor_id feedback_ids now = transaction-Keeps _ (
    bind-Keeps _ _ (owned_task-Keeps task_id actor_id) (revise_task-Keeps task_id feedback_ids now))

sync_target-Keeps : {l : Limits} (task : Task) → Keeps l (sync_target task)
unfolding sync_target
sync_target-Keeps task =
    if-Keeps (status_eq task.status TaskStatus.awaiting_human_review && numbered task.pr_number) _ _
      (λ _. read-Keeps _) (λ _. throw-Keeps _ conflict)

-- `meanwhile` is any transactions that keep the invariant.
pub sync_feedback-Keeps :
    {l : Limits} (forge : FeedbackForge) (fresh_id : List PrFeedback → ℕ)
    (meanwhile : Action (Unit {0})) (task_id actor_id now : ℕ)
    → Keeps l meanwhile
    → Keeps l (sync_feedback forge fresh_id meanwhile task_id actor_id now)
unfolding sync_feedback
sync_feedback-Keeps forge fresh_id meanwhile task_id actor_id now others =
    bind-Keeps _ _ (owned_task-Keeps task_id actor_id) λ task.
      bind-Keeps _ _ (sync_target-Keeps task) λ repository. then-Keeps _ _ (guard-Keeps _ _) (
        then-Keeps _ _ others (
          bind-Keeps _ _ (read-Keeps _) λ feedback. bind-Keeps _ _ (read-Keeps _) λ pr_status.
            then-Keeps _ _
              (store_feedback-Keeps fresh_id task_id repository.provider feedback pr_status now)
              (pure-Keeps feedback)))
