-- ===== src/System.antt =====
-- The server as a whole: the sessions of its components, in any order and with any interleaving,
-- as steps on the database. A worker, a scheduler or a poller between two of its sessions keeps
-- nothing but its arguments, so every interleaving of them is a sequence of these steps.
use coderus.Base.{ℕ, ◌≤◌, Bool, true, ◌≡◌, String, Option, some, List, [], is_some, ◌==◌, arith}
use coderus.Base.Table.{All, find_where-All, count_where}
use coderus.Base.Table.Keyed.{Absent}
use coderus.Store.{TaskStatus, Task, User, Issue, Repository, PrFeedback, Db}
use coderus.Store.Tables.{get_task}
use coderus.TaskState.{claim_queued_task, is_running, is_running_of}
use coderus.TaskState.Cas.{task_id_of}
use coderus.TaskState.Claim.{claim-Keeps}
use coderus.TaskState.Lease.{renew, renew-Keeps}
use coderus.TaskState.Graph.{is_edge, is_claimed, IsOwned, replay}
use coderus.TaskState.Invariant.{Limits, Inv}
use coderus.Commands.{
  request_cancel, close, store_feedback, queue_existing_publish, queue_feedback_revision,
}
use coderus.Commands.Feedback.{FeedbackItem}
use coderus.Commands.Invariant.{
  request_cancel-Keeps, close-Keeps, store_feedback-Keeps, queue_existing_publish-Keeps,
  queue_feedback_revision-Keeps,
}
use coderus.Orchestrator.{
  set_status, Prepared, set_prepared, Published, awaiting_review, mark_cancelled, fail,
  manual_intervention, interrupt, mark_feedback_processed, note_notification,
}
use coderus.Orchestrator.Invariant.{
  set_status-Keeps, set_prepared-Keeps, awaiting_review-Keeps, mark_cancelled-Keeps, fail-Keeps,
  manual_intervention-Keeps, interrupt-Keeps, mark_feedback_processed-Keeps,
  note_notification-Keeps,
}
use coderus.Publication.{
  begin_publication, begin_publication-Keeps, set_sealed, set_sealed-Keeps, set_commit,
  set_commit-Keeps,
}
use coderus.Scheduler.{recover_expired}
use coderus.Scheduler.Invariant.{recover_expired-Keeps}
use coderus.PrStatus.{PrAnswer, store_answer, store_answer-Keeps}
use coderus.Issues.{dispatch, ignore, restore, ProviderIssue, upsert_provider_issue}
use coderus.Issues.Invariant.{
  dispatch-Inv, ignore-Keeps, restore-Keeps, upsert_provider_issue-Keeps,
}
use coderus.Users.{toggle_user}
use coderus.Users.Invariant.{toggle_user-Keeps}

-- One session of a component, with its arguments. `TaskOrchestrator._claim`, a claim without
-- limits, is left out: it serves a run without a token, and the scheduler, the only caller of `run`,
-- always gives one. `dispatch` inserts a task and stands apart: the
-- database chooses an id that no row has.
pub data Session : Type 0 where
  claim : (task_id lease_seconds : ℕ) → String → ℕ → Session
  renewal : List TaskStatus → ℕ → ℕ → String → ℕ → Session
  recovery : ℕ → Session
  status_set : ℕ → TaskStatus → String → Session
  prepared_set : ℕ → String → Prepared → Session
  review_awaited : ℕ → String → Published → ℕ → Session
  cancelled : ℕ → String → ℕ → Session
  failed : ℕ → String → String → String → ℕ → Session
  intervened : ℕ → String → String → String → ℕ → Session
  interrupted : ℕ → String → ℕ → Session
  processed : ℕ → (ℕ → Bool) → ℕ → Session
  noted : ℕ → String → Session
  publication_begun : ℕ → String → String → ℕ → Session
  sealed_set : ℕ → String → String → String → Session
  commit_set : ℕ → String → String → Session
  cancel_requested : ℕ → ℕ → ℕ → Session
  close_requested : ℕ → ℕ → ℕ → Session
  feedback_stored :
      (List PrFeedback → ℕ) → ℕ → String → List FeedbackItem → Option String → ℕ → Session
  publish_queued : (String → Bool) → (String → Bool) → ℕ → ℕ → Session
  revision_queued : ℕ → ℕ → List ℕ → ℕ → Session
  answer_stored : ℕ → ℕ → PrAnswer → Session
  issue_ignored : ℕ → ℕ → Option String → ℕ → Session
  issue_restored : ℕ → ℕ → Session
  issue_upserted : ℕ → ℕ → ProviderIssue → Session
  user_toggled : Option User → Bool → ℕ → ℕ → Session

-- The database after a session, whatever it returns or raises.
unfoldable pub run_session : Limits → Session → Db → Db
run_session l (Session.claim task_id lease_seconds token now) db =
    (claim_queued_task task_id l.global_limit l.per_user_limit lease_seconds token now db).1
run_session l (renewal states seconds task_id token now) db =
    (renew states seconds task_id token now db).1
run_session l (recovery now) db = (recover_expired now db).1
run_session l (status_set task_id status token) db = (set_status task_id status token db).1
run_session l (prepared_set task_id token prepared) db = (set_prepared task_id token prepared db).1
run_session l (review_awaited task_id token published now) db =
    (awaiting_review task_id token published now db).1
run_session l (cancelled task_id token now) db = (mark_cancelled task_id token now db).1
run_session l (failed task_id token code summary now) db =
    (fail task_id token code summary now db).1
run_session l (intervened task_id token code summary now) db =
    (manual_intervention task_id token code summary now db).1
run_session l (interrupted task_id token now) db = (interrupt task_id token now db).1
run_session l (processed task_id marked now) db = (mark_feedback_processed task_id marked now db).1
run_session l (noted task_id text) db = (note_notification task_id text db).1
run_session l (publication_begun task_id token key now) db =
    (begin_publication task_id token key now db).1
run_session l (sealed_set task_id token path tree) db = (set_sealed task_id token path tree db).1
run_session l (commit_set task_id token sha) db = (set_commit task_id token sha db).1
run_session l (cancel_requested task_id actor_id now) db =
    (request_cancel task_id actor_id now db).1
run_session l (close_requested task_id actor_id now) db = (close task_id actor_id now db).1
run_session l (feedback_stored fresh_id task_id provider feedback status now) db =
    (store_feedback fresh_id task_id provider feedback status now db).1
run_session l (publish_queued publishes is_dir task_id actor_id) db =
    (queue_existing_publish publishes is_dir task_id actor_id db).1
run_session l (revision_queued task_id actor_id ids now) db =
    (queue_feedback_revision task_id actor_id ids now db).1
run_session l (answer_stored task_id now answer) db = (store_answer task_id now answer db).1
run_session l (issue_ignored issue_id actor_id reason now) db =
    (ignore issue_id actor_id reason now db).1
run_session l (issue_restored issue_id actor_id) db = (restore issue_id actor_id db).1
run_session l (issue_upserted id repository_id source) db =
    (upsert_provider_issue id repository_id source db).1
run_session l (user_toggled current csrf_fits user_id now) db =
    (toggle_user current csrf_fits user_id now db).1

-- A new task, under an id that no task has.
pub data Step (l : Limits) : Db → Db → Type 0 where
  session : (s : Session) (db : Db) → Step l db (run_session l s db)
  dispatched :
      (id issue_id actor_id : ℕ) (instructions : String) (now : ℕ) (db : Db)
      → Absent task_id_of id db.tasks
      → Step l db (dispatch id issue_id actor_id instructions now db).1

-- A database without tasks, as the migrations leave it, whatever its users, repositories and
-- issues are.
abbrev pub initial : List User → List Repository → List Issue → Db
initial users repositories issues = record {
  users = users;
  repositories = repositories;
  issues = issues;
  tasks = [];
  transitions = [];
  agent_runs = [];
  reviews = [];
  pr_feedback = [];
}

pub data Reach (l : Limits) : Db → Type 0 where
  start :
      (users : List User) (repositories : List Repository) (issues : List Issue)
      → Reach l (initial users repositories issues)
  next : {db after : Db} → Reach l db → Step l db after → Reach l after

session-Keeps : (l : Limits) (s : Session) (db : Db) → Inv l db → Inv l (run_session l s db)
unfolding run_session
session-Keeps l (Session.claim task_id lease_seconds token now) db v =
    (claim-Keeps task_id l.global_limit l.per_user_limit lease_seconds token now).apply db v
session-Keeps l (renewal states seconds task_id token now) db v =
    (renew-Keeps states seconds task_id token now).apply db v
session-Keeps l (recovery now) db v = (recover_expired-Keeps now).apply db v
session-Keeps l (status_set task_id status token) db v =
    (set_status-Keeps task_id status token).apply db v
session-Keeps l (prepared_set task_id token prepared) db v =
    (set_prepared-Keeps task_id token prepared).apply db v
session-Keeps l (review_awaited task_id token published now) db v =
    (awaiting_review-Keeps task_id token published now).apply db v
session-Keeps l (cancelled task_id token now) db v =
    (mark_cancelled-Keeps task_id token now).apply db v
session-Keeps l (failed task_id token code summary now) db v =
    (fail-Keeps task_id token code summary now).apply db v
session-Keeps l (intervened task_id token code summary now) db v =
    (manual_intervention-Keeps task_id token code summary now).apply db v
session-Keeps l (interrupted task_id token now) db v =
    (interrupt-Keeps task_id token now).apply db v
session-Keeps l (processed task_id marked now) db v =
    (mark_feedback_processed-Keeps task_id marked now).apply db v
session-Keeps l (noted task_id text) db v = (note_notification-Keeps task_id text).apply db v
session-Keeps l (publication_begun task_id token key now) db v =
    (begin_publication-Keeps task_id token key now).apply db v
session-Keeps l (sealed_set task_id token path tree) db v =
    (set_sealed-Keeps task_id token path tree).apply db v
session-Keeps l (commit_set task_id token sha) db v =
    (set_commit-Keeps task_id token sha).apply db v
session-Keeps l (cancel_requested task_id actor_id now) db v =
    (request_cancel-Keeps task_id actor_id now).apply db v
session-Keeps l (close_requested task_id actor_id now) db v =
    (close-Keeps task_id actor_id now).apply db v
session-Keeps l (feedback_stored fresh_id task_id provider feedback status now) db v =
    (store_feedback-Keeps fresh_id task_id provider feedback status now).apply db v
session-Keeps l (publish_queued publishes is_dir task_id actor_id) db v =
    (queue_existing_publish-Keeps publishes is_dir task_id actor_id).apply db v
session-Keeps l (revision_queued task_id actor_id ids now) db v =
    (queue_feedback_revision-Keeps task_id actor_id ids now).apply db v
session-Keeps l (answer_stored task_id now answer) db v =
    (store_answer-Keeps task_id now answer).apply db v
session-Keeps l (issue_ignored issue_id actor_id reason now) db v =
    (ignore-Keeps issue_id actor_id reason now).apply db v
session-Keeps l (issue_restored issue_id actor_id) db v =
    (restore-Keeps issue_id actor_id).apply db v
session-Keeps l (issue_upserted id repository_id source) db v =
    (upsert_provider_issue-Keeps id repository_id source).apply db v
session-Keeps l (user_toggled current csrf_fits user_id now) db v =
    (toggle_user-Keeps current csrf_fits user_id now).apply db v

-- Each session, and each insertion of a task under a fresh id, keeps the invariant: unique task
-- ids, a claim token exactly on the tasks that a worker holds, a log that consists of edges of
-- the state machine and leads each task from `queued` to its status, and both quotas.
pub step-Inv : (l : Limits) (db after : Db) → Inv l db → Step l db after → Inv l after
step-Inv l db after v (session s _) = session-Keeps l s db v
step-Inv l db after v (dispatched id issue_id actor_id instructions now _ fresh) =
    dispatch-Inv id issue_id actor_id instructions now db fresh v

pub Reach-Inv : {l : Limits} {db : Db} → Reach l db → Inv l db
unfolding count_where
Reach-Inv (start users repositories issues) = record {
  unique = tt;
  owned = tt;
  audited = tt;
  legal = tt;
  known = tt;
  quota = omega arith;
  user_quota = λ u. omega arith;
}
Reach-Inv {l} (next {db} {after} r s) = step-Inv l db after (Reach-Inv r) s

-- In every database that the sessions of the components reach from one without tasks, in any
-- order and interleaving, the running tasks are within the global limit and those of each user
-- within the limit per user.
pub reached_quotas :
    (l : Limits) (db : Db)
    → Reach l db
    → (count_where is_running db.tasks ≤ l.global_limit)
      × ((u : ℕ) → count_where (is_running_of u) db.tasks ≤ l.per_user_limit)
reached_quotas l db r = ((Reach-Inv r).quota, (Reach-Inv r).user_quota)

-- In every reachable database a task that is found by its id has a claim token if and only if
-- its status is `cancelling` or one of the running ones.
pub reached_token :
    (l : Limits) (db : Db)
    → Reach l db
    → (task_id : ℕ) (t : Task) → get_task task_id db ≡ some t
    → is_some t.claim_token ≡ is_claimed t.status
unfolding get_task
reached_token l db r task_id t e =
    (find_where-All IsOwned (λ t. t.id == task_id) db.tasks (Reach-Inv r).owned e).0

-- In every reachable database the log leads a task that is found by its id from `queued` to its
-- status, entry by entry, and every entry of the log is an edge of the state machine.
pub reached_audit :
    (l : Limits) (db : Db)
    → Reach l db
    → (task_id : ℕ) (t : Task) → get_task task_id db ≡ some t
    → (replay t.id TaskStatus.queued db.transitions ≡ some t.status)
      × All (λ e. is_edge e.from_status e.to_status ≡ true) db.transitions
unfolding get_task
reached_audit l db r task_id t e = (
  (find_where-All (λ t. replay t.id TaskStatus.queued db.transitions ≡ some t.status)
      (λ t. t.id == task_id) db.tasks (Reach-Inv r).audited e).0,
  (Reach-Inv r).legal,
)
