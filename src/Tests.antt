-- ===== src/Tests.antt =====
-- Runs of the modelled code on concrete data, and the theorems at concrete inputs.
mod Findings
mod Forge
mod Worker
use coderus.Base.{
  ℕ, ◌+◌, ◌≤◌, ◌<◌, Bool, true, false, not, ◌&&◌, ◌≡◌, refl, none, some, List, [], ◌∷◌, is_some,
  ◌==◌, if◌then◌else◌, string_dec, str_eq, column_eq,
}
use coderus.Base.Table.{All, find_where, update_where, count_where, insert_row}
use coderus.Store.{
  TaskStatus, TriageState, status_dec, status_in, status_eq, running_task_states, Task, User, Issue,
  Repository, Db, Result, return, Failure, pure, session as session_ops,
}
use coderus.Store.Tables.{get_task, get_user, get_issue, get_repository}
use coderus.TaskState.{
  no_updates, cas_task_status, claims, write_claim, claim_queued_task, is_running, is_running_of,
}
use coderus.TaskState.Cas.{moved_db, UniqueTasks}
use coderus.TaskState.Claim.{claimed_db}
use coderus.TaskState.Decision.{
  fits, may_claim, runs_on, cas_decides, claim_decides, claim_writes, renew_decides,
}
use coderus.TaskState.Graph.{is_claimed, is_edge, replay}
use coderus.TaskState.Invariant.{Limits}
use coderus.TaskState.Lease.{renew}
use coderus.Commands.{request_cancel, close}
use coderus.Commands.Outcome.{
  may_act, cancel_result, close_result, request_cancel_decides, close_decides,
}
use coderus.Scheduler.{recover_task, TickInput, tick}
use coderus.Scheduler.Recovery.{is_under_way, recovered_row, recover_task_writes, tick_quotas}
use coderus.TaskState.Keeps.{pure-Keeps}
use coderus.ModelProxy.{
  Lease, Usage, Broker, done, key_error, Permit, acquire, acquire_found, acquire_counted, get_lease,
  get_usage, update_lease, update_usage, is_usage_of, record_output, responses_endpoint,
}
use coderus.ModelProxy.Invariant.{Call, issued, run_calls}
use coderus.ModelProxy.Limits.{empty_broker, acquire_permit, usage_found, leases_served}
use coderus.PrReview.{
  ReviewStatus, PrReviewTask, is_abandoned, expected_update, recover_reviews, retry_delay,
  write_failed,
}
use coderus.PrReview.Ownership.{
  IsHeld, ReviewSession, run_review, run_review-IsHeld, recovered_fenced,
}
use coderus.PrReview.Delay.{retry_delay-bounds}
use coderus.Orchestrator.Release.{IsReleased, handlers_release}
use coderus.Orchestrator.{fail, interrupt, set_status, status_expected}
use coderus.Orchestrator.Refusal.{set_status_decides}
use coderus.PrStatus.{status, store_answer}
use coderus.PrStatus.Answer.{answered, store_answer_writes}
use coderus.Issues.{
  dispatch, dispatch_rows, dispatch_issue, dispatch_if, refuses, refuses_repository, is_open_task,
  new_task,
}
use coderus.System.{
  Session, run_session, session, dispatched, Reach, start, next, initial, reached_quotas,
  reached_token, reached_audit, Reach-Inv,
}

abbrev two_at_once : Limits
two_at_once = record { global_limit = 2; per_user_limit = 1 }

abbrev alice : User
alice = record { id = 7; role = "user"; is_active = true }

abbrev repository : Repository
repository = record { id = 3; provider = "github"; owner = "o"; name = "n"; is_enabled = true }

abbrev report : Issue
report = record {
  id = 5;
  repository_id = 3;
  external_id = "e";
  number = 12;
  title = "t";
  body = "b";
  labels = [];
  state = "open";
  source_url = none;
  source_updated_at = none;
  triage_state = TriageState.discovered;
  ignored_by = none;
  ignored_reason = none;
  ignored_at = none;
}

abbrev empty_db : Db
empty_db = initial (alice ∷ []) (repository ∷ []) (report ∷ [])

-- The task as it is dispatched, and the database with it.
abbrev task : Task
task = new_task 1 report alice "fix" 100

unfoldable queued_db : Db
unfolding session_ops dispatch dispatch_rows dispatch_issue dispatch_if refuses refuses_repository
    is_open_task get_user get_issue get_repository find_where update_where insert_row string_dec
    status_in
queued_db = (dispatch 1 5 7 "fix" 100 empty_db).1

queued_task : get_task 1 queued_db ≡ some task
unfolding queued_db get_task
queued_task = refl

queued_unique : UniqueTasks queued_db
unfolding queued_db
queued_unique = (tt, tt)

-- The database once the task has been claimed.
unfoldable claimed : Db
unfolding run_session claim_queued_task claims write_claim is_running is_running_of status_in
    status_dec queued_db get_task
claimed = run_session two_at_once (Session.claim 1 120 "secret" 200) queued_db

abbrev claimed_task : Task
claimed_task = record task {
  status = TaskStatus.preparing;
  claim_token = some "secret";
  claim_expires_at = some 320;
  started_at = some 200;
  finished_at = none;
}

claimed_found : get_task 1 claimed ≡ some claimed_task
unfolding claimed
claimed_found = refl

claimed-alice : get_user 7 claimed ≡ some alice
unfolding claimed get_user
claimed-alice = refl

claimed_unique : UniqueTasks claimed
unfolding claimed
claimed_unique = (tt, tt)

Reach-claimed : Reach two_at_once claimed
unfolding claimed run_session queued_db
Reach-claimed =
    next
      (next (start (alice ∷ []) (repository ∷ []) (report ∷ []))
        (dispatched 1 5 7 "fix" 100 empty_db tt))
      (session (Session.claim 1 120 "secret" 200) queued_db)

reached_quotas_example :
    (count_where is_running claimed.tasks ≤ 2)
    × ((u : ℕ) → count_where (is_running_of u) claimed.tasks ≤ 1)
reached_quotas_example = reached_quotas two_at_once claimed Reach-claimed

reached_token_example : is_some claimed_task.claim_token ≡ is_claimed claimed_task.status
reached_token_example = reached_token two_at_once claimed Reach-claimed 1 claimed_task claimed_found

reached_audit_example :
    (replay 1 TaskStatus.queued claimed.transitions ≡ some TaskStatus.preparing)
    × All (λ e. is_edge e.from_status e.to_status ≡ true) claimed.transitions
reached_audit_example = reached_audit two_at_once claimed Reach-claimed 1 claimed_task claimed_found

abbrev work : List TaskStatus
work = TaskStatus.preparing ∷ []

cas_decides_example :
    cas_task_status 1 work TaskStatus.developer_working no_updates
      (some "stale")
      "orchestrator"
      claimed
    ≡ (if fits work (some "stale") claimed_task
        then (
          return true,
          moved_db 1 TaskStatus.developer_working no_updates
              (some "stale")
              "orchestrator"
              claimed_task
              claimed,
        )
        else (return false, claimed))
cas_decides_example =
    cas_decides 1 TaskStatus.preparing [] TaskStatus.developer_working no_updates (some "stale")
      "orchestrator" claimed claimed_task claimed_unique claimed_found

claim_decides_example : claim_queued_task 1 2 1 120 "secret" 200 queued_db ≡ (
    if may_claim 2 1 queued_db task
    then (return (some "secret"), claimed_db 1 2 1 120 "secret" 200 queued_db)
    else (return none, queued_db))
claim_decides_example =
    claim_decides 1 2 1 120 "secret" 200 queued_db task queued_unique queued_task

claim_writes_example :
    get_task 1 (claim_queued_task 1 2 1 120 "secret" 200 queued_db).1
    ≡ some (
        if may_claim 2 1 queued_db task
        then record task {
          status = TaskStatus.preparing;
          claim_token = some "secret";
          claim_expires_at = some 320;
          started_at = some 200;
          finished_at = none;
        }
        else task)
claim_writes_example = claim_writes 1 2 1 120 "secret" 200 queued_db task queued_unique queued_task

-- Whether the claimed task is held at the time.
abbrev held_at : ℕ → Bool
held_at now =
    status_in running_task_states claimed_task.status
    && column_eq claimed_task.claim_token "secret"
    && runs_on claimed_task.claim_expires_at now

renew_decides_example :
    ((renew running_task_states 120 1 "secret" 300 claimed).0 ≡ return (held_at 300))
    × (get_task 1 (renew running_task_states 120 1 "secret" 300 claimed).1
        ≡ some (
            if held_at 300
            then record claimed_task { claim_expires_at = some 420 }
            else claimed_task))
renew_decides_example =
    renew_decides running_task_states 120 1 "secret" 300 claimed claimed_task claimed_unique
      claimed_found

request_cancel_decides_example : request_cancel 1 7 400 claimed ≡ (
    if may_act alice claimed_task
    then cancel_result 1 400 claimed claimed_task
    else (Result.raise Failure.forbidden, claimed))
request_cancel_decides_example =
    request_cancel_decides 1 7 400 claimed claimed_task alice claimed_unique claimed_found
      claimed-alice

close_decides_example : close 1 7 400 claimed ≡ (
    if may_act alice claimed_task
    then close_result 1 400 claimed claimed_task
    else (Result.raise Failure.forbidden, claimed))
close_decides_example =
    close_decides 1 7 400 claimed claimed_task alice claimed_unique claimed_found claimed-alice

recover_task_writes_example :
    ((recover_task 500 claimed_task claimed).0 ≡ return true)
    × (get_task 1 (recover_task 500 claimed_task claimed).1 ≡ some (recovered_row 500 claimed_task))
    × (count_where (is_under_way 1) (recover_task 500 claimed_task claimed).1.agent_runs ≡ 0)
recover_task_writes_example =
    recover_task_writes 500 claimed_task claimed claimed_unique claimed_found

abbrev quiet : TickInput
quiet = record {
  order_by = λ before rows. rows;
  now = 500;
  token = λ k. "fresh";
  meanwhile = λ k. pure tt;
}

tick_quotas_example :
    (count_where is_running (tick 2 1 quiet true [] claimed).1.tasks ≤ 2)
    × ((u : ℕ) → count_where (is_running_of u) (tick 2 1 quiet true [] claimed).1.tasks ≤ 1)
tick_quotas_example =
    tick_quotas two_at_once quiet (λ k. pure-Keeps tt) true [] claimed (Reach-Inv Reach-claimed)

-- A token of the model proxy, by a hash that changes nothing.
abbrev calls : List Call
calls =
    issued "tok" 0 (record {
      task_id = "1";
      stage = "developer";
      ttl = 300;
      max_requests = 256;
      max_concurrency = 1;
      max_output_bytes = 1000;
    })
    ∷ []

abbrev lease : Lease
lease = record {
  digest = "tok";
  expires_at = 300;
  task_id = "1";
  stage = "developer";
  model = "m";
  max_concurrency = 1;
  in_flight = 0;
  upstream_error = none;
}

abbrev unused : Usage
unused = record {
  task_id = "1";
  stage = "developer";
  max_requests = 256;
  max_output_bytes = 1000;
  request_count = 0;
  output_bytes = 0;
}

abbrev broker : Broker
broker = record { leases = lease ∷ []; usages = unused ∷ [] }

abbrev busy : Broker
busy = record {
  leases = record lease { in_flight = 1 } ∷ [];
  usages = record unused { request_count = 1 } ∷ [];
}

abbrev granted : Permit
granted = record { task_id = "1"; stage = "developer"; digest = "tok"; released = false }

acquire_run : acquire (λ s. s) "tok" "/v1/responses" "m" 10 broker ≡ (done granted, busy)
unfolding acquire acquire_found acquire_counted get_lease get_usage find_where update_where
    string_dec
acquire_run = refl

acquire_permit_example :
    (l : Lease) × (get_lease "tok" broker ≡ some l)
    × (10 < l.expires_at)
    × ("/v1/responses" ≡ responses_endpoint)
    × ("m" ≡ l.model)
    × ((u : Usage) × (get_usage l.task_id l.stage broker ≡ some u)
        × (u.request_count < u.max_requests)
        × (l.in_flight < l.max_concurrency)
        × (busy
            ≡ update_lease "tok"
                (λ _. record l { in_flight = l.in_flight + 1 })
                (update_usage l.task_id l.stage
                  (λ x. record x { request_count = x.request_count + 1 })
                  broker)))
acquire_permit_example =
    acquire_permit (λ s. s) "tok" "/v1/responses" "m" 10 broker busy granted acquire_run

usage_found_example :
    ¬ (
      (acquire
        (λ s. s)
        "tok"
        "/v1/responses"
        "m"
        10
        (run_calls (λ s. s) (λ s. str_eq s "") "m" calls empty_broker)).0
      ≡ key_error)
    × ¬ (
        (record_output "tok" 10 (run_calls (λ s. s) (λ s. str_eq s "") "m" calls empty_broker)).0
        ≡ key_error)
usage_found_example =
    usage_found (λ s. s) (λ s. str_eq s "") "m" calls "tok" "/v1/responses" "m" 10 10

leases_served_example :
    All
      (λ l.
        (is_some (
            find_where
              (is_usage_of l.task_id l.stage)
              (run_calls (λ s. s) (λ s. str_eq s "") "m" calls empty_broker).usages)
          ≡ true)
        × (l.in_flight ≤ l.max_concurrency))
      (run_calls (λ s. s) (λ s. str_eq s "") "m" calls empty_broker).leases
leases_served_example = leases_served (λ s. s) (λ s. str_eq s "") "m" calls

-- A review whose lease has run out.
abbrev review : PrReviewTask
review = record {
  id = 4;
  repository_id = 3;
  pr_number = 9;
  pr_url = "u";
  status = ReviewStatus.reviewing;
  base_sha = none;
  head_sha = none;
  workspace_path = none;
  source_chat_id = "c";
  source_message_id = "m";
  source_sender_open_id = "s";
  structured_result = none;
  comment_url = none;
  review_key = some "k";
  claim_token = some "old";
  claim_expires_at = some 50;
  failure_code = none;
  failure_summary = none;
  created_at = 1;
  started_at = some 2;
  finished_at = none;
}

abandoned_review : is_abandoned 60 review ≡ true
unfolding is_abandoned
abandoned_review = refl

reviews_found : find_where (λ x. x.id == 4) (review ∷ []) ≡ some review
unfolding find_where
reviews_found = refl

run_review-IsHeld_example : All IsHeld (run_review (ReviewSession.recovered 60) (review ∷ []))
run_review-IsHeld_example = run_review-IsHeld (ReviewSession.recovered 60) (review ∷ []) (refl, tt)

recovered_fenced_example :
    expected_update 4 ReviewStatus.reviewing "old"
      (write_failed "c" "s" 61)
      (recover_reviews 60 (review ∷ [])).1
    ≡ (false, (recover_reviews 60 (review ∷ [])).1)
recovered_fenced_example =
    recovered_fenced 60 4 ReviewStatus.reviewing "old" (write_failed "c" "s" 61) (review ∷ [])
      review (tt, tt) reviews_found abandoned_review

retry_delay-bounds_example : (1000 ≤ retry_delay 5000 3) × (retry_delay 5000 3 ≤ 60000)
retry_delay-bounds_example = retry_delay-bounds 5000 3

set_status_decides_example : set_status 1 TaskStatus.reviewing "secret" claimed ≡ (
    if fits (TaskStatus.developer_working ∷ TaskStatus.reviewing ∷ []) (some "secret") claimed_task
    then (
      return tt,
      moved_db 1 TaskStatus.reviewing no_updates
          (some "secret")
          "orchestrator"
          claimed_task
          claimed,
    )
    else (
      Result.raise (
          if not (column_eq claimed_task.claim_token "secret")
          then Failure.claim_lost
          else (if status_in
                (TaskStatus.cancelling ∷ TaskStatus.cancelled ∷ TaskStatus.dismissed ∷ [])
                claimed_task.status
              then Failure.task_cancelled
              else Failure.runtime_error)),
      claimed,
    ))
set_status_decides_example =
    set_status_decides 1 TaskStatus.reviewing TaskStatus.developer_working
      (TaskStatus.reviewing ∷ []) "secret" claimed claimed_task claimed_unique claimed_found
      (unfold status_expected in refl)

-- A task whose pull request awaits review.
abbrev published_task : Task
published_task = record task { status = TaskStatus.awaiting_human_review; pr_number = some 4 }

abbrev published_db : Db
published_db = record empty_db { tasks = published_task ∷ [] }

published_found : get_task 1 published_db ≡ some published_task
unfolding get_task
published_found = refl

store_answer_writes_example :
    get_task 1 (store_answer 1 500 (status "merged") published_db).1
    ≡ some (
        if status_eq published_task.status TaskStatus.awaiting_human_review
        then answered 500 (status "merged") published_task
        else published_task)
store_answer_writes_example =
    store_answer_writes 1 500 (status "merged") published_db published_task (tt, tt) published_found

handlers_release_example :
    IsReleased 1 "secret" (fail 1 "secret" "timeout" "late" 300 claimed).1
    × IsReleased 1 "secret" (interrupt 1 "secret" 300 claimed).1
handlers_release_example =
    handlers_release 1 "secret" "timeout" "late" 300 claimed claimed_task (Reach-Inv Reach-claimed)
      claimed_found
