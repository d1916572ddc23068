-- ===== src/PrReview/Ownership.antt =====
-- A review is held by one worker: its claim token fits its status, and a worker that has lost its
-- claim changes nothing.
use coderus.Base.{
  ℕ, true, false, ◌≡◌, refl, ◌∙◌, String, Option, none, some, List, ◌==◌, column_eq, is_some, arith,
}
use coderus.Base.Table.{
  All, find_where, update_where, update_where-All, insert_row-All, count_where-none,
  update_where-none, find_where-none,
}
use coderus.Base.Table.Keyed.{
  UniqueKeys, find_where_keyed, find_where-update_where, UniqueKeys-update_where,
}
use coderus.Store.{Repository, Result, return, raise}
use coderus.PrReview.Claim.{
  is_renewable, write_renewed, renew_claim, is_in_status, write_notification_failure,
  record_notification_failure,
}
use coderus.PrReview.Enqueue.{SourceRepository, ReviewRequest, enqueue_in, enqueue_pr_review}
use coderus.PrReview.{
  ReviewStatus, is_running_review, PrReviewTask, is_queued, write_review_claim, claim_review,
  is_expected, expected_update, write_revision, write_status, write_commenting, write_completed,
  write_failed, is_abandoned, write_requeued, recover_reviews,
}

abbrev pub IsHeld : PrReviewTask → Type 0
IsHeld t = is_some t.claim_token ≡ is_running_review t.status

abbrev review_id : PrReviewTask → ℕ
review_id t = t.id

-- One session of the scheduler, of a worker or of the commands that enqueue a review.
pub data ReviewSession : Type 0 where
  claimed : ℕ → String → String → ℕ → ℕ → ReviewSession
  revision_recorded : ℕ → ReviewStatus → String → String → String → ReviewSession
  review_begun : ℕ → String → ReviewSession
  commenting_set : ℕ → ReviewStatus → String → String → ReviewSession
  completed : ℕ → ReviewStatus → String → String → ℕ → ReviewSession
  failed : ℕ → ReviewStatus → String → String → String → ℕ → ReviewSession
  recovered : ℕ → ReviewSession
  renewed : ℕ → String → ℕ → ℕ → ReviewSession
  failure_noted : ℕ → ReviewStatus → String → ReviewSession
  enqueued : List Repository → Result (SourceRepository × ℕ) → ReviewRequest → ReviewSession

unfoldable pub run_review : ReviewSession → List PrReviewTask → List PrReviewTask
run_review (claimed task_id token key now lease_seconds) rows =
    (claim_review task_id token key now lease_seconds rows).1
run_review (revision_recorded task_id expected token base head) rows =
    (expected_update task_id expected token (write_revision base head) rows).1
run_review (review_begun task_id token) rows =
    (expected_update task_id ReviewStatus.preparing token (write_status ReviewStatus.reviewing)
      rows).1
run_review (commenting_set task_id expected token result) rows =
    (expected_update task_id expected token (write_commenting result) rows).1
run_review (completed task_id expected token url now) rows =
    (expected_update task_id expected token (write_completed url now) rows).1
run_review (failed task_id expected token code summary now) rows =
    (expected_update task_id expected token (write_failed code summary now) rows).1
run_review (recovered now) rows = (recover_reviews now rows).1
run_review (renewed task_id token now lease_seconds) rows =
    (renew_claim task_id token now lease_seconds rows).1
run_review (failure_noted task_id expected kind) rows =
    record_notification_failure task_id expected kind rows
run_review (enqueued repositories parsed request) rows =
    (enqueue_pr_review repositories parsed request rows).1

still_held :
    (task_id : ℕ) (expected : ReviewStatus) (token : String) (t : PrReviewTask)
    → is_expected task_id expected token t ≡ true
    → is_some t.claim_token ≡ true
unfolding is_expected
still_held task_id expected token t h = held t.claim_token (ground arith)
  where
    held : (o : Option String) → column_eq o token ≡ true → is_some o ≡ true
    held none h = h
    held (some s) h = refl

enqueue_in-IsHeld :
    (request : ReviewRequest) (number : ℕ) (found : Option Repository) (rows : List PrReviewTask)
    → All IsHeld rows
    → All IsHeld (enqueue_in request number found rows).1
unfolding enqueue_in
enqueue_in-IsHeld request number none rows h = h
enqueue_in-IsHeld request number (some repository) rows h = insert_row-All IsHeld _ rows refl h

enqueue_pr_review-IsHeld :
    (repositories : List Repository) (parsed : Result (SourceRepository × ℕ))
    (request : ReviewRequest) (rows : List PrReviewTask)
    → All IsHeld rows
    → All IsHeld (enqueue_pr_review repositories parsed request rows).1
unfolding enqueue_pr_review
enqueue_pr_review-IsHeld repositories (raise e) request rows h = h
enqueue_pr_review-IsHeld repositories (return (source, number)) request rows h =
    enqueue_in-IsHeld request number (find_where _ repositories) rows h

-- Every session on the review table (the insertion of a review, its claim, the renewal of the
-- claim, the updates of its worker, the note of a failed notification and the recovery) keeps
-- this: a review has a claim token exactly while its status is an active one.
pub run_review-IsHeld :
    (s : ReviewSession) (rows : List PrReviewTask)
    → All IsHeld rows
    → All IsHeld (run_review s rows)
unfolding run_review claim_review expected_update recover_reviews write_review_claim write_revision
    write_status write_commenting write_completed write_failed write_requeued renew_claim
    write_renewed record_notification_failure write_notification_failure
run_review-IsHeld (claimed task_id token key now lease_seconds) rows h =
    update_where-All IsHeld (is_queued task_id) (write_review_claim token key now lease_seconds)
      rows h (λ t o m. refl)
run_review-IsHeld (revision_recorded task_id expected token base head) rows h =
    update_where-All IsHeld (is_expected task_id expected token) (write_revision base head) rows h
      (λ t o m. o)
run_review-IsHeld (review_begun task_id token) rows h =
    update_where-All IsHeld (is_expected task_id ReviewStatus.preparing token)
      (write_status ReviewStatus.reviewing) rows h
      (λ t o m. still_held task_id ReviewStatus.preparing token t m)
run_review-IsHeld (commenting_set task_id expected token result) rows h =
    update_where-All IsHeld (is_expected task_id expected token) (write_commenting result) rows h
      (λ t o m. still_held task_id expected token t m)
run_review-IsHeld (completed task_id expected token url now) rows h =
    update_where-All IsHeld (is_expected task_id expected token) (write_completed url now) rows h
      (λ t o m. refl)
run_review-IsHeld (failed task_id expected token code summary now) rows h =
    update_where-All IsHeld (is_expected task_id expected token) (write_failed code summary now)
      rows h (λ t o m. refl)
run_review-IsHeld (recovered now) rows h =
    update_where-All IsHeld (is_abandoned now) write_requeued rows h (λ t o m. refl)
run_review-IsHeld (renewed task_id token now lease_seconds) rows h =
    update_where-All IsHeld (is_renewable task_id token now) (write_renewed now lease_seconds) rows
      h (λ t o m. o)
run_review-IsHeld (failure_noted task_id expected kind) rows h =
    update_where-All IsHeld (is_in_status task_id expected) (write_notification_failure kind) rows h
      (λ t o m. o)
run_review-IsHeld (enqueued repositories parsed request) rows h =
    enqueue_pr_review-IsHeld repositories parsed request rows h

-- Right after the recovery has taken back a review whose lease has run out, an update under any
-- token is refused as a lost claim and changes nothing. Review ids are unique.
pub recovered_fenced :
    (now task_id : ℕ) (expected : ReviewStatus) (token : String)
    (written : PrReviewTask → PrReviewTask) (rows : List PrReviewTask) (t : PrReviewTask)
    → UniqueKeys review_id rows
    → find_where (λ x. x.id == task_id) rows ≡ some t
    → is_abandoned now t ≡ true
    → expected_update task_id expected token written (recover_reviews now rows).1
      ≡ (false, (recover_reviews now rows).1)
unfolding expected_update recover_reviews
recovered_fenced now task_id expected token written rows t u e lost =
    let after = update_where (is_abandoned now) write_requeued rows in
    let same : (x : PrReviewTask) → (write_requeued x).id ≡ x.id =
      λ x. unfold write_requeued in refl in
    let requeued : find_where (λ x. x.id == task_id) after ≡ some (write_requeued t) =
      find_where-update_where (λ x. x.id == task_id) (is_abandoned now) write_requeued
        (λ x. rw (same x) refl) rows e
      ∙ rw lost refl in
    let refused : is_expected task_id expected token (write_requeued t) ≡ false = no_token t in
    let none_left : find_where (is_expected task_id expected token) after ≡ none =
      find_where_keyed review_id task_id (is_expected task_id expected token) after
        (UniqueKeys-update_where review_id (is_abandoned now) write_requeued same rows u) of_id
        requeued
      ∙ rw refused refl in
    let off = find_where-none (is_expected task_id expected token) after none_left in
    rw
      (
        count_where-none (is_expected task_id expected token) after off,
        update_where-none (is_expected task_id expected token) written after off,
      )
      refl
  where
    no_token : (x : PrReviewTask) → is_expected task_id expected token (write_requeued x) ≡ false
    no_token x = unfold is_expected in unfold write_requeued in ground arith

    of_id : (x : PrReviewTask) → is_expected task_id expected token x ≡ true → x.id ≡ task_id
    of_id x h = unfold is_expected in ground arith
