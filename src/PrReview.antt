-- ===== src/PrReview.antt =====
-- coderus/pr_review: the table of review tasks, the updates by which a review's worker reports its
-- progress (orchestrator.py), and the scheduler that recovers and starts reviews (scheduler.py).
pub mod Claim
pub mod Enqueue
pub mod Ownership
pub mod Delay
use coderus.Base.{
  ℕ, ◌+◌, ◌-◌, ◌*◌, ◌^◌, Bool, true, false, ◌&&◌, ◌||◌, String, Option, none, some, List, [], ◌∷◌,
  ◌==◌, ltb, leb, if◌then◌else◌, str_eq, column_eq, is_empty, min, max, string_dec,
}
use coderus.Base.Table.{find_where, select_where, update_where, count_where}

-- The values of `PRReviewTask.status`.
pub data ReviewStatus : Type 0 where
  queued preparing reviewing commenting completed failed : ReviewStatus

abbrev pub review_status_eq : ReviewStatus → ReviewStatus → Bool
review_status_eq queued queued = true
review_status_eq preparing preparing = true
review_status_eq reviewing reviewing = true
review_status_eq commenting commenting = true
review_status_eq completed completed = true
review_status_eq failed failed = true
review_status_eq _ _ = false

-- `RUNNING_STATUSES`
abbrev pub is_running_review : ReviewStatus → Bool
is_running_review preparing = true
is_running_review reviewing = true
is_running_review commenting = true
is_running_review _ = false

-- The structured result is a JSON document, of which nothing here reads a part.
pub record PrReviewTask : Type 0 where
  pub id : ℕ
  pub repository_id : ℕ
  pub pr_number : ℕ
  pub pr_url : String
  pub status : ReviewStatus
  pub base_sha : Option String
  pub head_sha : Option String
  pub workspace_path : Option String
  pub source_chat_id : String
  pub source_message_id : String
  pub source_sender_open_id : String
  pub structured_result : Option String
  pub comment_url : Option String
  pub review_key : Option String
  pub claim_token : Option String
  pub claim_expires_at : Option ℕ
  pub failure_code : Option String
  pub failure_summary : Option String
  pub created_at : ℕ
  pub started_at : Option ℕ
  pub finished_at : Option ℕ

-- A session's result: whether one row was changed, and the table.
abbrev changed_one :
    (PrReviewTask → Bool)
    → (PrReviewTask → PrReviewTask)
    → List PrReviewTask
    → Bool × List PrReviewTask
changed_one m f rows = (count_where m rows == 1, update_where m f rows)

abbrev pub is_queued : ℕ → PrReviewTask → Bool
is_queued task_id t = t.id == task_id && review_status_eq t.status queued

abbrev key_or : Option String → String → String
key_or none key = key
key_or (some k) key = k

unfoldable pub write_review_claim : String → String → ℕ → ℕ → PrReviewTask → PrReviewTask
write_review_claim token key now lease_seconds t = record t {
  status = preparing;
  base_sha = none;
  head_sha = none;
  workspace_path = none;
  structured_result = none;
  comment_url = none;
  failure_code = none;
  failure_summary = none;
  review_key = some (key_or t.review_key key);
  claim_token = some token;
  claim_expires_at = some (now + lease_seconds);
  started_at = some now;
  finished_at = none;
}

-- `_claim`, with the new secrets `token` and `key`. The caller gets the token if the result says
-- that one row was changed.
unfoldable pub claim_review :
    ℕ → String → String → ℕ → ℕ → List PrReviewTask → Bool × List PrReviewTask
claim_review task_id token key now lease_seconds rows =
    changed_one (is_queued task_id) (write_review_claim token key now lease_seconds) rows

-- The condition of `_expected_update` and of `_fail`.
unfoldable pub is_expected : ℕ → ReviewStatus → String → PrReviewTask → Bool
is_expected task_id expected owner_token t =
    t.id == task_id && review_status_eq t.status expected && column_eq t.claim_token owner_token

-- `_expected_update`, which raises where the result says that no row was changed.
unfoldable pub expected_update :
    ℕ
    → ReviewStatus
    → String
    → (PrReviewTask → PrReviewTask)
    → List PrReviewTask
    → Bool × List PrReviewTask
expected_update task_id expected owner_token written rows =
    changed_one (is_expected task_id expected owner_token) written rows

-- The values that the callers of `_expected_update` write, and those of `_fail`.
unfoldable pub write_revision : String → String → PrReviewTask → PrReviewTask
write_revision base_sha head_sha t = record t { base_sha = some base_sha; head_sha = some head_sha }

unfoldable pub write_status : ReviewStatus → PrReviewTask → PrReviewTask
write_status s t = record t { status = s }

unfoldable pub write_commenting : String → PrReviewTask → PrReviewTask
write_commenting result t = record t { status = commenting; structured_result = some result }

unfoldable pub write_completed : String → ℕ → PrReviewTask → PrReviewTask
write_completed comment_url now t = record t {
  status = completed;
  comment_url = some comment_url;
  claim_token = none;
  claim_expires_at = none;
  failure_code = none;
  failure_summary = none;
  finished_at = some now;
}

unfoldable pub write_failed : String → String → ℕ → PrReviewTask → PrReviewTask
write_failed code summary now t = record t {
  status = failed;
  claim_token = none;
  claim_expires_at = none;
  failure_code = some code;
  failure_summary = some summary;
  finished_at = some now;
}

abbrev review_lease_over : Option ℕ → ℕ → Bool
review_lease_over none now = true
review_lease_over (some t) now = leb t now

unfoldable pub is_abandoned : ℕ → PrReviewTask → Bool
is_abandoned now t = is_running_review t.status && review_lease_over t.claim_expires_at now

unfoldable pub write_requeued : PrReviewTask → PrReviewTask
write_requeued t = record t {
  status = queued;
  claim_token = none;
  claim_expires_at = none;
  started_at = none;
  finished_at = none;
  failure_code = none;
  failure_summary = none;
}

-- `recover_expired`, with the number of recovered rows.
unfoldable pub recover_reviews : ℕ → List PrReviewTask → ℕ × List PrReviewTask
recover_reviews now rows =
    (count_where (is_abandoned now) rows, update_where (is_abandoned now) write_requeued rows)

-- `ORDER BY created_at, id LIMIT 1`
abbrev pub earlier : PrReviewTask → PrReviewTask → Bool
earlier a b = ltb a.created_at b.created_at || ((a.created_at == b.created_at) && leb a.id b.id)

abbrev earlier_of : PrReviewTask → Option PrReviewTask → Option PrReviewTask
earlier_of t none = some t
earlier_of t (some x) = if earlier t x then some t else some x

unfoldable pub next_review : List PrReviewTask → Option PrReviewTask
next_review [] = none
next_review (t ∷ ts) =
    let rest = next_review ts in
    if review_status_eq t.status queued then earlier_of t rest else rest

abbrev launched_review : Option PrReviewTask → List ℕ
launched_review none = []
launched_review (some t) = t.id ∷ []

-- `tick`: `alive` are the reviews whose worker has not ended; the result has the new `_running`.
unfoldable pub review_tick : Bool → ℕ → List ℕ → List PrReviewTask → List ℕ × List PrReviewTask
review_tick can_claim now alive rows =
    if can_claim
    then (let recovered = (recover_reviews now rows).1 in
        if is_empty alive
        then (launched_review (next_review recovered), recovered)
        else (alive, recovered))
    else (alive, rows)

-- The delay after the given number of failures in a row, in milliseconds, as `_loop` computes it.
unfoldable pub retry_delay : ℕ → ℕ → ℕ
retry_delay poll consecutive_failures =
    min 60000 (max 1000 poll * 2 ^ min (consecutive_failures - 1) 6)

-- The delay before the next tick and the new count of failures.
unfoldable pub after_tick : ℕ → ℕ → Bool → ℕ × ℕ
after_tick poll consecutive_failures true = (poll, 0)
after_tick poll consecutive_failures false =
    (retry_delay poll (consecutive_failures + 1), consecutive_failures + 1)
