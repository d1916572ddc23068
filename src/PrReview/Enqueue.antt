-- ===== src/PrReview/Enqueue.antt =====
-- coderus/pr_review/service.py: a new review of a pull request. What `parse_pull_request_url` gives
-- for the address is an argument: the parser works on texts and stands in Forge.Urls.
use coderus.Base.{ℕ, Bool, ◌&&◌, String, Option, none, some, List, str_eq}
use coderus.Base.Table.{find_where, insert_row}
use coderus.Store.{Repository, Result, return, raise, value_error}
use coderus.PrReview.{ReviewStatus, PrReviewTask}

-- The repository that the address of a pull request names.
pub record SourceRepository : Type 0 where
  pub provider : String
  pub owner : String
  pub name : String

-- The address, where the request comes from, the new id and secret, and the time.
pub record ReviewRequest : Type 0 where
  pub url : String
  pub source_chat_id : String
  pub source_message_id : String
  pub source_sender_id : String
  pub id : ℕ
  pub review_key : String
  pub now : ℕ

-- The rows that `enqueue_pr_review` selects.
abbrev is_source : SourceRepository → Repository → Bool
is_source source r =
    str_eq r.provider source.provider
    && str_eq r.owner source.owner
    && str_eq r.name source.name
    && r.is_enabled

abbrev new_review : ReviewRequest → ℕ → ℕ → PrReviewTask
new_review request repository_id number = record {
  id = request.id;
  repository_id = repository_id;
  pr_number = number;
  pr_url = request.url;
  status = ReviewStatus.queued;
  base_sha = none;
  head_sha = none;
  workspace_path = none;
  source_chat_id = request.source_chat_id;
  source_message_id = request.source_message_id;
  source_sender_open_id = request.source_sender_id;
  structured_result = none;
  comment_url = none;
  review_key = some request.review_key;
  claim_token = none;
  claim_expires_at = none;
  failure_code = none;
  failure_summary = none;
  created_at = request.now;
  started_at = none;
  finished_at = none;
}

unfoldable pub enqueue_in :
    ReviewRequest → ℕ → Option Repository → List PrReviewTask → Result ℕ × List PrReviewTask
enqueue_in request number none rows = (raise value_error, rows)
enqueue_in request number (some repository) rows =
    (return request.id, insert_row (new_review request repository.id number) rows)

-- `enqueue_pr_review`
unfoldable pub enqueue_pr_review :
    List Repository
    → Result (SourceRepository × ℕ)
    → ReviewRequest
    → List PrReviewTask
    → Result ℕ × List PrReviewTask
enqueue_pr_review repositories (raise e) request rows = (raise e, rows)
enqueue_pr_review repositories (return (source, number)) request rows =
    enqueue_in request number (find_where (is_source source) repositories) rows
