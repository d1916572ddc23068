-- ===== src/PrReview/Claim.antt =====
-- coderus/pr_review/orchestrator.py: the renewal of the claim of a review by coderus/tasks/lease.py,
-- and the note of a failed notification.
use coderus.Base.{ℕ, ◌+◌, Bool, false, ◌&&◌, String, Option, none, some, List, ◌==◌, ltb, column_eq}
use Prim.Native.String.{◌++◌ as text_append}
use coderus.Base.Table.{update_where, count_where}
use coderus.PrReview.{ReviewStatus, review_status_eq, is_running_review, PrReviewTask}

abbrev ends_after : Option ℕ → ℕ → Bool
ends_after none now = false
ends_after (some t) now = ltb now t

-- The `WHERE` of `TaskLease.renew` over the reviews, with `ACTIVE_STATUSES`.
unfoldable pub is_renewable : ℕ → String → ℕ → PrReviewTask → Bool
is_renewable task_id claim_token now t =
    t.id == task_id
    && is_running_review t.status
    && column_eq t.claim_token claim_token
    && ends_after t.claim_expires_at now

unfoldable pub write_renewed : ℕ → ℕ → PrReviewTask → PrReviewTask
write_renewed now lease_seconds t = record t { claim_expires_at = some (now + lease_seconds) }

-- `_renew_claim`, by which `_assert_claim` and the heartbeat renew.
unfoldable pub renew_claim : ℕ → String → ℕ → ℕ → List PrReviewTask → Bool × List PrReviewTask
renew_claim task_id claim_token now lease_seconds rows = (
  count_where (is_renewable task_id claim_token now) rows == 1,
  update_where (is_renewable task_id claim_token now) (write_renewed now lease_seconds) rows,
)

-- The `CASE` of `_record_notification_failure`.
abbrev summary_with : Option String → String → String
summary_with none summary = summary
summary_with (some old) summary = text_append old (text_append "；" summary)

unfoldable pub is_in_status : ℕ → ReviewStatus → PrReviewTask → Bool
is_in_status task_id expected t = t.id == task_id && review_status_eq t.status expected

unfoldable pub write_notification_failure : String → PrReviewTask → PrReviewTask
write_notification_failure kind t = record t {
  failure_summary = some (summary_with t.failure_summary (text_append "飞书通知失败：" kind));
}

-- `_record_notification_failure`
unfoldable pub record_notification_failure :
    ℕ → ReviewStatus → String → List PrReviewTask → List PrReviewTask
record_notification_failure task_id expected kind rows =
    update_where (is_in_status task_id expected) (write_notification_failure kind) rows
