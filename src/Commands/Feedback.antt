-- ===== src/Commands/Feedback.antt =====
-- coderus/workflow/feedback.py: one comment of a pull request is stored under its provider's
-- name. A row that an older version stored without the name is renamed, or merged and deleted.
use coderus.Base.{
  ℕ, Bool, ◌&&◌, String, Option, none, some, List, [], ◌∷◌, ◌==◌, if◌then◌else◌, str_eq, string_dec,
  min, not,
}
use Prim.Native.String.{◌++◌ as text_append}
use coderus.Base.Table.{find_where, update_where, insert_row, count_where, select_where}
use coderus.Store.{PrFeedback, Action, return, pure, ◌>>◌}

-- coderus/forge/models.py, `PRFeedbackItem`
pub record FeedbackItem : Type 0 where
  pub provider_id : String
  pub kind : String
  pub author : String
  pub author_association : String
  pub body : String
  pub url : String
  pub path : Option String
  pub line : Option ℕ

-- `f"{provider}:{item.provider_id}"`
unfoldable pub prefixed_id : String → String → String
prefixed_id provider provider_id = text_append provider (text_append ":" provider_id)

-- The row of a task with a provider's id: the two columns are a unique key.
unfoldable pub has_key : ℕ → String → PrFeedback → Bool
unfolding string_dec
has_key task_id provider_id row = row.task_id == task_id && str_eq row.provider_id provider_id

-- The smaller of the instants that are there.
unfoldable pub earliest : Option ℕ → Option ℕ → Option ℕ
earliest none b = b
earliest (some a) none = some a
earliest (some a) (some b) = some (min a b)

abbrev has_id : ℕ → PrFeedback → Bool
has_id id row = row.id == id

-- The rows after the legacy row has been renamed, or merged into the other and deleted.
unfoldable pub merge_legacy :
    String → Option PrFeedback → Option PrFeedback → List PrFeedback → List PrFeedback
unfolding earliest update_where select_where
merge_legacy provider_id none none rows = rows
merge_legacy provider_id none (some legacy) rows =
    update_where (has_id legacy.id) (λ row. record row { provider_id = provider_id }) rows
merge_legacy provider_id (some prefixed) none rows = rows
merge_legacy provider_id (some prefixed) (some legacy) rows =
    select_where (λ row. not (has_id legacy.id row))
      (update_where (has_id prefixed.id)
        (λ row. record row {
          selected_at = earliest prefixed.selected_at legacy.selected_at;
          processed_at = earliest prefixed.processed_at legacy.processed_at;
        })
        rows)

-- The columns that a conflict overwrites.
unfoldable pub overwrite : FeedbackItem → PrFeedback → PrFeedback
overwrite item row = record row {
  kind = item.kind;
  author = item.author;
  author_association = item.author_association;
  body = item.body;
  url = item.url;
  path = item.path;
  line = item.line;
}

abbrev new_row : ℕ → ℕ → String → FeedbackItem → PrFeedback
new_row id task_id provider_id item = record {
  id = id;
  task_id = task_id;
  provider_id = provider_id;
  kind = item.kind;
  author = item.author;
  author_association = item.author_association;
  body = item.body;
  url = item.url;
  path = item.path;
  line = item.line;
  selected_at = none;
  processed_at = none;
}

-- `INSERT ... ON CONFLICT DO UPDATE`. The database chooses the new row's id.
unfoldable pub insert_or_overwrite :
    ℕ → ℕ → String → FeedbackItem → List PrFeedback → List PrFeedback
unfolding has_key overwrite count_where update_where insert_row
insert_or_overwrite id task_id provider_id item rows =
    if count_where (has_key task_id provider_id) rows == 0
    then insert_row (new_row id task_id provider_id item) rows
    else update_where (has_key task_id provider_id) (overwrite item) rows

module _ (fresh_id : List PrFeedback → ℕ) where
  unfoldable pub upsert_rows : ℕ → String → FeedbackItem → List PrFeedback → List PrFeedback
  unfolding prefixed_id find_where has_key merge_legacy insert_or_overwrite
  upsert_rows task_id provider item rows =
      let provider_id = prefixed_id provider item.provider_id in
      let prefixed = find_where (has_key task_id provider_id) rows in
      let legacy = find_where (has_key task_id item.provider_id) rows in
      let merged = merge_legacy provider_id prefixed legacy rows in
      insert_or_overwrite (fresh_id merged) task_id provider_id item merged

  unfoldable pub upsert_pr_feedback : ℕ → String → FeedbackItem → Action (Unit {0})
  upsert_pr_feedback task_id provider item db =
      (return tt, record db { pr_feedback = upsert_rows task_id provider item db.pr_feedback })

  -- The loop over the items of `TaskCommands.sync_feedback`.
  unfoldable pub upsert_all : ℕ → String → List FeedbackItem → Action (Unit {0})
  upsert_all task_id provider [] = pure tt
  upsert_all task_id provider (item ∷ items) =
      upsert_pr_feedback task_id provider item >> upsert_all task_id provider items
