-- ===== src/Issues.antt =====
-- coderus/issues/service.py and coderus/application/issues.py: issues are stored as the forge
-- gives them, dispatched as tasks, ignored and restored.
pub mod Invariant
use coderus.Base.{
  ℕ, ◌≡◌, Bool, true, false, not, ◌&&◌, ◌||◌, String, Option, none, some, List, [], ◌∷◌, ◌==◌,
  if◌then◌else◌, str_eq, is_some, string_dec,
}
use coderus.Base.Table.{find_where, select_where, update_where, insert_row}
use coderus.Store.{
  TaskStatus, TriageState, status_in, terminal_task_states, Task, User, Issue, Repository, Db,
  Result, Action, Failure, value_error, runtime_error, not_found, forbidden, conflict, return,
  raise, get, pure, throw, transaction, ◌>>=◌, ◌>>◌,
}
use coderus.Store.Tables.{get_user, get_issue, get_repository, update_issues}

abbrev pub is_triaged : TriageState → TriageState → Bool
is_triaged TriageState.discovered TriageState.discovered = true
is_triaged TriageState.dispatched TriageState.dispatched = true
is_triaged TriageState.ignored TriageState.ignored = true
is_triaged _ _ = false

-- A task of the issue that has not ended.
unfoldable pub is_open_task : ℕ → Task → Bool
is_open_task issue_id t = t.issue_id == issue_id && not (status_in terminal_task_states t.status)

-- The columns of a new task, defaults included.
abbrev pub new_task : ℕ → Issue → User → String → ℕ → Task
new_task id issue creator instructions now = record {
  id = id;
  issue_id = issue.id;
  created_by = creator.id;
  status = TaskStatus.queued;
  priority = 0;
  instructions = instructions;
  base_commit_sha = none;
  branch_name = none;
  workspace_path = none;
  fixed_patch_path = none;
  reviewed_tree_sha = none;
  commit_sha = none;
  pr_url = none;
  pr_number = none;
  pr_state = none;
  pr_status_error = none;
  pr_status_checked_at = none;
  failure_code = none;
  failure_summary = none;
  claim_token = none;
  claim_expires_at = none;
  publication_key = none;
  publication_started_at = none;
  contract_version = 1;
  created_at = now;
  started_at = none;
  finished_at = none;
}

-- The lookup `issue.repository.is_enabled`; an issue without its repository would be an error.
unfoldable pub refuses_repository : Option Repository → Option Failure
refuses_repository none = some runtime_error
refuses_repository (some r) = if r.is_enabled then none else some value_error

unfoldable pub refuses : Issue → Db → Option Failure
refuses issue db =
    if not (str_eq issue.state "open") || not (is_triaged issue.triage_state TriageState.discovered)
    then some value_error
    else (if is_some (find_where (is_open_task issue.id) db.tasks)
        then some value_error
        else refuses_repository (get_repository issue.repository_id db))

abbrev dispatched_db : ℕ → Issue → User → String → ℕ → Db → Db
dispatched_db id issue creator instructions now db = record db {
  tasks = insert_row (new_task id issue creator instructions now) db.tasks;
  issues =
      update_where (λ i. i.id == issue.id) (λ i. record i { triage_state = TriageState.dispatched })
        db.issues;
}

unfoldable pub dispatch_if : Option Failure → ℕ → Issue → User → String → ℕ → Action ℕ
dispatch_if (some e) id issue creator instructions now = throw e
dispatch_if none id issue creator instructions now =
    λ db. (return id, dispatched_db id issue creator instructions now db)

-- `dispatch_issue`. `id` is the row's id, which the database chooses, and `instructions` the
-- stripped text. The unique index on open tasks never refuses what the check lets through.
unfoldable pub dispatch_issue : ℕ → Issue → User → String → ℕ → Action ℕ
dispatch_issue id issue creator instructions now = do
  db ← get
  dispatch_if (refuses issue db) id issue creator instructions now

-- `_active_user` and the lookup of the issue, as `IssueCommands.dispatch_in_session` does them.
unfoldable pub dispatch_rows : ℕ → String → ℕ → Option User → Option Issue → Action ℕ
dispatch_rows id instructions now none issue = throw value_error
dispatch_rows id instructions now (some actor) none = throw value_error
dispatch_rows id instructions now (some actor) (some issue) =
    if actor.is_active then dispatch_issue id issue actor instructions now else throw value_error

-- `IssueCommands.dispatch`
unfoldable pub dispatch : ℕ → ℕ → ℕ → String → ℕ → Action ℕ
dispatch id issue_id actor_id instructions now =
    transaction (
      get >>= λ db.
      dispatch_rows id instructions now (get_user actor_id db) (get_issue issue_id db))

-- `_admin_issue`
unfoldable pub admin_issue : Option Issue → Option User → Result Issue
admin_issue none actor = raise not_found
admin_issue (some issue) none = raise forbidden
admin_issue (some issue) (some actor) =
    if str_eq actor.role "admin" then return issue else raise forbidden

unfoldable pub find_admin_issue : ℕ → ℕ → Action Issue
find_admin_issue issue_id actor_id db =
    (admin_issue (get_issue issue_id db) (get_user actor_id db), db)

abbrev write_issue : ℕ → (Issue → Issue) → Action (Unit {0})
write_issue issue_id f db = (return tt, update_issues (λ i. i.id == issue_id) f db)

-- `IssueCommands.ignore`; `reason` is the stripped and cut text, `none` where it is empty.
unfoldable pub ignore : ℕ → ℕ → Option String → ℕ → Action (Unit {0})
ignore issue_id actor_id reason now = transaction do
  issue ← find_admin_issue issue_id actor_id
  if is_triaged issue.triage_state TriageState.discovered && str_eq issue.state "open"
      then write_issue issue_id (λ i. record i {
        triage_state = TriageState.ignored;
        ignored_by = some actor_id;
        ignored_reason = reason;
        ignored_at = some now;
      })
      else throw conflict

-- `IssueCommands.restore`
unfoldable pub restore : ℕ → ℕ → Action (Unit {0})
restore issue_id actor_id = transaction do
  issue ← find_admin_issue issue_id actor_id
  if is_triaged issue.triage_state TriageState.ignored
      then write_issue issue_id (λ i. record i {
        triage_state = TriageState.discovered;
        ignored_by = none;
        ignored_reason = none;
        ignored_at = none;
      })
      else throw conflict

-- coderus/forge/models.py, `Issue`
pub record ProviderIssue : Type 0 where
  pub external_id : String
  pub number : ℕ
  pub title : String
  pub body : Option String
  pub labels : List String
  pub state : String
  pub canonical_url : Option String
  pub updated_at : Option ℕ

abbrev body_or_empty : Option String → String
body_or_empty none = ""
body_or_empty (some s) = s

abbrev pub from_source : ProviderIssue → Issue → Issue
from_source source i = record i {
  external_id = source.external_id;
  title = source.title;
  body = body_or_empty source.body;
  labels = source.labels;
  state = source.state;
  source_url = source.canonical_url;
  source_updated_at = source.updated_at;
}

abbrev new_issue : ℕ → ℕ → ProviderIssue → Issue
new_issue id repository_id source = record {
  id = id;
  repository_id = repository_id;
  external_id = source.external_id;
  number = source.number;
  title = source.title;
  body = body_or_empty source.body;
  labels = source.labels;
  state = source.state;
  source_url = source.canonical_url;
  source_updated_at = source.updated_at;
  triage_state = TriageState.discovered;
  ignored_by = none;
  ignored_reason = none;
  ignored_at = none;
}

abbrev pub is_numbered : ℕ → ℕ → Issue → Bool
is_numbered repository_id number i = i.repository_id == repository_id && i.number == number

unfoldable pub upsert_rows : ℕ → ℕ → ProviderIssue → Option Issue → List Issue → List Issue
upsert_rows id repository_id source none rows = insert_row (new_issue id repository_id source) rows
upsert_rows id repository_id source (some issue) rows =
    update_where (λ i. i.id == issue.id) (from_source source) rows

-- `upsert_provider_issue`: the triage of a known issue is left as it is.
unfoldable pub upsert_provider_issue : ℕ → ℕ → ProviderIssue → Action (Unit {0})
upsert_provider_issue id repository_id source db = (
  return tt,
  record db {
    issues =
        upsert_rows id repository_id source
          (find_where (is_numbered repository_id source.number) db.issues) db.issues;
  },
)
