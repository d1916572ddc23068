-- ===== src/Store/Schema.antt =====
-- coderus/models.py: the rows of the tables that the task workflow reads and writes. Instants
-- are numbers of seconds; a nullable column is an `Option`. A column of another table that a row
-- holds is its id, and the relationship attributes are lookups by id.
use coderus.Base.{ℕ, Bool, String, Option, List}
use coderus.Base.Text.{Text}
use coderus.Store.Status.{TaskStatus}

pub data TriageState : Type 0 where
  discovered dispatched ignored : TriageState

pub record User : Type 0 where
  pub id : ℕ
  pub role : String
  pub is_active : Bool

pub record Repository : Type 0 where
  pub id : ℕ
  pub provider : String
  pub owner : String
  pub name : String
  pub is_enabled : Bool

pub record Issue : Type 0 where
  pub id : ℕ
  pub repository_id : ℕ
  pub external_id : String
  pub number : ℕ
  pub title : String
  pub body : String
  pub labels : List String
  pub state : String
  pub source_url : Option String
  pub source_updated_at : Option ℕ
  pub triage_state : TriageState
  pub ignored_by : Option ℕ
  pub ignored_reason : Option String
  pub ignored_at : Option ℕ

pub record Task : Type 0 where
  pub id : ℕ
  pub issue_id : ℕ
  pub created_by : ℕ
  pub status : TaskStatus
  pub priority : ℕ
  pub instructions : String
  pub base_commit_sha : Option String
  pub branch_name : Option String
  pub workspace_path : Option String
  pub fixed_patch_path : Option String
  pub reviewed_tree_sha : Option String
  pub commit_sha : Option String
  pub pr_url : Option String
  pub pr_number : Option ℕ
  pub pr_state : Option String
  pub pr_status_error : Option String
  pub pr_status_checked_at : Option ℕ
  pub failure_code : Option String
  pub failure_summary : Option String
  pub claim_token : Option String
  pub claim_expires_at : Option ℕ
  pub publication_key : Option String
  pub publication_started_at : Option ℕ
  pub contract_version : ℕ
  pub created_at : ℕ
  pub started_at : Option ℕ
  pub finished_at : Option ℕ

pub record TaskTransition : Type 0 where
  pub task_id : ℕ
  pub from_status : TaskStatus
  pub to_status : TaskStatus
  pub actor : String
  pub contract_version : ℕ

-- An exit code, which is negative for a process that a signal ended: `negsuc n` is -(n + 1).
pub data ℤ : Type 0 where
  pos : ℕ → ℤ
  negsuc : ℕ → ℤ

-- coderus/workflow/developer_report.py
pub record DeveloperReport : Type 0 where
  pub problem_description : Text
  pub problem_reproduction : Text
  pub solution : Text
  pub change_validation : Text
  pub regression_tests : Text
  pub remaining_issues : Text

-- The keys of `AgentRun.structured_result`.
pub record StructuredResult : Type 0 where
  pub stdout : Option Text
  pub developer_report : Option DeveloperReport
  pub model_usage : Option (ℕ × ℕ)

pub record AgentRun : Type 0 where
  pub id : ℕ
  pub task_id : ℕ
  pub role : String
  pub attempt : ℕ
  pub status : String
  pub started_at : Option ℕ
  pub finished_at : Option ℕ
  pub exit_code : Option ℤ
  pub structured_result : Option StructuredResult
  pub error_summary : Option Text

-- A finding of a reviewer: the two known keys, and the JSON text of all others.
pub record ReviewerFinding : Type 0 where
  pub severity : Text
  pub message : Text
  pub extra : Text

pub record Review : Type 0 where
  pub id : ℕ
  pub task_id : ℕ
  pub reviewer_role : String
  pub decision : Text
  pub findings : List ReviewerFinding
  pub blocking_count : ℕ
  pub contract_version : ℕ

pub record PrFeedback : Type 0 where
  pub id : ℕ
  pub task_id : ℕ
  pub provider_id : String
  pub kind : String
  pub author : String
  pub author_association : String
  pub body : String
  pub url : String
  pub path : Option String
  pub line : Option ℕ
  pub selected_at : Option ℕ
  pub processed_at : Option ℕ

pub record Db : Type 0 where
  pub users : List User
  pub repositories : List Repository
  pub issues : List Issue
  pub tasks : List Task
  pub transitions : List TaskTransition
  pub agent_runs : List AgentRun
  pub reviews : List Review
  pub pr_feedback : List PrFeedback
