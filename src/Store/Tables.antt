-- ===== src/Store/Tables.antt =====
-- Statements on the tables of the database: lookups by primary key, and updates of one table.
use coderus.Base.{ℕ, Bool, Option, none, some, ◌==◌}
use coderus.Base.Table.{find_where, update_where, insert_row}
use coderus.Store.Schema.{Db, Task, TaskTransition, User, Issue, Repository, PrFeedback}

-- `session.get(Task, task_id)`
unfoldable pub get_task : ℕ → Db → Option Task
unfolding find_where
get_task task_id db = find_where (λ t. t.id == task_id) db.tasks

unfoldable pub get_user : ℕ → Db → Option User
unfolding find_where
get_user user_id db = find_where (λ u. u.id == user_id) db.users

unfoldable pub get_issue : ℕ → Db → Option Issue
unfolding find_where
get_issue issue_id db = find_where (λ i. i.id == issue_id) db.issues

unfoldable pub get_repository : ℕ → Db → Option Repository
unfolding find_where
get_repository repository_id db = find_where (λ r. r.id == repository_id) db.repositories

abbrev pub update_tasks : (Task → Bool) → (Task → Task) → Db → Db
update_tasks p f db = record db { tasks = update_where p f db.tasks }

abbrev pub update_issues : (Issue → Bool) → (Issue → Issue) → Db → Db
update_issues p f db = record db { issues = update_where p f db.issues }

-- `session.add(TaskTransition(...))`
abbrev pub add_transition : TaskTransition → Db → Db
add_transition t db = record db { transitions = insert_row t db.transitions }

abbrev pub update_feedback : (PrFeedback → Bool) → (PrFeedback → PrFeedback) → Db → Db
update_feedback p f db = record db { pr_feedback = update_where p f db.pr_feedback }

-- The relationships `task.issue.repository`. A task without them would be an AttributeError.
unfoldable pub repository_of : Task → Db → Option Repository
unfolding get_issue get_repository
repository_of t db = repository_of_issue (get_issue t.issue_id db)
  where
    repository_of_issue : Option Issue → Option Repository
    repository_of_issue none = none
    repository_of_issue (some i) = get_repository i.repository_id db
