-- ===== src/TaskState.antt =====
-- coderus/workflow/task_state.py: the two ways by which a task changes its status. Both are
-- conditional updates (compare and swap) that log a transition where they change a row.
-- coderus/tasks/quotas.py and coderus/tasks/lease.py stand here too.
pub mod Lease
pub mod Returns
pub mod Decision
pub mod Cas
pub mod Claim
pub mod Graph
pub mod Invariant
pub mod Keeps
use coderus.Base.{
  ℕ, ◌+◌, Bool, true, false, not, ◌&&◌, String, Option, none, some, List, [], ◌∷◌, ◌==◌, ltb,
  if◌then◌else◌, column_eq,
}
use coderus.Base.Table.{find_where, update_where, count_where, insert_row}
use coderus.Store.{
  TaskStatus, status_eq, status_dec, status_in, running_task_states, Task, TaskTransition, Db,
  Result, Action, value_error, return, raise,
}
use coderus.Store.Tables.{get_task, update_tasks, add_transition}

abbrev pub task_contract_version : ℕ
task_contract_version = 1

-- `version or TASK_CONTRACT_VERSION`
abbrev version_or_default : ℕ → ℕ
version_or_default version = if version == 0 then task_contract_version else version

abbrev contract_version_of : Option Task → ℕ
contract_version_of none = task_contract_version
contract_version_of (some t) = version_or_default t.contract_version

-- One entry of the `updates` dict: absent, or the column's new value.
pub data Update (A : Type 0) : Type 0 where
  keep : Update A
  assign : A → Update A

abbrev pub updated : {A : Type 0} → Update A → A → A
updated keep old = old
updated (assign new) old = new

-- The `updates` dict, over the columns that some caller gives.
pub record TaskUpdates : Type 0 where
  pub claim_token : Update (Option String)
  pub claim_expires_at : Update (Option ℕ)
  pub failure_code : Update (Option String)
  pub failure_summary : Update (Option String)
  pub finished_at : Update (Option ℕ)
  pub pr_url : Update (Option String)
  pub pr_number : Update (Option ℕ)
  pub pr_state : Update (Option String)
  pub pr_status_error : Update (Option String)
  pub pr_status_checked_at : Update (Option ℕ)
  pub publication_key : Update (Option String)
  pub publication_started_at : Update (Option ℕ)

abbrev pub no_updates : TaskUpdates
no_updates = record {
  claim_token = keep;
  claim_expires_at = keep;
  failure_code = keep;
  failure_summary = keep;
  finished_at = keep;
  pr_url = keep;
  pr_number = keep;
  pr_state = keep;
  pr_status_error = keep;
  pr_status_checked_at = keep;
  publication_key = keep;
  publication_started_at = keep;
}

-- `values(status=new_status, **updates)`
unfoldable pub write_task : TaskStatus → TaskUpdates → Task → Task
write_task new_status u t = record t {
  status = new_status;
  claim_token = updated u.claim_token t.claim_token;
  claim_expires_at = updated u.claim_expires_at t.claim_expires_at;
  failure_code = updated u.failure_code t.failure_code;
  failure_summary = updated u.failure_summary t.failure_summary;
  finished_at = updated u.finished_at t.finished_at;
  pr_url = updated u.pr_url t.pr_url;
  pr_number = updated u.pr_number t.pr_number;
  pr_state = updated u.pr_state t.pr_state;
  pr_status_error = updated u.pr_status_error t.pr_status_error;
  pr_status_checked_at = updated u.pr_status_checked_at t.pr_status_checked_at;
  publication_key = updated u.publication_key t.publication_key;
  publication_started_at = updated u.publication_started_at t.publication_started_at;
}

-- The condition on the token, which is left out where the caller gives none.
unfoldable pub token_matches : Option String → Option String → Bool
token_matches none held = true
token_matches (some claim_token) held = column_eq held claim_token

-- The `WHERE` of the first statement of `cas_task_status`.
unfoldable pub cas_selects : ℕ → List TaskStatus → Option String → Task → Bool
unfolding status_in token_matches
cas_selects task_id expected claim_token t =
    t.id == task_id && status_in expected t.status && token_matches claim_token t.claim_token

-- The `WHERE` of its update.
unfoldable pub cas_matches : ℕ → TaskStatus → Option String → Task → Bool
unfolding status_dec token_matches
cas_matches task_id current claim_token t =
    t.id == task_id && status_eq t.status current && token_matches claim_token t.claim_token

abbrev logged : ℕ → TaskStatus → TaskStatus → String → ℕ → TaskTransition
logged task_id from to who version = record {
  task_id = task_id;
  from_status = from;
  to_status = to;
  actor = who;
  contract_version = version;
}

-- `cas_task_status` once the row has been selected.
cas_current : ℕ → TaskStatus → TaskUpdates → Option String → String → Option Task → Action Bool
unfolding count_where update_where insert_row cas_matches write_task
cas_current task_id new_status updates claim_token actor none = λ db. (return false, db)
cas_current task_id new_status updates claim_token actor (some current) = λ db.
    let matches = cas_matches task_id current.status claim_token in
    let written = update_tasks matches (write_task new_status updates) db in
    let version = version_or_default current.contract_version in
    if count_where matches db.tasks == 1
    then (
      return true,
      add_transition (logged task_id current.status new_status actor version) written,
    )
    else (return false, written)

unfoldable pub cas_task_status :
    ℕ → List TaskStatus → TaskStatus → TaskUpdates → Option String → String → Action Bool
unfolding cas_current cas_selects find_where
cas_task_status task_id [] new_status updates claim_token actor = λ db. (raise value_error, db)
cas_task_status task_id (s ∷ more) new_status updates claim_token actor = λ db.
    cas_current task_id new_status updates claim_token actor
      (find_where (cas_selects task_id (s ∷ more) claim_token) db.tasks) db

-- The two subqueries that count the running tasks.
unfoldable pub is_running : Task → Bool
unfolding status_in
is_running t = status_in running_task_states t.status

unfoldable pub is_running_of : ℕ → Task → Bool
unfolding is_running
is_running_of user_id t = is_running t && (t.created_by == user_id)

unfoldable pub claims : ℕ → ℕ → ℕ → Db → Task → Bool
unfolding is_running_of count_where status_dec
claims task_id global_limit per_user_limit db t =
    t.id == task_id
    && status_eq t.status TaskStatus.queued
    && ltb (count_where is_running db.tasks) global_limit
    && ltb (count_where (is_running_of t.created_by) db.tasks) per_user_limit

-- `func.coalesce(Task.started_at, now)`
abbrev pub coalesce : Option ℕ → ℕ → Option ℕ
coalesce none now = some now
coalesce (some t) now = some t

-- The values that a claim writes.
unfoldable pub write_claim : String → ℕ → ℕ → Task → Task
write_claim token now lease_seconds t = record t {
  status = TaskStatus.preparing;
  claim_token = some token;
  claim_expires_at = some (now + lease_seconds);
  started_at = coalesce t.started_at now;
  finished_at = none;
}

-- `token` is the new secret, and `now` the clock's reading.
unfoldable pub claim_queued_task : ℕ → ℕ → ℕ → ℕ → String → ℕ → Action (Option String)
unfolding claims write_claim count_where update_where insert_row get_task
claim_queued_task task_id global_limit per_user_limit lease_seconds token now db =
    let matches = claims task_id global_limit per_user_limit db in
    let written = update_tasks matches (write_claim token now lease_seconds) db in
    let version = contract_version_of (get_task task_id written) in
    let entry = logged task_id TaskStatus.queued TaskStatus.preparing "scheduler" version in
    if count_where matches db.tasks == 1
    then (return (some token), add_transition entry written)
    else (return none, written)

-- coderus/tasks/quotas.py. The counts are natural numbers, so the check of their types is gone.
unfoldable pub can_start_task : ℕ → ℕ → ℕ → ℕ → Bool
can_start_task global_running user_running global_limit user_limit =
    ltb global_running global_limit && ltb user_running user_limit
