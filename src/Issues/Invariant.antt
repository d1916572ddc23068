-- ===== src/Issues/Invariant.antt =====
-- The handling of issues keeps the invariant of the task tables.
use coderus.Base.{
  ℕ, Bool, true, false, ◌≡◌, ◌≢◌, refl, String, Option, none, some, List, [], ◌∷◌, if◌then◌else◌,
  arith,
}
use coderus.Base.Table.{All, All-map, insert_row-All, count_where-insert_row}
use coderus.Base.Table.Keyed.{Absent, Present, Present-insert_row, UniqueKeys-insert_row}
use coderus.Store.{
  TaskStatus, TaskTransition, Task, User, Issue, Db, Failure, value_error, conflict, get, throw,
  ◌>>=◌,
}
use coderus.TaskState.{is_running, is_running_of}
use coderus.TaskState.Cas.{task_id_of}
use coderus.TaskState.Graph.{IsOwned, is_claimed, replay}
use coderus.TaskState.Invariant.{Limits, Inv, same_tables-Inv}
use coderus.TaskState.Keeps.{
  Keeps, bind-Keeps, if-Keeps, read-Keeps, throw-Keeps, transaction-Inv, transaction-Keeps,
}
use coderus.Issues.{
  new_task, refuses, dispatched_db, dispatch_if, dispatch_issue, dispatch_rows, dispatch,
  find_admin_issue, write_issue, ignore, restore, ProviderIssue, upsert_provider_issue,
}

-- A row's key differs from a key that no row has.
Present-apart :
    {A : Type 0} (key : A → ℕ) (id k : ℕ) (xs : List A)
    → Absent key id xs
    → Present key k xs
    → k ≢ id
Present-apart key id k xs fresh here = λ e. here (rw e fresh)

-- The log says nothing of a task that is not in the table.
replay-Absent :
    (id : ℕ) (s : TaskStatus) (tasks : List Task) (log : List TaskTransition)
    → Absent task_id_of id tasks
    → All (λ e. Present task_id_of e.task_id tasks) log
    → replay id s log ≡ some s
unfolding replay
replay-Absent id s tasks [] fresh known = refl
replay-Absent id s tasks (e ∷ log) fresh known =
    let other : e.task_id ≢ id = Present-apart task_id_of id e.task_id tasks fresh known.0 in
    ground (arith, other, replay-Absent id s tasks log fresh known.1)

abbrev FreshId : ℕ → Db → Type 0
FreshId id db = Absent task_id_of id db.tasks

-- A new task is queued, without a token, and its log is empty.
dispatched-Inv :
    {l : Limits} (id : ℕ) (issue : Issue) (creator : User) (instructions : String) (now : ℕ)
    (db : Db)
    → FreshId id db
    → Inv l db
    → Inv l (dispatched_db id issue creator instructions now db)
unfolding is_running is_running_of is_claimed
dispatched-Inv id issue creator instructions now db fresh v = record {
  unique =
      UniqueKeys-insert_row task_id_of (new_task id issue creator instructions now) db.tasks
        v.unique fresh;
  owned = insert_row-All IsOwned _ db.tasks refl v.owned;
  audited =
      insert_row-All (λ t. replay t.id TaskStatus.queued db.transitions ≡ some t.status) _ db.tasks
        (replay-Absent id TaskStatus.queued db.tasks db.transitions fresh v.known) v.audited;
  legal = v.legal;
  known = All-map db.transitions (λ e. Present-insert_row task_id_of _ e.task_id db.tasks) v.known;
  quota = omega (
    arith,
    count_where-insert_row is_running (new_task id issue creator instructions now) db.tasks,
    v.quota,
  );
  user_quota = λ u. omega (
    arith,
    count_where-insert_row (is_running_of u) (new_task id issue creator instructions now) db.tasks,
    v.user_quota u,
  );
}

-- Dispatching with an id that no row has keeps the invariant.
dispatch_if-Inv :
    {l : Limits} (e : Option Failure) (id : ℕ) (issue : Issue) (creator : User)
    (instructions : String) (now : ℕ) (db : Db)
    → FreshId id db
    → Inv l db
    → Inv l (dispatch_if e id issue creator instructions now db).1
unfolding dispatch_if throw
dispatch_if-Inv (some e) id issue creator instructions now db fresh v = v
dispatch_if-Inv none id issue creator instructions now db fresh v =
    dispatched-Inv id issue creator instructions now db fresh v

dispatch_rows-Inv :
    {l : Limits} (id : ℕ) (instructions : String) (now : ℕ) (actor : Option User)
    (issue : Option Issue) (db : Db)
    → FreshId id db
    → Inv l db
    → Inv l (dispatch_rows id instructions now actor issue db).1
unfolding dispatch_rows dispatch_issue throw get ◌>>=◌
dispatch_rows-Inv id instructions now none issue db fresh v = v
dispatch_rows-Inv id instructions now (some actor) none db fresh v = v
dispatch_rows-Inv {l} id instructions now (some actor) (some issue) db fresh v = go actor.is_active
  where
    go :
        (active : Bool)
        → Inv l
            ((if active then dispatch_issue id issue actor instructions now else throw value_error)
              db).1
    go true = dispatch_if-Inv (refuses issue db) id issue actor instructions now db fresh v
    go false = v

pub dispatch-Inv :
    {l : Limits} (id issue_id actor_id : ℕ) (instructions : String) (now : ℕ) (db : Db)
    → Absent task_id_of id db.tasks
    → Inv l db
    → Inv l (dispatch id issue_id actor_id instructions now db).1
unfolding dispatch get ◌>>=◌
dispatch-Inv id issue_id actor_id instructions now db fresh v =
    transaction-Inv _ db v (dispatch_rows-Inv id instructions now _ _ db fresh v)

-- Writes to the table of issues, where a check lets them through.
write_issue_if-Keeps :
    {l : Limits} (b : Bool) (issue_id : ℕ) (f : Issue → Issue)
    → Keeps l (if b then write_issue issue_id f else throw conflict)
write_issue_if-Keeps b issue_id f =
    if-Keeps b _ _ (λ _. record { apply = λ db v. same_tables-Inv db _ refl refl v })
      (λ _. throw-Keeps _ conflict)

find_admin_issue-Keeps :
    {l : Limits} (issue_id actor_id : ℕ) → Keeps l (find_admin_issue issue_id actor_id)
unfolding find_admin_issue
find_admin_issue-Keeps issue_id actor_id = read-Keeps _

pub ignore-Keeps :
    {l : Limits} (issue_id actor_id : ℕ) (reason : Option String) (now : ℕ)
    → Keeps l (ignore issue_id actor_id reason now)
unfolding ignore
ignore-Keeps issue_id actor_id reason now = transaction-Keeps _ (
    bind-Keeps _ _ (find_admin_issue-Keeps issue_id actor_id)
      λ issue. write_issue_if-Keeps _ issue_id _)

pub restore-Keeps : {l : Limits} (issue_id actor_id : ℕ) → Keeps l (restore issue_id actor_id)
unfolding restore
restore-Keeps issue_id actor_id = transaction-Keeps _ (
    bind-Keeps _ _ (find_admin_issue-Keeps issue_id actor_id)
      λ issue. write_issue_if-Keeps _ issue_id _)

pub upsert_provider_issue-Keeps :
    {l : Limits} (id repository_id : ℕ) (source : ProviderIssue)
    → Keeps l (upsert_provider_issue id repository_id source)
unfolding upsert_provider_issue
upsert_provider_issue-Keeps id repository_id source = record {
  apply = λ db v. same_tables-Inv db _ refl refl v;
}
