-- ===== src/TaskState/Invariant.antt =====
-- What holds of the tables of tasks and transitions between two transactions, and how updates of
-- rows keep it.
use coderus.Base.{ℕ, ◌+◌, ◌≤◌, Bool, true, ◌≡◌, sym, ◌∙◌, ◌≢◌, some, arith}
use coderus.Base.Table.{
  All, All-map, bit, find_where, update_where, count_where, count_where-congr, insert_row,
  insert_row-All, update_where-All,
}
use coderus.Base.Table.Keyed.{
  Present, Present-update_where, find_where-Present, UniqueKeys-update_where,
  update_where-All_keyed, count_where-update_where,
}
use coderus.Store.{TaskStatus, Task, TaskTransition, Db}
use coderus.Store.Tables.{update_tasks, add_transition}
use coderus.TaskState.{is_running, is_running_of}
use coderus.TaskState.Cas.{task_id_of, UniqueTasks}
use coderus.TaskState.Graph.{is_edge, IsOwned, replay, replay-other, replay-same}

-- The scheduler's limits on the tasks that run at once.
pub record Limits : Type 0 where
  pub global_limit : ℕ
  pub per_user_limit : ℕ

pub record Inv (l : Limits) (db : Db) : Type 0 where
  pub unique : UniqueTasks db
  pub owned : All IsOwned db.tasks
  -- The log of each task leads from `queued` to its status.
  pub audited : All (λ t. replay t.id TaskStatus.queued db.transitions ≡ some t.status) db.tasks
  pub legal : All (λ e. is_edge e.from_status e.to_status ≡ true) db.transitions
  pub known : All (λ e. Present task_id_of e.task_id db.tasks) db.transitions
  -- The quotas hold, over all users and for each one.
  pub quota : count_where is_running db.tasks ≤ l.global_limit
  pub user_quota : (u : ℕ) → count_where (is_running_of u) db.tasks ≤ l.per_user_limit

-- The invariant speaks of two tables: changes of the others keep it.
pub same_tables-Inv :
    {l : Limits} (db db' : Db)
    → db'.tasks ≡ db.tasks
    → db'.transitions ≡ db.transitions
    → Inv l db
    → Inv l db'
same_tables-Inv db db' t e v = record {
  unique = rw t (v.unique);
  owned = rw t (v.owned);
  audited = rw (t, e) (v.audited);
  legal = rw e (v.legal);
  known = rw (t, e) (v.known);
  quota = rw t (v.quota);
  user_quota = λ u. rw t (v.user_quota u);
}

-- An update of other columns than these keeps the invariant.
pub record KeepsState (f : Task → Task) : Type 0 where
  pub id : (t : Task) → (f t).id ≡ t.id
  pub status : (t : Task) → (f t).status ≡ t.status
  pub claim_token : (t : Task) → (f t).claim_token ≡ t.claim_token
  pub created_by : (t : Task) → (f t).created_by ≡ t.created_by

is_running-keeps : (f : Task → Task) (k : KeepsState f) (t : Task) → is_running (f t) ≡ is_running t
unfolding is_running
is_running-keeps f k t = rw (k.status t)

is_running_of-keeps :
    (f : Task → Task) (k : KeepsState f) (u : ℕ) (t : Task)
    → is_running_of u (f t) ≡ is_running_of u t
unfolding is_running_of is_running
is_running_of-keeps f k u t = rw (k.status t, k.created_by t)

pub update_tasks-Inv :
    {l : Limits} (m : Task → Bool) (f : Task → Task) (db : Db)
    → KeepsState f
    → Inv l db
    → Inv l (update_tasks m f db)
update_tasks-Inv m f db k v = record {
  unique = UniqueKeys-update_where task_id_of m f k.id db.tasks v.unique;
  owned = update_where-All IsOwned m f db.tasks v.owned λ t o _. rw (k.claim_token t, k.status t) o;
  audited =
      update_where-All (λ t. replay t.id TaskStatus.queued db.transitions ≡ some t.status) m f
        db.tasks v.audited λ t a _. rw (k.id t, k.status t) a;
  legal = v.legal;
  known =
      All-map db.transitions (λ e. Present-update_where task_id_of m f k.id e.task_id db.tasks)
        v.known;
  quota = rw (count_where-congr is_running m f (is_running-keeps f k) db.tasks) (v.quota);
  user_quota = λ u.
      rw (count_where-congr (is_running_of u) m f (is_running_of-keeps f k u) db.tasks)
        (v.user_quota u);
}

-- One row is moved along an edge, and the move is logged.
module _ (l : Limits) (p matches : Task → Bool) (written : Task → Task) (entry : TaskTransition)
    (db : Db) (c : Task) where
  pub record IsMove : Type 0 where
    pub found : find_where p db.tasks ≡ some c
    pub hit : matches c ≡ true
    pub only : (t : Task) → matches t ≡ true → t.id ≡ c.id
    pub keeps_id : (t : Task) → (written t).id ≡ t.id
    pub to : (written c).status ≡ entry.to_status
    pub from : entry.from_status ≡ c.status
    pub logs : entry.task_id ≡ c.id
    pub edge : is_edge entry.from_status entry.to_status ≡ true
    pub owner : IsOwned (written c)
    -- There is room for the row after the move.
    pub room :
        count_where is_running db.tasks + bit (is_running (written c))
        ≤ l.global_limit + bit (is_running c)
    pub user_room :
        (u : ℕ)
        → count_where (is_running_of u) db.tasks + bit (is_running_of u (written c))
          ≤ l.per_user_limit + bit (is_running_of u c)

  pub move-Inv : Inv l db → IsMove → Inv l (add_transition entry (update_tasks matches written db))
  move-Inv v k = record {
    unique = UniqueKeys-update_where task_id_of matches written k.keeps_id db.tasks v.unique;
    owned = keyed IsOwned IsOwned v.owned (λ t o _. o) (λ _. k.owner);
    audited =
        keyed (λ t. replay t.id TaskStatus.queued db.transitions ≡ some t.status)
          (λ t. replay t.id TaskStatus.queued (insert_row entry db.transitions) ≡ some t.status)
          v.audited
          (λ t a n.
            replay-other t.id TaskStatus.queued db.transitions entry (λ q. n (sym q ∙ k.logs)) ∙ a)
          λ a.
            rw (k.keeps_id c, k.to)
              (replay-same c.id TaskStatus.queued c.status db.transitions entry a k.logs k.from);
    legal =
        insert_row-All (λ e. is_edge e.from_status e.to_status ≡ true) entry db.transitions k.edge
          v.legal;
    known =
        All-map _
          (λ e. Present-update_where task_id_of matches written k.keeps_id e.task_id db.tasks)
          (insert_row-All (λ e. Present task_id_of e.task_id db.tasks) entry db.transitions
            (rw k.logs (find_where-Present task_id_of p db.tasks k.found)) v.known);
    quota = omega (arith, counted is_running, k.room);
    user_quota = λ u. omega (arith, counted (is_running_of u), k.user_room u);
  }
    where
      keyed :
          (P Q : Task → Type 0)
          → All P db.tasks
          → ((x : Task) → P x → x.id ≢ c.id → Q x)
          → (P c → Q (written c))
          → All Q (update_where matches written db.tasks)
      keyed P Q h =
          update_where-All_keyed task_id_of P Q matches written c k.hit k.only p db.tasks v.unique h
            k.found

      counted :
          (q : Task → Bool)
          → count_where q (update_where matches written db.tasks) + bit (q c)
            ≡ count_where q db.tasks + bit (q (written c))
      counted q =
          count_where-update_where task_id_of matches written c k.hit k.only q p db.tasks v.unique
            k.found
