-- ===== src/TaskState/Cas.antt =====
-- What `cas_task_status` of coderus/workflow/task_state.py does to a table whose ids are unique.
use coderus.Base.{
  ℕ, Bool, true, false, ◌≡◌, sym, ◌∙◌, inl, inr, String, Option, none, some, List, ◌∷◌, arith,
  Option-cases,
}
use coderus.Base.Table.{find_where, find_where-true, count_where}
use coderus.Base.Table.Keyed.{UniqueKeys, count_where_keyed}
use coderus.Store.{TaskStatus, status_in, Task, Db, Result, return}
use coderus.Store.Tables.{update_tasks, add_transition}
use coderus.TaskState.{
  TaskUpdates, token_matches, cas_selects, cas_matches, cas_current, cas_task_status, write_task,
  logged, version_or_default,
}

abbrev pub task_id_of : Task → ℕ
task_id_of t = t.id

-- The table of tasks keeps its primary key.
abbrev pub UniqueTasks : Db → Type 0
UniqueTasks db = UniqueKeys task_id_of db.tasks

module _ (task_id : ℕ) (expected : List TaskStatus) (token : Option String) where
  -- The row that is selected is matched by the update, and by its id alone.
  pub selects→matches :
      (c : Task)
      → cas_selects task_id expected token c ≡ true
      → cas_matches task_id c.status token c ≡ true
  unfolding cas_selects cas_matches
  selects→matches c h = ground arith

  pub selects→expected :
      (c : Task)
      → cas_selects task_id expected token c ≡ true
      → (c.id ≡ task_id)
        × (status_in expected c.status ≡ true)
        × (token_matches token c.claim_token ≡ true)
  unfolding cas_selects
  selects→expected c h = ground arith

pub matches→id :
    (task_id : ℕ) (s : TaskStatus) (token : Option String) (t : Task)
    → cas_matches task_id s token t ≡ true
    → t.id ≡ task_id
unfolding cas_matches
matches→id task_id s token t h = ground arith

module _ (task_id : ℕ) (new_status : TaskStatus) (updates : TaskUpdates) (token : Option String)
    (actor : String) where
  -- The database after the row `c` has been moved.
  abbrev pub moved_db : Task → Db → Db
  moved_db c db =
      add_transition
        (logged task_id c.status new_status actor (version_or_default c.contract_version))
        (update_tasks (cas_matches task_id c.status token) (write_task new_status updates) db)

  -- The outcome of a call: no row fits and nothing is changed, or the selected row is moved.
  pub data CasOutcome (expected : List TaskStatus) (db : Db) (r : Result Bool × Db) : Type 0 where
    refused :
        find_where (cas_selects task_id expected token) db.tasks ≡ none
        → r ≡ (return false, db)
        → CasOutcome expected db r
    moved :
        (c : Task)
        → find_where (cas_selects task_id expected token) db.tasks ≡ some c
        → cas_selects task_id expected token c ≡ true
        → r ≡ (return true, moved_db c db)
        → CasOutcome expected db r

  -- The update matches the selected row alone.
  matches_one :
      (expected : List TaskStatus) (db : Db) (c : Task)
      → UniqueTasks db
      → find_where (cas_selects task_id expected token) db.tasks ≡ some c
      → cas_selects task_id expected token c ≡ true
      → count_where (cas_matches task_id c.status token) db.tasks ≡ 1
  matches_one expected db c u e hit =
      count_where_keyed task_id_of (cas_matches task_id c.status token) (λ t. t) c
        (selects→matches task_id expected token c hit)
        (λ t m.
          matches→id task_id c.status token t m
          ∙ sym (selects→expected task_id expected token c hit).0)
        (cas_selects task_id expected token) db.tasks u e

  pub cas_outcome :
      (s : TaskStatus) (more : List TaskStatus) (db : Db)
      → UniqueTasks db
      → CasOutcome
          (s ∷ more)
          db
          (cas_task_status task_id (s ∷ more) new_status updates token actor db)
  cas_outcome s more db u =
      elim (Option-cases (find_where (cas_selects task_id (s ∷ more) token) db.tasks)) [
        | inl e ↦ CasOutcome.refused e (unfold cas_task_status cas_current in rw e)
        | inr (c, e) ↦
            let hit = find_where-true (cas_selects task_id (s ∷ more) token) db.tasks e in
            let one = matches_one (s ∷ more) db c u e hit in
            CasOutcome.moved c e hit (unfold cas_task_status in rw e (moving c db one))
      ]
    where
      moving :
          (c : Task) (db : Db)
          → count_where (cas_matches task_id c.status token) db.tasks ≡ 1
          → cas_current task_id new_status updates token actor (some c) db
            ≡ (return true, moved_db c db)
      moving c db one = unfold cas_current in rw one
