-- ===== src/PrStatus/Answer.antt =====
-- What the poller makes of one answer of the forge.
use coderus.Base.{
  ℕ, ◌≡◌, refl, ◌∙◌, String, Option, none, some, [], ◌∷◌, ◌==◌, if◌then◌else◌, Bool-cases, inl, inr,
  str_eq, arith,
}
use coderus.Base.Table.Keyed.{find_where-update_where}
use coderus.Store.{TaskStatus, status_eq, status_in, Task, Db, commit_if, pure, ◌>>=◌, ◌>>◌}
use coderus.Store.Tables.{get_task}
use coderus.TaskState.{write_task, token_matches}
use coderus.TaskState.Cas.{UniqueTasks}
use coderus.TaskState.Decision.{fits, cas_decides, cas_writes, get_task-id}
use coderus.PrStatus.{
  PrAnswer, status, error, is_awaiting, stamp, final_status, final_updates, finish_pull,
  store_answer,
}

abbrev stamped : Option String → ℕ → Task → Task
stamped message now t = record t { pr_status_error = message; pr_status_checked_at = some now }

-- A task whose pull request is final.
abbrev finished_as : TaskStatus → String → ℕ → Task → Task
finished_as final state now t = record t {
  status = final;
  pr_state = some state;
  pr_status_error = none;
  pr_status_checked_at = some now;
  finished_at = some now;
}

-- The row that an answer makes of one that awaits review.
abbrev pub answered : ℕ → PrAnswer → Task → Task
answered now (error message) t = stamped (some message) now t
answered now (status s) t =
    if str_eq s "merged"
    then finished_as TaskStatus.completed s now t
    else (if str_eq s "closed" then finished_as TaskStatus.closed s now t else stamped none now t)

stamp_writes :
    (task_id : ℕ) (message : Option String) (now : ℕ) (db : Db) (t : Task)
    → get_task task_id db ≡ some t
    → get_task task_id (stamp task_id message now db).1
      ≡ some
          (if status_eq t.status TaskStatus.awaiting_human_review then stamped message now t else t)
unfolding stamp get_task
stamp_writes task_id message now db t e =
    find_where-update_where (λ x. x.id == task_id) (is_awaiting task_id) (stamped message now)
      (λ x. refl) db.tasks e
    ∙ rw (here (get_task-id task_id db t e)) refl
  where
    here :
        t.id ≡ task_id → is_awaiting task_id t ≡ status_eq t.status TaskStatus.awaiting_human_review
    here id = ground (arith, id)

fits_awaiting :
    (t : Task)
    → fits (TaskStatus.awaiting_human_review ∷ []) none t
      ≡ status_eq t.status TaskStatus.awaiting_human_review
unfolding status_in token_matches
fits_awaiting t = ground arith

finish_pull_writes :
    (task_id : ℕ) (s : String) (now : ℕ) (db : Db) (t : Task)
    → UniqueTasks db
    → get_task task_id db ≡ some t
    → get_task task_id (finish_pull task_id s now db).1
      ≡ some (
          if status_eq t.status TaskStatus.awaiting_human_review
          then write_task (final_status s) (final_updates s now) t
          else t)
unfolding finish_pull commit_if pure ◌>>◌ ◌>>=◌
finish_pull_writes task_id s now db t u e =
    let expected = TaskStatus.awaiting_human_review in
    let decided =
      cas_decides task_id expected [] (final_status s) (final_updates s now) none "system" db t u
        e in
    let written =
      cas_writes task_id expected [] (final_status s) (final_updates s now) none "system" db t u
        e in
    elim (Bool-cases (status_eq t.status TaskStatus.awaiting_human_review)) [
      | inl q ↦
          let f = fits_awaiting t ∙ q in
          let kept = rw (decided, f) at written in rw decided (rw (f, q) kept)
      | inr q ↦ let f = fits_awaiting t ∙ q in rw decided (rw (f, q) e)
    ]

-- The columns of a final pull request.
final_row :
    (s : String) (now : ℕ) (t : Task)
    → write_task (final_status s) (final_updates s now) t
      ≡ finished_as (if str_eq s "merged" then TaskStatus.completed else TaskStatus.closed) s now t
unfolding final_status write_task
final_row s now t = refl

finish_pull_row :
    (task_id : ℕ) (s : String) (now : ℕ) (db : Db) (t : Task)
    → UniqueTasks db
    → get_task task_id db ≡ some t
    → get_task task_id (finish_pull task_id s now db).1
      ≡ some (
          if status_eq t.status TaskStatus.awaiting_human_review
          then finished_as
              (if str_eq s "merged" then TaskStatus.completed else TaskStatus.closed)
              s
              now
              t
          else t)
finish_pull_row task_id s now db t u e =
    rw (final_row s now t) at (finish_pull_writes task_id s now db t u e)

-- An answer of the forge changes the task with the given id only while it awaits review: a
-- merged pull request completes it and a closed one closes it, each with the state, the time and
-- no error; another status or an error only stamps it with the time and the error. Task ids are
-- unique.
pub store_answer_writes :
    (task_id now : ℕ) (answer : PrAnswer) (db : Db) (t : Task)
    → UniqueTasks db
    → get_task task_id db ≡ some t
    → get_task task_id (store_answer task_id now answer db).1
      ≡ some
          (if status_eq t.status TaskStatus.awaiting_human_review then answered now answer t else t)
unfolding store_answer
store_answer_writes task_id now (error message) db t u e =
    stamp_writes task_id (some message) now db t e
store_answer_writes task_id now (status s) db t u e = elim (Bool-cases (str_eq s "merged")) [
  | inl m ↦ let row = finish_pull_row task_id s now db t u e in let kept = rw m at row in rw m kept
  | inr m ↦ elim (Bool-cases (str_eq s "closed")) [
    | inl c ↦
        let row = finish_pull_row task_id s now db t u e in let kept = rw m at row in rw (m, c) kept
    | inr c ↦ rw (m, c) (stamp_writes task_id none now db t e)
  ]
]
