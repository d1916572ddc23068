-- ===== src/Commands/Outcome.antt =====
-- What a user's commands do to a task, on every branch.
use coderus.Base.{
  ℕ, Bool, true, false, ◌||◌, ◌≡◌, refl, none, some, [], ◌∷◌, ◌==◌, if◌then◌else◌, arith,
  Bool-cases, inl, inr, str_eq,
}
use coderus.Store.{
  TaskStatus, status_eq, status_in, running_task_states, Task, User, Db, Result, return, raise,
  conflict, forbidden, pure, throw, transaction, settle, ◌>>=◌, ◌>>◌,
}
use coderus.Store.Tables.{get_task, get_user}
use coderus.TaskState.{TaskUpdates, no_updates, token_matches}
use coderus.TaskState.Cas.{UniqueTasks, moved_db}
use coderus.TaskState.Decision.{fits, cas_decides}
use coderus.Commands.{
  permitted, owned_task, transition, finish_at, cancel_task, request_cancel, close_task, close,
  closable_task_statuses,
}

-- Whether the actor may act on the task: an admin may, and the task's creator.
abbrev pub may_act : User → Task → Bool
may_act actor t = str_eq actor.role "admin" || (t.created_by == actor.id)

fits_status : (t : Task) → fits (t.status ∷ []) none t ≡ true
unfolding status_in token_matches
fits_status t = ground arith

-- A move from the status that the task has.
transition_lem :
    (task_id : ℕ) (new_status : TaskStatus) (updates : TaskUpdates) (db : Db) (t : Task)
    → UniqueTasks db
    → get_task task_id db ≡ some t
    → transition task_id t.status new_status updates db
      ≡ (return tt, moved_db task_id new_status updates none "system" t db)
unfolding transition ◌>>=◌ pure
transition_lem task_id new_status updates db t u e =
    rw (cas_decides task_id t.status [] new_status updates none "system" db t u e)
      (rw (fits_status t) refl)

abbrev pub cancel_result : ℕ → ℕ → Db → Task → Result Bool × Db
cancel_result task_id now db t =
    if status_eq t.status TaskStatus.queued
    then (
      return false,
      moved_db task_id TaskStatus.cancelled (finish_at (some now)) none "system" t db,
    )
    else (if status_in running_task_states t.status
        then (return true, moved_db task_id TaskStatus.cancelling no_updates none "system" t db)
        else (raise conflict, db))

cancel_task_lem :
    (task_id now : ℕ) (db : Db) (t : Task)
    → UniqueTasks db
    → get_task task_id db ≡ some t
    → cancel_task task_id now t db ≡ cancel_result task_id now db t
unfolding cancel_task ◌>>◌ ◌>>=◌ pure throw
cancel_task_lem task_id now db t u e = elim (Bool-cases (status_eq t.status TaskStatus.queued)) [
  | inl q ↦ rw (q, transition_lem task_id TaskStatus.cancelled (finish_at (some now)) db t u e) refl
  | inr q ↦ elim (Bool-cases (status_in running_task_states t.status)) [
    | inl r ↦ rw (q, r, transition_lem task_id TaskStatus.cancelling no_updates db t u e) refl
    | inr r ↦ rw (q, r) refl
  ]
]

-- The transaction keeps what the block gives: a block that raises has changed nothing.
settled_task :
    (task_id now : ℕ) (db : Db) (t : Task)
    → UniqueTasks db
    → get_task task_id db ≡ some t
    → settle db (cancel_task task_id now t db).0 (cancel_task task_id now t db).1
      ≡ cancel_result task_id now db t
settled_task task_id now db t u e =
    rw (cancel_task_lem task_id now db t u e)
      (settled (status_eq t.status TaskStatus.queued) (status_in running_task_states t.status) _ _)
  where
    settled :
        (b c : Bool)
        → (x y : Db)
        → let r =
            (if◌then◌else◌ {A = Result Bool × Db} b
              (return false, x)
              (if c then (return true, y) else (raise conflict, db))) in
          settle db r.0 r.1 ≡ r
    settled true c x y = refl
    settled false true x y = refl
    settled false false x y = refl

-- A cancellation of a task that is there, by a user who is there, is refused as forbidden unless
-- the user is an admin or created the task; a queued task becomes `cancelled` with no signal to
-- the runner, a running one `cancelling` with a signal, and any other is a conflict. A refusal
-- changes nothing. Task ids are unique.
pub request_cancel_decides :
    (task_id actor_id now : ℕ) (db : Db) (t : Task) (actor : User)
    → UniqueTasks db
    → get_task task_id db ≡ some t
    → get_user actor_id db ≡ some actor
    → request_cancel task_id actor_id now db
      ≡ (if may_act actor t then cancel_result task_id now db t else (raise forbidden, db))
unfolding request_cancel transaction owned_task permitted ◌>>=◌
request_cancel_decides task_id actor_id now db t actor u e a =
    elim (Bool-cases (str_eq actor.role "admin")) [
      | inl r ↦ rw (e, a, r) (settled_task task_id now db t u e)
      | inr r ↦ elim (Bool-cases (t.created_by == actor.id)) [
        | inl o ↦ rw (e, a, r, o) (settled_task task_id now db t u e)
        | inr o ↦ rw (e, a, r, o) refl
      ]
    ]

abbrev pub close_result : ℕ → ℕ → Db → Task → Result (Unit {0}) × Db
close_result task_id now db t =
    if status_in closable_task_statuses t.status
    then (
      return tt,
      moved_db task_id TaskStatus.dismissed (finish_at (some now)) none "system" t db,
    )
    else (raise conflict, db)

settled_close :
    (task_id now : ℕ) (db : Db) (t : Task)
    → UniqueTasks db
    → get_task task_id db ≡ some t
    → settle db (close_task task_id now t db).0 (close_task task_id now t db).1
      ≡ close_result task_id now db t
unfolding close_task throw
settled_close task_id now db t u e = elim (Bool-cases (status_in closable_task_statuses t.status)) [
  | inl q ↦ rw (q, transition_lem task_id TaskStatus.dismissed (finish_at (some now)) db t u e) refl
  | inr q ↦ rw q refl
]

-- A user who is an admin or created the task dismisses it where its status is closable; any
-- other status is a conflict, any other user is forbidden, and a refusal changes nothing. Task
-- ids are unique.
pub close_decides :
    (task_id actor_id now : ℕ) (db : Db) (t : Task) (actor : User)
    → UniqueTasks db
    → get_task task_id db ≡ some t
    → get_user actor_id db ≡ some actor
    → close task_id actor_id now db
      ≡ (if may_act actor t then close_result task_id now db t else (raise forbidden, db))
unfolding close transaction owned_task permitted ◌>>=◌
close_decides task_id actor_id now db t actor u e a =
    elim (Bool-cases (str_eq actor.role "admin")) [
      | inl r ↦ rw (e, a, r) (settled_close task_id now db t u e)
      | inr r ↦ elim (Bool-cases (t.created_by == actor.id)) [
        | inl o ↦ rw (e, a, r, o) (settled_close task_id now db t u e)
        | inr o ↦ rw (e, a, r, o) refl
      ]
    ]
