-- ===== src/Users.antt =====
-- coderus/web/routes/users.py: an admin switches a user on or off, which stops the tasks of a user
-- that is switched off.
pub mod Invariant
use coderus.Base.{
  ℕ, Bool, true, false, not, ◌&&◌, ◌||◌, Option, none, some, List, [], ◌∷◌, ◌++◌, ◌==◌,
  if◌then◌else◌, str_eq,
}
use coderus.Base.Table.{select_where, update_where}
use coderus.Store.{
  TaskStatus, status_eq, status_in, running_task_states, Task, User, Db, Action, return, get, pure,
  transaction, ◌>>=◌, ◌>>◌,
}
use coderus.Store.Tables.{get_user}
use coderus.TaskState.{no_updates, assign, cas_task_status}

-- The answers of `toggle_user`: the login page, an error by its HTTP status, or the ids of the
-- running tasks that are signalled.
pub data Toggled : Type 0 where
  login : Toggled
  http_error : ℕ → Toggled
  toggled : List ℕ → Toggled

-- `target.is_active = not target.is_active`
unfoldable pub flip_user : ℕ → Action (Unit {0})
flip_user user_id db = (
  return tt,
  record db {
    users =
        update_where (λ u. u.id == user_id) (λ u. record u { is_active = not u.is_active })
          db.users;
  },
)

-- The tasks that `toggle_user` selects.
abbrev pub is_stopped_by : ℕ → Task → Bool
is_stopped_by user_id t =
    (t.created_by == user_id)
    && (status_eq t.status TaskStatus.queued || status_in running_task_states t.status)

-- The body of its loop, with the ids to signal.
unfoldable pub stop_task : ℕ → Task → Action (List ℕ)
stop_task now t =
    if status_eq t.status TaskStatus.queued
    then (cas_task_status t.id (TaskStatus.queued ∷ []) TaskStatus.cancelled
          (record no_updates { finished_at = assign (some now) }) none "system"
        >> pure [])
    else (cas_task_status t.id (t.status ∷ []) TaskStatus.cancelling no_updates none "system"
        >>= λ changed. if changed then pure (t.id ∷ []) else pure [])

unfoldable pub stop_all : ℕ → List Task → Action (List ℕ)
stop_all now [] = pure []
stop_all now (t ∷ ts) = stop_task now t >>= λ ids. stop_all now ts >>= λ rest. pure (ids ++ rest)

unfoldable pub toggle_target : ℕ → User → Action Toggled
toggle_target now target =
    flip_user target.id
    >> (if target.is_active
        then (get >>= λ db.
            stop_all now (select_where (is_stopped_by target.id) db.tasks) >>= λ ids.
            pure (toggled ids))
        else pure (toggled []))

unfoldable pub toggle_found : ℕ → User → Option User → Action Toggled
toggle_found now current none = pure (http_error 404)
toggle_found now current (some target) =
    if target.id == current.id then pure (http_error 409) else toggle_target now target

-- `toggle_user`: `current` is the user of the request, and `csrf_fits` the check of its token.
unfoldable pub toggle_user : Option User → Bool → ℕ → ℕ → Action Toggled
toggle_user none csrf_fits user_id now = pure login
toggle_user (some current) csrf_fits user_id now =
    if not (str_eq current.role "admin")
    then pure (http_error 403)
    else (if csrf_fits
        then transaction (get >>= λ db. toggle_found now current (get_user user_id db))
        else pure (http_error 400))
