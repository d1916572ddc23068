-- ===== src/Orchestrator/Release.antt =====
-- What a worker leaves behind at its end: a task that its token does not hold any more.
use coderus.Base.{
  ℕ, ◌≡◌, refl, sym, ◌∙◌, Bool, true, false, not, ◌&&◌, String, Option, none, some, List, [], ◌∷◌,
  ◌==◌, column_eq, is_some, Bool-cases, inl, inr, arith,
}
use coderus.Base.Table.{All, find_where-All}
use coderus.Store.{
  TaskStatus, status_eq, status_in, status_dec, terminal_task_states, Task, Db, get, pure,
  commit_if, ◌>>=◌, ◌>>◌,
}
use coderus.Store.Tables.{get_task}
use coderus.TaskState.{TaskUpdates, token_matches, write_task}
use coderus.TaskState.Cas.{UniqueTasks, moved_db}
use coderus.TaskState.Decision.{fits, cas_decides, cas_writes}
use coderus.TaskState.Graph.{IsOwned, is_claimed}
use coderus.TaskState.Invariant.{Limits, Inv}
use coderus.Orchestrator.{
  cleared, cancel_held, settled_states, failed_updates, reopen_issue, fail_held, if_held, fail,
  interrupted_target, interrupted_updates, interrupt_held, interrupt,
}

-- The task is there, and the token is not its own.
abbrev pub IsReleased : ℕ → String → Db → Type 0
IsReleased task_id token db =
    (t : Task) × (get_task task_id db ≡ some t) × (column_eq t.claim_token token ≡ false)

claimed_open : (s : TaskStatus) → is_claimed s ≡ true → status_in terminal_task_states s ≡ false
unfolding is_claimed status_in status_dec
claimed_open TaskStatus.queued h = cc
claimed_open TaskStatus.preparing h = refl
claimed_open TaskStatus.developer_working h = refl
claimed_open TaskStatus.reviewing h = refl
claimed_open TaskStatus.developer_revising h = refl
claimed_open TaskStatus.sealing h = refl
claimed_open TaskStatus.publishing h = refl
claimed_open TaskStatus.awaiting_human_review h = cc
claimed_open TaskStatus.cancelling h = refl
claimed_open TaskStatus.completed h = cc
claimed_open TaskStatus.closed h = cc
claimed_open TaskStatus.dismissed h = cc
claimed_open TaskStatus.failed h = cc
claimed_open TaskStatus.cancelled h = cc
claimed_open TaskStatus.manual_intervention h = cc

held_some : (o : Option String) (token : String) → column_eq o token ≡ true → is_some o ≡ true
held_some none token h = cc
held_some (some s) token h = refl

held_open :
    (t : Task) (token : String)
    → IsOwned t
    → column_eq t.claim_token token ≡ true
    → status_in terminal_task_states t.status ≡ false
held_open t token owned h = claimed_open t.status (sym owned ∙ held_some t.claim_token token h)

held_fits :
    (t : Task) (token : String)
    → column_eq t.claim_token token ≡ true
    → fits (t.status ∷ []) (some token) t ≡ true
unfolding status_in token_matches
held_fits t token h = ground (arith, h)

fits_cancelling :
    (t : Task) (token : String)
    → column_eq t.claim_token token ≡ true
    → fits (TaskStatus.cancelling ∷ []) (some token) t ≡ false
    → status_in terminal_task_states t.status ≡ false
    → status_in settled_states t.status ≡ false
unfolding status_in token_matches
fits_cancelling t token h f going = ground (arith, h, f, going)

get_task-reopen_issue :
    (task_id : ℕ) (t : Task) (changed : Bool) (db : Db)
    → get_task task_id (reopen_issue t changed db).1 ≡ get_task task_id db
unfolding reopen_issue get_task pure
get_task-reopen_issue task_id t changed db =
    elim (Bool-cases (changed && not (is_some t.commit_sha))) [
      | inl c ↦ rw c refl
      | inr c ↦ rw c refl
    ]

module _ (task_id : ℕ) (token : String) (now : ℕ) (db : Db) (t : Task) (unique : UniqueTasks db)
    (found : get_task task_id db ≡ some t) where
  moved_found :
      (s : TaskStatus) (more : List TaskStatus) (new_status : TaskStatus) (updates : TaskUpdates)
      (actor : String)
      → fits (s ∷ more) (some token) t ≡ true
      → get_task task_id (moved_db task_id new_status updates (some token) actor t db)
        ≡ some (write_task new_status updates t)
  moved_found s more new_status updates actor f =
      let decided =
        cas_decides task_id s more new_status updates (some token) actor db t unique found in
      let wrote =
        cas_writes task_id s more new_status updates (some token) actor db t unique found in
      rw (decided, f) at wrote

  interrupted_token :
      column_eq
        (write_task (interrupted_target t.status) (interrupted_updates t now) t).claim_token
        token
      ≡ false
  unfolding write_task
  interrupted_token = elim (Bool-cases (status_eq t.status TaskStatus.cancelling)) [
    | inl c ↦ rw c refl
    | inr c ↦ rw c refl
  ]

  interrupt_releases : IsReleased task_id token (interrupt task_id token now db).1
  unfolding interrupt interrupt_held if_held get pure ◌>>=◌ ◌>>◌
  interrupt_releases = elim (Bool-cases (column_eq t.claim_token token)) [
    | inl h ↦
        let f = held_fits t token h in
        let target = interrupted_target t.status in
        let updates = interrupted_updates t now in
        let decided =
          cas_decides task_id t.status [] target updates (some token) "orchestrator" db t unique
            found in
        let moved = moved_found t.status [] target updates "orchestrator" f in
        rw (found, h, decided, f) (write_task target updates t, moved, interrupted_token)
    | inr h ↦ rw (found, h) (t, found, h)
  ]

  module _ (owned : IsOwned t) (code summary : String) where
    fail_releases : IsReleased task_id token (fail task_id token code summary now db).1
    unfolding fail fail_held cancel_held commit_if if_held get pure ◌>>=◌ write_task
    fail_releases = elim (Bool-cases (column_eq t.claim_token token)) [
      | inl h ↦
          let stop =
            cas_decides task_id TaskStatus.cancelling [] TaskStatus.cancelled (cleared now)
              (some token) "orchestrator" db t unique found in
          elim (Bool-cases (fits (TaskStatus.cancelling ∷ []) (some token) t)) [
            | inl c ↦
                let moved =
                  moved_found TaskStatus.cancelling [] TaskStatus.cancelled (cleared now)
                    "orchestrator" c in
                rw (found, h, stop, c)
                  (write_task TaskStatus.cancelled (cleared now) t, moved, refl)
            | inr c ↦
                let f = held_fits t token h in
                let unsettled = fits_cancelling t token h c (held_open t token owned h) in
                let updates = failed_updates code summary now in
                let decided =
                  cas_decides task_id t.status [] TaskStatus.failed updates (some token)
                    "orchestrator" db t unique found in
                let moved = moved_found t.status [] TaskStatus.failed updates "orchestrator" f in
                rw (found, h, stop, c, unsettled, decided, f)
                  (
                    write_task TaskStatus.failed updates t,
                    get_task-reopen_issue task_id t true _ ∙ moved,
                    refl,
                  )
          ]
      | inr h ↦ rw (found, h) (t, found, h)
    ]

found_owned :
    (task_id : ℕ) (db : Db) (t : Task)
    → All IsOwned db.tasks
    → get_task task_id db ≡ some t
    → IsOwned t
unfolding get_task
found_owned task_id db t owned e =
    (find_where-All IsOwned (λ t. t.id == task_id) db.tasks owned e).0

-- On a database with the invariant, after a worker has handled an exception by `_fail`, or a
-- cancellation by `_interrupt`, the task with its id is there and its token does not hold it any
-- more, whatever its status was.
pub handlers_release :
    {l : Limits} (task_id : ℕ) (token code summary : String) (now : ℕ) (db : Db) (t : Task)
    → Inv l db
    → get_task task_id db ≡ some t
    → IsReleased task_id token (fail task_id token code summary now db).1
      × IsReleased task_id token (interrupt task_id token now db).1
handlers_release task_id token code summary now db t v found =
    let owned = found_owned task_id db t v.owned found in
    (
      fail_releases task_id token now db t v.unique found owned code summary,
      interrupt_releases task_id token now db t v.unique found,
    )
