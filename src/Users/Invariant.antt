-- ===== src/Users/Invariant.antt =====
-- Switching a user on or off keeps the invariant of the tables.
use coderus.Base.{
  ℕ, Bool, true, false, not, ◌≡◌, refl, Option, none, some, List, [], ◌∷◌, ◌++◌, ◌==◌, str_eq,
  arith,
}
use coderus.Base.Table.{All, select_where-All}
use coderus.Store.{TaskStatus, status_eq, status_dec, status_in, running_task_states, Task, User}
use coderus.Store.Tables.{get_user}
use coderus.TaskState.{no_updates, assign, write_task}
use coderus.TaskState.Graph.{IsOwned, is_edge, is_claimed}
use coderus.TaskState.Invariant.{Limits, same_tables-Inv}
use coderus.TaskState.Keeps.{
  Keeps, cas-Keeps, bind-Keeps, then-Keeps, get-Keeps, pure-Keeps, if-Keeps, transaction-Keeps,
  status_in-single,
}
use coderus.Users.{
  http_error, login, toggled, flip_user, is_stopped_by, stop_task, stop_all, toggle_target,
  toggle_found, toggle_user,
}

module _ {l : Limits} where
  stop_task-Keeps :
      (now user_id : ℕ) (t : Task) → is_stopped_by user_id t ≡ true → Keeps l (stop_task now t)
  unfolding stop_task
  stop_task-Keeps now user_id t h =
      if-Keeps (status_eq t.status TaskStatus.queued) _ _
        (λ q.
          then-Keeps _ _
            (cas-Keeps t.id TaskStatus.queued [] TaskStatus.cancelled _ none "system"
              (λ c owned within fits.
                let same = status_in-single TaskStatus.queued c.status within in
                (rw same edge_queued, owned_cancelled c owned same, λ runs. cc idle_cancelled)))
            (pure-Keeps []))
        (λ q.
          bind-Keeps _ _
            (cas-Keeps t.id t.status [] TaskStatus.cancelling no_updates none "system"
              (λ c owned within fits.
                let same = status_in-single t.status c.status within in
                let runs = running q in
                (rw same (edge_running runs), owned_cancelling c owned same runs, λ moved. cc)))
            (λ changed. if-Keeps changed _ _ (λ _. pure-Keeps (t.id ∷ [])) (λ _. pure-Keeps [])))
    where
      running :
          status_eq t.status TaskStatus.queued ≡ false
          → status_in running_task_states t.status ≡ true
      running q = ground arith

      edge_queued : is_edge TaskStatus.queued TaskStatus.cancelled ≡ true
      edge_queued = unfold status_dec is_edge in refl

      edge_running :
          status_in running_task_states t.status ≡ true
          → is_edge t.status TaskStatus.cancelling ≡ true
      edge_running q = unfold status_in is_edge in ground arith

      idle_cancelled : status_in running_task_states TaskStatus.cancelled ≡ false
      idle_cancelled = unfold status_in in refl

      idle_cancelling : status_in running_task_states TaskStatus.cancelling ≡ false
      idle_cancelling = unfold status_in in refl

      owned_cancelled :
          (c : Task)
          → IsOwned c
          → c.status ≡ TaskStatus.queued
          → IsOwned (
              write_task TaskStatus.cancelled
                (record no_updates { finished_at = assign (some now) })
                c)
      owned_cancelled c owned same = unfold status_dec is_claimed write_task in ground arith

      owned_cancelling :
          (c : Task)
          → IsOwned c
          → c.status ≡ t.status
          → status_in running_task_states t.status ≡ true
          → IsOwned (write_task TaskStatus.cancelling no_updates c)
      owned_cancelling c owned same q = unfold status_in is_claimed write_task in ground arith

  stop_all-Keeps :
      (now user_id : ℕ) (ts : List Task)
      → All (λ t. is_stopped_by user_id t ≡ true) ts
      → Keeps l (stop_all now ts)
  unfolding stop_all
  stop_all-Keeps now user_id [] h = pure-Keeps []
  stop_all-Keeps now user_id (t ∷ ts) h =
      bind-Keeps _ _ (stop_task-Keeps now user_id t h.0) (λ ids.
        bind-Keeps _ _ (stop_all-Keeps now user_id ts h.1) (λ rest. pure-Keeps (ids ++ rest)))

  flip_user-Keeps : (user_id : ℕ) → Keeps l (flip_user user_id)
  flip_user-Keeps user_id = record {
    apply = λ db v. unfold flip_user in same_tables-Inv db _ refl refl v;
  }

  toggle_target-Keeps : (now : ℕ) (target : User) → Keeps l (toggle_target now target)
  unfolding toggle_target
  toggle_target-Keeps now target = then-Keeps _ _ (flip_user-Keeps target.id) (
      if-Keeps target.is_active _ _
        (λ _. bind-Keeps _ _ get-Keeps (λ db.
          bind-Keeps _ _
            (stop_all-Keeps now target.id _ (select_where-All (is_stopped_by target.id) db.tasks))
            (λ ids. pure-Keeps (toggled ids))))
        (λ _. pure-Keeps (toggled [])))

  toggle_found-Keeps :
      (now : ℕ) (current : User) (found : Option User) → Keeps l (toggle_found now current found)
  unfolding toggle_found
  toggle_found-Keeps now current none = pure-Keeps (http_error 404)
  toggle_found-Keeps now current (some target) =
      if-Keeps (target.id == current.id) _ _ (λ _. pure-Keeps (http_error 409))
        (λ _. toggle_target-Keeps now target)

  pub toggle_user-Keeps :
      (current : Option User) (csrf_fits : Bool) (user_id now : ℕ)
      → Keeps l (toggle_user current csrf_fits user_id now)
  unfolding toggle_user
  toggle_user-Keeps none csrf_fits user_id now = pure-Keeps login
  toggle_user-Keeps (some current) csrf_fits user_id now =
      if-Keeps (not (str_eq current.role "admin")) _ _ (λ _. pure-Keeps (http_error 403))
        (λ _.
          if-Keeps csrf_fits _ _
            (λ _. transaction-Keeps _ (
              bind-Keeps _ _ get-Keeps
                (λ db. toggle_found-Keeps now current (get_user user_id db))))
            (λ _. pure-Keeps (http_error 400)))
