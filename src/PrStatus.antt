-- ===== src/PrStatus.antt =====
-- coderus/workflow/pr_status.py: the poller that follows published pull requests.
pub mod Answer
use coderus.Base.{
  ℕ, Bool, true, false, ◌&&◌, ◌||◌, ◌≡◌, refl, String, Option, none, some, List, [], ◌∷◌, ◌==◌,
  if◌then◌else◌, str_eq, is_some, sym, ◌∙◌, Bool-cases, inl, inr,
}
use coderus.Base.Table.{select_where}
use coderus.Store.{
  TaskStatus, status_eq, status_in, running_task_states, Task, Action, return, get, pure, commit_if,
  ◌>>=◌, ◌>>◌,
}
use coderus.Store.Tables.{update_tasks}
use coderus.TaskState.{TaskUpdates, no_updates, assign, cas_task_status, write_task}
use coderus.TaskState.Graph.{IsOwned, is_edge, is_claimed}
use coderus.TaskState.Invariant.{Limits, update_tasks-Inv}
use coderus.TaskState.Keeps.{
  Keeps, cas-Keeps, bind-Keeps, then-Keeps, get-Keeps, pure-Keeps, if-Keeps, commit_if-Keeps,
  status_in-single,
}

-- What the forge says of one pull request: its status, or the text of an exception.
pub data PrAnswer : Type 0 where
  status : String → PrAnswer
  error : String → PrAnswer

abbrev is_awaiting : ℕ → Task → Bool
is_awaiting task_id t = t.id == task_id && status_eq t.status TaskStatus.awaiting_human_review

-- The row is stamped if it still awaits review.
unfoldable pub stamp : ℕ → Option String → ℕ → Action (Unit {0})
stamp task_id message now db = (
  return tt,
  update_tasks (is_awaiting task_id)
      (λ t. record t { pr_status_error = message; pr_status_checked_at = some now }) db,
)

unfoldable pub final_status : String → TaskStatus
final_status s = if str_eq s "merged" then TaskStatus.completed else TaskStatus.closed

abbrev pub final_updates : String → ℕ → TaskUpdates
final_updates s now = record no_updates {
  pr_state = assign (some s);
  pr_status_error = assign none;
  pr_status_checked_at = assign (some now);
  finished_at = assign (some now);
}

unfoldable pub finish_pull : ℕ → String → ℕ → Action (Unit {0})
finish_pull task_id s now =
    commit_if (
      cas_task_status task_id (TaskStatus.awaiting_human_review ∷ []) (final_status s)
        (final_updates s now) none "system")
    >> pure tt

-- The body of the loop of `tick`, once the forge has answered.
unfoldable pub store_answer : ℕ → ℕ → PrAnswer → Action (Unit {0})
store_answer task_id now (error message) = stamp task_id (some message) now
store_answer task_id now (status s) =
    if str_eq s "merged" || str_eq s "closed"
    then finish_pull task_id s now
    else stamp task_id none now

-- The rows that `tick` reads.
unfoldable pub is_polled : Task → Bool
is_polled t = status_eq t.status TaskStatus.awaiting_human_review && is_some t.pr_number

-- No answer where the forge does not support the question.
unfoldable pub poll_one : ℕ → Task → Option PrAnswer → Action (Unit {0})
poll_one now t none = pure tt
poll_one now t (some answer) = store_answer t.id now answer

-- The loop of `tick`: `ask` is one question to the forge, with what other sessions commit before
-- it answers.
unfoldable pub poll_all : (Task → Action (Option PrAnswer)) → ℕ → List Task → Action (Unit {0})
poll_all ask now [] = pure tt
poll_all ask now (t ∷ ts) = (ask t >>= poll_one now t) >> poll_all ask now ts

-- `tick`
unfoldable pub poll : (Task → Action (Option PrAnswer)) → ℕ → Action (Unit {0})
poll ask now = get >>= λ db. poll_all ask now (select_where is_polled db.tasks)

stamp-Keeps :
    {l : Limits} (task_id : ℕ) (message : Option String) (now : ℕ)
    → Keeps l (stamp task_id message now)
unfolding stamp
stamp-Keeps task_id message now = record {
  apply = λ db. update_tasks-Inv _ _ db (record {
    id = λ t. refl;
    status = λ t. refl;
    claim_token = λ t. refl;
    created_by = λ t. refl;
  });
}

final_edge : (s : String) → is_edge TaskStatus.awaiting_human_review (final_status s) ≡ true
unfolding final_status is_edge
final_edge s = elim (Bool-cases (str_eq s "merged")) [ inl e ↦ rw e refl | inr e ↦ rw e refl ]

final_idle : (s : String) → is_claimed (final_status s) ≡ false
unfolding final_status is_claimed
final_idle s = elim (Bool-cases (str_eq s "merged")) [ inl e ↦ rw e refl | inr e ↦ rw e refl ]

final_rests : (s : String) → status_in running_task_states (final_status s) ≡ false
unfolding final_status status_in
final_rests s = elim (Bool-cases (str_eq s "merged")) [ inl e ↦ rw e refl | inr e ↦ rw e refl ]

-- A task that no worker holds stays without a token.
final_owner :
    (s : String) (now : ℕ) (c : Task)
    → IsOwned c
    → c.status ≡ TaskStatus.awaiting_human_review
    → IsOwned (write_task (final_status s) (final_updates s now) c)
unfolding write_task is_claimed
final_owner s now c owned e = owned ∙ rw e refl ∙ sym (final_idle s)

finish_pull-Keeps :
    {l : Limits} (task_id : ℕ) (s : String) (now : ℕ) → Keeps l (finish_pull task_id s now)
unfolding finish_pull
finish_pull-Keeps task_id s now =
    then-Keeps _ _
      (commit_if-Keeps _ (
        cas-Keeps task_id TaskStatus.awaiting_human_review [] (final_status s) (final_updates s now)
          none "system"
          λ c owned within fits.
            let e = status_in-single TaskStatus.awaiting_human_review c.status within in
            (rw e (final_edge s), final_owner s now c owned e, λ runs. cc (final_rests s))))
      (pure-Keeps tt)

pub store_answer-Keeps :
    {l : Limits} (task_id now : ℕ) (answer : PrAnswer) → Keeps l (store_answer task_id now answer)
unfolding store_answer
store_answer-Keeps task_id now (error message) = stamp-Keeps task_id (some message) now
store_answer-Keeps task_id now (status s) =
    if-Keeps (str_eq s "merged" || str_eq s "closed") _ _ (λ _. finish_pull-Keeps task_id s now)
      (λ _. stamp-Keeps task_id none now)

poll_one-Keeps :
    {l : Limits} (now : ℕ) (t : Task) (answer : Option PrAnswer) → Keeps l (poll_one now t answer)
unfolding poll_one
poll_one-Keeps now t none = pure-Keeps tt
poll_one-Keeps now t (some answer) = store_answer-Keeps t.id now answer

module _ {l : Limits} (ask : Task → Action (Option PrAnswer)) (now : ℕ)
    (asked : (t : Task) → Keeps l (ask t)) where
  poll_all-Keeps : (ts : List Task) → Keeps l (poll_all ask now ts)
  unfolding poll_all
  poll_all-Keeps [] = pure-Keeps tt
  poll_all-Keeps (t ∷ ts) =
      then-Keeps _ _ (bind-Keeps _ _ (asked t) (poll_one-Keeps now t)) (poll_all-Keeps ts)

  pub poll-Keeps : Keeps l (poll ask now)
  unfolding poll
  poll-Keeps = bind-Keeps _ _ get-Keeps (λ db. poll_all-Keeps _)
