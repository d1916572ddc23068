-- ===== src/Orchestrator/Invariant.antt =====
-- The worker's transactions keep the invariant of the task tables: each follows an edge of the
-- state machine, and gives the claim up exactly where the task leaves the worker.
use coderus.Base.{
  ℕ, Bool, true, false, not, ◌&&◌, ◌||◌, ◌≡◌, refl, sym, ap, ◌∙◌, String, Option, none, some, List,
  [], ◌∷◌, arith, column_eq, is_some, ◌==◌, Bool-cases, inl, inr,
}
use coderus.Base.Table.{find_where, find_where-true}
use coderus.Store.{
  TaskStatus, running_task_states, status_in, status_eq, Task, Db, Action, claim_lost,
}
use coderus.Store.Tables.{get_task}
use coderus.TaskState.{TaskUpdates, no_updates, cas_task_status, write_task, token_matches}
use coderus.Orchestrator.{
  status_expected, report_status, set_status_from, set_status, holds, write_held, write_prepared,
  Prepared, set_prepared, Published, published_updates, published_target, awaits,
  awaiting_review_of, awaiting_review, cancel_held, cleared, mark_cancelled, failed_updates,
  settled_states, reopen_issue, fail_held, if_held, fail, intervene_held, manual_intervention,
  interrupted_target, interrupted_updates, interrupt_held, interrupt, mark_feedback_processed,
  note_notification,
}
use coderus.TaskState.Graph.{IsOwned, is_claimed, is_edge}
use coderus.TaskState.Invariant.{KeepsState, Limits, same_tables-Inv, update_tasks-Inv}
use coderus.TaskState.Keeps.{
  Keeps, bind-Keeps, cas-Keeps, commit_if-Keeps, get-Keeps, guard-Keeps, if-Keeps, pure-Keeps,
  read-Keeps, status_in-single, then-Keeps, throw-Keeps,
}

-- A token that fits makes the task a claimed one.
held_is_claimed :
    (token : String) (c : Task)
    → IsOwned c
    → token_matches (some token) c.claim_token ≡ true
    → is_claimed c.status ≡ true
unfolding token_matches
held_is_claimed token c owned fits = ground arith

-- A move of a claimed task does not start a run.
calm_edge :
    (s t : TaskStatus)
    → is_claimed s ≡ true
    → is_edge s t ≡ true
    → status_in running_task_states t ≡ true
    → status_in running_task_states s ≡ true
unfolding is_claimed is_edge status_in
calm_edge s t claimed edge runs = ground arith

-- A conditional update by a token that follows an edge from each claimed status it may start in.
module _ (task_id : ℕ) (s : TaskStatus) (more : List TaskStatus) (new_status : TaskStatus)
    (updates : TaskUpdates) (token : String) (actor : String) where
  pub held_cas-Keeps :
      {l : Limits}
      → ((c : Task)
          → is_claimed c.status ≡ true
          → status_in (s ∷ more) c.status ≡ true
          → is_some c.claim_token ≡ true
          → (is_edge c.status new_status ≡ true) × IsOwned (write_task new_status updates c))
      → Keeps l (cas_task_status task_id (s ∷ more) new_status updates (some token) actor)
  held_cas-Keeps h =
      cas-Keeps task_id s more new_status updates (some token) actor λ c owned within fits.
        let claimed = held_is_claimed token c owned fits in
        let (edge, owner) = h c claimed within (owned ∙ claimed) in
        (edge, owner, calm_edge c.status new_status claimed edge)

report_status-Keeps :
    {l : Limits} (task_id : ℕ) (token : String) (changed : Bool)
    → Keeps l (report_status task_id token changed)
unfolding report_status
report_status-Keeps task_id token true = pure-Keeps tt
report_status-Keeps task_id token false = read-Keeps _

-- The rows of `_STATUS_EXPECTED` are edges between claimed statuses.
set_status_from-Keeps :
    {l : Limits} (task_id : ℕ) (status s : TaskStatus) (more : List TaskStatus) (token : String)
    → status_expected status ≡ some (s ∷ more)
    → Keeps l (set_status_from task_id status token (some (s ∷ more)))
unfolding set_status_from
set_status_from-Keeps task_id status s more token e =
    bind-Keeps _ _
      (commit_if-Keeps _
        (held_cas-Keeps task_id s more status no_updates token "orchestrator" (table status e)))
      (report_status-Keeps task_id token)
  where
    table :
        (status : TaskStatus)
        → status_expected status ≡ some (s ∷ more)
        → (c : Task) → is_claimed c.status ≡ true
        → status_in (s ∷ more) c.status ≡ true
        → is_some c.claim_token ≡ true
        → (is_edge c.status status ≡ true) × IsOwned (write_task status no_updates c)
    table status e c claimed within token =
        unfold status_expected is_claimed status_in is_edge write_task in ground arith

status_expected-ne-nil : (status : TaskStatus) → status_expected status ≡ some [] → ⊥
unfolding status_expected
status_expected-ne-nil status e = ground arith

pub set_status-Keeps :
    {l : Limits} (task_id : ℕ) (status : TaskStatus) (token : String)
    → Keeps l (set_status task_id status token)
unfolding set_status
set_status-Keeps {l} task_id status token = go (status_expected status) refl
  where
    go :
        (o : Option (List TaskStatus))
        → status_expected status ≡ o
        → Keeps l (set_status_from task_id status token o)
    go none e = unfold set_status_from in throw-Keeps _ _
    go (some []) e = absurd (status_expected-ne-nil status e)
    go (some (s ∷ more)) e = set_status_from-Keeps task_id status s more token e

-- Columns other than the id, the status and the token may be written freely.
pub write_held-Keeps :
    {l : Limits} (task_id : ℕ) (status : TaskStatus) (token : String) (f : Task → Task)
    → KeepsState f
    → Keeps l (write_held task_id status token f)
unfolding write_held
write_held-Keeps task_id status token f k = record {
  apply = λ db v. update_tasks-Inv (holds task_id status token) f db k v;
}

pub set_prepared-Keeps :
    {l : Limits} (task_id : ℕ) (token : String) (prepared : Prepared)
    → Keeps l (set_prepared task_id token prepared)
unfolding set_prepared
set_prepared-Keeps task_id token prepared =
    write_held-Keeps task_id TaskStatus.preparing token (write_prepared prepared) (record {
      id = λ t. refl;
      status = λ t. refl;
      claim_token = λ t. refl;
      created_by = λ t. refl;
    })

awaiting_review_of-Keeps :
    {l : Limits} (task_id : ℕ) (token : String) (published : Published) (now : ℕ) (task : Task)
    → awaits task_id token task ≡ true
    → Keeps l (awaiting_review_of task_id token published now (some task))
unfolding awaiting_review_of
awaiting_review_of-Keeps task_id token published now task e =
    bind-Keeps _ _
      (held_cas-Keeps task_id task.status [] (published_target task.status)
        (published_updates published now) token "publisher" leaves)
      (λ changed. guard-Keeps changed claim_lost)
  where
    leaves :
        (c : Task)
        → is_claimed c.status ≡ true
        → status_in (task.status ∷ []) c.status ≡ true
        → is_some c.claim_token ≡ true
        → (is_edge c.status (published_target task.status) ≡ true)
          × IsOwned (write_task (published_target task.status) (published_updates published now) c)
    leaves c claimed within token = unfold is_claimed status_in is_edge write_task in ground arith

awaits→ :
    {l : Limits} (task_id : ℕ) (token : String) (db : Db) (now : ℕ) (published : Published)
    → (o : Option Task) → find_where (awaits task_id token) db.tasks ≡ o
    → Keeps l (awaiting_review_of task_id token published now o)
awaits→ task_id token db now published none e = unfold awaiting_review_of in throw-Keeps _ _
awaits→ task_id token db now published (some task) e =
    awaiting_review_of-Keeps task_id token published now task
      (find_where-true (awaits task_id token) db.tasks e)

pub awaiting_review-Keeps :
    {l : Limits} (task_id : ℕ) (token : String) (published : Published) (now : ℕ)
    → Keeps l (awaiting_review task_id token published now)
unfolding awaiting_review
awaiting_review-Keeps task_id token published now =
    bind-Keeps _ _ get-Keeps
      λ db. awaits→ task_id token db now published (find_where (awaits task_id token) db.tasks) refl

cancel_held-Keeps :
    {l : Limits} (task_id : ℕ) (token : String) (now : ℕ) → Keeps l (cancel_held task_id token now)
unfolding cancel_held
cancel_held-Keeps task_id token now = commit_if-Keeps _ (
    held_cas-Keeps task_id TaskStatus.cancelling [] TaskStatus.cancelled (cleared now) token
      "orchestrator" stops)
  where
    stops :
        (c : Task)
        → is_claimed c.status ≡ true
        → status_in (TaskStatus.cancelling ∷ []) c.status ≡ true
        → is_some c.claim_token ≡ true
        → (is_edge c.status TaskStatus.cancelled ≡ true)
          × IsOwned (write_task TaskStatus.cancelled (cleared now) c)
    stops c claimed within token = unfold is_claimed status_in is_edge write_task in ground arith

pub mark_cancelled-Keeps :
    {l : Limits} (task_id : ℕ) (token : String) (now : ℕ)
    → Keeps l (mark_cancelled task_id token now)
unfolding mark_cancelled
mark_cancelled-Keeps task_id token now =
    then-Keeps _ _ (cancel_held-Keeps task_id token now) (pure-Keeps tt)

-- From any claimed status but `cancelling` the task may fail or need a person.
module _ (task_id : ℕ) (token code summary : String) (now : ℕ) (task : Task)
    (unsettled : status_in settled_states task.status ≡ false) where
  fails :
      (c : Task)
      → is_claimed c.status ≡ true
      → status_in (task.status ∷ []) c.status ≡ true
      → is_some c.claim_token ≡ true
      → (is_edge c.status TaskStatus.failed ≡ true)
        × IsOwned (write_task TaskStatus.failed (failed_updates code summary now) c)
  unfolding is_claimed status_in is_edge write_task
  fails c claimed within held = ground arith

  intervenes :
      (c : Task)
      → is_claimed c.status ≡ true
      → status_in (task.status ∷ []) c.status ≡ true
      → is_some c.claim_token ≡ true
      → (is_edge c.status TaskStatus.manual_intervention ≡ true)
        × IsOwned (write_task TaskStatus.manual_intervention (failed_updates code summary now) c)
  unfolding is_claimed status_in is_edge write_task
  intervenes c claimed within held = ground arith

reopen_issue-Keeps :
    {l : Limits} (task : Task) (changed : Bool) → Keeps l (reopen_issue task changed)
unfolding reopen_issue
reopen_issue-Keeps task changed =
    if-Keeps (changed && not (is_some task.commit_sha)) _ _
      (λ _. record { apply = λ db v. same_tables-Inv db _ refl refl v }) (λ _. pure-Keeps tt)

fail_held-Keeps :
    {l : Limits} (task_id : ℕ) (token code summary : String) (now : ℕ) (task : Task)
    → Keeps l (fail_held task_id token code summary now task)
unfolding fail_held
fail_held-Keeps task_id token code summary now task =
    bind-Keeps _ _ (cancel_held-Keeps task_id token now) λ stopped.
      if-Keeps (stopped || status_in settled_states task.status) _ _ (λ _. pure-Keeps tt)
        λ e.
          bind-Keeps _ _
            (held_cas-Keeps task_id task.status [] TaskStatus.failed
              (failed_updates code summary now) token "orchestrator"
              (fails task_id token code summary now task (second stopped _ e)))
            (reopen_issue-Keeps task)
  where
    second : (a b : Bool) → (a || b) ≡ false → b ≡ false
    second a b h = ground arith

if_held-Keeps :
    {l : Limits} (token : String) (o : Option Task) (act : Task → Action (Unit {0}))
    → ((task : Task) → Keeps l (act task))
    → Keeps l (if_held token o act)
unfolding if_held
if_held-Keeps token none act h = pure-Keeps tt
if_held-Keeps token (some task) act h =
    if-Keeps (column_eq task.claim_token token) _ _ (λ _. h task) (λ _. pure-Keeps tt)

pub fail-Keeps :
    {l : Limits} (task_id : ℕ) (token code summary : String) (now : ℕ)
    → Keeps l (fail task_id token code summary now)
unfolding fail
fail-Keeps task_id token code summary now = bind-Keeps _ _ get-Keeps λ db.
    if_held-Keeps token (get_task task_id db) _ (fail_held-Keeps task_id token code summary now)

intervene_held-Keeps :
    {l : Limits} (task_id : ℕ) (token code summary : String) (now : ℕ) (task : Task)
    → Keeps l (intervene_held task_id token code summary now task)
unfolding intervene_held
intervene_held-Keeps task_id token code summary now task =
    if-Keeps (status_in settled_states task.status) _ _ (λ _. pure-Keeps tt)
      λ e.
        then-Keeps _ _
          (held_cas-Keeps task_id task.status [] TaskStatus.manual_intervention
            (failed_updates code summary now) token "orchestrator"
            (intervenes task_id token code summary now task e))
          (pure-Keeps tt)

pub manual_intervention-Keeps :
    {l : Limits} (task_id : ℕ) (token code summary : String) (now : ℕ)
    → Keeps l (manual_intervention task_id token code summary now)
unfolding manual_intervention
manual_intervention-Keeps task_id token code summary now = bind-Keeps _ _ get-Keeps λ db.
    if_held-Keeps token (get_task task_id db) _
      (intervene_held-Keeps task_id token code summary now)

-- An interrupted task is cancelled if that was asked, and otherwise needs a person.
interrupted_edge : (s : TaskStatus) → is_claimed s ≡ true → is_edge s (interrupted_target s) ≡ true
unfolding is_claimed status_in is_edge
interrupted_edge s claimed = ground arith

unclaimed_target : (s : TaskStatus) → is_claimed (interrupted_target s) ≡ false
unfolding is_claimed
unclaimed_target s = elim (Bool-cases (status_eq s TaskStatus.cancelling)) [
  | inl e ↦ rw e refl
  | inr e ↦ rw e refl
]

gives_up :
    (task c : Task) (s : TaskStatus) (now : ℕ)
    → (write_task s (interrupted_updates task now) c).claim_token ≡ none
unfolding write_task
gives_up task c s now = ground arith

write_task-status : (s : TaskStatus) (u : TaskUpdates) (c : Task) → (write_task s u c).status ≡ s
unfolding write_task
write_task-status s u c = refl

interrupt_held-Keeps :
    {l : Limits} (task_id : ℕ) (token : String) (now : ℕ) (task : Task)
    → Keeps l (interrupt_held task_id token now task)
unfolding interrupt_held
interrupt_held-Keeps task_id token now task =
    then-Keeps _ _
      (held_cas-Keeps task_id task.status [] (interrupted_target task.status)
        (interrupted_updates task now) token "orchestrator"
        λ c claimed within _.
          let same = status_in-single task.status c.status within in
          (rw same (interrupted_edge task.status (rw same at claimed)), owner c))
      (pure-Keeps tt)
  where
    owner :
        (c : Task)
        → IsOwned (write_task (interrupted_target task.status) (interrupted_updates task now) c)
    owner c =
        ap is_some (gives_up task c (interrupted_target task.status) now)
        ∙ sym (unclaimed_target task.status)
        ∙ ap is_claimed (
            sym
              (write_task-status (interrupted_target task.status) (interrupted_updates task now) c))

pub interrupt-Keeps :
    {l : Limits} (task_id : ℕ) (token : String) (now : ℕ) → Keeps l (interrupt task_id token now)
unfolding interrupt
interrupt-Keeps task_id token now =
    bind-Keeps _ _ get-Keeps
      λ db. if_held-Keeps token (get_task task_id db) _ (interrupt_held-Keeps task_id token now)

pub mark_feedback_processed-Keeps :
    {l : Limits} (task_id : ℕ) (marked : ℕ → Bool) (now : ℕ)
    → Keeps l (mark_feedback_processed task_id marked now)
unfolding mark_feedback_processed
mark_feedback_processed-Keeps task_id marked now = record {
  apply = λ db v. same_tables-Inv db _ refl refl v;
}

pub note_notification-Keeps :
    {l : Limits} (task_id : ℕ) (text : String) → Keeps l (note_notification task_id text)
unfolding note_notification
note_notification-Keeps task_id text = record {
  apply = λ db v.
      update_tasks-Inv (λ t. t.id == task_id) (λ t. record t { failure_summary = some text }) db
        (record {
          id = λ t. refl;
          status = λ t. refl;
          claim_token = λ t. refl;
          created_by = λ t. refl;
        })
        v;
}
