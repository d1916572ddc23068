-- ===== src/Worker/RunEnds.antt =====
-- How the run of a worker ends: its exceptions are handled.
use coderus.Base.{ℕ, ◌≡◌, refl, Bool, String, Option, none, some}
use coderus.Store.{
  Db, Action, Task, Result, return, raise, Failure, worker_cancelled, status_in, pure,
}
use coderus.TaskState.Returns.{
  Returns, pure-Returns, if-Returns, bind-Returns, then-Returns, get-Returns, commit_if-Returns,
  cas-Returns,
}
use coderus.Orchestrator.{
  cancel_held, mark_cancelled, settled_states, reopen_issue, fail_held, if_held, fail,
  intervene_held, manual_intervention, interrupt_held, interrupt,
}
use coderus.Worker.Steps.{Process, rescue, atomic, fail_with, Ends, Ends-any, Ends-rescue}
use coderus.Worker.Steps as Steps
use coderus.Worker.Run.{
  RunInput, Clause, on_claim_lost, on_task_cancelled, on_cancelled, on_bad_report, on_exception,
  clause_of, handle_by, attend,
}

held-Returns :
    (token : String) (o : Option Task) (act : Task → Action (Unit {0}))
    → ((t : Task) → Returns (act t))
    → Returns (if_held token o act)
unfolding if_held
held-Returns token none act h = pure-Returns tt
held-Returns token (some t) act h = if-Returns _ (act t) (pure tt) (h t) (pure-Returns tt)

module _ (task_id : ℕ) (token : String) (now : ℕ) where
  cancel_held-Returns : Returns (cancel_held task_id token now)
  unfolding cancel_held
  cancel_held-Returns = commit_if-Returns _ (cas-Returns _ _ _ _ _ _ _)

  mark_cancelled-Returns : Returns (mark_cancelled task_id token now)
  unfolding mark_cancelled
  mark_cancelled-Returns = then-Returns _ (pure tt) cancel_held-Returns (pure-Returns tt)

  interrupt-Returns : Returns (interrupt task_id token now)
  unfolding interrupt interrupt_held
  interrupt-Returns = bind-Returns _ _ get-Returns (λ db.
      held-Returns token _ _
        (λ t. then-Returns _ (pure tt) (cas-Returns _ _ _ _ _ _ _) (pure-Returns tt)))

  manual_intervention-Returns :
      (code summary : String) → Returns (manual_intervention task_id token code summary now)
  unfolding manual_intervention intervene_held
  manual_intervention-Returns code summary = bind-Returns _ _ get-Returns (λ db.
      held-Returns token _ _ (λ t.
        if-Returns (status_in settled_states t.status) (pure tt) _ (pure-Returns tt)
          (then-Returns _ (pure tt) (cas-Returns _ _ _ _ _ _ _) (pure-Returns tt))))

  reopen-Returns : (t : Task) (b : Bool) → Returns (reopen_issue t b)
  unfolding reopen_issue
  reopen-Returns t b = if-Returns _ _ (pure tt) (λ db. (tt, refl)) (pure-Returns tt)

  fail-Returns : (code summary : String) → Returns (fail task_id token code summary now)
  unfolding fail fail_held
  fail-Returns code summary = bind-Returns _ _ get-Returns (λ db. held-Returns token _ _ (λ t.
      bind-Returns _ _ cancel_held-Returns (λ stopped.
        if-Returns _ (pure tt) _ (pure-Returns tt)
          (bind-Returns _ _ (cas-Returns _ _ _ _ _ _ _) (reopen-Returns t)))))

-- What is left of the exceptions of a run: a cancellation.
abbrev pub IsHandled : Result (Unit {0}) → Db → Type 0
IsHandled (return done) db = Unit
IsHandled (raise e) db = e ≡ worker_cancelled

returned : (r : Result (Unit {0})) (a : Unit {0}) (db : Db) → r ≡ return a → IsHandled r db
returned (return b) a db h = tt
returned (raise e) a db h = cc

handle-IsHandled :
    (input : RunInput) (task_id : ℕ) (token : String) (e : Failure) (c : Clause) (db : Db)
    → Ends IsHandled (handle_by input task_id token e c) db
unfolding handle_by Steps.◌>>◌ Steps.◌>>=◌
handle-IsHandled input task_id token e on_claim_lost db = tt
handle-IsHandled input task_id token e on_task_cancelled db =
    λ now. let (a, q) = mark_cancelled-Returns task_id token input.now now in returned _ a _ q
handle-IsHandled input task_id token e on_cancelled db =
    λ now. let (a, q) = interrupt-Returns task_id token input.now now in rw q refl
handle-IsHandled input task_id token e on_bad_report db = λ now.
    let (a, q) = manual_intervention-Returns task_id token input.now _ _ now in returned _ a _ q
handle-IsHandled input task_id token e on_exception db =
    λ now. let (a, q) = fail-Returns task_id token input.now _ _ now in returned _ a _ q

-- Whatever the calls of a worker answer and whatever other sessions commit between its steps,
-- the `try` of the run of a claimed task with its `except` clauses, up to the `finally` that
-- waits for the heartbeat, ends without an exception or in a CancelledError: every other
-- exception is handled, and no handler raises one of its own.
pub attend-IsHandled :
    (input : RunInput) (task_id : ℕ) (token : String) (db : Db)
    → Ends IsHandled (attend input task_id token) db
unfolding attend
attend-IsHandled input task_id token db =
    Ends-rescue (λ r now. Unit) IsHandled _ _ db (Ends-any _ db) (λ a now h. tt)
      (λ e now h. handle-IsHandled input task_id token e (clause_of e) now)
