-- ===== src/Worker/Bookkeeping.antt =====
-- The rows of the runs: no run is left open, and no attempt has a number twice.
use coderus.Base.{
  ℕ, ◌+◌, ◌≤◌, ◌≡◌, refl, sym, ◌∙◌, Bool, false, ◌&&◌, String, Option, List, [], ◌∷◌, ◌==◌,
  if◌then◌else◌, str_eq, string_dec, Bool-cases, inl, inr, arith,
}
use coderus.Base.Table.{All, update_where, insert_row, insert_row-All}
use coderus.Base.Distinct.{Apart}
use coderus.Store.{AgentRun, Db, Result, return, raise, Failure, DeveloperReport}
use coderus.Scheduler.{interrupt_runs}
use coderus.Worker.Steps.{
  JobStatus, succeeded, failed, timed_out, cancelled, JobResult, ◌>>=◌, ◌>>◌, Ends, Ends-any,
  Ends-rescue, Ends->>=,
}
use coderus.Worker.{
  AgentRole, role_value, status_value, is_run_of, greatest_attempt, begin_agent_run, RunEnd,
  end_run, is_open_run, finish_agent_run,
}
use coderus.Worker.Execute.{
  Stage, StageInput, Attempted, run_job, is_cancellation, raised_status, raised_end, returned_end,
  result_or_raise, conclude, run_agent,
}

-- No run of the id is open.
abbrev pub IsClosed : ℕ → Db → Type 0
IsClosed run_id db = All (λ r. is_open_run run_id r ≡ false) db.agent_runs

ended_runs :
    (run_id : ℕ) (e : RunEnd) (now : ℕ) (runs : List AgentRun)
    → str_eq e.status "running" ≡ false
    → All
        (λ r. is_open_run run_id r ≡ false)
        (update_where (is_open_run run_id) (end_run e now) runs)
unfolding update_where
ended_runs run_id e now [] h = tt
ended_runs run_id e now (r ∷ rs) h = (
  elim (Bool-cases (is_open_run run_id r)) [ inl t ↦ rw t (closed r.id) | inr f ↦ rw f f ],
  ended_runs run_id e now rs h,
)
  where
    closed : (id : ℕ) → (id == run_id && str_eq e.status "running") ≡ false
    closed id = rw h (ground arith)

raised_status_apart : (e : Failure) → str_eq (raised_status e) "running" ≡ false
unfolding string_dec
raised_status_apart e = elim (Bool-cases (is_cancellation e)) [
  | inl t ↦ rw t refl
  | inr f ↦ rw f refl
]

status_value_apart : (s : JobStatus) → str_eq (status_value s) "running" ≡ false
unfolding status_value string_dec
status_value_apart succeeded = refl
status_value_apart failed = refl
status_value_apart timed_out = refl
status_value_apart cancelled = refl

-- What a stage ends in.
abbrev pub IsEnded : ℕ → Result JobResult → Db → Type 0
IsEnded run_id (return result) db = IsClosed run_id db × (result.status ≡ succeeded)
IsEnded run_id (raise e) db = IsClosed run_id db

abbrev Returned : Result Attempted → Db → Type 0
Returned (return a) db = Unit
Returned (raise e) db = ⊥

run_job-Returned : (has_broker valid : Bool) (db : Db) → Ends Returned (run_job has_broker valid) db
unfolding run_job
run_job-Returned has_broker valid db =
    Ends-rescue (λ r now. Unit) Returned _ _ db (Ends-any _ db) (λ a now h. tt) (λ e now h. tt)

result_or_raise-IsEnded :
    (run_id : ℕ) (s : JobStatus) (result : JobResult) (db : Db)
    → s ≡ result.status
    → IsClosed run_id db
    → Ends (IsEnded run_id) (result_or_raise s result) db
unfolding result_or_raise
result_or_raise-IsEnded run_id succeeded result db same h = (h, sym same)
result_or_raise-IsEnded run_id failed result db same h = h
result_or_raise-IsEnded run_id timed_out result db same h = h
result_or_raise-IsEnded run_id cancelled result db same h = h

conclude-IsEnded :
    (input : StageInput) (run_id : ℕ) (usage : Option (ℕ × ℕ))
    (outcome : Result (JobResult × Option DeveloperReport)) (db : Db)
    → Ends (IsEnded run_id) (conclude input run_id usage outcome) db
unfolding conclude ◌>>◌ ◌>>=◌ finish_agent_run
conclude-IsEnded input run_id usage (raise e) db = λ now.
    ended_runs run_id (raised_end input usage e) input.finished_at now.agent_runs
      (raised_status_apart e)
conclude-IsEnded input run_id usage (return (result, report)) db = λ now.
    result_or_raise-IsEnded run_id result.status result _ refl (
      ended_runs run_id (returned_end usage result report) input.finished_at now.agent_runs
        (status_value_apart result.status))

-- Whatever the calls of a stage answer and whatever other sessions commit between its steps,
-- once the stage has begun its run, it ends, and then no run of that id is open any more; and
-- where it returns a result, that result is a success.
pub run_agent-IsEnded :
    (input : StageInput) (stage : Stage) (role : AgentRole) (run_id : ℕ) (db : Db)
    → Ends (IsEnded run_id) (run_agent input stage role run_id) db
unfolding run_agent
run_agent-IsEnded input stage role run_id db =
    Ends->>= Returned (IsEnded run_id) (run_job _ _) _ db (run_job-Returned _ _ db)
      (λ a now h. conclude-IsEnded input run_id a.0 _ now) (λ e now h. elim h [ ])

abbrev pub same_attempt : AgentRun → AgentRun → Bool
same_attempt a b = a.task_id == b.task_id && str_eq a.role b.role && a.attempt == b.attempt

-- No two runs of a task in one role have the same attempt.
abbrev pub AttemptsApart : Db → Type 0
AttemptsApart db = Apart same_attempt db.agent_runs

Apart-insert_row :
    (x : AgentRun) (rs : List AgentRun)
    → All (λ r. same_attempt x r ≡ false) rs
    → Apart same_attempt rs
    → Apart same_attempt (insert_row x rs)
unfolding insert_row
Apart-insert_row x [] h apart = (tt, tt)
Apart-insert_row x (r ∷ rs) h apart = (
  insert_row-All (λ y. same_attempt y r ≡ false) x rs h.0 apart.0,
  Apart-insert_row x rs h.1 apart.1,
)

-- An update of rows that keeps what makes two runs the same.
module _ (p : AgentRun → Bool) (f : AgentRun → AgentRun)
    (left : (r x : AgentRun) → same_attempt (f r) x ≡ same_attempt r x)
    (right : (r x : AgentRun) → same_attempt x (f r) ≡ same_attempt x r) where
  same-updated :
      (x r : AgentRun)
      → same_attempt (if p x then f x else x) (if p r then f r else r) ≡ same_attempt x r
  same-updated x r = elim (Bool-cases (p x)) [
    | inl t ↦ elim (Bool-cases (p r)) [
      | inl u ↦ rw (t, u) (left x (f r) ∙ right r x)
      | inr u ↦ rw (t, u) (left x r)
    ]
    | inr t ↦ elim (Bool-cases (p r)) [ inl u ↦ rw (t, u) (right r x) | inr u ↦ rw (t, u) refl ]
  ]

  updated_apart :
      (r : AgentRun) (rs : List AgentRun)
      → All (λ y. same_attempt y r ≡ false) rs
      → All (λ y. same_attempt y (if p r then f r else r) ≡ false) (update_where p f rs)
  unfolding update_where
  updated_apart r [] h = tt
  updated_apart r (x ∷ rs) h = (same-updated x r ∙ h.0, updated_apart r rs h.1)

  Apart-update_where :
      (rs : List AgentRun) → Apart same_attempt rs → Apart same_attempt (update_where p f rs)
  unfolding update_where
  Apart-update_where [] apart = tt
  Apart-update_where (r ∷ rs) apart = (updated_apart r rs apart.0, Apart-update_where rs apart.1)

new_attempt :
    (task_id n : ℕ) (role : String) (rs : List AgentRun)
    → greatest_attempt task_id role rs ≤ n
    → All (λ r. (task_id == r.task_id && str_eq role r.role && n + 1 == r.attempt) ≡ false) rs
unfolding greatest_attempt
new_attempt task_id n role [] h = tt
new_attempt task_id n role (r ∷ rs) h = elim (Bool-cases (is_run_of task_id role r)) [
  | inl t ↦
      let (older, rest) : (r.attempt ≤ n) × (greatest_attempt task_id role rs ≤ n) = ground arith in
      (ground arith, new_attempt task_id n role rs rest)
  | inr f ↦
      let rest : greatest_attempt task_id role rs ≤ n = rw f at h in
      (ground arith, new_attempt task_id n role rs rest)
]

-- The sessions that write runs: those of a stage, and the recovery of a task.
pub data RunSession : Type 0 where
  starts_run : (id task_id : ℕ) → AgentRole → (now : ℕ) → RunSession
  ends_run : (run_id : ℕ) → RunEnd → (now : ℕ) → RunSession
  interrupts_runs : (task_id now : ℕ) → RunSession

unfoldable pub run_session : RunSession → Db → Db
run_session (starts_run id task_id role now) db = (begin_agent_run id task_id role now db).1
run_session (ends_run run_id e now) db = (finish_agent_run run_id e now db).1
run_session (interrupts_runs task_id now) db = (interrupt_runs task_id now db).1

-- The sessions that begin a run, end one or interrupt those of a recovered task keep this: no
-- two runs of a task in one role have the same attempt.
pub run_session-AttemptsApart :
    (s : RunSession) (db : Db) → AttemptsApart db → AttemptsApart (run_session s db)
unfolding run_session begin_agent_run finish_agent_run interrupt_runs
run_session-AttemptsApart (starts_run id task_id role now) db h =
    Apart-insert_row _ db.agent_runs
      (new_attempt task_id _ (role_value role) db.agent_runs (omega arith)) h
run_session-AttemptsApart (ends_run run_id e now) db h =
    Apart-update_where _ _ (λ r x. refl) (λ r x. refl) db.agent_runs h
run_session-AttemptsApart (interrupts_runs task_id now) db h =
    Apart-update_where _ _ (λ r x. refl) (λ r x. refl) db.agent_runs h
