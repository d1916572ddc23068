-- ===== src/TaskState/Decision.antt =====
-- What the conditional updates of a task do to the row with its id, and to the others.
use coderus.Base.{
  ℕ, ◌+◌, Bool, true, false, ◌&&◌, ◌≡◌, refl, sym, ◌∙◌, ap, String, Option, none, some, List, ◌∷◌,
  ◌==◌, ltb, column_eq, if◌then◌else◌, arith,
}
use coderus.Base.Table.{
  bit, find_where, count_where, count_where-none, find_where-none, find_where-true,
}
use coderus.Base.Table.Keyed.{find_where_keyed, find_where-update_where, count_where_keyed}
use coderus.Store.{TaskStatus, status_in, status_eq, Task, Db, Result, return}
use coderus.Store.Tables.{get_task}
use coderus.TaskState.{
  TaskUpdates, token_matches, cas_selects, cas_matches, cas_task_status, write_task, claims,
  coalesce, write_claim, claim_queued_task, is_running, is_running_of,
}
use coderus.TaskState.Cas.{
  task_id_of, UniqueTasks, selects→matches, selects→expected, CasOutcome, cas_outcome, moved_db,
}
use coderus.TaskState.Claim.{ClaimOutcome, claim_outcome, claimed_db, claims→room}
use coderus.TaskState.Lease.{expires_after, renewable, renew}

-- Whether a row is in an expected status and under the given token.
abbrev pub fits : List TaskStatus → Option String → Task → Bool
fits expected token t = status_in expected t.status && token_matches token t.claim_token

selects-fits :
    (task_id : ℕ) (expected : List TaskStatus) (token : Option String) (t : Task)
    → t.id ≡ task_id
    → cas_selects task_id expected token t ≡ fits expected token t
unfolding cas_selects
selects-fits task_id expected token t id = ground (arith, id)

pub get_task-id : (task_id : ℕ) (db : Db) (t : Task) → get_task task_id db ≡ some t → t.id ≡ task_id
unfolding get_task
get_task-id task_id db t e = found_id (find_where-true (λ x. x.id == task_id) db.tasks e)
  where
    found_id : (t.id == task_id) ≡ true → t.id ≡ task_id
    found_id h = ground arith

-- The row that the first statement selects.
selected :
    (task_id : ℕ) (expected : List TaskStatus) (token : Option String) (db : Db) (t : Task)
    → UniqueTasks db
    → get_task task_id db ≡ some t
    → find_where (cas_selects task_id expected token) db.tasks
      ≡ (if fits expected token t then some t else none)
unfolding get_task
selected task_id expected token db t u e =
    find_where_keyed task_id_of task_id (cas_selects task_id expected token) db.tasks u
      (λ x h. (selects→expected task_id expected token x h).0) e
    ∙ rw (selects-fits task_id expected token t (get_task-id task_id db t e)) refl

module _ (task_id : ℕ) (s : TaskStatus) (more : List TaskStatus) (new_status : TaskStatus)
    (updates : TaskUpdates) (token : Option String) (actor : String) where
  -- A conditional update of a task that is in the table moves the task and logs the move exactly
  -- where the task has an expected status and the given token, if any, is its own; otherwise it
  -- gives `false` and changes nothing. Task ids are unique.
  pub cas_decides :
      (db : Db) (t : Task)
      → UniqueTasks db
      → get_task task_id db ≡ some t
      → cas_task_status task_id (s ∷ more) new_status updates token actor db ≡ (
          if fits (s ∷ more) token t
          then (return true, moved_db task_id new_status updates token actor t db)
          else (return false, db))
  cas_decides db t u e =
      decided (fits (s ∷ more) token t) refl
        (cas_outcome task_id new_status updates token actor s more db u)
        (selected task_id (s ∷ more) token db t u e)
    where
      decided :
          (b : Bool)
          → fits (s ∷ more) token t ≡ b
          → {r : Result Bool × Db}
          → CasOutcome task_id new_status updates token actor (s ∷ more) db r
          → find_where (cas_selects task_id (s ∷ more) token) db.tasks
            ≡ (if fits (s ∷ more) token t then some t else none)
          → r ≡ (
              if fits (s ∷ more) token t
              then (return true, moved_db task_id new_status updates token actor t db)
              else (return false, db))
      decided true f (CasOutcome.refused off r) found =
          let both : none ≡ some t = sym off ∙ found ∙ rw f refl in cc
      decided true f (CasOutcome.moved c on hit r) found =
          let both : some c ≡ some t = sym on ∙ found ∙ rw f refl in
          let same : c ≡ t = cc in rw f (rw⁻¹ same r)
      decided false f (CasOutcome.refused off r) found = rw f r
      decided false f (CasOutcome.moved c on hit r) found =
          let both : some c ≡ none = sym on ∙ found ∙ rw f refl in cc

  -- After a conditional update the task with the given id is the moved one where its status and
  -- token fit, and the one before where they do not. Task ids are unique.
  pub cas_writes :
      (db : Db) (t : Task)
      → UniqueTasks db
      → get_task task_id db ≡ some t
      → get_task task_id (cas_task_status task_id (s ∷ more) new_status updates token actor db).1
        ≡ some (if fits (s ∷ more) token t then write_task new_status updates t else t)
  unfolding write_task
  cas_writes db t u e = rw (cas_decides db t u e) (written (fits (s ∷ more) token t) refl)
    where
      row : fits (s ∷ more) token t ≡ true → cas_matches task_id t.status token t ≡ true
      row f =
          selects→matches task_id (s ∷ more) token t
            (selects-fits task_id (s ∷ more) token t (get_task-id task_id db t e) ∙ f)

      written :
          (b : Bool)
          → fits (s ∷ more) token t ≡ b
          → get_task task_id
              (if◌then◌else◌ {A = Result Bool × Db} b
                (return true, moved_db task_id new_status updates token actor t db)
                (return false, db)).1
            ≡ some (if b then write_task new_status updates t else t)
      written true f =
          unfold get_task in
          find_where-update_where (λ x. x.id == task_id) (cas_matches task_id t.status token)
            (write_task new_status updates) (λ x. refl) db.tasks e
          ∙ rw (row f) refl
      written false f = e

-- Whether a task waits and both quotas leave room for it.
abbrev pub may_claim : ℕ → ℕ → Db → Task → Bool
may_claim global_limit per_user_limit db t =
    status_eq t.status TaskStatus.queued
    && ltb (count_where is_running db.tasks) global_limit
    && ltb (count_where (is_running_of t.created_by) db.tasks) per_user_limit

-- When a task started: at its first claim.
abbrev pub start_of : Option ℕ → ℕ → Option ℕ
start_of none now = some now
start_of (some first) now = some first

module _ (task_id global_limit per_user_limit lease_seconds : ℕ) (token : String) (now : ℕ) where
  claims-may :
      (db : Db) (t : Task)
      → t.id ≡ task_id
      → claims task_id global_limit per_user_limit db t ≡ may_claim global_limit per_user_limit db t
  unfolding claims
  claims-may db t id = ground (arith, id)

  claimable :
      (db : Db) (t : Task)
      → UniqueTasks db
      → get_task task_id db ≡ some t
      → find_where (claims task_id global_limit per_user_limit db) db.tasks
        ≡ (if may_claim global_limit per_user_limit db t then some t else none)
  unfolding get_task
  claimable db t u e =
      find_where_keyed task_id_of task_id (claims task_id global_limit per_user_limit db) db.tasks u
        (λ x h. (claims→room task_id global_limit per_user_limit lease_seconds token now db x h).0)
        e
      ∙ rw (claims-may db t (get_task-id task_id db t e)) refl

  -- A claim of a task that is in the table gives the token and logs the claim exactly where the
  -- task waits and both quotas leave room; otherwise it gives `None` and changes nothing. Task
  -- ids are unique.
  pub claim_decides :
      (db : Db) (t : Task)
      → UniqueTasks db
      → get_task task_id db ≡ some t
      → claim_queued_task task_id global_limit per_user_limit lease_seconds token now db ≡ (
          if may_claim global_limit per_user_limit db t
          then (
            return (some token),
            claimed_db task_id global_limit per_user_limit lease_seconds token now db,
          )
          else (return none, db))
  claim_decides db t u e =
      decided (may_claim global_limit per_user_limit db t) refl
        (claim_outcome task_id global_limit per_user_limit lease_seconds token now db u)
        (claimable db t u e)
    where
      decided :
          (b : Bool)
          → may_claim global_limit per_user_limit db t ≡ b
          → {r : Result (Option String) × Db}
          → ClaimOutcome task_id global_limit per_user_limit lease_seconds token now db r
          → find_where (claims task_id global_limit per_user_limit db) db.tasks
            ≡ (if may_claim global_limit per_user_limit db t then some t else none)
          → r ≡ (
              if may_claim global_limit per_user_limit db t
              then (
                return (some token),
                claimed_db task_id global_limit per_user_limit lease_seconds token now db,
              )
              else (return none, db))
      decided true f (ClaimOutcome.refused off r) found =
          let both : none ≡ some t = sym off ∙ found ∙ rw f refl in cc
      decided true f (ClaimOutcome.claimed c on hit r) found = rw f r
      decided false f (ClaimOutcome.refused off r) found = rw f r
      decided false f (ClaimOutcome.claimed c on hit r) found =
          let both : some c ≡ none = sym on ∙ found ∙ rw f refl in cc

  first_start : (o : Option ℕ) → coalesce o now ≡ start_of o now
  first_start none = refl
  first_start (some s) = refl

  claim_found :
      (db : Db) (t : Task)
      → UniqueTasks db
      → get_task task_id db ≡ some t
      → get_task task_id
          (claim_queued_task task_id global_limit per_user_limit lease_seconds token now db).1
        ≡ some (
            if may_claim global_limit per_user_limit db t
            then write_claim token now lease_seconds t
            else t)
  unfolding write_claim
  claim_found db t u e =
      rw (claim_decides db t u e) (written (may_claim global_limit per_user_limit db t) refl)
    where
      row :
          may_claim global_limit per_user_limit db t ≡ true
          → claims task_id global_limit per_user_limit db t ≡ true
      row f = claims-may db t (get_task-id task_id db t e) ∙ f

      written :
          (b : Bool)
          → may_claim global_limit per_user_limit db t ≡ b
          → get_task task_id
              (if◌then◌else◌ {A = Result (Option String) × Db} b
                (
                  return (some token),
                  claimed_db task_id global_limit per_user_limit lease_seconds token now db,
                )
                (return none, db)).1
            ≡ some (if b then write_claim token now lease_seconds t else t)
      written true f =
          unfold get_task in
          find_where-update_where (λ x. x.id == task_id)
            (claims task_id global_limit per_user_limit db) (write_claim token now lease_seconds)
            (λ x. refl) db.tasks e
          ∙ rw (row f) refl
      written false f = e

  -- After a claim the task with the given id is prepared under the token, with a lease that ends
  -- `lease_seconds` from now, the start of its first claim and no end, where it waits and both
  -- quotas leave room; it is the one before where not. Task ids are unique.
  pub claim_writes :
      (db : Db) (t : Task)
      → UniqueTasks db
      → get_task task_id db ≡ some t
      → get_task task_id
          (claim_queued_task task_id global_limit per_user_limit lease_seconds token now db).1
        ≡ some (
            if may_claim global_limit per_user_limit db t
            then record t {
              status = TaskStatus.preparing;
              claim_token = some token;
              claim_expires_at = some (now + lease_seconds);
              started_at = start_of t.started_at now;
              finished_at = none;
            }
            else t)
  unfolding write_claim
  claim_writes db t u e = rw⁻¹ (first_start t.started_at) (claim_found db t u e)

bit_one : (b : Bool) → (bit b == 1) ≡ b
bit_one true = refl
bit_one false = refl

renewed_row :
    (active_statuses : List TaskStatus) (lease_seconds task_id : ℕ) (claim_token : String) (now : ℕ)
    (db : Db) (t : Task)
    → UniqueTasks db
    → get_task task_id db ≡ some t
    → let held = renewable active_statuses task_id claim_token now t in
      let r = renew active_statuses lease_seconds task_id claim_token now db in
      (r.0 ≡ return held)
      × (get_task task_id r.1
          ≡ some (if held then record t { claim_expires_at = some (now + lease_seconds) } else t))
unfolding renew get_task
renewed_row active_statuses lease_seconds task_id claim_token now db t u e = (
  rw (number (renewable active_statuses task_id claim_token now t) refl)
      (ap return (bit_one (renewable active_statuses task_id claim_token now t))),
  find_where-update_where (λ x. x.id == task_id) (renewable active_statuses task_id claim_token now)
      (λ x. record x { claim_expires_at = some (now + lease_seconds) }) (λ x. refl) db.tasks e,
)
  where
    of_id : (x : Task) → renewable active_statuses task_id claim_token now x ≡ true → x.id ≡ task_id
    of_id x h = unfold renewable in ground arith

    number :
        (b : Bool)
        → renewable active_statuses task_id claim_token now t ≡ b
        → count_where (renewable active_statuses task_id claim_token now) db.tasks ≡ bit b
    number true h =
        count_where_keyed task_id_of (renewable active_statuses task_id claim_token now) (λ x. x) t
          h (λ x m. of_id x m ∙ sym (get_task-id task_id db t e)) (λ x. x.id == task_id) db.tasks u
          e
    number false h = count_where-none (renewable active_statuses task_id claim_token now) db.tasks (
        find_where-none (renewable active_statuses task_id claim_token now) db.tasks (
          find_where_keyed task_id_of task_id (renewable active_statuses task_id claim_token now)
            db.tasks u of_id e
          ∙ rw h refl))

-- Whether a lease runs on: one without an end does not.
abbrev pub runs_on : Option ℕ → ℕ → Bool
runs_on none now = false
runs_on (some end) now = ltb now end

-- A renewal gives `True` exactly where the task is in an active status, under the token and with
-- a lease that ends after now; the lease then ends `lease_seconds` from now, and otherwise the
-- task stays as it was. Task ids are unique.
pub renew_decides :
    (active_statuses : List TaskStatus) (lease_seconds task_id : ℕ) (claim_token : String) (now : ℕ)
    (db : Db) (t : Task)
    → UniqueTasks db
    → get_task task_id db ≡ some t
    → let held =
        status_in active_statuses t.status
        && column_eq t.claim_token claim_token
        && runs_on t.claim_expires_at now in
      let r = renew active_statuses lease_seconds task_id claim_token now db in
      (r.0 ≡ return held)
      × (get_task task_id r.1
          ≡ some (if held then record t { claim_expires_at = some (now + lease_seconds) } else t))
renew_decides active_statuses lease_seconds task_id claim_token now db t u e =
    rw⁻¹ (held (get_task-id task_id db t e))
      (renewed_row active_statuses lease_seconds task_id claim_token now db t u e)
  where
    ends : (o : Option ℕ) → expires_after o now ≡ runs_on o now
    ends none = refl
    ends (some end) = refl

    held :
        t.id ≡ task_id
        → renewable active_statuses task_id claim_token now t ≡ (
            status_in active_statuses t.status
            && column_eq t.claim_token claim_token
            && runs_on t.claim_expires_at now)
    held id = let o = ends t.claim_expires_at in unfold renewable in ground (arith, id, o)
