-- ===== src/TaskState/Lease.antt =====
-- coderus/tasks/lease.py: the renewal of a claim, and the loop of the thread that renews it.
use coderus.Base.{
  ℕ, ◌+◌, ◌-◌, refl, Bool, false, not, ◌&&◌, String, Option, none, some, List, [], ◌∷◌, ◌==◌, ltb,
  column_eq, if◌then◌else◌,
}
use coderus.Base.Table.{count_where}
use coderus.Store.{TaskStatus, status_in, Task, Action, return}
use coderus.Store.Tables.{update_tasks}
use coderus.TaskState.Invariant.{Limits, update_tasks-Inv}
use coderus.TaskState.Keeps.{Keeps}

abbrev pub expires_after : Option ℕ → ℕ → Bool
expires_after none now = false
expires_after (some t) now = ltb now t

-- The `WHERE` of `TaskLease.renew`. `active_statuses` are those of the lease's constructor.
unfoldable pub renewable : List TaskStatus → ℕ → String → ℕ → Task → Bool
renewable active_statuses task_id claim_token now t =
    t.id == task_id
    && status_in active_statuses t.status
    && column_eq t.claim_token claim_token
    && expires_after t.claim_expires_at now

-- `TaskLease.renew`
unfoldable pub renew : List TaskStatus → ℕ → ℕ → String → ℕ → Action Bool
renew active_statuses lease_seconds task_id claim_token now db =
    let matches = renewable active_statuses task_id claim_token now in
    (
      return (count_where matches db.tasks == 1),
      update_tasks matches (λ t. record t { claim_expires_at = some (now + lease_seconds) }) db,
    )

pub renew-Keeps :
    {l : Limits} (active_statuses : List TaskStatus) (lease_seconds task_id : ℕ)
    (claim_token : String) (now : ℕ)
    → Keeps l (renew active_statuses lease_seconds task_id claim_token now)
unfolding renew
renew-Keeps active_statuses lease_seconds task_id claim_token now = record {
  apply = λ db v.
      update_tasks-Inv (renewable active_statuses task_id claim_token now)
        (λ t. record t { claim_expires_at = some (now + lease_seconds) }) db
        (record {
          id = λ t. refl;
          status = λ t. refl;
          claim_token = λ t. refl;
          created_by = λ t. refl;
        })
        v;
}

-- What one round of the heartbeat's worker meets: `stop` was set during the wait, or `renew`
-- was called and ended at a time of the monotonic clock. `stopped` is `stop` when the loss is
-- about to be reported.
pub data Beat : Type 0 where
  stop_set : Beat
  renewed : (time : ℕ) → Beat
  refused : (stopped : Bool) → Beat
  failed : (time : ℕ) (stopped : Bool) → Beat

-- How the worker's loop ends: by `stop`, by a lost lease (and whether `on_lost` was called), or
-- not within the rounds that are given.
pub data HeartbeatEnd : Type 0 where
  stopped : HeartbeatEnd
  lost : (reported : Bool) → HeartbeatEnd
  alive : (last_renewed : ℕ) → HeartbeatEnd

-- The `while` loop of `heartbeat_loop`'s worker, over the rounds that it goes through. A failed
-- renewal is retried while the last one is younger than the lease.
unfoldable pub heartbeat : ℕ → ℕ → List Beat → HeartbeatEnd
heartbeat lease_seconds last_renewed [] = alive last_renewed
heartbeat lease_seconds last_renewed (stop_set ∷ beats) = stopped
heartbeat lease_seconds last_renewed (renewed time ∷ beats) = heartbeat lease_seconds time beats
heartbeat lease_seconds last_renewed (refused stop ∷ beats) = lost (not stop)
heartbeat lease_seconds last_renewed (failed time stop ∷ beats) =
    let rest = heartbeat lease_seconds last_renewed beats in
    if ltb (time - last_renewed) lease_seconds then rest else lost (not stop)
