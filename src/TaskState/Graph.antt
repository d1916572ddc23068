-- ===== src/TaskState/Graph.antt =====
-- The state machine that the statuses of a task follow, and the log that records its moves.
use coderus.Base.{
  ℕ, Bool, true, false, ◌≡◌, ◌≢◌, Option, none, some, List, [], ◌∷◌, ◌==◌, arith, if◌then◌else◌,
  is_some,
}
use coderus.Base.Table.{insert_row}
use coderus.Store.{
  TaskStatus, status_eq, status_in, status_dec, Task, TaskTransition, running_task_states,
}

-- A worker holds the task: it runs, or it has been asked to stop.
unfoldable pub is_claimed : TaskStatus → Bool
unfolding status_in
is_claimed s = status_in (TaskStatus.cancelling ∷ running_task_states) s

-- The state machine of a task.
unfoldable pub is_edge : TaskStatus → TaskStatus → Bool
is_edge TaskStatus.queued TaskStatus.preparing = true
is_edge TaskStatus.queued TaskStatus.cancelled = true
is_edge TaskStatus.preparing TaskStatus.developer_working = true
is_edge TaskStatus.preparing TaskStatus.developer_revising = true
is_edge TaskStatus.preparing TaskStatus.sealing = true
is_edge TaskStatus.preparing TaskStatus.publishing = true
is_edge TaskStatus.developer_working TaskStatus.reviewing = true
is_edge TaskStatus.developer_working TaskStatus.sealing = true
is_edge TaskStatus.reviewing TaskStatus.reviewing = true
is_edge TaskStatus.reviewing TaskStatus.developer_revising = true
is_edge TaskStatus.reviewing TaskStatus.sealing = true
is_edge TaskStatus.developer_revising TaskStatus.sealing = true
is_edge TaskStatus.sealing TaskStatus.publishing = true
is_edge TaskStatus.publishing TaskStatus.awaiting_human_review = true
is_edge TaskStatus.publishing TaskStatus.queued = true
is_edge TaskStatus.cancelling TaskStatus.cancelled = true
is_edge TaskStatus.awaiting_human_review TaskStatus.awaiting_human_review = true
is_edge TaskStatus.awaiting_human_review TaskStatus.completed = true
is_edge TaskStatus.awaiting_human_review TaskStatus.closed = true
is_edge TaskStatus.awaiting_human_review TaskStatus.queued = true
is_edge TaskStatus.awaiting_human_review TaskStatus.dismissed = true
is_edge TaskStatus.failed TaskStatus.dismissed = true
is_edge TaskStatus.failed TaskStatus.queued = true
is_edge TaskStatus.manual_intervention TaskStatus.dismissed = true
is_edge TaskStatus.manual_intervention TaskStatus.queued = true
is_edge TaskStatus.cancelled TaskStatus.dismissed = true
is_edge s TaskStatus.cancelling = status_in running_task_states s
is_edge s TaskStatus.failed = status_in running_task_states s
is_edge s TaskStatus.manual_intervention = status_in running_task_states s
is_edge _ _ = false

-- A task has a claim token exactly while a worker holds it.
abbrev pub IsOwned : Task → Type 0
IsOwned t = is_some t.claim_token ≡ is_claimed t.status

-- The status that the log gives a task which starts in `s`; `none` if an entry does not fit.
unfoldable pub replay : ℕ → TaskStatus → List TaskTransition → Option TaskStatus
unfolding status_dec
replay task_id s [] = some s
replay task_id s (e ∷ log) =
    let step = replay task_id e.to_status log in
    let skip = replay task_id s log in
    if e.task_id == task_id then (if status_eq e.from_status s then step else none) else skip

pub replay-other :
    (task_id : ℕ) (s : TaskStatus) (log : List TaskTransition) (e : TaskTransition)
    → e.task_id ≢ task_id
    → replay task_id s (insert_row e log) ≡ replay task_id s log
unfolding replay insert_row
replay-other task_id s [] e h = ground arith
replay-other task_id s (d ∷ log) e h =
    ground (arith, replay-other task_id s log e h, replay-other task_id d.to_status log e h)

pub replay-same :
    (task_id : ℕ) (s t : TaskStatus) (log : List TaskTransition) (e : TaskTransition)
    → replay task_id s log ≡ some t
    → e.task_id ≡ task_id
    → e.from_status ≡ t
    → replay task_id s (insert_row e log) ≡ some e.to_status
unfolding replay insert_row
replay-same task_id s t [] e h i f = ground arith
replay-same task_id s t (d ∷ log) e h i f =
    ground (arith, replay-same task_id s t log e, replay-same task_id d.to_status t log e)
