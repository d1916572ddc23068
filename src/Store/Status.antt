-- ===== src/Store/Status.antt =====
-- coderus/tasks/statuses.py: the statuses that a task's `status` column takes, and the two
-- tuples by which the program groups them.
use coderus.Base.{Bool, List, [], ◌∷◌, contains, true, false}
use mathlib.Core.Logic.{ite}

pub data TaskStatus : Type 0 where
  queued : TaskStatus
  preparing developer_working reviewing developer_revising sealing publishing : TaskStatus
  awaiting_human_review cancelling : TaskStatus
  completed closed dismissed failed cancelled manual_intervention : TaskStatus

unfoldable pub status_dec : Discrete TaskStatus
status_dec = hlevel

abbrev pub status_eq : TaskStatus → TaskStatus → Bool
status_eq a b = ite (status_dec a b) true false

-- `status in statuses`
unfoldable pub status_in : List TaskStatus → TaskStatus → Bool
unfolding status_dec
status_in statuses status = contains status_dec statuses status

abbrev pub running_task_states : List TaskStatus
running_task_states =
    TaskStatus.preparing ∷ TaskStatus.developer_working ∷ TaskStatus.reviewing
    ∷ TaskStatus.developer_revising ∷ TaskStatus.sealing ∷ TaskStatus.publishing ∷ []

abbrev pub terminal_task_states : List TaskStatus
terminal_task_states =
    TaskStatus.completed ∷ TaskStatus.closed ∷ TaskStatus.dismissed ∷ TaskStatus.failed
    ∷ TaskStatus.cancelled ∷ TaskStatus.manual_intervention ∷ []
