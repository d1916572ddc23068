-- ===== src/Worker/Group.antt =====
-- coderus/workflow/review_cycle.py: `asyncio.TaskGroup` with two tasks of one event loop. A task
-- goes on until its next call, and the call that comes back first is the one whose task goes on.
use coderus.Base.{Bool, true, false, if◌then◌else◌, ◌||◌}
use coderus.Store.{Result, return, raise, worker_cancelled, exception_group}
use coderus.Worker.Steps.{
  Reply, broken, first, second, Process, finished, session, ask, done, rescue, ◌>>=◌,
}

module _ {A : Type 0} where
  abbrev pub settled : Process A → Process (Result A)
  settled p = rescue (p >>= λ a. done (return a)) (λ e. done (raise e))

  -- Which of two calls has come back, or neither.
  unfoldable pub turn : Reply → (Reply → Process A) → (Reply → Process A) → Process A → Process A
  turn (first r) left right neither = left r
  turn (second r) left right neither = right r
  turn _ left right neither = neither

  -- A task of the group has failed: a CancelledError of its own is no failure.
  abbrev pub has_failed : Result A → Bool
  has_failed (return a) = false
  has_failed (raise worker_cancelled) = false
  has_failed (raise _) = true

module _ {A B : Type 0} where
  -- Both to the end, whatever comes of them.
  unfoldable pub both : Process A → Process B → Process (Result A × Result B)
  both (finished a) q = settled q >>= λ b. done (a, b)
  both (session w k) q = session w (λ db. both (k db) q)
  both (ask k) (finished b) = settled (ask k) >>= λ a. done (a, b)
  both (ask k) (session w k') = session w (λ db. both (ask k) (k' db))
  both (ask k) (ask k') =
      ask λ r. turn r (λ s. both (k s) (ask k')) (λ s. both (ask k) (k' s)) (both (k r) (ask k'))

  -- The end of the group: an ExceptionGroup where a task has failed; otherwise a CancelledError
  -- where the group was cancelled or a task has ended in one, as `result()` raises it again.
  unfoldable pub outcome : Bool → Result A → Result B → Result (A × B)
  outcome false (return a) (return b) = return (a, b)
  outcome true (return a) (return b) = raise worker_cancelled
  outcome _ a b = raise (if has_failed a || has_failed b then exception_group else worker_cancelled)

module _ {A C : Type 0} where
  -- The task that is left when the other has ended. It is cancelled at its call where the other
  -- has failed; until then the group may be cancelled, which cancels the task.
  unfoldable pub alone : Bool → (Bool → Result A → Result C) → Process A → Process C
  alone failed end (finished a) = finished (end false a)
  alone failed end (session w k) = session w (λ db. alone failed end (k db))
  alone true end (ask k) = settled (k (broken worker_cancelled)) >>= λ a. finished (end false a)
  alone false end (ask k) = ask λ r.
      turn r (λ s. alone false end (k s)) (λ s. alone false end (k s))
        (settled (k (broken worker_cancelled)) >>= λ a. finished (end true a))

module _ {A B : Type 0} where
  -- The tasks until one of them has ended or the group is cancelled, which cancels both.
  unfoldable pub group : Process A → Process B → Process (A × B)
  group (finished a) q = alone (has_failed a) (λ was_cancelled b. outcome was_cancelled a b) q
  group (session w k) q = session w (λ db. group (k db) q)
  group (ask k) (finished b) =
      alone (has_failed b) (λ was_cancelled a. outcome was_cancelled a b) (ask k)
  group (ask k) (session w k') = session w (λ db. group (ask k) (k' db))
  group (ask k) (ask k') = ask λ r.
      turn r (λ s. group (k s) (ask k')) (λ s. group (ask k) (k' s))
        (both (k (broken worker_cancelled)) (k' (broken worker_cancelled)) >>= λ ends.
          finished (outcome true ends.0 ends.1))
