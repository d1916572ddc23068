-- ===== src/Worker/ReviewCycle.antt =====
-- coderus/workflow/review_cycle.py: two reviewers at once, and the records of their verdicts.
use coderus.Base.{ℕ, String, Option, List, [], ◌∷◌, length, if◌then◌else◌}
use coderus.AgentOutput.{AgentEvent}
use coderus.Base.Text.{Text, text_eq}
use coderus.Base.Table.{insert_row}
use coderus.Store.{TaskStatus, ReviewerFinding, Action, return}
use coderus.Report.{
  ReviewerResult, review_result, reviewer_contract_version, approve, cycle_findings,
}
use coderus.Worker.Steps.{JobResult, Process, finished, atomic, done, ◌>>=◌, ◌>>◌}
use coderus.Worker.{AgentRole, reviewer_a, reviewer_b, role_value}
use coderus.Worker.Execute.{review_correctness, review_security, StageInput, execute}
use coderus.Worker.Group.{group}

-- `_record_review`; the new row's id is an argument.
unfoldable pub record_review : ℕ → ℕ → String → Text → List ReviewerFinding → Action (Unit {0})
record_review id task_id role decision findings db = (
  return tt,
  record db {
    reviews =
        insert_row
          (record {
            id = id;
            task_id = task_id;
            reviewer_role = role;
            decision = decision;
            findings = findings;
            blocking_count = if text_eq decision approve then 0 else length findings;
            contract_version = reviewer_contract_version;
          })
          db.reviews;
  },
)

-- The inputs of the two stages, the ids of the rows of the reviews, and the readers of events and
-- of verdicts.
pub record CycleInput : Type 0 where
  pub stage_a : StageInput
  pub stage_b : StageInput
  pub review_a : ℕ
  pub review_b : ℕ
  pub event_of : Text → AgentEvent
  pub load_result : Text → Option ReviewerResult

abbrev pub Verdict : Type 0
Verdict = Text × List ReviewerFinding

abbrev pub verdict : CycleInput → JobResult → Process Verdict
verdict input result = finished (review_result input.load_result input.event_of result.stdout)

unfoldable pub record_verdict : ℕ → ℕ → AgentRole → Verdict → Process (Unit {0})
record_verdict id task_id role (decision, findings) =
    atomic (record_review id task_id (role_value role) decision findings)

-- `ReviewCycle.run`
unfoldable pub review_cycle : CycleInput → ℕ → String → Process (List ReviewerFinding)
review_cycle input task_id claim_token =
    group
      (execute input.stage_a task_id TaskStatus.reviewing review_correctness reviewer_a claim_token)
      (execute input.stage_b task_id TaskStatus.reviewing review_security reviewer_b claim_token)
    >>= λ results. verdict input results.0 >>= λ a.
        record_verdict input.review_a task_id reviewer_a a >> verdict input results.1 >>= λ b.
        record_verdict input.review_b task_id reviewer_b b >> done (cycle_findings (a ∷ b ∷ []))
