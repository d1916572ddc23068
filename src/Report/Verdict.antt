-- ===== src/Report/Verdict.antt =====
-- The verdicts of reviewers and what they make of a task.
use coderus.Base.{◌≡◌, Bool, true, false, ◌||◌, List, [], ◌∷◌, is_empty}
use coderus.AgentOutput.{no_item, AgentEvent, undecodable, not_object, event}
use coderus.Base.Table.{All}
use coderus.Base.Text.{Text, text_eq}
use coderus.Base.Trim.{splitlines}
use coderus.Store.{ReviewerFinding, Result, return, raise}
use coderus.Report.{approve, cycle_findings, all_approve}

abbrev Consistent : Text × List ReviewerFinding → Type 0
Consistent (decision, findings) = text_eq decision approve ≡ is_empty findings

-- A line on which the reading of an output raises an exception.
abbrev pub breaks : AgentEvent → Bool
breaks (undecodable e) = true
breaks not_object = true
breaks (event true no_item) = true
breaks _ = false

abbrev pub has_broken : (Text → AgentEvent) → List Text → Bool
has_broken event_of [] = false
has_broken event_of (line ∷ lines) = breaks (event_of line) || has_broken event_of lines

abbrev pub any_broken : (Text → AgentEvent) → List Text → Bool
any_broken event_of [] = false
any_broken event_of (stdout ∷ rest) =
    has_broken event_of (splitlines stdout) || any_broken event_of rest

module _ {A : Type 0} where
  abbrev pub raises : Result A → Bool
  raises (return a) = false
  raises (raise e) = true

-- What the review cycle makes of the verdicts, where there are any.
abbrev pub IsCycle : Result (List (Text × List ReviewerFinding)) → Type 0
IsCycle (return vs) = is_empty (cycle_findings vs) ≡ all_approve vs
IsCycle (raise e) = Unit

abbrev AllConsistent : Result (List (Text × List ReviewerFinding)) → Type 0
AllConsistent (return vs) = All Consistent vs
AllConsistent (raise e) = Unit
