-- ===== src/Report.antt =====
-- coderus/workflow/developer_report.py, coderus/workflow/reviewer_result.py and the readers
-- of verdicts in review_cycle.py. The decoder of JSON is a parameter: it
-- gives the fields of an object that has the right keys and types.
pub mod Sections
pub mod Verdict
use coderus.Base.{
  ℕ, ◌+◌, Bool, true, false, not, ◌&&◌, ◌||◌, Option, none, some, List, [], ◌∷◌, ◌++◌, ◌==◌, ltb,
  leb, if◌then◌else◌, length, is_empty,
}
use coderus.AgentOutput.{AgentEvent, and_then, final_message}
use coderus.Base.Text.{Text, codes, text_dec, text_eq, any_char}
use coderus.Base.Trim.{strip}
use coderus.Base.Distinct.{unique_from}
use coderus.Store.{
  DeveloperReport, ReviewerFinding, Result, return, raise, Failure, developer_report_error,
}

-- The class [\u4e00-\u9fff].
abbrev pub is_chinese : ℕ → Bool
is_chinese c = leb 19968 c && leb c 40959

-- `validate_chinese_text`
unfoldable pub validate_chinese_text : Text → Option Text
validate_chinese_text value =
    if is_empty (strip value) || not (any_char is_chinese (strip value))
    then none
    else some (strip value)

abbrev pub report_of : (p r s v t i : Option Text) → Option DeveloperReport
report_of (some p) (some r) (some s) (some v) (some t) (some i) = some (record {
  problem_description = p;
  problem_reproduction = r;
  solution = s;
  change_validation = v;
  regression_tests = t;
  remaining_issues = i;
})
report_of _ _ _ _ _ _ = none

-- `model_validate`
unfoldable pub validate_report : DeveloperReport → Option DeveloperReport
validate_report r =
    report_of (validate_chinese_text r.problem_description)
      (validate_chinese_text r.problem_reproduction) (validate_chinese_text r.solution)
      (validate_chinese_text r.change_validation) (validate_chinese_text r.regression_tests)
      (validate_chinese_text r.remaining_issues)

abbrev pub checked_report : Option DeveloperReport → Result DeveloperReport
checked_report none = raise developer_report_error
checked_report (some r) = return r

abbrev pub validate_loaded : Option DeveloperReport → Option DeveloperReport
validate_loaded none = none
validate_loaded (some payload) = validate_report payload

-- `parse_developer_report`
unfoldable pub parse_developer_report :
    (Text → Option DeveloperReport) → Text → Result DeveloperReport
parse_developer_report loads text = checked_report (validate_loaded (loads text))

abbrev section_text : Text → Text → Text
section_text heading body = codes "### " ++ heading ++ codes "\n" ++ body

-- `"\n\n".join(...)`
unfoldable pub join_sections : List Text → Text
join_sections [] = []
join_sections (p ∷ []) = p
join_sections (p ∷ q ∷ ps) = p ++ codes "\n\n" ++ join_sections (q ∷ ps)

-- `render_developer_report`
unfoldable pub render_developer_report : DeveloperReport → Text
render_developer_report r = join_sections (
    section_text (codes "1. 问题描述") r.problem_description
    ∷ section_text (codes "2. 问题复现") r.problem_reproduction
    ∷ section_text (codes "3. 修改方案") r.solution
    ∷ section_text (codes "4. 修改验证") r.change_validation
    ∷ section_text (codes "5. 测试回归") r.regression_tests
    ∷ section_text (codes "6. 遗留问题") r.remaining_issues
    ∷ [])

-- `ReviewerResult`
pub record ReviewerResult : Type 0 where
  pub contract_version : ℕ
  pub decision : Text
  pub findings : List ReviewerFinding

abbrev pub reviewer_contract_version : ℕ
reviewer_contract_version = 1

-- `ReviewerFinding`: the length is that of the message before it is stripped.
abbrev pub is_severity : Text → Bool
is_severity s =
    text_eq s (codes "critical")
    || text_eq s (codes "high")
    || text_eq s (codes "medium")
    || text_eq s (codes "low")

abbrev is_valid_finding : ReviewerFinding → Bool
is_valid_finding f =
    is_severity f.severity && leb 1 (length f.message) && leb (length f.message) 4000

unfoldable pub valid_findings : List ReviewerFinding → Bool
valid_findings [] = true
valid_findings (f ∷ fs) = is_valid_finding f && valid_findings fs

unfoldable pub strip_messages : List ReviewerFinding → List ReviewerFinding
strip_messages [] = []
strip_messages (f ∷ fs) = record f { message = strip f.message } ∷ strip_messages fs

abbrev pub approve : Text
approve = codes "approve"

abbrev pub changes_requested : Text
changes_requested = codes "changes_requested"

-- `validate_decision_findings`, after the decision's own check.
abbrev pub decision_fits : Text → Bool → Bool
decision_fits decision empty =
    (text_eq decision approve && empty) || (text_eq decision changes_requested && not empty)

unfoldable pub is_valid_result : ReviewerResult → Bool
is_valid_result r =
    r.contract_version == reviewer_contract_version
    && valid_findings r.findings
    && decision_fits r.decision (is_empty r.findings)

abbrev pub checked_result : Option ReviewerResult → Option ReviewerResult
checked_result none = none
checked_result (some r) =
    if is_valid_result r then some (record r { findings = strip_messages r.findings }) else none

-- `parse_reviewer_result`, where a ReviewerResultError is `none`.
unfoldable pub parse_reviewer_result : (Text → Option ReviewerResult) → Text → Option ReviewerResult
parse_reviewer_result loads text = checked_result (loads text)

abbrev contract_finding : ReviewerFinding
contract_finding = record { severity = codes "high"; message = codes "检视结果不符合版本化契约"; extra = [] }

unfoldable pub verdict_of : Option ReviewerResult → Text × List ReviewerFinding
verdict_of none = (changes_requested, contract_finding ∷ [])
verdict_of (some r) = (r.decision, r.findings)

-- `review_result`
unfoldable pub review_result :
    (Text → Option ReviewerResult)
    → (Text → AgentEvent)
    → Text
    → Result (Text × List ReviewerFinding)
review_result loads event_of stdout =
    and_then (final_message event_of stdout)
      (λ message. return (verdict_of (parse_reviewer_result loads (strip message))))

-- The key of `deduplicate_findings` is the JSON text with sorted keys.
abbrev pub same_key : ReviewerFinding → ReviewerFinding → Bool
same_key f g =
    text_eq f.severity g.severity && text_eq f.message g.message && text_eq f.extra g.extra

unfoldable pub deduplicate_findings : List ReviewerFinding → List ReviewerFinding
deduplicate_findings fs = unique_from same_key [] fs

-- The loop of `ReviewCycle.run` over the results of the reviewers.
abbrev pub with_rejected : Text × List ReviewerFinding → List ReviewerFinding → List ReviewerFinding
with_rejected (decision, findings) rest =
    if text_eq decision approve then rest else findings ++ rest

unfoldable pub rejected_findings : List (Text × List ReviewerFinding) → List ReviewerFinding
rejected_findings [] = []
rejected_findings (v ∷ vs) = with_rejected v (rejected_findings vs)

unfoldable pub verdicts :
    (Text → Option ReviewerResult)
    → (Text → AgentEvent)
    → List Text
    → Result (List (Text × List ReviewerFinding))
verdicts loads event_of [] = return []
verdicts loads event_of (stdout ∷ rest) =
    and_then (review_result loads event_of stdout)
      (λ v. and_then (verdicts loads event_of rest) (λ vs. return (v ∷ vs)))

-- What `ReviewCycle.run` returns for the outputs of the reviewers.
unfoldable pub cycle_findings : List (Text × List ReviewerFinding) → List ReviewerFinding
cycle_findings vs = deduplicate_findings (rejected_findings vs)

-- Whether every reviewer approves.
abbrev pub all_approve : List (Text × List ReviewerFinding) → Bool
all_approve [] = true
all_approve ((decision, findings) ∷ vs) = text_eq decision approve && all_approve vs
