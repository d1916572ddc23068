-- ===== src/Tests/Findings.antt =====
-- The theorems on findings and reports at concrete inputs.
use coderus.Base.{
  ◌+◌, ◌-◌, ◌≤◌, ◌≡◌, refl, Bool, true, false, Option, none, some, List, [], ◌∷◌, length, ◌==◌,
  if◌then◌else◌,
}
use coderus.AgentOutput.{
  item, AgentEvent, not_object, event, line_message, and_then, last_message, final_message,
}
use coderus.Base.Text.{
  Text, codes, text_dec, text_eq, any_char, any_text, replace, starts_with, split, join, put_first,
}
use coderus.Base.Trim.{is_space, lstrip, rstrip, strip, is_break, splitlines}
use coderus.Base.Table.{All}
use coderus.Base.Distinct.{among, unique_from, Apart}
use coderus.Store.{DeveloperReport, ReviewerFinding, return}
use coderus.Findings.{
  has_drive, is_control, is_unsafe_part, is_refused_path, normalize_repository_path, ChangedRanges,
  overlaps_of, clip_to, clip_at, clip, ReviewFinding, validate_findings, unlocated_findings,
  same_finding, unique_findings,
}
use coderus.Findings.Location.{covers, normalized_path, clip_inside}
use coderus.Findings.Validation.{
  IsLocated, validate_findings_lem, length-unlocated, unique_findings_lem,
}
use coderus.Report.{
  ReviewerResult, validate_chinese_text, validate_report, parse_developer_report, review_result,
  verdicts, approve, changes_requested,
}
use coderus.Report.Sections.{IsComplete, parsed_report}
use coderus.Report.Verdict.{raises}

abbrev written : Text
written = codes "src\\app.py"

abbrev normal : Text
normal = codes "src/app.py"

written_accepted : normalize_repository_path written ≡ some normal
unfolding normalize_repository_path is_refused_path has_drive is_unsafe_part replace starts_with
    split put_first join text_dec
written_accepted = refl

normalized_path_example :
    (any_char (λ c. c == b'\\') normal ≡ false)
    × (starts_with normal (codes "/") ≡ false)
    × (has_drive normal ≡ false)
    × (any_char is_control normal ≡ false)
    × (any_text is_unsafe_part (split b'/' normal) ≡ false)
    × (normalize_repository_path normal ≡ some normal)
normalized_path_example = normalized_path written normal written_accepted

-- One changed interval, in every file.
abbrev changed : ChangedRanges
changed path side = (3, 5) ∷ []

clipped : clip changed written (codes "RIGHT") 2 5 ≡ some (3, 5)
unfolding clip clip_at clip_to overlaps_of unique_from text_dec normalize_repository_path
    is_refused_path has_drive is_unsafe_part replace starts_with split put_first join
clipped = refl

clip_inside_example :
    (path : Text) × (normalize_repository_path written ≡ some path)
    × (1 ≤ 2)
    × (2 ≤ 3)
    × (3 ≤ 5)
    × (5 ≤ 5)
    × (3 - 2 + 5 - 5 ≤ 1)
    × (covers 3 5 (changed path (codes "RIGHT")) ≡ true)
clip_inside_example = clip_inside changed (codes "RIGHT") written 2 5 3 5 clipped

abbrev finding : ReviewFinding
finding = record {
  priority = codes "P1";
  title = codes "t";
  file_path = written;
  line_side = codes "RIGHT";
  line_start = 2;
  line_end = 5;
  problem = codes "p";
  impact = codes "i";
  suggestion = codes "s";
}

-- One that is clipped, the same again, and one outside of the change.
abbrev given_findings : List ReviewFinding
given_findings = finding ∷ finding ∷ record finding { line_start = 9; line_end = 9 } ∷ []

validate_findings_lem_example :
    let published = validate_findings changed given_findings in
    All (IsLocated changed) published
    × (unlocated_findings changed published ≡ [])
    × (validate_findings changed published ≡ published)
validate_findings_lem_example = validate_findings_lem changed given_findings

length-unlocated_example :
    length given_findings
    ≡ length (validate_findings changed given_findings)
      + length (unlocated_findings changed given_findings)
length-unlocated_example = length-unlocated changed given_findings

unique_findings_lem_example :
    Apart same_finding (unique_findings given_findings)
    × All (λ f. among same_finding f (unique_findings given_findings) ≡ true) given_findings
unique_findings_lem_example = unique_findings_lem given_findings

-- A report with spaces around a section.
abbrev report : DeveloperReport
report = record {
  problem_description = codes "问题";
  problem_reproduction = codes "复现";
  solution = codes "方案";
  change_validation = codes "验证";
  regression_tests = codes "测试";
  remaining_issues = codes "无";
}

abbrev load_report : Text → Option DeveloperReport
load_report text = some (record report { solution = codes " 方案\n" })

report_parsed : parse_developer_report load_report (codes "{}") ≡ return report
unfolding parse_developer_report validate_report validate_chinese_text strip lstrip rstrip is_space
report_parsed = refl

parsed_report_example : IsComplete report × (validate_report report ≡ some report)
parsed_report_example = parsed_report load_report (codes "{}") report report_parsed

-- An output that starts with a letter A approves, and any other finds fault.
abbrev load_result : Text → Option ReviewerResult
load_result [] = none
load_result (c ∷ text) =
    some (record { contract_version = 1; decision = decided (c == 65); findings = found (c == 65) })
  where
    decided : Bool → Text
    decided true = approve
    decided false = changes_requested

    found : Bool → List ReviewerFinding
    found true = []
    found false = record { severity = codes "high"; message = codes "m"; extra = [] } ∷ []

-- Every line is a message of the agent, but `null` is no object.
abbrev read_line : Text → AgentEvent
read_line line = if text_eq line (codes "null") then not_object else event true (item true line)

abbrev outputs : List Text
outputs = codes "A" ∷ codes "B" ∷ []

-- A line that is no object is an AttributeError.
null_raises : raises (verdicts load_result read_line (codes "null" ∷ [])) ≡ true
unfolding verdicts review_result final_message last_message line_message and_then text_dec
    splitlines is_break
null_raises = refl
