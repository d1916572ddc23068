-- ===== src/Report/Sections.antt =====
-- What the sections of a developer's report are once they have been accepted.
use coderus.Base.{◌≡◌, refl, ◌∙◌, true, false, Option, none, some, is_empty, arith}
use coderus.Base.Text.{Text, any_char}
use coderus.Base.Trim.{strip, strip_idem}
use coderus.Store.{DeveloperReport, return}
use coderus.Report.{
  is_chinese, validate_chinese_text, report_of, checked_report, validate_loaded, validate_report,
  parse_developer_report,
}

abbrev pub IsSection : Text → Type 0
IsSection s = (is_empty s ≡ false) × (strip s ≡ s) × (any_char is_chinese s ≡ true)

validate_chinese_text-IsSection : (s t : Text) → validate_chinese_text s ≡ some t → IsSection t
unfolding validate_chinese_text
validate_chinese_text-IsSection s t h =
    let (full, chinese, same) : (is_empty (strip s) ≡ false)
        × (any_char is_chinese (strip s) ≡ true)
        × (strip s ≡ t) =
      ground arith in
    let whole : IsSection (strip s) = (full, strip_idem s, chinese) in rw same at whole

section_again : (s : Text) → IsSection s → validate_chinese_text s ≡ some s
unfolding validate_chinese_text
section_again s (full, plain, chinese) = rw (plain, full, chinese) refl

-- A report with all its sections.
abbrev pub IsComplete : DeveloperReport → Type 0
IsComplete r =
    IsSection r.problem_description
    × IsSection r.problem_reproduction
    × IsSection r.solution
    × IsSection r.change_validation
    × IsSection r.regression_tests
    × IsSection r.remaining_issues

complete_again : (r : DeveloperReport) → IsComplete r → validate_report r ≡ some r
unfolding validate_report
complete_again r (p, q, s, v, t, i) =
    rw
      (
        section_again r.problem_description p,
        section_again r.problem_reproduction q,
        section_again r.solution s,
        section_again r.change_validation v,
        section_again r.regression_tests t,
        section_again r.remaining_issues i,
      )
      refl

report_of-some :
    (p q s v t i : Option Text) (r : DeveloperReport)
    → report_of p q s v t i ≡ some r
    → (p ≡ some r.problem_description)
      × (q ≡ some r.problem_reproduction)
      × (s ≡ some r.solution)
      × (v ≡ some r.change_validation)
      × (t ≡ some r.regression_tests)
      × (i ≡ some r.remaining_issues)
report_of-some (some p) (some q) (some s) (some v) (some t) (some i) r h = ground arith
report_of-some none q s v t i r h = cc
report_of-some (some p) none s v t i r h = cc
report_of-some (some p) (some q) none v t i r h = cc
report_of-some (some p) (some q) (some s) none t i r h = cc
report_of-some (some p) (some q) (some s) (some v) none i r h = cc
report_of-some (some p) (some q) (some s) (some v) (some t) none r h = cc

complete : (payload r : DeveloperReport) → validate_report payload ≡ some r → IsComplete r
unfolding validate_report
complete payload r h =
    let (p, q, s, v, t, i) = report_of-some _ _ _ _ _ _ r h in
    (
      validate_chinese_text-IsSection payload.problem_description _ p,
      validate_chinese_text-IsSection payload.problem_reproduction _ q,
      validate_chinese_text-IsSection payload.solution _ s,
      validate_chinese_text-IsSection payload.change_validation _ v,
      validate_chinese_text-IsSection payload.regression_tests _ t,
      validate_chinese_text-IsSection payload.remaining_issues _ i,
    )

-- A report that is accepted has six sections that are not empty, have no space at their ends and
-- have a Chinese character; and to validate it again gives it unchanged.
pub parsed_report :
    (loads : Text → Option DeveloperReport) (text : Text) (r : DeveloperReport)
    → parse_developer_report loads text ≡ return r
    → IsComplete r × (validate_report r ≡ some r)
unfolding parse_developer_report
parsed_report loads text r h = found (loads text) h
  where
    accepted :
        (payload : DeveloperReport)
        → (o : Option DeveloperReport) → validate_report payload ≡ o
        → checked_report o ≡ return r
        → IsComplete r × (validate_report r ≡ some r)
    accepted payload none e h = cc
    accepted payload (some x) e h =
        let same : x ≡ r = cc in
        let whole = complete payload r (e ∙ rw same refl) in (whole, complete_again r whole)

    found :
        (o : Option DeveloperReport)
        → checked_report (validate_loaded o) ≡ return r
        → IsComplete r × (validate_report r ≡ some r)
    found none h = cc
    found (some payload) h = accepted payload (validate_report payload) refl h
