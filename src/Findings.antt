-- ===== src/Findings.antt =====
-- coderus/pr_review/models.py and coderus/pr_review/result.py: the findings of a review, and the
-- lines of a change to which they are clipped before they are published.
pub mod Location
pub mod Validation
use coderus.Base.{
  ℕ, ◌+◌, ◌-◌, Bool, true, false, not, ◌&&◌, ◌||◌, String, Option, none, some, List, [], ◌∷◌, ◌==◌,
  ltb, leb, if◌then◌else◌, is_some, length, min, max, is_empty,
}
use coderus.Base.Distinct.{unique_from}
use coderus.Base.Text.{
  Text, codes, text_dec, text_eq, any_char, any_text, replace, starts_with, split, join,
}

-- `_WINDOWS_ABSOLUTE_PATH`
abbrev is_letter : ℕ → Bool
is_letter c = (leb b'A' c && leb c b'Z') || (leb b'a' c && leb c b'z')

unfoldable pub has_drive : Text → Bool
has_drive (c ∷ d ∷ e ∷ rest) = is_letter c && d == b':' && e == b'/'
has_drive _ = false

abbrev pub is_control : ℕ → Bool
is_control c = (ltb c 32 && not (c == 9)) || c == 127

-- The parts that a path may not have.
unfoldable pub is_unsafe_part : Text → Bool
is_unsafe_part p = text_eq p [] || text_eq p (codes ".") || text_eq p (codes "..")

unfoldable pub is_refused_path : Text → Bool
is_refused_path path =
    is_empty path
    || starts_with path (codes "/")
    || has_drive path
    || any_char is_control path
    || any_text is_unsafe_part (split b'/' path)

-- `normalize_repository_path`
unfoldable pub normalize_repository_path : Text → Option Text
normalize_repository_path file_path =
    let path = replace b'\\' b'/' file_path in
    if is_refused_path path then none else some (join b'/' (split b'/' path))

-- A mapping from a path and a side to the changed intervals, which are none where it has no entry.
abbrev pub ChangedRanges : Type 0
ChangedRanges = Text → Text → List (ℕ × ℕ)

abbrev pub same_pair : ℕ × ℕ → ℕ × ℕ → Bool
same_pair (a, b) (c, d) = a == c && b == d

-- `dict.fromkeys`, or a set: each pair once.
abbrev pub distinct_pairs : List (ℕ × ℕ) → List (ℕ × ℕ)
distinct_pairs ps = unique_from same_pair [] ps

-- The parts of the intervals that lie in the range.
unfoldable pub overlaps_of : ℕ → ℕ → List (ℕ × ℕ) → List (ℕ × ℕ)
overlaps_of start end [] = []
overlaps_of start end ((left, right) ∷ intervals) =
    let rest = overlaps_of start end intervals in
    if leb (max start left) (min end right) then (max start left, min end right) ∷ rest else rest

-- At most one line of context is dropped.
unfoldable pub clip_to : ℕ → ℕ → List (ℕ × ℕ) → Option (ℕ × ℕ)
clip_to start end [] = none
clip_to start end ((clipped_start, clipped_end) ∷ []) =
    if leb (clipped_start - start + end - clipped_end) 1
    then some (clipped_start, clipped_end)
    else none
clip_to start end (_ ∷ _ ∷ _) = none

abbrev pub is_bad_range : Text → ℕ → ℕ → Bool
is_bad_range side start end =
    not (text_eq side (codes "LEFT") || text_eq side (codes "RIGHT"))
    || ltb start 1
    || ltb end start

unfoldable pub clip_at : ChangedRanges → Option Text → Text → ℕ → ℕ → Option (ℕ × ℕ)
clip_at ranges none side start end = none
clip_at ranges (some path) side start end =
    if is_bad_range side start end
    then none
    else clip_to start end (distinct_pairs (overlaps_of start end (ranges path side)))

-- `ChangedRanges.clip`
unfoldable pub clip : ChangedRanges → Text → Text → ℕ → ℕ → Option (ℕ × ℕ)
clip ranges file_path side start end =
    clip_at ranges (normalize_repository_path file_path) side start end

abbrev is_pair : ℕ × ℕ → Option (ℕ × ℕ) → Bool
is_pair p none = false
is_pair p (some q) = same_pair q p

-- `ChangedRanges.contains`
unfoldable pub contains_range : ChangedRanges → Text → Text → ℕ → ℕ → Bool
contains_range ranges file_path side start end =
    is_pair (start, end) (clip ranges file_path side start end)

-- The texts of `rejection_reason`.
pub data Reason : Type 0 where
  invalid_location no_changed_lines outside_changes several_intervals too_much_context : Reason

unfoldable pub reason_of : List (ℕ × ℕ) → List (ℕ × ℕ) → Reason
reason_of [] overlaps = no_changed_lines
reason_of (_ ∷ _) [] = outside_changes
reason_of (_ ∷ _) (_ ∷ []) = too_much_context
reason_of (_ ∷ _) (_ ∷ _ ∷ _) = several_intervals

unfoldable pub reason_at : ChangedRanges → Option Text → Text → ℕ → ℕ → Reason
reason_at ranges none side start end = invalid_location
reason_at ranges (some path) side start end =
    if is_bad_range side start end
    then invalid_location
    else reason_of (ranges path side) (distinct_pairs (overlaps_of start end (ranges path side)))

-- `ChangedRanges.rejection_reason`
unfoldable pub rejection_reason : ChangedRanges → Text → Text → ℕ → ℕ → Option Reason
rejection_reason ranges file_path side start end =
    if is_some (clip ranges file_path side start end)
    then none
    else some (reason_at ranges (normalize_repository_path file_path) side start end)

-- `ReviewFinding`, whose texts have been checked.
pub record ReviewFinding : Type 0 where
  pub priority : Text
  pub title : Text
  pub file_path : Text
  pub line_side : Text
  pub line_start : ℕ
  pub line_end : ℕ
  pub problem : Text
  pub impact : Text
  pub suggestion : Text

abbrev pub clip_finding : ChangedRanges → ReviewFinding → Option (ℕ × ℕ)
clip_finding ranges f = clip ranges f.file_path f.line_side f.line_start f.line_end

abbrev pub with_lines : ReviewFinding → ℕ × ℕ → ReviewFinding
with_lines f (start, end) = record f { line_start = start; line_end = end }

abbrev keep_clipped : ReviewFinding → Option (ℕ × ℕ) → List ReviewFinding → List ReviewFinding
keep_clipped f none rest = rest
keep_clipped f (some lines) rest = with_lines f lines ∷ rest

-- The findings of `validate_findings`.
unfoldable pub validate_findings : ChangedRanges → List ReviewFinding → List ReviewFinding
validate_findings ranges [] = []
validate_findings ranges (f ∷ fs) =
    keep_clipped f (clip_finding ranges f) (validate_findings ranges fs)

abbrev add_pending :
    ReviewFinding → Option Reason → List (ReviewFinding × Reason) → List (ReviewFinding × Reason)
add_pending f none rest = rest
add_pending f (some reason) rest = (f, reason) ∷ rest

-- `unlocated_findings`
unfoldable pub unlocated_findings :
    ChangedRanges → List ReviewFinding → List (ReviewFinding × Reason)
unlocated_findings ranges [] = []
unlocated_findings ranges (f ∷ fs) =
    add_pending f (rejection_reason ranges f.file_path f.line_side f.line_start f.line_end)
      (unlocated_findings ranges fs)

-- The key of `_unique_findings`.
abbrev pub same_finding : ReviewFinding → ReviewFinding → Bool
same_finding f g =
    text_eq f.file_path g.file_path
    && text_eq f.line_side g.line_side
    && f.line_start == g.line_start
    && f.line_end == g.line_end
    && text_eq f.priority g.priority
    && text_eq f.title g.title
    && text_eq f.problem g.problem

-- `_unique_findings`
unfoldable pub unique_findings : List ReviewFinding → List ReviewFinding
unique_findings fs = unique_from same_finding [] fs
