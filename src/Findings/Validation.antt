-- ===== src/Findings/Validation.antt =====
-- The findings that are published, those that wait for a person, and the ones that are repeated.
use coderus.Base.{
  ◌+◌, ◌≡◌, refl, ap, true, some, List, [], ◌∷◌, length, arith, Option-cases, inl, inr,
}
use coderus.Base.Table.{All}
use coderus.Base.Distinct.{among, Apart, unique_from-Apart, unique_from-kept}
use coderus.Findings.{
  ChangedRanges, clip_finding, rejection_reason, ReviewFinding, validate_findings,
  unlocated_findings, same_finding, unique_findings,
}
use coderus.Findings.Location.{clip_idem}

module _ (ranges : ChangedRanges) where
  -- A finding that stands where it is clipped to.
  abbrev pub IsLocated : ReviewFinding → Type 0
  IsLocated f = clip_finding ranges f ≡ some (f.line_start, f.line_end)

  validate_findings-IsLocated :
      (fs : List ReviewFinding) → All IsLocated (validate_findings ranges fs)
  unfolding validate_findings
  validate_findings-IsLocated [] = tt
  validate_findings-IsLocated (f ∷ fs) = elim (Option-cases (clip_finding ranges f)) [
    | inl e ↦ rw e (validate_findings-IsLocated fs)
    | inr ((a, b), e) ↦ rw e (
      clip_idem ranges f.line_side f.file_path f.line_start f.line_end a b e,
      validate_findings-IsLocated fs,
    )
  ]

  located_nothing_pending :
      (fs : List ReviewFinding) → All IsLocated fs → unlocated_findings ranges fs ≡ []
  unfolding unlocated_findings rejection_reason
  located_nothing_pending [] h = refl
  located_nothing_pending (f ∷ fs) h = rw (h.0) (located_nothing_pending fs h.1)

  located_unchanged :
      (fs : List ReviewFinding) → All IsLocated fs → validate_findings ranges fs ≡ fs
  unfolding validate_findings
  located_unchanged [] h = refl
  located_unchanged (f ∷ fs) h = rw (h.0) (ap (λ rest. f ∷ rest) (located_unchanged fs h.1))

  -- The findings that are kept all stand where they are clipped to, none of them has a reason to
  -- be rejected, and to validate them again gives them unchanged.
  pub validate_findings_lem :
      (fs : List ReviewFinding)
      → let published = validate_findings ranges fs in
        All IsLocated published
        × (unlocated_findings ranges published ≡ [])
        × (validate_findings ranges published ≡ published)
  validate_findings_lem fs =
      let located = validate_findings-IsLocated fs in
      (located, located_nothing_pending _ located, located_unchanged _ located)

  -- Of all findings, as many are kept as have no reason to be rejected: the kept and the
  -- rejected ones together are as many as there were.
  pub length-unlocated :
      (fs : List ReviewFinding)
      → length fs ≡ length (validate_findings ranges fs) + length (unlocated_findings ranges fs)
  unfolding validate_findings unlocated_findings rejection_reason
  length-unlocated [] = omega arith
  length-unlocated (f ∷ fs) = elim (Option-cases (clip_finding ranges f)) [
    | inl e ↦ rw e (omega (arith, length-unlocated fs))
    | inr (p, e) ↦ rw e (omega (arith, length-unlocated fs))
  ]

same_finding_self : (f : ReviewFinding) → same_finding f f ≡ true
same_finding_self f = ground arith

-- Of the findings that remain no two are the same, and each of those given is the same as one
-- that remains.
pub unique_findings_lem :
    (fs : List ReviewFinding)
    → Apart same_finding (unique_findings fs)
      × All (λ f. among same_finding f (unique_findings fs) ≡ true) fs
unfolding unique_findings
unique_findings_lem fs =
    (unique_from-Apart same_finding [] fs, unique_from-kept same_finding same_finding_self [] fs)
