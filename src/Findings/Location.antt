-- ===== src/Findings/Location.antt =====
-- What a path and a range are once they have been accepted.
use coderus.Base.{
  ℕ, ◌+◌, ◌-◌, ◌≤◌, ◌≡◌, refl, sym, ◌∙◌, Bool, true, false, ◌&&◌, ◌||◌, Option, none, some, List,
  [], ◌∷◌, ◌==◌, leb, if◌then◌else◌, is_empty, arith, Bool-cases, inl, inr,
}
use coderus.Base.Text.{
  Text, codes, any_char, any_text, replace, starts_with, split, join-split, replace_idem,
  replace-gone,
}
use coderus.Base.Table.{All}
use coderus.Base.Distinct.{unique_from}
use coderus.Findings.{
  has_drive, is_control, is_unsafe_part, is_refused_path, normalize_repository_path, ChangedRanges,
  same_pair, distinct_pairs, overlaps_of, clip_to, is_bad_range, clip_at, clip,
}

normalize_lem :
    (p : Text)
    → normalize_repository_path p
      ≡ (if is_refused_path (replace b'\\' b'/' p) then none else some (replace b'\\' b'/' p))
unfolding normalize_repository_path
normalize_lem p = rw (join-split b'/' (replace b'\\' b'/' p)) refl

-- A path that is accepted has no backslash, no leading slash, no drive, no control character and
-- no part that is empty, `.` or `..`; and to normalize it again gives it unchanged.
pub normalized_path :
    (p q : Text)
    → normalize_repository_path p ≡ some q
    → (any_char (λ c. c == b'\\') q ≡ false)
      × (starts_with q (codes "/") ≡ false)
      × (has_drive q ≡ false)
      × (any_char is_control q ≡ false)
      × (any_text is_unsafe_part (split b'/' q) ≡ false)
      × (normalize_repository_path q ≡ some q)
normalized_path p q e = elim (Bool-cases (is_refused_path (replace b'\\' b'/' p))) [
  | inl t ↦ let h : none ≡ some q = sym (normalize_lem p ∙ rw t refl) ∙ e in cc
  | inr f ↦
      let h : some (replace b'\\' b'/' p) ≡ some q = sym (normalize_lem p ∙ rw f refl) ∙ e in
      let same : replace b'\\' b'/' p ≡ q = cc in
      let plain : any_char (λ c. c == b'\\') q ≡ false =
        rw⁻¹ same (replace-gone b'\\' b'/' p refl) in
      let again : replace b'\\' b'/' q ≡ q = rw⁻¹ same (replace_idem b'\\' b'/' p refl) in
      let ok : is_refused_path q ≡ false = rw same at f in
      let (a, b, c, d) = parts q ok in (plain, a, b, c, d, normalize_lem q ∙ rw (again, ok) refl)
]
  where
    parts :
        (q : Text)
        → is_refused_path q ≡ false
        → (starts_with q (codes "/") ≡ false)
          × (has_drive q ≡ false)
          × (any_char is_control q ≡ false)
          × (any_text is_unsafe_part (split b'/' q) ≡ false)
    parts q ok = unfold is_refused_path in ground arith

-- Whether some interval has the whole range.
abbrev pub covers : ℕ → ℕ → List (ℕ × ℕ) → Bool
covers start end [] = false
covers start end ((left, right) ∷ intervals) =
    (leb left start && leb end right) || covers start end intervals

abbrev Only : ℕ → ℕ → List (ℕ × ℕ) → Type 0
Only a b ps = All (λ p. (p.0 ≡ a) × (p.1 ≡ b)) ps

Only-distinct :
    (a b : ℕ) (ps : List (ℕ × ℕ)) → Only a b ps → unique_from same_pair ((a, b) ∷ []) ps ≡ []
unfolding unique_from
Only-distinct a b [] h = refl
Only-distinct a b ((c, d) ∷ ps) h = ground (arith, Only-distinct a b ps h.1)

distinct-Only :
    (a b : ℕ) (ps : List (ℕ × ℕ)) → unique_from same_pair ((a, b) ∷ []) ps ≡ [] → Only a b ps
unfolding unique_from
distinct-Only a b [] h = tt
distinct-Only a b ((c, d) ∷ ps) h = ground (arith, distinct-Only a b ps)

overlaps-head :
    (s e a b : ℕ) (intervals rest : List (ℕ × ℕ))
    → overlaps_of s e intervals ≡ (a, b) ∷ rest
    → (s ≤ a) × (a ≤ b) × (b ≤ e) × (covers a b intervals ≡ true)
unfolding overlaps_of
overlaps-head s e a b [] rest h = cc
overlaps-head s e a b ((l, r) ∷ intervals) rest h =
    ground (arith, overlaps-head s e a b intervals rest)

Only-narrow :
    (s e a b : ℕ) (intervals : List (ℕ × ℕ))
    → s ≤ a
    → b ≤ e
    → Only a b (overlaps_of s e intervals)
    → Only a b (overlaps_of a b intervals)
unfolding overlaps_of
Only-narrow s e a b [] h k only = tt
Only-narrow s e a b ((l, r) ∷ intervals) h k only =
    ground (arith, Only-narrow s e a b intervals h k)

overlaps_found :
    (a b : ℕ) (intervals : List (ℕ × ℕ))
    → a ≤ b
    → covers a b intervals ≡ true
    → is_empty (overlaps_of a b intervals) ≡ false
unfolding overlaps_of
overlaps_found a b [] h c = cc
overlaps_found a b ((l, r) ∷ intervals) h c = ground (arith, overlaps_found a b intervals h)

-- A range is clipped only to the one part that all overlapping intervals have.
clip_to-Only :
    (s e a b : ℕ) (overlaps : List (ℕ × ℕ))
    → clip_to s e (distinct_pairs overlaps) ≡ some (a, b)
    → (rest : List (ℕ × ℕ)) × (overlaps ≡ (a, b) ∷ rest) × Only a b rest × (a - s + e - b ≤ 1)
unfolding clip_to unique_from
clip_to-Only s e a b [] h = cc
clip_to-Only s e a b ((c, d) ∷ ps) h = one (unique_from same_pair ((c, d) ∷ []) ps) refl h
  where
    found : clip_to s e ((c, d) ∷ []) ≡ some (a, b) → (c ≡ a) × (d ≡ b) × (a - s + e - b ≤ 1)
    found h = ground arith

    one :
        (tail : List (ℕ × ℕ))
        → unique_from same_pair ((c, d) ∷ []) ps ≡ tail
        → clip_to s e ((c, d) ∷ tail) ≡ some (a, b)
        → (rest : List (ℕ × ℕ)) × ((c, d) ∷ ps ≡ (a, b) ∷ rest)
          × Only a b rest
          × (a - s + e - b ≤ 1)
    one [] q h =
        let (left, right, narrow) = found h in
        (ps, rw (left, right) refl, rw (left, right) at (distinct-Only c d ps q), narrow)
    one (x ∷ tail) q h = cc

clip_to_single :
    (a b : ℕ) (os : List (ℕ × ℕ))
    → is_empty os ≡ false
    → Only a b os
    → clip_to a b (distinct_pairs os) ≡ some (a, b)
unfolding clip_to unique_from
clip_to_single a b [] h only = cc
clip_to_single a b ((c, d) ∷ ps) h only =
    let none_left : unique_from same_pair ((c, d) ∷ []) ps ≡ [] =
      Only-distinct c d ps (rw (only.0.0, only.0.1) (only.1)) in
    rw none_left (ground arith)

module _ (ranges : ChangedRanges) (side : Text) where
  -- What a clipped range of a normalized path is.
  IsClip : Text → ℕ → ℕ → ℕ → ℕ → Type 0
  IsClip path s e a b =
      (is_bad_range side s e ≡ false)
      × ((rest : List (ℕ × ℕ)) × (overlaps_of s e (ranges path side) ≡ (a, b) ∷ rest)
          × Only a b rest
          × (a - s + e - b ≤ 1))

  clip_at-IsClip :
      (path : Text) (s e a b : ℕ)
      → clip_at ranges (some path) side s e ≡ some (a, b)
      → IsClip path s e a b
  unfolding clip_at IsClip
  clip_at-IsClip path s e a b h = elim (Bool-cases (is_bad_range side s e)) [
    | inl t ↦ let no_clip : ◌≡◌ {A = Option (ℕ × ℕ)} none (some (a, b)) = rw t at h in cc
    | inr f ↦ (f, clip_to-Only s e a b (overlaps_of s e (ranges path side)) (rw f at h))
  ]

  clip_path :
      (p : Text) (s e a b : ℕ)
      → clip ranges p side s e ≡ some (a, b)
      → (path : Text) × (normalize_repository_path p ≡ some path) × IsClip path s e a b
  unfolding clip
  clip_path p s e a b h = of (normalize_repository_path p) refl h
    where
      of :
          (o : Option Text)
          → normalize_repository_path p ≡ o
          → clip_at ranges o side s e ≡ some (a, b)
          → (path : Text) × (normalize_repository_path p ≡ some path) × IsClip path s e a b
      of none q h = unfold clip_at in cc
      of (some path) q h = (path, q, clip_at-IsClip path s e a b h)

  -- A range that is clipped starts at 1 or later, becomes a range that lies in it and within one
  -- changed interval of its normalized path, and loses at most one line.
  pub clip_inside :
      (p : Text) (s e a b : ℕ)
      → clip ranges p side s e ≡ some (a, b)
      → (path : Text) × (normalize_repository_path p ≡ some path)
        × (1 ≤ s)
        × (s ≤ a)
        × (a ≤ b)
        × (b ≤ e)
        × (a - s + e - b ≤ 1)
        × (covers a b (ranges path side) ≡ true)
  unfolding IsClip
  clip_inside p s e a b h =
      let (path, q, (good, (rest, os, only, narrow))) = clip_path p s e a b h in
      let (from, order, to, covered) = overlaps-head s e a b (ranges path side) rest os in
      (path, q, ground arith, from, order, to, narrow, covered)

  -- A clipped range is clipped to itself.
  pub clip_idem :
      (p : Text) (s e a b : ℕ)
      → clip ranges p side s e ≡ some (a, b)
      → clip ranges p side a b ≡ some (a, b)
  unfolding IsClip
  clip_idem p s e a b h =
      let (path, q, (good, (rest, os, only, narrow))) = clip_path p s e a b h in
      let (from, order, to, covered) = overlaps-head s e a b (ranges path side) rest os in
      let all : Only a b (overlaps_of s e (ranges path side)) = rw os ((refl, refl), only) in
      let again = Only-narrow s e a b (ranges path side) from to all in
      let some_left = overlaps_found a b (ranges path side) order covered in
      let fine : is_bad_range side a b ≡ false = ground arith in
      unfold clip in rw q (unfold clip_at in rw fine (clip_to_single a b _ some_left again))
