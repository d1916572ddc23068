-- ===== src/Base/Text.antt =====
-- Texts that the program walks: lists of code points, with Python's `split`, `join` and `replace`.
use Prim.Native.Nat.{ℕ}
use Prim.Native.Char.{code}
use Prim.Native.String.{String}
use mathlib.Core.Path.{◌≡◌, refl, sym, ap, ◌∙◌}
use mathlib.Core.Logic.{inl, inr, dite, ite}
use mathlib.Core.Bool.{Bool, true, false, ◌&&◌, ◌||◌, Bool-discrete}
use mathlib.Core.List.{List, [], ◌∷◌, ◌++◌}
use native.Mathlib.Omega.{arith}
use coderus.Base.Tests.{◌==◌, if◌then◌else◌, Bool-cases}

abbrev pub Text : Type 0
Text = List ℕ

-- A literal's code points.
abbrev pub codes : String → Text
codes String.[] = []
codes (String.◌∷◌ c s) = code c ∷ codes s

same_text : Text → Text → Bool
same_text [] [] = true
same_text (x ∷ xs) (y ∷ ys) = x == y && same_text xs ys
same_text _ _ = false

same_text_sound : (s t : Text) → same_text s t ≡ true → s ≡ t
unfolding same_text
same_text_sound [] [] h = refl
same_text_sound [] (y ∷ ys) h = cc
same_text_sound (x ∷ xs) [] h = cc
same_text_sound (x ∷ xs) (y ∷ ys) h = ground (arith, same_text_sound xs ys)

same_text_self : (s : Text) → same_text s s ≡ true
unfolding same_text
same_text_self [] = refl
same_text_self (x ∷ xs) = ground (arith, same_text_self xs)

-- Shut in proofs, where a split on the decision yields the equation or its negation.
unfoldable pub text_dec : Discrete Text
unfolding same_text same_text_sound same_text_self
text_dec s t =
    dite (Bool-discrete (same_text s t) true) (λ same. yes (same_text_sound s t same))
      (λ differ. no (λ p. differ (ap (same_text s) (sym p) ∙ same_text_self s)))

abbrev pub text_eq : Text → Text → Bool
text_eq s t = ite (text_dec s t) true false

-- `c in text`, on a test of one character.
abbrev pub any_char : (ℕ → Bool) → Text → Bool
any_char p [] = false
any_char p (c ∷ s) = p c || any_char p s

abbrev pub any_text : (Text → Bool) → List Text → Bool
any_text p [] = false
any_text p (t ∷ ts) = p t || any_text p ts

-- `text.replace(old, new)` for single characters.
unfoldable pub replace : ℕ → ℕ → Text → Text
replace old new [] = []
replace old new (c ∷ s) = (if c == old then new else c) ∷ replace old new s

-- `text.startswith(prefix)`
unfoldable pub starts_with : Text → Text → Bool
starts_with s [] = true
starts_with [] (p ∷ ps) = false
starts_with (c ∷ s) (p ∷ ps) = (c == p) && starts_with s ps

-- `text.split(sep)`: one part more than there are separators.
unfoldable pub put_first : ℕ → List Text → List Text
put_first c [] = (c ∷ []) ∷ []
put_first c (p ∷ ps) = (c ∷ p) ∷ ps

unfoldable pub split : ℕ → Text → List Text
unfolding put_first
split sep [] = [] ∷ []
split sep (c ∷ s) = let parts = split sep s in if c == sep then [] ∷ parts else put_first c parts

-- `sep.join(parts)`
unfoldable pub join : ℕ → List Text → Text
join sep [] = []
join sep (p ∷ []) = p
join sep (p ∷ q ∷ ps) = p ++ (sep ∷ join sep (q ∷ ps))

split-cons : (sep : ℕ) (s : Text) → (q : Text) × (qs : List Text) × (split sep s ≡ q ∷ qs)
unfolding split put_first
split-cons sep [] = ([], [], refl)
split-cons sep (c ∷ s) = elim (Bool-cases (c == sep)) [
  | inl t ↦ ([], split sep s, rw t refl)
  | inr f ↦ let (q, qs, e) = split-cons sep s in (c ∷ q, qs, rw f (rw e refl))
]

join-put_first : (sep c : ℕ) (ps : List Text) → join sep (put_first c ps) ≡ c ∷ join sep ps
unfolding join put_first
join-put_first sep c [] = refl
join-put_first sep c (p ∷ []) = refl
join-put_first sep c (p ∷ q ∷ ps) = refl

-- Joining the parts of a text gives the text.
pub join-split : (sep : ℕ) (s : Text) → join sep (split sep s) ≡ s
unfolding split join
join-split sep [] = refl
join-split sep (c ∷ s) = elim (Bool-cases (c == sep)) [
  | inl t ↦
      let (q, qs, e) = split-cons sep s in
      let same : c ≡ sep = ground arith in
      let rest : sep ∷ join sep (q ∷ qs) ≡ sep ∷ s =
        ap (λ u. sep ∷ u) (ap (join sep) (sym e) ∙ join-split sep s) in
      rw (t, same) (rw e rest)
  | inr f ↦ rw f (join-put_first sep c (split sep s) ∙ ap (λ u. c ∷ u) (join-split sep s))
]

-- A second replacement finds nothing to replace.
pub replace_idem :
    (old new : ℕ) (s : Text)
    → ((old == new) ≡ false)
    → replace old new (replace old new s) ≡ replace old new s
unfolding replace
replace_idem old new [] h = refl
replace_idem old new (c ∷ s) h = ground (arith, replace_idem old new s h)

pub replace-gone :
    (old new : ℕ) (s : Text)
    → ((old == new) ≡ false)
    → any_char (λ c. c == old) (replace old new s) ≡ false
unfolding replace
replace-gone old new [] h = refl
replace-gone old new (c ∷ s) h = ground (arith, replace-gone old new s h)
