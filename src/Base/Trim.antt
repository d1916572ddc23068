-- ===== src/Base/Trim.antt =====
-- The ends of a text: Python's `strip`, `splitlines` and slices from the end.
use Prim.Native.Nat.{ℕ, zero, suc, ◌-◌}
use mathlib.Core.Path.{◌≡◌, refl}
use mathlib.Core.Logic.{inl, inr}
use mathlib.Core.Bool.{Bool, true, not, ◌&&◌, ◌||◌}
use mathlib.Core.List.{List, [], ◌∷◌}
use native.Mathlib.Omega.{arith}
use coderus.Base.Tests.{◌==◌, leb, if◌then◌else◌, Bool-cases, length, is_empty}
use coderus.Base.Text.{Text, put_first}

-- `str.isspace` of one character.
unfoldable pub is_space : ℕ → Bool
is_space c =
    (leb 9 c && leb c 13)
    || (leb 28 c && leb c 32)
    || c == 133
    || c == 160
    || c == 5760
    || (leb 8192 c && leb c 8202)
    || c == 8232
    || c == 8233
    || c == 8239
    || c == 8287
    || c == 12288

unfoldable pub lstrip : Text → Text
lstrip [] = []
lstrip (c ∷ s) = let rest = lstrip s in if is_space c then rest else c ∷ s

unfoldable pub rstrip : Text → Text
rstrip [] = []
rstrip (c ∷ s) = let rest = rstrip s in if is_empty rest && is_space c then [] else c ∷ rest

-- `text.strip()`
unfoldable pub strip : Text → Text
strip s = rstrip (lstrip s)

-- The line breaks of `splitlines`, of which `\r\n` is one.
unfoldable pub is_break : ℕ → Bool
is_break c = (leb 10 c && leb c 13) || (leb 28 c && leb c 30) || c == 133 || c == 8232 || c == 8233

unfoldable pub splitlines : Text → List Text
unfolding put_first
splitlines [] = []
splitlines (c ∷ []) = if is_break c then [] ∷ [] else (c ∷ []) ∷ []
splitlines (c ∷ d ∷ s) =
    let rest = splitlines (d ∷ s) in
    let after = splitlines s in
    if c == 13 && d == 10 then [] ∷ after else (if is_break c then [] ∷ rest else put_first c rest)

-- `text[-n:]`
unfoldable pub drop : ℕ → Text → Text
drop zero s = s
drop (suc n) [] = []
drop (suc n) (c ∷ s) = drop n s

unfoldable pub last : ℕ → Text → Text
last n s = drop (length s - n) s

pub length-drop : (n : ℕ) (s : Text) → length (drop n s) ≡ length s - n
unfolding drop
length-drop zero s = omega arith
length-drop (suc n) [] = omega arith
length-drop (suc n) (c ∷ s) = omega (arith, length-drop n s)

rstrip_idem : (s : Text) → rstrip (rstrip s) ≡ rstrip s
unfolding rstrip
rstrip_idem [] = refl
rstrip_idem (c ∷ s) = elim (Bool-cases (is_empty (rstrip s) && is_space c)) [
  | inl t ↦ rw t refl
  | inr f ↦ rw (f, rstrip_idem s) (rw f refl)
]

-- Whether the first character, if any, is no space.
abbrev plain_start : Text → Bool
plain_start [] = true
plain_start (c ∷ s) = not (is_space c)

plain_start-lstrip : (s : Text) → plain_start (lstrip s) ≡ true
unfolding lstrip
plain_start-lstrip [] = refl
plain_start-lstrip (c ∷ s) = elim (Bool-cases (is_space c)) [
  | inl t ↦ rw t (plain_start-lstrip s)
  | inr f ↦ rw f (rw f refl)
]

-- What has no space in front has none after its end was stripped.
lstrip-rstrip : (s : Text) → plain_start s ≡ true → lstrip (rstrip s) ≡ rstrip s
unfolding lstrip rstrip
lstrip-rstrip [] h = refl
lstrip-rstrip (c ∷ s) h = elim (Bool-cases (is_space c)) [
  | inl t ↦ let no_space : not true ≡ true = rw t at h in cc
  | inr f ↦ elim (Bool-cases (is_empty (rstrip s))) [
    | inl e ↦ rw (f, e) (rw f refl)
    | inr e ↦ rw (f, e) (rw f refl)
  ]
]

pub strip_idem : (s : Text) → strip (strip s) ≡ strip s
unfolding strip
strip_idem s = rw (lstrip-rstrip (lstrip s) (plain_start-lstrip s)) (rstrip_idem (lstrip s))
