-- ===== src/Base/Equality.antt =====
-- Python's `==` and `in` on texts and on enumerations, by decisions.
use Prim.Native.String.{String}
use mathlib.Core.Logic.{ite, dite}
use mathlib.Core.Bool.{Bool, true, false, ◌||◌, Bool-discrete}
use mathlib.Core.Option.{Option, none, some}
use mathlib.Core.List.{List, [], ◌∷◌}
use text.Mathlib.Text
use text.Mathlib.TextEquality.{eq_iff}

-- Shut in proofs, where a split on the decision yields the equation or its negation.
unfoldable pub string_dec : Discrete String
string_dec s t =
    dite (Bool-discrete (Text.◌==◌ s t) true) (λ same. yes ((eq_iff s t).0 same))
      (λ differ. no (λ p. differ ((eq_iff s t).1 p)))

abbrev pub str_eq : String → String → Bool
str_eq s t = ite (string_dec s t) true false

-- SQL's `column = value`, which is not true of a NULL column.
abbrev pub column_eq : Option String → String → Bool
column_eq none s = false
column_eq (some t) s = str_eq t s

-- `bool(value)` of an optional text.
abbrev pub truthy : Option String → Bool
truthy none = false
truthy (some s) = ite (string_dec s "") false true

-- `value in values`
abbrev pub contains {ℓ} : {A : Type ℓ} → Discrete A → List A → A → Bool
contains dec [] a = false
contains dec (x ∷ xs) a = ite (dec a x) true false || contains dec xs a
