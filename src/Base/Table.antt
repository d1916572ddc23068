-- ===== src/Base/Table.antt =====
-- Tables: the rows of one SQL table as a list, and the statements that read and update them.
pub mod Keyed
use Prim.Native.Nat.{ℕ, ◌+◌}
use mathlib.Core.Path.{◌≡◌, refl}
use mathlib.Core.Logic.{inl, inr}
use mathlib.Core.Bool.{Bool, true, false}
use mathlib.Core.Option.{Option, none, some}
use mathlib.Core.List.{List, [], ◌∷◌}
use native.Mathlib.Omega.{arith}
use coderus.Base.Tests.{if◌then◌else◌, Bool-cases}

-- A predicate by recursion, which the tactics read and build.
abbrev pub All {ℓ κ} : {A : Type ℓ} → (A → Type κ) → List A → Type κ
All P [] = Unit
All P (x ∷ xs) = P x × All P xs

-- 1 for true and 0 for false.
abbrev pub bit : Bool → ℕ
bit true = 1
bit false = 0

module _ {ℓ} {A : Type ℓ} where
  -- `SELECT ... WHERE p`, the first row: `one_or_none`, `scalar` or `get`.
  unfoldable pub find_where : (A → Bool) → List A → Option A
  find_where p [] = none
  find_where p (x ∷ xs) = let rest = find_where p xs in if p x then some x else rest

  -- `SELECT ... WHERE p`, all rows.
  unfoldable pub select_where : (A → Bool) → List A → List A
  select_where p [] = []
  select_where p (x ∷ xs) = let rest = select_where p xs in if p x then x ∷ rest else rest

  -- `UPDATE ... WHERE p SET f`
  unfoldable pub update_where : (A → Bool) → (A → A) → List A → List A
  update_where p f [] = []
  update_where p f (x ∷ xs) = (if p x then f x else x) ∷ update_where p f xs

  -- `SELECT count(*) WHERE p`, and the `rowcount` of an update.
  unfoldable pub count_where : (A → Bool) → List A → ℕ
  count_where p [] = 0
  count_where p (x ∷ xs) = bit (p x) + count_where p xs

  -- `INSERT`: rows are kept in the order of insertion.
  unfoldable pub insert_row : A → List A → List A
  insert_row a [] = a ∷ []
  insert_row a (x ∷ xs) = x ∷ insert_row a xs

module _ {ℓ κ} {A : Type ℓ} (P : A → Type κ) where
  pub find_where-All :
      (p : A → Bool) (xs : List A) {c : A}
      → All P xs
      → find_where p xs ≡ some c
      → P c × (p c ≡ true)
  unfolding find_where
  find_where-All p [] h e = cc
  find_where-All p (x ∷ xs) {c} h e = elim (Bool-cases (p x)) [
    | inl t ↦
        let same : some x ≡ some c = rw t at e in let eq : x ≡ c = cc in (rw eq at h.0, rw eq at t)
    | inr f ↦ find_where-All p xs h.1 (rw f at e)
  ]

  pub update_where-All :
      (p : A → Bool) (f : A → A) (xs : List A)
      → All P xs
      → ((x : A) → P x → p x ≡ true → P (f x))
      → All P (update_where p f xs)
  unfolding update_where
  update_where-All p f [] h keep = tt
  update_where-All p f (x ∷ xs) h keep = (
    elim (Bool-cases (p x)) [ inl t ↦ rw t (keep x h.0 t) | inr e ↦ rw e h.0 ],
    update_where-All p f xs h.1 keep,
  )

  pub insert_row-All : (a : A) (xs : List A) → P a → All P xs → All P (insert_row a xs)
  unfolding insert_row
  insert_row-All a [] pa h = (pa, tt)
  insert_row-All a (x ∷ xs) pa h = (h.0, insert_row-All a xs pa h.1)

pub All-map {ℓ κ μ} :
    {A : Type ℓ} {P : A → Type κ} {Q : A → Type μ} (xs : List A)
    → ((x : A) → P x → Q x)
    → All P xs
    → All Q xs
All-map [] f h = tt
All-map (x ∷ xs) f h = (f x h.0, All-map xs f h.1)

module _ {ℓ} {A : Type ℓ} where
  pub find_where-none :
      (p : A → Bool) (xs : List A) → find_where p xs ≡ none → All (λ x. p x ≡ false) xs
  unfolding find_where
  find_where-none p [] e = tt
  find_where-none p (x ∷ xs) e = elim (Bool-cases (p x)) [
    | inl t ↦ let h : some x ≡ none = rw t at e in cc
    | inr f ↦ (f, find_where-none p xs (rw f at e))
  ]

  pub update_where-none :
      (p : A → Bool) (f : A → A) (xs : List A)
      → All (λ x. p x ≡ false) xs
      → update_where p f xs ≡ xs
  unfolding update_where
  update_where-none p f [] h = refl
  update_where-none p f (x ∷ xs) h = rw (h.0) (rw (update_where-none p f xs h.1))

  pub count_where-none :
      (p : A → Bool) (xs : List A) → All (λ x. p x ≡ false) xs → count_where p xs ≡ 0
  unfolding count_where
  count_where-none p [] h = refl
  count_where-none p (x ∷ xs) h = rw (h.0) (omega (arith, count_where-none p xs h.1))

  pub count_where-insert_row :
      (p : A → Bool) (a : A) (xs : List A)
      → count_where p (insert_row a xs) ≡ bit (p a) + count_where p xs
  unfolding count_where insert_row
  count_where-insert_row p a [] = refl
  count_where-insert_row p a (x ∷ xs) = omega (arith, count_where-insert_row p a xs)

  -- The row that is found meets the condition.
  pub find_where-true : (p : A → Bool) (xs : List A) {c : A} → find_where p xs ≡ some c → p c ≡ true
  unfolding find_where
  find_where-true p [] e = cc
  find_where-true p (x ∷ xs) {c} e = elim (Bool-cases (p x)) [
    | inl t ↦ let same : some x ≡ some c = rw t at e in let eq : x ≡ c = cc in rw eq at t
    | inr f ↦ find_where-true p xs (rw f at e)
  ]

  -- An update that does not change the test does not change the count.
  pub count_where-congr :
      (q m : A → Bool) (f : A → A)
      → ((x : A) → q (f x) ≡ q x)
      → (xs : List A) → count_where q (update_where m f xs) ≡ count_where q xs
  unfolding count_where update_where
  count_where-congr q m f same [] = refl
  count_where-congr q m f same (x ∷ xs) = elim (Bool-cases (m x)) [
    | inl t ↦ rw (t, same x) (omega (arith, count_where-congr q m f same xs))
    | inr n ↦ rw n (omega (arith, count_where-congr q m f same xs))
  ]

  -- The rows that are selected meet the condition.
  pub select_where-All : (p : A → Bool) (xs : List A) → All (λ x. p x ≡ true) (select_where p xs)
  unfolding select_where
  select_where-All p [] = tt
  select_where-All p (x ∷ xs) = elim (Bool-cases (p x)) [
    | inl t ↦ rw t (t, select_where-All p xs)
    | inr n ↦ rw n (select_where-All p xs)
  ]
