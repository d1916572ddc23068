-- ===== src/Base/Distinct.antt =====
-- Lists from which repeated items are dropped, by a Boolean test of sameness.
use mathlib.Core.Path.{◌≡◌, refl, sym, subst}
use mathlib.Core.Logic.{inl, inr}
use mathlib.Core.Bool.{Bool, true, false, ◌||◌}
use mathlib.Core.List.{List, [], ◌∷◌}
use native.Mathlib.Omega.{arith}
use coderus.Base.Tests.{if◌then◌else◌, Bool-cases}
use coderus.Base.Table.{All, All-map}

module _ {ℓ} {A : Type ℓ} (same : A → A → Bool) where
  abbrev pub among : A → List A → Bool
  among x [] = false
  among x (y ∷ ys) = same x y || among x ys

  -- The items in order, each once, without those that have been seen.
  unfoldable pub unique_from : List A → List A → List A
  unique_from seen [] = []
  unique_from seen (x ∷ xs) =
      let skip = unique_from seen xs in
      let keep = x ∷ unique_from (x ∷ seen) xs in if among x seen then skip else keep

module _ {ℓ} {A : Type ℓ} (same : A → A → Bool) where
  -- No item is the same as an earlier one.
  abbrev pub Apart : List A → Type 0
  Apart [] = Unit
  Apart (x ∷ xs) = All (λ y. same y x ≡ false) xs × Apart xs

  unseen : (seen xs : List A) → All (λ y. among same y seen ≡ false) (unique_from same seen xs)
  unfolding unique_from
  unseen seen [] = tt
  unseen seen (x ∷ xs) = elim (Bool-cases (among same x seen)) [
    | inl t ↦ rw t (unseen seen xs)
    | inr f ↦ rw f (
      f,
      All-map (unique_from same (x ∷ seen) xs) (λ y h. weaken x y seen h) (unseen (x ∷ seen) xs),
    )
  ]
    where
      weaken :
          (x y : A) (seen : List A) → among same y (x ∷ seen) ≡ false → among same y seen ≡ false
      weaken x y seen h = ground arith

  pub unique_from-Apart : (seen xs : List A) → Apart (unique_from same seen xs)
  unfolding unique_from
  unique_from-Apart seen [] = tt
  unique_from-Apart seen (x ∷ xs) = elim (Bool-cases (among same x seen)) [
    | inl t ↦ rw t (unique_from-Apart seen xs)
    | inr f ↦ rw f (
      All-map (unique_from same (x ∷ seen) xs) (λ y h. other x y seen h) (unseen (x ∷ seen) xs),
      unique_from-Apart (x ∷ seen) xs,
    )
  ]
    where
      other : (x y : A) (seen : List A) → among same y (x ∷ seen) ≡ false → same y x ≡ false
      other x y seen h = ground arith

  abbrev Kept : List A → List A → List A → Type 0
  Kept seen xs ys = All (λ x. (among same x seen || among same x ys) ≡ true) xs

  skipped :
      (seen : List A) (x : A) (xs : List A)
      → among same x seen ≡ true
      → unique_from same seen (x ∷ xs) ≡ unique_from same seen xs
  unfolding unique_from
  skipped seen x xs t = rw t refl

  taken :
      (seen : List A) (x : A) (xs : List A)
      → among same x seen ≡ false
      → unique_from same seen (x ∷ xs) ≡ x ∷ unique_from same (x ∷ seen) xs
  unfolding unique_from
  taken seen x xs f = rw f refl

  -- Every item is seen, or is kept.
  pub unique_from-kept :
      ((x : A) → same x x ≡ true)
      → (seen xs : List A)
      → All (λ x. (among same x seen || among same x (unique_from same seen xs)) ≡ true) xs
  unique_from-kept self seen [] = tt
  unique_from-kept self seen (x ∷ xs) = elim (Bool-cases (among same x seen)) [
    | inl t ↦
        subst (Kept seen (x ∷ xs)) (sym (skipped seen x xs t))
          (there x seen t _, unique_from-kept self seen xs)
    | inr f ↦ subst (Kept seen (x ∷ xs)) (sym (taken seen x xs f)) (
      here x seen (self x) _,
      All-map xs (λ y h. moved x y seen _ h) (unique_from-kept self (x ∷ seen) xs),
    )
  ]
    where
      there :
          (x : A) (seen : List A)
          → among same x seen ≡ true
          → (ys : List A) → (among same x seen || among same x ys) ≡ true
      there x seen h ys = ground arith

      here :
          (x : A) (seen : List A)
          → same x x ≡ true
          → (ys : List A) → (among same x seen || among same x (x ∷ ys)) ≡ true
      here x seen h ys = ground arith

      moved :
          (x y : A) (seen ys : List A)
          → (among same y (x ∷ seen) || among same y ys) ≡ true
          → (among same y seen || among same y (x ∷ ys)) ≡ true
      moved x y seen ys h = ground arith
