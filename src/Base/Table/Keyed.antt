-- ===== src/Base/Table/Keyed.antt =====
-- Tables with a primary key: no two rows share it.
use Prim.Native.Nat.{ℕ, ◌+◌}
use mathlib.Core.Path.{◌≡◌, refl, sym, ◌∙◌}
use mathlib.Core.Logic.{◌≢◌, inl, inr}
use mathlib.Core.Bool.{Bool, true, false}
use mathlib.Core.Option.{none, some}
use mathlib.Core.List.{List, [], ◌∷◌}
use native.Mathlib.Omega.{arith}
use coderus.Base.Tests.{Bool-cases, ◌==◌, if◌then◌else◌}
use coderus.Base.Table.{
  All, All-map, bit, find_where, update_where, count_where, insert_row, find_where-All,
  update_where-none, count_where-none,
}

module _ {ℓ} {A : Type ℓ} (key : A → ℕ) where
  -- No row has the key `k`.
  abbrev pub Absent : ℕ → List A → Type 0
  Absent k xs = All (λ x. key x ≢ k) xs

  -- The primary key's constraint.
  abbrev pub UniqueKeys : List A → Type 0
  UniqueKeys [] = Unit
  UniqueKeys (x ∷ xs) = Absent (key x) xs × UniqueKeys xs

module _ {ℓ} {A : Type ℓ} (key : A → ℕ) where
  -- An update that matches the row `c`, and only rows of its key.
  module _ (m : A → Bool) (f : A → A) (c : A) (hit : m c ≡ true)
      (only : (x : A) → m x ≡ true → key x ≡ key c) where
    miss : (xs : List A) → Absent key (key c) xs → All (λ x. m x ≡ false) xs
    miss xs absent =
        All-map xs
          (λ x other. elim (Bool-cases (m x)) [ inl t ↦ absurd (other (only x t)) | inr f ↦ f ])
          absent

    -- Such an update changes one row: its `rowcount` is 1.
    pub count_where_keyed :
        (p : A → Bool) (xs : List A)
        → UniqueKeys key xs
        → find_where p xs ≡ some c
        → count_where m xs ≡ 1
    unfolding find_where count_where
    count_where_keyed p [] u e = cc
    count_where_keyed p (x ∷ xs) u e = elim (Bool-cases (p x)) [
      | inl t ↦
          let found : some x ≡ some c = rw t at e in
          let same : x ≡ c = cc in
          let absent : Absent key (key c) xs = rw same at u.0 in
          rw same (rw hit (omega (arith, count_where-none m xs (miss xs absent))))
      | inr n ↦
          let found : find_where p xs ≡ some c = rw n at e in
          let apart : key x ≢ key c =
            λ q. (find_where-All (λ y. key y ≢ key x) p xs u.0 found).0 (sym q) in
          let out : m x ≡ false = (miss (x ∷ []) (apart, tt)).0 in
          rw out (omega (arith, count_where_keyed p xs u.1 found))
    ]

    -- How the update changes the number of rows that meet a test.
    pub count_where-update_where :
        (q p : A → Bool) (xs : List A)
        → UniqueKeys key xs
        → find_where p xs ≡ some c
        → count_where q (update_where m f xs) + bit (q c) ≡ count_where q xs + bit (q (f c))
    unfolding find_where count_where update_where
    count_where-update_where q p [] u e = cc
    count_where-update_where q p (x ∷ xs) u e = elim (Bool-cases (p x)) [
      | inl t ↦
          let found : some x ≡ some c = rw t at e in
          let same : x ≡ c = cc in
          let absent : Absent key (key c) xs = rw same at u.0 in
          let rest : update_where m f xs ≡ xs = update_where-none m f xs (miss xs absent) in
          rw same (rw hit (rw rest (omega arith)))
      | inr n ↦
          let found : find_where p xs ≡ some c = rw n at e in
          let apart : key x ≢ key c =
            λ q. (find_where-All (λ y. key y ≢ key x) p xs u.0 found).0 (sym q) in
          let out : m x ≡ false = (miss (x ∷ []) (apart, tt)).0 in
          rw out (omega (arith, count_where-update_where q p xs u.1 found))
    ]

  -- What it does to a predicate.
  module _ {κ μ} (P : A → Type κ) (Q : A → Type μ) (m : A → Bool) (f : A → A) (c : A)
      (hit : m c ≡ true) (only : (x : A) → m x ≡ true → key x ≡ key c) where
    pub update_where-All_keyed :
        (p : A → Bool) (xs : List A)
        → UniqueKeys key xs
        → All P xs
        → find_where p xs ≡ some c
        → ((x : A) → P x → key x ≢ key c → Q x)
        → (P c → Q (f c))
        → All Q (update_where m f xs)
    unfolding find_where update_where
    update_where-All_keyed p [] u h e other self = tt
    update_where-All_keyed p (x ∷ xs) u h e other self = elim (Bool-cases (p x)) [
      | inl t ↦
          let found : some x ≡ some c = rw t at e in
          let same : x ≡ c = cc in
          let absent : Absent key (key c) xs = rw same at u.0 in
          let rest : update_where m f xs ≡ xs =
            update_where-none m f xs (miss m f c hit only xs absent) in
          let head : P c = rw same at h.0 in
          rw same (rw hit (self head, rw rest (All-both xs h.1 absent)))
      | inr n ↦
          let found : find_where p xs ≡ some c = rw n at e in
          let apart : key x ≢ key c =
            λ q. (find_where-All (λ y. key y ≢ key x) p xs u.0 found).0 (sym q) in
          let out : m x ≡ false = miss_one x apart in
          (rw out (other x h.0 apart), update_where-All_keyed p xs u.1 h.1 found other self)
    ]
      where
        All-both : (ys : List A) → All P ys → Absent key (key c) ys → All Q ys
        All-both [] hp ha = tt
        All-both (y ∷ ys) hp ha = (other y hp.0 ha.0, All-both ys hp.1 ha.1)

        miss_one : (x : A) → key x ≢ key c → m x ≡ false
        miss_one x apart = (miss m f c hit only (x ∷ []) (apart, tt)).0

  -- An update that keeps the keys keeps their uniqueness.
  module _ (m : A → Bool) (f : A → A) (keeps : (x : A) → key (f x) ≡ key x) where
    Absent-update_where :
        (k : ℕ) (xs : List A) → Absent key k xs → Absent key k (update_where m f xs)
    unfolding update_where
    Absent-update_where k [] h = tt
    Absent-update_where k (x ∷ xs) h = (
      elim (Bool-cases (m x)) [ inl t ↦ rw t (λ e. h.0 (sym (keeps x) ∙ e)) | inr n ↦ rw n (h.0) ],
      Absent-update_where k xs h.1,
    )

    pub UniqueKeys-update_where :
        (xs : List A) → UniqueKeys key xs → UniqueKeys key (update_where m f xs)
    unfolding update_where
    UniqueKeys-update_where [] u = tt
    UniqueKeys-update_where (x ∷ xs) u = (
      elim (Bool-cases (m x)) [
        | inl t ↦ rw (t, keeps x) (Absent-update_where (key x) xs u.0)
        | inr n ↦ rw n (Absent-update_where (key x) xs u.0)
      ],
      UniqueKeys-update_where xs u.1,
    )

  Absent-insert_row :
      (k : ℕ) (a : A) (xs : List A) → key a ≢ k → Absent key k xs → Absent key k (insert_row a xs)
  unfolding insert_row
  Absent-insert_row k a [] n h = (n, tt)
  Absent-insert_row k a (x ∷ xs) n h = (h.0, Absent-insert_row k a xs n h.1)

  -- A row with a fresh key may be inserted.
  pub UniqueKeys-insert_row :
      (a : A) (xs : List A)
      → UniqueKeys key xs
      → Absent key (key a) xs
      → UniqueKeys key (insert_row a xs)
  unfolding insert_row
  UniqueKeys-insert_row a [] u fresh = (tt, tt)
  UniqueKeys-insert_row a (x ∷ xs) u fresh = (
    Absent-insert_row (key x) a xs (λ e. fresh.0 (sym e)) u.0,
    UniqueKeys-insert_row a xs u.1 fresh.1,
  )

  -- Some row has the key `k`.
  abbrev pub Present : ℕ → List A → Type 0
  Present k xs = ¬ Absent key k xs

  Absent-update_where_back :
      (m : A → Bool) (f : A → A)
      → ((x : A) → key (f x) ≡ key x)
      → (k : ℕ) (xs : List A) → Absent key k (update_where m f xs)
      → Absent key k xs
  unfolding update_where
  Absent-update_where_back m f keeps k [] h = tt
  Absent-update_where_back m f keeps k (x ∷ xs) h = (
    elim (Bool-cases (m x)) [ inl t ↦ λ e. (rw t at h.0) (keeps x ∙ e) | inr n ↦ rw n at h.0 ],
    Absent-update_where_back m f keeps k xs h.1,
  )

  Absent-insert_row_back :
      (a : A) (k : ℕ) (xs : List A) → Absent key k (insert_row a xs) → Absent key k xs
  unfolding insert_row
  Absent-insert_row_back a k [] h = tt
  Absent-insert_row_back a k (x ∷ xs) h = (h.0, Absent-insert_row_back a k xs h.1)

  pub Present-update_where :
      (m : A → Bool) (f : A → A)
      → ((x : A) → key (f x) ≡ key x)
      → (k : ℕ) (xs : List A) → Present k xs
      → Present k (update_where m f xs)
  Present-update_where m f keeps k xs h = λ a. h (Absent-update_where_back m f keeps k xs a)

  pub Present-insert_row :
      (a : A) (k : ℕ) (xs : List A) → Present k xs → Present k (insert_row a xs)
  Present-insert_row a k xs h = λ b. h (Absent-insert_row_back a k xs b)

  pub find_where-Present :
      (p : A → Bool) (xs : List A) {c : A} → find_where p xs ≡ some c → Present (key c) xs
  find_where-Present p xs e = λ absent. (find_where-All (λ x. key x ≢ _) p xs absent e).0 refl

  find_where-Absent :
      (k : ℕ) (p : A → Bool) (xs : List A)
      → ((x : A) → p x ≡ true → key x ≡ k)
      → Absent key k xs
      → find_where p xs ≡ none
  unfolding find_where
  find_where-Absent k p [] only h = refl
  find_where-Absent k p (x ∷ xs) only h =
      ground (arith, find_where-Absent k p xs only h.1, only x, h.0)

  -- A condition that includes the key is a condition on the row with that key.
  pub find_where_keyed :
      (k : ℕ) (p : A → Bool) (xs : List A) {t : A}
      → UniqueKeys key xs
      → ((x : A) → p x ≡ true → key x ≡ k)
      → find_where (λ x. key x == k) xs ≡ some t
      → find_where p xs ≡ (if p t then some t else none)
  unfolding find_where
  find_where_keyed k p [] u only e = cc
  find_where_keyed k p (x ∷ xs) {t} u only e = elim (Bool-cases (key x == k)) [
    | inl hit ↦
        let found : some x ≡ some t = rw hit at e in
        let same : x ≡ t = cc in
        let id : key x ≡ k = ground arith in
        let none_left = find_where-Absent k p xs only (rw id at u.0) in
        rw⁻¹ same (rw none_left refl)
    | inr off ↦
        let out : p x ≡ false = ground (arith, only x) in
        rw out (find_where_keyed k p xs u.1 only (rw off at e))
  ]

-- What an update makes of the row that is found.
pub find_where-update_where {ℓ} :
    {A : Type ℓ} (p m : A → Bool) (f : A → A)
    → ((x : A) → p (f x) ≡ p x)
    → (xs : List A) {t : A} → find_where p xs ≡ some t
    → find_where p (update_where m f xs) ≡ some (if m t then f t else t)
unfolding find_where update_where
find_where-update_where p m f same [] e = cc
find_where-update_where p m f same (x ∷ xs) {t} e = elim (Bool-cases (p x)) [
  | inl hit ↦
      let found : some x ≡ some t = rw hit at e in
      let eq : x ≡ t = cc in
      let on : p (if m x then f x else x) ≡ true = ground (arith, same x) in rw on (rw⁻¹ eq refl)
  | inr off ↦
      let out : p (if m x then f x else x) ≡ false = ground (arith, same x) in
      rw out (find_where-update_where p m f same xs (rw off at e))
]
