-- ===== src/Base/Sorting.antt =====
-- Stable sorting by a test, as `list.sort` and `ORDER BY` do it.
use mathlib.Core.Path.{◌≡◌, refl}
use mathlib.Core.Bool.{Bool, true, false, ◌||◌}
use mathlib.Core.List.{List, [], ◌∷◌}
use native.Mathlib.Omega.{arith}
use operations_management.Base.Tests.{if◌then◌else◌, Bool-cases}
use operations_management.Base.Lists.{any, All, All-weaken}
use mathlib.Core.Logic.{inl, inr}

-- `list.sort`, which keeps the order of rows that do not differ.
module _ {A : Type 0} (before : A → A → Bool) where
  abbrev pub insert_sorted : A → List A → List A
  insert_sorted x [] = x ∷ []
  insert_sorted x (y ∷ ys) = if before y x then y ∷ insert_sorted x ys else x ∷ y ∷ ys

  abbrev pub sort : List A → List A
  sort [] = []
  sort (x ∷ xs) = insert_sorted x (sort xs)

module _ {A : Type 0} (before : A → A → Bool) where
  any-insert_sorted :
      (p : A → Bool) (x : A) (xs : List A) → any p (insert_sorted before x xs) ≡ p x || any p xs
  any-insert_sorted p x [] = refl
  any-insert_sorted p x (y ∷ ys) = ground (arith, any-insert_sorted p x ys)

  pub any-sort : (p : A → Bool) (xs : List A) → any p (sort before xs) ≡ any p xs
  any-sort p [] = refl
  any-sort p (x ∷ xs) = ground (arith, any-insert_sorted p x (sort before xs), any-sort p xs)

  abbrev pub NotBefore : A → A → Type 0
  NotBefore x y = before y x ≡ false

  -- No element comes before one that is listed ahead of it.
  abbrev pub IsSorted : List A → Type 0
  IsSorted [] = Unit
  IsSorted (x ∷ xs) = All (NotBefore x) xs × IsSorted xs

  All-insert_sorted :
      (P : A → Type 0) (x : A) (xs : List A) → P x → All P xs → All P (insert_sorted before x xs)
  All-insert_sorted P x [] p h = (p, tt)
  All-insert_sorted P x (y ∷ ys) p h = elim (Bool-cases (before y x)) [
    | inl earlier ↦ rw earlier (h.0, All-insert_sorted P x ys p h.1)
    | inr later ↦ rw later (p, h)
  ]

  pub All-sort : (P : A → Type 0) (xs : List A) → All P xs → All P (sort before xs)
  All-sort P [] h = tt
  All-sort P (x ∷ xs) h = All-insert_sorted P x (sort before xs) h.0 (All-sort P xs h.1)

  module _ (asymmetric : (x y : A) → before x y ≡ true → before y x ≡ false)
      (transitive : (x y z : A)
        → before y x ≡ false
        → before z y ≡ false
        → before z x ≡ false) where
    insert_sorted-IsSorted :
        (x : A) (xs : List A) → IsSorted xs → IsSorted (insert_sorted before x xs)
    insert_sorted-IsSorted x [] h = (tt, tt)
    insert_sorted-IsSorted x (y ∷ ys) h = elim (Bool-cases (before y x)) [
      | inl earlier ↦ rw earlier (
        All-insert_sorted (NotBefore y) x ys (asymmetric y x earlier) h.0,
        insert_sorted-IsSorted x ys h.1,
      )
      | inr later ↦ rw later (
        (later, All-weaken (NotBefore y) (NotBefore x) (λ z n. transitive x y z later n) ys h.0),
        h,
      )
    ]

    pub sort-IsSorted : (xs : List A) → IsSorted (sort before xs)
    sort-IsSorted [] = tt
    sort-IsSorted (x ∷ xs) = insert_sorted-IsSorted x (sort before xs) (sort-IsSorted xs)
