-- ===== src/Table/Unique.antt =====
-- A column of texts in which no value occurs twice, as the database's unique columns.
use operations_management.Base.{
  ℕ, ◌≡◌, refl, true, false, ◌⊎◌, inl, inr, Option, none, some, List, [], ◌∷◌, ◌++◌, arith, ◌==◌,
  Bool-cases,
}
use operations_management.Text.{Text, text_eq, text_eq→eq, text_eq_refl}
use operations_management.Table.{Keyed, first, find, put, IsKeyed}

module _ {ℓ} {V : Type ℓ} (column : V → Text) where
  -- The row that holds a value.
  abbrev pub holder : Text → List V → Option V
  holder t xs = first (λ x. text_eq (column x) t) xs

  abbrev pub IsUnique : List V → Type ℓ
  IsUnique [] = Unit
  IsUnique (x ∷ xs) = (holder (column x) xs ≡ none) × IsUnique xs

  text_eq_sym : (s t : Text) → text_eq s t ≡ true → text_eq t s ≡ true
  text_eq_sym s t h = rw (text_eq→eq s t h) (text_eq_refl t)

  holder-append :
      (t : Text) (v : V) (xs : List V)
      → text_eq (column v) t ≡ false
      → holder t xs ≡ none
      → holder t (xs ++ v ∷ []) ≡ none
  holder-append t v [] h e = ground arith
  holder-append t v (x ∷ xs) h e = ground (arith, holder-append t v xs)

  pub append-IsUnique :
      (v : V) (xs : List V) → holder (column v) xs ≡ none → IsUnique xs → IsUnique (xs ++ v ∷ [])
  append-IsUnique v [] e h = (refl, tt)
  append-IsUnique v (x ∷ xs) e h = ground (
    arith,
    append-IsUnique v xs,
    holder-append (column x) v xs,
    text_eq_sym (column v) (column x),
  )

-- The value of a row may change to one that no other row holds.
module _ {ℓ} {V : Type ℓ} ⦃k : Keyed V⦄ (column : V → Text) where
  abbrev pub IsFree : V → List V → Type ℓ
  IsFree v [] = Unit
  IsFree v (x ∷ xs) = ((text_eq (column x) (column v) ≡ false) ⊎ (k.key x ≡ k.key v)) × IsFree v xs

  holder-put :
      (t : Text) (v : V) (xs : List V)
      → text_eq (column v) t ≡ false
      → holder column t xs ≡ none
      → holder column t (put v xs) ≡ none
  holder-put t v [] h e = e
  holder-put t v (x ∷ xs) h e = ground (arith, holder-put t v xs)

  -- Where every holder of the value has the key, and no row does, no row holds it.
  free_elsewhere :
      (v : V) (xs : List V)
      → IsFree v xs
      → find (k.key v) xs ≡ none
      → holder column (column v) xs ≡ none
  free_elsewhere v [] f e = refl
  free_elsewhere v (x ∷ xs) f e = ground (arith, free_elsewhere v xs f.1)

  pub put-IsUnique :
      (v : V) (xs : List V)
      → IsKeyed xs
      → IsFree v xs
      → IsUnique column xs
      → IsUnique column (put v xs)
  put-IsUnique v [] keyed f h = h
  put-IsUnique v (x ∷ xs) keyed f h = elim (Bool-cases (k.key x == k.key v)) [
    | inl same ↦ rw same (ground (arith, free_elsewhere v xs))
    | inr other ↦ rw other (
        ground (
          arith,
          put-IsUnique v xs keyed.1 f.1 h.1,
          holder-put (column x) v xs,
          text_eq_sym column (column v) (column x),
        ))
  ]

  -- The program's check: the first holder of the value, if any, is the row itself.
  abbrev pub IsOwn : V → Option V → Type 0
  IsOwn v none = Unit
  IsOwn v (some x) = k.key x ≡ k.key v

  pub holder-IsFree :
      (v : V) (xs : List V)
      → IsUnique column xs
      → IsOwn v (holder column (column v) xs)
      → IsFree v xs
  holder-IsFree v [] u h = tt
  holder-IsFree v (x ∷ xs) u h = elim (Bool-cases (text_eq (column x) (column v))) [
    | inr other ↦ (inl other, holder-IsFree v xs u.1 (rw other at h))
    | inl same ↦
        let gone : holder column (column v) xs ≡ none =
          rw (text_eq→eq (column x) (column v) same) at u.0 in
        (inr (rw same at h), holder-IsFree v xs u.1 (rw gone tt))
  ]

  -- A row of the table is the one holder of its value.
  is_held :
      (i : ℕ) (xs : List V) (x : V) → find i xs ≡ some x → holder column (column x) xs ≡ none → ⊥
  is_held i [] x e n = cc
  is_held i (y ∷ xs) x e n = ground (arith, text_eq_refl (column x), is_held i xs x)

  pub IsOwn-holder :
      (i : ℕ) (xs : List V) (x : V)
      → find i xs ≡ some x
      → IsUnique column xs
      → IsOwn x (holder column (column x) xs)
  IsOwn-holder i [] x e u = cc
  IsOwn-holder i (y ∷ xs) x e u = elim (Bool-cases (text_eq (column y) (column x))) [
    | inr other ↦ rw other (IsOwn-holder i xs x (ground (arith, text_eq_refl (column x))) u.1)
    | inl same ↦
        let gone : holder column (column x) xs ≡ none =
          rw (text_eq→eq (column y) (column x) same) at u.0 in
        rw same (ground (arith, is_held i xs x))
  ]

  -- A row of the table is the one that its value finds.
  pub find-holder :
      (i : ℕ) (xs : List V) (x : V)
      → find i xs ≡ some x
      → IsUnique column xs
      → holder column (column x) xs ≡ some x
  find-holder i [] x e u = cc
  find-holder i (y ∷ xs) x e u = elim (Bool-cases (k.key y == i)) [
    | inl here ↦ ground (arith, text_eq_refl (column x))
    | inr later ↦ elim (Bool-cases (text_eq (column y) (column x))) [
      | inr other ↦ ground (arith, find-holder i xs x)
      | inl same ↦
          let gone : holder column (column x) xs ≡ none =
            rw (text_eq→eq (column y) (column x) same) at u.0 in
          ground (arith, find-holder i xs x)
    ]
  ]
