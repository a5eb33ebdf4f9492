-- ===== src/Table/Sums.antt =====
-- A sum over the rows of a table, and how a change or an insertion moves it.
use operations_management.Base.{◌≡◌, some, List, [], ◌∷◌, ◌++◌}
use operations_management.Int.{ℤ, pos, ◌+ℤ◌, int_laws}
use operations_management.Table.{Keyed, find, put}

module _ {ℓ} {V : Type ℓ} where
  abbrev pub total : (V → ℤ) → List V → ℤ
  total f [] = pos 0
  total f (x ∷ xs) = f x +ℤ total f xs

  pub total-append : (f : V → ℤ) (xs : List V) (v : V) → total f (xs ++ v ∷ []) ≡ total f xs +ℤ f v
  total-append f [] v = omega int_laws
  total-append f (x ∷ xs) v = rw (total-append f xs v) (omega int_laws)

module _ {ℓ} {V : Type ℓ} ⦃k : Keyed V⦄ where
  pub total-put :
      (f : V → ℤ) (v old : V) (xs : List V)
      → find (k.key v) xs ≡ some old
      → total f (put v xs) +ℤ f old ≡ total f xs +ℤ f v
  total-put f v old [] h = cc
  total-put f v old (x ∷ xs) h = grind (int_laws, total-put f v old xs)
