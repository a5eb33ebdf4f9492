-- ===== src/Table.antt =====
-- A database table: its rows in the order of insertion, found by their primary key. The laws are
-- in the child modules.
pub mod Laws
pub mod Sums
pub mod Unique
use operations_management.Base.{
  ℕ, ◌≡◌, Bool, Option, none, some, List, [], ◌∷◌, ◌==◌, if◌then◌else◌,
}

-- The primary key of a row.
pub record Keyed {ℓ} (V : Type ℓ) : Type ℓ where
  pub key : V → ℕ

module _ {ℓ} {V : Type ℓ} where
  -- `select(V).where(p)`, read by `scalar_one_or_none` on at most one row, or by `first`.
  abbrev pub first : (V → Bool) → List V → Option V
  first p [] = none
  first p (x ∷ xs) = if p x then some x else first p xs

module _ {ℓ} {V : Type ℓ} ⦃k : Keyed V⦄ where
  -- The row of a primary key.
  abbrev pub find : ℕ → List V → Option V
  find i [] = none
  find i (x ∷ xs) = if k.key x == i then some x else find i xs

  -- A change of a row that is there.
  abbrev pub put : V → List V → List V
  put v [] = []
  put v (x ∷ xs) = if k.key x == k.key v then v ∷ xs else x ∷ put v xs

  -- `DELETE` of a row.
  abbrev pub delete : ℕ → List V → List V
  delete i [] = []
  delete i (x ∷ xs) = if k.key x == i then xs else x ∷ delete i xs

  -- No primary key occurs twice.
  abbrev pub IsKeyed : List V → Type ℓ
  IsKeyed [] = Unit
  IsKeyed (x ∷ xs) = (find (k.key x) xs ≡ none) × IsKeyed xs
