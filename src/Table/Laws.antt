-- ===== src/Table/Laws.antt =====
-- The laws of a table: what a change, an insertion or a deletion does to the rows that are found.
use operations_management.Base.{
  IsIn, Bool-cases, ℕ, ◌≡◌, refl, Bool, true, false, Option, none, inl, inr, Option-cases, some,
  List, [], ◌∷◌, ◌++◌, arith, ◌==◌, if◌then◌else◌, All, is_some, ◌&&◌,
}
use operations_management.Table.{Keyed, first, find, put, delete, IsKeyed}

module _ {A : Type 0} where
  pub first-IsIn : (p : A → Bool) (xs : List A) (v : A) → first p xs ≡ some v → IsIn v xs
  first-IsIn p [] v h = cc
  first-IsIn p (x ∷ xs) v h = elim (Bool-cases (p x)) [
    | inl passes ↦ inl (ground arith)
    | inr fails ↦ inr (first-IsIn p xs v (ground arith))
  ]

module _ {ℓ} {V : Type ℓ} where
  pub first_holds : (p : V → Bool) (xs : List V) (v : V) → first p xs ≡ some v → p v ≡ true
  first_holds p [] v h = cc
  first_holds p (x ∷ xs) v h = ground (arith, first_holds p xs v)

  pub first-All {κ} :
      (P : V → Type κ) (p : V → Bool) (xs : List V) (v : V) → first p xs ≡ some v → All P xs → P v
  first-All P p [] v h a = cc
  first-All P p (x ∷ xs) v h a = ground (arith, first-All P p xs v)

module _ {ℓ} {V : Type ℓ} ⦃k : Keyed V⦄ where
  pub find_key : (i : ℕ) (xs : List V) (v : V) → find i xs ≡ some v → k.key v ≡ i
  find_key i [] v h = cc
  find_key i (x ∷ xs) v h = ground (arith, find_key i xs v)

  -- In a keyed table a row that some query finds is the row of its own key.
  pub find-first :
      (p : V → Bool) (xs : List V) (v : V)
      → IsKeyed xs
      → first p xs ≡ some v
      → find (k.key v) xs ≡ some v
  find-first p [] v h e = cc
  find-first p (x ∷ xs) v h e = ground (arith, find-first p xs v h.1)

  -- Read after write, in conditional form.
  pub find-put :
      (i : ℕ) (v : V) (xs : List V)
      → find i (put v xs) ≡ (if k.key v == i && is_some (find i xs) then some v else find i xs)
  find-put i v [] = ground arith
  find-put i v (x ∷ xs) = ground (arith, find-put i v xs)

  pub find-append :
      (i : ℕ) (v : V) (xs : List V)
      → find i (xs ++ v ∷ [])
        ≡ (if is_some (find i xs) then find i xs else if k.key v == i then some v else none)
  find-append i v [] = refl
  find-append i v (x ∷ xs) = ground (arith, find-append i v xs)

  pub put-IsKeyed : (v : V) (xs : List V) → IsKeyed xs → IsKeyed (put v xs)
  put-IsKeyed v [] h = h
  put-IsKeyed v (x ∷ xs) h = ground (arith, put-IsKeyed v xs h.1, find-put (k.key x) v xs)

  -- A change of a row that is taken back.
  pub put-put :
      (v old : V) (xs : List V)
      → find (k.key old) xs ≡ some old
      → k.key v ≡ k.key old
      → put old (put v xs) ≡ xs
  put-put v old [] e same = cc
  put-put v old (x ∷ xs) e same = ground (arith, put-put v old xs)

  pub append-IsKeyed :
      (v : V) (xs : List V) → find (k.key v) xs ≡ none → IsKeyed xs → IsKeyed (xs ++ v ∷ [])
  append-IsKeyed v [] e h = (refl, tt)
  append-IsKeyed v (x ∷ xs) e h = ground (arith, append-IsKeyed v xs, find-append (k.key x) v xs)

  pub put-All {κ} : (P : V → Type κ) (v : V) (xs : List V) → P v → All P xs → All P (put v xs)
  put-All P v [] h a = a
  put-All P v (x ∷ xs) h a = ground (arith, put-All P v xs h a.1)

  pub find-All {κ} :
      (P : V → Type κ) (i : ℕ) (xs : List V) (v : V) → find i xs ≡ some v → All P xs → P v
  find-All P i [] v h a = cc
  find-All P i (x ∷ xs) v h a = ground (arith, find-All P i xs v)

  -- A change of the row that was inserted last.
  pub put-append :
      (v old : V) (xs : List V)
      → find (k.key old) xs ≡ none
      → k.key v ≡ k.key old
      → put v (xs ++ old ∷ []) ≡ xs ++ v ∷ []
  put-append v old [] e same = ground arith
  put-append v old (x ∷ xs) e same = ground (arith, put-append v old xs)

  pub find-delete :
      (i j : ℕ) (xs : List V)
      → IsKeyed xs
      → find i (delete j xs) ≡ (if i == j then none else find i xs)
  find-delete i j [] h = ground arith
  find-delete i j (x ∷ xs) h = ground (arith, find-delete i j xs h.1)

-- A query after a change of a row that answers the query as before.
module _ {ℓ} {V : Type ℓ} ⦃k : Keyed V⦄ (p : V → Bool) where
  first-ne :
      (i : ℕ) (xs : List V) (x : V)
      → find i xs ≡ none
      → first p xs ≡ some x
      → (k.key x == i) ≡ false
  first-ne i [] x e h = cc
  first-ne i (y ∷ xs) x e h = ground (arith, first-ne i xs x)

  abbrev replaced : V → Option V → Option V
  replaced v none = none
  replaced v (some x) = if k.key x == k.key v then some v else some x

  pub first-put :
      (v old : V) (xs : List V)
      → IsKeyed xs
      → find (k.key v) xs ≡ some old
      → p v ≡ p old
      → first p (put v xs) ≡ replaced v (first p xs)
  first-put v old [] h e same = refl
  first-put v old (x ∷ xs) h e same = elim (Option-cases (first p xs)) [
    | inl n ↦ ground (arith, first-put v old xs h.1)
    | inr (y, n) ↦ ground (arith, first-put v old xs h.1, first-ne (k.key x) xs y)
  ]

  pub first-append :
      (v : V) (xs : List V)
      → first p (xs ++ v ∷ [])
        ≡ (if is_some (first p xs) then first p xs else if p v then some v else none)
  first-append v [] = refl
  first-append v (x ∷ xs) = ground (arith, first-append v xs)
