-- ===== src/Text/Laws.antt =====
-- The methods of Python's `str` on texts without what they look for.
use mathlib.Core.List.{reverse, reverse_aux, reverse-reverse}
use operations_management.Base.{
  ℕ, zero, suc, ◌≡◌, refl, ap, ◌∙◌, false, List, [], ◌∷◌, ◌++◌, ◌==◌, arith, All,
}
use operations_management.Text.{
  Text, is_space, upper_char, upper, lstrip, strip, remove_char, take, drop,
}

module _ {ℓ} {A : Type 0} (P : A → Type ℓ) where
  All-reverse_aux : (xs ys : List A) → All P xs → All P ys → All P (reverse_aux xs ys)
  All-reverse_aux [] ys h k = k
  All-reverse_aux (x ∷ xs) ys h k = All-reverse_aux xs (x ∷ ys) h.1 (h.0, k)

  pub All-reverse : (xs : List A) → All P xs → All P (reverse xs)
  All-reverse xs h = All-reverse_aux xs [] h tt

  pub All-take : (n : ℕ) (xs : List A) → All P xs → All P (take n xs)
  All-take zero xs h = tt
  All-take (suc n) [] h = tt
  All-take (suc n) (x ∷ xs) h = (h.0, All-take n xs h.1)

  pub All-drop : (n : ℕ) (xs : List A) → All P xs → All P (drop n xs)
  All-drop zero xs h = h
  All-drop (suc n) [] h = tt
  All-drop (suc n) (x ∷ xs) h = All-drop n xs h.1

-- A character that `strip` leaves.
abbrev pub IsVisible : ℕ → Type 0
IsVisible c = is_space c ≡ false

lstrip-visible : (s : Text) → All IsVisible s → lstrip s ≡ s
unfolding lstrip
lstrip-visible [] h = refl
lstrip-visible (c ∷ s) h = rw h.0 refl

pub strip-visible : (s : Text) → All IsVisible s → strip s ≡ s
unfolding strip
strip-visible s h =
    ap (λ (t : Text). reverse (lstrip (reverse t))) (lstrip-visible s h)
    ∙ ap (λ (t : Text). reverse t) (lstrip-visible (reverse s) (All-reverse IsVisible s h))
    ∙ reverse-reverse s

-- A character that `upper` leaves.
abbrev pub IsUpper : ℕ → Type 0
IsUpper c = upper_char c ≡ c

pub upper-upper : (s : Text) → All IsUpper s → upper s ≡ s
upper-upper [] h = refl
upper-upper (c ∷ s) h = rw h.0 (ap (λ (t : Text). c ∷ t) (upper-upper s h.1))

-- A text without the character `x`.
abbrev pub IsFreeOf : ℕ → Text → Type 0
IsFreeOf x s = All (λ (c : ℕ). (c == x) ≡ false) s

pub remove_char-absent : (x : ℕ) (s : Text) → IsFreeOf x s → remove_char x s ≡ s
remove_char-absent x [] h = refl
remove_char-absent x (c ∷ s) h = rw h.0 (ap (λ (t : Text). c ∷ t) (remove_char-absent x s h.1))

pub remove_char-append :
    (x : ℕ) (s t : Text) → remove_char x (s ++ t) ≡ remove_char x s ++ remove_char x t
remove_char-append x [] t = refl
remove_char-append x (c ∷ s) t = ground (arith, remove_char-append x s t)

pub take-drop : (n : ℕ) (s : Text) → take n s ++ drop n s ≡ s
take-drop zero s = refl
take-drop (suc n) [] = refl
take-drop (suc n) (c ∷ s) = ap (λ (t : Text). c ∷ t) (take-drop n s)
