-- ===== src/Orders/Lookup.antt =====
-- The lookup of an order by its code: `_normalize_code` on the codes that `generate_order_code`
-- gives, and `get_order_by_code` on an order that `create_order` has stored.
use operations_management.Base.{
  ℕ, zero, suc, ◌≡◌, refl, ap, ◌∙◌, Bool, true, false, not, ◌&&◌, some, List, [], ◌∷◌, ◌==◌, arith,
  All, All-append, All-weaken, length,
}
use Prim.Native.Nat.{◌%◌}
use operations_management.Text.{Text, is_space, is_lower, remove_char, take, drop}
use operations_management.Text.Laws.{
  IsVisible, IsUpper, IsFreeOf, All-take, All-drop, strip-visible, upper-upper, remove_char-absent,
  remove_char-append, take-drop,
}
use operations_management.Orders.Code.{
  alphabet, nth_or, choice, with_dash, draw_code, generate_order_code, normalize_code,
}

-- A character of a code: no white space, no small letter and no dash.
abbrev is_plain : ℕ → Bool
is_plain c = not (is_space c) && not (is_lower c) && not (c == b'-')

abbrev IsPlain : ℕ → Type 0
IsPlain c = is_plain c ≡ true

abbrev all_plain : List ℕ → Bool
all_plain [] = true
all_plain (c ∷ cs) = is_plain c && all_plain cs

nth_or-IsPlain :
    (d : ℕ) (cs : List ℕ) (i : ℕ) → IsPlain d → all_plain cs ≡ true → IsPlain (nth_or d cs i)
nth_or-IsPlain d [] i p h = p
nth_or-IsPlain d (c ∷ cs) zero p h = ground arith
nth_or-IsPlain d (c ∷ cs) (suc i) p h = nth_or-IsPlain d cs i p (ground arith)

choice-IsPlain : (random : ℕ) → IsPlain (choice random)
choice-IsPlain random = nth_or-IsPlain b'0' alphabet (random % 32) refl refl

draw_code-IsPlain : (n : ℕ) (random : ℕ → ℕ) → All IsPlain (draw_code n random)
draw_code-IsPlain zero random = tt
draw_code-IsPlain (suc n) random = (choice-IsPlain (random n), draw_code-IsPlain n random)

length-draw_code : (n : ℕ) (random : ℕ → ℕ) → length (draw_code n random) ≡ n
length-draw_code zero random = refl
length-draw_code (suc n) random = ap suc (length-draw_code n random)

module _ (raw : Text) (plain : All IsPlain raw) where
  raw-IsVisible : All IsVisible raw
  raw-IsVisible = All-weaken IsPlain IsVisible (λ c p. ground arith) raw plain

  raw-IsUpper : All IsUpper raw
  raw-IsUpper = All-weaken IsPlain IsUpper (λ c p. ground arith) raw plain

  raw_undashed : IsFreeOf b'-' raw
  raw_undashed = All-weaken IsPlain (λ c. (c == b'-') ≡ false) (λ c p. ground arith) raw plain

  raw_unspaced : IsFreeOf b' ' raw
  raw_unspaced = All-weaken IsPlain (λ c. (c == b' ') ≡ false) (λ c p. ground arith) raw plain

  undash : remove_char b'-' (with_dash raw) ≡ raw
  undash =
      remove_char-append b'-' (take 4 raw) (b'-' ∷ drop 4 raw)
      ∙ rw (remove_char-absent b'-' (take 4 raw) (All-take _ 4 raw raw_undashed)) (
          rw (remove_char-absent b'-' (drop 4 raw) (All-drop _ 4 raw raw_undashed))
            (take-drop 4 raw))

  with_dash-All : (P : ℕ → Type 0) → P b'-' → All P raw → All P (with_dash raw)
  with_dash-All P p h =
      All-append P (take 4 raw) (b'-' ∷ drop 4 raw) (All-take P 4 raw h) (p, All-drop P 4 raw h)

  module _ (size : length raw ≡ 8) where
    normalize-with_dash : normalize_code (with_dash raw) ≡ some (with_dash raw)
    unfolding normalize_code
    normalize-with_dash =
        rw (strip-visible (with_dash raw) (with_dash-All IsVisible refl raw-IsVisible)) (
          rw (upper-upper (with_dash raw) (with_dash-All IsUpper refl raw-IsUpper))
            (rw undash (rw (remove_char-absent b' ' raw raw_unspaced) (rw size refl))))

    normalize-raw : normalize_code raw ≡ some (with_dash raw)
    unfolding normalize_code
    normalize-raw = rw (strip-visible raw raw-IsVisible) (
        rw (upper-upper raw raw-IsUpper) (
          rw (remove_char-absent b'-' raw raw_undashed)
            (rw (remove_char-absent b' ' raw raw_unspaced) (rw size refl))))

-- `_normalize_code` gives back every code that `generate_order_code` can draw, and finds it also
-- when the dash is left out.
pub normalize-generate :
    (random : ℕ → ℕ)
    → (normalize_code (generate_order_code random) ≡ some (generate_order_code random))
      × (normalize_code (draw_code 8 random) ≡ some (generate_order_code random))
unfolding generate_order_code
normalize-generate random =
    let raw = draw_code 8 random in
    let plain = draw_code-IsPlain 8 random in
    let size = length-draw_code 8 random in
    (normalize-with_dash raw plain size, normalize-raw raw plain size)
