-- ===== src/Orders/Code.antt =====
-- The lookup codes of orders: `generate_order_code` of app/orders/models/order.py and
-- `_normalize_code` of app/orders/service.py.
use operations_management.Base.{
  ℕ, zero, suc, Option, none, some, List, [], ◌∷◌, ◌++◌, ◌==◌, length, if◌then◌else◌,
}
use operations_management.Text.{Text, upper, strip, remove_char, take, drop}
use Prim.Native.Nat.{◌%◌}

-- `_ALPHABET`, the digits and the capitals without I, L, O and U.
abbrev pub alphabet : List ℕ
alphabet =
    b'0' ∷ b'1' ∷ b'2' ∷ b'3' ∷ b'4' ∷ b'5' ∷ b'6' ∷ b'7' ∷ b'8' ∷ b'9' ∷ b'A' ∷ b'B' ∷ b'C' ∷ b'D'
    ∷ b'E' ∷ b'F' ∷ b'G' ∷ b'H' ∷ b'J' ∷ b'K' ∷ b'M' ∷ b'N' ∷ b'P' ∷ b'Q' ∷ b'R' ∷ b'S' ∷ b'T'
    ∷ b'V' ∷ b'W' ∷ b'X' ∷ b'Y' ∷ b'Z' ∷ []

abbrev pub code_length : ℕ
code_length = 8

abbrev pub nth_or : ℕ → List ℕ → ℕ → ℕ
nth_or d [] i = d
nth_or d (x ∷ xs) zero = x
nth_or d (x ∷ xs) (suc i) = nth_or d xs i

-- `secrets.choice(_ALPHABET)`, with the random number that it draws.
abbrev pub choice : ℕ → ℕ
choice random = nth_or b'0' alphabet (random % 32)

-- `f"{raw[:4]}-{raw[4:]}"`
abbrev pub with_dash : Text → Text
with_dash raw = take 4 raw ++ (b'-' ∷ drop 4 raw)

-- The loop over `range(n)`.
abbrev pub draw_code : ℕ → (ℕ → ℕ) → Text
draw_code zero random = []
draw_code (suc n) random = choice (random n) ∷ draw_code n random

unfoldable pub generate_order_code : (ℕ → ℕ) → Text
generate_order_code random = with_dash (draw_code code_length random)

unfoldable pub normalize_code : Text → Option Text
normalize_code value =
    let cleaned = remove_char b' ' (remove_char b'-' (upper (strip value))) in
    if length cleaned == code_length then some (with_dash cleaned) else none
