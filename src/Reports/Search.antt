-- ===== src/Reports/Search.antt =====
-- `search_products` of app/inventory/service.py and of app/inventory/repositories/product_repo.py:
-- `ILIKE` with an escaped pattern, on ASCII texts. The database's order on texts is a parameter.
use operations_management.Base.{
  ℕ, ◌+◌, Bool, true, false, not, ◌&&◌, ◌||◌, List, [], ◌∷◌, ◌++◌, ◌==◌, leb, select, if◌then◌else◌,
}
use operations_management.Base.Sorting.{sort}
use operations_management.Text.{Text, strip, text_eq}
use operations_management.Session.{pure, gets}
use operations_management.Shop.{Shop, Action, Product}

-- `s.lower()`, which `ILIKE` compares by.
abbrev pub is_upper : ℕ → Bool
is_upper c = leb b'A' c && leb c b'Z'

abbrev pub lower_char : ℕ → ℕ
lower_char c = if is_upper c then c + 32 else c

-- `t.replace(c, s)` for one character.
abbrev pub replace : ℕ → Text → Text → Text
replace c s [] = []
replace c s (d ∷ t) = let rest = replace c s t in if d == c then s ++ rest else d ∷ rest

-- The backslash.
abbrev pub backslash : ℕ
backslash = 92

abbrev pub escaped : Text → Text
escaped query =
    replace b'_' (backslash ∷ b'_' ∷ [])
      (replace b'%' (backslash ∷ b'%' ∷ []) (replace backslash (backslash ∷ backslash ∷ []) query))

abbrev pub pattern_of : Text → Text
pattern_of query = b'%' ∷ escaped query ++ b'%' ∷ []

-- A pattern of `LIKE`: any run of characters, any one character, or the one that is written.
pub data Piece : Type 0 where
  any_run any_one : Piece
  exactly : ℕ → Piece

abbrev pub piece : ℕ → Piece
piece c = if c == b'%' then Piece.any_run else if c == b'_' then Piece.any_one else Piece.exactly c

-- The pieces of a pattern; the flag tells that a backslash went before.
abbrev pub pieces : Bool → Text → List Piece
pieces flag [] = []
pieces true (c ∷ p) = Piece.exactly c ∷ pieces false p
pieces false (c ∷ p) =
    let rest = pieces (c == backslash) p in if c == backslash then rest else piece c ∷ rest

-- Some suffix passes.
abbrev pub some_suffix : (Text → Bool) → Text → Bool
some_suffix f [] = f []
some_suffix f (c ∷ t) = f (c ∷ t) || some_suffix f t

abbrev pub matches : List Piece → Text → Bool
matches [] [] = true
matches [] (c ∷ t) = false
matches (Piece.any_run ∷ p) t = some_suffix (matches p) t
matches (Piece.any_one ∷ p) [] = false
matches (Piece.any_one ∷ p) (c ∷ t) = matches p t
matches (Piece.exactly d ∷ p) [] = false
matches (Piece.exactly d ∷ p) (c ∷ t) = lower_char c == lower_char d && matches p t

abbrev pub ilike : Text → Text → Bool
ilike t pattern = matches (pieces false pattern) t

abbrev pub is_match : Text → Product → Bool
is_match query x = ilike x.name (pattern_of query) || ilike x.sku (pattern_of query)

module _ (before : Text → Text → Bool) where
  abbrev pub product_before : Product → Product → Bool
  product_before x y = before x.name y.name || (not (before y.name x.name) && before x.sku y.sku)

  abbrev pub matching : Text → Shop → List Product
  matching query d = sort product_before (select (is_match query) d.products)

  unfoldable pub search_products : Text → Action (List Product)
  search_products query =
      if text_eq (strip query) [] then pure [] else gets (matching (strip query))
