-- ===== src/Reports/Matching.antt =====
-- What `search_products` finds: the escaped pattern of `ILIKE` looks for the query as it is written.
use operations_management.Base.{
  ◌≡◌, refl, sym, ◌∙◌, Bool, true, false, not, ◌&&◌, ◌||◌, List, [], ◌∷◌, ◌++◌, map, arith, ◌==◌,
  any, select, Bool-cases, inl, inr,
}
use operations_management.Base.Sorting.{any-sort}
use operations_management.Text.{Text, strip, text_eq}
use operations_management.Errors.{Result, ok, err}
use operations_management.Session.{Session}
use operations_management.Shop.{Shop, Notices, Product}
use operations_management.Reports.Search.{
  lower_char, escaped, pattern_of, backslash, Piece, pieces, some_suffix, matches, ilike, is_match,
  product_before, search_products,
}
use operations_management.Reports.History.{any-select}

-- The text begins with the query, whatever the case of the letters.
abbrev pub starts : Text → Text → Bool
starts [] t = true
starts (d ∷ q) [] = false
starts (d ∷ q) (c ∷ t) = lower_char c == lower_char d && starts q t

-- The query is somewhere in the text.
abbrev pub contains : Text → Text → Bool
contains q [] = starts q []
contains q (c ∷ t) = starts q (c ∷ t) || contains q t

pieces-escaped :
    (q rest : Text) → pieces false (escaped q ++ rest) ≡ map Piece.exactly q ++ pieces false rest
pieces-escaped [] rest = refl
pieces-escaped (c ∷ q) rest = elim (Bool-cases (c == backslash)) [
  | inl slash ↦ rw slash (ground (arith, pieces-escaped q rest))
  | inr other ↦ rw other (elim (Bool-cases (c == b'%')) [
    | inl percent ↦ rw percent (ground (arith, pieces-escaped q rest))
    | inr plain ↦ rw plain (ground (arith, pieces-escaped q rest))
  ])
]

some_suffix-empty : (t : Text) → some_suffix (matches []) t ≡ true
some_suffix-empty [] = refl
some_suffix-empty (c ∷ t) = ground (arith, some_suffix-empty t)

matches-starts : (q t : Text) → matches (map Piece.exactly q ++ Piece.any_run ∷ []) t ≡ starts q t
matches-starts [] t = some_suffix-empty t
matches-starts (d ∷ q) [] = refl
matches-starts (d ∷ q) (c ∷ t) = ground (arith, matches-starts q t)

some_suffix-contains :
    (q t : Text)
    → some_suffix (matches (map Piece.exactly q ++ Piece.any_run ∷ [])) t ≡ contains q t
some_suffix-contains q [] = matches-starts q []
some_suffix-contains q (c ∷ t) = rw (matches-starts q (c ∷ t), some_suffix-contains q t) refl

ilike-contains : (q t : Text) → ilike t (pattern_of q) ≡ contains q t
ilike-contains q t = rw (pieces-escaped q (b'%' ∷ [])) (some_suffix-contains q t)

module _ (before : Text → Text → Bool) (query : Text) (s : Session Shop Notices) where
  abbrev pub has_query : Product → Bool
  has_query x = contains (strip query) x.name || contains (strip query) x.sku

  -- The list has a product that passes a test when the table has such a product with the query in
  -- its name or its SKU, unless the query is blank.
  abbrev pub FindsExactly : List Product → Type 0
  FindsExactly xs =
      (p : Product → Bool)
      → any p xs ≡ any (λ x. (not (text_eq (strip query) []) && has_query x) && p x) s.db.products

  abbrev pub Finds : Result (List Product) × Session Shop Notices → Type 0
  Finds (ok xs, s') = FindsExactly xs × (s' ≡ s)
  Finds (err e, s') = ⊥

  none_pass :
      (p : Product → Bool) (b : Bool)
      → b ≡ true
      → (xs : List Product) → any (λ x. (not b && has_query x) && p x) xs ≡ false
  none_pass p b e [] = refl
  none_pass p b e (x ∷ xs) = rw (e, none_pass p b e xs) refl

  match_passes :
      (p : Product → Bool) (b : Bool)
      → b ≡ false
      → (xs : List Product)
      → any (λ x. is_match (strip query) x && p x) xs ≡ any (λ x. (not b && has_query x) && p x) xs
  match_passes p b e [] = refl
  match_passes p b e (x ∷ xs) =
      rw
        (
          e,
          ilike-contains (strip query) x.name,
          ilike-contains (strip query) x.sku,
          match_passes p b e xs,
        )
        refl

  -- `search_products` never raises: it lists exactly the products whose name or SKU contains the
  -- stripped query, whatever the case and also where the query holds `%`, `_` or a backslash; for a
  -- blank query it lists nothing.
  pub search_products-Finds : Finds (search_products before query s)
  unfolding search_products
  search_products-Finds = elim (Bool-cases (text_eq (strip query) [])) [
    | inl blank ↦ rw blank (λ p. sym (none_pass p _ blank s.db.products), refl)
    | inr text ↦ rw text (
      λ p.
          any-sort (product_before before) p (select (is_match (strip query)) s.db.products)
          ∙ any-select p (is_match (strip query)) s.db.products
          ∙ match_passes p _ text s.db.products,
      refl,
    )
  ]
