-- ===== src/Catalog/Categories.antt =====
-- Categories: `InventoryService` over `CategoryRepository`.
use operations_management.Base.{
  ℕ, Bool, true, not, ◌&&◌, Option, none, some, [], ◌∷◌, ◌++◌, ◌==◌, any, select, is_none, is_some,
  if◌then◌else◌,
}
use operations_management.Text.{Text, text_eq, strip, is_blank}
use operations_management.Table.{find, first, delete}
use operations_management.Errors.{Failure, InventoryError}
use operations_management.Session.{
  pure, gets, raise_if, or_raise, modify, uuid7, commit, ◌>>=◌, ◌>>◌,
}
use operations_management.Shop.{Shop, Action, Category, category_key, product_key}

abbrev pub category_not_found : Failure
category_not_found = Failure.inventory InventoryError.category_not_found

abbrev pub category_by_name : Text → Shop → Option Category
category_by_name name d = first (λ x. text_eq x.name name) d.categories

-- `CategoryRepository.create_category`
unfoldable pub insert_category : Text → Text → Action Category
insert_category name description = do
  i ← uuid7
  let x : Category = record { id = i; name = name; description = description; is_active = true }
  raise_if (is_some (← gets (λ d. find x.id d.categories))) Failure.integrity_error
  modify (λ d. record d { categories = d.categories ++ x ∷ [] })
  commit
  pure x

unfoldable pub create_category : Text → Text → Action Category
create_category name description = do
  raise_if (is_blank name) (Failure.inventory InventoryError.category_name_is_required)
  raise_if (is_blank description)
      (Failure.inventory InventoryError.category_description_is_required)
  raise_if (is_some (← gets (category_by_name (strip name))))
      (Failure.inventory InventoryError.category_already_exists)
  insert_category (strip name) (strip description)

-- `delete_category`; the rows that tie products to the category go with it.
unfoldable pub delete_category : ℕ → Action (Unit {0})
delete_category i = do
  or_raise (← gets (λ d. find i d.categories)) category_not_found
  modify (λ d. record d {
    categories = delete i d.categories;
    product_categories = select (λ x. not (x.category_id == i)) d.product_categories;
  })
  commit

-- `product in category.products`
abbrev pub is_in : ℕ → ℕ → Shop → Bool
is_in product_id category_id d =
    any (λ x. x.product_id == product_id && x.category_id == category_id) d.product_categories

abbrev pub tie : ℕ → ℕ → Action (Unit {0})
tie product_id category_id = modify (λ d. record d {
  product_categories =
      d.product_categories ++ record { product_id = product_id; category_id = category_id } ∷ [];
})

-- What the mapper does at a flush with a `None` among the products: it may raise.
abbrev pub flush_none : Option Failure → Bool → Action (Unit {0})
flush_none none absent = pure tt
flush_none (some e) absent = raise_if absent e

-- `add_product_to_category`: a product that is not found is `None`, which is appended to the
-- category's products and left to the mapper.
unfoldable pub add_product_to_category : Option Failure → ℕ → ℕ → Action Category
add_product_to_category ignored product_id category_id = do
  category ← or_raise (← gets (λ d. find category_id d.categories)) category_not_found
  absent ← gets (λ d. is_none (find product_id d.products))
  flush_none ignored absent
  present ← gets (is_in product_id category_id)
  if present
      then pure category
      else if absent
      then (do commit; pure category)
      else (do tie product_id category_id; commit; pure category)

abbrev pub untie : ℕ → ℕ → Action (Unit {0})
untie product_id category_id = modify (λ d. record d {
  product_categories =
      select (λ x. not (x.product_id == product_id && x.category_id == category_id))
        d.product_categories;
})

-- `remove_product_from_category` and `CategoryRepository.remove_product`
unfoldable pub remove_product_from_category : ℕ → ℕ → Action Category
remove_product_from_category product_id category_id = do
  category ← or_raise (← gets (λ d. find category_id d.categories)) category_not_found
  present ← gets (is_in product_id category_id)
  if present then (do untie product_id category_id; commit; pure category) else pure category
