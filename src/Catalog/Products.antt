-- ===== src/Catalog/Products.antt =====
-- Products: `InventoryService` over `ProductRepository`.
use operations_management.Base.{
  ℕ, Bool, true, false, not, ◌&&◌, ◌||◌, Option, none, some, [], ◌∷◌, ◌++◌, ◌==◌, is_none, is_some,
}
use operations_management.Text.{Text, text_eq, strip, upper, is_blank}
use operations_management.Table.{find, first, put}
use operations_management.Errors.{Failure, InventoryError}
use operations_management.Session.{
  pure, gets, raise_if, or_raise, modify, uuid7, commit, ◌>>=◌, ◌>>◌,
}
use operations_management.Shop.{Shop, Action, Product, product_key, category_key}

abbrev pub product_not_found : Failure
product_not_found = Failure.inventory InventoryError.product_not_found

abbrev pub product_taken : Failure
product_taken = Failure.inventory InventoryError.product_already_exists

abbrev pub name_required : Failure
name_required = Failure.inventory InventoryError.product_name_is_required

abbrev pub sku_required : Failure
sku_required = Failure.inventory InventoryError.sku_is_required

-- `get_by_sku`
abbrev pub product_by_sku : Text → Shop → Option Product
product_by_sku sku d = first (λ x. text_eq x.sku sku) d.products

abbrev pub save_product : Product → Action (Unit {0})
save_product x = modify (λ d. record d { products = put x d.products })

unfoldable pub get_product : ℕ → Action Product
get_product i = do or_raise (← gets (λ d. find i d.products)) product_not_found

-- The constraints of `inventory_products`: the primary key and the SKU.
abbrev pub product_refused : Product → Shop → Bool
product_refused x d = is_some (find x.id d.products) || is_some (product_by_sku x.sku d)

-- `ProductRepository.create_product`: the product in its category.
unfoldable pub insert_product : Text → Text → ℕ → Action Product
insert_product name sku category_id = do
  i ← uuid7
  let x : Product = record { id = i; name = name; sku = sku; is_active = true }
  raise_if (← gets (product_refused x)) Failure.integrity_error
  modify (λ d. record d {
    products = d.products ++ x ∷ [];
    product_categories =
        d.product_categories ++ record { product_id = i; category_id = category_id } ∷ [];
  })
  commit
  pure x

unfoldable pub create_product : Text → Text → ℕ → Action Product
create_product name sku category_id = do
  raise_if (is_blank name) name_required
  raise_if (is_blank sku) sku_required
  raise_if (is_some (← gets (product_by_sku (upper (strip sku))))) product_taken
  or_raise (← gets (λ d. find category_id d.categories))
      (Failure.inventory InventoryError.category_not_found)
  insert_product (strip name) (upper (strip sku)) category_id

abbrev pub or_old : Option Text → Text → Text
or_old none old = old
or_old (some t) old = t

-- The check of a new name: it is stripped, and not empty.
abbrev pub checked_text : Failure → (Text → Text) → Option Text → Action (Option Text)
checked_text e normal none = pure none
checked_text e normal (some t) = do raise_if (text_eq (normal t) []) e; pure (some (normal t))

-- The check of a new SKU against the other products.
abbrev pub is_other : ℕ → Option Product → Bool
is_other i none = false
is_other i (some x) = not (x.id == i)

abbrev pub check_sku : ℕ → Option Text → Action (Unit {0})
check_sku i none = pure tt
check_sku i (some sku) = do
  existing ← gets (product_by_sku sku)
  raise_if (is_other i existing) product_taken

-- `ProductRepository.update_product`, with its `None` raised as `ProductNotFound`.
unfoldable pub store_product : ℕ → Option Text → Option Text → Action Product
unfolding get_product
store_product i name sku = do
  x ← get_product i
  let x' : Product = record x { name = or_old name x.name; sku = or_old sku x.sku }
  save_product x'
  commit
  pure x'

unfoldable pub update_product : ℕ → Option Text → Option Text → Action Product
update_product i name sku = do
  raise_if (is_none name && is_none sku) (Failure.inventory InventoryError.no_parameters_provide)
  name' ← checked_text name_required strip name
  sku' ← checked_text sku_required (λ t. upper (strip t)) sku
  check_sku i sku'
  store_product i name' sku'

-- `activate_product` and `deactivate_product`
unfoldable pub set_active : Bool → ℕ → Action Product
set_active active i = do
  x ← get_product i
  save_product (record x { is_active = active })
  commit
  pure (record x { is_active = active })
