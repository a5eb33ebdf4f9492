-- ===== src/Catalog/Locations.antt =====
-- Locations: `InventoryService` over `LocationRepository`.
use operations_management.Base.{
  ℕ, Bool, false, not, ◌&&◌, Option, none, some, [], ◌∷◌, ◌++◌, ◌==◌, any, is_none, is_some,
}
use operations_management.Text.{Text, text_eq, strip, is_blank}
use operations_management.Table.{find, first, put, delete}
use operations_management.Errors.{Failure, InventoryError}
use operations_management.Session.{
  pure, gets, raise_if, or_raise, modify, uuid7, commit, ◌>>=◌, ◌>>◌,
}
use operations_management.Shop.{Shop, Action, Location, location_key}
use operations_management.Catalog.Products.{checked_text, or_old}

abbrev pub failed_with : InventoryError → Failure
failed_with e = Failure.inventory e

abbrev pub location_by_name : Text → Shop → Option Location
location_by_name name d = first (λ x. text_eq x.name name) d.locations

unfoldable pub get_location : ℕ → Action Location
get_location i = do
  or_raise (← gets (λ d. find i d.locations)) (failed_with InventoryError.location_not_found)

-- `LocationRepository.create_location`
unfoldable pub insert_location : Text → Text → Text → Action Location
insert_location name city address = do
  i ← uuid7
  let x : Location = record { id = i; name = name; city = city; address = address }
  raise_if (is_some (← gets (λ d. find x.id d.locations))) Failure.integrity_error
  modify (λ d. record d { locations = d.locations ++ x ∷ [] })
  commit
  pure x

unfoldable pub create_location : Text → Text → Text → Action Location
create_location name city address = do
  raise_if (is_blank name) (failed_with InventoryError.location_name_is_required)
  raise_if (is_blank city) (failed_with InventoryError.location_city_is_required)
  raise_if (is_blank address) (failed_with InventoryError.location_address_is_required)
  raise_if (is_some (← gets (location_by_name (strip name))))
      (failed_with InventoryError.location_already_exists)
  insert_location (strip name) (strip city) (strip address)

-- The check of a new name against the other locations.
abbrev pub is_other : ℕ → Option Location → Bool
is_other i none = false
is_other i (some x) = not (x.id == i)

abbrev pub check_name : ℕ → Option Text → Action (Unit {0})
check_name i none = pure tt
check_name i (some name) = do
  existing ← gets (location_by_name name)
  raise_if (is_other i existing) (failed_with InventoryError.location_already_exists)

-- `LocationRepository.update_location`, with its `None` raised as `LocationNotFound`.
unfoldable pub store_location : ℕ → Option Text → Option Text → Option Text → Action Location
unfolding get_location
store_location i name city address = do
  x ← get_location i
  let x' : Location = record {
    id = x.id;
    name = or_old name x.name;
    city = or_old city x.city;
    address = or_old address x.address;
  }
  modify (λ d. record d { locations = put x' d.locations })
  commit
  pure x'

-- The checks of a new city and a new address, and the write.
unfoldable pub update_place : ℕ → Option Text → Option Text → Option Text → Action Location
update_place i name city address = do
  city' ← checked_text (failed_with InventoryError.location_city_is_required) strip city
  address' ← checked_text (failed_with InventoryError.location_address_is_required) strip address
  store_location i name city' address'

unfoldable pub update_location : ℕ → Option Text → Option Text → Option Text → Action Location
update_location i name city address = do
  raise_if (is_none name && is_none city && is_none address)
      (failed_with InventoryError.no_parameters_provide)
  name' ← checked_text (failed_with InventoryError.location_name_is_required) strip name
  check_name i name'
  update_place i name' city address

-- `location_has_stock`
abbrev pub location_has_stock : ℕ → Shop → Bool
location_has_stock i d = any (λ st. st.location_id == i) d.stocks

unfoldable pub delete_location : ℕ → Action (Unit {0})
delete_location i = do
  get_location i
  raise_if (← gets (location_has_stock i)) (failed_with InventoryError.location_has_stock)
  modify (λ d. record d { locations = delete i d.locations })
  commit
