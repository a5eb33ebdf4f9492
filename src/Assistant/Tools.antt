-- ===== src/Assistant/Tools.antt =====
-- app/assistant/tools: the tools that the assistant offers to the language model, and run_tool of
-- app/assistant/tools/registry.py. The validation of a tool's input by its schema is a parameter.
use operations_management.Base.{
  ℕ, Bool, true, false, Option, none, some, List, [], ◌∷◌, map, any, select, length,
}
use operations_management.Int.{ℤ}
use operations_management.Text.{Text, text_eq, take}
use operations_management.Table.{find, first}
use operations_management.Errors.{Failure, Result, ok, err}
use operations_management.Session.{Session, pure, raise, gets, now, ◌>>=◌}
use operations_management.Shop.{
  Shop, Notices, Action, Product, Location, InventoryStock, StockMovement, product_key,
  location_key,
}
use operations_management.Catalog.Products.{get_product}
use operations_management.Replenishment.{Floats, StockReplenishment}
use operations_management.Replenishment.Report.{get_replenishment_suggestions}
use operations_management.Reports.{get_location_list, list_stock_levels, get_stock_history}
use operations_management.Reports.Search.{search_products}

-- `INVENTORY_TOOLS`
pub data Tool : Type 0 where
  search_products_tool : Tool
  get_replenishment_tool : Tool
  get_stock_levels_tool : Tool
  list_stock_movements_tool : Tool
  list_locations_tool : Tool
  get_product_tool : Tool

abbrev pub all_tools : List Tool
all_tools =
    Tool.search_products_tool ∷ Tool.get_replenishment_tool ∷ Tool.get_stock_levels_tool
    ∷ Tool.list_stock_movements_tool ∷ Tool.list_locations_tool ∷ Tool.get_product_tool ∷ []

abbrev pub product_view : Text
product_view =
    b'p' ∷ b'r' ∷ b'o' ∷ b'd' ∷ b'u' ∷ b'c' ∷ b't' ∷ b':' ∷ b'v' ∷ b'i' ∷ b'e' ∷ b'w' ∷ []

abbrev pub stock_view : Text
stock_view = b's' ∷ b't' ∷ b'o' ∷ b'c' ∷ b'k' ∷ b':' ∷ b'v' ∷ b'i' ∷ b'e' ∷ b'w' ∷ []

abbrev pub location_list : Text
location_list =
    b'l' ∷ b'o' ∷ b'c' ∷ b'a' ∷ b't' ∷ b'i' ∷ b'o' ∷ b'n' ∷ b':' ∷ b'l' ∷ b'i' ∷ b's' ∷ b't' ∷ []

abbrev pub tool_name : Tool → Text
tool_name Tool.search_products_tool =
    b's' ∷ b'e' ∷ b'a' ∷ b'r' ∷ b'c' ∷ b'h' ∷ b'_' ∷ b'p' ∷ b'r' ∷ b'o' ∷ b'd' ∷ b'u' ∷ b'c' ∷ b't'
    ∷ b's' ∷ []
tool_name Tool.get_replenishment_tool =
    b'g' ∷ b'e' ∷ b't' ∷ b'_' ∷ b'r' ∷ b'e' ∷ b'p' ∷ b'l' ∷ b'e' ∷ b'n' ∷ b'i' ∷ b's' ∷ b'h' ∷ b'm'
    ∷ b'e' ∷ b'n' ∷ b't' ∷ b'_' ∷ b's' ∷ b'u' ∷ b'g' ∷ b'g' ∷ b'e' ∷ b's' ∷ b't' ∷ b'i' ∷ b'o'
    ∷ b'n' ∷ b's' ∷ []
tool_name Tool.get_stock_levels_tool =
    b'g' ∷ b'e' ∷ b't' ∷ b'_' ∷ b's' ∷ b't' ∷ b'o' ∷ b'c' ∷ b'k' ∷ b'_' ∷ b'l' ∷ b'e' ∷ b'v' ∷ b'e'
    ∷ b'l' ∷ b's' ∷ []
tool_name Tool.list_stock_movements_tool =
    b'l' ∷ b'i' ∷ b's' ∷ b't' ∷ b'_' ∷ b's' ∷ b't' ∷ b'o' ∷ b'c' ∷ b'k' ∷ b'_' ∷ b'm' ∷ b'o' ∷ b'v'
    ∷ b'e' ∷ b'm' ∷ b'e' ∷ b'n' ∷ b't' ∷ b's' ∷ []
tool_name Tool.list_locations_tool =
    b'l' ∷ b'i' ∷ b's' ∷ b't' ∷ b'_' ∷ b'l' ∷ b'o' ∷ b'c' ∷ b'a' ∷ b't' ∷ b'i' ∷ b'o' ∷ b'n' ∷ b's'
    ∷ []
tool_name Tool.get_product_tool =
    b'g' ∷ b'e' ∷ b't' ∷ b'_' ∷ b'p' ∷ b'r' ∷ b'o' ∷ b'd' ∷ b'u' ∷ b'c' ∷ b't' ∷ []

abbrev pub permission : Tool → Text
permission Tool.search_products_tool = product_view
permission Tool.get_replenishment_tool = stock_view
permission Tool.get_stock_levels_tool = stock_view
permission Tool.list_stock_movements_tool = stock_view
permission Tool.list_locations_tool = location_list
permission Tool.get_product_tool = product_view

pub record SearchProductsArgs : Type 0 where
  pub query : Text
  pub limit : ℕ

pub record ReplenishmentArgs : Type 0 where
  pub location_id : Option ℕ
  pub horizon_days : Option ℤ
  pub limit : ℕ

pub record StockLevelsArgs : Type 0 where
  pub location_id : Option ℕ
  pub product_id : Option ℕ
  pub limit : ℕ

pub record StockMovementsArgs : Type 0 where
  pub stock_id : ℕ
  pub limit : ℕ

-- `input_schema`: what a validated input is.
abbrev pub Args : Tool → Type 0
Args Tool.search_products_tool = SearchProductsArgs
Args Tool.get_replenishment_tool = ReplenishmentArgs
Args Tool.get_stock_levels_tool = StockLevelsArgs
Args Tool.list_stock_movements_tool = StockMovementsArgs
Args Tool.list_locations_tool = Unit {0}
Args Tool.get_product_tool = ℕ

-- A stock row with the names of its product and location, `none` where the reference leads nowhere,
-- which the database rules out.
pub record StockRow : Type 0 where
  pub stock : InventoryStock
  pub product_name : Option Text
  pub sku : Option Text
  pub location_name : Option Text

abbrev pub get_name : Option Product → Option Text
get_name none = none
get_name (some x) = some x.name

abbrev pub get_sku : Option Product → Option Text
get_sku none = none
get_sku (some x) = some x.sku

abbrev pub get_location_name : Option Location → Option Text
get_location_name none = none
get_location_name (some x) = some x.name

abbrev pub stock_row : Shop → InventoryStock → StockRow
stock_row d st = record {
  stock = st;
  product_name = get_name (find st.product_id d.products);
  sku = get_sku (find st.product_id d.products);
  location_name = get_location_name (find st.location_id d.locations);
}

-- What the handlers return; the number counts every row before the cut.
pub data ToolOutput (F : Type 0) : Type 0 where
  products_found : List Product → ℕ → ToolOutput F
  replenishments : List (StockRow × StockReplenishment F) → ℕ → ToolOutput F
  levels_found : List StockRow → ℕ → ToolOutput F
  history_found : StockRow → List StockMovement → ℕ → ToolOutput F
  locations_found : List Location → ℕ → ToolOutput F
  product_found : Product → ToolOutput F

-- `ToolResult`: an output, or one of the errors that go back to the language model.
pub data ToolResult (F : Type 0) : Type 0 where
  output : ToolOutput F → ToolResult F
  tool_not_available : Text → ToolResult F
  invalid_tool_input : ToolResult F
  app_error : Failure → ToolResult F

-- `args.location_id or ctx.location_id`
abbrev pub or_current : Option ℕ → ℕ → ℕ
or_current none l = l
or_current (some i) l = i

abbrev pub available_to : List Text → Tool → Bool
available_to permissions t = any (λ p. text_eq p (permission t)) permissions

abbrev pub tools_for : List Text → List Tool
tools_for permissions = select (available_to permissions) all_tools

-- `isinstance(exc, AppError)`
abbrev pub is_app_error : Failure → Bool
is_app_error (Failure.http _) = false
is_app_error Failure.integrity_error = false
is_app_error Failure.value_error = false
is_app_error Failure.type_error = false
is_app_error _ = true

-- A result of a service call as an action.
abbrev pub returned : {A : Type 0} → Result A → Action A
returned (ok a) = pure a
returned (err e) = raise e

module _ {F : Type 0} (floats : Floats F) (before : Text → Text → Bool) (location : ℕ) where
  -- The row of a suggestion.
  abbrev pub item_of : Shop → StockReplenishment F → StockRow × StockReplenishment F
  item_of d r = (stock_row d r.stock, r)

  abbrev pub handler : (t : Tool) → Args t → Action (ToolOutput F)
  handler Tool.search_products_tool a = do
    xs ← search_products before a.query
    pure (ToolOutput.products_found (take a.limit xs) (length xs))
  handler Tool.get_replenishment_tool a = do
    t ← now
    r ← gets (
        get_replenishment_suggestions floats (some (or_current a.location_id location))
          a.horizon_days true t)
    rs ← returned r
    row ← gets item_of
    pure (ToolOutput.replenishments (map row (take a.limit rs)) (length rs))
  handler Tool.get_stock_levels_tool a = do
    sts ← list_stock_levels (some (or_current a.location_id location)) a.product_id
    row ← gets stock_row
    pure (ToolOutput.levels_found (map row (take a.limit sts)) (length sts))
  handler Tool.list_stock_movements_tool a = do
    h ← get_stock_history a.stock_id a.limit
    row ← gets stock_row
    pure (ToolOutput.history_found (row h.stock) h.history (length h.history))
  handler Tool.list_locations_tool a = do
    ls ← get_location_list
    pure (ToolOutput.locations_found ls (length ls))
  handler Tool.get_product_tool i = do x ← get_product i; pure (ToolOutput.product_found x)

  -- `except AppError`
  abbrev pub error_result : Bool → Failure → Action (ToolResult F)
  error_result true e = pure (ToolResult.app_error e)
  error_result false e = raise e

  abbrev pub caught :
      Result (ToolOutput F) × Session Shop Notices → Result (ToolResult F) × Session Shop Notices
  caught (ok o, s) = (ok (ToolResult.output o), s)
  caught (err e, s) = error_result (is_app_error e) e s

  module _ {Raw : Type 0} (validate : (t : Tool) → Raw → Option (Args t)) where
    abbrev pub run_with : (t : Tool) → Option (Args t) → Action (ToolResult F)
    run_with t none s = pure ToolResult.invalid_tool_input s
    run_with t (some a) s = caught (handler t a s)

    abbrev pub run_allowed : Bool → Tool → Text → Raw → Action (ToolResult F)
    run_allowed false t name raw = pure (ToolResult.tool_not_available name)
    run_allowed true t name raw = run_with t (validate t raw)

    abbrev pub run_found : Option Tool → Text → Raw → List Text → Action (ToolResult F)
    run_found none name raw permissions = pure (ToolResult.tool_not_available name)
    run_found (some t) name raw permissions = run_allowed (available_to permissions t) t name raw

    unfoldable pub run_tool : Text → Raw → List Text → Action (ToolResult F)
    run_tool name raw permissions =
        run_found (first (λ t. text_eq (tool_name t) name) all_tools) name raw permissions
