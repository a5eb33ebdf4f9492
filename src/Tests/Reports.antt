-- ===== src/Tests/Reports.antt =====
-- Lists of movements, orders and products.
use operations_management.Base.{Bool, false, not, [], ◌∷◌, ltb}
use operations_management.Text.{Text, text_eq}
use operations_management.Session.{Session}
use operations_management.Shop.{Shop, Notices, StockMovement, StockMovementType}
use operations_management.Int.{pos}
use operations_management.Reports.{list_stock_movements}
use operations_management.Reports.Search.{search_products}
use operations_management.Reports.History.{ListsOwn, list_stock_movements-ListsOwn}
use operations_management.Reports.Matching.{Finds, search_products-Finds}
use operations_management.Tests.Data.{shop, session}

abbrev two_movements : Session Shop Notices
two_movements =
    let m : StockMovement = record {
      id = 20;
      movement_type = StockMovementType.inward;
      quantity = pos 6;
      stock_id = 3;
      previous_quantity = pos 0;
      new_quantity = pos 6;
      created_by = 1;
      created_at = 4;
    } in
    let n : StockMovement = record m {
      id = 21;
      quantity = pos 4;
      previous_quantity = pos 6;
      new_quantity = pos 10;
      created_at = 9;
    } in
    record session { db = record shop { movements = m ∷ n ∷ [] } }

list_stock_movements-ListsOwn_example :
    ListsOwn 3 2 1 two_movements (list_stock_movements 3 2 1 two_movements)
list_stock_movements-ListsOwn_example = list_stock_movements-ListsOwn 3 2 1 two_movements

abbrev pub by_first : Text → Text → Bool
by_first [] t = not (text_eq t [])
by_first (c ∷ s) [] = false
by_first (c ∷ s) (d ∷ t) = ltb c d

search_products-Finds_example :
    Finds by_first (b' ' ∷ b'W' ∷ []) session (search_products by_first (b' ' ∷ b'W' ∷ []) session)
search_products-Finds_example = search_products-Finds by_first (b' ' ∷ b'W' ∷ []) session
