-- ===== src/Assistant/Answering.antt =====
-- What run_tool of app/assistant/tools/registry.py gives back, whatever the language model asks for.
use operations_management.Base.{
  ℕ, ◌+◌, ◌≡◌, refl, Bool, true, false, Option, none, some, List, [], ◌∷◌, arith, inl, inr,
  Option-cases, Bool-cases, any, map, length, ◌&&◌,
}
use mathlib.Core.Path.{subst}
use operations_management.Text.{Text, text_eq→eq, text_eq, strip, take}
use operations_management.Table.{find, first}
use operations_management.Table.Laws.{first_holds}
use operations_management.Errors.{Result, ok, err}
use operations_management.Session.{Session, pure, gets, ◌>>=◌}
use operations_management.Shop.{
  Shop, Notices, Product, Location, InventoryStock, product_key, stock_key,
}
use operations_management.Catalog.Products.{get_product}
use operations_management.Replenishment.{Floats, StockReplenishment}
use operations_management.Replenishment.Shown.{Shows, report-Shows}
use operations_management.Replenishment.Report.{get_replenishment_suggestions}
use operations_management.Reports.{
  StockHistory, get_location_list, list_stock_levels, get_stock_history,
}
use operations_management.Reports.Search.{search_products}
use operations_management.Assistant.Tools.{
  stock_row, ReplenishmentArgs, Tool, all_tools, tool_name, Args, ToolOutput, ToolResult,
  available_to, is_app_error, handler, returned, caught, item_of, or_current, run_found, run_tool,
}

-- The call raises an `AppError` alone, and it writes nothing.
abbrev pub OnlyReads :
    {A : Type 0} → Session Shop Notices → Result A × Session Shop Notices → Type 0
OnlyReads s (ok a, s') = (s'.db ≡ s.db) × (s'.committed ≡ s.committed) × (s'.memory ≡ s.memory)
OnlyReads s (err e, s') =
    (is_app_error e ≡ true) × (s'.db ≡ s.db) × (s'.committed ≡ s.committed) × (s'.memory ≡ s.memory)

module _ {F : Type 0} (floats : Floats F) (before : Text → Text → Bool) (location : ℕ)
    (s : Session Shop Notices) where
  -- A report of suggestions raises for an invalid policy alone.
  suggested :
      (low : Bool) (limit : ℕ) (x : Result (List (StockReplenishment F)))
      → Shows 0 low true x
      → OnlyReads s (
          (returned x >>= λ rs. gets (item_of floats before location) >>= λ row.
          pure (ToolOutput.replenishments (map row (take limit rs)) (length rs)))
            (record s { reads = s.reads + 1 }))
  suggested low limit (ok rs) h = (refl, refl, refl)
  suggested low limit (err e) h = rw (h, OnlyReads) (refl, refl, refl, refl)

  handler-OnlyReads : (t : Tool) (a : Args t) → OnlyReads s (handler floats before location t a s)
  unfolding search_products list_stock_levels get_stock_history get_location_list get_product
  handler-OnlyReads Tool.search_products_tool a = elim (Bool-cases (text_eq (strip a.query) [])) [
    | inl blank ↦ rw blank (refl, refl, refl)
    | inr text ↦ rw text (refl, refl, refl)
  ]
  handler-OnlyReads Tool.get_replenishment_tool a = suggested _ a.limit _ (
      report-Shows floats 0 true (some (or_current a.location_id location)) a.horizon_days
        (s.clock s.reads) s.db)
  handler-OnlyReads Tool.get_stock_levels_tool a = (refl, refl, refl)
  handler-OnlyReads Tool.list_stock_movements_tool a =
      elim (Option-cases (find a.stock_id s.db.stocks)) [
        | inl e ↦ rw (e, OnlyReads) (refl, refl, refl, refl)
        | inr (st, e) ↦ rw (e, OnlyReads) (refl, refl, refl)
      ]
  handler-OnlyReads Tool.list_locations_tool a = (refl, refl, refl)
  handler-OnlyReads Tool.get_product_tool i = elim (Option-cases (find i s.db.products)) [
    | inl e ↦ rw (e, OnlyReads) (refl, refl, refl, refl)
    | inr (x, e) ↦ rw (e, OnlyReads) (refl, refl, refl)
  ]

  -- What a tool's output holds, from the calls of the services: the first rows up to the limit, with
  -- the number of all of them.
  abbrev pub Gives : (t : Tool) → Args t → ToolOutput F → Type 0
  Gives Tool.search_products_tool a o =
      (xs : List Product) × ((search_products before a.query s).0 ≡ ok xs)
      × (o ≡ ToolOutput.products_found (take a.limit xs) (length xs))
  Gives Tool.get_replenishment_tool a o =
      (rs : List (StockReplenishment F)) × (get_replenishment_suggestions floats
          (some (or_current a.location_id location)) a.horizon_days true (s.clock s.reads) s.db
        ≡ ok rs)
      × (o
          ≡ ToolOutput.replenishments (map (λ r. (stock_row s.db r.stock, r)) (take a.limit rs))
              (length rs))
  Gives Tool.get_stock_levels_tool a o =
      (sts : List InventoryStock) × ((list_stock_levels (some (or_current a.location_id location))
          a.product_id s).0
        ≡ ok sts)
      × (o ≡ ToolOutput.levels_found (map (stock_row s.db) (take a.limit sts)) (length sts))
  Gives Tool.list_stock_movements_tool a o =
      (h : StockHistory) × ((get_stock_history a.stock_id a.limit s).0 ≡ ok h)
      × (o ≡ ToolOutput.history_found (stock_row s.db h.stock) h.history (length h.history))
  Gives Tool.list_locations_tool a o =
      (ls : List Location) × ((get_location_list s).0 ≡ ok ls)
      × (o ≡ ToolOutput.locations_found ls (length ls))
  Gives Tool.get_product_tool i o =
      (x : Product) × (find i s.db.products ≡ some x) × (o ≡ ToolOutput.product_found x)

  -- A return holds what it should; what is raised is said by `OnlyReads`.
  abbrev GivesOk : (t : Tool) → Args t → Result (ToolOutput F) → Type 0
  GivesOk t a (ok o) = Gives t a o
  GivesOk t a (err e) = Unit

  reported :
      (a : ReplenishmentArgs) (x : Result (List (StockReplenishment F)))
      → get_replenishment_suggestions floats
          (some (or_current a.location_id location))
          a.horizon_days
          true
          (s.clock s.reads)
          s.db
        ≡ x
      → GivesOk Tool.get_replenishment_tool a
          ((returned x >>= λ rs. gets (item_of floats before location) >>= λ row.
              pure (ToolOutput.replenishments (map row (take a.limit rs)) (length rs)))
            (record s { reads = s.reads + 1 })).0
  reported a (ok rs) e = (rs, e, refl)
  reported a (err _) e = tt

  handler-Gives : (t : Tool) (a : Args t) → GivesOk t a (handler floats before location t a s).0
  unfolding search_products list_stock_levels get_stock_history get_location_list get_product
  handler-Gives Tool.search_products_tool a = elim (Bool-cases (text_eq (strip a.query) [])) [
    | inl blank ↦ rw blank ([], rw blank refl, refl)
    | inr text ↦ rw text (_, rw text refl, refl)
  ]
  handler-Gives Tool.get_replenishment_tool a = reported a _ refl
  handler-Gives Tool.get_stock_levels_tool a = (_, refl, refl)
  handler-Gives Tool.list_stock_movements_tool a =
      elim (Option-cases (find a.stock_id s.db.stocks)) [
        | inl e ↦ rw (e, GivesOk) tt
        | inr (st, e) ↦ rw (e, GivesOk) (_, rw e refl, refl)
      ]
  handler-Gives Tool.list_locations_tool a = (_, refl, refl)
  handler-Gives Tool.get_product_tool i = elim (Option-cases (find i s.db.products)) [
    | inl e ↦ rw (e, GivesOk) tt
    | inr (x, e) ↦ rw e (x, e, refl)
  ]

  -- No two tools have one name, so a tool that is not available leaves none of its name.
  none_other :
      (permissions : List Text) (t : Tool)
      → available_to permissions t ≡ false
      → any (λ u. text_eq (tool_name u) (tool_name t) && available_to permissions u) all_tools
        ≡ false
  none_other permissions Tool.search_products_tool h = rw h refl
  none_other permissions Tool.get_replenishment_tool h = rw h refl
  none_other permissions Tool.get_stock_levels_tool h = rw h refl
  none_other permissions Tool.list_stock_movements_tool h = rw h refl
  none_other permissions Tool.list_locations_tool h = rw h refl
  none_other permissions Tool.get_product_tool h = rw h refl

  module _ (name : Text) (permissions : List Text) where
    -- A tool of the name whose permission the user has.
    abbrev pub is_granted : Tool → Bool
    is_granted t = text_eq (tool_name t) name && available_to permissions t

    none_named :
        (ts : List Tool)
        → first (λ t. text_eq (tool_name t) name) ts ≡ none
        → any is_granted ts ≡ false
    none_named [] e = refl
    none_named (t ∷ ts) e = ground (arith, none_named ts)

    unavailable :
        (t : Tool)
        → text_eq (tool_name t) name ≡ true
        → available_to permissions t ≡ false
        → any is_granted all_tools ≡ false
    unavailable t named h =
        subst
          (λ n. any (λ u. text_eq (tool_name u) n && available_to permissions u) all_tools ≡ false)
          (text_eq→eq (tool_name t) name named) (none_other permissions t h)

    module _ {Raw : Type 0} (validate : (t : Tool) → Raw → Option (Args t)) (raw : Raw) where
      -- Where a result comes from.
      abbrev pub ComesFrom : ToolResult F → Type 0
      ComesFrom (ToolResult.output o) =
          (t : Tool) × (is_granted t ≡ true)
          × ((a : Args t) × (validate t raw ≡ some a) × Gives t a o)
      ComesFrom (ToolResult.app_error e) =
          (t : Tool) × (is_granted t ≡ true)
          × ((a : Args t) × (validate t raw ≡ some a)
              × ((handler floats before location t a s).0 ≡ err e)
              × (is_app_error e ≡ true))
      ComesFrom ToolResult.invalid_tool_input =
          (t : Tool) × (is_granted t ≡ true) × (validate t raw ≡ none)
      ComesFrom (ToolResult.tool_not_available n) = (n ≡ name) × (any is_granted all_tools ≡ false)

      -- What comes back: a result of the tool of that name, and nothing is written.
      abbrev pub Answers : Result (ToolResult F) × Session Shop Notices → Type 0
      Answers (ok r, s') =
          ComesFrom r × (s'.db ≡ s.db) × (s'.committed ≡ s.committed) × (s'.memory ≡ s.memory)
      Answers (err e, s') = ⊥

      caught-Answers :
          (t : Tool) (a : Args t) (x : Result (ToolOutput F) × Session Shop Notices)
          → is_granted t ≡ true
          → validate t raw ≡ some a
          → (handler floats before location t a s).0 ≡ x.0
          → OnlyReads s x
          → GivesOk t a x.0
          → Answers (caught floats before location x)
      caught-Answers t a (ok o, s') granted valid came (kept, saved, quiet) gives =
          ((t, granted, (a, valid, gives)), kept, saved, quiet)
      caught-Answers t a (err e, s') granted valid came (app, kept, saved, quiet) gives =
          rw app ((t, granted, (a, valid, came, app)), kept, saved, quiet)

      found-Answers :
          (o : Option Tool)
          → first (λ t. text_eq (tool_name t) name) all_tools ≡ o
          → Answers (run_found floats before location validate o name raw permissions s)
      found-Answers none e = ((refl, none_named all_tools e), refl, refl, refl)
      found-Answers (some t) e =
          let named = first_holds (λ u. text_eq (tool_name u) name) all_tools t e in
          elim (Bool-cases (available_to permissions t)) [
            | inr forbidden ↦ rw forbidden ((refl, unavailable t named forbidden), refl, refl, refl)
            | inl allowed ↦
                let granted : is_granted t ≡ true = ground arith in
                rw allowed (elim (Option-cases (validate t raw)) [
                  | inl invalid ↦ rw invalid ((t, granted, invalid), refl, refl, refl)
                  | inr (a, valid) ↦ rw valid (
                      caught-Answers t a (handler floats before location t a s) granted valid refl
                        (handler-OnlyReads t a) (handler-Gives t a))
                ])
          ]

      -- Whatever the language model asks for, `run_tool` gives back a result and raises nothing. An
      -- output is that of the tool of that name, whose permission the user has, for the validated
      -- input; an error is what that tool's service raised, an `AppError`; a refused input is one
      -- that this tool does not take; `TOOL_NOT_AVAILABLE` says that the user has no tool of that
      -- name. The database, what is committed and the pending alerts stay as they are.
      pub run_tool-Answers :
          Answers (run_tool floats before location validate name raw permissions s)
      unfolding run_tool
      run_tool-Answers = found-Answers (first (λ t. text_eq (tool_name t) name) all_tools) refl
