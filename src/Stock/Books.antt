-- ===== src/Stock/Books.antt =====
-- The audit trail of `add_stock`, `remove_stock` and `adjust_stock` of app/inventory/service.py: the
-- quantity on hand beside the movements.
use operations_management.Base.{
  ℕ, ◌≡◌, refl, is_some, some, inl, inr, arith, Bool-cases, Option-cases,
}
use operations_management.Int.{ℤ, ◌+ℤ◌, ◌-ℤ◌, abs_ℤ}
use operations_management.Table.{find, IsKeyed}
use operations_management.Table.Laws.{find-first}
use operations_management.Session.{Session}
use operations_management.Session.Outcome.{Returns}
use operations_management.Shop.{
  Shop, Notices, InventoryStock, StockMovementType, stock_key, movement_key,
}
use operations_management.Shop.Ledger.{opening, moved-opening}
use operations_management.Stock.{
  stock_at, record_change, create_movement, add_movement, flush_low_stock_alerts, add_stock,
  remove_stock, adjust_stock,
}
use operations_management.Stock.Sync.{sync_low_stock-run, marked}

-- Every row's quantity less its movements is what it was.
abbrev pub KeepsOpenings : Shop → Shop → Type 0
KeepsOpenings d0 d = (i : ℕ) → opening i d ≡ opening i d0

module _ (p l : ℕ) (quantity : ℤ) (user : ℕ) (s : Session Shop Notices)
    (keyed : IsKeyed s.db.stocks) where
  change-KeepsOpenings :
      (kind : StockMovementType) (moved new : ℤ) (st : InventoryStock)
      → stock_at p l s.db ≡ some st
      → Returns
          (KeepsOpenings s.db)
          (record_change kind moved st.quantity user (record st { quantity = new }) s)
  unfolding record_change create_movement add_movement flush_low_stock_alerts
  change-KeepsOpenings kind moved new st e =
      let st' = record st { quantity = new } in
      let found = find-first _ s.db.stocks st keyed e in
      rw (sync_low_stock-run st' s)
        (elim (Bool-cases (is_some (find (s.uuids s.drawn) s.db.movements))) [
          | inl taken ↦ rw taken tt
          | inr fresh ↦
              rw fresh (moved-opening s.db (marked (s.clock s.reads) st') st _ found refl refl refl)
        ])

  -- When the stock rows have keys of their own and `add_stock` returns, the movements of each row,
  -- the new one included, account for its quantity as they did before.
  pub add_stock-KeepsOpenings : Returns (KeepsOpenings s.db) (add_stock p l quantity user s)
  unfolding add_stock
  add_stock-KeepsOpenings = elim (Option-cases (stock_at p l s.db)) [
    | inl e ↦ ground arith
    | inr (st, e) ↦ ground (
      arith,
      change-KeepsOpenings StockMovementType.inward quantity (st.quantity +ℤ quantity) st e,
    )
  ]

  -- When the stock rows have keys of their own and `remove_stock` returns, the movements of each row,
  -- the new one included, account for its quantity as they did before.
  pub remove_stock-KeepsOpenings : Returns (KeepsOpenings s.db) (remove_stock p l quantity user s)
  unfolding remove_stock
  remove_stock-KeepsOpenings = elim (Option-cases (stock_at p l s.db)) [
    | inl e ↦ ground arith
    | inr (st, e) ↦ ground (
      arith,
      change-KeepsOpenings StockMovementType.outward quantity (st.quantity -ℤ quantity) st e,
    )
  ]

  -- When the stock rows have keys of their own and `adjust_stock` returns, the movements of each row,
  -- the new one included, account for its quantity as they did before.
  pub adjust_stock-KeepsOpenings : Returns (KeepsOpenings s.db) (adjust_stock p l quantity user s)
  unfolding adjust_stock
  adjust_stock-KeepsOpenings = elim (Option-cases (stock_at p l s.db)) [
    | inl e ↦ ground arith
    | inr (st, e) ↦ ground (
      arith,
      change-KeepsOpenings StockMovementType.adjust (abs_ℤ (quantity -ℤ st.quantity)) quantity st e,
    )
  ]
