-- ===== src/Stock/Consistency.antt =====
-- The stock calls of app/inventory/service.py and the consistency of the tables.
use operations_management.Base.{ℕ, ◌≡◌, refl, inl, inr, some, arith, Option-cases}
use operations_management.Int.{ℤ, ◌+ℤ◌, ◌-ℤ◌, abs_ℤ}
use operations_management.Table.{find}
use operations_management.Table.Laws.{find-first, find-append}
use operations_management.Errors.{Result, ok, err}
use operations_management.Session.{Session, continue}
use operations_management.Session.Outcome.{Safe}
use operations_management.Shop.{Shop, Notices, InventoryStock, StockMovementType, stock_key}
use operations_management.Shop.Invariant.{
  IsConsistent, put_stock-IsConsistent, append_stock-IsConsistent,
}
use operations_management.Stock.{
  stock_at, record_change, create_movement, flush_low_stock_alerts, add_stock, remove_stock,
  adjust_stock, initialize_stock, insert_stock, new_stock, announce,
}
use operations_management.Stock.Sync.{sync_low_stock-run, marked}

record_change-Safe :
    (kind : StockMovementType) (quantity previous : ℤ) (user : ℕ) (st old : InventoryStock)
    (s : Session Shop Notices)
    → find st.id s.db.stocks ≡ some old
    → st.reserved_quantity ≡ old.reserved_quantity
    → IsConsistent s.db
    → Safe IsConsistent (record_change kind quantity previous user st s).1
unfolding record_change create_movement flush_low_stock_alerts
record_change-Safe kind quantity previous user st old s e same h =
    rw (sync_low_stock-run st s)
      (ground (arith, put_stock-IsConsistent s.db (marked (s.clock s.reads) st) old e same h))

stock_at-find :
    (p l : ℕ) (d : Shop) (st : InventoryStock)
    → IsConsistent d
    → stock_at p l d ≡ some st
    → find st.id d.stocks ≡ some st
stock_at-find p l d st h e = find-first _ d.stocks st h.stocks_keyed e

-- A call that reads the row of a pair, and then changes its quantity alone.
module _ (p l : ℕ) (quantity : ℤ) (user : ℕ) (s : Session Shop Notices)
    (h : Safe IsConsistent s) where
  change-Safe :
      (kind : StockMovementType) (moved new : ℤ) (st : InventoryStock)
      → stock_at p l s.db ≡ some st
      → Safe IsConsistent
          (record_change kind moved st.quantity user (record st { quantity = new }) s).1
  change-Safe kind moved new st e =
      record_change-Safe kind moved st.quantity user (record st { quantity = new }) st s
        (stock_at-find p l s.db st h.0 e) refl h.0

  pub add_stock-Safe : Safe IsConsistent (add_stock p l quantity user s).1
  unfolding add_stock
  add_stock-Safe = elim (Option-cases (stock_at p l s.db)) [
    | inl e ↦ ground arith
    | inr (st, e) ↦
        ground (arith, change-Safe StockMovementType.inward quantity (st.quantity +ℤ quantity) st e)
  ]

  pub remove_stock-Safe : Safe IsConsistent (remove_stock p l quantity user s).1
  unfolding remove_stock
  remove_stock-Safe = elim (Option-cases (stock_at p l s.db)) [
    | inl e ↦ ground arith
    | inr (st, e) ↦
        ground
          (arith, change-Safe StockMovementType.outward quantity (st.quantity -ℤ quantity) st e)
  ]

  pub adjust_stock-Safe : Safe IsConsistent (adjust_stock p l quantity user s).1
  unfolding adjust_stock
  adjust_stock-Safe = elim (Option-cases (stock_at p l s.db)) [
    | inl e ↦ ground arith
    | inr (st, e) ↦ ground (
      arith,
      change-Safe StockMovementType.adjust (abs_ℤ (quantity -ℤ st.quantity)) quantity st e,
    )
  ]

insert_stock-Safe :
    (l p : ℕ) (quantity reorder_point : ℤ) (s : Session Shop Notices)
    → Safe IsConsistent s
    → Safe IsConsistent (insert_stock l p quantity reorder_point s).1
unfolding insert_stock
insert_stock-Safe l p quantity reorder_point s h =
    let st = new_stock (s.uuids s.drawn) l p quantity reorder_point in
    ground (arith, append_stock-IsConsistent s.db st)

-- The row that is returned is in the table.
abbrev Inserted : Result InventoryStock × Session Shop Notices → Type 0
Inserted (ok st, s) = find st.id s.db.stocks ≡ some st
Inserted (err e, s) = Unit

insert_stock-Inserted :
    (l p : ℕ) (quantity reorder_point : ℤ) (s : Session Shop Notices)
    → Inserted (insert_stock l p quantity reorder_point s)
unfolding insert_stock
insert_stock-Inserted l p quantity reorder_point s =
    let st = new_stock (s.uuids s.drawn) l p quantity reorder_point in
    ground (arith, find-append st.id st s.db.stocks)

announce-Safe :
    (r : Result InventoryStock) (s : Session Shop Notices)
    → Inserted (r, s)
    → Safe IsConsistent s
    → Safe IsConsistent (continue r announce s).1
unfolding announce flush_low_stock_alerts
announce-Safe (err e) s i h = h
announce-Safe (ok st) s i h =
    rw (sync_low_stock-run st s)
      (ground (arith, put_stock-IsConsistent s.db (marked (s.clock s.reads) st) st i refl h.0))

pub initialize_stock-Safe :
    (l p : ℕ) (quantity reorder_point : ℤ) (s : Session Shop Notices)
    → Safe IsConsistent s
    → Safe IsConsistent (initialize_stock l p quantity reorder_point s).1
unfolding initialize_stock
initialize_stock-Safe l p quantity reorder_point s h =
    let (r, s') = insert_stock l p (abs_ℤ quantity) (abs_ℤ reorder_point) s in
    ground (
      arith,
      announce-Safe r s' (insert_stock-Inserted l p (abs_ℤ quantity) (abs_ℤ reorder_point) s)
          (insert_stock-Safe l p (abs_ℤ quantity) (abs_ℤ reorder_point) s h),
    )
