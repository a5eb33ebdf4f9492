-- ===== src/Stock/Sites.antt =====
-- The rows by product and location, under each kind of write.
use operations_management.Base.{
  ℕ, ◌≡◌, ◌&&◌, some, ◌==◌, if◌then◌else◌, arith, Option-cases, inl, inr,
}
use operations_management.Table.{put, IsKeyed}
use operations_management.Table.Laws.{first_holds, find-first, first-put}
use operations_management.Shop.{Shop, InventoryStock, stock_key}
use operations_management.Stock.{stock_at}

-- A change of the row of one site shows at that site alone.
pub stock_at-put :
    (p l p' l' : ℕ) (d : Shop) (st old : InventoryStock)
    → IsKeyed d.stocks
    → stock_at p l d ≡ some old
    → st.id ≡ old.id
    → st.product_id ≡ old.product_id
    → st.location_id ≡ old.location_id
    → stock_at p' l' (record d { stocks = put st d.stocks })
      ≡ (if p' == p && l' == l then some st else stock_at p' l' d)
stock_at-put p l p' l' d st old h e i sp sl =
    let at = λ (x : InventoryStock). x.product_id == p && x.location_id == l in
    let at' = λ (x : InventoryStock). x.product_id == p' && x.location_id == l' in
    elim (Option-cases (stock_at p' l' d)) [
      | inl n ↦ ground (
        arith,
        first-put at' st old d.stocks h,
        find-first at d.stocks old h e,
        first_holds at d.stocks old e,
      )
      | inr (x, n) ↦ ground (
        arith,
        first-put at' st old d.stocks h,
        find-first at d.stocks old h e,
        find-first at' d.stocks x h n,
        first_holds at d.stocks old e,
        first_holds at' d.stocks x n,
      )
    ]
