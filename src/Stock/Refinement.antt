-- ===== src/Stock/Refinement.antt =====
-- A specification of `add_stock`, `remove_stock` and `adjust_stock` of app/inventory/service.py, on the
-- quantity on hand of each site alone.
use operations_management.Base.{
  ℕ, ◌≡◌, refl, ◌&&◌, Option, none, some, [], ◌∷◌, ◌++◌, ◌==◌, if◌then◌else◌, arith, Option-cases,
  inl, inr, false,
}
use operations_management.Int.{ℤ, pos, ◌+ℤ◌, ◌-ℤ◌, abs_ℤ, ltb_ℤ, leb_ℤ}
use operations_management.Table.{find}
use operations_management.Errors.{Failure, InventoryError, Result, ok, err}
use operations_management.Session.{Session}
use operations_management.Shop.{
  Shop, Notices, InventoryStock, StockMovement, StockMovementType, stock_key, movement_key,
}
use operations_management.Shop.Invariant.{IsConsistent}
use operations_management.Stock.{
  stock_at, add_movement, create_movement, flush_low_stock_alerts, record_change, add_stock,
  remove_stock, adjust_stock,
}
use operations_management.Stock.Sync.{sync_low_stock-run, marked}
use operations_management.Stock.Sites.{stock_at-put}

-- The specification: the new quantity on hand, or the refusal.
abbrev pub specified : StockMovementType → ℤ → Option ℤ → Result ℤ
specified StockMovementType.inward n old =
    if leb_ℤ n (pos 0)
    then err (Failure.inventory InventoryError.invalid_quantity_stock)
    else (elim old [
      | none ↦ err (Failure.inventory InventoryError.invalid_product_or_location)
      | some q ↦ ok (q +ℤ n)
    ])
specified StockMovementType.outward n old =
    if leb_ℤ n (pos 0)
    then err (Failure.inventory InventoryError.invalid_quantity_stock)
    else (elim old [
      | none ↦ err (Failure.inventory InventoryError.invalid_product_or_location)
      | some q ↦
          if ltb_ℤ q n then err (Failure.inventory InventoryError.stock_negative) else ok (q -ℤ n)
    ])
specified StockMovementType.adjust n old = elim old [
  | none ↦ err (Failure.inventory InventoryError.invalid_product_or_location)
  | some q ↦ if ltb_ℤ n (pos 0) then err (Failure.inventory InventoryError.stock_negative) else ok n
]

abbrev pub quantity_of : Option InventoryStock → Option ℤ
quantity_of none = none
quantity_of (some st) = some st.quantity

-- The quantity on hand of a product at a location.
abbrev pub on_hand : ℕ → ℕ → Shop → Option ℤ
on_hand p l d = quantity_of (stock_at p l d)

-- A change of one site, made durable together with a movement that records it.
pub record Recorded (p l : ℕ) (kind : StockMovementType) (new : ℤ) (movement : StockMovement)
    (s s' : Session Shop Notices) : Type 0 where
  pub levels :
      (p' l' : ℕ)
      → on_hand p' l' s'.db ≡ (if p' == p && l' == l then some new else on_hand p' l' s.db)
  pub durable : s'.committed ≡ s'.db
  pub appended : s'.db.movements ≡ s.db.movements ++ movement ∷ []
  pub of_kind : movement.movement_type ≡ kind
  pub before : some movement.previous_quantity ≡ on_hand p l s.db
  pub after : movement.new_quantity ≡ new
  pub amount : movement.quantity ≡ abs_ℤ (movement.new_quantity -ℤ movement.previous_quantity)
  pub no_reservation : s'.db.reservations ≡ s.db.reservations

abbrev pub Meets :
    ℕ
    → ℕ
    → StockMovementType
    → Result ℤ
    → Session Shop Notices
    → Result StockMovement × Session Shop Notices
    → Type 0
Meets p l kind (ok new) s (ok movement, s') = Recorded p l kind new movement s s'
Meets p l kind (err e) s (err e', s') = (e' ≡ e) × (s' ≡ s)
Meets p l kind _ s _ = ⊥

added_amount : (q n : ℤ) → leb_ℤ n (pos 0) ≡ false → n ≡ abs_ℤ (q +ℤ n -ℤ q)
unfolding ◌+ℤ◌ ◌-ℤ◌
added_amount q n h = ground arith

removed_amount : (q n : ℤ) → leb_ℤ n (pos 0) ≡ false → n ≡ abs_ℤ (q -ℤ n -ℤ q)
unfolding ◌-ℤ◌
removed_amount q n h = ground arith

-- The database does not hold the key that the next uuid gives.
abbrev pub IsUnused : Session Shop Notices → Type 0
IsUnused s = find (s.uuids s.drawn) s.db.movements ≡ none

module _ (p l : ℕ) (user : ℕ) (s : Session Shop Notices) (h : IsConsistent s.db)
    (u : IsUnused s) where
  record_change-Meets :
      (kind : StockMovementType) (quantity new : ℤ) (st : InventoryStock)
      → stock_at p l s.db ≡ some st
      → quantity ≡ abs_ℤ (new -ℤ st.quantity)
      → Meets p l kind
          (ok new)
          s
          (record_change kind quantity st.quantity user (record st { quantity = new }) s)
  unfolding record_change create_movement add_movement flush_low_stock_alerts
  record_change-Meets kind quantity new st e size =
      let st' = record st { quantity = new } in
      rw (sync_low_stock-run st' s) (
        rw u (record {
          levels = λ p' l'.
              rw
                (stock_at-put p l p' l' s.db (marked (s.clock s.reads) st') st h.stocks_keyed e refl
                  refl refl)
                (ground arith);
          durable = refl;
          appended = refl;
          of_kind = refl;
          before = rw e refl;
          after = refl;
          amount = size;
          no_reservation = refl;
        }))

  -- On consistent tables, and when the next uuid keys no movement, `add_stock` meets the specification of
  -- an inward movement: it raises what `specified` says and changes nothing, or it sets the quantity on
  -- hand of the one site to the sum, appends the movement that records it, and has both committed.
  pub add_stock-Meets :
      (quantity : ℤ)
      → Meets p l StockMovementType.inward
          (specified StockMovementType.inward quantity (on_hand p l s.db))
          s
          (add_stock p l quantity user s)
  unfolding add_stock
  add_stock-Meets quantity = elim (Option-cases (stock_at p l s.db)) [
    | inl e ↦ ground arith
    | inr (st, e) ↦ ground (
      arith,
      record_change-Meets StockMovementType.inward quantity (st.quantity +ℤ quantity) st e,
      added_amount st.quantity quantity,
    )
  ]

  -- On consistent tables, and when the next uuid keys no movement, `remove_stock` meets the specification
  -- of an outward movement: it raises what `specified` says and changes nothing, or it takes the amount
  -- off the one site, which holds at least that much, appends the movement, and has both committed.
  pub remove_stock-Meets :
      (quantity : ℤ)
      → Meets p l StockMovementType.outward
          (specified StockMovementType.outward quantity (on_hand p l s.db))
          s
          (remove_stock p l quantity user s)
  unfolding remove_stock
  remove_stock-Meets quantity = elim (Option-cases (stock_at p l s.db)) [
    | inl e ↦ ground arith
    | inr (st, e) ↦ ground (
      arith,
      record_change-Meets StockMovementType.outward quantity (st.quantity -ℤ quantity) st e,
      removed_amount st.quantity quantity,
    )
  ]

  -- On consistent tables, and when the next uuid keys no movement, `adjust_stock` meets the specification
  -- of an adjustment: it raises what `specified` says and changes nothing, or it sets the quantity on hand
  -- of the one site, appends a movement over the distance, and has both committed.
  pub adjust_stock-Meets :
      (quantity : ℤ)
      → Meets p l StockMovementType.adjust
          (specified StockMovementType.adjust quantity (on_hand p l s.db))
          s
          (adjust_stock p l quantity user s)
  unfolding adjust_stock
  adjust_stock-Meets quantity = elim (Option-cases (stock_at p l s.db)) [
    | inl e ↦ ground arith
    | inr (st, e) ↦ ground (
      arith,
      record_change-Meets StockMovementType.adjust (abs_ℤ (quantity -ℤ st.quantity)) quantity st e
          refl,
    )
  ]
