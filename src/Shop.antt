-- ===== src/Shop.antt =====
-- The tables that the inventory and the orders share: app/inventory/models and app/orders/models.
-- A uuid is only compared, so it is a number; a point of time is a number too. Columns that no
-- code reads (`updated_at`, and `created_at` where nothing sorts or filters by it) are left out.
pub mod Invariant
pub mod Ledger
pub mod Transaction
use operations_management.Base.{ℕ, ◌≡◌, Bool, true, false, Option, List}
use operations_management.Int.{ℤ}
use operations_management.Table.{Keyed}
use operations_management.Text.{Text}
use operations_management.Errors.{Result}
use operations_management.Session.{Session, Service}

pub data StockMovementType : Type 0 where
  inward outward adjust : StockMovementType

pub data ReservationStatus : Type 0 where
  reserved fulfilled released failed : ReservationStatus

pub data OrderStatus : Type 0 where
  created confirmed cancelled completed : OrderStatus

-- `status == ReservationStatus.RESERVED`
abbrev pub is_reserved : ReservationStatus → Bool
is_reserved ReservationStatus.reserved = true
is_reserved _ = false

abbrev pub is_outward : StockMovementType → Bool
is_outward StockMovementType.outward = true
is_outward _ = false

pub record Product : Type 0 where
  pub id : ℕ
  pub name : Text
  pub sku : Text
  pub is_active : Bool

pub record Category : Type 0 where
  pub id : ℕ
  pub name : Text
  pub description : Text
  pub is_active : Bool

-- A row of `inventory_product_categories`.
pub record ProductCategory : Type 0 where
  pub product_id : ℕ
  pub category_id : ℕ

pub record Location : Type 0 where
  pub id : ℕ
  pub name : Text
  pub city : Text
  pub address : Text

pub record InventoryStock : Type 0 where
  pub id : ℕ
  pub location_id : ℕ
  pub product_id : ℕ
  pub quantity : ℤ
  pub reserved_quantity : ℤ
  pub reorder_point : ℤ
  pub low_stock_alerted_at : Option ℕ

pub record StockMovement : Type 0 where
  pub id : ℕ
  pub movement_type : StockMovementType
  pub quantity : ℤ
  pub stock_id : ℕ
  pub previous_quantity : ℤ
  pub new_quantity : ℤ
  pub created_by : ℕ
  pub created_at : ℕ

pub record StockReservation : Type 0 where
  pub id : ℕ
  pub order_item_id : ℕ
  pub stock_id : ℕ
  pub quantity : ℤ
  pub status : ReservationStatus

pub record Order : Type 0 where
  pub id : ℕ
  pub code : Text
  pub user_id : ℕ
  pub status : OrderStatus
  pub created_at : ℕ

pub record OrderItem : Type 0 where
  pub id : ℕ
  pub order_id : ℕ
  pub product_id : ℕ
  pub quantity : ℤ

instance abbrev pub product_key : Keyed Product
product_key = record { key = λ r. r.id }

instance abbrev pub category_key : Keyed Category
category_key = record { key = λ r. r.id }

instance abbrev pub location_key : Keyed Location
location_key = record { key = λ r. r.id }

instance abbrev pub stock_key : Keyed InventoryStock
stock_key = record { key = λ r. r.id }

instance abbrev pub movement_key : Keyed StockMovement
movement_key = record { key = λ r. r.id }

instance abbrev pub reservation_key : Keyed StockReservation
reservation_key = record { key = λ r. r.id }

instance abbrev pub order_key : Keyed Order
order_key = record { key = λ r. r.id }

instance abbrev pub order_item_key : Keyed OrderItem
order_item_key = record { key = λ r. r.id }

pub record Shop : Type 0 where
  pub products : List Product
  pub categories : List Category
  pub product_categories : List ProductCategory
  pub locations : List Location
  pub stocks : List InventoryStock
  pub movements : List StockMovement
  pub reservations : List StockReservation
  pub orders : List Order
  pub order_items : List OrderItem

-- What `InventoryService` holds: the set `_pending_low_stock`, and the alerts that its notifier has
-- been called with.
pub record Notices : Type 0 where
  pub pending : List ℕ
  pub sent : List ℕ

abbrev pub Action : Type 0 → Type 0
Action = Service Shop Notices

-- What has happened since `s` is still open: nothing is committed and no alert is sent.
abbrev pub Staged : {A : Type 0} → Session Shop Notices → Result A × Session Shop Notices → Type 0
Staged s x = (x.1.committed ≡ s.committed) × (x.1.memory.sent ≡ s.memory.sent)
