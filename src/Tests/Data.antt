-- ===== src/Tests/Data.antt =====
-- A small shop: a product at a location, with ten pieces of which four are reserved for the one
-- item of a confirmed order, and a second order that is still a draft.
use operations_management.Base.{◌+◌, refl, true, none, [], ◌∷◌, arith}
use operations_management.Int.{pos, ◌+ℤ◌, ◌-ℤ◌}
use operations_management.Session.{Session}
use operations_management.Shop.{
  Shop, Notices, Product, Category, Location, InventoryStock, StockReservation, ReservationStatus,
  Order, OrderItem, OrderStatus,
}
use operations_management.Shop.Invariant.{IsConsistent}
use operations_management.Requests.Soundness.{IsSound}

abbrev pub widget : Product
widget = record { id = 1; name = b'w' ∷ []; sku = b'W' ∷ []; is_active = true }

abbrev pub tools : Category
tools = record { id = 11; name = b't' ∷ []; description = b'd' ∷ []; is_active = true }

abbrev pub depot : Location
depot = record { id = 2; name = b'd' ∷ []; city = b'c' ∷ []; address = b'a' ∷ [] }

abbrev pub annex : Location
annex = record { id = 12; name = b'x' ∷ []; city = b'c' ∷ []; address = b'b' ∷ [] }

abbrev pub row : InventoryStock
row = record {
  id = 3;
  location_id = 2;
  product_id = 1;
  quantity = pos 10;
  reserved_quantity = pos 4;
  reorder_point = pos 5;
  low_stock_alerted_at = none;
}

abbrev pub held_four : StockReservation
held_four = record {
  id = 4;
  order_item_id = 5;
  stock_id = 3;
  quantity = pos 4;
  status = ReservationStatus.reserved;
}

abbrev pub confirmed_order : Order
confirmed_order = record {
  id = 6;
  code = b'A' ∷ [];
  user_id = 9;
  status = OrderStatus.confirmed;
  created_at = 0;
}

abbrev pub draft_order : Order
draft_order = record {
  id = 7;
  code = b'B' ∷ [];
  user_id = 9;
  status = OrderStatus.created;
  created_at = 0;
}

abbrev pub four_widgets : OrderItem
four_widgets = record { id = 5; order_id = 6; product_id = 1; quantity = pos 4 }

abbrev pub three_widgets : OrderItem
three_widgets = record { id = 8; order_id = 7; product_id = 1; quantity = pos 3 }

abbrev pub shop : Shop
shop = record {
  products = widget ∷ [];
  categories = tools ∷ [];
  product_categories = [];
  locations = depot ∷ annex ∷ [];
  stocks = row ∷ [];
  movements = [];
  reservations = held_four ∷ [];
  orders = confirmed_order ∷ draft_order ∷ [];
  order_items = four_widgets ∷ three_widgets ∷ [];
}

-- A session at the beginning of a request; uuids are drawn from 100 on.
abbrev pub session : Session Shop Notices
session = record {
  db = shop;
  committed = shop;
  memory = record { pending = []; sent = [] };
  clock = λ n. n + 50;
  reads = 0;
  uuids = λ n. n + 100;
  drawn = 0;
}

pub shop-IsConsistent : IsConsistent shop
unfolding ◌+ℤ◌
shop-IsConsistent = record {
  stocks_keyed = (refl, tt);
  reservations_keyed = (refl, tt);
  positive = (omega arith, tt);
  referenced = (refl, tt);
  reserved_sum = λ i st e. ground arith;
}

pub shop-IsSound : IsSound shop
unfolding ◌-ℤ◌
shop-IsSound = (shop-IsConsistent, (refl, tt))
