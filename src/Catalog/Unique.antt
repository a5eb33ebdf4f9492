-- ===== src/Catalog/Unique.antt =====
-- The SKUs of the products under `update_product` of app/inventory/service.py.
use operations_management.Base.{
  ℕ, ◌≡◌, refl, sym, false, Option, none, some, arith, inl, inr, Option-cases,
}
use mathlib.Core.Path.{subst}
use operations_management.Text.{Text, strip, upper}
use operations_management.Table.{find, put, IsKeyed}
use operations_management.Table.Laws.{find_key, put-IsKeyed}
use operations_management.Table.Unique.{
  holder, IsUnique, IsOwn, put-IsUnique, holder-IsFree, IsOwn-holder,
}
use operations_management.Session.{Session}
use operations_management.Session.Outcome.{Safe}
use operations_management.Shop.{Shop, Notices, Product, product_key, location_key, category_key}
use operations_management.Catalog.Products.{
  product_by_sku, store_product, update_product, or_old, is_other,
}

abbrev pub sku_of : Product → Text
sku_of x = x.sku

-- The products have keys of their own and SKUs of their own.
pub record SkusUnique (d : Shop) : Type 0 where
  pub keyed : IsKeyed d.products
  pub unique : IsUnique sku_of d.products

put_product :
    (d : Shop) (x old : Product)
    → SkusUnique d
    → find x.id d.products ≡ some old
    → IsOwn sku_of x (holder sku_of x.sku d.products)
    → SkusUnique (record d { products = put x d.products })
put_product d x old h e own = record {
  keyed = put-IsKeyed x d.products h.keyed;
  unique =
      put-IsUnique sku_of x d.products h.keyed (holder-IsFree sku_of x d.products h.unique own)
        h.unique;
}

-- A new SKU that passed its check.
abbrev IsChecked : ℕ → Option Text → Shop → Type 0
IsChecked i none d = Unit
IsChecked i (some sku) d = is_other i (product_by_sku sku d) ≡ false

checked-IsOwn :
    (x old : Product) (sku : Option Text) (d : Shop)
    → SkusUnique d
    → find x.id d.products ≡ some old
    → x.sku ≡ or_old sku old.sku
    → IsChecked x.id sku d
    → IsOwn sku_of x (holder sku_of x.sku d.products)
checked-IsOwn x old none d h e same c = rw same (
    let own = IsOwn-holder sku_of x.id d.products old e h.unique in
    ground (arith, find_key x.id d.products old e))
checked-IsOwn x old (some sku) d h e same c = rw same (ground arith)

store_product-Safe :
    (i : ℕ) (name sku : Option Text) (s : Session Shop Notices)
    → IsChecked i sku s.db
    → Safe SkusUnique s
    → Safe SkusUnique (store_product i name sku s).1
unfolding store_product
store_product-Safe i name sku s c h = elim (Option-cases (find i s.db.products)) [
  | inl e ↦ rw e h
  | inr (old, e) ↦
      let x : Product = record old { name = or_old name old.name; sku = or_old sku old.sku } in
      let key = find_key i s.db.products old e in
      let there : find x.id s.db.products ≡ some old =
        subst (λ j. find j s.db.products ≡ some old) (sym key) e in
      let new =
        put_product s.db x old h.0 there (checked-IsOwn x old sku s.db h.0 there refl (rw key c)) in
      rw e (
        record { keyed = new.keyed; unique = new.unique },
        record { keyed = new.keyed; unique = new.unique },
      )
]

-- When the products, in the session and durably, have keys and SKUs of their own, they still have them
-- after `update_product`, whether it returns or raises.
pub update_product-Safe :
    (i : ℕ) (name sku : Option Text) (s : Session Shop Notices)
    → Safe SkusUnique s
    → Safe SkusUnique (update_product i name sku s).1
unfolding update_product
update_product-Safe i none none s h = h
update_product-Safe i (some name) none s h =
    ground (arith, store_product-Safe i (some (strip name)) none s tt h)
update_product-Safe i none (some sku) s h =
    ground (arith, store_product-Safe i none (some (upper (strip sku))) s)
update_product-Safe i (some name) (some sku) s h =
    ground (arith, store_product-Safe i (some (strip name)) (some (upper (strip sku))) s)
