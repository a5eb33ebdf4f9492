-- ===== src/Catalog/Adding.antt =====
-- What `create_product` of app/inventory/service.py adds, and why it refuses.
use operations_management.Base.{
  ℕ, ◌≡◌, ◌==◌, refl, true, false, none, some, is_some, arith, inl, inr, Option-cases, Bool-cases,
}
use operations_management.Text.{Text, text_eq, text_eq_refl, is_blank, strip, upper}
use operations_management.Table.{find}
use operations_management.Table.Laws.{find-append, first-append}
use operations_management.Errors.{Failure, InventoryError, Result, ok, err}
use operations_management.Session.{Session}
use operations_management.Shop.{Shop, Notices, Product, product_key, category_key}
use operations_management.Catalog.Products.{
  product_refused, product_by_sku, insert_product, create_product,
}

module _ (name sku : Text) (category_id : ℕ) (s : Session Shop Notices) where
  -- What is known of a product that has been added.
  pub record Added (x : Product) (s' : Session Shop Notices) : Type 0 where
    pub same_name : x.name ≡ strip name
    pub same_sku : x.sku ≡ upper (strip sku)
    pub active : x.is_active ≡ true
    pub named : is_blank name ≡ false
    pub coded : is_blank sku ≡ false
    pub fresh : product_by_sku (upper (strip sku)) s.db ≡ none
    pub category : is_some (find category_id s.db.categories) ≡ true
    pub stored : find x.id s'.db.products ≡ some x
    pub found : product_by_sku (upper (strip sku)) s'.db ≡ some x
    pub others : (i : ℕ) → (x.id == i) ≡ false → find i s'.db.products ≡ find i s.db.products
    pub durable : s'.committed ≡ s'.db

  -- Why a product has not been added.
  pub data Refused : Failure → Type 0 where
    no_name :
        is_blank name ≡ true → Refused (Failure.inventory InventoryError.product_name_is_required)
    no_sku : is_blank sku ≡ true → Refused (Failure.inventory InventoryError.sku_is_required)
    taken :
        (y : Product)
        → product_by_sku (upper (strip sku)) s.db ≡ some y
        → Refused (Failure.inventory InventoryError.product_already_exists)
    no_category :
        find category_id s.db.categories ≡ none
        → Refused (Failure.inventory InventoryError.category_not_found)
    key_taken :
        is_some (find (s.uuids s.drawn) s.db.products) ≡ true → Refused Failure.integrity_error

  abbrev pub Adds : Result Product × Session Shop Notices → Type 0
  Adds (ok x, s') = Added x s'
  Adds (err e, s') = Refused e × (s'.db ≡ s.db) × (s'.committed ≡ s.committed)

  insert_product-Adds :
      is_blank name ≡ false
      → is_blank sku ≡ false
      → product_by_sku (upper (strip sku)) s.db ≡ none
      → is_some (find category_id s.db.categories) ≡ true
      → Adds (insert_product (strip name) (upper (strip sku)) category_id s)
  unfolding insert_product
  insert_product-Adds named coded fresh there =
      let x : Product = record {
        id = s.uuids s.drawn;
        name = strip name;
        sku = upper (strip sku);
        is_active = true;
      } in
      elim (Bool-cases (product_refused x s.db)) [
        | inl refused ↦ rw refused (Refused.key_taken (ground arith), refl, refl)
        | inr accepted ↦ rw accepted (record {
          same_name = refl;
          same_sku = refl;
          active = refl;
          named = named;
          coded = coded;
          fresh = fresh;
          category = there;
          stored = ground (arith, find-append x.id x s.db.products);
          found = ground (
            arith,
            first-append (λ (y : Product). text_eq y.sku x.sku) x s.db.products,
            text_eq_refl x.sku,
          );
          others = λ i other. ground (arith, find-append i x s.db.products);
          durable = refl;
        })
      ]

  -- `create_product` adds an active product under the stripped name and the stripped SKU in upper
  -- case, durably, when neither is blank, no product has that SKU and the category is stored; both
  -- its key and that SKU then lead to it, and the other products stay. Or it raises, with nothing
  -- changed, the error of a check that failed, and `integrity_error` only for a key that is taken.
  pub create_product-Adds : Adds (create_product name sku category_id s)
  unfolding create_product
  create_product-Adds = elim (Bool-cases (is_blank name)) [
    | inl e ↦ rw e (Refused.no_name e, refl, refl)
    | inr named ↦ rw named (elim (Bool-cases (is_blank sku)) [
      | inl e ↦ rw e (Refused.no_sku e, refl, refl)
      | inr coded ↦ rw coded (elim (Option-cases (product_by_sku (upper (strip sku)) s.db)) [
        | inr (y, e) ↦ rw e (Refused.taken y e, refl, refl)
        | inl fresh ↦ rw fresh (elim (Option-cases (find category_id s.db.categories)) [
          | inl e ↦ rw e (Refused.no_category e, refl, refl)
          | inr (c, e) ↦ rw e (insert_product-Adds named coded fresh (rw e refl))
        ])
      ])
    ])
  ]
