-- ===== src/Tests/Catalog.antt =====
-- The calls of the catalog.
use operations_management.Base.{refl, none, some, [], ◌∷◌}
use operations_management.Session.Outcome.{Safe}
use operations_management.Catalog.Products.{create_product, update_product}
use operations_management.Catalog.Unique.{SkusUnique, update_product-Safe}
use operations_management.Catalog.Adding.{Adds, create_product-Adds}
use operations_management.Catalog.Places.{Placed}
use operations_management.Tests.Data.{shop, session}

shop-SkusUnique : SkusUnique shop
shop-SkusUnique = record { keyed = (refl, tt); unique = (refl, tt) }

create_product-Adds_example :
    Adds
      (b'n' ∷ [])
      (b'x' ∷ b' ' ∷ [])
      11
      session
      (create_product (b'n' ∷ []) (b'x' ∷ b' ' ∷ []) 11 session)
create_product-Adds_example = create_product-Adds (b'n' ∷ []) (b'x' ∷ b' ' ∷ []) 11 session

update_product-Safe_example : Safe SkusUnique (update_product 1 none (some (b'v' ∷ [])) session).1
update_product-Safe_example =
    update_product-Safe 1 none (some (b'v' ∷ [])) session (shop-SkusUnique, shop-SkusUnique)

shop-Placed : Placed shop
shop-Placed = record { keyed = (refl, (refl, tt)); places = (refl, tt) }
