-- ===== src/Catalog/Places.antt =====
-- The locations of the stock rows under `delete_location` and `create_location` of
-- app/inventory/service.py.
use operations_management.Base.{
  ℕ, ◌≡◌, true, false, List, [], ◌∷◌, arith, ◌==◌, any, is_some, All, Option-cases, Bool-cases, inl,
  inr,
}
use operations_management.Table.{find, delete, IsKeyed}
use operations_management.Table.Laws.{find-delete}
use operations_management.Session.{Session}
use operations_management.Session.Outcome.{Safe}
use operations_management.Shop.{Shop, Notices, InventoryStock, Location, location_key}
use operations_management.Catalog.Locations.{get_location, location_has_stock, delete_location}

abbrev pub HasPlace : List Location → InventoryStock → Type 0
HasPlace locations st = is_some (find st.location_id locations) ≡ true

-- Every stock row stands at a location that is there.
pub record Placed (d : Shop) : Type 0 where
  pub keyed : IsKeyed d.locations
  pub places : All (HasPlace d.locations) d.stocks

delete-IsKeyed : (i : ℕ) (xs : List Location) → IsKeyed xs → IsKeyed (delete i xs)
delete-IsKeyed i [] h = tt
delete-IsKeyed i (x ∷ xs) h = ground (arith, delete-IsKeyed i xs h.1, find-delete x.id i xs h.1)

kept-HasPlace :
    (i : ℕ) (locations : List Location) (stocks : List InventoryStock)
    → IsKeyed locations
    → any (λ (st : InventoryStock). st.location_id == i) stocks ≡ false
    → All (HasPlace locations) stocks
    → All (HasPlace (delete i locations)) stocks
kept-HasPlace i locations [] k n h = tt
kept-HasPlace i locations (st ∷ sts) k n h =
    ground (arith, find-delete st.location_id i locations k, kept-HasPlace i locations sts k)

-- When every stock row stands at a location that is there, in the session and durably, it still
-- does after `delete_location`, whether that deletes the location or raises.
pub delete_location-Safe :
    (i : ℕ) (s : Session Shop Notices) → Safe Placed s → Safe Placed (delete_location i s).1
unfolding delete_location get_location
delete_location-Safe i s h = elim (Option-cases (find i s.db.locations)) [
  | inl e ↦ rw e h
  | inr (x, e) ↦ rw e (elim (Bool-cases (location_has_stock i s.db)) [
    | inl has ↦ rw has h
    | inr free ↦ rw free (
        let keyed = delete-IsKeyed i s.db.locations h.0.keyed in
        let places = kept-HasPlace i s.db.locations s.db.stocks h.0.keyed free h.0.places in
        (record { keyed = keyed; places = places }, record { keyed = keyed; places = places }))
  ])
]
