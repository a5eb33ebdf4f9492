-- ===== src/Reports/History.antt =====
-- What the lists of movements and orders hold: app/inventory/service.py and app/orders/service.py.
use operations_management.Base.{
  ℕ, zero, suc, ◌≤◌, ◌≡◌, refl, ◌∙◌, Bool, true, false, ◌&&◌, Option, none, some, List, [], ◌∷◌,
  arith, inl, inr, ◌==◌, any, select, length, All, Option-cases, Bool-cases,
}
use operations_management.Base.Sorting.{
  sort, any-sort, IsSorted, NotBefore, All-sort, sort-IsSorted,
}
use operations_management.Text.{take}
use operations_management.Table.{find}
use operations_management.Errors.{Failure, InventoryError, Result, ok, err}
use operations_management.Session.{Session}
use operations_management.Shop.{Shop, Notices, InventoryStock, StockMovement, Order, stock_key}
use operations_management.Reports.{is_newer, list_stock_movements, is_later, list_user_orders}

module _ {A : Type 0} where
  All-take : (P : A → Type 0) (n : ℕ) (xs : List A) → All P xs → All P (take n xs)
  All-take P zero xs h = tt
  All-take P (suc n) [] h = tt
  All-take P (suc n) (x ∷ xs) h = (h.0, All-take P n xs h.1)

  All-select : (p : A → Bool) (xs : List A) → All (λ x. p x ≡ true) (select p xs)
  All-select p [] = tt
  All-select p (x ∷ xs) = elim (Bool-cases (p x)) [
    | inl passes ↦ rw passes (passes, All-select p xs)
    | inr fails ↦ rw fails (All-select p xs)
  ]

  take-IsSorted :
      (before : A → A → Bool) (n : ℕ) (xs : List A)
      → IsSorted before xs
      → IsSorted before (take n xs)
  take-IsSorted before zero xs h = tt
  take-IsSorted before (suc n) [] h = tt
  take-IsSorted before (suc n) (x ∷ xs) h =
      (All-take (NotBefore before x) n xs h.0, take-IsSorted before n xs h.1)

  length-take : (n : ℕ) (xs : List A) → length (take n xs) ≤ n
  length-take zero xs = omega arith
  length-take (suc n) [] = omega arith
  length-take (suc n) (x ∷ xs) = omega (arith, length-take n xs)

  pub any-select : (p q : A → Bool) (xs : List A) → any p (select q xs) ≡ any (λ x. q x && p x) xs
  any-select p q [] = refl
  any-select p q (x ∷ xs) = ground (arith, any-select p q xs)

newest_first : (xs : List StockMovement) → IsSorted is_newer (sort is_newer xs)
newest_first = sort-IsSorted is_newer (λ x y h. ground arith) (λ x y z h k. ground arith)

latest_first : (xs : List Order) → IsSorted is_later (sort is_later xs)
latest_first = sort-IsSorted is_later (λ x y h. ground arith) (λ x y z h k. ground arith)

module _ (i l limit : ℕ) (s : Session Shop Notices) where
  -- The list is of the one stock row, newest first and within the limit.
  pub record Own (ms : List StockMovement) : Type 0 where
    pub stock : InventoryStock
    pub found : find i s.db.stocks ≡ some stock
    pub here : (stock.location_id == l) ≡ true
    pub own : All (λ (m : StockMovement). (m.stock_id == i) ≡ true) ms
    pub newest : IsSorted is_newer ms
    pub within : length ms ≤ limit

  abbrev IsElsewhere : Option InventoryStock → Type 0
  IsElsewhere none = Unit
  IsElsewhere (some st) = (st.location_id == l) ≡ false

  abbrev pub ListsOwn : Result (List StockMovement) × Session Shop Notices → Type 0
  ListsOwn (ok ms, s') = Own ms × (s' ≡ s)
  ListsOwn (err e, s') =
      (e ≡ Failure.inventory InventoryError.stock_not_found)
      × IsElsewhere (find i s.db.stocks)
      × (s' ≡ s)

  -- `list_stock_movements` lists movements of the asked stock row alone, newest first and at most as
  -- many as the limit, and only for a row of the caller's location; for a row that is absent or at
  -- another location it raises `StockNotFound`. It changes nothing.
  pub list_stock_movements-ListsOwn : ListsOwn (list_stock_movements i l limit s)
  unfolding list_stock_movements
  list_stock_movements-ListsOwn = elim (Option-cases (find i s.db.stocks)) [
    | inl absent ↦ rw (absent, ListsOwn) (refl, rw absent tt, refl)
    | inr (st, e) ↦ rw e (elim (Bool-cases (st.location_id == l)) [
      | inr elsewhere ↦ rw (elsewhere, ListsOwn) (refl, rw e elsewhere, refl)
      | inl here ↦
          rw (here, ListsOwn)
            (
              let mine = select (λ (m : StockMovement). m.stock_id == i) s.db.movements in
                  record {
                    stock = st;
                    found = e;
                    here = here;
                    own =
                        All-take _ limit (sort is_newer mine)
                          (All-sort is_newer _ mine (All-select _ s.db.movements));
                    newest = take-IsSorted is_newer limit (sort is_newer mine) (newest_first mine);
                    within = length-take limit (sort is_newer mine);
                  },
              refl,
            )
    ])
  ]

-- What a list of orders says: it has exactly the user's orders, the latest first.
pub record ListsOrders (user : ℕ) (d : Shop) (os : List Order) : Type 0 where
  pub latest : IsSorted is_later os
  pub exact : (p : Order → Bool) → any p os ≡ any (λ (o : Order). o.user_id == user && p o) d.orders

abbrev pub Listed : ℕ → Session Shop Notices → Result (List Order) × Session Shop Notices → Type 0
Listed user s (ok os, s') = ListsOrders user s.db os × (s' ≡ s)
Listed user s (err e, s') = ⊥

-- `list_user_orders` never raises and lists exactly the orders of the user, the latest first: some
-- order of the list passes a test when some order of the user in the table does.
pub list_user_orders-Listed :
    (user : ℕ) (s : Session Shop Notices) → Listed user s (list_user_orders user s)
unfolding list_user_orders
list_user_orders-Listed user s =
    let mine = select (λ (o : Order). o.user_id == user) s.db.orders in
    (
      record {
        latest = latest_first mine;
        exact = λ p. any-sort is_later p mine ∙ any-select p _ s.db.orders;
      },
      refl,
    )
