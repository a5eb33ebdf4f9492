-- ===== src/Stock/Alerts.antt =====
-- The low-stock alerts of the stock calls of app/inventory/service.py.
use operations_management.Base.{
  ℕ, ◌≡◌, refl, ap, sym, ◌∙◌, Option, none, some, List, [], ◌∷◌, ◌++◌, arith, any, is_some, ◌==◌,
  All, All-append, Option-cases, inl, inr, Bool-cases, true,
}
use operations_management.Int.{ℤ, ◌+ℤ◌, ◌-ℤ◌, abs_ℤ}
use mathlib.Core.List.{append-nil}
use operations_management.Table.{find, put, IsKeyed}
use operations_management.Table.Laws.{find-first, find-put, find-append, put-All, put-append}
use operations_management.Errors.{Result, ok, err}
use operations_management.Session.{Session, continue}
use operations_management.Shop.{
  Shop, Notices, InventoryStock, StockMovementType, stock_key, movement_key, location_key,
}
use operations_management.Stock.{
  is_low, add_pending, stock_at, add_movement, create_movement, flush_low_stock_alerts,
  record_change, add_stock, remove_stock, adjust_stock, new_stock, stock_refused, insert_stock,
  announce, initialize_stock,
}
use operations_management.Stock.Sync.{
  sync_low_stock-run, marked, after_sync, alert_due, IsMarked, marked-IsMarked,
}

abbrev pub IsMarkedRow : Option InventoryStock → Type 0
IsMarkedRow none = ⊥
IsMarkedRow (some st) = is_some st.low_stock_alerted_at ≡ true

-- The row `i` is there and marked.
abbrev pub IsAlerted : List InventoryStock → ℕ → Type 0
IsAlerted stocks i = IsMarkedRow (find i stocks)

-- A row that was marked and is put back low stays marked.
pub put-IsAlerted :
    (t : ℕ) (st old : InventoryStock) (stocks : List InventoryStock)
    → find st.id stocks ≡ some old
    → (is_some old.low_stock_alerted_at ≡ true → is_low st ≡ true)
    → (is : List ℕ) → All (IsAlerted stocks) is
    → All (IsAlerted (put (marked t st) stocks)) is
put-IsAlerted t st old stocks e sinks [] h = tt
put-IsAlerted t st old stocks e sinks (i ∷ is) h = (
  elim (Bool-cases (st.id == i)) [
    | inl same ↦ ground (arith, find-put i (marked t st) stocks, sinks)
    | inr other ↦ ground (arith, find-put i (marked t st) stocks)
  ],
  put-IsAlerted t st old stocks e sinks is h.1,
)

-- What `_sync_low_stock` queues is marked in the table that the row is put back into.
pub queued-IsAlerted :
    (t : ℕ) (st old : InventoryStock) (stocks : List InventoryStock) (s : Session Shop Notices)
    → find st.id stocks ≡ some old
    → All (IsAlerted (put (marked t st) stocks)) s.memory.pending
    → All (IsAlerted (put (marked t st) stocks)) (after_sync st s).memory.pending
queued-IsAlerted t st old stocks s e h = elim (Bool-cases (alert_due st)) [
  | inr quiet ↦ rw quiet h
  | inl due ↦ rw due (elim (Bool-cases (any (λ j. j == st.id) s.memory.pending)) [
    | inl there ↦ rw there h
    | inr new ↦ rw new (
        All-append (IsAlerted (put (marked t st) stocks)) s.memory.pending (st.id ∷ []) h
          (ground (arith, find-put st.id (marked t st) stocks), tt))
  ])
]

sent-add_pending : (i : ℕ) (m : Notices) → (add_pending i m).sent ≡ m.sent
sent-add_pending i m = ground arith

pub sent-after_sync :
    (st : InventoryStock) (s : Session Shop Notices) → (after_sync st s).memory.sent ≡ s.memory.sent
sent-after_sync st s = ground arith

-- How a request ends. A return has sent an alert for marked rows alone, has none left over, and
-- leaves every mark right; a raise has sent nothing, and what is durable has right marks.
abbrev pub Announces :
    {A : Type 0} → Session Shop Notices → Result A × Session Shop Notices → Type 0
Announces s (ok a, s') =
    (s'.memory.pending ≡ [])
    × All IsMarked s'.db.stocks
    × ((new : List ℕ) × (s'.memory.sent ≡ s.memory.sent ++ new)
        × All (IsAlerted s'.committed.stocks) new)
Announces s (err e, s') = (s'.memory.sent ≡ s.memory.sent) × All IsMarked s'.committed.stocks

module _ (s : Session Shop Notices) (quiet : s.memory.pending ≡ []) (m : All IsMarked s.db.stocks)
    (durable : All IsMarked s.committed.stocks) where
  record_change-Announces :
      (kind : StockMovementType) (quantity previous : ℤ) (user : ℕ) (st old : InventoryStock)
      → find st.id s.db.stocks ≡ some old
      → Announces s (record_change kind quantity previous user st s)
  unfolding record_change create_movement add_movement flush_low_stock_alerts
  record_change-Announces kind quantity previous user st old e =
      let t = s.clock s.reads in
      let sent = queued-IsAlerted t st old s.db.stocks s e (rw quiet tt) in
      let marks = put-All IsMarked (marked t st) s.db.stocks (marked-IsMarked t st) m in
      rw (sync_low_stock-run st s)
        (elim (Bool-cases (is_some (find (s.uuids s.drawn) s.db.movements))) [
          | inl taken ↦ rw taken (sent-after_sync st s, marks)
          | inr fresh ↦ rw fresh (
            refl,
            marks,
            (
              (after_sync st s).memory.pending,
              ap (λ x. x ++ (after_sync st s).memory.pending) (sent-after_sync st s),
              sent,
            ),
          )
        ])

  module _ (p l : ℕ) (quantity : ℤ) (user : ℕ) (keyed : IsKeyed s.db.stocks) where
    change-Announces :
        (kind : StockMovementType) (moved new : ℤ) (st : InventoryStock)
        → stock_at p l s.db ≡ some st
        → Announces s (record_change kind moved st.quantity user (record st { quantity = new }) s)
    change-Announces kind moved new st e =
        record_change-Announces kind moved st.quantity user (record st { quantity = new }) st
          (find-first _ s.db.stocks st keyed e)

    -- From nothing pending, right marks and keys of their own, `add_stock` returns with every mark right,
    -- nothing pending, and new alerts for durably marked rows alone; a raise sends none.
    pub add_stock-Announces : Announces s (add_stock p l quantity user s)
    unfolding add_stock
    add_stock-Announces = elim (Option-cases (stock_at p l s.db)) [
      | inl e ↦ ground arith
      | inr (st, e) ↦
          ground (
            arith,
            change-Announces StockMovementType.inward quantity (st.quantity +ℤ quantity) st e,
          )
    ]

    -- From nothing pending, right marks and keys of their own, `remove_stock` returns with every mark right,
    -- nothing pending, and new alerts for durably marked rows alone; a raise sends none.
    pub remove_stock-Announces : Announces s (remove_stock p l quantity user s)
    unfolding remove_stock
    remove_stock-Announces = elim (Option-cases (stock_at p l s.db)) [
      | inl e ↦ ground arith
      | inr (st, e) ↦ ground (
        arith,
        change-Announces StockMovementType.outward quantity (st.quantity -ℤ quantity) st e,
      )
    ]

    -- From nothing pending, right marks and keys of their own, `adjust_stock` returns with every mark right,
    -- nothing pending, and new alerts for durably marked rows alone; a raise sends none.
    pub adjust_stock-Announces : Announces s (adjust_stock p l quantity user s)
    unfolding adjust_stock
    adjust_stock-Announces = elim (Option-cases (stock_at p l s.db)) [
      | inl e ↦ ground arith
      | inr (st, e) ↦ ground (
        arith,
        change-Announces StockMovementType.adjust (abs_ℤ (quantity -ℤ st.quantity)) quantity st e,
      )
    ]

-- A row that was just inserted, with no mark yet.
record Unmarked (st : InventoryStock) (s0 s : Session Shop Notices) : Type 0 where
  there : find st.id s.db.stocks ≡ some st
  unmarked : st.low_stock_alerted_at ≡ none
  others : (t : ℕ) → All IsMarked (put (marked t st) s.db.stocks)
  durable : s.committed ≡ s.db
  pending : s.memory.pending ≡ []
  same_sent : s.memory.sent ≡ s0.memory.sent

abbrev InsertsUnmarked :
    Session Shop Notices → Result InventoryStock × Session Shop Notices → Type 0
InsertsUnmarked s0 (ok st, s) = Unmarked st s0 s
InsertsUnmarked s0 (err e, s) = (s.memory.sent ≡ s0.memory.sent) × All IsMarked s.committed.stocks

announce-Announces :
    (s0 : Session Shop Notices) (x : Result InventoryStock × Session Shop Notices)
    → InsertsUnmarked s0 x
    → Announces s0 (continue x.0 announce x.1)
unfolding announce flush_low_stock_alerts
announce-Announces s0 (err e, s) h = h
announce-Announces s0 (ok st, s) h =
    let sent = queued-IsAlerted (s.clock s.reads) st st s.db.stocks s h.there (rw h.pending tt) in
    rw (sync_low_stock-run st s) (elim (Bool-cases (alert_due st)) [
      | inl due ↦ rw due (
        refl,
        h.others (s.clock s.reads),
        (
          (add_pending st.id s.memory).pending,
          ap (λ x. x ++ (add_pending st.id s.memory).pending)
              (sent-add_pending st.id s.memory ∙ h.same_sent),
          rw due at sent,
        ),
      )
      | inr no_alert ↦
          rw no_alert
            (h.pending, h.others (s.clock s.reads), ([], h.same_sent ∙ sym (append-nil _), tt))
    ])

insert_stock-InsertsUnmarked :
    (l p : ℕ) (quantity reorder_point : ℤ) (s : Session Shop Notices)
    → s.memory.pending ≡ []
    → All IsMarked s.db.stocks
    → All IsMarked s.committed.stocks
    → InsertsUnmarked s (insert_stock l p quantity reorder_point s)
unfolding insert_stock
insert_stock-InsertsUnmarked l p quantity reorder_point s quiet m durable =
    let st = new_stock (s.uuids s.drawn) l p quantity reorder_point in
    elim (Bool-cases (stock_refused st s.db)) [
      | inl refused ↦ rw refused (refl, durable)
      | inr accepted ↦ rw accepted (
          let new : find st.id s.db.stocks ≡ none = ground arith in
          record {
            there = ground (arith, find-append st.id st s.db.stocks);
            unmarked = refl;
            others = λ t.
                rw (put-append (marked t st) st s.db.stocks new refl)
                  (All-append IsMarked s.db.stocks (marked t st ∷ []) m (marked-IsMarked t st, tt));
            durable = refl;
            pending = quiet;
            same_sent = refl;
          })
    ]

-- From nothing pending and right marks, `initialize_stock` returns with every mark right, nothing
-- pending, and new alerts for durably marked rows alone; a raise sends none.
pub initialize_stock-Announces :
    (l p : ℕ) (quantity reorder_point : ℤ) (s : Session Shop Notices)
    → s.memory.pending ≡ []
    → All IsMarked s.db.stocks
    → All IsMarked s.committed.stocks
    → Announces s (initialize_stock l p quantity reorder_point s)
unfolding initialize_stock
initialize_stock-Announces l p quantity reorder_point s quiet m durable = ground (
  arith,
  announce-Announces s (insert_stock l p (abs_ℤ quantity) (abs_ℤ reorder_point) s)
      (insert_stock-InsertsUnmarked l p (abs_ℤ quantity) (abs_ℤ reorder_point) s quiet m durable),
)
