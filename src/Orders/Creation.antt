-- ===== src/Orders/Creation.antt =====
-- `create_order` of app/orders/repository.py, with its retries, and the look-up of what it stored.
use operations_management.Base.{
  ◌+◌, true, ◌⊎◌, is_some, ℕ, zero, suc, ◌≡◌, refl, ◌∙◌, Option, none, some, arith, inl, inr,
  Bool-cases,
}
use operations_management.Text.{Text, text_eq, text_eq_refl}
use operations_management.Table.{find}
use operations_management.Table.Laws.{first-append}
use operations_management.Errors.{Failure, OrderError, Result, ok, err}
use operations_management.Session.{Session, continue}
use operations_management.Shop.{Shop, Notices, Order, OrderStatus, order_key}
use operations_management.Orders.Code.{generate_order_code, normalize_code}
use operations_management.Orders.Lookup.{normalize-generate}
use operations_management.Orders.Repository.{
  order_by_code, order_refused, new_order, try_create, create_rounds, create_order,
}
use operations_management.Orders.Service.{get_order_by_code}

-- A draft of the user, stored durably, that its code leads to.
pub record Stored (user : ℕ) (o : Order) (s : Session Shop Notices) : Type 0 where
  pub status : o.status ≡ OrderStatus.created
  pub user_id : o.user_id ≡ user
  pub code : (random : ℕ → ℕ) × (o.code ≡ generate_order_code random)
  pub found : order_by_code o.code s.db ≡ some o
  pub durable : s.committed ≡ s.db

-- An order with the key or with the code is there.
abbrev pub Taken : Shop → ℕ → Text → Type 0
Taken d i code = (is_some (find i d.orders) ≡ true) ⊎ (is_some (order_by_code code d) ≡ true)

abbrev Tries :
    (ℕ → ℕ) → ℕ → Session Shop Notices → Result (Option Order) × Session Shop Notices → Type 0
Tries random user s (ok none, s') =
    Taken s.db (s.uuids s.drawn) (generate_order_code random)
    × (s'.db ≡ s.committed)
    × (s'.committed ≡ s.committed)
    × (s'.uuids ≡ s.uuids)
    × (s'.drawn ≡ s.drawn + 1)
Tries random user s (ok (some o), s') = Stored user o s'
Tries random user s (err e, s') = ⊥

which : (o : Order) (d : Shop) → order_refused o d ≡ true → Taken d o.id o.code
which o d h = elim (Bool-cases (is_some (find o.id d.orders))) [
  | inl there ↦ inl there
  | inr free ↦ inr (ground arith)
]

try_create-Tries :
    (user : ℕ) (random : ℕ → ℕ) (s : Session Shop Notices)
    → Tries random user s (try_create user random s)
unfolding try_create
try_create-Tries user random s =
    let o = new_order (s.uuids s.drawn) (generate_order_code random) user (s.clock s.reads) in
    elim (Bool-cases (order_refused o s.db)) [
      | inl refused ↦ rw refused (which o s.db refused, refl, refl, refl, refl)
      | inr accepted ↦ rw accepted (record {
        status = refl;
        user_id = refl;
        code = (random, refl);
        found = ground (
          arith,
          first-append (λ (x : Order). text_eq x.code o.code) o s.db.orders,
          text_eq_refl o.code,
        );
        durable = refl;
      })
    ]

-- The round met a key or a code of an order that the session saw at first, or of a durable one, to
-- which every refused round rolls back.
abbrev pub Met : Session Shop Notices → ℕ → Text → Type 0
Met s i code = Taken s.db i code ⊎ Taken s.committed i code

-- How a creation of so many rounds may end, the last of them drawing `random 0`.
abbrev pub Creates :
    ℕ → (ℕ → ℕ → ℕ) → ℕ → Session Shop Notices → Result Order × Session Shop Notices → Type 0
Creates rounds random user s (ok o, s') =
    Stored user o s' × (get_order_by_code o.code s' ≡ (ok o, s'))
Creates rounds random user s (err e, s') =
    (e ≡ Failure.order OrderError.order_code_generation_error)
    × (s'.committed ≡ s.committed)
    × ((m j : ℕ)
        → j + suc m ≡ rounds
        → Met s (s.uuids (s.drawn + j)) (generate_order_code (random m)))

-- The code of a stored order is its own normal form, so it leads to the order.
get-Stored :
    (user : ℕ) (o : Order) (s : Session Shop Notices)
    → Stored user o s
    → get_order_by_code o.code s ≡ (ok o, s)
unfolding get_order_by_code
get-Stored user o s h =
    let (random, same) = h.code in
    let normal : normalize_code o.code ≡ some o.code = rw same (normalize-generate random).0 in
    rw normal (rw h.found refl)

-- A refused round in front of the others.
rebase :
    (n user : ℕ) (random : ℕ → ℕ → ℕ) (s s' : Session Shop Notices)
    (y : Result Order × Session Shop Notices)
    → Tries (random n) user s (ok none, s')
    → Creates n random user s' y
    → Creates (suc n) random user s y
rebase n user random s s' (ok o, s'') h k = k
rebase n user random s s' (err e, s'') (taken, now, durable, uuids, drawn) (kind, saved, met) =
    (kind, saved ∙ durable, earlier)
  where
    later : (i : ℕ) (code : Text) → Met s' i code → Met s i code
    later i code (inl t) = inr (rw now at t)
    later i code (inr t) = inr (rw durable at t)

    earlier :
        (m j : ℕ)
        → j + suc m ≡ suc n
        → Met s (s.uuids (s.drawn + j)) (generate_order_code (random m))
    earlier m zero e =
        let same : m ≡ n = omega arith in
        let here : s.drawn + 0 ≡ s.drawn = omega arith in rw (same, here) (inl taken)
    earlier m (suc j) e =
        let shifted : s.drawn + suc j ≡ s.drawn + 1 + j = omega arith in
        let one = met m j (omega arith) in rw shifted (later _ _ (rw (uuids, drawn) at one))

create_rounds-Creates :
    (n user : ℕ) (random : ℕ → ℕ → ℕ) (s : Session Shop Notices)
    → Creates n random user s (create_rounds n user random s)
unfolding create_rounds
create_rounds-Creates zero user random s = (refl, refl, λ m j e. elim (none_left m j e) [ ])
  where
    none_left : (m j : ℕ) → j + suc m ≡ 0 → ⊥
    none_left m j e = omega arith
create_rounds-Creates (suc n) user random s =
    retry (create_rounds-Creates n user random) (try_create user (random n) s)
      (try_create-Tries user (random n) s)
  where
    rest : Option Order → Session Shop Notices → Result Order × Session Shop Notices
    rest created = elim created [ none ↦ create_rounds n user random | some o ↦ λ s'. (ok o, s') ]

    retry :
        ((s' : Session Shop Notices) → Creates n random user s' (create_rounds n user random s'))
        → (x : Result (Option Order) × Session Shop Notices) → Tries (random n) user s x
        → Creates (suc n) random user s (continue x.0 rest x.1)
    retry again (ok none, s') h =
        rebase n user random s s' (create_rounds n user random s') h (again s')
    retry again (ok (some o), s') h = (h, get-Stored user o s' h)
    retry again (err e, s') h = elim h [ ]

-- `create_order` returns a draft of the user that is stored durably and that `get_order_by_code`
-- finds by its code. Or each of its five rounds met an order with the key or the code that the round
-- drew, among those the session saw or the durable ones, and it raises `OrderCodeGenerationError`
-- with nothing committed.
pub create_order-Creates :
    (user : ℕ) (random : ℕ → ℕ → ℕ) (s : Session Shop Notices)
    → Creates 5 random user s (create_order user random s)
unfolding create_order
create_order-Creates user random s = create_rounds-Creates 5 user random s
