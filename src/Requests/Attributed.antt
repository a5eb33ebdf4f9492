-- ===== src/Requests/Attributed.antt =====
-- In whose name and where the routes of app/inventory/router.py and app/orders/router.py work.
use operations_management.Base.{
  ℕ, true, ◌≡◌, refl, ◌⊎◌, inl, inr, true, Option, none, some, Option-cases,
}
use mathlib.Core.Path.{subst}
use operations_management.Text.{Text}
use operations_management.Table.{find}
use operations_management.Table.Laws.{find_key}
use operations_management.Errors.{Failure, Result, ok, err}
use operations_management.Session.{Session, continue, close_session, get_session}
use operations_management.Shop.{Shop, Notices, Location, location_key}
use operations_management.Auth.{User, Accounts, Outside, is_active, user_key}
use operations_management.Auth.Identity.{
  Decoded, Speaks, Speaks-unique, Answer, get_current_user, get_current_user-Identifies,
}
use operations_management.Rbac.{Access}
use operations_management.Rbac.Guard.{
  require_permission, IsAllowed, refusal_excludes, may, Guards, require_permission-Guards,
}
use operations_management.Reports.{get_current_location}
use operations_management.Requests.{Request, handle, begin}
use operations_management.Requests.Asked.{place, IsBy, IsAt, Asks, needs_location, IsAstray}
use operations_management.Requests.Routes.{Route, permission_of, at_location, run, respond}

-- What a body may do: handle the request that the route asks for, or fail before it has written.
abbrev Runs :
    Route
    → User
    → Option ℕ
    → Session Shop Notices
    → Result (Unit {0}) × Session Shop Notices
    → Type 0
Runs r u x s y =
    ((q : Request) × Asks r q × IsBy u q × IsAt x s.db q × (y ≡ handle q s))
    ⊎ ((e : Failure) × (needs_location r ≡ true) × IsAstray x s.db e × (y ≡ (err e, s)))

at_location-Runs :
    (r : Route) (u : User) (x : Option ℕ) (q : Location → Request) (s : Session Shop Notices)
    → needs_location r ≡ true
    → ((l : Location) → Asks r (q l))
    → ((l : Location) → IsBy u (q l))
    → ((l : Location) → place (q l) ≡ some l.id)
    → Runs r u x s (at_location x q s)
unfolding get_current_location
at_location-Runs r u none q s needs asks by here = inr (_, needs, inl (refl, refl), refl)
at_location-Runs r u (some i) q s needs asks by here = elim (Option-cases (find i s.db.locations)) [
  | inl e ↦ rw e (inr (_, needs, inr (i, refl, e, refl), refl))
  | inr (l, e) ↦
      let own : l.id ≡ i = find_key i s.db.locations l e in
      let stored : find l.id s.db.locations ≡ some l = cc in
      rw e (inl (q l, asks l, by l, inr (l, cc, stored, here l), refl))
]

run-Runs :
    (r : Route) (u : User) (x : Option ℕ) (s : Session Shop Notices) → Runs r u x s (run r u x s)
run-Runs (Route.post_product name sku c) u x s =
    inl (_, Asks.post_product name sku c, inl refl, inl refl, refl)
run-Runs (Route.patch_product i name sku) u x s =
    inl (_, Asks.patch_product i name sku, inl refl, inl refl, refl)
run-Runs (Route.drop_product i) u x s = inl (_, Asks.drop_product i, inl refl, inl refl, refl)
run-Runs (Route.activate_product i) u x s =
    inl (_, Asks.activate_product i, inl refl, inl refl, refl)
run-Runs (Route.post_category name description) u x s =
    inl (_, Asks.post_category name description, inl refl, inl refl, refl)
run-Runs (Route.remove_category i) u x s = inl (_, Asks.remove_category i, inl refl, inl refl, refl)
run-Runs (Route.post_product_category ignored p c) u x s =
    inl (_, Asks.post_product_category ignored p c, inl refl, inl refl, refl)
run-Runs (Route.remove_product_category p c) u x s =
    inl (_, Asks.remove_product_category p c, inl refl, inl refl, refl)
run-Runs (Route.post_location name city address) u x s =
    inl (_, Asks.post_location name city address, inl refl, inl refl, refl)
run-Runs (Route.patch_location i name city address) u x s =
    inl (_, Asks.patch_location i name city address, inl refl, inl refl, refl)
run-Runs (Route.remove_location i) u x s = inl (_, Asks.remove_location i, inl refl, inl refl, refl)
run-Runs (Route.post_stock p q r) u x s =
    at_location-Runs _ u x _ s refl (λ l. Asks.post_stock p q r l.id) (λ l. inl refl) (λ l. refl)
run-Runs (Route.post_in p q) u x s =
    at_location-Runs _ u x _ s refl (λ l. Asks.post_in p q l.id u.id) (λ l. inr refl) (λ l. refl)
run-Runs (Route.post_out p q) u x s =
    at_location-Runs _ u x _ s refl (λ l. Asks.post_out p q l.id u.id) (λ l. inr refl) (λ l. refl)
run-Runs (Route.post_adjust p q) u x s =
    at_location-Runs _ u x _ s refl (λ l. Asks.post_adjust p q l.id u.id) (λ l. inr refl)
      (λ l. refl)
run-Runs (Route.post_order random) u x s =
    inl (_, Asks.post_order random u.id, inr refl, inl refl, refl)
run-Runs (Route.post_item o p q) u x s = inl (_, Asks.post_item o p q, inl refl, inl refl, refl)
run-Runs (Route.remove_item o p) u x s = inl (_, Asks.remove_item o p, inl refl, inl refl, refl)
run-Runs (Route.patch_confirm o) u x s =
    at_location-Runs _ u x _ s refl (λ l. Asks.patch_confirm o l.id) (λ l. inl refl) (λ l. refl)
run-Runs (Route.patch_cancel o) u x s = inl (_, Asks.patch_cancel o, inl refl, inl refl, refl)
run-Runs (Route.patch_complete o) u x s =
    inl (_, Asks.patch_complete o u.id, inr refl, inl refl, refl)

module _ (decode : ℕ → Text → Decoded) (token : Text) (x : Option ℕ)
    (accounts : Session Accounts Outside) (rights : Session Access (Unit {0})) where
  -- Why a route may answer an error before it works: the caller is refused, or the header is wrong.
  abbrev pub Refuses : Route → Session Shop Notices → Failure → Type 0
  Refuses r s e =
      (Guards decode (permission_of r) token accounts rights (err e)
        × (IsAllowed decode (permission_of r) token accounts rights → ⊥))
      ⊎ ((needs_location r ≡ true) × IsAstray x s.committed e)

  -- Either the request that the route asks for is handled, for an allowed caller, by that caller and
  -- at the header's location, or the caller or the header is refused and nothing is changed.
  abbrev pub Obeys :
      Route → Session Shop Notices → Result (Unit {0}) × Session Shop Notices → Type 0
  Obeys r s y =
      ((u : User) × Speaks decode token accounts u
        × (is_active u ≡ true)
        × (may decode (permission_of r) token accounts rights u ≡ true)
        × ((q : Request) × Asks r q
            × IsBy u q
            × IsAt x s.committed q
            × (y ≡ get_session (handle q) (begin s))))
      ⊎ ((e : Failure) × Refuses r s e
          × (y.0 ≡ err e)
          × (y.1.db ≡ s.committed)
          × (y.1.committed ≡ s.committed))

  module _ (r : Route) (s : Session Shop Notices) where
    closed :
        (u : User) (y : Result (Unit {0}) × Session Shop Notices)
        → Speaks decode token accounts u
        → is_active u ≡ true
        → may decode (permission_of r) token accounts rights u ≡ true
        → Runs r u x (begin s) y
        → Obeys r s (close_session y)
    unfolding get_session
    closed u y spoken active permitted (inl (q, asks, by, here, same)) =
        inl (u, spoken, active, permitted, (q, asks, by, here, rw same refl))
    closed u y spoken active permitted (inr (e, needs, astray, same)) =
        inr (e, inr (needs, astray), rw same refl, rw same refl, rw same refl)

    after_guard :
        (g : Result (Unit {0})) (c : Result User)
        → Guards decode (permission_of r) token accounts rights g
        → Answer decode token accounts c
        → (((e : Failure) → c ≡ err e → g ≡ err e))
        → Obeys r s (close_session (continue g (λ _. continue c (λ u. run r u x)) (begin s)))
    after_guard (err e) c h k one = inr (
      e,
      inl (h, refusal_excludes decode (permission_of r) token accounts rights e h),
      refl,
      refl,
      refl,
    )
    after_guard (ok _) (err e) h k one = let clash = one e refl in cc
    after_guard (ok _) (ok u) (v, spoken, active, permitted) (spoken', active') one =
        let same : v ≡ u = Speaks-unique decode token accounts v u spoken spoken' in
        closed u (run r u x (begin s)) spoken' active'
          (subst (λ w. may decode (permission_of r) token accounts rights w ≡ true) same permitted)
          (run-Runs r u x (begin s))

    guard_passes_on :
        (e : Failure)
        → (get_current_user decode token accounts).0 ≡ err e
        → require_permission decode (permission_of r) token accounts rights ≡ err e
    unfolding require_permission
    guard_passes_on e h = rw h refl

    -- A writing route of the shop handles the one request that it asks for, with what the caller
    -- sent, when its caller is an active user of a decoded access token with the route's permission:
    -- what it writes as the user is that caller, and the location it works at is the stored one of
    -- the header. Otherwise the caller has no such permission and gets the guard's answer, or a route
    -- that needs the header misses it (400) or its location (404); then nothing is changed.
    pub respond-Obeys : Obeys r s (respond decode token x accounts rights r s)
    unfolding respond get_session
    respond-Obeys =
        after_guard (require_permission decode (permission_of r) token accounts rights)
          (get_current_user decode token accounts).0
          (require_permission-Guards decode (permission_of r) token accounts rights)
          (get_current_user-Identifies decode token accounts).0 guard_passes_on
