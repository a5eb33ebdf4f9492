-- ===== src/Worker/Recipients.antt =====
-- Who gets a low-stock alert: app/worker/tasks/stock_alert.py with
-- `list_emails_with_permission` of app/users/repository.py.
use operations_management.Base.{
  ℕ, ◌≡◌, refl, sym, ap, ◌∙◌, Bool, true, false, ◌&&◌, ◌||◌, Option, none, some, List, [], ◌∷◌, map,
  arith, inl, inr, ◌==◌, any, select, All, is_some, IsIn, any_witness, witness_any, Bool-iff,
  Bool-cases, Option-cases,
}
use operations_management.Text.{Text, text_eq, text_eq→eq}
use operations_management.Table.{find}
use operations_management.Table.Laws.{find_key}
use operations_management.Table.Unique.{holder, IsUnique}
use operations_management.Assistant.Tools.{StockRow, stock_row}
use operations_management.Shop.{Shop, InventoryStock, stock_key}
use operations_management.Rbac.{
  Access, Role, Permission, UserRole, RolePermission, role_key, is_pair, is_grant, user_has_role,
  role_has_permission, permissions_of, has_permission,
}
use operations_management.Auth.{User, Accounts, is_active}
use operations_management.Worker.{
  stock_alert, is_permission, carries, gives, is_recipient, distinct, list_emails_with_permission,
  LowStockEmail, mail_to, low_stock_alert_job,
}

-- Every role that a user has is there, as the database's foreign key says.
abbrev pub RolesExist : Access → Type 0
RolesExist d = All (λ (x : UserRole). is_some (find x.role_id d.roles) ≡ true) d.user_roles

module _ {A : Type 0} where
  any-select : (p q : A → Bool) (xs : List A) → any p (select q xs) ≡ any (λ x. q x && p x) xs
  any-select p q [] = refl
  any-select p q (x ∷ xs) = ground (arith, any-select p q xs)

  All-IsIn : (P : A → Type 0) (x : A) (xs : List A) → All P xs → IsIn x xs → P x
  All-IsIn P x [] h i = elim i [ ]
  All-IsIn P x (y ∷ ys) h (inl e) = rw (← e) h.0
  All-IsIn P x (y ∷ ys) h (inr i) = All-IsIn P x ys h.1 i

some_same : {A : Type 0} (x y : A) → some x ≡ some y → x ≡ y
some_same x y e = cc

found_role-IsIn : (i : ℕ) (rs : List Role) (r : Role) → find i rs ≡ some r → IsIn r rs
found_role-IsIn i [] r e = cc
found_role-IsIn i (x ∷ xs) r e = elim (Bool-cases (x.id == i)) [
  | inl here ↦ inl (some_same x r (rw here at e))
  | inr later ↦ inr (found_role-IsIn i xs r (rw later at e))
]

no_role : (r : Option Role) → is_some r ≡ true → r ≡ none → ⊥
no_role r h e = ground arith

and_split : (a b : Bool) → (a && b) ≡ true → (a ≡ true) × (b ≡ true)
and_split a b h = ground arith

and_join : (a b : Bool) → a ≡ true → b ≡ true → (a && b) ≡ true
and_join a b h k = ground arith

same_number : (a b : ℕ) → (a == b) ≡ true → a ≡ b
same_number a b h = ground arith

equal_numbers : (a b : ℕ) → a ≡ b → (a == b) ≡ true
equal_numbers a b h = ground arith

module _ (code : Text) (d : Access) (user : ℕ) where
  -- A role of the user that carries the permission, found in the three tables of links.
  role_holds :
      (ur : UserRole) (rp : RolePermission) (p : Permission) (r : Role)
      → IsIn ur d.user_roles
      → IsIn rp d.role_permissions
      → IsIn p d.permissions
      → IsIn r d.roles
      → ur.user_id ≡ user
      → ur.role_id ≡ r.id
      → rp.role_id ≡ r.id
      → rp.permission_id ≡ p.id
      → text_eq p.code code ≡ true
      → has_permission user code d ≡ true
  role_holds ur rp p r in_ur in_rp in_p in_r of_user of_role grants to_p named =
      let has_role : user_has_role user r.id d ≡ true =
        witness_any (is_pair user r.id) ur d.user_roles in_ur
          (and_join _ _ (equal_numbers _ _ of_user) (equal_numbers _ _ of_role)) in
      let granted : role_has_permission r.id p.id d ≡ true =
        witness_any (is_grant r.id p.id) rp d.role_permissions in_rp
          (and_join _ _ (equal_numbers _ _ grants) (equal_numbers _ _ to_p)) in
      let carried : any (λ (x : Permission). text_eq x.code code) (permissions_of r d) ≡ true =
        any-select (λ (x : Permission). text_eq x.code code) (λ x. role_has_permission r.id x.id d)
          d.permissions
        ∙ witness_any (λ x. role_has_permission r.id x.id d && text_eq x.code code) p d.permissions
            in_p (and_join _ _ granted named) in
      any-select (λ x. any (λ (p : Permission). text_eq p.code code) (permissions_of x d))
        (λ x. user_has_role user x.id d) d.roles
      ∙ witness_any
          (λ x.
            user_has_role user x.id d
            && any (λ (p : Permission). text_eq p.code code) (permissions_of x d))
          r d.roles in_r (and_join _ _ has_role carried)

  joined_holds :
      RolesExist d → any (gives code d user) d.user_roles ≡ true → has_permission user code d ≡ true
  joined_holds exist h =
      let (ur, in_ur, hu) = any_witness (gives code d user) d.user_roles h in
      let (of_user, carried) = and_split _ _ hu in
      let (rp, in_rp, hr) = any_witness (carries code d ur) d.role_permissions carried in
      let (of_role, named) = and_split _ _ hr in
      let (p, in_p, hp) = any_witness (is_permission code rp) d.permissions named in
      let (to_p, codes) = and_split _ _ hp in
      let there = All-IsIn _ ur d.user_roles exist in_ur in
      elim (Option-cases (find ur.role_id d.roles)) [
        | inl absent ↦ elim (no_role (find ur.role_id d.roles) there absent) [ ]
        | inr (r, e) ↦
            let key = find_key ur.role_id d.roles r e in
            role_holds ur rp p r in_ur in_rp in_p (found_role-IsIn ur.role_id d.roles r e)
              (same_number _ _ of_user) (sym key) (same_number _ _ of_role ∙ sym key)
              (sym (same_number _ _ to_p)) codes
      ]

  holds_joined : has_permission user code d ≡ true → any (gives code d user) d.user_roles ≡ true
  holds_joined h =
      let (r, in_r, hr) =
        any_witness
          (λ x.
            user_has_role user x.id d
            && any (λ (p : Permission). text_eq p.code code) (permissions_of x d))
          d.roles
          (sym (
              any-select (λ x. any (λ (p : Permission). text_eq p.code code) (permissions_of x d))
                (λ x. user_has_role user x.id d) d.roles)
            ∙ h) in
      let (has_role, carried) = and_split _ _ hr in
      let (p, in_p, hp) =
        any_witness (λ x. role_has_permission r.id x.id d && text_eq x.code code) d.permissions
          (sym (
              any-select (λ (x : Permission). text_eq x.code code)
                (λ x. role_has_permission r.id x.id d) d.permissions)
            ∙ carried) in
      let (granted, named) = and_split _ _ hp in
      let (ur, in_ur, hu) = any_witness (is_pair user r.id) d.user_roles has_role in
      let (of_user, of_role) = and_split _ _ hu in
      let (rp, in_rp, hg) = any_witness (is_grant r.id p.id) d.role_permissions granted in
      let (grants, to_p) = and_split _ _ hg in
      witness_any (gives code d user) ur d.user_roles in_ur (
        and_join _ _ of_user (
          witness_any (carries code d ur) rp d.role_permissions in_rp (
            and_join _ _
              (equal_numbers _ _ (same_number _ _ grants ∙ sym (same_number _ _ of_role)))
              (witness_any (is_permission code rp) p d.permissions in_p
                (and_join _ _ (equal_numbers _ _ (sym (same_number _ _ to_p))) named)))))

any-distinct :
    (e : Text) (ts : List Text) → any (λ x. text_eq x e) (distinct ts) ≡ any (λ x. text_eq x e) ts
any-distinct e [] = refl
any-distinct e (t ∷ ts) = elim (Bool-cases (any (λ x. text_eq x t) (distinct ts))) [
  | inr fresh ↦ rw (fresh, any-distinct e ts) refl
  | inl known ↦ rw known (elim (Bool-cases (text_eq t e)) [
    | inr other ↦ rw other (any-distinct e ts)
    | inl same ↦
        let held : any (λ x. text_eq x e) (distinct ts) ≡ true = rw (← text_eq→eq t e same) known in
        rw same held
  ])
]

abbrev pub email_of : LowStockEmail → Text
email_of j = j.email

holder-map :
    (row : StockRow) (e : Text) (ts : List Text)
    → any (λ x. text_eq x e) ts ≡ false
    → holder email_of e (map (mail_to row) ts) ≡ none
holder-map row e [] h = refl
holder-map row e (t ∷ ts) h = ground (arith, holder-map row e ts)

distinct-IsUnique :
    (row : StockRow) (ts : List Text) → IsUnique email_of (map (mail_to row) (distinct ts))
distinct-IsUnique row [] = tt
distinct-IsUnique row (t ∷ ts) = elim (Bool-cases (any (λ x. text_eq x t) (distinct ts))) [
  | inl known ↦ rw known (distinct-IsUnique row ts)
  | inr fresh ↦ rw fresh (holder-map row t (distinct ts) fresh, distinct-IsUnique row ts)
]

any-mails :
    (row : StockRow) (e : Text) (ts : List Text)
    → any (λ (j : LowStockEmail). text_eq j.email e) (map (mail_to row) ts)
      ≡ any (λ x. text_eq x e) ts
any-mails row e [] = refl
any-mails row e (t ∷ ts) = rw (any-mails row e ts) refl

and_true : (b : Bool) → (b && true) ≡ b
and_true b = ground arith

and_false : (b : Bool) → (b && false) ≡ false
and_false b = ground arith

-- The row is there and marked as low.
abbrev pub is_marked : Option InventoryStock → Bool
is_marked none = false
is_marked (some st) = is_some st.low_stock_alerted_at

module _ (i : ℕ) (shop : Shop) (access : Access) (accounts : Accounts) where
  -- An active user with the mail address who may get alerts.
  abbrev pub is_due : Text → User → Bool
  is_due email u = text_eq u.email email && (is_active u && has_permission u.id stock_alert access)

  -- The mails go to exactly the users who are due, and to each address once.
  pub record Notifies (jobs : List LowStockEmail) : Type 0 where
    pub exact :
        (email : Text)
        → any (λ (j : LowStockEmail). text_eq j.email email) jobs
          ≡ is_marked (find i shop.stocks) && any (is_due email) accounts.users
    pub once : IsUnique email_of jobs

  any-recipients :
      RolesExist access
      → (e : Text) (us : List User)
      → any
          (λ x. text_eq x e)
          (map (λ (u : User). u.email) (select (is_recipient stock_alert access) us))
        ≡ any (is_due e) us
  any-recipients exist e [] = refl
  any-recipients exist e (u ∷ us) =
      let same =
        Bool-iff _ _ (joined_holds stock_alert access u.id exist)
          (holds_joined stock_alert access u.id) in
      let right : (is_active u && has_permission u.id stock_alert access)
          ≡ is_recipient stock_alert access u =
        ap (λ b. is_active u && b) (sym same) in
      elim (Bool-cases (is_recipient stock_alert access u)) [
        | inl due ↦
            rw (due, right ∙ due, any-recipients exist e us)
              (ap (λ b. b || any (is_due e) us) (sym (and_true (text_eq u.email e))))
        | inr spared ↦
            rw (spared, right ∙ spared, any-recipients exist e us)
              (ap (λ b. b || any (is_due e) us) (sym (and_false (text_eq u.email e))))
      ]

  -- When every role that a user has is there, `low_stock_alert_job` hands over mails to exactly the
  -- active users whom `has_permission` gives `stock:alert`, each address once, for a row that is
  -- still marked as low; for one that has recovered or is gone it sends none.
  pub low_stock_alert_job-Notifies :
      RolesExist access → Notifies (low_stock_alert_job i shop access accounts)
  unfolding low_stock_alert_job list_emails_with_permission
  low_stock_alert_job-Notifies exist = elim (Option-cases (find i shop.stocks)) [
    | inl absent ↦ rw absent (record { exact = λ email. rw absent refl; once = tt })
    | inr (st, e) ↦ elim (Option-cases st.low_stock_alerted_at) [
      | inl recovered ↦
          rw e (rw recovered (record { exact = λ email. rw e (rw recovered refl); once = tt }))
      | inr (t, marked) ↦ rw e (
          rw marked (record {
            exact = λ email. rw e (
                rw marked (
                  any-mails (stock_row shop st) email (
                    distinct (
                      map (λ (u : User). u.email)
                        (select (is_recipient stock_alert access) accounts.users)))
                  ∙ any-distinct email _
                  ∙ any-recipients exist email accounts.users));
            once = distinct-IsUnique (stock_row shop st) (
                map (λ (u : User). u.email)
                  (select (is_recipient stock_alert access) accounts.users));
          }))
    ]
  ]
