-- ===== src/Users/Closing.antt =====
-- `disable_account` and `enable_account` of app/users/service.py, and what a disabled account means for
-- app/auth.
use operations_management.Base.{
  ℕ, ◌≡◌, refl, sym, ap, ◌∙◌, true, false, Option, none, some, List, arith, inl, inr, ◌⊎◌, ◌==◌,
  Option-cases, Bool-cases, ltb, if◌then◌else◌,
}
use operations_management.Text.{Text, text_eq}
use operations_management.Table.{find, first, put}
use operations_management.Table.Laws.{find_key, find-put, put-put, first-put}
use operations_management.Table.Unique.{find-holder}
use operations_management.Errors.{Failure, AuthError, UserError, Result, ok, err}
use operations_management.Session.{Session}
use operations_management.Auth.{
  Crypto, User, RefreshToken, Accounts, Outside, user_key, refresh_token_key, refused, is_active,
  get_by_email, get_active, login, refresh_session,
}
use operations_management.Auth.Identity.{
  Decoded, get_current_user, Answer, get_current_user-Identifies,
}
use operations_management.Users.{get_user_by_id, enable_account, disable_account}
use operations_management.Users.Unique.{UsersUnique, email_of}

-- Disabling an account.
module _ (crypto : Crypto) (decode : ℕ → Text → Decoded) (i by : ℕ) (reason : Text)
    (s : Session Accounts Outside) where
  -- A request is not let in as the user.
  abbrev pub IsNot : Result User → Type 0
  IsNot (ok u) = (u.id == i) ≡ false
  IsNot (err e) = Unit

  -- The refresh token is another user's.
  abbrev pub IsAnothers : Option RefreshToken → Type 0
  IsAnothers none = Unit
  IsAnothers (some t) = (t.user_id == i) ≡ false

  abbrev pub Refuses : Option RefreshToken → Result (Text × Text) → Type 0
  Refuses t (ok _) = IsAnothers t
  Refuses t (err e) = Unit

  abbrev pub refusal : Text → User → AuthError
  refusal password u =
      if crypto.verify_password password u.hashed_password
      then AuthError.account_disabled
      else AuthError.invalid_credentials

  -- The row is marked, durably, and opens nothing.
  pub record ShutOut (u : User) (s' : Session Accounts Outside) : Type 0 where
    pub found : find i s'.db.users ≡ some u
    pub marked : is_active u ≡ false
    pub marked_by : u.disabled_by ≡ some by
    pub marked_for : u.reason ≡ some reason
    pub durable : s'.committed ≡ s'.db
    pub no_login :
        (password : Text)
        → (login crypto u.email password s').0 ≡ err (refused (refusal password u))
    pub no_request : (token : Text) → IsNot (get_current_user decode token s').0
    pub no_session :
        (token : Text) → Refuses (get_active crypto token s'.db) (refresh_session crypto token s').0

  -- How `disable_account` may end.
  abbrev pub ShutsOut : Result User × Session Accounts Outside → Type 0
  ShutsOut (ok u, s') = ShutOut u s'
  ShutsOut (err e, s') =
      (((e ≡ Failure.user UserError.user_not_found) × (find i s.db.users ≡ none))
        ⊎ ((e ≡ Failure.integrity_error) × (find by s.db.users ≡ none)))
      × (s'.db ≡ s.db)
      × (s'.committed ≡ s.committed)

  another-Refuses :
      (t : RefreshToken) (r : Result (Text × Text)) → (t.user_id == i) ≡ false → Refuses (some t) r
  another-Refuses t (ok _) h = h
  another-Refuses t (err _) h = tt

  active_other :
      (us : List User) (j : ℕ) (u v : User)
      → find j us ≡ some v
      → find i us ≡ some u
      → is_active v ≡ true
      → is_active u ≡ false
      → v.id ≡ j
      → (v.id == i) ≡ false
  active_other us j u v ev eu on off key = elim (Bool-cases (v.id == i)) [
    | inr other ↦ other
    | inl same ↦
        let index : j ≡ i = ground arith in
        let one : some u ≡ some v = sym eu ∙ rw (← index) ev in ground arith
  ]

  module _ (u : User) (s' : Session Accounts Outside) (e : find i s'.db.users ≡ some u)
      (off : is_active u ≡ false) where
    no_login-disabled :
        (password : Text)
        → get_by_email u.email s'.db ≡ some u
        → (login crypto u.email password s').0 ≡ err (refused (refusal password u))
    unfolding login
    no_login-disabled password mail =
        elim (Bool-cases (crypto.verify_password password u.hashed_password)) [
          | inl right ↦ rw mail (rw right (rw off refl))
          | inr wrong ↦ rw mail (rw wrong refl)
        ]

    no_session-disabled :
        (token : Text) → Refuses (get_active crypto token s'.db) (refresh_session crypto token s').0
    unfolding refresh_session
    no_session-disabled token = elim (Option-cases (get_active crypto token s'.db)) [
      | inl e ↦ rw e tt
      | inr (t, found) ↦ rw found (elim (Bool-cases (ltb t.expires_at (s'.clock s'.reads))) [
        | inl late ↦ rw late tt
        | inr timely ↦ rw timely (elim (Bool-cases (t.user_id == i)) [
          | inl own ↦
              let same : find t.user_id s'.db.users ≡ some u = ground (arith, e) in
              rw same (rw off tt)
          | inr another ↦ another-Refuses t _ another
        ])
      ])
    ]

    no_request-disabled : (token : Text) → IsNot (get_current_user decode token s').0
    no_request-disabled token =
        not_let_in (get_current_user decode token s').0
          (get_current_user-Identifies decode token s').0
      where
        not_let_in : (r : Result User) → Answer decode token s' r → IsNot r
        not_let_in (err _) h = tt
        not_let_in (ok v) (spoken, active) =
            active_other s'.db.users spoken.user_id u v spoken.found e active off
              (find_key spoken.user_id s'.db.users v spoken.found)

  -- When no two users share a key, a mail address or a name, `disable_account` marks the user's row
  -- with who disabled it and why, durably; in the session that it leaves every log-in with the user's
  -- mail address raises `AccountDisabled`, or `InvalidCredentials` where the password is wrong, no
  -- access token is let through as the user, and no refresh token of the user is exchanged. Or there
  -- is no such user, or the one who disables is none, and it raises with nothing changed.
  pub disable_account-ShutsOut : UsersUnique s.db → ShutsOut (disable_account i by reason s)
  unfolding disable_account get_user_by_id
  disable_account-ShutsOut unique = elim (Option-cases (find i s.db.users)) [
    | inl absent ↦ rw absent (inl (refl, absent), refl, refl)
    | inr (u, e) ↦ rw e (elim (Option-cases (find by s.db.users)) [
      | inl nobody ↦ rw nobody (inr (refl, nobody), refl, refl)
      | inr (v, there) ↦ rw there (
          let u' = record u {
            disabled_at = some (s.clock s.reads);
            disabled_by = some by;
            reason = some reason;
          } in
          let key = find_key i s.db.users u e in
          let found : find i (put u' s.db.users) ≡ some u' =
            ground (arith, find-put i u' s.db.users) in
          let mail : first (λ x. text_eq x.email u.email) (put u' s.db.users) ≡ some u' = ground (
            arith,
            first-put (λ x. text_eq x.email u.email) u' u s.db.users unique.keyed,
            find-holder email_of i s.db.users u e unique.emails,
          ) in
          record {
            found = found;
            marked = refl;
            marked_by = refl;
            marked_for = refl;
            durable = refl;
            no_login = λ password. no_login-disabled u' _ found refl password mail;
            no_request = no_request-disabled u' _ found refl;
            no_session = no_session-disabled u' _ found refl;
          })
    ])
  ]

-- An active account that is disabled and enabled again is as it was: `enable_account` returns the
-- row that was there before, and the database is the same, also durably.
pub enable-disable_account :
    (i by : ℕ) (reason : Text) (s : Session Accounts Outside) (u v : User)
    → find i s.db.users ≡ some u
    → find by s.db.users ≡ some v
    → u.disabled_at ≡ none
    → u.disabled_by ≡ none
    → u.reason ≡ none
    → ((enable_account i (disable_account i by reason s).1).0 ≡ ok u)
      × ((enable_account i (disable_account i by reason s).1).1.db ≡ s.db)
      × ((enable_account i (disable_account i by reason s).1).1.committed ≡ s.db)
unfolding enable_account disable_account get_user_by_id
enable-disable_account i by reason s u v e there at who why =
    let u' = record u {
      disabled_at = some (s.clock s.reads);
      disabled_by = some by;
      reason = some reason;
    } in
    let key = find_key i s.db.users u e in
    let marked : find i (put u' s.db.users) ≡ some u' = ground (arith, find-put i u' s.db.users) in
    let blank : record u { disabled_at = none; disabled_by = none; reason = none } ≡ u = cc in
    let at_key : find u.id s.db.users ≡ some u = ground arith in
    let back = ap (λ us. record s.db { users = us }) (put-put u' u s.db.users at_key refl) in
    rw e (rw there (rw marked (rw blank (refl, back, back))))
