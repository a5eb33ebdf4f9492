-- ===== src/Auth/Requests/Replay.antt =====
-- A refresh token that has been used up, under the requests of app/auth/routers.py.
use operations_management.Base.{
  ℕ, ◌+◌, ◌≡◌, refl, inl, inr, List, [], ◌∷◌, any, ltb, Option-cases, Bool-cases,
}
use operations_management.Text.{Text, text_eq}
use operations_management.Table.{find}
use operations_management.Errors.{Failure, AuthError, Result, ok, err}
use operations_management.Session.{Session, close_session, get_session}
use operations_management.Session.Outcome.{Safe}
use operations_management.Auth.{
  Crypto, User, PasswordResetToken, reset_token_key, Accounts, Outside, user_key, refresh_token_key,
  is_active, get_by_email, invalidate, invalidate_all_for_user, create_reset_token, get_valid,
  get_active, create_access_token, issue, login, logout, refresh_session, forgot_password,
  set_password, reset_password, change_password,
}
use operations_management.Auth.Identity.{Decoded, get_current_user, get_current_user-Identifies}
use operations_management.Auth.Requests.{AuthRequest, perform, respond, respond_all}
use operations_management.Auth.Spent.{
  Spent, Keeps, then-Keeps, revoke-Keeps, revoke_all-Keeps, issue-Keeps, rotate-Keeps, no_session,
}

module _ (crypto : Crypto) (p : Text) where
  login-Keeps :
      (email password : Text) (s : Session Accounts Outside)
      → Safe (Spent crypto p) s
      → Keeps crypto p (login crypto email password s)
  unfolding login create_access_token
  login-Keeps email password s h = elim (Option-cases (get_by_email email s.db)) [
    | inl e ↦ rw e h
    | inr (u, e) ↦ rw e (elim (Bool-cases (crypto.verify_password password u.hashed_password)) [
      | inr wrong ↦ rw wrong h
      | inl right ↦ rw right (elim (Bool-cases (is_active u)) [
        | inr disabled ↦ rw disabled h
        | inl active ↦ rw active (
            then-Keeps crypto p (issue crypto u.id _) _ (issue-Keeps crypto p u.id _ h)
              (λ a s' k. k))
      ])
    ])
  ]

  refresh_session-Keeps :
      (token : Text) (s : Session Accounts Outside)
      → Safe (Spent crypto p) s
      → Keeps crypto p (refresh_session crypto token s)
  unfolding refresh_session
  refresh_session-Keeps token s h = elim (Option-cases (get_active crypto token s.db)) [
    | inl e ↦ rw e h
    | inr (t, e) ↦ rw e (elim (Bool-cases (ltb t.expires_at (s.clock s.reads))) [
      | inl expired ↦ rw expired h
      | inr fresh ↦ rw fresh (elim (Option-cases (find t.user_id s.db.users)) [
        | inl e' ↦ rw e' h
        | inr (u, e') ↦ rw e' (elim (Bool-cases (is_active u)) [
          | inr disabled ↦ rw disabled h
          | inl active ↦ rw active (rotate-Keeps crypto p t u _ h)
        ])
      ])
    ])
  ]

  logout-Keeps :
      (token : Text) (s : Session Accounts Outside)
      → Safe (Spent crypto p) s
      → Keeps crypto p (logout crypto token s)
  unfolding logout
  logout-Keeps token s h = elim (Option-cases (get_active crypto token s.db)) [
    | inl e ↦ rw e h
    | inr (t, e) ↦ rw e (revoke-Keeps crypto p t.id s h)
  ]

  create_reset-Keeps :
      (i : ℕ) (token : Text) (t : ℕ) (s : Session Accounts Outside)
      → Safe (Spent crypto p) s
      → Keeps crypto p (create_reset_token i token t s)
  unfolding create_reset_token
  create_reset-Keeps i token t s h =
      elim (Option-cases (find (s.uuids s.drawn) s.db.reset_tokens)) [
        | inr (x, e) ↦ rw e h
        | inl free ↦
            rw free
              (elim (Bool-cases
                (any (λ (x : PasswordResetToken). text_eq x.token token) s.db.reset_tokens)) [
                  | inl taken ↦ rw taken h
                  | inr new ↦ rw new (h.0, h.0)
                ])
      ]

  forgot_password-Keeps :
      (email : Text) (s : Session Accounts Outside)
      → Safe (Spent crypto p) s
      → Keeps crypto p (forgot_password email s)
  unfolding forgot_password invalidate_all_for_user
  forgot_password-Keeps email s h = elim (Option-cases (get_by_email email s.db)) [
    | inl e ↦ rw e h
    | inr (u, e) ↦ rw e (elim (Bool-cases (is_active u)) [
      | inr disabled ↦ rw disabled h
      | inl active ↦ rw active (
          then-Keeps crypto p (create_reset_token u.id _ _ _) _
            (create_reset-Keeps u.id _ _ _ (h.0, h.0)) (λ a s' k. k))
    ])
  ]

  set_password-Keeps :
      (u : User) (password : Text) (s : Session Accounts Outside)
      → Safe (Spent crypto p) s
      → Keeps crypto p (set_password crypto u password s)
  unfolding set_password
  set_password-Keeps u password s h = (h.0, h.0)

  reset_password-Keeps :
      (token password : Text) (s : Session Accounts Outside)
      → Safe (Spent crypto p) s
      → Keeps crypto p (reset_password crypto token password s)
  unfolding reset_password invalidate
  reset_password-Keeps token password s h =
      elim (Option-cases (get_valid token (s.clock s.reads) s.db)) [
        | inl e ↦ rw e h
        | inr (r, e) ↦ rw e (elim (Bool-cases (ltb r.expires_at (s.clock (s.reads + 1)))) [
          | inl expired ↦ rw expired h
          | inr fresh ↦ rw fresh (elim (Option-cases (find r.user_id s.db.users)) [
            | inl e' ↦ rw e' h
            | inr (u, e') ↦ rw e' (elim (Bool-cases (is_active u)) [
              | inr disabled ↦ rw disabled h
              | inl active ↦ rw active (
                  then-Keeps crypto p (set_password crypto u password _) _
                    (set_password-Keeps u password _ h)
                    (λ a s' k. revoke_all-Keeps crypto p r.user_id _ (k.0, k.0)))
            ])
          ])
        ])
      ]

  change_password-Keeps :
      (u : User) (old new : Text) (s : Session Accounts Outside)
      → Safe (Spent crypto p) s
      → Keeps crypto p (change_password crypto u old new s)
  unfolding change_password
  change_password-Keeps u old new s h =
      elim (Bool-cases (crypto.verify_password old u.hashed_password)) [
        | inr wrong ↦ rw wrong h
        | inl right ↦ rw right (
            then-Keeps crypto p (set_password crypto u new s) _ (set_password-Keeps u new s h)
              (λ a s' k. revoke_all-Keeps crypto p u.id s' k))
      ]

  module _ (decode : ℕ → Text → Decoded) where
    perform-Keeps :
        (r : AuthRequest) (s : Session Accounts Outside)
        → Safe (Spent crypto p) s
        → Keeps crypto p (perform crypto decode r s)
    perform-Keeps (AuthRequest.post_login email password) s h =
        then-Keeps crypto p (login crypto email password s) _ (login-Keeps email password s h)
          (λ a s' k. k)
    perform-Keeps (AuthRequest.post_refresh token) s h =
        then-Keeps crypto p (refresh_session crypto token s) _ (refresh_session-Keeps token s h)
          (λ a s' k. k)
    perform-Keeps (AuthRequest.post_logout token) s h = logout-Keeps token s h
    perform-Keeps (AuthRequest.post_forgot email) s h = forgot_password-Keeps email s h
    perform-Keeps (AuthRequest.post_reset token password) s h =
        reset_password-Keeps token password s h
    perform-Keeps (AuthRequest.post_change token old new) s h =
        let same = get_current_user-Identifies decode token s in
        then-Keeps crypto p (get_current_user decode token s) _ (rw same.1 h.0, rw same.2 h.1)
          (λ u s' k. change_password-Keeps u old new s' k)

    close_session-Keeps :
        {A : Type 0} (x : Result A × Session Accounts Outside)
        → Keeps crypto p x
        → Keeps crypto p (close_session x)
    close_session-Keeps (ok a, s) h = (h.0, h.0)
    close_session-Keeps (err e, s) h = (h.1, h.1)

    respond-Keeps :
        (r : AuthRequest) (s : Session Accounts Outside)
        → Safe (Spent crypto p) s
        → Keeps crypto p (respond crypto decode r s)
    unfolding respond get_session
    respond-Keeps r s h = close_session-Keeps (perform crypto decode r s) (perform-Keeps r s h)

    -- A refresh token that is spent, its hash held by a row and by no live one, stays spent through
    -- any list of auth requests, in the session and durably, whatever each of them answers; used
    -- after them it is refused with `TokenExpired`.
    pub respond_all-Spent :
        (rs : List AuthRequest) (s : Session Accounts Outside)
        → Safe (Spent crypto p) s
        → Safe (Spent crypto p) (respond_all crypto decode rs s)
          × ((refresh_session crypto p (respond_all crypto decode rs s)).0
              ≡ err (Failure.auth AuthError.token_expired))
    unfolding refresh_session
    respond_all-Spent [] s h = (h, rw (no_session crypto p s.db.refresh_tokens h.0.1) refl)
    respond_all-Spent (r ∷ rs) s h =
        respond_all-Spent rs (respond crypto decode r s).1 (respond-Keeps r s h)
