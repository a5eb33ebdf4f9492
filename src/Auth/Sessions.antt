-- ===== src/Auth/Sessions.antt =====
-- New passwords and the sessions that are open: `reset_password` and `change_password` of
-- app/auth/service.py.
use operations_management.Base.{
  none, IsIn, ◌⊎◌, ◌<◌, [], ℕ, ◌+◌, ◌≡◌, refl, true, false, not, ◌&&◌, some, List, [], ◌∷◌, arith,
  any, ltb, ◌==◌, Option-cases, Bool-cases, inl, inr,
}
use operations_management.Text.{Text, text_eq, text_eq→eq, text_eq_refl}
use operations_management.Table.{find, first, put}
use operations_management.Table.Laws.{find-put, find_key, first_holds, first-IsIn}
use operations_management.Errors.{Failure, AuthError, Result, ok, err}
use operations_management.Session.{Session}
use operations_management.Auth.{
  Crypto, User, RefreshToken, PasswordResetToken, Accounts, Outside, user_key, refresh_token_key,
  reset_token_key, is_active, revoke_if, use_if, revoke_all_for_user, invalidate, get_valid,
  set_password, reset_password, change_password,
}

-- The user has no session left.
abbrev pub IsLoggedOut : ℕ → Accounts → Type 0
IsLoggedOut u d =
    any (λ (t : RefreshToken). t.user_id == u && not t.is_revoked) d.refresh_tokens ≡ false

-- The reset token opens nothing any more.
abbrev pub IsUsedUp : Text → Accounts → Type 0
IsUsedUp token d =
    any (λ (r : PasswordResetToken). text_eq r.token token && not r.used) d.reset_tokens ≡ false

all_revoked :
    (u : ℕ) (ts : List RefreshToken)
    → any
        (λ (t : RefreshToken). t.user_id == u && not t.is_revoked)
        (revoke_if (λ t. t.user_id == u && not t.is_revoked) ts)
      ≡ false
all_revoked u [] = refl
all_revoked u (t ∷ ts) = ground (arith, all_revoked u ts)

all_used :
    (token : Text) (rs : List PasswordResetToken)
    → any
        (λ (r : PasswordResetToken). text_eq r.token token && not r.used)
        (use_if (λ r. text_eq r.token token) rs)
      ≡ false
all_used token [] = refl
all_used token (r ∷ rs) = ground (arith, all_used token rs)

-- The stored password of the user is the new one, durably, and the user is logged out everywhere.
pub record HasPassword (crypto : Crypto) (u : ℕ) (password : Text) (s : Session Accounts Outside)
    : Type 0 where
  pub stored : User
  pub found : find u s.db.users ≡ some stored
  pub verifies : crypto.verify_password password stored.hashed_password ≡ true
  pub logged_out : IsLoggedOut u s.db
  pub durable : s.committed ≡ s.db

module _ (crypto : Crypto)
    (right : (k : ℕ) (password : Text)
      → crypto.verify_password password (crypto.hash_password k password) ≡ true)
    (s : Session Accounts Outside) where
  -- How a change may end.
  abbrev pub Changes : User → Text → Text → Result (Unit {0}) × Session Accounts Outside → Type 0
  Changes u old new (ok _, s') = HasPassword crypto u.id new s'
  Changes u old new (err e, s') =
      (e ≡ Failure.auth AuthError.invalid_credentials)
      × (crypto.verify_password old u.hashed_password ≡ false)
      × (s' ≡ s)

  -- When hashing and checking fit together and the user is stored, `change_password` makes the new
  -- password the one that logs in, durably, and revokes every refresh token of the user; or the old
  -- password is wrong, and it raises `InvalidCredentials` with nothing changed.
  pub change_password-Changes :
      (u : User) (old new : Text)
      → find u.id s.db.users ≡ some u
      → Changes u old new (change_password crypto u old new s)
  unfolding change_password set_password revoke_all_for_user
  change_password-Changes u old new e =
      let k = s.memory.salts s.memory.drawn_salts in
      let u' = record u { hashed_password = crypto.hash_password k new } in
      elim (Bool-cases (crypto.verify_password old u.hashed_password)) [
        | inr wrong ↦ rw wrong (refl, wrong, refl)
        | inl matches ↦ rw matches (record {
          stored = u';
          found = ground (arith, find-put u.id u' s.db.users);
          verifies = right k new;
          logged_out = all_revoked u.id s.db.refresh_tokens;
          durable = refl;
        })
      ]

  -- A stored reset token that is the text, is not used, and has not expired at `t`.
  abbrev pub Opens : Text → ℕ → PasswordResetToken → Type 0
  Opens token t r =
      IsIn r s.db.reset_tokens × (r.token ≡ token) × (r.used ≡ false) × (t < r.expires_at)

  -- Why a reset is refused: no reset token opens, or the first that does expires between two looks
  -- at the clock, or has no active user.
  abbrev pub IsShut : Text → Type 0
  IsShut token =
      ((r : PasswordResetToken) → Opens token (s.clock s.reads) r → ⊥)
      ⊎ ((r : PasswordResetToken) × Opens token (s.clock s.reads) r
          × ((r.expires_at < s.clock (s.reads + 1))
              ⊎ ((find r.user_id s.db.users ≡ none)
                  ⊎ ((u : User) × (find r.user_id s.db.users ≡ some u) × (is_active u ≡ false)))))

  abbrev pub Resets : Text → Text → Result (Unit {0}) × Session Accounts Outside → Type 0
  Resets token new (ok _, s') =
      (r : PasswordResetToken) × Opens token (s.clock s.reads) r
      × ((u : User) × (find r.user_id s.db.users ≡ some u) × (is_active u ≡ true))
      × HasPassword crypto r.user_id new s'
      × IsUsedUp token s'.db
  Resets token new (err e, s') = IsShut token × (s'.db ≡ s.db) × (s'.committed ≡ s.committed)

  valid-Opens :
      (token : Text) (r : PasswordResetToken)
      → get_valid token (s.clock s.reads) s.db ≡ some r
      → Opens token (s.clock s.reads) r
  valid-Opens token r e =
      let t = s.clock s.reads in
      let valid =
        first_holds
          (λ (x : PasswordResetToken). text_eq x.token token && not x.used && ltb t x.expires_at)
          s.db.reset_tokens r e in
      (
        first-IsIn _ s.db.reset_tokens r e,
        text_eq→eq r.token token (ground arith),
        ground arith,
        ground arith,
      )

  none_opens :
      (token : Text) (t : ℕ) (rs : List PasswordResetToken) (r : PasswordResetToken)
      → first
          (λ (x : PasswordResetToken). text_eq x.token token && not x.used && ltb t x.expires_at)
          rs
        ≡ none
      → IsIn r rs
      → r.token ≡ token
      → r.used ≡ false
      → t < r.expires_at
      → ⊥
  none_opens token t [] r e i same fresh before = elim i [ ]
  none_opens token t (x ∷ xs) r e (inl here) same fresh before =
      let itself : text_eq x.token token ≡ true = rw (here, same) (text_eq_refl token) in
      let unused : x.used ≡ false = rw here fresh in
      let later : t < x.expires_at = rw here before in ground arith
  none_opens token t (x ∷ xs) r e (inr i) same fresh before =
      none_opens token t xs r (ground arith) i same fresh before

  finish_reset :
      (i : ℕ) (u : User) (new : Text) (k : ℕ)
      → find i s.db.users ≡ some u
      → find i (put (record u { hashed_password = crypto.hash_password k new }) s.db.users)
        ≡ some (record u { hashed_password = crypto.hash_password k new })
  finish_reset i u new k e = ground (
    arith,
    find_key i s.db.users u e,
    find-put i (record u { hashed_password = crypto.hash_password k new }) s.db.users,
  )

  -- When hashing and checking fit together, `reset_password` makes the new password the one that logs
  -- in for the active user of a stored reset token of that text, unused and not expired, durably,
  -- revokes every refresh token of that user and uses the reset token up. Or it raises with nothing
  -- changed, and there is no such token, or the one found expires meanwhile or has no active user.
  pub reset_password-Resets :
      (token new : Text) → Resets token new (reset_password crypto token new s)
  unfolding reset_password set_password invalidate revoke_all_for_user
  reset_password-Resets token new =
      let k = s.memory.salts s.memory.drawn_salts in
      elim (Option-cases (get_valid token (s.clock s.reads) s.db)) [
        | inl e ↦
            rw (e, Resets)
              (
                inl (λ r o.
                    none_opens token (s.clock s.reads) s.db.reset_tokens r e o.0 o.1 o.2 o.3),
                refl,
                refl,
              )
        | inr (r, e) ↦
            let opens = valid-Opens token r e in
            rw e (elim (Bool-cases (ltb r.expires_at (s.clock (s.reads + 1)))) [
              | inl late ↦ rw late (inr (r, opens, inl (ground arith)), refl, refl)
              | inr timely ↦ rw timely (elim (Option-cases (find r.user_id s.db.users)) [
                | inl absent ↦ rw absent (inr (r, opens, inr (inl absent)), refl, refl)
                | inr (u, there) ↦ rw there (elim (Bool-cases (is_active u)) [
                  | inr disabled ↦
                      rw disabled (inr (r, opens, inr (inr (u, there, disabled))), refl, refl)
                  | inl active ↦ rw active (
                    r,
                    opens,
                    (u, there, active),
                    record {
                      stored = record u { hashed_password = crypto.hash_password k new };
                      found = finish_reset r.user_id u new k there;
                      verifies = right k new;
                      logged_out = all_revoked r.user_id s.db.refresh_tokens;
                      durable = refl;
                    },
                    all_used token s.db.reset_tokens,
                  )
                ])
              ])
            ])
      ]
