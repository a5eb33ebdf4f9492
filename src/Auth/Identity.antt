-- ===== src/Auth/Identity.antt =====
-- app/auth/dependencies.py and the reading of access tokens in app/infra/security/tokens.py: who a
-- request comes from. `jwt.decode` is a parameter.
use operations_management.Base.{
  ℕ, ◌≡◌, refl, ap, ◌∙◌, true, false, not, Bool, Option, none, some, [], ◌∷◌, Option-cases,
  Bool-cases, inl, inr, ◌⊎◌,
}
use operations_management.Text.{Text, text_eq}
use operations_management.Table.{find}
use operations_management.Errors.{Failure, AuthError, Result, ok, err}
use operations_management.Session.{Session, pure, raise, gets, raise_if, or_raise, now, ◌>>=◌, ◌>>◌}
use operations_management.Auth.{User, Accounts, Outside, AuthAction, user_key, refused, is_active}

-- The claims that the program reads: `type`, and `sub`, which may be missing or no uuid.
pub record Claims : Type 0 where
  pub token_type : Option Text
  pub sub : Option (Option ℕ)

-- What `jwt.decode` makes of a token at a time: its claims, `ExpiredSignatureError`, or another
-- `PyJWTError`.
pub data Decoded : Type 0 where
  claims : Claims → Decoded
  expired_signature py_jwt_error : Decoded

-- `"access"`
abbrev pub access_type : Text
access_type = b'a' ∷ b'c' ∷ b'c' ∷ b'e' ∷ b's' ∷ b's' ∷ []

abbrev pub is_access : Option Text → Bool
is_access none = false
is_access (some t) = text_eq t access_type

module _ (decode : ℕ → Text → Decoded) where
  abbrev pub payload_of : Decoded → AuthAction Claims
  payload_of (Decoded.claims c) = pure c
  payload_of Decoded.expired_signature = raise (refused AuthError.token_expired)
  payload_of Decoded.py_jwt_error = raise (refused AuthError.token_invalid)

  unfoldable pub decode_token : Text → AuthAction Claims
  decode_token token = do t ← now; payload_of (decode t token)

  unfoldable pub verify_access_token : Text → AuthAction Claims
  verify_access_token token = do
    payload ← decode_token token
    raise_if (not (is_access payload.token_type)) (refused AuthError.token_invalid)
    pure payload

  abbrev pub unauthorized : Failure
  unauthorized = Failure.http 401

  -- `except (TokenInvalid, TokenExpired): raise HTTPException(401)`
  abbrev pub hide_token_error :
      Result Claims × Session Accounts Outside → Result Claims × Session Accounts Outside
  hide_token_error (err (Failure.auth AuthError.token_invalid), s) = (err unauthorized, s)
  hide_token_error (err (Failure.auth AuthError.token_expired), s) = (err unauthorized, s)
  hide_token_error (r, s) = (r, s)

  abbrev pub payload_or_unauthorized : Text → AuthAction Claims
  payload_or_unauthorized token s = hide_token_error (verify_access_token token s)

  unfoldable pub get_current_user : Text → AuthAction User
  get_current_user token = do
    payload ← payload_or_unauthorized token
    subject ← or_raise payload.sub unauthorized
    user_uuid ← or_raise subject unauthorized
    found ← gets (λ d. find user_uuid d.users)
    u ← or_raise found unauthorized
    raise_if (not (is_active u)) (refused AuthError.account_disabled)
    pure u

  module _ (token : Text) (s : Session Accounts Outside) where
    -- The user whom a token speaks for.
    pub record Speaks (u : User) : Type 0 where
      pub payload : Claims
      pub decoded : decode (s.clock s.reads) token ≡ Decoded.claims payload
      pub is_access_token : is_access payload.token_type ≡ true
      pub user_id : ℕ
      pub subject : payload.sub ≡ some (some user_id)
      pub found : find user_id s.db.users ≡ some u

    -- A token speaks for one user.
    pub Speaks-unique : (u v : User) → Speaks u → Speaks v → u ≡ v
    Speaks-unique u v a b = cc

    abbrev pub Answer : Result User → Type 0
    Answer (ok u) = Speaks u × (is_active u ≡ true)
    Answer (err (Failure.http n)) = (n ≡ 401) × ((u : User) → Speaks u → ⊥)
    Answer (err (Failure.auth AuthError.account_disabled)) =
        (u : User) × Speaks u × (is_active u ≡ false)
    Answer (err _) = ⊥

    -- What a request may be answered, and that nothing is written.
    abbrev pub Identifies : Result User × Session Accounts Outside → Type 0
    Identifies (r, s') = Answer r × (s'.db ≡ s.db) × (s'.committed ≡ s.committed)

    -- The reasons why a decoded token speaks for nobody.
    not_spoken :
        (c : Claims)
        → decode (s.clock s.reads) token ≡ Decoded.claims c
        → (u : User) → Speaks u
        → (is_access c.token_type ≡ false)
          ⊎ ((c.sub ≡ none)
              ⊎ ((c.sub ≡ some none)
                  ⊎ ((i : ℕ) × (c.sub ≡ some (some i)) × (find i s.db.users ≡ none))))
        → ⊥
    not_spoken c e u sp (inl h) = let d = sp.decoded in let a = sp.is_access_token in cc
    not_spoken c e u sp (inr (inl h)) = let d = sp.decoded in let a = sp.subject in cc
    not_spoken c e u sp (inr (inr (inl h))) = let d = sp.decoded in let a = sp.subject in cc
    not_spoken c e u sp (inr (inr (inr (i, h, k)))) =
        let d = sp.decoded in let a = sp.subject in let f = sp.found in cc

    identify :
        (d : Decoded) → decode (s.clock s.reads) token ≡ d → Identifies (get_current_user token s)
    unfolding get_current_user verify_access_token decode_token
    identify Decoded.expired_signature e =
        rw e ((refl, λ u sp. let d = sp.decoded in cc), refl, refl)
    identify Decoded.py_jwt_error e = rw e ((refl, λ u sp. let d = sp.decoded in cc), refl, refl)
    identify (Decoded.claims c) e = rw e (elim (Bool-cases (is_access c.token_type)) [
      | inr other ↦ rw other ((refl, λ u sp. not_spoken c e u sp (inl other)), refl, refl)
      | inl access ↦ rw access (elim (Option-cases c.sub) [
        | inl missing ↦
            rw missing ((refl, λ u sp. not_spoken c e u sp (inr (inl missing))), refl, refl)
        | inr (subject, given) ↦ rw given (elim (Option-cases subject) [
          | inl no_uuid ↦ rw no_uuid (
            (refl, λ u sp. not_spoken c e u sp (inr (inr (inl (given ∙ ap some no_uuid))))),
            refl,
            refl,
          )
          | inr (i, uuid) ↦ rw uuid (elim (Option-cases (find i s.db.users)) [
            | inl absent ↦ rw absent (
              (
                refl,
                λ u sp. not_spoken c e u sp (inr (inr (inr (i, given ∙ ap some uuid, absent)))),
              ),
              refl,
              refl,
            )
            | inr (u, there) ↦
                let speaks : Speaks u = record {
                  payload = c;
                  decoded = e;
                  is_access_token = access;
                  user_id = i;
                  subject = given ∙ ap some uuid;
                  found = there;
                } in
                rw there (elim (Bool-cases (is_active u)) [
                  | inr disabled ↦ rw disabled ((u, speaks, disabled), refl, refl)
                  | inl active ↦ rw active ((speaks, active), refl, refl)
                ])
          ])
        ])
      ])
    ])

    -- `get_current_user` lets a request through only as the stored, active user named by the subject
    -- of a decoded access token; it refuses with 401 when the token speaks for no stored user, with
    -- `AccountDisabled` when that user is disabled, and with nothing else. It writes nothing.
    pub get_current_user-Identifies : Identifies (get_current_user token s)
    get_current_user-Identifies = identify (decode (s.clock s.reads) token) refl
