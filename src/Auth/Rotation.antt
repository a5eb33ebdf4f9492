-- ===== src/Auth/Rotation.antt =====
-- The rotation of refresh tokens in `refresh_session` of app/auth/service.py.
use operations_management.Base.{
  ℕ, ◌+◌, ◌≡◌, refl, true, false, not, ◌&&◌, none, some, List, [], ◌∷◌, ◌++◌, arith, any, is_some,
  ltb, ◌==◌, Option-cases, Bool-cases, inl, inr, ◌⊎◌,
}
use operations_management.Text.{Text, text_eq, text_eq→eq, text_eq_refl}
use operations_management.Table.{find, first}
use operations_management.Table.Unique.{holder, IsUnique}
use operations_management.Errors.{Failure, Result, ok, err}
use operations_management.Session.{Session}
use operations_management.Auth.{
  Crypto, User, RefreshToken, Accounts, Outside, user_key, refresh_token_key, is_active, revoke_if,
  revoke, create_refresh_token, is_live, get_active, create_access_token, issue, rotate,
  refresh_session,
}

abbrev pub hash_of : RefreshToken → Text
hash_of t = t.token_hash

-- Where no row has a hash, none is live under it, also after others are revoked.
none_live :
    (h : Text) (i : ℕ) (ts : List RefreshToken)
    → holder hash_of h ts ≡ none
    → any
        (λ (t : RefreshToken). text_eq t.token_hash h && not t.is_revoked)
        (revoke_if (λ t. t.id == i) ts)
      ≡ false
none_live h i [] e = refl
none_live h i (t ∷ ts) e = ground (arith, none_live h i ts)

-- Where hashes are not shared, the live row of a hash is the only one.
revoked_live :
    (h : Text) (t : RefreshToken) (ts : List RefreshToken)
    → first (λ (x : RefreshToken). text_eq x.token_hash h && not x.is_revoked) ts ≡ some t
    → IsUnique hash_of ts
    → any
        (λ (x : RefreshToken). text_eq x.token_hash h && not x.is_revoked)
        (revoke_if (λ x. x.id == t.id) ts)
      ≡ false
revoked_live h t [] e u = refl
revoked_live h t (x ∷ xs) e u = elim (Bool-cases (text_eq x.token_hash h)) [
  | inr other ↦ ground (arith, revoked_live h t xs)
  | inl same ↦
      let unheld : holder hash_of h xs ≡ none = rw (text_eq→eq x.token_hash h same) at u.0 in
      ground (arith, none_live h t.id xs unheld)
]

still_held :
    (h : Text) (i : ℕ) (t : RefreshToken) (ts : List RefreshToken)
    → first (λ (x : RefreshToken). text_eq x.token_hash h && not x.is_revoked) ts ≡ some t
    → any (λ (x : RefreshToken). text_eq x.token_hash h) (revoke_if (λ x. x.id == i) ts) ≡ true
still_held h i t [] e = cc
still_held h i t (x ∷ xs) e = ground (arith, still_held h i t xs)

pub appended_found :
    (h : Text) (r : RefreshToken) (ts : List RefreshToken)
    → text_eq r.token_hash h ≡ true
    → r.is_revoked ≡ false
    → any (λ (x : RefreshToken). text_eq x.token_hash h) ts ≡ false
    → first (λ (x : RefreshToken). text_eq x.token_hash h && not x.is_revoked) (ts ++ r ∷ [])
      ≡ some r
appended_found h r [] e o n = ground arith
appended_found h r (x ∷ xs) e o n = ground (arith, appended_found h r xs)

appended_dead :
    (h : Text) (r : RefreshToken) (ts : List RefreshToken)
    → text_eq r.token_hash h ≡ false
    → any (λ (x : RefreshToken). text_eq x.token_hash h && not x.is_revoked) ts ≡ false
    → any (λ (x : RefreshToken). text_eq x.token_hash h && not x.is_revoked) (ts ++ r ∷ []) ≡ false
appended_dead h r [] e n = ground arith
appended_dead h r (x ∷ xs) e n = ground (arith, appended_dead h r xs)

module _ (crypto : Crypto) (token : Text) (s : Session Accounts Outside) where
  -- The old token is dead, and the new one is a live session of the same, active user.
  pub record Rotated (fresh : Text) (s' : Session Accounts Outside) : Type 0 where
    pub old : RefreshToken
    pub new : RefreshToken
    pub user : User
    pub was_active : get_active crypto token s.db ≡ some old
    pub found_user : find old.user_id s.db.users ≡ some user
    pub enabled : is_active user ≡ true
    pub dead : any (is_live crypto token) s'.db.refresh_tokens ≡ false
    pub live : get_active crypto fresh s'.db ≡ some new
    pub same_user : new.user_id ≡ old.user_id
    pub durable : s'.committed ≡ s'.db

  abbrev pub Rotates : Result (Text × Text) × Session Accounts Outside → Type 0
  Rotates (ok (access, fresh), s') = Rotated fresh s'
  Rotates (err e, s') = (s'.db ≡ s.db) ⊎ (e ≡ Failure.integrity_error)

  module _ (old : RefreshToken) (u : User) (e : get_active crypto token s.db ≡ some old)
      (there : find old.user_id s.db.users ≡ some u) (active : is_active u ≡ true)
      (unique : IsUnique hash_of s.db.refresh_tokens) (n : ℕ) where
    fresh_other :
        (h : Text)
        → any
            (λ (x : RefreshToken). text_eq x.token_hash h)
            (revoke_if (λ x. x.id == old.id) s.db.refresh_tokens)
          ≡ false
        → text_eq h (crypto.hash_token token) ≡ false
    fresh_other h unknown = elim (Bool-cases (text_eq h (crypto.hash_token token))) [
      | inr other ↦ other
      | inl same ↦
          let held = still_held (crypto.hash_token token) old.id old s.db.refresh_tokens e in
          let both = rw (← text_eq→eq h (crypto.hash_token token) same) at held in ground arith
    ]

    rotate-Rotates : Rotates (rotate crypto old u (record s { reads = n }))
    unfolding rotate revoke issue create_refresh_token create_access_token
    rotate-Rotates =
        let fresh = s.memory.secrets s.memory.drawn_secrets in
        let h = crypto.hash_token fresh in
        let rows = revoke_if (λ (x : RefreshToken). x.id == old.id) s.db.refresh_tokens in
        let r : RefreshToken = record {
          id = s.uuids s.drawn;
          token_hash = h;
          user_id = old.user_id;
          expires_at = s.clock n + crypto.refresh_life;
          is_revoked = false;
        } in
        elim (Bool-cases (is_some (find (s.uuids s.drawn) rows))) [
          | inl taken ↦ rw taken (inr refl)
          | inr unused ↦
              rw unused
                (elim (Bool-cases (any (λ (x : RefreshToken). text_eq x.token_hash h) rows)) [
                  | inl known ↦ rw known (inr refl)
                  | inr unknown ↦ rw unknown (record {
                    old = old;
                    new = r;
                    user = u;
                    was_active = e;
                    found_user = there;
                    enabled = active;
                    dead =
                        appended_dead (crypto.hash_token token) r rows (fresh_other h unknown)
                          (revoked_live (crypto.hash_token token) old s.db.refresh_tokens e unique);
                    live = appended_found h r rows (text_eq_refl h) refl unknown;
                    same_user = refl;
                    durable = refl;
                  })
                ])
        ]

  -- When no two refresh tokens share a hash, `refresh_session` replaces the live token of an active
  -- user by a new live token of the same user, durably, and the old token is dead; or it raises with
  -- the database as the session sees it unchanged, unless it is the database that refuses the new
  -- token.
  pub refresh_session-Rotates :
      IsUnique hash_of s.db.refresh_tokens → Rotates (refresh_session crypto token s)
  unfolding refresh_session
  refresh_session-Rotates unique = elim (Option-cases (get_active crypto token s.db)) [
    | inl e ↦ rw e (inl refl)
    | inr (old, e) ↦ rw e (elim (Bool-cases (ltb old.expires_at (s.clock s.reads))) [
      | inl late ↦ rw late (inl refl)
      | inr timely ↦ rw timely (elim (Option-cases (find old.user_id s.db.users)) [
        | inl absent ↦ rw absent (inl refl)
        | inr (u, there) ↦ rw there (elim (Bool-cases (is_active u)) [
          | inr disabled ↦ rw disabled (inl refl)
          | inl active ↦ rw active (rotate-Rotates old u e there active unique (s.reads + 1))
        ])
      ])
    ])
  ]
