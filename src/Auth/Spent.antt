-- ===== src/Auth/Spent.antt =====
-- Refresh tokens that are used up: a later use of one finds no live row.
use operations_management.Base.{
  any-append, ◌==◌, ℕ, ◌≡◌, refl, inl, inr, Bool, true, false, not, ◌&&◌, none, List, [], ◌∷◌, ◌++◌,
  arith, any, Option-cases, Bool-cases,
}
use operations_management.Text.{Text, text_eq, text_eq→eq}
use operations_management.Table.{find, first}
use operations_management.Errors.{Result, ok, err}
use operations_management.Session.{Session, continue}
use operations_management.Session.Outcome.{Safe}
use operations_management.Auth.{
  Crypto, User, RefreshToken, reset_token_key, Accounts, Outside, user_key, refresh_token_key,
  revoke_if, revoke, revoke_all_for_user, create_refresh_token, is_live, create_access_token, issue,
  rotate,
}

module _ (crypto : Crypto) (p : Text) where
  -- A row holds the token's hash, and none holds it live.
  abbrev pub IsSpent : List RefreshToken → Type 0
  IsSpent ts =
      (any (λ (t : RefreshToken). text_eq t.token_hash (crypto.hash_token p)) ts ≡ true)
      × (any (is_live crypto p) ts ≡ false)

  abbrev pub Spent : Accounts → Type 0
  Spent d = IsSpent d.refresh_tokens

  revoke_if-IsSpent :
      (q : RefreshToken → Bool) (ts : List RefreshToken) → IsSpent ts → IsSpent (revoke_if q ts)
  revoke_if-IsSpent q ts h = (held ts h.0, dead ts h.1)
    where
      held :
          (ts : List RefreshToken)
          → any (λ (t : RefreshToken). text_eq t.token_hash (crypto.hash_token p)) ts ≡ true
          → any (λ (t : RefreshToken). text_eq t.token_hash (crypto.hash_token p)) (revoke_if q ts)
            ≡ true
      held [] e = e
      held (t ∷ ts) e = ground (arith, held ts)

      dead :
          (ts : List RefreshToken)
          → any (is_live crypto p) ts ≡ false
          → any (is_live crypto p) (revoke_if q ts) ≡ false
      dead [] e = e
      dead (t ∷ ts) e = ground (arith, dead ts)

  -- A hash that no row holds is not the token's.
  append-IsSpent :
      (r : RefreshToken) (ts : List RefreshToken)
      → any (λ (t : RefreshToken). text_eq t.token_hash r.token_hash) ts ≡ false
      → IsSpent ts
      → IsSpent (ts ++ r ∷ [])
  append-IsSpent r ts e h = elim (Bool-cases (text_eq r.token_hash (crypto.hash_token p))) [
    | inl same ↦
        let unheld : any (λ (t : RefreshToken). text_eq t.token_hash (crypto.hash_token p)) ts
            ≡ false =
          rw (text_eq→eq r.token_hash (crypto.hash_token p) same) at e in
        let absurd : ⊥ = cc in elim absurd [ ]
    | inr other ↦ (
      rw (any-append (λ (t : RefreshToken). text_eq t.token_hash (crypto.hash_token p)) ts (r ∷ []))
          (rw h.0 refl),
      rw (any-append (is_live crypto p) ts (r ∷ [])) (rw (h.1, other) refl),
    )
  ]

  -- A call that ends well or not keeps the token spent, durably.
  abbrev pub Keeps : {A : Type 0} → Result A × Session Accounts Outside → Type 0
  Keeps (r, s) = Safe Spent s

  -- A step and what follows.
  pub then-Keeps :
      {A B : Type 0} (x : Result A × Session Accounts Outside)
      (f : A → Session Accounts Outside → Result B × Session Accounts Outside)
      → Keeps x
      → ((a : A) (s : Session Accounts Outside) → Safe Spent s → Keeps (f a s))
      → Keeps (continue x.0 f x.1)
  then-Keeps (ok a, s) f h k = k a s h
  then-Keeps (err e, s) f h k = h

  pub revoke-Keeps : (i : ℕ) (s : Session Accounts Outside) → Safe Spent s → Keeps (revoke i s)
  unfolding revoke
  revoke-Keeps i s h =
      let now = revoke_if-IsSpent (λ t. t.id == i) s.db.refresh_tokens h.0 in (now, now)

  pub revoke_all-Keeps :
      (i : ℕ) (s : Session Accounts Outside) → Safe Spent s → Keeps (revoke_all_for_user i s)
  unfolding revoke_all_for_user
  revoke_all-Keeps i s h =
      let now =
        revoke_if-IsSpent (λ t. t.user_id == i && not t.is_revoked) s.db.refresh_tokens h.0 in
      (now, now)

  pub create-Keeps :
      (i : ℕ) (token : Text) (t : ℕ) (s : Session Accounts Outside)
      → Safe Spent s
      → Keeps (create_refresh_token crypto i token t s)
  unfolding create_refresh_token
  create-Keeps i token t s h = elim (Option-cases (find (s.uuids s.drawn) s.db.refresh_tokens)) [
    | inr (x, e) ↦ rw e h
    | inl free ↦
        rw free
          (elim (Bool-cases (
            any (λ (x : RefreshToken). text_eq x.token_hash (crypto.hash_token token))
              s.db.refresh_tokens)) [
                | inl taken ↦ rw taken h
                | inr new ↦
                    let now =
                      append-IsSpent
                        (record {
                          id = s.uuids s.drawn;
                          token_hash = crypto.hash_token token;
                          user_id = i;
                          expires_at = t;
                          is_revoked = false;
                        })
                        s.db.refresh_tokens new h.0 in
                    rw new (now, now)
              ])
  ]

  pub issue-Keeps : (i : ℕ) (s : Session Accounts Outside) → Safe Spent s → Keeps (issue crypto i s)
  unfolding issue
  issue-Keeps i s h =
      then-Keeps (create_refresh_token crypto i _ _ _) _ (create-Keeps i _ _ _ h) (λ a s' k. k)

  pub rotate-Keeps :
      (t : RefreshToken) (u : User) (s : Session Accounts Outside)
      → Safe Spent s
      → Keeps (rotate crypto t u s)
  unfolding rotate create_access_token
  rotate-Keeps t u s h = then-Keeps (revoke t.id s) _ (revoke-Keeps t.id s h) (λ _ s' k.
      then-Keeps (issue crypto t.user_id s') _ (issue-Keeps t.user_id s' k) (λ a s'' k'. k'))

  -- A token that is spent opens nothing.
  pub no_session :
      (ts : List RefreshToken)
      → any (is_live crypto p) ts ≡ false
      → first (is_live crypto p) ts ≡ none
  no_session [] e = refl
  no_session (t ∷ ts) e = ground (arith, no_session ts)
