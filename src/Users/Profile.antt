-- ===== src/Users/Profile.antt =====
-- What `update_profile` of app/users/service.py changes.
use operations_management.Base.{
  ◌==◌, ℕ, ◌≡◌, refl, false, some, List, [], ◌∷◌, arith, inl, inr, Option-cases, Bool-cases,
}
use operations_management.Table.{find}
use operations_management.Errors.{Failure, UserError, Result, ok, err}
use operations_management.Session.{Session, roll_back_refused}
use operations_management.Auth.{User, Accounts, Outside, user_key, get_by_email}
use operations_management.Users.{
  update_row, Field, get_by_username, is_another, flush_user, set_fields, draft_of, update_columns,
  update_safe, safe_data, update_profile,
}
use operations_management.Users.Fixed.{Fixed, safe_data-Fixed}

-- The row of the caller has kept what a caller may not set, and nothing else has changed.
pub record Touches (u u' : User) (s s' : Session Accounts Outside) : Type 0 where
  pub key : u'.id ≡ u.id
  pub disabled_at : u'.disabled_at ≡ u.disabled_at
  pub disabled_by : u'.disabled_by ≡ u.disabled_by
  pub reason : u'.reason ≡ u.reason
  pub roles : u'.role_names ≡ u.role_names
  pub stored : find u.id s'.db.users ≡ some u'
  pub others : (i : ℕ) → (u.id == i) ≡ false → find i s'.db.users ≡ find i s.db.users
  pub refresh_tokens : s'.db.refresh_tokens ≡ s.db.refresh_tokens
  pub reset_tokens : s'.db.reset_tokens ≡ s.db.reset_tokens

-- How an update may end.
abbrev pub Edits : User → Session Accounts Outside → Result User × Session Accounts Outside → Type 0
Edits u s (ok u', s') = Touches u u' s s'
Edits u s (err e, s') =
    (e ≡ Failure.user UserError.user_already_exists)
    × (s'.db ≡ s.committed)
    × (s'.committed ≡ s.committed)

-- The row is found where it was, under the key it keeps.
find-update_row :
    (i : ℕ) (u' x : User) (us : List User)
    → find i us ≡ some x
    → u'.id ≡ i
    → find i (update_row i u' us) ≡ some u'
find-update_row i u' x [] e key = ground arith
find-update_row i u' x (y ∷ us) e key = elim (Bool-cases (y.id == i)) [
  | inl same ↦ rw same (ground arith)
  | inr other ↦ rw other (rw other (find-update_row i u' x us (ground arith) key))
]

-- Rows under other keys are as they were.
find_other-update_row :
    (i j : ℕ) (u' : User) (us : List User)
    → u'.id ≡ i
    → (i == j) ≡ false
    → find j (update_row i u' us) ≡ find j us
find_other-update_row i j u' [] key other = refl
find_other-update_row i j u' (y ∷ us) key other = elim (Bool-cases (y.id == i)) [
  | inl same ↦ rw same (ground arith)
  | inr unlike ↦ rw unlike (rw (find_other-update_row i j u' us key other) refl)
]

module _ (u : User) (s : Session Accounts Outside) (there : find u.id s.db.users ≡ some u) where
  flush_user-Edits :
      (u' : User)
      → u'.id ≡ u.id
      → u'.disabled_at ≡ u.disabled_at
      → u'.disabled_by ≡ u.disabled_by
      → u'.reason ≡ u.reason
      → u'.role_names ≡ u.role_names
      → Edits u s
          (roll_back_refused (Failure.user UserError.user_already_exists) (flush_user u.id u' s))
  flush_user-Edits u' key at by reason roles =
      let kept : is_another u.id (find u'.id s.db.users) ≡ false = rw (key, there) (ground arith) in
      rw kept (elim (Bool-cases (is_another u.id (get_by_email u'.email s.db))) [
        | inl taken ↦ rw taken (refl, refl, refl)
        | inr free ↦
            rw free (elim (Bool-cases (is_another u.id (get_by_username u'.username s.db))) [
              | inl taken ↦ rw taken (refl, refl, refl)
              | inr unused ↦ rw unused (record {
                key = key;
                disabled_at = at;
                disabled_by = by;
                reason = reason;
                roles = roles;
                stored = find-update_row u.id u' u s.db.users there key;
                others = λ i other. find_other-update_row u.id i u' s.db.users key other;
                refresh_tokens = refl;
                reset_tokens = refl;
              })
            ])
      ])

  update_columns-Edits :
      (fs : List Field)
      → Fixed (draft_of u) (set_fields fs (draft_of u))
      → Edits u s
          (roll_back_refused (Failure.user UserError.user_already_exists) (update_columns u fs s))
  unfolding update_columns
  update_columns-Edits fs fixed =
      let d = set_fields fs (draft_of u) in
      rw fixed.id (elim (Option-cases d.email) [
        | inl no_mail ↦ rw no_mail (refl, refl, refl)
        | inr (mail, m) ↦ rw m (elim (Option-cases d.username) [
          | inl no_name ↦ rw no_name (refl, refl, refl)
          | inr (name, n) ↦ rw n (elim (Option-cases d.hashed_password) [
            | inl no_password ↦ rw no_password (refl, refl, refl)
            | inr (password, p) ↦ rw p (
                flush_user-Edits
                  (record u {
                    email = mail;
                    username = name;
                    hashed_password = password;
                    disabled_at = d.disabled_at;
                    disabled_by = d.disabled_by;
                    reason = d.reason;
                  })
                  refl fixed.disabled_at fixed.disabled_by fixed.reason refl)
          ])
        ])
      ])

  update_safe-Edits :
      (gs : List Field)
      → Fixed (draft_of u) (set_fields gs (draft_of u))
      → Edits u s (update_safe u gs s)
  update_safe-Edits [] fixed = record {
    key = refl;
    disabled_at = refl;
    disabled_by = refl;
    reason = refl;
    roles = refl;
    stored = there;
    others = λ i other. refl;
    refresh_tokens = refl;
    reset_tokens = refl;
  }
  update_safe-Edits (g ∷ gs) fixed = update_columns-Edits (g ∷ gs) fixed

  -- When the row of the caller is stored, `update_profile` changes at most the mail address, the name
  -- and the stored password of that row, whatever fields the request names: the key, what marks the
  -- account as disabled, the roles, the other rows and the tokens stay. Or it raises
  -- UserAlreadyExists, and the session holds what is durable again, which has not changed.
  pub update_profile-Edits : (data_items : List Field) → Edits u s (update_profile u data_items s)
  unfolding update_profile
  update_profile-Edits data_items =
      update_safe-Edits (safe_data data_items) (safe_data-Fixed data_items (draft_of u))
