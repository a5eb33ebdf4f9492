-- ===== src/Users/Fixed.antt =====
-- What `safe_data` of update_profile in app/users/service.py keeps a caller from setting.
use operations_management.Base.{◌≡◌, refl, List, [], ◌∷◌}
use operations_management.Auth.{user_key}
use operations_management.Users.{Draft, Field, set_fields, safe_data}

-- What a caller may set: the forbidden fields are kept.
pub record Fixed (d d' : Draft) : Type 0 where
  pub id : d'.id ≡ d.id
  pub disabled_at : d'.disabled_at ≡ d.disabled_at
  pub disabled_by : d'.disabled_by ≡ d.disabled_by
  pub reason : d'.reason ≡ d.reason

pub safe_data-Fixed : (fs : List Field) (d : Draft) → Fixed d (set_fields (safe_data fs) d)
safe_data-Fixed [] d = record { id = refl; disabled_at = refl; disabled_by = refl; reason = refl }
safe_data-Fixed (Field.email_field v ∷ fs) d =
    let f = safe_data-Fixed fs (record d { email = v }) in
    record {
      id = f.id;
      disabled_at = f.disabled_at;
      disabled_by = f.disabled_by;
      reason = f.reason;
    }
safe_data-Fixed (Field.username_field v ∷ fs) d =
    let f = safe_data-Fixed fs (record d { username = v }) in
    record {
      id = f.id;
      disabled_at = f.disabled_at;
      disabled_by = f.disabled_by;
      reason = f.reason;
    }
safe_data-Fixed (Field.password_field v ∷ fs) d =
    let f = safe_data-Fixed fs (record d { hashed_password = v }) in
    record {
      id = f.id;
      disabled_at = f.disabled_at;
      disabled_by = f.disabled_by;
      reason = f.reason;
    }
safe_data-Fixed (Field.unknown_field _ ∷ fs) d = safe_data-Fixed fs d
safe_data-Fixed (Field.id_field _ ∷ fs) d = safe_data-Fixed fs d
safe_data-Fixed (Field.disabled_at_field _ ∷ fs) d = safe_data-Fixed fs d
safe_data-Fixed (Field.disabled_by_field _ ∷ fs) d = safe_data-Fixed fs d
safe_data-Fixed (Field.reason_field _ ∷ fs) d = safe_data-Fixed fs d
safe_data-Fixed (Field.is_active_field ∷ fs) d = safe_data-Fixed fs d
safe_data-Fixed (Field.created_at_field ∷ fs) d = safe_data-Fixed fs d
safe_data-Fixed (Field.updated_at_field ∷ fs) d = safe_data-Fixed fs d
