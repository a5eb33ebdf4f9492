-- ===== src/Tests/Worker.antt =====
-- A low-stock alert with one recipient.
use operations_management.Base.{◌≡◌, refl, some, none, [], ◌∷◌}
use operations_management.Int.{◌-ℤ◌, pos}
use operations_management.Shop.{Shop}
use operations_management.Rbac.{Access}
use operations_management.Worker.{stock_alert, low_stock_alert_job, list_emails_with_permission}
use operations_management.Worker.Recipients.{Notifies, low_stock_alert_job-Notifies}
use operations_management.Tests.Data.{shop, row}
use operations_management.Tests.Auth.{accounts}

-- User 1 may get alerts, through both of the roles.
abbrev access : Access
access = record {
  users = 1 ∷ [];
  roles =
      record { id = 3; name = b'a' ∷ []; description = none }
      ∷ record { id = 4; name = b'e' ∷ []; description = none }
      ∷ [];
  permissions = record { id = 5; code = stock_alert; name = stock_alert } ∷ [];
  user_roles = record { user_id = 1; role_id = 3 } ∷ record { user_id = 1; role_id = 4 } ∷ [];
  role_permissions =
      record { role_id = 3; permission_id = 5 } ∷ record { role_id = 4; permission_id = 5 } ∷ [];
}

abbrev low_shop : Shop
low_shop = record shop { stocks = record row { low_stock_alerted_at = some 40 } ∷ [] }

low_stock_alert_job-Notifies_example :
    Notifies 3 low_shop access accounts (low_stock_alert_job 3 low_shop access accounts)
low_stock_alert_job-Notifies_example =
    low_stock_alert_job-Notifies 3 low_shop access accounts (refl, (refl, tt))

mails_alice :
    low_stock_alert_job 3 low_shop access accounts
    ≡ record {
      email = b'a' ∷ [];
      product_name = some (b'w' ∷ []);
      sku = some (b'W' ∷ []);
      location_name = some (b'd' ∷ []);
      available = pos 6;
      reorder_point = pos 5;
    }
      ∷ []
unfolding low_stock_alert_job list_emails_with_permission ◌-ℤ◌
mails_alice = refl
