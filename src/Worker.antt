-- ===== src/Worker.antt =====
-- app/worker/tasks: the job behind a low-stock alert, its recipients, and the hand-over of jobs to
-- the queue, which is another library's. Retries are the queue's too.
pub mod Recipients
use operations_management.Base.{
  ℕ, Bool, true, false, ◌&&◌, Option, none, some, List, [], ◌∷◌, map, ◌==◌, any, select, is_none,
  if◌then◌else◌,
}
use operations_management.Int.{ℤ, ◌-ℤ◌}
use operations_management.Text.{Text, text_eq}
use operations_management.Table.{find}
use operations_management.Errors.{Result, ok}
use operations_management.Session.{Service, pure}
use operations_management.Shop.{Shop, InventoryStock, stock_key}
use operations_management.Rbac.{Access, Permission, UserRole, RolePermission}
use operations_management.Auth.{User, Accounts, is_active}
use operations_management.Assistant.Tools.{StockRow, stock_row}

-- `"stock:alert"`
abbrev pub stock_alert : Text
stock_alert = b's' ∷ b't' ∷ b'o' ∷ b'c' ∷ b'k' ∷ b':' ∷ b'a' ∷ b'l' ∷ b'e' ∷ b'r' ∷ b't' ∷ []

-- The joins of `list_emails_with_permission`, from the permission back to the user.
abbrev pub is_permission : Text → RolePermission → Permission → Bool
is_permission code rp p = p.id == rp.permission_id && text_eq p.code code

abbrev pub carries : Text → Access → UserRole → RolePermission → Bool
carries code d ur rp = rp.role_id == ur.role_id && any (is_permission code rp) d.permissions

abbrev pub gives : Text → Access → ℕ → UserRole → Bool
gives code d user_id ur = ur.user_id == user_id && any (carries code d ur) d.role_permissions

abbrev pub is_recipient : Text → Access → User → Bool
is_recipient code d u = is_active u && any (gives code d u.id) d.user_roles

-- `.distinct()`
abbrev pub distinct : List Text → List Text
distinct [] = []
distinct (t ∷ ts) = let rest = distinct ts in if any (λ x. text_eq x t) rest then rest else t ∷ rest

unfoldable pub list_emails_with_permission : Text → Access → Accounts → List Text
list_emails_with_permission code access accounts =
    distinct (map (λ u. u.email) (select (is_recipient code access) accounts.users))

-- The arguments of `send_low_stock_email_job`.
pub record LowStockEmail : Type 0 where
  pub email : Text
  pub product_name : Option Text
  pub sku : Option Text
  pub location_name : Option Text
  pub available : ℤ
  pub reorder_point : ℤ

abbrev pub mail_to : StockRow → Text → LowStockEmail
mail_to row email = record {
  email = email;
  product_name = row.product_name;
  sku = row.sku;
  location_name = row.location_name;
  available = row.stock.quantity -ℤ row.stock.reserved_quantity;
  reorder_point = row.stock.reorder_point;
}

abbrev pub alert_for : Option InventoryStock → Shop → Access → Accounts → List LowStockEmail
alert_for none shop access accounts = []
alert_for (some st) shop access accounts =
    if is_none st.low_stock_alerted_at
    then []
    else map (mail_to (stock_row shop st)) (list_emails_with_permission stock_alert access accounts)

-- `low_stock_alert_job`: the mails that it hands over.
unfoldable pub low_stock_alert_job : ℕ → Shop → Access → Accounts → List LowStockEmail
low_stock_alert_job stock_id shop access accounts =
    alert_for (find stock_id shop.stocks) shop access accounts
