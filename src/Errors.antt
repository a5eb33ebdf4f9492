-- ===== src/Errors.antt =====
-- app/common/errors.py and the exceptions of the app's parts, with the HTTP status
-- of each, and the exceptions of libraries that reach app/common/handlers.py.
use operations_management.Base.{ℕ}

pub data InventoryError : Type 0 where
  product_not_found product_name_is_required sku_is_required product_already_exists : InventoryError
  category_already_exists no_parameters_provide category_not_found : InventoryError
  category_name_is_required category_description_is_required : InventoryError
  location_name_is_required location_city_is_required location_address_is_required : InventoryError
  location_already_exists location_not_found location_has_stock invalid_location : InventoryError
  invalid_quantity_stock invalid_product_or_location stock_negative : InventoryError
  stock_not_found stock_already_exists insufficient_stock reservation_not_found : InventoryError
  invalid_reservation_status invalid_replenishment_policy : InventoryError

pub data OrderError : Type 0 where
  order_not_found invalid_order_status order_item_not_found invalid_quantity : OrderError
  order_code_generation_error : OrderError

pub data RbacError : Type 0 where
  role_not_found role_already_exists role_already_assigned_to_user user_role_not_found : RbacError
  permission_not_found permission_already_assigned role_permission_not_found : RbacError
  permission_denied : RbacError

pub data AuthError : Type 0 where
  invalid_credentials account_disabled token_expired token_invalid : AuthError

pub data UserError : Type 0 where
  user_not_found user_already_exists user_inactive : UserError

pub data AssistantError : Type 0 where
  assistant_unavailable assistant_timeout assistant_quota_exceeded : AssistantError

-- What a call may raise. `integrity_error` is the database's refusal of a row (a key that is taken,
-- or a reference to nothing), `value_error` and `type_error` are Python's,
-- `http` is FastAPI's `HTTPException` with its status.
pub data Failure : Type 0 where
  inventory : InventoryError → Failure
  order : OrderError → Failure
  rbac : RbacError → Failure
  auth : AuthError → Failure
  user : UserError → Failure
  assistant : AssistantError → Failure
  http : ℕ → Failure
  integrity_error value_error type_error : Failure

pub inventory_status : InventoryError → ℕ
inventory_status InventoryError.product_not_found = 404
inventory_status InventoryError.product_already_exists = 409
inventory_status InventoryError.category_already_exists = 409
inventory_status InventoryError.category_not_found = 404
inventory_status InventoryError.location_already_exists = 409
inventory_status InventoryError.location_not_found = 404
inventory_status InventoryError.location_has_stock = 409
inventory_status InventoryError.stock_not_found = 404
inventory_status InventoryError.stock_already_exists = 409
inventory_status InventoryError.insufficient_stock = 409
inventory_status InventoryError.reservation_not_found = 404
inventory_status InventoryError.invalid_reservation_status = 409
inventory_status _ = 400

pub order_status : OrderError → ℕ
order_status OrderError.order_not_found = 404
order_status OrderError.invalid_order_status = 409
order_status OrderError.order_item_not_found = 404
order_status OrderError.invalid_quantity = 422
order_status OrderError.order_code_generation_error = 500

pub rbac_status : RbacError → ℕ
rbac_status RbacError.role_not_found = 404
rbac_status RbacError.role_already_exists = 409
rbac_status RbacError.role_already_assigned_to_user = 409
rbac_status RbacError.user_role_not_found = 404
rbac_status RbacError.permission_not_found = 404
rbac_status RbacError.permission_already_assigned = 409
rbac_status RbacError.role_permission_not_found = 404
rbac_status RbacError.permission_denied = 403

pub auth_status : AuthError → ℕ
auth_status AuthError.account_disabled = 403
auth_status _ = 401

pub user_status : UserError → ℕ
user_status UserError.user_not_found = 404
user_status UserError.user_already_exists = 409
user_status UserError.user_inactive = 403

pub assistant_status : AssistantError → ℕ
assistant_status AssistantError.assistant_unavailable = 503
assistant_status AssistantError.assistant_timeout = 504
assistant_status AssistantError.assistant_quota_exceeded = 429

-- `app_error_handler` and `unhandled_exception_handler`: the status of the response.
unfoldable pub status_code : Failure → ℕ
unfolding inventory_status order_status rbac_status auth_status user_status assistant_status
status_code (Failure.inventory e) = inventory_status e
status_code (Failure.order e) = order_status e
status_code (Failure.rbac e) = rbac_status e
status_code (Failure.auth e) = auth_status e
status_code (Failure.user e) = user_status e
status_code (Failure.assistant e) = assistant_status e
status_code (Failure.http n) = n
status_code Failure.integrity_error = 500
status_code Failure.value_error = 500
status_code Failure.type_error = 500

pub data Result {ℓ} (A : Type ℓ) : Type ℓ where
  ok : A → Result A
  err : Failure → Result A
