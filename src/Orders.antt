-- ===== src/Orders.antt =====
-- app/orders: the order and its items, its lookup code, its repository and its service.
pub mod Code
pub mod Repository
pub mod Lookup
pub mod Service
pub mod Creation
pub mod Transaction
pub mod Consistency
pub mod Alerts
pub mod Books
pub mod Untouched
pub mod Lifecycle
pub mod Transitions
