-- ===== src/Catalog.antt =====
-- The catalog part of app/inventory/service.py: products, categories and locations, each with its
-- repository of app/inventory/repositories.
pub mod Products
pub mod Categories
pub mod Locations
pub mod Unique
pub mod Adding
pub mod Places
