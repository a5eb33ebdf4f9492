-- ===== src/Tests.antt =====
-- Sample data, runs of the program on it, and each theorem with hypotheses at an input of its own.
mod Data
mod Stocks
mod Catalog
mod Orders
mod Books
mod Rbac
mod Routes
mod Auth
mod Users
mod Replenishment
mod Reports
mod Assistant
mod RateLimit
mod Worker
