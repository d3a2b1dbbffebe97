-- ===== src/Tests.antt =====
-- Runs of the model on concrete tables, and each theorem at one of them.
pub mod Fixtures
pub mod Claims
pub mod Runs
pub mod Sweeps
pub mod Outboxes
pub mod Texts
pub mod Ratings
pub mod Limits
pub mod Retention
pub mod Catalogue
pub mod Products
pub mod Pools
pub mod Boundary
