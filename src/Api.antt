-- ===== src/Api.antt =====
-- apps/api: the HTTP boundary.
pub mod ErrorMapper
