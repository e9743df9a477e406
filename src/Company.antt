-- ===== src/Company.antt =====
-- The stores behind the services, and the actions that work on them.
pub mod World
pub mod Consistent
pub mod Office
