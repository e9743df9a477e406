-- ===== src/Realtime.antt =====
-- backend/src/realtime: the events that leave the services for the screen.
pub mod Schemas
pub mod Hub
