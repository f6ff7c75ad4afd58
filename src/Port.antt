-- ===== src/Port.antt =====
-- The port (port.c).
pub mod State
pub mod Roles
pub mod SyncFup
pub mod Foreign
