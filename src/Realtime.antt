-- ===== src/Realtime.antt =====
-- Package realtime: subscription management for server-sent events.
pub mod Hub
