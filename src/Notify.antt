-- ===== src/Notify.antt =====
-- Package notify: the relay that carries server-sent events between API processes.
pub mod Publish
pub mod Poller
pub mod Start
pub mod Gc
pub mod Bus
