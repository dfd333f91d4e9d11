-- ===== src/Events.antt =====
-- internal/events/hub.go: the hub that numbers the events of the relay, keeps the latest of them, and
-- passes them to its subscribers.
pub mod Cursor
pub mod Hub
