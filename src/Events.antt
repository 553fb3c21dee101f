-- ===== src/Events.antt =====
-- libs/events: the dead letter queue and the event store.
pub mod Lock
pub mod DlqHandler
pub mod EventStore
