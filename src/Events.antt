-- ===== src/Events.antt =====
-- internal/events: the append-only event store and the upcasting of old payloads.
pub mod Store
pub mod Order
pub mod Pages
pub mod Retry
pub mod Upcast
pub mod Chain
mod Examples
