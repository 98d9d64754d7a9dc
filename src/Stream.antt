-- ===== src/Stream.antt =====
-- pkg/providerapi/provider.go and internal/modelstream: the events of a streamed answer, their
-- collection, and the hub that fans them out to clients.
pub mod Events
pub mod Emit
pub mod Collect
pub mod Hub
pub mod Batches
pub mod Moves
pub mod Coalesce
pub mod Flights
mod Examples
