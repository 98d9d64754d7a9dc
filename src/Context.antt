-- ===== src/Context.antt =====
-- internal/contextpack: token estimates and the packing of a provider's message view.
pub mod Message
pub mod Estimate
pub mod Bounds
pub mod Trim
pub mod Repair
pub mod Outstanding
pub mod Pairing
pub mod Pack
pub mod Passes
pub mod Split
pub mod Cuts
pub mod Budget
pub mod View
pub mod Segments
pub mod Users
pub mod Turns
mod Examples
