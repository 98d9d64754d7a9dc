-- ===== src/Permission.antt =====
-- internal/toolpermission: a user's decisions on single calls of tools.
pub mod Trust
pub mod Requests
pub mod Scopes
pub mod Waiter
pub mod Choices
pub mod Decide
pub mod Issues
pub mod Paths
pub mod Marks
pub mod Final
pub mod Delivered
mod Examples
