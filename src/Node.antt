-- ===== src/Node.antt =====
-- src/node/mod.rs, src/node/error.rs and src/node/builder.rs (configuration): the node as a record,
-- its errors and actions, and its operations.
pub mod Backend
mod Types
pub mod Local
pub mod Network
pub mod Requests
pub mod Filters
pub mod Display
pub mod Overlap
pub mod Poll
pub mod Lifecycle
pub use Types.*
