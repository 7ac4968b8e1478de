-- ===== src/Builder.antt =====
-- src/node/builder.rs and src/logger.rs: the configuration of a node and of its logger, and how a
-- node is built.
pub mod Platform
mod Types
unfoldable pub use Types.*
pub mod Logging
pub mod Configuration
pub mod Build
