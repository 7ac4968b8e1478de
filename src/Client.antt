-- ===== src/Client.antt =====
-- src/client/mod.rs and src/client/error.rs: the client that scans through a node.
pub mod Wallet
pub mod Types
pub mod Monad
pub use Types.*
pub mod Spks
pub mod Update
pub mod Forward
pub mod Scan
pub mod Run
pub mod Create
pub mod Handle
