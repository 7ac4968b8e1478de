-- ===== src/Agent.antt =====
-- build.rs: the build script, which finds the versions that the node's user agent names.
pub mod Toml
pub mod Text
pub mod Source
pub mod Search
pub mod Script
