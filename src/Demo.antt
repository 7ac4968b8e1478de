-- ===== src/Demo.antt =====
-- examples/client_regtest.rs and examples/client_signet.rs: the two programs, and the tasks that
-- they run.
pub mod Consumer
pub mod Waiting
pub mod Lines
pub mod Program
pub mod Ending
pub mod Signet
pub mod Mining
pub mod Regtest
