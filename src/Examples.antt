-- ===== src/Examples.antt =====
-- Runs of the model over small stand-ins for the other crates, and the theorems at concrete inputs.
mod Fixture
mod Machine
mod Requests
mod Scans
mod Lifetimes
mod Creation
mod Building
mod Agents
mod Writing
mod Serving
mod Programs
mod Mains
mod Mining
mod Interrupted
mod Farther
mod Gaps
