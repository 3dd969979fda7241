-- ===== src/Tests.antt =====
-- Concrete runs of the program, at which the theorems are applied.
pub mod Data
pub mod Drains
pub mod Requests
pub mod Messages
pub mod Tasks
pub mod Texts
pub mod Runs
pub mod Senders
pub mod Spawning
pub mod Outputs
pub mod WebPage
pub mod Watcher
pub mod Disk
pub mod Agent
pub mod Startup
pub mod Operator
