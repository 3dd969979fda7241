-- ===== src/AgentTools.antt =====
-- agent_runner/tools.py: the tools that the model calls in the agent's process.
pub mod Search
pub mod Replacing
pub mod FileSystem
pub mod Files
pub mod Editing
pub mod Listing
pub mod Capped
pub mod Requests
pub mod Dispatch
pub mod Schema
pub mod Accords
pub mod Conforming
pub mod Workspace
