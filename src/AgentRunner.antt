-- ===== src/AgentRunner.antt =====
-- agent_runner/main.py: the agent's process.
pub mod Session
pub mod Loop
pub mod Alternation
pub mod Requests
pub mod Waiting
pub mod Polls
pub mod Environment
pub mod Outputs
