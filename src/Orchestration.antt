-- ===== src/Orchestration.antt =====
-- secnano/runtime_orchestration.py: one agent run, for the messages of a group and for a
-- scheduled task. The runtime adapter is injected: what it does in a run is a list of events and
-- an outcome. A run gives the calls it makes, in their order; log lines are left out. The
-- database calls (`save_session`, `store_bot_message`, `record_agent_run`) are taken to succeed.
mod Calls
mod MessageRun
mod TaskRun
pub mod Prompt
pub mod Delivery
pub mod Tracking
pub mod Closing
unfoldable pub use Calls.*
unfoldable pub use MessageRun.*
unfoldable pub use TaskRun.*
