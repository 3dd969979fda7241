-- ===== src/Db.antt =====
-- secnano/db.py: the SQLite tables and the statements on them, one child for each table.
pub mod Table
pub mod Sort
pub mod Database
pub mod Chats
pub mod Messages
pub mod Tasks
pub mod Traces
pub mod Sessions
pub mod Groups
