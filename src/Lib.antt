-- ===== src/Lib.antt =====
-- secnano runs agents for groups of chat users: channels hand in messages, a host process stores
-- them, queues one run at a time for each group, starts the agent and sends its replies back.
--
-- The parts, the files that model them and the code:
--   Types: the data classes of secnano/types.py.
--   Db: the tables of secnano/db.py as lists of rows, with the key and conflict clauses of each
--     statement (Db.Table), ORDER BY as a stable sort (Db.Sort), and one module for each table.
--   GroupQueue: the class GroupQueue of secnano/group_queue.py; GroupQueue.EventLoop is `_enqueue`
--     and `_drain` under the event loop, as a step relation in which any ready drain may go on.
--   GroupFolder, Trace, Router: secnano/group_folder.py, secnano/trace.py, secnano/router.py and
--     `_truncate` of secnano/main.py.
--   Host: the state that the handlers share, and `_emit_trace`, `_ensure_group_dirs` and the calls of
--     `enqueue_task` in secnano/main.py.
--   ControlPlane, Ingress, Scheduler: `handle_ipc_task` of secnano/control_plane.py,
--     `handle_new_message` of secnano/ingress.py, and secnano/task_scheduler.py, as functions from a
--     host to a host; code that may raise gives a Result.
--   Orchestration: the two runs of secnano/runtime_orchestration.py, as the list of calls they make
--     (Orchestration.Calls for both, Orchestration.MessageRun, Orchestration.TaskRun).
--   Ipc: the watcher of secnano/ipc.py; one round hands the files of all directories to the handlers of
--     the control plane and of ingress (Ipc.Tasks). JsonValue: how handlers read a JSON object.
--   WebChannel: the chat log and the HTTP interface of secnano/channels/web.py, and, in
--     WebChannel.Polls, a page whose polls run beside the channel's code and may overlap.
--   AgentTools: agent_runner/tools.py; what it uses of pathlib, subprocess and re is the interface
--     AgentTools.FileSystem. AgentTools.Dispatch has `execute_tool`, and
--     AgentTools.Schema the schema `TOOLS`.
--   AgentRunner: agent_runner/main.py; AgentRunner.Session has the session file, AgentRunner.Waiting the
--     wait for IPC messages and AgentRunner.Loop `main`, which calls the tools.
--   OpsView: the operator's view of secnano/ops_view.py, from the items that the host collects.
--   Wiring: what secnano/main.py hands to the other parts, its bootstrap of the main group, the
--     trigger test (Wiring.Mentions) and the start of the host (Wiring.Startup).
--   EnvFile, ChannelRegistry: secnano/env.py, secnano/channels/registry.py.
--   SenderAllowlist: secnano/sender_allowlist.py, the allowlist that ingress asks.
--   Subprocess: secnano/subprocess_runner.py and secnano/runtime.py, from the lines that the agent
--     writes (`write_output` of agent_runner/main.py) to the adapter that the runs take.
--   ChannelInterface: the abstract class Channel of secnano/types.py and its laws, which
--     WebChannel.Interface fills.
--   Settings: secnano/config.py. Handshake: the environment and the object on stdin that the host hands
--     over (Subprocess.Spawn) against what the agent's process reads (AgentRunner.Environment), what
--     it prints against what the host's run ends with, the messages of the
--     host to a running agent, and a task request from the agent's tool to the control plane.
--   Logging: the recent events of secnano/logger.py.
--   Prelude, Effect: texts, lists and Boolean tests; outcomes of code that may raise.
--   Tests: concrete hosts, messages and tasks, and the theorems applied to them.
--
-- Ingress and the scheduler call the queue, which calls the runs; the control plane, ingress and the
-- scheduler write the database and the trace store. The clock, the UUIDs, the calendar (datetime
-- and croniter), the allowlist, the trigger test, the time zone and the runtime adapter are arguments.
--
-- Loops over rows and texts are structural recursions. Fuel is taken by
-- `show`, the decimal text of a number, one more than the number, which has no more digits than that, and by the loop of
-- `wait_for_ipc_message`, one for each look at the directory: one more than the half seconds in its
-- timeout is enough, since each look is followed by a sleep of half a second. The loops of the
-- agent's `main` go over the list of what the API answers and of the prompts that come. Numbers are
-- unbounded, as in Python. Log lines are left out, and a database call fails only where the code
-- relies on it, for the UNIQUE jid of the groups. A line from an agent's process is bounded
-- by the 64 KiB of the `StreamReader` (Subprocess).
--
-- Not modelled: the connection to SQLite and its lock, file access, the sockets and HTML pages of the
-- web channel, the output of log lines, and the signals that stop the host.
pub mod AgentRunner
pub mod AgentTools
pub mod ChannelInterface
pub mod ChannelRegistry
pub mod ControlPlane
pub mod Db
pub mod Effect
pub mod EnvFile
pub mod GroupFolder
pub mod GroupQueue
pub mod Handshake
pub mod Host
pub mod Ingress
pub mod Ipc
pub mod JsonValue
pub mod Logging
pub mod OpsView
pub mod Orchestration
pub mod Prelude
pub mod Router
pub mod Scheduler
pub mod SenderAllowlist
pub mod Settings
pub mod Subprocess
pub mod Tests
pub mod Trace
pub mod Types
pub mod WebChannel
pub mod Wiring
