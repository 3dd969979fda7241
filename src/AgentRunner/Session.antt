-- ===== src/AgentRunner/Session.antt =====
-- The conversation of agent_runner/main.py, its session file and the system prompt.
use secnano.Prelude.{
  ℕ, ◌-◌, String, Bool, Option, List, [], if◌then◌else◌, ltb, drop, length, opt_true, ◌⧺◌,
}
use secnano.Types.{Json}

-- A block of an answer of the model; other blocks are kept as they are.
pub data Block : Type 0 where
  text_block : String → Block
  tool_use : (id name : String) → (input : List (String × Json)) → Block
  other_block : String → Block

pub record ToolResult : Type 0 where
  pub tool_use_id : String
  pub content : String

-- An item of `messages`: of the role `user` with a text or with results, or of the role `assistant`.
pub data Turn : Type 0 where
  user_turn : String → Turn
  results_turn : List ToolResult → Turn
  assistant_turn : List Block → Turn

-- `history.json`: what `json.loads` makes of it. `unreadable` is a JSON or an OS error.
pub data SessionFile : Type 0 where
  absent : SessionFile
  unreadable : SessionFile
  no_list : SessionFile
  history : List Turn → SessionFile

abbrev pub history_of : SessionFile → List Turn
history_of (history turns) = turns
history_of _ = []

unfoldable pub load_session : (session_id : Option String) → SessionFile → List Turn
load_session session_id file = if opt_true session_id then history_of file else []

abbrev pub max_history_messages : ℕ
max_history_messages = 50

-- `messages[-MAX_HISTORY_MESSAGES:]` where there are more
unfoldable pub trim : List Turn → List Turn
trim turns =
    if ltb max_history_messages (length turns)
    then drop (length turns - max_history_messages) turns
    else turns

-- `save_session` writes the file anew.
unfoldable pub save_session : List Turn → SessionFile
unfolding trim
save_session turns = history (trim turns)

unfoldable pub build_system_prompt :
    (workspace group_folder : String) → (is_main : Bool) → (assistant_name : String) → String
unfolding ◌⧺◌
build_system_prompt workspace group_folder is_main assistant_name =
    "You are "
    ⧺ assistant_name
    ⧺ ", an AI assistant acting as a "
    ⧺ (if is_main then "main orchestration agent" else "group assistant")
    ⧺ ".\n\n"
    ⧺ "Current workspace: "
    ⧺ workspace
    ⧺ "\n"
    ⧺ "Group folder: "
    ⧺ group_folder
    ⧺ "\n\n"
    ⧺ "You have access to tools that let you read/write files, run bash commands, "
    ⧺ "search files, and list directories within your workspace. "
    ⧺ "Use these tools to accomplish tasks.\n\n"
    ⧺ (if is_main
        then "As the main group, you may call register_group to request registering other groups.\n\n"
        else "")
    ⧺ "When you are done with a task, provide a clear, concise summary of what you did "
    ⧺ "and any important results. "
    ⧺ "Wrap any internal reasoning or intermediate steps in <internal>...</internal> tags "
    ⧺ "so they are not shown to the user.\n\n"
    ⧺ "Be helpful, accurate, and thorough."
