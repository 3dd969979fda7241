-- ===== src/AgentTools/Dispatch.antt =====
-- `execute_tool` of agent_runner/tools.py.
use secnano.Prelude.{
  ℕ, String, Bool, true, false, Option, none, some, List, ◌==◌, if◌then◌else◌, ◌⧺◌,
}
use secnano.Types.{Json, null, boolean, number, text}
use secnano.Effect.{Result, ok, raised, and_then}
use secnano.JsonValue.{get_item, str_of, optional_field, flag_field, optional_flag}
use secnano.AgentTools.FileSystem.{FileSystem}
use secnano.AgentTools.Files.{tool_error, read_file, write_file, edit_file}
use secnano.AgentTools.Listing.{glob_files, grep_files, list_directory}
use secnano.AgentTools.Requests.{AgentEnv, execute_bash, register_group}

-- The calls of the tools' functions.
pub data ToolCall : Type 0 where
  bash_call : (command : String) → (timeout : ℕ) → ToolCall
  register_call :
      (jid name folder : String)
      → (trigger : Option String) → (requires_trigger : Option Bool) → ToolCall
  read_call : (path : String) → ToolCall
  write_call : (path content : String) → ToolCall
  edit_call : (path old_str new_str : String) → ToolCall
  glob_call : (pattern : String) → ToolCall
  grep_call : (pattern : String) → (path : Option String) → (case_insensitive : Bool) → ToolCall
  list_call : (path : Option String) → ToolCall

-- `input_data[key]`: the text of a `KeyError` is the quoted key. The tools' schema has texts there, and
-- a call with another value is left out: it stands here as its text, and the code hands the value to
-- the tool's function, which answers with an error of its own.
abbrev pub text_needed : String → Option Json → Result String
text_needed key none = raised ("Missing required parameter: '" ⧺ key ⧺ "'")
text_needed key (some v) = ok (str_of v)

abbrev pub needed : String → List (String × Json) → Result String
needed key fields = text_needed key (get_item key fields)

abbrev type_error : String → Result ℕ
type_error type_name =
    raised (
      "Tool execution failed: '<' not supported between instances of 'int' and '" ⧺ type_name ⧺ "'")

-- `input_data.get("timeout", 30)`, as `min` takes it.
abbrev pub timeout_of : Option Json → Result ℕ
timeout_of none = ok 30
timeout_of (some (number n)) = ok n
timeout_of (some (boolean true)) = ok 1
timeout_of (some (boolean false)) = ok 0
timeout_of (some null) = type_error "NoneType"
timeout_of (some (text s)) = type_error "str"

-- The call for each tool.
abbrev pub bash_call_of : List (String × Json) → Result ToolCall
bash_call_of fields = and_then (needed "command" fields) (λ command.
    and_then (timeout_of (get_item "timeout" fields)) (λ timeout. ok (bash_call command timeout)))

abbrev pub register_group_call_of : List (String × Json) → Result ToolCall
register_group_call_of fields = and_then (needed "jid" fields) (λ jid.
    and_then (needed "name" fields) (λ name. and_then (needed "folder" fields) (λ folder. ok (
      register_call jid name folder (optional_field "trigger" fields)
        (optional_flag "requires_trigger" fields)))))

abbrev pub read_file_call_of : List (String × Json) → Result ToolCall
read_file_call_of fields = and_then (needed "path" fields) (λ path. ok (read_call path))

abbrev pub write_file_call_of : List (String × Json) → Result ToolCall
write_file_call_of fields =
    and_then (needed "path" fields)
      (λ path. and_then (needed "content" fields) (λ content. ok (write_call path content)))

abbrev pub edit_file_call_of : List (String × Json) → Result ToolCall
edit_file_call_of fields = and_then (needed "path" fields) (λ path.
    and_then (needed "old_str" fields) (λ old_str.
      and_then (needed "new_str" fields) (λ new_str. ok (edit_call path old_str new_str))))

abbrev pub glob_call_of : List (String × Json) → Result ToolCall
glob_call_of fields = and_then (needed "pattern" fields) (λ pattern. ok (glob_call pattern))

abbrev pub grep_call_of : List (String × Json) → Result ToolCall
grep_call_of fields = and_then (needed "pattern" fields) (λ pattern.
    ok (grep_call pattern (optional_field "path" fields) (flag_field "case_insensitive" fields)))

abbrev pub list_directory_call_of : List (String × Json) → Result ToolCall
list_directory_call_of fields = ok (list_call (optional_field "path" fields))

abbrev pub call_of : String → List (String × Json) → Result ToolCall
call_of tool fields =
    if tool == "bash"
    then bash_call_of fields
    else if tool == "register_group"
    then register_group_call_of fields
    else if tool == "read_file"
    then read_file_call_of fields
    else if tool == "write_file"
    then write_file_call_of fields
    else if tool == "edit_file"
    then edit_file_call_of fields
    else if tool == "glob"
    then glob_call_of fields
    else if tool == "grep"
    then grep_call_of fields
    else if tool == "list_directory"
    then list_directory_call_of fields
    else raised ("Unknown tool: " ⧺ tool)

-- What the tools take from outside.
pub record ToolWorld (Disk : Type 0) : Type 0 where
  pub fs : FileSystem Disk
  pub repr : String → String
  pub dumps : List (String × Json) → String
  pub env : AgentEnv

abbrev pub run_call : {Disk : Type 0} → ToolWorld Disk → ToolCall → String → Disk → String × Disk
run_call w (bash_call command timeout) cwd d = execute_bash w.fs command timeout d
run_call w (register_call jid name folder trigger requires_trigger) cwd d =
    register_group w.fs w.dumps w.env jid name folder trigger requires_trigger d
run_call w (read_call path) cwd d = (read_file w.fs w.repr path cwd d, d)
run_call w (write_call path content) cwd d = write_file w.fs w.repr path content cwd d
run_call w (edit_call path old_str new_str) cwd d = edit_file w.fs w.repr path old_str new_str cwd d
run_call w (glob_call pattern) cwd d = (glob_files w.fs w.repr pattern cwd d, d)
run_call w (grep_call pattern path case_insensitive) cwd d =
    (grep_files w.fs w.repr pattern path cwd case_insensitive d, d)
run_call w (list_call path) cwd d = (list_directory w.fs w.repr path cwd d, d)

abbrev pub run_or_error :
    {Disk : Type 0} → ToolWorld Disk → Result ToolCall → String → Disk → String × Disk
run_or_error w (raised e) cwd d = (tool_error e, d)
run_or_error w (ok call) cwd d = run_call w call cwd d

unfoldable pub execute_tool :
    {Disk : Type 0}
    → ToolWorld Disk
    → (tool : String) → List (String × Json)
    → (cwd : String) → Disk
    → String × Disk
execute_tool w tool fields cwd d = run_or_error w (call_of tool fields) cwd d
