-- ===== src/AgentTools/Accords.antt =====
-- What the schema of agent_runner/tools.py says of a dispatched call, member by member.
use secnano.Prelude.{
  String, ◌≡◌, refl, Option, none, some, List, [], ◌∷◌, if◌then◌else◌, ◌⧺◌, if-cases,
}
use secnano.Types.{Json, null, boolean, number, text}
use secnano.Effect.{Result, ok, raised, and_then}
use secnano.JsonValue.{get_item, str_of}
use secnano.AgentTools.Dispatch.{
  register_call, read_call, write_call, edit_call, glob_call, grep_call, list_call, ToolCall,
  bash_call, text_needed, needed, timeout_of,
}
use secnano.AgentTools.Schema.{
  Verdict, unknown_tool, missing, ill_typed, fits, input_verdict, or_missing, types_verdict,
  is_typed, Property, command_property, timeout_property, bash_spec,
}

-- The tool whose function a call runs.
abbrev pub tool_of : ToolCall → String
tool_of (bash_call command timeout) = "bash"
tool_of (register_call jid name folder trigger requires_trigger) = "register_group"
tool_of (read_call path) = "read_file"
tool_of (write_call path content) = "write_file"
tool_of (edit_call path old_str new_str) = "edit_file"
tool_of (glob_call pattern) = "glob"
tool_of (grep_call pattern path case_insensitive) = "grep"
tool_of (list_call path) = "list_directory"

-- What the dispatch makes of an input with this verdict.
abbrev pub Accords : (tool : String) → Verdict → Result ToolCall → Type 0
Accords tool unknown_tool r = r ≡ raised ("Unknown tool: " ⧺ tool)
Accords tool (missing key) r = r ≡ raised ("Missing required parameter: '" ⧺ key ⧺ "'")
Accords tool fits r = (call : ToolCall) × (tool_of call ≡ tool) × (r ≡ ok call)
Accords tool ill_typed r = Unit

pub types-Accords :
    (tool : String) (properties : List Property) (fields : List (String × Json)) (call : ToolCall)
    → tool_of call ≡ tool
    → Accords tool (types_verdict properties fields) (ok call)
types-Accords tool [] fields call same = (call, same, refl)
types-Accords tool (property ∷ properties) fields call same =
    if-cases (λ (v : Verdict). Accords tool v (ok call))
      (is_typed property (get_item property.name fields)) (types_verdict properties fields)
      ill_typed (types-Accords tool properties fields call same) tt

pub needed-Accords :
    (tool key : String) (keys : List String) (properties : List Property)
    (fields : List (String × Json)) (next : String → Result ToolCall)
    → ((s : String) → Accords tool (input_verdict keys properties fields) (next s))
    → Accords tool
        (input_verdict (key ∷ keys) properties fields)
        (and_then (needed key fields) next)
needed-Accords tool key keys properties fields next h = go (get_item key fields)
  where
    go :
        (o : Option Json)
        → Accords tool
            (or_missing key o (input_verdict keys properties fields))
            (and_then (text_needed key o) next)
    go none = refl
    go (some v) = h (str_of v)

-- A timeout of the right type is taken.
pub timeout-Accords :
    (command : String) (fields : List (String × Json))
    → Accords "bash" (types_verdict bash_spec.properties fields) (
        and_then
          (timeout_of (get_item "timeout" fields))
          (λ timeout. ok (bash_call command timeout)))
timeout-Accords command fields =
    if-cases
      (λ (v : Verdict). Accords "bash" v (
        and_then (timeout_of (get_item "timeout" fields))
          (λ timeout. ok (bash_call command timeout))))
      (is_typed command_property (get_item "command" fields)) _ ill_typed
      (go (get_item "timeout" fields)) tt
  where
    go :
        (o : Option Json)
        → Accords "bash"
            (if is_typed timeout_property o then fits else ill_typed)
            (and_then (timeout_of o) (λ timeout. ok (bash_call command timeout)))
    go none = (bash_call command 30, refl, refl)
    go (some (number n)) = (bash_call command n, refl, refl)
    go (some null) = tt
    go (some (boolean b)) = tt
    go (some (text s)) = tt
