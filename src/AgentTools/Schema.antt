-- ===== src/AgentTools/Schema.antt =====
-- `TOOLS` of agent_runner/tools.py: the schema of the tools that is sent to the API.
use secnano.Prelude.{
  String, Bool, true, false, Option, none, some, List, [], ◌∷◌, ◌==◌, if◌then◌else◌,
}
use secnano.Types.{Json, null, boolean, number, text}
use secnano.JsonValue.{get_item}

pub record Property : Type 0 where
  pub name : String
  pub type_name : String
  pub description : String

-- `input_schema` is an object with these properties, of which some are required.
pub record ToolSpec : Type 0 where
  pub name : String
  pub description : String
  pub properties : List Property
  pub required : List String

abbrev pub command_property : Property
command_property = record {
  name = "command";
  type_name = "string";
  description = "The bash command to execute.";
}

abbrev pub timeout_property : Property
timeout_property = record {
  name = "timeout";
  type_name = "integer";
  description = "Timeout in seconds (default: 30, max: 120).";
}

abbrev pub bash_spec : ToolSpec
bash_spec = record {
  name = "bash";
  description =
      "Execute a bash command in the group workspace and return its output. Commands run with the group folder as the working directory.";
  properties = command_property ∷ timeout_property ∷ [];
  required = "command" ∷ [];
}

abbrev pub register_group_spec : ToolSpec
register_group_spec = record {
  name = "register_group";
  description =
      "Request host-side registration for a new group via IPC task file. Only host-authorized main groups can complete this request.";
  properties =
      record {
        name = "jid";
        type_name = "string";
        description = "The target chat JID to register.";
      }
      ∷ record { name = "name"; type_name = "string"; description = "Human-friendly group name." }
      ∷ record {
        name = "folder";
        type_name = "string";
        description = "Workspace folder slug for this group.";
      }
      ∷ record {
        name = "trigger";
        type_name = "string";
        description = "Mention trigger text, e.g. '@Andy'. Defaults to the assistant name.";
      }
      ∷ record {
        name = "requires_trigger";
        type_name = "boolean";
        description = "Whether mentions are required to trigger replies.";
      }
      ∷ [];
  required = "jid" ∷ "name" ∷ "folder" ∷ [];
}

abbrev pub read_file_spec : ToolSpec
read_file_spec = record {
  name = "read_file";
  description = "Read the contents of a file relative to the workspace.";
  properties =
      record {
        name = "path";
        type_name = "string";
        description = "Path to the file (relative to workspace or absolute).";
      }
      ∷ [];
  required = "path" ∷ [];
}

abbrev pub write_file_spec : ToolSpec
write_file_spec = record {
  name = "write_file";
  description = "Write content to a file (creates or overwrites). Path is relative to workspace.";
  properties =
      record { name = "path"; type_name = "string"; description = "Path to the file." }
      ∷ record { name = "content"; type_name = "string"; description = "Content to write." }
      ∷ [];
  required = "path" ∷ "content" ∷ [];
}

abbrev pub edit_file_spec : ToolSpec
edit_file_spec = record {
  name = "edit_file";
  description = "Replace the first occurrence of a string in a file.";
  properties =
      record { name = "path"; type_name = "string"; description = "Path to the file." }
      ∷ record {
        name = "old_str";
        type_name = "string";
        description = "The string to find and replace.";
      }
      ∷ record { name = "new_str"; type_name = "string"; description = "The replacement string." }
      ∷ [];
  required = "path" ∷ "old_str" ∷ "new_str" ∷ [];
}

abbrev pub glob_spec : ToolSpec
glob_spec = record {
  name = "glob";
  description = "Find files matching a glob pattern within the workspace.";
  properties =
      record {
        name = "pattern";
        type_name = "string";
        description = "Glob pattern, e.g. '**/*.py' or 'src/*.txt'.";
      }
      ∷ [];
  required = "pattern" ∷ [];
}

abbrev pub grep_spec : ToolSpec
grep_spec = record {
  name = "grep";
  description = "Search for a regex pattern in files within the workspace.";
  properties =
      record {
        name = "pattern";
        type_name = "string";
        description = "Regex pattern to search for.";
      }
      ∷ record {
        name = "path";
        type_name = "string";
        description = "File or directory to search (defaults to workspace root).";
      }
      ∷ record {
        name = "case_insensitive";
        type_name = "boolean";
        description = "Whether to ignore case (default: false).";
      }
      ∷ [];
  required = "pattern" ∷ [];
}

abbrev pub list_directory_spec : ToolSpec
list_directory_spec = record {
  name = "list_directory";
  description = "List files and directories at a given path within the workspace.";
  properties =
      record {
        name = "path";
        type_name = "string";
        description = "Directory path (defaults to workspace root).";
      }
      ∷ [];
  required = [];
}

abbrev pub tools : List ToolSpec
tools =
    bash_spec ∷ register_group_spec ∷ read_file_spec ∷ write_file_spec ∷ edit_file_spec ∷ glob_spec
    ∷ grep_spec ∷ list_directory_spec ∷ []

-- What the schema says of an input.
pub data Verdict : Type 0 where
  unknown_tool : Verdict
  missing : (key : String) → Verdict
  ill_typed : Verdict
  fits : Verdict

abbrev pub find_tool : String → List ToolSpec → Option ToolSpec
find_tool tool [] = none
find_tool tool (spec ∷ specs) = if tool == spec.name then some spec else find_tool tool specs

abbrev pub has_type : String → Json → Bool
has_type type_name null = false
has_type type_name (boolean b) = type_name == "boolean"
has_type type_name (number n) = type_name == "integer"
has_type type_name (text s) = type_name == "string"

-- A member that is there has the type of its property.
abbrev pub is_typed : Property → Option Json → Bool
is_typed property none = true
is_typed property (some v) = has_type property.type_name v

abbrev pub types_verdict : List Property → List (String × Json) → Verdict
types_verdict [] fields = fits
types_verdict (property ∷ properties) fields =
    let rest = types_verdict properties fields in
    if is_typed property (get_item property.name fields) then rest else ill_typed

abbrev pub or_missing : String → Option Json → Verdict → Verdict
or_missing key none rest = missing key
or_missing key (some v) rest = rest

-- The first required member that is not there, and else whether the types are right.
abbrev pub input_verdict : List String → List Property → List (String × Json) → Verdict
input_verdict [] properties fields = types_verdict properties fields
input_verdict (key ∷ keys) properties fields =
    let rest = input_verdict keys properties fields in or_missing key (get_item key fields) rest

abbrev pub spec_verdict : Option ToolSpec → List (String × Json) → Verdict
spec_verdict none fields = unknown_tool
spec_verdict (some spec) fields = input_verdict spec.required spec.properties fields

-- Read off the schema alone.
unfoldable pub verdict : (tool : String) → List (String × Json) → Verdict
verdict tool fields = spec_verdict (find_tool tool tools) fields
