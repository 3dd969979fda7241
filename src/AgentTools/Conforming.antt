-- ===== src/AgentTools/Conforming.antt =====
-- The dispatch of agent_runner/tools.py keeps what the schema promises.
use mathlib.Core.Path.{subst}
use secnano.Prelude.{
  String, ◌≡◌, refl, ap, inl, inr, Option, some, List, [], ◌∷◌, ◌==◌, if◌then◌else◌, ◌⧺◌, sym,
  eq_iff, Bool-cases,
}
use secnano.Types.{Json}
use secnano.Effect.{Result, ok, and_then}
use secnano.JsonValue.{get_item, optional_field, flag_field, optional_flag}
use secnano.AgentTools.Files.{tool_error}
use secnano.AgentTools.Dispatch.{
  register_call, read_call, write_call, edit_call, glob_call, grep_call, list_call, bash_call_of,
  register_group_call_of, read_file_call_of, write_file_call_of, edit_file_call_of, glob_call_of,
  grep_call_of, list_directory_call_of, ToolCall, ToolWorld, bash_call, call_of, needed, run_call,
  run_or_error, execute_tool, timeout_of,
}
use secnano.AgentTools.Schema.{
  Verdict, unknown_tool, missing, ill_typed, fits, verdict, spec_verdict, ToolSpec, bash_spec,
  register_group_spec, read_file_spec, write_file_spec, edit_file_spec, glob_spec, grep_spec,
  list_directory_spec,
}
use secnano.AgentTools.Accords.{tool_of, Accords, types-Accords, needed-Accords, timeout-Accords}

bash-Accords :
    (fields : List (String × Json))
    → Accords "bash" (spec_verdict (some bash_spec) fields) (bash_call_of fields)
bash-Accords fields =
    needed-Accords "bash" "command" ([]) bash_spec.properties fields
      (λ command.
        and_then (timeout_of (get_item "timeout" fields))
          (λ timeout. ok (bash_call command timeout)))
      (λ command. timeout-Accords command fields)

register_group-Accords :
    (fields : List (String × Json))
    → Accords "register_group"
        (spec_verdict (some register_group_spec) fields)
        (register_group_call_of fields)
register_group-Accords fields =
    needed-Accords "register_group" "jid" ("name" ∷ "folder" ∷ []) register_group_spec.properties
      fields
      (λ jid. and_then (needed "name" fields) (λ name. and_then (needed "folder" fields) (λ folder.
        ok (
          register_call jid name folder (optional_field "trigger" fields)
            (optional_flag "requires_trigger" fields)))))
      (λ jid.
        needed-Accords "register_group" "name" ("folder" ∷ []) register_group_spec.properties fields
          (λ name. and_then (needed "folder" fields) (λ folder. ok (
            register_call jid name folder (optional_field "trigger" fields)
              (optional_flag "requires_trigger" fields))))
          (λ name.
            needed-Accords "register_group" "folder" ([]) register_group_spec.properties fields
              (λ folder. ok (
                register_call jid name folder (optional_field "trigger" fields)
                  (optional_flag "requires_trigger" fields)))
              (λ folder.
                types-Accords "register_group" register_group_spec.properties fields
                  (register_call jid name folder (optional_field "trigger" fields)
                    (optional_flag "requires_trigger" fields))
                  refl)))

read_file-Accords :
    (fields : List (String × Json))
    → Accords "read_file" (spec_verdict (some read_file_spec) fields) (read_file_call_of fields)
read_file-Accords fields =
    needed-Accords "read_file" "path" ([]) read_file_spec.properties fields
      (λ path. ok (read_call path))
      (λ path. types-Accords "read_file" read_file_spec.properties fields (read_call path) refl)

write_file-Accords :
    (fields : List (String × Json))
    → Accords "write_file" (spec_verdict (some write_file_spec) fields) (write_file_call_of fields)
write_file-Accords fields =
    needed-Accords "write_file" "path" ("content" ∷ []) write_file_spec.properties fields
      (λ path. and_then (needed "content" fields) (λ content. ok (write_call path content)))
      (λ path.
        needed-Accords "write_file" "content" ([]) write_file_spec.properties fields
          (λ content. ok (write_call path content))
          (λ content.
            types-Accords "write_file" write_file_spec.properties fields (write_call path content)
              refl))

edit_file-Accords :
    (fields : List (String × Json))
    → Accords "edit_file" (spec_verdict (some edit_file_spec) fields) (edit_file_call_of fields)
edit_file-Accords fields =
    needed-Accords "edit_file" "path" ("old_str" ∷ "new_str" ∷ []) edit_file_spec.properties fields
      (λ path. and_then (needed "old_str" fields) (λ old_str.
        and_then (needed "new_str" fields) (λ new_str. ok (edit_call path old_str new_str))))
      (λ path.
        needed-Accords "edit_file" "old_str" ("new_str" ∷ []) edit_file_spec.properties fields
          (λ old_str.
            and_then (needed "new_str" fields) (λ new_str. ok (edit_call path old_str new_str)))
          (λ old_str.
            needed-Accords "edit_file" "new_str" ([]) edit_file_spec.properties fields
              (λ new_str. ok (edit_call path old_str new_str))
              (λ new_str.
                types-Accords "edit_file" edit_file_spec.properties fields
                  (edit_call path old_str new_str) refl)))

glob-Accords :
    (fields : List (String × Json))
    → Accords "glob" (spec_verdict (some glob_spec) fields) (glob_call_of fields)
glob-Accords fields =
    needed-Accords "glob" "pattern" ([]) glob_spec.properties fields
      (λ pattern. ok (glob_call pattern))
      (λ pattern. types-Accords "glob" glob_spec.properties fields (glob_call pattern) refl)

grep-Accords :
    (fields : List (String × Json))
    → Accords "grep" (spec_verdict (some grep_spec) fields) (grep_call_of fields)
grep-Accords fields =
    needed-Accords "grep" "pattern" ([]) grep_spec.properties fields
      (λ pattern.
        ok
          (grep_call pattern (optional_field "path" fields) (flag_field "case_insensitive" fields)))
      (λ pattern.
        types-Accords "grep" grep_spec.properties fields
          (grep_call pattern (optional_field "path" fields) (flag_field "case_insensitive" fields))
          refl)

list_directory-Accords :
    (fields : List (String × Json))
    → Accords "list_directory"
        (spec_verdict (some list_directory_spec) fields)
        (list_directory_call_of fields)
list_directory-Accords fields =
    types-Accords "list_directory" list_directory_spec.properties fields
      (list_call (optional_field "path" fields)) refl

-- One test of the tool's name.
named-Accords :
    (tool : String) (fields : List (String × Json)) (name : String) (spec other : Option ToolSpec)
    (r s : Result ToolCall)
    → Accords name (spec_verdict spec fields) r
    → Accords tool (spec_verdict other fields) s
    → Accords tool
        (spec_verdict (if tool == name then spec else other) fields)
        (if tool == name then r else s)
named-Accords tool fields name spec other r s h k = elim (Bool-cases (tool == name)) [
  | inl e ↦
      let same : tool ≡ name = (eq_iff tool name).0 e in
      rw e (subst (λ (t : String). Accords t (spec_verdict spec fields) r) (sym same) h)
  | inr e ↦ rw e k
]

call_of-Accords :
    (tool : String) (fields : List (String × Json))
    → Accords tool (verdict tool fields) (call_of tool fields)
unfolding verdict
call_of-Accords tool fields = named-Accords tool fields "bash" _ _ _ _ (bash-Accords fields) (
    named-Accords tool fields "register_group" _ _ _ _ (register_group-Accords fields) (
      named-Accords tool fields "read_file" _ _ _ _ (read_file-Accords fields) (
        named-Accords tool fields "write_file" _ _ _ _ (write_file-Accords fields) (
          named-Accords tool fields "edit_file" _ _ _ _ (edit_file-Accords fields) (
            named-Accords tool fields "glob" _ _ _ _ (glob-Accords fields) (
              named-Accords tool fields "grep" _ _ _ _ (grep-Accords fields) (
                named-Accords tool fields "list_directory" _ _ _ _ (list_directory-Accords fields)
                  (refl))))))))

-- What a tool call comes to, by the verdict on its input.
abbrev pub Answers :
    {Disk : Type 0} → ToolWorld Disk → (tool cwd : String) → Disk → Verdict → String × Disk → Type 0
Answers w tool cwd d unknown_tool r = r ≡ (tool_error ("Unknown tool: " ⧺ tool), d)
Answers w tool cwd d (missing key) r =
    r ≡ (tool_error ("Missing required parameter: '" ⧺ key ⧺ "'"), d)
Answers w tool cwd d fits r =
    (call : ToolCall) × (tool_of call ≡ tool) × (r ≡ run_call w call cwd d)
Answers w tool cwd d ill_typed r = Unit

-- With an input that fits the schema of a tool, the function of that tool runs; with an input that has not all
-- required members, the first of them in the order of the schema is named in the answer, and for
-- a tool of another name the answer says so, and in both cases the disk stays as it was.
pub execute_tool-Answers :
    {Disk : Type 0} (w : ToolWorld Disk) (tool : String) (fields : List (String × Json))
    (cwd : String) (d : Disk)
    → Answers w tool cwd d (verdict tool fields) (execute_tool w tool fields cwd d)
unfolding execute_tool
execute_tool-Answers w tool fields cwd d =
    go (verdict tool fields) (call_of tool fields) (call_of-Accords tool fields)
  where
    go :
        (v : Verdict) (r : Result ToolCall)
        → Accords tool v r
        → Answers w tool cwd d v (run_or_error w r cwd d)
    go unknown_tool r h = ap (λ (x : Result ToolCall). run_or_error w x cwd d) h
    go (missing key) r h = ap (λ (x : Result ToolCall). run_or_error w x cwd d) h
    go ill_typed r h = tt
    go fits r (call, same, h) = (call, same, ap (λ (x : Result ToolCall). run_or_error w x cwd d) h)
