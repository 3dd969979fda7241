-- ===== src/Tests/Disk.antt =====
-- A disk as a list of files, and the tools of the agent at work on it.
use secnano.Prelude.{
  String, ◌≡◌, ◌≢◌, refl, ◌∙◌, ◌⊎◌, false, Option, none, some, List, [], ◌∷◌, arith, ◌==◌, eq_iff,
  if◌then◌else◌, is_some, map, ◌⧺◌, length, leb,
}
use secnano.Types.{Json, text}
use secnano.Effect.{ok, raised}
use secnano.AgentTools.Search.{after_text, contains}
use secnano.AgentTools.Replacing.{FirstAt}
use secnano.AgentTools.FileSystem.{
  FileSystem, IsFileSystem, Outcome, done, no_such_file, finished, is_inside, safe_path,
}
use secnano.AgentTools.Files.{edit_file, edit_answer, tool_error}
use secnano.AgentTools.Editing.{edit_file-FirstAt}
use secnano.AgentTools.Listing.{grep_files, lines_or}
use secnano.AgentTools.Capped.{all_matches, grep_files-capped}
use secnano.AgentTools.Requests.{AgentEnv, resolve_tasks_dir}
use secnano.AgentTools.Dispatch.{ToolWorld, execute_tool}
use secnano.AgentTools.Schema.{verdict}
use secnano.AgentTools.Conforming.{execute_tool-Answers}
use secnano.AgentTools.Workspace.{IsOutside}
use secnano.AgentTools.Workspace.Calls.{execute_tool-IsOutside}

abbrev pub Disk : Type 0
Disk = List (String × String)

unfoldable pub lookup : String → Disk → Option String
lookup p [] = none
lookup p ((r, s) ∷ d) = if r == p then some s else lookup p d

unfoldable pub put : String → String → Disk → Disk
put p s [] = (p, s) ∷ []
put p s ((r, t) ∷ d) = let rest = put p s d in if r == p then (p, s) ∷ d else (r, t) ∷ rest

unfoldable pub remove : String → Disk → Disk
remove p [] = []
remove p ((r, t) ∷ d) = let rest = remove p d in if r == p then rest else (r, t) ∷ rest

lookup-put : (p q s : String) (d : Disk) → q ≢ p → lookup q (put p s d) ≡ lookup q d
unfolding lookup put
lookup-put p q s [] other = ground (arith, eq_iff p q)
lookup-put p q s ((r, t) ∷ d) other =
    ground (arith, eq_iff p q, eq_iff r p, eq_iff r q, lookup-put p q s d other)

pub lookup-put_same : (p s : String) (d : Disk) → lookup p (put p s d) ≡ some s
unfolding lookup put
lookup-put_same p s [] = ground (arith, eq_iff p p)
lookup-put_same p s ((r, t) ∷ d) = ground (arith, eq_iff p p, eq_iff r p, lookup-put_same p s d)

lookup-remove : (p q : String) (d : Disk) → q ≢ p → lookup q (remove p d) ≡ lookup q d
unfolding lookup remove
lookup-remove p q [] other = refl
lookup-remove p q ((r, t) ∷ d) other =
    ground (arith, eq_iff r p, eq_iff r q, lookup-remove p q d other)

abbrev pub read : String → Disk → Outcome String
read p d = elim (lookup p d) [ none ↦ no_such_file "No such file or directory" | some s ↦ done s ]

abbrev pub move : String → String → Disk → Outcome (Unit {0}) × Disk
move p r d = elim (lookup p d) [
  | none ↦ (no_such_file "No such file or directory", d)
  | some s ↦ (done tt, put r s (remove p d))
]

move-others : (p r q : String) (d : Disk) → q ≢ p → q ≢ r → lookup q (move p r d).1 ≡ lookup q d
move-others p r q d other another = go (lookup p d)
  where
    go :
        (o : Option String)
        → lookup q
            (elim o as (λ x. Outcome (Unit {0}) × Disk) [
              | none ↦ (no_such_file "No such file or directory", d)
              | some s ↦ (done tt, put r s (remove p d))
            ]).1
          ≡ lookup q d
    go none = refl
    go (some s) = lookup-put r q s (remove p d) another ∙ lookup-remove p q d other

pub move_there :
    (p r content : String) (d : Disk)
    → lookup p d ≡ some content
    → ((move p r d).0 ≡ done tt) × (lookup r (move p r d).1 ≡ some content)
move_there p r content d there = rw (there, move) (refl, lookup-put_same r content (remove p d))

-- No link and no `..` is resolved; a pattern is a text, and a command does nothing.
abbrev pub test_fs : FileSystem Disk
test_fs = record {
  resolve = λ dir d. ok dir;
  resolve_in =
      λ base requested d. ok (if contains "/" requested then requested else base ⧺ "/" ⧺ requested);
  read_replacing = read;
  read_text = read;
  write_text = λ p s d. (done tt, put p s d);
  make_parent = λ p d. (done tt, d);
  make_directory = λ p d. (done tt, d);
  rename = move;
  is_file = λ p d. is_some (lookup p d);
  is_dir = λ p d. p == "/work";
  glob = λ base pattern d. ok [];
  rglob = λ root d. ok (map (λ (f : String × String). f.0) d);
  relative_to =
      λ base p. elim (after_text (base ⧺ "/") p) [ none ↦ raised "not below" | some r ↦ ok r ];
  iterdir = λ p d. ok [];
  compile = λ pattern case_insensitive. ok (contains pattern);
  run_shell = λ command timeout d. (finished "" "" none, d);
  text_at = lookup;
}

test_fs-IsFileSystem : IsFileSystem test_fs
test_fs-IsFileSystem = record {
  write_text-others = λ p q s d other. lookup-put p q s d other;
  make_parent-others = λ p q d. refl;
  make_directory-others = λ p q d. refl;
  rename-others = λ p r q d other another. move-others p r q d other another;
}

abbrev pub test_env : AgentEnv
test_env = record {
  tasks_dir = some "/data/ipc/team/tasks";
  data_dir = none;
  group_folder = none;
  assistant_name = none;
  millis = "1767225600000";
  hex = "0123abcd";
  now = "2026-01-01T00:00:00+00:00";
}

abbrev pub quoted : String → String
quoted s = "'" ⧺ s ⧺ "'"

abbrev pub test_world : ToolWorld Disk
test_world = record { fs = test_fs; repr = quoted; dumps = λ fields. "{}"; env = test_env }

abbrev pub test_disk : Disk
test_disk = ("/etc/passwd", "root") ∷ ("/work/a.txt", "one two two") ∷ []

passwd-IsOutside : IsOutside test_world "/work" "/etc/passwd" test_disk
unfolding is_inside resolve_tasks_dir
passwd-IsOutside = record {
  workspace = λ base h. let e : base ≡ "/work" = cc in rw e refl;
  requests = λ tasks_dir h. let e : tasks_dir ≡ "/data/ipc/team/tasks" = cc in rw e refl;
}

abbrev write_fields : List (String × Json)
write_fields = ("path", text "/etc/passwd") ∷ ("content", text "gone") ∷ []

execute_tool-IsOutside_example :
    lookup "/etc/passwd" (execute_tool test_world "write_file" write_fields "/work" test_disk).1
    ≡ lookup "/etc/passwd" test_disk
execute_tool-IsOutside_example =
    execute_tool-IsOutside test_world test_fs-IsFileSystem "/etc/passwd" "write_file" write_fields
      "/work" test_disk refl passwd-IsOutside

execute_tool-Answers_example :
    execute_tool test_world "write_file" (("path", text "/work/a") ∷ []) "/work" test_disk
    ≡ (tool_error "Missing required parameter: 'content'", test_disk)
unfolding verdict secnano.JsonValue.get_item ◌⧺◌
execute_tool-Answers_example =
    execute_tool-Answers test_world "write_file" (("path", text "/work/a") ∷ []) "/work" test_disk

edit_file-FirstAt_example :
    ((before rest : String) → "one two two" ≢ before ⧺ "two" ⧺ rest)
      × (edit_file test_fs quoted "a.txt" "two" "2" "/work" test_disk
          ≡ (tool_error ("String not found in " ⧺ "a.txt"), test_disk))
    ⊎ (f : FirstAt "two" "one two two") × (edit_file test_fs quoted "a.txt" "two" "2" "/work"
          test_disk
        ≡ edit_answer test_fs quoted "a.txt"
            (done tt, put "/work/a.txt" (f.before ⧺ "2" ⧺ f.rest) test_disk))
unfolding safe_path is_inside contains lookup ◌⧺◌
edit_file-FirstAt_example =
    edit_file-FirstAt test_fs quoted "a.txt" "two" "2" "/work" "/work/a.txt" "one two two" test_disk
      refl refl

abbrev two_files : Disk
two_files = ("/work/a.txt", "one\ntwo") ∷ ("/work/b.txt", "two") ∷ []

abbrev name_of : String → String
name_of p = if p == "/work/a.txt" then "a.txt" else "b.txt"

grep_files-capped_example : grep_files test_fs quoted "two" none "/work" false two_files ≡ (
    if leb 200 (
      length (
        all_matches test_fs quoted "/work" name_of
          (contains "two")
          ("/work/a.txt" ∷ "/work/b.txt" ∷ [])
          two_files))
    then "[error] "
    else lines_or "(no matches)" (
        all_matches test_fs quoted "/work" name_of
          (contains "two")
          ("/work/a.txt" ∷ "/work/b.txt" ∷ [])
          two_files))
unfolding lookup ◌⧺◌ after_text
grep_files-capped_example =
    grep_files-capped test_fs quoted "/work" name_of (contains "two") "two" "/work" none false
      "/work" ("/work/a.txt" ∷ "/work/b.txt" ∷ []) two_files refl refl refl refl refl
      (refl, (refl, tt))
