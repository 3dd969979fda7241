-- ===== src/Db/Groups.antt =====
-- The table `registered_groups` of secnano/db.py. Its primary key is `folder`, and `jid` is UNIQUE.
pub mod Unique
use secnano.Prelude.{
  ℕ, String, Bool, not, ◌&&◌, Option, none, some, List, map, any, ◌==◌, if◌then◌else◌,
}
use secnano.Types.{RegisteredGroup, SubprocessConfig}
use secnano.Effect.{Result, ok, raised}
use secnano.Db.Table.{find_row, upsert_row, delete_row}
use secnano.Db.Sort.{sort, ascending}
use secnano.Db.Database.{Database, GroupRow}

abbrev pub folder_key : GroupRow → String
folder_key r = r.folder

abbrev pub jid_key : GroupRow → String
jid_key r = r.jid

abbrev config_of : Option (Option ℕ) → Option SubprocessConfig
config_of none = none
config_of (some timeout) = some (record { additional_mounts = none; timeout = timeout })

unfoldable pub row_to_group : GroupRow → RegisteredGroup
row_to_group row = record {
  jid = row.jid;
  name = row.name;
  folder = row.folder;
  trigger = row.trigger;
  added_at = row.added_at;
  subprocess_config = config_of row.subprocess_config;
  requires_trigger = row.requires_trigger;
  is_main = row.is_main;
}

abbrev timeout_json : Option SubprocessConfig → Option (Option ℕ)
timeout_json none = none
timeout_json (some config) = some config.timeout

-- The parameters of the INSERT.
unfoldable pub group_row : RegisteredGroup → GroupRow
group_row group = record {
  jid = group.jid;
  name = group.name;
  folder = group.folder;
  trigger = group.trigger;
  added_at = group.added_at;
  subprocess_config = timeout_json group.subprocess_config;
  requires_trigger = group.requires_trigger;
  is_main = group.is_main;
}

-- Another row, of another folder, has the jid.
unfoldable pub jid_taken : RegisteredGroup → Database → Bool
jid_taken group db =
    any (λ (r : GroupRow). r.jid == group.jid && not (r.folder == group.folder))
      db.registered_groups

abbrev pub unique_failed : String
unique_failed = "UNIQUE constraint failed: registered_groups.jid"

-- ON CONFLICT(folder) updates in place. Any other clash on `jid` raises `IntegrityError`, and
-- `_cursor` rolls back.
unfoldable pub upsert_registered_group : RegisteredGroup → Database → Result (Unit {0}) × Database
unfolding jid_taken group_row
upsert_registered_group group db = if jid_taken group db then (raised unique_failed, db) else (
  ok tt,
  record db {
    registered_groups =
        upsert_row folder_key (λ _. group_row group) (group_row group) db.registered_groups;
  },
)

abbrev to_group : Option GroupRow → Option RegisteredGroup
unfolding row_to_group
to_group none = none
to_group (some row) = some (row_to_group row)

unfoldable pub get_registered_group : String → Database → Option RegisteredGroup
unfolding row_to_group
get_registered_group folder db = to_group (find_row folder_key folder db.registered_groups)

unfoldable pub get_registered_group_by_jid : String → Database → Option RegisteredGroup
unfolding row_to_group
get_registered_group_by_jid jid db = to_group (find_row jid_key jid db.registered_groups)

unfoldable pub list_registered_groups : Database → List RegisteredGroup
unfolding row_to_group
list_registered_groups db =
    map row_to_group (sort (ascending (λ (r : GroupRow). r.added_at)) db.registered_groups)

unfoldable pub delete_registered_group : String → Database → Database
delete_registered_group folder db = record db {
  registered_groups = delete_row folder_key folder db.registered_groups;
}
