-- ===== src/Db/Groups/Unique.antt =====
-- `folder` and `jid` stay unique in the registered groups of secnano/db.py, and what a group's
-- folder finds after `upsert_registered_group`.
use secnano.Prelude.{
  String, ◌≡◌, refl, Bool, true, false, not, ◌&&◌, none, some, List, [], ◌∷◌, any, arith, ◌==◌,
  eq_iff, if◌then◌else◌, Bool-cases, inl, inr, ◌⊎◌,
}
use secnano.Types.{RegisteredGroup}
use secnano.Effect.{ok, raised}
use secnano.Db.Table.{find_row, upsert_row, find_row-upsert_row, UniqueKeys, upsert_row-UniqueKeys}
use secnano.Db.Database.{Database, GroupRow}
use secnano.Db.Groups.{
  folder_key, jid_key, group_row, jid_taken, unique_failed, upsert_registered_group,
  get_registered_group, config_of, timeout_json,
}

-- The two unique columns.
pub record IsUnique (db : Database) : Type 0 where
  pub folders : UniqueKeys folder_key db.registered_groups
  pub jids : UniqueKeys jid_key db.registered_groups

abbrev clashes : GroupRow → GroupRow → Bool
clashes row r = r.jid == row.jid && not (r.folder == row.folder)

module _ (row : GroupRow) where
  -- With no clash, a row that has the jid has the folder.
  find_row-jid_free :
      (xs : List GroupRow)
      → any (clashes row) xs ≡ false
      → find_row folder_key row.folder xs ≡ none
      → find_row jid_key row.jid xs ≡ none
  unfolding find_row any
  find_row-jid_free [] c f = refl
  find_row-jid_free (x ∷ xs) c f = ground (arith, find_row-jid_free xs)

  find_row-jid_upsert :
      (k : String) (xs : List GroupRow)
      → (row.jid == k) ≡ false
      → find_row jid_key k xs ≡ none
      → find_row jid_key k (upsert_row folder_key (λ _. row) row xs) ≡ none
  unfolding find_row upsert_row
  find_row-jid_upsert k [] n f = rw n
  find_row-jid_upsert k (x ∷ xs) n f = ground (arith, find_row-jid_upsert k xs n)

  upsert-jids :
      (xs : List GroupRow)
      → any (clashes row) xs ≡ false
      → UniqueKeys folder_key xs
      → UniqueKeys jid_key xs
      → UniqueKeys jid_key (upsert_row folder_key (λ _. row) row xs)
  unfolding find_row upsert_row any
  upsert-jids [] c f j = (refl, tt)
  upsert-jids (x ∷ xs) c f j = elim (Bool-cases (x.folder == row.folder)) [
    | inl same ↦
        let e : x.folder ≡ row.folder = (eq_iff x.folder row.folder).0 same in
        rw same (find_row-jid_free xs (ground (arith, same)) (cc (e, f.0)), j.1)
    | inr other ↦ rw other (
      find_row-jid_upsert x.jid xs
          (ground (arith, eq_iff x.jid row.jid, eq_iff row.jid x.jid, other)) j.0,
      upsert-jids xs (ground (arith, other)) f.1 j.1,
    )
  ]

-- Registering a group keeps both columns unique, whether it succeeds or raises.
pub upsert_registered_group-IsUnique :
    (group : RegisteredGroup) (db : Database)
    → IsUnique db
    → IsUnique (upsert_registered_group group db).1
unfolding upsert_registered_group
upsert_registered_group-IsUnique group db u = elim (Bool-cases (jid_taken group db)) [
  | inl taken ↦ rw taken u
  | inr free ↦
      let row = group_row group in
      rw free (record {
        folders =
            upsert_row-UniqueKeys folder_key (λ _. row) row db.registered_groups (λ x e. refl)
              u.folders;
        jids = upsert-jids row db.registered_groups free u.folders u.jids;
      })
]

-- The group as it is read back: of its subprocess configuration only the timeout is stored.
abbrev pub stored_group : RegisteredGroup → RegisteredGroup
stored_group group = record group {
  subprocess_config = config_of (timeout_json group.subprocess_config);
}

-- A registration either raises the UNIQUE error and changes nothing, which happens exactly when
-- another folder has the jid; or its folder then finds the group, and other folders what they did.
pub upsert_registered_group-outcome :
    (group : RegisteredGroup) (db : Database) (folder : String)
    → (jid_taken group db ≡ true) × (upsert_registered_group group db ≡ (raised unique_failed, db))
      ⊎ (jid_taken group db ≡ false)
        × ((upsert_registered_group group db).0 ≡ ok tt)
        × (get_registered_group folder (upsert_registered_group group db).1 ≡ (
            if group.folder == folder
            then some (stored_group group)
            else get_registered_group folder db))
unfolding upsert_registered_group get_registered_group
upsert_registered_group-outcome group db folder = elim (Bool-cases (jid_taken group db)) [
  | inl taken ↦ inl (taken, rw taken)
  | inr free ↦
      let row = group_row group in
      inr (
        free,
        rw free,
        rw free (
            ground (
              arith,
              find_row-upsert_row folder_key (λ _. row) row folder db.registered_groups
                  (λ x e. refl),
            )),
      )
]
