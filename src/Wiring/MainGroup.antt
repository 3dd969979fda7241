-- ===== src/Wiring/MainGroup.antt =====
-- After `_ensure_main_bootstrap` of secnano/main.py there is a main group.
use secnano.Prelude.{
  ◌+◌, String, ◌≡◌, refl, sym, ap, ◌∙◌, ◌⊎◌, inl, inr, Bool, true, false, Option, none, some, List,
  [], ◌∷◌, map, any, arith, eq_refl, is_some, Bool-cases, Option-cases,
}
use secnano.Types.{RegisteredGroup}
use secnano.Effect.{Result, ok, raised}
use secnano.Db.Table.{find_row}
use secnano.Db.Sort.{sort, ascending, any-sort}
use secnano.Db.Database.{Database, GroupRow}
use secnano.Db.Chats.{store_chat_metadata}
use secnano.Db.Groups.{
  folder_key, row_to_group, get_registered_group, list_registered_groups, upsert_registered_group,
  jid_taken, unique_failed,
}
use secnano.Db.Groups.Unique.{upsert_registered_group-outcome, stored_group}
use secnano.Host.{System, Host, ensure_group_dirs}
use secnano.Wiring.{
  Config, first_main, is_main_of, bootstrap_group, bootstrap, after_bootstrap,
  ensure_main_bootstrap,
}

-- Some registered group is a main group.
abbrev pub has_main : Database → Bool
has_main db = is_some (first_main (list_registered_groups db))

abbrev is_main_row : GroupRow → Bool
is_main_row r = is_main_of r.is_main

first_main-any :
    (rows : List GroupRow) → is_some (first_main (map row_to_group rows)) ≡ any is_main_row rows
unfolding first_main row_to_group any
first_main-any [] = refl
first_main-any (r ∷ rows) = ground (arith, first_main-any rows)

has_main-any : (db : Database) → has_main db ≡ any is_main_row db.registered_groups
unfolding list_registered_groups
has_main-any db =
    first_main-any (sort (ascending (λ (r : GroupRow). r.added_at)) db.registered_groups)
    ∙ any-sort is_main_row (ascending (λ (r : GroupRow). r.added_at)) db.registered_groups

find_row-any :
    (folder : String) (r : GroupRow) (rows : List GroupRow)
    → find_row folder_key folder rows ≡ some r
    → is_main_row r ≡ true
    → any is_main_row rows ≡ true
unfolding find_row any
find_row-any folder r [] found main = cc
find_row-any folder r (x ∷ rows) found main =
    ground (arith, found, main, find_row-any folder r rows)

found_main :
    (folder : String) (group : RegisteredGroup) (db : Database)
    → get_registered_group folder db ≡ some group
    → is_main_of group.is_main ≡ true
    → any is_main_row db.registered_groups ≡ true
unfolding get_registered_group row_to_group
found_main folder group db found main =
    elim (Option-cases (find_row folder_key folder db.registered_groups)) [
      | inl e ↦ let other : none ≡ some group = rw e at found in absurd (cc)
      | inr (r, e) ↦
          let same : some (row_to_group r) ≡ some group = rw e at found in
          find_row-any folder r db.registered_groups e (ap is_main_some same ∙ main)
    ]
  where
    is_main_some : Option RegisteredGroup → Bool
    is_main_some none = false
    is_main_some (some g) = is_main_of g.is_main

first_main-is_main :
    (groups : List RegisteredGroup) (group : RegisteredGroup)
    → first_main groups ≡ some group
    → is_main_of group.is_main ≡ true
unfolding first_main
first_main-is_main [] group h = absurd (cc)
first_main-is_main (g ∷ groups) group h = elim (Bool-cases (is_main_of g.is_main)) [
  | inl e ↦ let same : some g ≡ some group = rw e at h in ap main_of (sym same) ∙ e
  | inr e ↦ first_main-is_main groups group (rw e at h)
]
  where
    main_of : Option RegisteredGroup → Bool
    main_of none = false
    main_of (some x) = is_main_of x.is_main

-- What the bootstrap gives.
pub record IsBootstrapped (h h' : Host) (group : RegisteredGroup) : Type 0 where
  pub main : is_main_of group.is_main ≡ true
  pub has : has_main h'.db ≡ true
  pub kept : has_main h.db ≡ true → h'.db ≡ h.db

module _ (sys : System) (config : Config) where
  -- The group that is registered where there is no main group.
  abbrev pub wanted : Host → RegisteredGroup
  wanted h =
      bootstrap_group config (sys.clock h.ticks)
        (get_registered_group config.default_main_folder h.db)

  bootstrap_group-is_main :
      (now : String) (existing : Option RegisteredGroup)
      → is_main_of (bootstrap_group config now existing).is_main ≡ true
  bootstrap_group-is_main now none = refl
  bootstrap_group-is_main now (some group) = refl

  registered_main :
      (group : RegisteredGroup) (db : Database)
      → is_main_of group.is_main ≡ true
      → jid_taken group db ≡ false
      → ((upsert_registered_group group db).0 ≡ ok tt)
        × (any is_main_row (upsert_registered_group group db).1.registered_groups ≡ true)
  registered_main group db main free =
      elim (upsert_registered_group-outcome group db group.folder) [
        | inl (taken, raises) ↦ absurd (cc)
        | inr (free', done, found) ↦ (
          done,
          found_main group.folder (stored_group group) (upsert_registered_group group db).1
              (found ∙ rw (eq_refl group.folder) refl) main,
        )
      ]

  after_bootstrap-has_main :
      (group : RegisteredGroup) (now : String) (h : Host)
      → any is_main_row h.db.registered_groups ≡ true
      → has_main (after_bootstrap sys config group now (ok tt) h).1.db ≡ true
  unfolding store_chat_metadata ensure_group_dirs
  after_bootstrap-has_main group now h main =
      has_main-any (after_bootstrap sys config group now (ok tt) h).1.db ∙ main

  bootstrap-outcome :
      (h : Host)
      → has_main h.db ≡ false
      → (jid_taken (wanted h) h.db ≡ true)
          × ((bootstrap sys config h).0 ≡ raised unique_failed)
          × ((bootstrap sys config h).1.db ≡ h.db)
        ⊎ ((bootstrap sys config h).0 ≡ ok (wanted h))
          × IsBootstrapped h (bootstrap sys config h).1 (wanted h)
  unfolding bootstrap
  bootstrap-outcome h no_main =
      let now = sys.clock h.ticks in
      let ticked = record h { ticks = h.ticks + 1 } in
      elim (upsert_registered_group-outcome (wanted h) h.db (wanted h).folder) [
        | inl (taken, raises) ↦ inl (
          taken,
          rw (ap (λ (r : Result (Unit {0}) × Database). r.0) raises) refl,
          rw (ap (λ (r : Result (Unit {0}) × Database). r.0) raises)
              (ap (λ (r : Result (Unit {0}) × Database). r.1) raises),
        )
        | inr (free, done, found) ↦
            let (again, main) =
              registered_main (wanted h) h.db
                (bootstrap_group-is_main now (get_registered_group config.default_main_folder h.db))
                free in
            let registered = record ticked { db = (upsert_registered_group (wanted h) h.db).1 } in
            inr (
              rw done refl,
              record {
                main =
                    bootstrap_group-is_main now
                      (get_registered_group config.default_main_folder h.db);
                has = rw done (after_bootstrap-has_main (wanted h) now registered main);
                kept = λ other. absurd (cc);
              },
            )
      ]

  -- At the start of the host: either the jid of the group that is to become the main group belongs to
  -- another folder, and then the UNIQUE error is raised and the database is as it was; or a main group
  -- is returned, some registered group is one afterwards, and if one was before, the database is as
  -- it was.
  pub ensure_main_bootstrap-outcome :
      (h : Host)
      → (jid_taken (wanted h) h.db ≡ true)
          × ((ensure_main_bootstrap sys config h).0 ≡ raised unique_failed)
          × ((ensure_main_bootstrap sys config h).1.db ≡ h.db)
        ⊎ (group : RegisteredGroup) × ((ensure_main_bootstrap sys config h).0 ≡ ok group)
          × IsBootstrapped h (ensure_main_bootstrap sys config h).1 group
  unfolding ensure_main_bootstrap ensure_group_dirs
  ensure_main_bootstrap-outcome h = elim (Option-cases (first_main (list_registered_groups h.db))) [
    | inl e ↦
        let no_main : has_main h.db ≡ false = ap is_some e in
        rw e (elim (bootstrap-outcome h no_main) [
          | inl raises ↦ inl raises
          | inr made ↦ inr (wanted h, made.0, made.1)
        ])
    | inr (group, e) ↦
        let main = first_main-is_main (list_registered_groups h.db) group e in
        let there : has_main h.db ≡ true = ap is_some e in
        rw e (inr (group, refl, record { main = main; has = there; kept = λ same. refl }))
  ]
