-- ===== src/Migrate.antt =====
-- Schema versions (sdk/rust/src/schema.rs) and the migrate command (cli/src/cmd/migrate.rs): the
-- columns of `fs_inode`, what is detected from them, and the columns that a migration adds.
pub mod Columns
pub mod Kept
pub mod Resumed
use agentfs.Base.{
  ℕ, Bool, true, false, ◌&&◌, ◌||◌, if◌then◌else◌, Option, none, some, List, [], ◌∷◌, ◌++◌, Str,
  same,
}

-- `SchemaVersion`
pub data SchemaVersion : Type 0 where
  v0_0 : SchemaVersion
  v0_2 : SchemaVersion
  v0_4 : SchemaVersion

-- "0.0", "0.2" and "0.4"
unfoldable pub as_str : SchemaVersion → Str
as_str v0_0 = 48 ∷ 46 ∷ 48 ∷ []
as_str v0_2 = 48 ∷ 46 ∷ 50 ∷ []
as_str v0_4 = 48 ∷ 46 ∷ 52 ∷ []

unfoldable pub is_current : SchemaVersion → Bool
is_current v0_0 = false
is_current v0_2 = false
is_current v0_4 = true

-- `AGENTFS_SCHEMA_VERSION`
abbrev pub agentfs_schema_version : Str
agentfs_schema_version = 48 ∷ 46 ∷ 52 ∷ []

-- The columns "nlink", "atime_nsec", "mtime_nsec", "ctime_nsec" and "rdev"
abbrev pub nlink : Str
nlink = 110 ∷ 108 ∷ 105 ∷ 110 ∷ 107 ∷ []

abbrev pub time_nsec : ℕ → Str
time_nsec x = x ∷ 116 ∷ 105 ∷ 109 ∷ 101 ∷ 95 ∷ 110 ∷ 115 ∷ 101 ∷ 99 ∷ []

abbrev pub atime_nsec : Str
atime_nsec = time_nsec 97

abbrev pub mtime_nsec : Str
mtime_nsec = time_nsec 109

abbrev pub ctime_nsec : Str
ctime_nsec = time_nsec 99

abbrev pub rdev : Str
rdev = 114 ∷ 100 ∷ 101 ∷ 118 ∷ []

-- `fs_inode` with the columns of its definition, and the rows by inode number.
pub record Table : Type 0 where
  pub columns : List Str
  pub row : ℕ → Option (Str → ℕ)

-- The tables that are looked at: `fs_inode`, if it is there, and the value of `schema_version` in
-- `fs_config`.
pub record Database : Type 0 where
  pub fs_inode : Option Table
  pub schema_version : Option Str

-- `columns.iter().any(|c| c.name == …)`
unfoldable pub has : Str → List Str → Bool
has c [] = false
has c (d ∷ ds) = same d c || has c ds

abbrev pub version_of : List Str → SchemaVersion
version_of columns =
    if has atime_nsec columns
      && (has mtime_nsec columns && (has ctime_nsec columns && has rdev columns))
    then v0_4
    else if has nlink columns
    then v0_2
    else v0_0

unfoldable pub detect_schema_version : Database → Option SchemaVersion
detect_schema_version db = elim db.fs_inode [ none ↦ none | some t ↦ some (version_of t.columns) ]

-- The version that was found and the one that was expected.
pub data VersionCheck : Type 0 where
  compatible : VersionCheck
  mismatch : Str → Str → VersionCheck

unfoldable pub check_schema_version : Database → VersionCheck
check_schema_version db = elim (detect_schema_version db) [
  | none ↦ compatible
  | some v ↦ if is_current v then compatible else mismatch (as_str v) agentfs_schema_version
]

-- What `conn.execute` may answer to an ALTER: the column is there already, there is no such table,
-- or another failure of the engine, which leaves the tables as they are.
pub data Alter : Type 0 where
  added : Database → Alter
  duplicate_column : Alter
  no_such_table : Alter
  engine_failed : ℕ → Alter

pub data MigrateError : Type 0 where
  no_table : Str → MigrateError
  engine : Str → ℕ → MigrateError

-- The failures of the engine, by the column that was to be added.
abbrev pub Faults : Type 0
Faults = Str → Option ℕ

-- `ALTER TABLE fs_inode ADD COLUMN c INTEGER NOT NULL DEFAULT 0`
abbrev pub with_column : Str → Table → Table
with_column c t = record {
  columns = t.columns ++ (c ∷ []);
  row = λ ino. elim (t.row ino) [ none ↦ none | some r ↦ some (λ d. if same c d then 0 else r d) ];
}

unfoldable pub alter : Faults → Str → Database → Alter
alter faults c db = elim (faults c) [
  | some e ↦ engine_failed e
  | none ↦ elim db.fs_inode [
    | none ↦ no_such_table
    | some t ↦
        if has c t.columns
        then duplicate_column
        else added (record db { fs_inode = some (with_column c t) })
  ]
]

-- An error, if there was one, and the tables that are left.
abbrev pub Migrated : Type 0
Migrated = Option MigrateError × Database

unfoldable pub altered : Str → Database → Alter → Migrated
altered c db (added db') = (none, db')
altered c db duplicate_column = (none, db)
altered c db no_such_table = (some (no_table c), db)
altered c db (engine_failed e) = (some (engine c e), db)

unfoldable pub add_column_idempotent : Faults → Str → Database → Migrated
add_column_idempotent faults c db = altered c db (alter faults c db)

-- `?` between two steps
unfoldable pub and_then : Migrated → (Database → Migrated) → Migrated
and_then (some e, db) step = (some e, db)
and_then (none, db) step = step db

unfoldable pub migrate_v0_0_to_v0_2 : Faults → Database → Migrated
migrate_v0_0_to_v0_2 faults db = add_column_idempotent faults nlink db

unfoldable pub migrate_v0_2_to_v0_4 : Faults → Database → Migrated
migrate_v0_2_to_v0_4 faults db = and_then (add_column_idempotent faults atime_nsec db) (λ db.
    and_then (add_column_idempotent faults mtime_nsec db) (λ db.
      and_then (add_column_idempotent faults ctime_nsec db)
        (λ db. add_column_idempotent faults rdev db)))

unfoldable pub apply_migrations : Faults → SchemaVersion → Database → Migrated
apply_migrations faults v0_0 db =
    and_then (migrate_v0_0_to_v0_2 faults db) (migrate_v0_2_to_v0_4 faults)
apply_migrations faults v0_2 db = migrate_v0_2_to_v0_4 faults db
apply_migrations faults v0_4 db = (none, db)

-- `unwrap_or(SchemaVersion::V0_0)`
abbrev pub current_version : Database → SchemaVersion
current_version db = elim (detect_schema_version db) [ none ↦ v0_0 | some v ↦ v ]

-- `INSERT OR REPLACE INTO fs_config`, a table that every version has
abbrev pub store_version : Database → Migrated
store_version db = (none, record db { schema_version = some agentfs_schema_version })

-- The command, once the database is open.
unfoldable pub handle_migrate_command : Faults → Bool → Database → Migrated
handle_migrate_command faults dry_run db =
    let version = current_version db in
    if is_current version
    then (none, db)
    else if dry_run
    then (none, db)
    else and_then (apply_migrations faults version db) store_version
