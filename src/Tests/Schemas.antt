-- ===== src/Tests/Schemas.antt =====
-- Migrations of a database of the first version.
use agentfs.Base.{◌≡◌, refl, true, false, none, some, [], ◌∷◌, ◌==◌, same, if◌then◌else◌}
use agentfs.Migrate.{
  Table, Database, Faults, has, is_current, version_of, nlink, ctime_nsec, compatible,
  check_schema_version, handle_migrate_command,
}
use agentfs.Migrate.Columns.{quiet, holding, Keeps}
use agentfs.Migrate.Kept.{migrate_lem}
use agentfs.Migrate.Resumed.{handle_migrate_command_again}

-- Its columns are "ino" and "mode", and there is one inode.
abbrev old_table : Table
old_table = record {
  columns = (105 ∷ 110 ∷ 111 ∷ []) ∷ (109 ∷ 111 ∷ 100 ∷ 101 ∷ []) ∷ [];
  row = λ ino. if ino == 1 then some (λ c. 7) else none;
}

abbrev full_disk : Faults
full_disk c = if same c ctime_nsec then some 28 else none

old_table-IsOld : is_current (version_of old_table.columns) ≡ false
unfolding is_current has same
old_table-IsOld = refl

migrate_lem_example :
    ((handle_migrate_command quiet false (holding none old_table)).0 ≡ none)
    × (check_schema_version (handle_migrate_command quiet false (holding none old_table)).1
        ≡ compatible)
    × ((t' : Table) × ((handle_migrate_command quiet false (holding none old_table)).1.fs_inode
          ≡ some t')
        × (has nlink t'.columns ≡ true)
        × Keeps old_table t')
migrate_lem_example = migrate_lem none old_table old_table-IsOld

-- A migration that stopped at the third of the four columns.
abbrev halted : Database
halted = (handle_migrate_command full_disk false (holding none old_table)).1

handle_migrate_command_again_example :
    (handle_migrate_command quiet false halted).1.fs_inode
    ≡ (handle_migrate_command quiet false (holding none old_table)).1.fs_inode
handle_migrate_command_again_example =
    handle_migrate_command_again full_disk (holding none old_table)
