-- ===== src/Tests/Tree.antt =====
-- The operations on the tree of directories.
use agentfs.Base.{◌≤◌, ◌≡◌, ◌≢◌, refl, arith, none, some, [], ◌∷◌, length, same, false, true}
use agentfs.Db.{Db, Inode, i64_mod, dec, set_mtime_ctime}
use agentfs.Db.Dentries.{key_eq, find, count_children, links}
use agentfs.Db.Mode.{file_type, typed_mode, s_ifdir, s_ifreg}
use agentfs.Fs.{ok, err, not_found, root_ino, is_directory, max_name_len, lookup_child}
use agentfs.Fs.Attr.{dot_dot}
use agentfs.Fs.Create.{new_inode, mkdir, create_file}
use agentfs.Fs.Listing.{readdir}
use agentfs.Fs.Listing.Sorted.{IsSorted, has_name, readdir-find}
use agentfs.Base.{List, Str, not, ◌&&◌}
use agentfs.Path.{is_empty}
use agentfs.Fs.{is_some}
use agentfs.Fs.Reach.{Reach-Inv}
use agentfs.Fs.Remove.{unlink, rmdir}
use agentfs.Fs.Removed.Rmdir.{rmdir_leaves_row}
use agentfs.Fs.Removed.Last.{IsUnlinked, unlink_lem}
use agentfs.Fs.Rename.{rename}
use agentfs.Fs.Renamed.Outcome.{rename-Inv, rename_fails}
use agentfs.Fs.Resolve.{resolve_path, resolve_path-walk, walk}
use agentfs.Fs.Schema.{initialize_schema}
use agentfs.Fs.Wf.{Inv, HasRoom}
use agentfs.Path.{split_path}
use agentfs.Tests.Setup.{
  at, name_a, name_b, name_d, with_file, with_file-Reach, with_file-Inv, with_dir, with_dir-Inv,
  with_dir_root,
}

program : Unit {0}
unfolding create_file mkdir initialize_schema lookup_child agentfs.Db.Dentries.select
    agentfs.Db.Dentries.append file_type find agentfs.Db.Dentries.is_at same links count_children
    rename rmdir unlink typed_mode agentfs.Db.Dentries.move agentfs.Db.Dentries.remove
program = tt

room : HasRoom with_dir.db
unfolding program
room = omega arith

abbrev file_row : Inode
file_row = record (new_inode at (typed_mode s_ifreg 0o644) 0 0) { nlink = 1 }

abbrev dir_row : Inode
dir_row = record (new_inode at (typed_mode s_ifdir 0o755) 0 0) { nlink = 2 }

file_at : with_dir.db.inode 2 ≡ some file_row
unfolding program
file_at = refl

dir_at : with_dir.db.inode 3 ≡ some dir_row
unfolding program
dir_at = refl

entry_d : find root_ino name_d with_dir.db.dentry ≡ some 3
unfolding program
entry_d = refl

is_dir : is_directory dir_row ≡ true
unfolding program
is_dir = refl

two : dir_row.nlink ≡ 2
two = refl

empty : count_children 3 with_dir.db.dentry ≡ 0
unfolding program
empty = refl

short : length name_d ≤ max_name_len
short = omega arith

not_root : 3 ≢ root_ino
not_root e = absurd (omega arith)

-- A file renamed onto itself is removed from the database with its entry; the cache still has it.
rename_itself :
    ((rename at at root_ino name_a root_ino name_a with_file).0 ≡ ok tt)
    × ((rename at at root_ino name_a root_ino name_a with_file).1.db.inode 2 ≡ none)
    × ((rename at at root_ino name_a root_ino name_a with_file).1.db.dentry ≡ [])
unfolding program
rename_itself = (refl, refl, refl)

Reach-Inv_example : Inv with_file
Reach-Inv_example = Reach-Inv with_file-Reach

entry_a : find root_ino name_a with_dir.db.dentry ≡ some 2
unfolding program
entry_a = refl

is_file : is_directory file_row ≡ false
unfolding program
is_file = refl

unlink_lem_example :
    ((unlink at root_ino name_a with_dir).0 ≡ ok tt)
    × IsUnlinked root_ino name_a 2 with_dir (unlink at root_ino name_a with_dir).1
unlink_lem_example =
    unlink_lem at root_ino name_a with_dir with_dir-Inv room 2 file_row entry_a file_at is_file refl

apart : key_eq root_ino name_b root_ino name_a ≡ false
unfolding same
apart = refl

rename-Inv_example : Inv (rename at at root_ino name_a root_ino name_b with_dir).1
rename-Inv_example =
    rename-Inv at at root_ino name_a root_ino name_b with_dir with_dir-Inv room with_dir_root apart

resolve_path-walk_example :
    ((resolve_path (b'/' ∷ name_a) with_dir).0
      ≡ ok (walk (split_path (b'/' ∷ name_a)) root_ino with_dir.db.dentry))
    × ((resolve_path (b'/' ∷ name_a) with_dir).1.db ≡ with_dir.db)
    × Inv (resolve_path (b'/' ∷ name_a) with_dir).1
resolve_path-walk_example = resolve_path-walk (b'/' ∷ name_a) with_dir with_dir-Inv

rmdir_leaves_row_example :
    ((rmdir at root_ino name_d with_dir).0 ≡ ok tt)
    × ((rmdir at root_ino name_d with_dir).1.db.inode 3 ≡ some (record dir_row { nlink = 1 }))
    × (links 3 (rmdir at root_ino name_d with_dir).1.db.dentry ≡ 0)
rmdir_leaves_row_example =
    rmdir_leaves_row at root_ino name_d with_dir 3 dir_row with_dir-Inv short entry_d not_root
      dir_at is_dir two empty

no_source : (rename at at root_ino name_b root_ino name_d with_file).0 ≡ err not_found
unfolding program
no_source = refl

rename_fails_example : (rename at at root_ino name_b root_ino name_d with_file).1 ≡ with_file
rename_fails_example =
    rename_fails at at root_ino name_b root_ino name_d with_file not_found with_file-Inv no_source

short_b : length name_b ≤ max_name_len
short_b = omega arith

not_dots : same name_b dot_dot ≡ false
unfolding program
not_dots = refl

free_b : find root_ino name_b with_file.db.dentry ≡ none
unfolding program
free_b = refl

readdir-find_example :
    (ns : List Str) × (readdir root_ino with_dir ≡ (ok (some ns), with_dir))
    × IsSorted ns
    × ((n : Str)
        → has_name n ns ≡ (not (is_empty n) && is_some (find root_ino n with_dir.db.dentry)))
readdir-find_example = readdir-find root_ino with_dir with_dir_root
