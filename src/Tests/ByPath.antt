-- ===== src/Tests/ByPath.antt =====
-- The operations by path.
use agentfs.Base.{◌≡◌, refl, arith, Option, none, some, [], ◌∷◌, ◌+◌, true, false}
use agentfs.Db.Dentries.{find}
use agentfs.Fs.{ok, err, not_found, root_ino, stats_of}
use agentfs.Fs.Create
use agentfs.Fs.Wf.{Inv, IsDirAt, HasRoom}
use agentfs.Path.{normalize_path, split_path, is_empty, starts_with, slash}
use agentfs.ByPath.{stat, stat_with_conn, lstat, readlink, open_file, name_of}
use agentfs.ByPath.Kept.{parent_walk, made_by_path-Inv}
use agentfs.ByPath.Linked.{link_by_path-Inv}
use agentfs.ByPath.Lookup.{lstat-mkdir, readlink-symlink}
use agentfs.ByPath.Made.{directory_row}
use agentfs.ByPath.Make.{mkdir, mknod, create_file, symlink, link}
use agentfs.ByPath.Remove
use agentfs.ByPath.Removed.{remove-Inv}
use agentfs.ByPath.Renamed.{rename_by_path_fails}
use agentfs.Tests.Setup.{
  at, name_a, name_b, with_file, with_file-Inv, with_file_dir, with_dir, with_dir-Inv,
}

program : Unit {0}
unfolding Create.create_file Create.mkdir agentfs.Fs.Schema.initialize_schema
    agentfs.Fs.lookup_child agentfs.Db.Dentries.select agentfs.Db.Dentries.append
    agentfs.Db.Mode.file_type find agentfs.Db.Dentries.is_at agentfs.Base.same
    agentfs.Db.Mode.typed_mode agentfs.Fs.Resolve.walk normalize_path split_path agentfs.Path.split
    agentfs.Path.nonempty agentfs.Path.join agentfs.ByPath.resolve_known
    agentfs.Fs.Resolve.resolve_path agentfs.Fs.Resolve.resolve_from Remove.rename agentfs.Path.pop
    agentfs.Path.trim_end agentfs.Path.resolve_dots
program = tt

abbrev path_a : agentfs.Base.Str
path_a = slash ∷ name_a

abbrev path_b : agentfs.Base.Str
path_b = slash ∷ name_b

room : HasRoom with_dir.db
unfolding program
room = omega arith

to_root : parent_walk path_b with_file ≡ some root_ino
unfolding program
to_root = refl

in_root : (p : agentfs.Base.ℕ) → parent_walk path_b with_file ≡ some p → IsDirAt p with_file.db
in_root p h = let e : root_ino ≡ p = ground (arith, to_root) in rw (← e) with_file_dir

made_by_path-Inv_example :
    Inv (mkdir at path_b 0 0 with_file).1
    × Inv (mknod at path_b 0o010644 0 0 0 with_file).1
    × Inv (create_file at path_b 0o010644 0 0 with_file).1
    × Inv (symlink at name_a path_b 0 0 with_file).1
made_by_path-Inv_example =
    made_by_path-Inv path_b with_file with_file-Inv in_root at 0o010644 0 0 0 name_a

link_by_path-Inv_example : Inv (link path_a path_b with_file).1
link_by_path-Inv_example = link_by_path-Inv path_a path_b with_file with_file-Inv in_root

remove-Inv_example : Inv (Remove.remove at path_a with_dir).1
remove-Inv_example = remove-Inv at path_a with_dir refl with_dir-Inv room

below : is_empty (split_path (normalize_path path_b)) ≡ false
unfolding program
below = refl

free : find root_ino (name_of (split_path (normalize_path path_b))) with_file.db.dentry ≡ none
unfolding program
free = refl

lstat-mkdir_example :
    ((mkdir at path_b 7 7 with_file).0 ≡ ok tt)
    × ((lstat path_b (mkdir at path_b 7 7 with_file).1).0
        ≡ ok (some (stats_of (with_file.db.last_ino + 1) (directory_row at 7 7))))
lstat-mkdir_example =
    lstat-mkdir at path_b 7 7 with_file with_file-Inv refl below root_ino to_root with_file_dir free

readlink-symlink_example :
    ((symlink at name_a path_b 7 7 with_file).0 ≡ ok tt)
    × ((readlink path_b (symlink at name_a path_b 7 7 with_file).1).0 ≡ ok (some name_a))
readlink-symlink_example =
    readlink-symlink at path_b 7 7 with_file with_file-Inv refl below root_ino to_root with_file_dir
      free name_a

no_source : (Remove.rename at path_b path_a with_file).0 ≡ err not_found
unfolding program
no_source = refl

rename_by_path_fails_example : (Remove.rename at path_b path_a with_file).1.db ≡ with_file.db
rename_by_path_fails_example =
    rename_by_path_fails at path_b path_a with_file not_found with_file-Inv no_source
