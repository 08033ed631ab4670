-- ===== src/Tests/Links.antt =====
-- A symbolic link in a directory, to a file of the directory above it.
use agentfs.Base.{ℕ, ◌+◌, ◌≤◌, ◌<◌, ◌≡◌, refl, arith, some, [], ◌∷◌, Str}
use agentfs.Db.{Inode}
use agentfs.Fs.{Fs, root_ino, ok, err, symlink_loop, stats_of}
use agentfs.Fs.Create.{symlink, create_file, mkdir, new_inode}
use agentfs.Fs.Created.Invariant.{symlink-Inv}
use agentfs.Fs.Wf.{Inv, IsDirAt}
use agentfs.Db.Mode.{s_ifreg, s_iflnk, typed_mode}
use agentfs.ByPath.{stat, max_symlink_depth}
use agentfs.ByPath.Follows.{Leads, here, through, stat_lem}
use agentfs.Path.{slash}
use agentfs.Tests.Setup.{map_lru, at, name_a, name_b, name_d, with_dir, with_dir-Inv}

program : Unit {0}
unfolding symlink create_file mkdir agentfs.Fs.Schema.initialize_schema agentfs.Fs.lookup_child
    agentfs.Db.Dentries.select agentfs.Db.Dentries.append agentfs.Db.Mode.file_type
    agentfs.Db.Dentries.find agentfs.Db.Dentries.is_at agentfs.Base.same typed_mode
    agentfs.Fs.Resolve.walk agentfs.Path.Normal.kept agentfs.Path.Normal.ups agentfs.Path.split
    agentfs.Path.nonempty agentfs.Path.pop
program = tt

-- "../a"
abbrev target : Str
target = b'.' ∷ b'.' ∷ slash ∷ name_a

-- "/d/b"
abbrev path : Str
path = slash ∷ b'd' ∷ slash ∷ name_b

abbrev with_link : Fs map_lru
with_link = (symlink at 3 name_b target 0 0 with_dir).1

dir_d : IsDirAt 3 with_dir.db
unfolding program
dir_d = (_, refl, refl)

with_link-Inv : Inv with_link
with_link-Inv = symlink-Inv 3 name_b with_dir with_dir-Inv dir_d at target 0 0

abbrev file_row : Inode
file_row = record (new_inode at (typed_mode s_ifreg 0o644) 0 0) { nlink = 1 }

to_file : Leads with_link.db 1 (name_d ∷ name_b ∷ []) 2 file_row
unfolding program
to_file = through 0 _ 4 _ target 2 file_row refl refl refl refl (here _ 2 file_row refl refl refl)

stat_lem_example :
    (1 < max_symlink_depth → (stat path with_link).0 ≡ ok (some (stats_of 2 file_row)))
    × (max_symlink_depth ≤ 1 → (stat path with_link).0 ≡ err symlink_loop)
unfolding program
stat_lem_example = stat_lem path with_link 1 2 file_row with_link-Inv refl to_file
