-- ===== src/Tests/Layers.antt =====
-- The operations of the overlay over both layers.
use agentfs.Base.{
  false, get_or, ℕ, ◌+◌, ◌<◌, ◌≡◌, refl, arith, none, some, [], ◌∷◌, Str, same, true, if◌then◌else◌,
}
use agentfs.Db.{Inode}
use agentfs.Db.Dentries.{find}
use agentfs.Db.Mode.{typed_mode, s_ifreg}
use agentfs.Fs.Attr.{dot_dot}
use agentfs.OpenFile.{OpenFile}
use agentfs.OpenFile.View.{file_size, file_byte}
use agentfs.Fs.{ok, Stats}
use agentfs.Path.{root_path, slash}
use agentfs.Path.Clean.{all_names, no_slash}
use agentfs.Path.Normal.{rendered}
use agentfs.Overlay.{InodeInfo, OverlayFs, get_origin_ino, in_delta, new, child_path}
use agentfs.Overlay.CopyUp.{BaseLayer, Setting, copy_file}
use agentfs.Overlay.Copied.{copy_file_lem}
use agentfs.Overlay.Gone.Removed.{unlink-lookup, rmdir-lookup, rename-lookup}
use agentfs.Overlay.Inodes as Maps
use agentfs.Overlay.Lookup.{Session, lookup}
use agentfs.Overlay.Listing.{readdir, listed_base, base_names_at}
use agentfs.Overlay.Whiteouts.{is_whiteout, IsLoaded}
use agentfs.Overlay.Reload.{remount, remount_lem}
use agentfs.Overlay.Remove.{unlink, rmdir, rename}
use agentfs.Overlay.Runs.{OverlayRun, start, call, to_lookup, after, OverlayRun-Inv}
use agentfs.Tests.Setup.{map_lru, at, name_a, name_b, name_d, with_dir, with_dir-Inv, with_dir_root}

abbrev stats_of_base : ℕ → ℕ → Stats
stats_of_base ino mode = record {
  ino = ino;
  mode = mode;
  nlink = 1;
  uid = 0;
  gid = 0;
  size = 2;
  atime = 0;
  mtime = 0;
  ctime = 0;
  atime_nsec = 0;
  mtime_nsec = 0;
  ctime_nsec = 0;
  rdev = 0;
}

-- A base with the file `b`, inode 9, of two bytes.
abbrev base : BaseLayer
base = record {
  lookup = λ p n. if same n name_b then ok (some (stats_of_base 9 0o100640)) else ok none;
  getattr = λ i. ok (some (stats_of_base i 0o100640));
  readlink = λ i. ok none;
  readdir = λ i. ok (some (name_b ∷ []));
  readdir_plus = λ i. ok none;
  open_file = λ i. ok i;
  pread = λ h o n. ok (7 ∷ 8 ∷ []);
}

abbrev setting : Setting
setting = record { clock = λ k. at; made = at; written = at; chunk_size = 4096 }

abbrev session : Session map_lru
session = record { delta = with_dir; overlay = new }

abbrev root_info : InodeInfo
root_info = record { layer = in_delta; underlying_ino = 1; path = root_path }

root_row : new.inode_map 1 ≡ some root_info
unfolding new
root_row = refl

room : new.next_ino + 2 < agentfs.Overlay.i64_range
unfolding new
room = omega arith

one_call : OverlayRun (after base setting (to_lookup 1 name_b) session)
one_call = call session base setting (to_lookup 1 name_b) (start with_dir) room

OverlayRun-Inv_example : Maps.Inv (after base setting (to_lookup 1 name_b) session).overlay
OverlayRun-Inv_example = OverlayRun-Inv one_call

-- What `unlink` leaves.
unlinked :
    ((unlink base at 5 1 name_b session).0 ≡ ok tt)
    × ((unlink base at 5 1 name_b session).1.overlay.inode_map 1 ≡ some root_info)
unfolding unlink agentfs.Overlay.Change.known lookup new agentfs.Overlay.build_path same
    agentfs.Overlay.Whiteouts.is_whiteout agentfs.Overlay.Whiteouts.is_hidden
    agentfs.Overlay.Whiteouts.contains agentfs.Path.split agentfs.Path.nonempty
    agentfs.Overlay.Lookup.unless_hidden agentfs.Overlay.Lookup.lookup_visible
    agentfs.Overlay.Lookup.resolve_delta_parent agentfs.Overlay.Lookup.lookup_delta
    agentfs.Overlay.Lookup.delta_or_base agentfs.Overlay.Lookup.lookup_base
    agentfs.Overlay.Lookup.number agentfs.Overlay.get_or_create_overlay_ino
    agentfs.Overlay.alloc_ino agentfs.Overlay.Remove.in_parent agentfs.Overlay.Remove.hide_visible
    agentfs.Overlay.Remove.hide agentfs.Overlay.Whiteouts.create_whiteout
    agentfs.Overlay.Whiteouts.insert agentfs.Fs.Attr.lookup agentfs.Fs.Attr.lookup_row
    agentfs.Fs.lookup_child agentfs.Db.Dentries.select agentfs.Db.Dentries.append
    agentfs.Fs.Remove.unlink agentfs.Fs.Create.create_file agentfs.Fs.Create.mkdir
    agentfs.Fs.Schema.initialize_schema agentfs.Db.Mode.file_type agentfs.Db.Dentries.is_at
unlinked = (refl, refl)

path_of_b : child_path root_info.path name_b ≡ rendered (name_b ∷ [])
unfolding same agentfs.Path.join
path_of_b = refl

plain_b : all_names (name_b ∷ []) ≡ true
unfolding all_names no_slash
plain_b = refl

unlink-lookup_example :
    (lookup base.lookup 1 name_b (unlink base at 5 1 name_b session).1).0 ≡ ok none
unlink-lookup_example =
    unlink-lookup base at 5 1 name_b session root_info root_info name_b [] root_row path_of_b
      plain_b unlinked.0 unlinked.1 refl

-- The directory `d` of the delta.
removed :
    ((rmdir base at 5 1 name_d session).0 ≡ ok tt)
    × ((rmdir base at 5 1 name_d session).1.overlay.inode_map 1 ≡ some root_info)
unfolding rmdir agentfs.Overlay.Change.known lookup new agentfs.Overlay.build_path same
    agentfs.Overlay.Whiteouts.is_whiteout agentfs.Overlay.Whiteouts.is_hidden
    agentfs.Overlay.Whiteouts.contains agentfs.Path.split agentfs.Path.nonempty
    agentfs.Overlay.Lookup.unless_hidden agentfs.Overlay.Lookup.lookup_visible
    agentfs.Overlay.Lookup.resolve_delta_parent agentfs.Overlay.Lookup.lookup_delta
    agentfs.Overlay.Lookup.delta_or_base agentfs.Overlay.Lookup.lookup_base
    agentfs.Overlay.Lookup.number agentfs.Overlay.get_or_create_overlay_ino
    agentfs.Overlay.alloc_ino agentfs.Overlay.Remove.in_parent agentfs.Overlay.Remove.hide_visible
    agentfs.Overlay.Remove.hide agentfs.Overlay.Whiteouts.create_whiteout
    agentfs.Overlay.Whiteouts.insert agentfs.Fs.Attr.lookup agentfs.Fs.Attr.lookup_row
    agentfs.Fs.lookup_child agentfs.Db.Dentries.select agentfs.Db.Dentries.append
    agentfs.Fs.Remove.unlink agentfs.Fs.Create.create_file agentfs.Fs.Create.mkdir
    agentfs.Fs.Schema.initialize_schema agentfs.Db.Mode.file_type agentfs.Db.Dentries.is_at
    agentfs.Overlay.Listing.readdir agentfs.Overlay.Listing.delta_names
    agentfs.Overlay.Listing.base_names agentfs.Overlay.Listing.listed_base
    agentfs.Overlay.Listing.base_names_at agentfs.Overlay.Listing.add_names
    agentfs.Fs.Listing.list_names agentfs.Fs.Listing.names agentfs.Fs.Listing.order_by_name
    agentfs.Fs.Listing.in_directory agentfs.Overlay.Lookup.walk_base agentfs.Fs.Remove.rmdir
    agentfs.Db.Dentries.count_children agentfs.Db.Mode.typed_mode
    agentfs.Overlay.Lookup.number_delta agentfs.Db.Dentries.remove
removed = (refl, refl)

path_of_d : child_path root_info.path name_d ≡ rendered (name_d ∷ [])
unfolding same agentfs.Path.join
path_of_d = refl

plain_d : all_names (name_d ∷ []) ≡ true
unfolding all_names no_slash
plain_d = refl

rmdir-lookup_example :
    (lookup base.lookup 1 name_d (rmdir base at 5 1 name_d session).1).0 ≡ ok none
rmdir-lookup_example =
    rmdir-lookup base at 5 1 name_d session root_info root_info name_d [] root_row path_of_d plain_d
      removed.0 removed.1 refl

-- The file `a` of the delta becomes `e`.
abbrev name_e : Str
name_e = b'e' ∷ []

renamed :
    ((rename base setting at at 5 1 name_a 1 name_e session).0 ≡ ok tt)
    × ((rename base setting at at 5 1 name_a 1 name_e session).1.overlay.inode_map 1
        ≡ some root_info)
unfolding rename agentfs.Overlay.Change.known lookup new agentfs.Overlay.build_path same
    agentfs.Overlay.Whiteouts.is_whiteout agentfs.Overlay.Whiteouts.is_hidden
    agentfs.Overlay.Whiteouts.contains agentfs.Path.split agentfs.Path.nonempty
    agentfs.Overlay.Lookup.unless_hidden agentfs.Overlay.Lookup.lookup_visible
    agentfs.Overlay.Lookup.resolve_delta_parent agentfs.Overlay.Lookup.lookup_delta
    agentfs.Overlay.Lookup.delta_or_base agentfs.Overlay.Lookup.lookup_base
    agentfs.Overlay.Lookup.number agentfs.Overlay.get_or_create_overlay_ino
    agentfs.Overlay.alloc_ino agentfs.Overlay.Remove.in_parent agentfs.Overlay.Remove.hide_visible
    agentfs.Overlay.Remove.hide agentfs.Overlay.Whiteouts.create_whiteout
    agentfs.Overlay.Whiteouts.insert agentfs.Fs.Attr.lookup agentfs.Fs.Attr.lookup_row
    agentfs.Fs.lookup_child agentfs.Db.Dentries.select agentfs.Db.Dentries.append
    agentfs.Fs.Remove.unlink agentfs.Fs.Create.create_file agentfs.Fs.Create.mkdir
    agentfs.Fs.Schema.initialize_schema agentfs.Db.Mode.file_type agentfs.Db.Dentries.is_at
    agentfs.Overlay.Remove.copy_source agentfs.Overlay.Remove.rename_in_delta
    agentfs.Overlay.CopyUp.ensure_parent_dirs agentfs.Overlay.CopyUp.ensure_dirs
    agentfs.Overlay.Whiteouts.remove_whiteout agentfs.Fs.Rename.rename agentfs.Db.Mode.typed_mode
    agentfs.Overlay.Lookup.number_delta agentfs.Db.Dentries.move
renamed = (refl, refl)

path_of_a : child_path root_info.path name_a ≡ rendered (name_a ∷ [])
unfolding same agentfs.Path.join
path_of_a = refl

plain_a : all_names (name_a ∷ []) ≡ true
unfolding all_names no_slash
plain_a = refl

rename-lookup_example :
    (lookup base.lookup 1 name_a (rename base setting at at 5 1 name_a 1 name_e session).1).0
    ≡ ok none
rename-lookup_example =
    rename-lookup base at 5 1 name_a setting at 1 name_e session root_info root_info root_info
      name_a [] root_row root_row path_of_a plain_a renamed.0 renamed.1 refl

new-IsLoaded : IsLoaded new
unfolding new agentfs.Overlay.Whiteouts.contains agentfs.Overlay.Whiteouts.has_row
new-IsLoaded p = refl

remount_lem_example :
    ((path : Str) → is_whiteout path (remount new) ≡ is_whiteout path new)
    × ((d : ℕ) → get_origin_ino d (remount new) ≡ get_origin_ino d new)
    × Maps.Inv (remount new)
remount_lem_example = remount_lem new Maps.new-Inv new-IsLoaded

free_b : find 1 name_b with_dir.db.dentry ≡ none
unfolding find same agentfs.Db.Dentries.append agentfs.Fs.Create.create_file agentfs.Fs.Create.mkdir
    agentfs.Fs.Schema.initialize_schema agentfs.Db.Dentries.is_at agentfs.Fs.lookup_child
    agentfs.Db.Dentries.select
free_b = refl

no_data : (k : ℕ) → with_dir.db.chunk (with_dir.db.last_ino + 1) k ≡ none
unfolding agentfs.Fs.Create.create_file agentfs.Fs.Create.mkdir agentfs.Fs.Schema.initialize_schema
    agentfs.Fs.lookup_child agentfs.Db.Dentries.select agentfs.Db.Dentries.append
    agentfs.Db.Dentries.is_at same
no_data k = refl

abbrev base_file : Stats
base_file = stats_of_base 9 0o100640

abbrev copy : OpenFile
copy = record { ino = with_dir.db.last_ino + 1; chunk_size = 4096 }

name_is : same name_b dot_dot ≡ false
unfolding same
name_is = refl

copy_file_lem_example :
    (t : Session map_lru) × (copy_file base setting 1 name_b 9 base_file session
      ≡ (ok (with_dir.db.last_ino + 1), t))
    × (t.overlay ≡ new)
    × (find 1 name_b t.delta.db.dentry ≡ some (with_dir.db.last_ino + 1))
    × (file_size copy t.delta.db ≡ 2)
    × ((i : ℕ) → file_byte copy t.delta.db i ≡ get_or (7 ∷ 8 ∷ []) i 0)
    × ((r : Inode) × (t.delta.db.inode (with_dir.db.last_ino + 1) ≡ some r)
        × (r.mode ≡ typed_mode s_ifreg 0o100640)
        × (r.uid ≡ 0)
        × (r.gid ≡ 0)
        × (r.nlink ≡ 1))
copy_file_lem_example =
    copy_file_lem base setting 1 name_b 9 base_file session with_dir-Inv with_dir_root (omega arith)
      name_is free_b no_data (7 ∷ 8 ∷ []) 9 (omega arith) (omega arith) refl refl
