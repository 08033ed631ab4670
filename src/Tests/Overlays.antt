-- ===== src/Tests/Overlays.antt =====
-- The overlay and the mount table.
use agentfs.Base.{ℕ, ◌≡◌, refl, arith, none, some, [], ◌∷◌, ◌++◌, Str, same, true, if◌then◌else◌}
use agentfs.Fs.{ok, Stats}
use agentfs.Path.{slash, root_path, split, nonempty}
use agentfs.Path.Clean.{all_names, no_slash}
use agentfs.Path.Normal.{rendered}
use agentfs.Overlay.{
  Layer, in_delta, in_base, InodeInfo, OverlayFs, new, get_or_create_overlay_ino, child_path,
}
use agentfs.Overlay.Inodes.{HasNumbers, new-Inv}
use agentfs.Overlay.Kept.{IsConsistent, lookup-IsConsistent, lookup-create_whiteout}
use agentfs.Overlay.Lookup.{Base, Session, lookup}
use agentfs.Overlay.Stable.{get_or_create_overlay_ino_lem}
use agentfs.Overlay.Whiteouts.{
  create_whiteout, remove_whiteout, load_whiteouts, contains, get_child_whiteouts, IsLoaded,
  is_whiteout, is_hidden,
}
use agentfs.Overlay.Whiteouts.Table.{whiteouts-IsLoaded}
use agentfs.Mounts.{MountPoint, add_mount, resolve}
use agentfs.Mounts.Deepest.{IsDeepest, resolve-add_mount}
use agentfs.Tests.Setup.{map_lru, name_a, name_b, name_d, with_dir, with_dir-Inv}

-- A base that has the file `b` in its root, with the inode number 9.
abbrev base_stats : Stats
base_stats = record {
  ino = 9;
  mode = 0o100644;
  nlink = 1;
  uid = 0;
  gid = 0;
  size = 0;
  atime = 0;
  mtime = 0;
  ctime = 0;
  atime_nsec = 0;
  mtime_nsec = 0;
  ctime_nsec = 0;
  rdev = 0;
}

abbrev one_file : Base
one_file p n = if same n name_b then ok (some base_stats) else ok none

abbrev session : Session map_lru
session = record { delta = with_dir; overlay = new }

session-IsConsistent : IsConsistent session
session-IsConsistent = record { delta = with_dir-Inv; overlay = new-Inv }

numbers : HasNumbers new
unfolding new
numbers = omega arith

lookup-IsConsistent_example : IsConsistent (lookup one_file 1 name_b session).1
lookup-IsConsistent_example =
    lookup-IsConsistent one_file name_b 1 session session-IsConsistent numbers

abbrev root_info : InodeInfo
root_info = record { layer = in_delta; underlying_ino = 1; path = root_path }

root_row : new.inode_map 1 ≡ some root_info
unfolding new
root_row = refl

path_of_b : child_path root_info.path name_b ≡ rendered (name_b ∷ ([] ++ []))
unfolding same agentfs.Path.join
path_of_b = refl

names : all_names (name_b ∷ ([] ++ [])) ≡ true
unfolding all_names no_slash
names = refl

lookup-create_whiteout_example :
    lookup one_file 1 name_b
      (record session { overlay = create_whiteout 100 (rendered (name_b ∷ [])) session.overlay })
    ≡ (
      ok none,
      record session { overlay = create_whiteout 100 (rendered (name_b ∷ [])) session.overlay },
    )
lookup-create_whiteout_example =
    lookup-create_whiteout one_file 100 1 name_b name_b [] [] root_info session root_row path_of_b
      names

get_or_create_overlay_ino_lem_example :
    ((get_or_create_overlay_ino in_base 9 (slash ∷ name_b) new).1.reverse_map in_base 9
      ≡ some (get_or_create_overlay_ino in_base 9 (slash ∷ name_b) new).0)
    × ((j : ℕ) (x : InodeInfo)
        → new.inode_map j ≡ some x
        → (get_or_create_overlay_ino in_base 9 (slash ∷ name_b) new).1.inode_map j ≡ some x)
    × ((again : Str)
        → get_or_create_overlay_ino in_base 9 again
            (get_or_create_overlay_ino in_base 9 (slash ∷ name_b) new).1
          ≡ (
            (get_or_create_overlay_ino in_base 9 (slash ∷ name_b) new).0,
            (get_or_create_overlay_ino in_base 9 (slash ∷ name_b) new).1,
          ))
get_or_create_overlay_ino_lem_example =
    get_or_create_overlay_ino_lem in_base 9 (slash ∷ name_b) new new-Inv

new-IsLoaded : IsLoaded new
unfolding new contains agentfs.Overlay.Whiteouts.has_row
new-IsLoaded p = refl

whiteouts-IsLoaded_example :
    IsLoaded (create_whiteout 100 (slash ∷ name_a) new)
    × IsLoaded (remove_whiteout (slash ∷ name_a) new)
    × IsLoaded (load_whiteouts new)
    × IsLoaded (load_whiteouts (record new { whiteouts = [] }))
whiteouts-IsLoaded_example = whiteouts-IsLoaded (slash ∷ name_a) new new-IsLoaded 100

abbrev mount_a : MountPoint
mount_a = record { sandbox_path = slash ∷ name_a; host_root = slash ∷ name_d }

abbrev mount_root : MountPoint
mount_root = record {
  sandbox_path = slash ∷ (name_a ++ (slash ∷ name_b));
  host_root = slash ∷ name_b;
}

resolve-add_mount_example :
    IsDeepest
      (slash ∷ name_a)
      (mount_a ∷ mount_root ∷ [])
      (resolve (slash ∷ name_a) (add_mount mount_a (mount_root ∷ [])))
resolve-add_mount_example = resolve-add_mount (slash ∷ name_a) mount_a (mount_root ∷ [])
