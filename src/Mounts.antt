-- ===== src/Mounts.antt =====
-- The mount table of the sandbox (sandbox/src/vfs/mount.rs) with bind mounts
-- (sandbox/src/vfs/bind.rs). A path is its text; `Path::components` of an absolute path counts the
-- root and the names.
pub mod Deepest
use agentfs.Base.{
  ℕ, ◌+◌, Bool, true, false, ◌||◌, Option, none, some, List, [], ◌∷◌, ◌++◌, length, drop, ltb, ◌==◌,
  if◌then◌else◌, Str, same,
}
use agentfs.ByPath.{without_dots}
use agentfs.ByPath.Remove.{has_prefix}
use agentfs.Overlay.Whiteouts.{trim_start}
use agentfs.Path.{slash, is_empty, split, nonempty}

-- A mount point with its `BindVfs`, whose sandbox root is the mount's path.
pub record MountPoint : Type 0 where
  pub sandbox_path : Str
  pub host_root : Str

abbrev pub depth : MountPoint → ℕ
depth m = length (without_dots (nonempty (split slash m.sandbox_path))) + 1

abbrev pub ends_with : ℕ → Str → Bool
ends_with c [] = false
ends_with c (x ∷ []) = x == c
ends_with c (x ∷ y ∷ s) = ends_with c (y ∷ s)

-- `PathBuf::join` with a relative path
abbrev pub join_path : Str → Str → Str
join_path base relative =
    if is_empty base || ends_with slash base then base ++ relative else base ++ (slash ∷ relative)

-- `BindVfs::translate_path`; `none` is the error.
unfoldable pub translate_path : MountPoint → Str → Option Str
translate_path m path =
    let relative = trim_start slash (drop (length m.sandbox_path) path) in
    if same path m.sandbox_path || has_prefix (m.sandbox_path ++ (slash ∷ [])) path
    then some (if is_empty relative then m.host_root else join_path m.host_root relative)
    else none

-- `sort_by_key` with `Reverse` is stable: of equal depth, the earlier stays before the later.
unfoldable pub place : MountPoint → List MountPoint → List MountPoint
place m [] = m ∷ []
place m (x ∷ xs) = let rest = place m xs in if ltb (depth x) (depth m) then m ∷ x ∷ xs else x ∷ rest

unfoldable pub sort_from : List MountPoint → List MountPoint → List MountPoint
sort_from sorted [] = sorted
sort_from sorted (m ∷ ms) = sort_from (place m sorted) ms

unfoldable pub add_mount : MountPoint → List MountPoint → List MountPoint
add_mount m mounts = sort_from [] (mounts ++ (m ∷ []))

unfoldable pub resolve : Str → List MountPoint → Option (MountPoint × Str)
resolve path [] = none
resolve path (m ∷ ms) =
    let rest = resolve path ms in
    elim (translate_path m path) [ none ↦ rest | some translated ↦ some (m, translated) ]
