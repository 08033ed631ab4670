-- ===== src/ByPath.antt =====
-- The methods of `impl AgentFS` (sdk/rust/src/filesystem/agentfs.rs) that take a path. Here: how a
-- path is split into a parent and a name, and the methods that only read.
pub mod Make
pub mod Remove
pub mod Data
pub mod Reads
pub mod Targets
pub mod Follows
pub mod Made
pub mod Renamed
pub mod Patched
pub mod Steps
pub mod Linked
pub mod Removed
pub mod Lookup
pub mod Parent
pub mod Kept
use agentfs.Base.{
  ℕ, zero, suc, Option, none, some, List, [], ◌∷◌, ◌++◌, length, ◌==◌, if◌then◌else◌, Str, same,
  or_else, not, Bool,
}
use agentfs.Fs.Attr.{stats_at}
use agentfs.Fs.Attr
use agentfs.Fs.Cache.{Lru}
use agentfs.Fs.Resolve.{resolve_path}
use agentfs.Fs.{
  Exec, FsError, Stats, stats_of, ok, err, not_found, root_operation, symlink_loop, invalid_path,
  last, is_symlink, ◌>>=◌, ◌>>◌, pure, refuse, required, query,
}
use agentfs.Path.{
  slash, dot, is_empty, starts_with, split, nonempty, join, pop, root_path, normalize_path,
  split_path,
}

-- `"/"` for one component, and else those but the last.
abbrev pub parent_text : List Str → Str
parent_text components =
    if length components == 1 then root_path else slash ∷ join slash (pop components)

-- `components.last().unwrap()`
abbrev pub name_of : List Str → Str
name_of components = or_else (last components) []

-- Components without `.`, as `std::path::Path` reads them.
unfoldable pub without_dots : List Str → List Str
without_dots [] = []
without_dots (p ∷ ps) = let rest = without_dots ps in if same p dot then rest else p ∷ rest

-- `Path::parent` of a path that starts with '/', or "/"; `normalize_path` follows, so that a path is
-- given by its components.
abbrev pub path_parent : Str → Str
path_parent path =
    let ps = pop (without_dots (nonempty (split slash path))) in
    if is_empty ps then root_path else slash ∷ join slash ps

-- `Path::join` with a relative path
abbrev pub path_join : Str → Str → Str
path_join base target = if same base root_path then slash ∷ target else base ++ (slash ∷ target)

-- Where a symbolic link at a path leads.
unfoldable pub link_target : Str → Str → Str
link_target path target =
    normalize_path
      (if starts_with slash target then target else path_join (path_parent path) target)

abbrev pub max_symlink_depth : ℕ
max_symlink_depth = 40

module _ {lru : Lru} where
  unfoldable pub non_root : Str → Exec lru (List Str)
  non_root path = do
    let components = split_path (normalize_path path)
    refuse (is_empty components) root_operation
    pure components

  unfoldable pub resolve_parent : List Str → Exec lru ℕ
  resolve_parent components = do
    found ← resolve_path (parent_text components)
    required not_found found

  -- `resolve_path` of a path that has to be there.
  unfoldable pub resolve_known : Str → Exec lru ℕ
  resolve_known path = do found ← resolve_path path; required not_found found

  abbrev pub at_found {ℓ} :
      {A : Type ℓ} → (ℕ → Exec lru (Option A)) → Option ℕ → Exec lru (Option A)
  at_found f none = pure none
  at_found f (some ino) = f ino

  unfoldable pub lstat : Str → Exec lru (Option Stats)
  lstat path = do
    found ← resolve_path (normalize_path path)
    at_found (λ ino. query (stats_at ino)) found

  unfoldable pub readlink : Str → Exec lru (Option Str)
  readlink path = do found ← resolve_path (normalize_path path); at_found Attr.readlink found

  -- One round of the loop of `stat`: the error is for a symbolic link that has no target.
  unfoldable pub stat_row :
      FsError → (Str → Exec lru (Option Stats)) → Str → ℕ → Exec lru (Option Stats)
  stat_row e again path ino s = elim (s.db.inode ino) [
    | none ↦ (ok none, s)
    | some r ↦
        if is_symlink r
        then (do found ← readlink path; target ← required e found; again (link_target path target))
            s
        else (ok (some (stats_of ino r)), s)
  ]

  -- The loop, with the rounds that are left.
  unfoldable pub follow : FsError → ℕ → Str → Exec lru (Option Stats)
  unfolding stat_row
  follow e zero path = λ s. (err symlink_loop, s)
  follow e (suc rounds) path = do
    found ← resolve_path path
    at_found (stat_row e (follow e rounds) path) found

  unfoldable pub stat : Str → Exec lru (Option Stats)
  stat path = follow not_found max_symlink_depth (normalize_path path)

  unfoldable pub stat_with_conn : Str → Exec lru (Option Stats)
  stat_with_conn path = follow invalid_path max_symlink_depth (normalize_path path)

  -- The handle of the open file is its inode.
  unfoldable pub open_file : Str → Exec lru ℕ
  open_file path = resolve_known (normalize_path path)
