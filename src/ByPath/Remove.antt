-- ===== src/ByPath/Remove.antt =====
-- `remove`, `rename` and `chown` of `impl AgentFS`.
use agentfs.Base.{
  ℕ, Bool, true, false, not, ◌&&◌, ◌||◌, Option, none, some, [], ◌∷◌, ◌++◌, ltb, ◌==◌,
  if◌then◌else◌, Str, same,
}
use agentfs.Db.{Db, Now, dec, set_ctime, set_mtime_ctime}
use agentfs.Db.Dentries.{count_children}
use agentfs.Db.Mode.{file_type, s_ifdir}
use agentfs.Fs.Attr.{set_owner}
use agentfs.Fs.Cache.{Lru}
use agentfs.Fs.Remove.{purge}
use agentfs.Fs.Rename.{move_dentry, move_links, transaction}
use agentfs.Fs.Resolve.{resolve_path}
use agentfs.Fs.{
  Exec, Stats, not_found, not_empty, not_a_directory, is_a_directory, root_operation,
  invalid_rename, invalid_path, root_ino, ◌>>=◌, ◌>>◌, pure, refuse, required, query, execute,
  remember, forget, update_inode, delete_dentry, last,
}
use agentfs.Path.{slash, normalize_path, split_path, root_path}
use agentfs.ByPath.{name_of, non_root, resolve_parent, resolve_known, stat_with_conn}

-- `Stats::is_directory`
abbrev pub is_dir : Stats → Bool
is_dir stats = file_type stats.mode == s_ifdir

-- `str::starts_with`
unfoldable pub has_prefix : Str → Str → Bool
has_prefix [] t = true
has_prefix (x ∷ s) [] = false
has_prefix (x ∷ s) (y ∷ t) = (x == y) && has_prefix s t

-- The destination lies in the subtree of the source, or is the source.
abbrev pub is_below : Str → Str → Bool
is_below from to = has_prefix (from ++ slash ∷ []) to || same to from

abbrev pub unlink_inode : ℕ → Db → Db
unlink_inode ino = update_inode ino (λ r. record r { nlink = dec r.nlink })

-- A directory that is removed takes the link of its `..` away.
abbrev pub unlink_parent : Now → Bool → ℕ → Db → Db
unlink_parent now is_directory p db =
    if is_directory
    then update_inode p (λ r. set_mtime_ctime now (record r { nlink = dec r.nlink })) db
    else db

module _ {lru : Lru} (now : Now) where
  -- What `remove` does once the inode, its parent and its name are known.
  unfoldable pub remove_at : Bool → ℕ → Str → ℕ → Exec lru (Unit {0})
  remove_at is_directory p n ino = do
    execute (delete_dentry p n)
    forget p n
    execute (unlink_inode ino)
    execute (unlink_parent now is_directory p)
    execute (purge ino)

  unfoldable pub remove : Str → Exec lru (Unit {0})
  unfolding remove_at
  remove path = do
    components ← non_root path
    ino ← resolve_known (normalize_path path)
    refuse (ino == root_ino) root_operation
    found ← stat_with_conn (normalize_path path)
    stats ← required not_found found
    count ← query (λ db. count_children ino db.dentry)
    refuse (ltb 0 count) not_empty
    p ← resolve_parent components
    remove_at (is_dir stats) p (name_of components) ino

module _ {lru : Lru} where
  -- The destination of a rename is removed, if the types agree and a directory is empty.
  unfoldable pub replace : Stats → Str → ℕ → Str → Option ℕ → Exec lru (Unit {0})
  replace src to_path p' n' none = pure tt
  replace src to_path p' n' (some dst_ino) = do
    found ← stat_with_conn to_path
    dst ← required not_found found
    refuse (is_dir dst && not (is_dir src)) is_a_directory
    refuse (not (is_dir dst) && is_dir src) not_a_directory
    count ← query (λ db. count_children dst_ino db.dentry)
    refuse (is_dir dst && ltb 0 count) not_empty
    execute (delete_dentry p' n')
    execute (unlink_inode dst_ino)
    execute (purge dst_ino)

  -- The transaction of `rename`, from the parents and names on.
  unfoldable pub rename_rows : Now → Str → ℕ → Stats → ℕ → Str → ℕ → Str → Exec lru (Unit {0})
  rename_rows now to_path src_ino src p n p' n' = do
    dst ← resolve_path to_path
    replace src to_path p' n' dst
    execute (move_dentry p' n' p n)
    execute (move_links (is_dir src) p p')
    execute (update_inode src_ino (set_ctime now))
    execute (update_inode p (set_mtime_ctime now))
    execute (λ db. if p' == p then db else update_inode p' (set_mtime_ctime now) db)

  unfoldable pub rename_entry : Now → Str → ℕ → Stats → ℕ → Str → ℕ → Str → Exec lru (Unit {0})
  rename_entry now to_path src_ino src p n p' n' = do
    transaction (rename_rows now to_path src_ino src p n p' n')
    forget p n
    forget p' n'
    remember p' n' src_ino

  -- The two parents and names.
  unfoldable pub rename_named : Now → Str → Str → ℕ → Stats → Str → Exec lru (Unit {0})
  rename_named now from_path to_path src_ino src n = do
    p ← resolve_parent (split_path from_path)
    to_components ← non_root to_path
    p' ← resolve_parent to_components
    rename_entry now to_path src_ino src p n p' (name_of to_components)

  unfoldable pub rename : Now → Str → Str → Exec lru (Unit {0})
  rename now from to = do
    let from_path = normalize_path from
    let to_path = normalize_path to
    refuse (same from_path root_path) root_operation
    src_ino ← resolve_known from_path
    found ← stat_with_conn from_path
    src ← required not_found found
    refuse (is_dir src && is_below from_path to_path) invalid_rename
    n ← required invalid_path (last (split_path from_path))
    rename_named now from_path to_path src_ino src n

  -- Of an inode: no time is set, and the inode need not be there.
  unfoldable pub chown : ℕ → Option ℕ → Option ℕ → Exec lru (Unit {0})
  chown ino none none = pure tt
  chown ino uid gid = execute (update_inode ino (set_owner uid gid))
