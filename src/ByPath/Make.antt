-- ===== src/ByPath/Make.antt =====
-- `mkdir`, `mknod`, `create_file`, `symlink` and `link` of `impl AgentFS`.
use agentfs.Base.{ℕ, length, Str, bit_or}
use agentfs.Db.{Now, inc, set_mtime_ctime}
use agentfs.Db.Mode.{typed_mode, s_ifreg, s_iflnk}
use agentfs.Fs.Cache.{Lru}
use agentfs.Fs.Create.{new_inode, new_stats}
use agentfs.Fs.Schema.{default_dir_mode}
use agentfs.Fs.{
  Exec, Stats, not_found, already_exists, is_a_directory, lookup_child, is_directory, is_some,
  ◌>>=◌, ◌>>◌, pure, refuse, required, query, try_query, execute, remember, update_inode,
  insert_inode, insert_dentry, insert_symlink,
}
use agentfs.Path.{normalize_path}
use agentfs.ByPath.{name_of, non_root, resolve_parent, resolve_known}

module _ {lru : Lru} where
  -- The name is new in the directory.
  abbrev pub check_free : ℕ → Str → Exec lru (Unit {0})
  check_free p n = do
    found ← try_query (λ db. lookup_child p n db.dentry)
    refuse (is_some found) already_exists

  abbrev pub count_link : ℕ → Exec lru (Unit {0})
  count_link ino = execute (update_inode ino (λ r. record r { nlink = inc r.nlink }))

module _ {lru : Lru} (now : Now) where
  -- What the methods do once the parent is known.
  unfoldable pub mkdir_at : ℕ → Str → ℕ → ℕ → Exec lru (Unit {0})
  mkdir_at p n uid gid = do
    check_free p n
    execute (insert_inode (new_inode now default_dir_mode uid gid))
    ino ← query (λ db. db.last_ino)
    execute (insert_dentry n p ino)
    execute (update_inode ino (λ r. record r { nlink = 2 }))
    execute (update_inode p (λ r. set_mtime_ctime now (record r { nlink = inc r.nlink })))
    remember p n ino

  unfoldable pub mknod_at : ℕ → Str → ℕ → ℕ → ℕ → ℕ → Exec lru (Unit {0})
  mknod_at p n mode rdev uid gid = do
    check_free p n
    execute (insert_inode (record (new_inode now mode uid gid) { rdev = rdev }))
    ino ← query (λ db. db.last_ino)
    execute (insert_dentry n p ino)
    count_link ino
    remember p n ino

  unfoldable pub create_file_at : ℕ → Str → ℕ → ℕ → ℕ → Exec lru (Stats × ℕ)
  create_file_at p n mode uid gid = do
    check_free p n
    let file_mode = typed_mode s_ifreg mode
    execute (insert_inode (record (new_inode now file_mode uid gid) { nlink = 1 }))
    ino ← query (λ db. db.last_ino)
    execute (insert_dentry n p ino)
    remember p n ino
    pure (new_stats now ino file_mode 1 uid gid 0 0, ino)

  unfoldable pub symlink_at : ℕ → Str → Str → ℕ → ℕ → Exec lru (Unit {0})
  symlink_at p n target uid gid = do
    check_free p n
    let mode = bit_or s_iflnk 0o777
    execute (insert_inode (record (new_inode now mode uid gid) { size = length target }))
    ino ← query (λ db. db.last_ino)
    execute (insert_symlink ino target)
    execute (insert_dentry n p ino)
    count_link ino
    remember p n ino

  unfoldable pub mkdir : Str → ℕ → ℕ → Exec lru (Unit {0})
  unfolding mkdir_at
  mkdir path uid gid = do
    components ← non_root path
    p ← resolve_parent components
    mkdir_at p (name_of components) uid gid

  unfoldable pub mknod : Str → ℕ → ℕ → ℕ → ℕ → Exec lru (Unit {0})
  unfolding mknod_at
  mknod path mode rdev uid gid = do
    components ← non_root path
    p ← resolve_parent components
    mknod_at p (name_of components) mode rdev uid gid

  unfoldable pub create_file : Str → ℕ → ℕ → ℕ → Exec lru (Stats × ℕ)
  unfolding create_file_at
  create_file path mode uid gid = do
    components ← non_root path
    p ← resolve_parent components
    create_file_at p (name_of components) mode uid gid

  unfoldable pub symlink : Str → Str → ℕ → ℕ → Exec lru (Unit {0})
  unfolding symlink_at
  symlink target linkpath uid gid = do
    components ← non_root linkpath
    p ← resolve_parent components
    symlink_at p (name_of components) target uid gid

module _ {lru : Lru} where
  unfoldable pub link_at : ℕ → ℕ → Str → Exec lru (Unit {0})
  link_at ino p n = do
    check_free p n
    execute (insert_dentry n p ino)
    count_link ino
    remember p n ino

  -- No clock is read: neither the inode nor the parent gets new times.
  unfoldable pub link : Str → Str → Exec lru (Unit {0})
  unfolding link_at
  link oldpath newpath = do
    components ← non_root newpath
    ino ← resolve_known (normalize_path oldpath)
    row ← query (λ db. db.inode ino)
    r ← required not_found row
    refuse (is_directory r) is_a_directory
    p ← resolve_parent components
    link_at ino p (name_of components)
