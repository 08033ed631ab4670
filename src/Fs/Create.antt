-- ===== src/Fs/Create.antt =====
-- The operations of sdk/rust/src/filesystem/agentfs.rs that make a new inode or a new entry, as
-- `impl FileSystem for AgentFS` has them: `mkdir`, `create_file`, `mknod`, `symlink` and `link`.
use agentfs.Base.{ℕ, length, ltb, Str, bit_or}
use agentfs.Db.{Inode, Now, inc, set_ctime, set_mtime_ctime}
use agentfs.Db.Mode.{typed_mode, s_ifdir, s_ifreg, s_iflnk}
use agentfs.Fs.Cache.{Lru}
use agentfs.Fs.{
  Exec, Stats, stats_of, not_found, already_exists, is_a_directory, name_too_long, max_name_len,
  lookup_child, is_directory, is_some, ◌>>=◌, ◌>>◌, pure, refuse, required, query, try_query,
  execute, remember, update_inode, insert_inode, insert_dentry, insert_symlink,
}

-- The row of a new inode with the columns that every INSERT sets; the others have their defaults.
abbrev pub new_inode : Now → ℕ → ℕ → ℕ → Inode
new_inode now mode uid gid = record {
  mode = mode;
  nlink = 0;
  uid = uid;
  gid = gid;
  size = 0;
  atime = now.secs;
  mtime = now.secs;
  ctime = now.secs;
  rdev = 0;
  atime_nsec = now.nsec;
  mtime_nsec = now.nsec;
  ctime_nsec = now.nsec;
}

-- The `Stats` that the operations build from what they inserted.
abbrev pub new_stats : Now → ℕ → ℕ → ℕ → ℕ → ℕ → ℕ → ℕ → Stats
new_stats now ino mode nlink uid gid size rdev = record {
  ino = ino;
  mode = mode;
  nlink = nlink;
  uid = uid;
  gid = gid;
  size = size;
  atime = now.secs;
  mtime = now.secs;
  ctime = now.secs;
  atime_nsec = now.nsec;
  mtime_nsec = now.nsec;
  ctime_nsec = now.nsec;
  rdev = rdev;
}

-- The checks with which each operation begins: the length of the name, and that it is free.
abbrev pub check_new : {lru : Lru} → ℕ → Str → Exec lru (Unit {0})
check_new p n = do
  refuse (ltb max_name_len (length n)) name_too_long
  found ← try_query (λ db. lookup_child p n db.dentry)
  refuse (is_some found) already_exists

module _ {lru : Lru} (now : Now) where
  unfoldable pub mkdir : ℕ → Str → ℕ → ℕ → ℕ → Exec lru Stats
  mkdir p n mode uid gid = do
    check_new p n
    let dir_mode = typed_mode s_ifdir mode
    execute (insert_inode (new_inode now dir_mode uid gid))
    ino ← query (λ db. db.last_ino)
    execute (insert_dentry n p ino)
    execute (update_inode ino (λ r. record r { nlink = 2 }))
    execute (update_inode p (λ r. set_mtime_ctime now (record r { nlink = inc r.nlink })))
    remember p n ino
    pure (new_stats now ino dir_mode 2 uid gid 0 0)

  -- The handle of the open file is its inode.
  unfoldable pub create_file : ℕ → Str → ℕ → ℕ → ℕ → Exec lru (Stats × ℕ)
  create_file p n mode uid gid = do
    check_new p n
    let file_mode = typed_mode s_ifreg mode
    execute (insert_inode (record (new_inode now file_mode uid gid) { nlink = 1 }))
    ino ← query (λ db. db.last_ino)
    execute (insert_dentry n p ino)
    execute (update_inode p (set_mtime_ctime now))
    remember p n ino
    pure (new_stats now ino file_mode 1 uid gid 0 0, ino)

  unfoldable pub mknod : ℕ → Str → ℕ → ℕ → ℕ → ℕ → Exec lru Stats
  mknod p n mode rdev uid gid = do
    check_new p n
    execute (insert_inode (record (new_inode now mode uid gid) { rdev = rdev }))
    ino ← query (λ db. db.last_ino)
    execute (insert_dentry n p ino)
    execute (update_inode ino (λ r. record r { nlink = inc r.nlink }))
    execute (update_inode p (set_mtime_ctime now))
    remember p n ino
    pure (new_stats now ino mode 1 uid gid 0 rdev)

  unfoldable pub symlink : ℕ → Str → Str → ℕ → ℕ → Exec lru Stats
  symlink p n target uid gid = do
    check_new p n
    let mode = bit_or s_iflnk 0o777
    let size = length target
    execute (insert_inode (record (new_inode now mode uid gid) { size = size }))
    ino ← query (λ db. db.last_ino)
    execute (insert_symlink ino target)
    execute (insert_dentry n p ino)
    execute (update_inode ino (λ r. record r { nlink = inc r.nlink }))
    execute (update_inode p (set_mtime_ctime now))
    remember p n ino
    pure (new_stats now ino mode 1 uid gid size 0)

  unfoldable pub link : ℕ → ℕ → Str → Exec lru Stats
  link ino p n = do
    refuse (ltb max_name_len (length n)) name_too_long
    row ← query (λ db. db.inode ino)
    r ← required not_found row
    refuse (is_directory r) is_a_directory
    found ← try_query (λ db. lookup_child p n db.dentry)
    refuse (is_some found) already_exists
    execute (insert_dentry n p ino)
    execute (update_inode ino (λ r. set_ctime now (record r { nlink = inc r.nlink })))
    execute (update_inode p (set_mtime_ctime now))
    remember p n ino
    row ← query (λ db. db.inode ino)
    r ← required not_found row
    pure (stats_of ino r)
