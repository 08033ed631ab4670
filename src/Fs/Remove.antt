-- ===== src/Fs/Remove.antt =====
-- `unlink` and `rmdir` of sdk/rust/src/filesystem/agentfs.rs, as `impl FileSystem for AgentFS` has
-- them.
use agentfs.Base.{ℕ, Option, none, some, length, ltb, ◌==◌, if◌then◌else◌, Str, not, false, Bool}
use agentfs.Db.{Db, Inode, Now, dec, set_ctime, set_mtime_ctime}
use agentfs.Db.Dentries.{count_children}
use agentfs.Fs.Cache.{Lru}
use agentfs.Fs.{
  Exec, not_found, not_empty, not_a_directory, is_a_directory, root_operation, name_too_long,
  max_name_len, root_ino, lookup_child, is_directory, ◌>>=◌, ◌>>◌, refuse, required, query,
  try_query, execute, forget, update_inode, delete_inode, delete_dentry, delete_symlink,
  delete_chunks, get_link_count,
}

-- A mode that is not there is no directory: `unlink` goes on for a missing inode.
abbrev pub names_directory : Option Inode → Bool
names_directory none = false
names_directory (some r) = is_directory r

-- What follows when the last link of an inode is gone.
abbrev pub purge : ℕ → Db → Db
purge i db =
    if get_link_count i db == 0 then delete_inode i (delete_symlink i (delete_chunks i db)) else db

abbrev pub purge_inode : ℕ → Db → Db
purge_inode i db = if get_link_count i db == 0 then delete_inode i db else db

module _ {lru : Lru} (now : Now) (p : ℕ) (n : Str) where
  unfoldable pub unlink : Exec lru (Unit {0})
  unlink = do
    refuse (ltb max_name_len (length n)) name_too_long
    found ← try_query (λ db. lookup_child p n db.dentry)
    ino ← required not_found found
    row ← query (λ db. db.inode ino)
    refuse (names_directory row) is_a_directory
    execute (delete_dentry p n)
    forget p n
    execute (update_inode p (set_mtime_ctime now))
    execute (update_inode ino (λ r. set_ctime now (record r { nlink = dec r.nlink })))
    execute (purge ino)

  unfoldable pub rmdir : Exec lru (Unit {0})
  rmdir = do
    refuse (ltb max_name_len (length n)) name_too_long
    found ← try_query (λ db. lookup_child p n db.dentry)
    ino ← required not_found found
    refuse (ino == root_ino) root_operation
    row ← query (λ db. db.inode ino)
    r ← required not_found row
    refuse (not (is_directory r)) not_a_directory
    count ← query (λ db. count_children ino db.dentry)
    refuse (ltb 0 count) not_empty
    execute (delete_dentry p n)
    forget p n
    execute (update_inode ino (λ r. record r { nlink = dec r.nlink }))
    execute (update_inode p (λ r. set_mtime_ctime now (record r { nlink = dec r.nlink })))
    execute (purge_inode ino)
