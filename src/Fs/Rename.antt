-- ===== src/Fs/Rename.antt =====
-- `rename` of sdk/rust/src/filesystem/agentfs.rs, as `impl FileSystem for AgentFS` has it.
use agentfs.Base.{ℕ, Option, none, some, length, ltb, ◌==◌, if◌then◌else◌, Str, not, Bool, ◌&&◌}
use agentfs.Db.{Db, Inode, Now, inc, dec, set_ctime, set_mtime_ctime}
use agentfs.Db.Dentries.{count_children, move}
use agentfs.Fs.Cache.{Lru}
use agentfs.Fs.{
  Exec, ok, err, not_found, not_empty, not_a_directory, is_a_directory, root_operation,
  name_too_long, max_name_len, root_ino, lookup_child, is_directory, ◌>>=◌, ◌>>◌, pure, refuse,
  required, query, try_query, execute, forget, remember, update_inode, delete_dentry,
}
use agentfs.Fs.Remove.{purge}

-- UPDATE fs_dentry SET parent_ino = ?, name = ?
abbrev pub move_dentry : ℕ → Str → ℕ → Str → Db → Db
move_dentry p' n' p n db = record db { dentry = move p' n' p n db.dentry }

-- `txn.rollback()`: a failed transaction leaves the database as it was.
abbrev pub transaction {ℓ} : {lru : Lru} {A : Type ℓ} → Exec lru A → Exec lru A
transaction m s = elim ((m s).0) [ ok a ↦ m s | err e ↦ (err e, record (m s).1 { db = s.db }) ]

-- A directory that changes its parent takes its `..` along.
abbrev pub move_links : Bool → ℕ → ℕ → Db → Db
move_links is_dir p p' db =
    if is_dir && not (p == p')
    then update_inode p' (λ r. record r { nlink = inc r.nlink })
        (update_inode p (λ r. record r { nlink = dec r.nlink }) db)
    else db

module _ {lru : Lru} where
  -- The destination of a rename is removed, if the types agree and a directory is empty.
  unfoldable pub replace : Now → Inode → ℕ → Str → Option ℕ → Exec lru (Unit {0})
  replace now src p' n' none = pure tt
  replace now src p' n' (some dst_ino) = do
    row ← query (λ db. db.inode dst_ino)
    dst ← required not_found row
    refuse (is_directory dst && not (is_directory src)) is_a_directory
    refuse (not (is_directory dst) && is_directory src) not_a_directory
    count ← query (λ db. count_children dst_ino db.dentry)
    refuse (is_directory dst && ltb 0 count) not_empty
    execute (delete_dentry p' n')
    execute (update_inode dst_ino (λ r. set_ctime now (record r { nlink = dec r.nlink })))
    execute (purge dst_ino)

  -- The two readings of the clock are those before and after the destination is removed.
  unfoldable pub rename : Now → Now → ℕ → Str → ℕ → Str → Exec lru (Unit {0})
  unfolding replace
  rename now_dec now p n p' n' = do
    refuse (ltb max_name_len (length n')) name_too_long
    found ← try_query (λ db. lookup_child p n db.dentry)
    src_ino ← required not_found found
    refuse (src_ino == root_ino) root_operation
    row ← query (λ db. db.inode src_ino)
    src ← required not_found row
    transaction (do
      dst ← try_query (λ db. lookup_child p' n' db.dentry)
      replace now_dec src p' n' dst
      execute (move_dentry p' n' p n)
      execute (move_links (is_directory src) p p')
      execute (update_inode src_ino (set_ctime now))
      execute (update_inode p (set_mtime_ctime now))
      execute (λ db. if p' == p then db else update_inode p' (set_mtime_ctime now) db))
    forget p n
    forget p' n'
    remember p' n' src_ino
