-- ===== src/Fs/Attr.antt =====
-- The operations of sdk/rust/src/filesystem/agentfs.rs that read an inode or change its attributes,
-- as `impl FileSystem for AgentFS` has them.
use agentfs.Base.{
  ℕ, Option, none, some, [], ◌∷◌, length, ltb, ◌==◌, if◌then◌else◌, Str, not, true, false, Bool,
  ◌&&◌, same,
}
use agentfs.Db.{Db, Inode, Now, set_ctime}
use agentfs.Db.Dentries.{parent_of}
use agentfs.Db.Mode.{change_mode}
use agentfs.Fs.Cache.{Lru}
use agentfs.Fs.{
  Exec, ok, not_found, not_a_symlink, name_too_long, max_name_len, root_ino, lookup_child,
  is_symlink, Stats, stats_of, ◌>>=◌, ◌>>◌, pure, refuse, required, query, try_query, execute,
  remember, update_inode,
}

pub data TimeChange : Type 0 where
  omit now : TimeChange
  set : ℕ → ℕ → TimeChange

abbrev pub dot_dot : Str
dot_dot = b'.' ∷ b'.' ∷ []

-- `getattr_with_conn`
abbrev pub stats_at : ℕ → Db → Option Stats
stats_at ino db = elim (db.inode ino) [ none ↦ none | some r ↦ some (stats_of ino r) ]

abbrev pub or_root : Option ℕ → ℕ
or_root none = root_ino
or_root (some i) = i

-- The columns that `chown` and `utimens` set.
abbrev pub set_owner : Option ℕ → Option ℕ → Inode → Inode
set_owner uid gid r = record r {
  uid = elim uid [ none ↦ r.uid | some u ↦ u ];
  gid = elim gid [ none ↦ r.gid | some g ↦ g ];
}

abbrev pub set_atime : Now → TimeChange → Inode → Inode
set_atime t omit r = r
set_atime t now r = record r { atime = t.secs; atime_nsec = t.nsec }
set_atime t (set secs nsec) r = record r { atime = secs; atime_nsec = nsec }

abbrev pub set_mtime : Now → TimeChange → Inode → Inode
set_mtime t omit r = r
set_mtime t now r = record r { mtime = t.secs; mtime_nsec = t.nsec }
set_mtime t (set secs nsec) r = record r { mtime = secs; mtime_nsec = nsec }

abbrev pub is_omit : TimeChange → Bool
is_omit omit = true
is_omit now = false
is_omit (set secs nsec) = false

module _ {lru : Lru} where
  -- The last part of `lookup`: only a child whose row is there is remembered.
  unfoldable pub lookup_row : ℕ → Str → Option ℕ → Exec lru (Option Stats)
  lookup_row p n none s = (ok none, s)
  lookup_row p n (some ino) s = elim (stats_at ino s.db) [
    | none ↦ (ok none, s)
    | some stats ↦ (remember p n ino >> pure (some stats)) s
  ]

  unfoldable pub lookup : ℕ → Str → Exec lru (Option Stats)
  unfolding lookup_row
  lookup p n = do
    refuse (ltb max_name_len (length n)) name_too_long
    if same n dot_dot
        then query (λ db.
          stats_at (if p == root_ino then root_ino else or_root (parent_of p db.dentry)) db)
        else (do found ← try_query (λ db. lookup_child p n db.dentry); lookup_row p n found)

  unfoldable pub getattr : ℕ → Exec lru (Option Stats)
  getattr ino = query (stats_at ino)

  unfoldable pub readlink : ℕ → Exec lru (Option Str)
  readlink ino s = elim (s.db.inode ino) [
    | none ↦ (ok none, s)
    | some r ↦ (refuse (not (is_symlink r)) not_a_symlink >> query (λ db. db.symlink ino)) s
  ]

  -- The handle of the open file is its inode.
  unfoldable pub open_file : ℕ → Exec lru ℕ
  open_file ino = do row ← query (λ db. db.inode ino); required not_found row; pure ino

  unfoldable pub chmod : Now → ℕ → ℕ → Exec lru (Unit {0})
  chmod t ino mode = do
    row ← query (λ db. db.inode ino)
    r ← required not_found row
    let new_mode = change_mode r.mode mode
    execute (update_inode ino (λ r. set_ctime t (record r { mode = new_mode })))

  unfoldable pub chown : Now → ℕ → Option ℕ → Option ℕ → Exec lru (Unit {0})
  chown t ino none none = pure tt
  chown t ino uid gid = do
    row ← query (λ db. db.inode ino)
    required not_found row
    execute (update_inode ino (λ r. set_ctime t (set_owner uid gid r)))

  -- The three readings of the clock are those for the access, the modification and the change time.
  unfoldable pub utimens : Now → Now → Now → ℕ → TimeChange → TimeChange → Exec lru (Unit {0})
  utimens ta tm tc ino atime mtime = do
    row ← query (λ db. db.inode ino)
    required not_found row
    execute (
        if is_omit atime && is_omit mtime
        then (λ db. db)
        else update_inode ino (λ r. set_ctime tc (set_mtime tm mtime (set_atime ta atime r))))
