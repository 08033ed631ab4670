-- ===== src/Fs/Found.antt =====
-- What was made is found by `lookup`.
use agentfs.Base.{
  ℕ, ◌+◌, ◌≤◌, ◌≡◌, ◌∙◌, ap, false, none, some, arith, ltb, length, Str, same, same_iff,
}
use agentfs.Db.{Now, Inode, set_mtime_ctime}
use agentfs.Db.Dentries.{Dentry, find, find-append}
use agentfs.Db.Mode.{typed_mode, s_ifreg}
use agentfs.Fs.Cache.{Lru}
use agentfs.Fs.{Fs, ok, max_name_len, lookup_child, Stats, stats_of}
use agentfs.Fs.Attr.{lookup, lookup_row, dot_dot}
use agentfs.Fs.Create.{create_file, new_inode, new_stats}
use agentfs.Fs.Created.{after_create, create_file-creates}
use agentfs.Fs.Created.Invariant.{create_file-Inv, parent_is_old}
use agentfs.Fs.Wf.{Inv, IsDirAt, lookup_child-find}

lookup_row_of :
    {lru : Lru} (p : ℕ) (n : Str) (s : Fs lru) (i : ℕ) (r : Inode)
    → ltb max_name_len (length n) ≡ false
    → same n dot_dot ≡ false
    → lookup_child p n s.db.dentry ≡ ok (some i)
    → s.db.inode i ≡ some r
    → (lookup p n s).0 ≡ ok (some (stats_of i r))
unfolding lookup lookup_row
lookup_row_of p n s i r short name entry row = ground arith

module _ {lru : Lru} (now : Now) (p : ℕ) (n : Str) (mode uid gid : ℕ) (s : Fs lru) (v : Inv s)
    (dir : IsDirAt p s.db) (short : length n ≤ max_name_len) (name : same n dot_dot ≡ false)
    (free : find p n s.db.dentry ≡ none) where
  abbrev pub file_row : Inode
  file_row = record (new_inode now (typed_mode s_ifreg mode) uid gid) { nlink = 1 }

  abbrev pub made : Fs lru
  made = after_create p n file_row (set_mtime_ctime now) s

  abbrev pub stats : Stats
  stats = new_stats now (s.db.last_ino + 1) (typed_mode s_ifreg mode) 1 uid gid 0 0

  pub made_by : create_file now p n mode uid gid s ≡ (ok (stats, s.db.last_ino + 1), made)
  made_by = create_file-creates now p n s v.wf.unique mode uid gid ∙ ground arith

  made-Inv : Inv made
  made-Inv = let i = create_file-Inv p n s v dir now mode uid gid in rw made_by at i

  pub found : find p n made.db.dentry ≡ some (s.db.last_ino + 1)
  found =
      let d : Dentry = record { name = n; parent_ino = p; ino = s.db.last_ino + 1 } in
      ground (arith, find-append p n d s.db.dentry free p n, same_iff n n)

  pub found_row : made.db.inode (s.db.last_ino + 1) ≡ some file_row
  found_row = let old = parent_is_old p n s v dir in ground (arith, old)

  -- With the invariant, in a directory that is there and for a name of allowed length that is free and
  -- not `..`: `create_file` succeeds, and `lookup` of the name then gives the attributes of the new row:
  -- those of a regular file with one link and no bytes, with the owner and permission bits asked for.
  pub lookup-create_file :
      (create_file now p n mode uid gid s ≡ (ok (stats, s.db.last_ino + 1), made))
      × ((lookup p n (create_file now p n mode uid gid s).1).0
          ≡ ok (some (stats_of (s.db.last_ino + 1) file_row)))
  lookup-create_file = (
    made_by,
    rw made_by (
        lookup_row_of p n made (s.db.last_ino + 1) file_row (ground arith) name
          (lookup_child-find p n made.db.dentry made-Inv.wf.unique ∙ ap ok found) found_row),
  )
