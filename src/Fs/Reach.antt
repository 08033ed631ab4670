-- ===== src/Fs/Reach.antt =====
-- Runs of the file system: every operation as a step, and the states that can be reached.
use agentfs.Base.{ℕ, ◌≡◌, false, Option, arith, Str}
use agentfs.Db.{Now}
use agentfs.Db.Dentries.{key_eq}
use agentfs.Fs.Cache.{Lru}
use agentfs.Fs.{Fs}
use agentfs.Fs.Create.{mkdir, create_file, mknod, symlink, link}
use agentfs.Fs.Remove.{unlink, rmdir}
use agentfs.Fs.Rename.{rename}
use agentfs.Fs.Attr.{TimeChange, chmod, chown, utimens, lookup}
use agentfs.Fs.Schema.{initialize_schema, no_rows, initialize_schema-new}
use agentfs.Fs.Created.Invariant.{mkdir-Inv, create_file-Inv, mknod-Inv, symlink-Inv}
use agentfs.Fs.Removed.Unlink.{unlink-Inv}
use agentfs.Fs.Removed.Rmdir.{rmdir-Inv}
use agentfs.Fs.Renamed.Outcome.{rename-Inv}
use agentfs.Fs.Changed.{chmod-Inv, chown-Inv, utimens-Inv, lookup-Inv}
use agentfs.Fs.Linked.{link-Inv}
use agentfs.Fs.Wf.{Inv, IsDirAt, HasRoom}

-- One call, whatever it returns. Names are made in a directory, an entry is not renamed to itself,
-- and there are fewer than 2 ^ 32 entries when a link is taken away.
pub data Step {lru : Lru} : Fs lru → Fs lru → Type 0 where
  by_mkdir :
      (s : Fs lru) (now : Now) (p : ℕ) (n : Str) (mode uid gid : ℕ)
      → IsDirAt p s.db
      → Step s (mkdir now p n mode uid gid s).1
  by_create_file :
      (s : Fs lru) (now : Now) (p : ℕ) (n : Str) (mode uid gid : ℕ)
      → IsDirAt p s.db
      → Step s (create_file now p n mode uid gid s).1
  by_mknod :
      (s : Fs lru) (now : Now) (p : ℕ) (n : Str) (mode rdev uid gid : ℕ)
      → IsDirAt p s.db
      → Step s (mknod now p n mode rdev uid gid s).1
  by_symlink :
      (s : Fs lru) (now : Now) (p : ℕ) (n target : Str) (uid gid : ℕ)
      → IsDirAt p s.db
      → Step s (symlink now p n target uid gid s).1
  by_link :
      (s : Fs lru) (now : Now) (i p : ℕ) (n : Str) → IsDirAt p s.db → Step s (link now i p n s).1
  by_unlink :
      (s : Fs lru) (now : Now) (p : ℕ) (n : Str) → HasRoom s.db → Step s (unlink now p n s).1
  by_rmdir : (s : Fs lru) (now : Now) (p : ℕ) (n : Str) → Step s (rmdir now p n s).1
  by_rename :
      (s : Fs lru) (now now' : Now) (p : ℕ) (n : Str) (p' : ℕ) (n' : Str)
      → HasRoom s.db
      → IsDirAt p' s.db
      → key_eq p' n' p n ≡ false
      → Step s (rename now now' p n p' n' s).1
  by_lookup : (s : Fs lru) (p : ℕ) (n : Str) → Step s (lookup p n s).1
  by_chmod : (s : Fs lru) (now : Now) (i mode : ℕ) → Step s (chmod now i mode s).1
  by_chown :
      (s : Fs lru) (now : Now) (i : ℕ) (uid gid : Option ℕ) → Step s (chown now i uid gid s).1
  by_utimens :
      (s : Fs lru) (ta tm tc : Now) (i : ℕ) (atime mtime : TimeChange)
      → Step s (utimens ta tm tc i atime mtime s).1

-- The states after any number of calls on a new database with an empty cache.
pub data Reach {lru : Lru} : Fs lru → Type 0 where
  start :
      (now : Now) (uid gid : ℕ)
      → Reach (record { db = initialize_schema now uid gid no_rows; cache = lru.new })
  next : {s t : Fs lru} → Reach s → Step s t → Reach t

module _ {lru : Lru} where
  -- Every operation keeps the invariant.
  pub Step-Inv : {s t : Fs lru} → Step s t → Inv s → Inv t
  Step-Inv (by_mkdir s now p n mode uid gid dir) v = mkdir-Inv p n s v dir now mode uid gid
  Step-Inv (by_create_file s now p n mode uid gid dir) v =
      create_file-Inv p n s v dir now mode uid gid
  Step-Inv (by_mknod s now p n mode rdev uid gid dir) v =
      mknod-Inv p n s v dir now mode rdev uid gid
  Step-Inv (by_symlink s now p n target uid gid dir) v = symlink-Inv p n s v dir now target uid gid
  Step-Inv (by_link s now i p n dir) v = link-Inv now i p n s v dir
  Step-Inv (by_unlink s now p n room) v = unlink-Inv now p n s v room
  Step-Inv (by_rmdir s now p n) v = rmdir-Inv now p n s v
  Step-Inv (by_rename s now now' p n p' n' room dir apart) v =
      rename-Inv now now' p n p' n' s v room dir apart
  Step-Inv (by_lookup s p n) v = lookup-Inv s v p n
  Step-Inv (by_chmod s now i mode) v = chmod-Inv s v now i mode
  Step-Inv (by_chown s now i uid gid) v = chown-Inv s v now i uid gid
  Step-Inv (by_utimens s ta tm tc i atime mtime) v = utimens-Inv s v tc i ta tm atime mtime

  -- In every state that can be reached from a new database by the calls of `Step`, the tables are well
  -- formed, and the dentry cache holds nothing that is not so in them.
  pub Reach-Inv : {s : Fs lru} → Reach s → Inv s
  Reach-Inv (start now uid gid) = record {
    wf = (initialize_schema-new now uid gid).0;
    coherent = λ p n i h. ground (arith, lru.peek-new p n);
  }
  Reach-Inv (next r step) = Step-Inv step (Reach-Inv r)
