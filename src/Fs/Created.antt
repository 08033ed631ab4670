-- ===== src/Fs/Created.antt =====
-- What `mkdir`, `create_file`, `mknod` and `symlink` compute on every branch.
pub mod Invariant
use agentfs.Base.{
  ℕ, ◌+◌, ◌%◌, ◌≤◌, ◌<◌, ◌≡◌, ◌≢◌, refl, sym, ◌∙◌, ap, fun_ext, Bool, true, false, Option, none,
  some, List, arith, ltb, length, bit_or, ◌==◌, if◌then◌else◌, Str, Bool-cases, inl, inr,
}
use agentfs.Db.{Db, Inode, Now, i64_mod, inc, update, insert, set_mtime_ctime}
use agentfs.Db.Dentries.{Dentry, find, append, IsUnique}
use agentfs.Db.Mode.{typed_mode, s_ifdir, s_ifreg, s_iflnk}
use agentfs.Fs.Cache.{Lru}
use agentfs.Fs.{
  Fs, Exec, Result, ok, err, is_directory, already_exists, name_too_long, max_name_len, is_some,
  Stats, ◌>>=◌, ◌>>◌, lookup_child, insert_symlink,
}
use agentfs.Fs.Create.{new_inode, new_stats, mkdir, create_file, mknod, symlink, check_new}
use agentfs.Fs.Wf.{IsWf, lookup_child-find}

-- The state with a new inode, its entry, and its parent's row changed.
abbrev pub after_create : {lru : Lru} → ℕ → Str → Inode → (Inode → Inode) → Fs lru → Fs lru
after_create {lru} p n r g s = record {
  db = record s.db {
    last_ino = s.db.last_ino + 1;
    inode = update p g (insert (s.db.last_ino + 1) r s.db.inode);
    dentry = append (record { name = n; parent_ino = p; ino = s.db.last_ino + 1 }) s.db.dentry;
  };
  cache = lru.put p n (s.db.last_ino + 1) s.cache;
}

-- The outcome of an operation that makes the name `n`: two refusals that change nothing, or success.
abbrev pub creates : {lru : Lru} {A : Type 0} → ℕ → Str → Fs lru → A × Fs lru → Result A × Fs lru
creates p n s done =
    if ltb max_name_len (length n)
    then (err name_too_long, s)
    else if is_some (find p n s.db.dentry)
    then (err already_exists, s)
    else (ok done.0, done.1)

module _ {lru : Lru} {A : Type 0} (p : ℕ) (n : Str) (s : Fs lru) (u : IsUnique s.db.dentry) where
  check_new-creates :
      (m : Exec lru A) (done : A × Fs lru)
      → m s ≡ (ok done.0, done.1)
      → (check_new p n >> m) s ≡ creates p n s done
  check_new-creates m done h = ground (arith, h, lookup_child-find p n s.db.dentry u)

module _ {lru : Lru} (now : Now) (p : ℕ) (n : Str) (s : Fs lru) (u : IsUnique s.db.dentry) where
  -- `mkdir` fails with a name that is too long or taken and changes nothing then; else there is a new
  -- directory with two links, its parent has one link more, and the cache knows it. Names are unique.
  pub mkdir-creates :
      (mode uid gid : ℕ)
      → mkdir now p n mode uid gid s
        ≡ creates p n s (
          new_stats now (s.db.last_ino + 1) (typed_mode s_ifdir mode) 2 uid gid 0 0,
          after_create p n
              (record (new_inode now (typed_mode s_ifdir mode) uid gid) { nlink = 2 })
              (λ r. set_mtime_ctime now (record r { nlink = inc r.nlink }))
              s,
        )
  unfolding mkdir
  mkdir-creates mode uid gid =
      let ino = s.db.last_ino + 1 in
      let row = new_inode now (typed_mode s_ifdir mode) uid gid in
      let g = λ (r : Inode). set_mtime_ctime now (record r { nlink = inc r.nlink }) in
      let e : update p g (update ino (λ r. record r { nlink = 2 }) (insert ino row s.db.inode))
          ≡ update p g (insert ino (record row { nlink = 2 }) s.db.inode) =
        fun_ext λ j. ground arith in
      check_new-creates p n s u _ _ (λ i. (
        ok (new_stats now ino (typed_mode s_ifdir mode) 2 uid gid 0 0),
        record (after_create p n row g s) {
          db = record (after_create p n row g s).db { inode = e i };
        },
      ))

  -- `create_file` fails with a name that is too long or taken and changes nothing then; else there is
  -- a new regular file with one link, and the cache knows it. Names are unique.
  pub create_file-creates :
      (mode uid gid : ℕ)
      → create_file now p n mode uid gid s
        ≡ creates p n s (
          (
            new_stats now (s.db.last_ino + 1) (typed_mode s_ifreg mode) 1 uid gid 0 0,
            s.db.last_ino + 1,
          ),
          after_create p n
              (record (new_inode now (typed_mode s_ifreg mode) uid gid) { nlink = 1 })
              (set_mtime_ctime now)
              s,
        )
  unfolding create_file
  create_file-creates mode uid gid = check_new-creates p n s u _ _ refl

  -- `mknod` fails with a name that is too long or taken and changes nothing then; else there is a new
  -- inode of that mode with one link, and the cache knows it. Names are unique.
  pub mknod-creates :
      (mode rdev uid gid : ℕ)
      → mknod now p n mode rdev uid gid s
        ≡ creates p n s (
          new_stats now (s.db.last_ino + 1) mode 1 uid gid 0 rdev,
          after_create p n
              (record (new_inode now mode uid gid) { nlink = 1; rdev = rdev })
              (set_mtime_ctime now)
              s,
        )
  unfolding mknod
  mknod-creates mode rdev uid gid =
      let ino = s.db.last_ino + 1 in
      let row = record (new_inode now mode uid gid) { rdev = rdev } in
      let g = set_mtime_ctime now in
      let e : update p g
            (update ino (λ r. record r { nlink = inc r.nlink }) (insert ino row s.db.inode))
          ≡ update p g (insert ino (record row { nlink = 1 }) s.db.inode) =
        fun_ext λ j. ground arith in
      check_new-creates p n s u _ _ (λ i. (
        ok (new_stats now ino mode 1 uid gid 0 rdev),
        record (after_create p n row g s) {
          db = record (after_create p n row g s).db { inode = e i };
        },
      ))

  -- `symlink` fails with a name that is too long or taken and changes nothing then; else there is a
  -- new link with one link count and its target, and the cache knows it. Names are unique.
  pub symlink-creates :
      (target : Str) (uid gid : ℕ)
      → symlink now p n target uid gid s
        ≡ creates p n s (
          new_stats now (s.db.last_ino + 1) (bit_or s_iflnk 0o777) 1 uid gid (length target) 0,
          let t =
                after_create p n
                  (record (new_inode now (bit_or s_iflnk 0o777) uid gid) {
                    nlink = 1;
                    size = length target;
                  })
                  (set_mtime_ctime now)
                  s in
              record t { db = insert_symlink (s.db.last_ino + 1) target t.db },
        )
  unfolding symlink
  symlink-creates target uid gid =
      let ino = s.db.last_ino + 1 in
      let row = record (new_inode now (bit_or s_iflnk 0o777) uid gid) { size = length target } in
      let g = set_mtime_ctime now in
      let e : update p g
            (update ino (λ r. record r { nlink = inc r.nlink }) (insert ino row s.db.inode))
          ≡ update p g (insert ino (record row { nlink = 1 }) s.db.inode) =
        fun_ext λ j. ground arith in
      check_new-creates p n s u _ _ (λ i. (
        ok (new_stats now ino (bit_or s_iflnk 0o777) 1 uid gid (length target) 0),
        record (after_create p n row g s) {
          db = record (insert_symlink ino target (after_create p n row g s).db) { inode = e i };
        },
      ))
