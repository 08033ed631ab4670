-- ===== src/ByPath/Made.antt =====
-- What `mkdir`, `mknod`, `create_file` and `symlink` by path compute once the parent is known.
use agentfs.Base.{ℕ, ◌+◌, ◌≡◌, refl, arith, length, bit_or, if◌then◌else◌, Str, fun_ext}
use agentfs.Db.{Inode, Now, update, insert, set_mtime_ctime, inc}
use agentfs.Db.Dentries.{find, IsUnique}
use agentfs.Db.Mode.{typed_mode, s_ifreg, s_iflnk}
use agentfs.Fs.Cache.{Lru}
use agentfs.Fs.Create.{new_inode, new_stats}
use agentfs.Fs.Created.{after_create}
use agentfs.Fs.Schema.{default_dir_mode}
use agentfs.Fs.{Fs, Exec, Result, ok, err, already_exists, is_some, insert_symlink, ◌>>◌}
use agentfs.Fs.Wf.{lookup_child-find}
use agentfs.ByPath.Make.{check_free, mkdir_at, mknod_at, create_file_at, symlink_at}

-- The outcome of a method that makes the name `n`: a refusal that changes nothing, or success.
abbrev pub makes : {lru : Lru} {A : Type 0} → ℕ → Str → Fs lru → A × Fs lru → Result A × Fs lru
makes p n s done =
    if is_some (find p n s.db.dentry) then (err already_exists, s) else (ok done.0, done.1)

-- The parent's row is not written.
abbrev pub unchanged : Inode → Inode
unchanged r = r

module _ {lru : Lru} {A : Type 0} (p : ℕ) (n : Str) (s : Fs lru) (u : IsUnique s.db.dentry) where
  check_free-makes :
      (m : Exec lru A) (done : A × Fs lru)
      → m s ≡ (ok done.0, done.1)
      → (check_free p n >> m) s ≡ makes p n s done
  check_free-makes m done h = ground (arith, h, lookup_child-find p n s.db.dentry u)

-- The row of a new directory.
abbrev pub directory_row : Now → ℕ → ℕ → Inode
directory_row now uid gid = record (new_inode now default_dir_mode uid gid) { nlink = 2 }

abbrev pub symlink_row : Now → Str → ℕ → ℕ → Inode
symlink_row now target uid gid = record (new_inode now (bit_or s_iflnk 0o777) uid gid) {
  nlink = 1;
  size = length target;
}

module _ {lru : Lru} (now : Now) (p : ℕ) (n : Str) (s : Fs lru) (u : IsUnique s.db.dentry) where
  pub mkdir_at-makes :
      (uid gid : ℕ)
      → mkdir_at now p n uid gid s
        ≡ makes p n s (
          tt,
          after_create p n
              (directory_row now uid gid)
              (λ r. set_mtime_ctime now (record r { nlink = inc r.nlink }))
              s,
        )
  unfolding mkdir_at
  mkdir_at-makes uid gid =
      let ino = s.db.last_ino + 1 in
      let row = new_inode now default_dir_mode uid gid in
      let g = λ (r : Inode). set_mtime_ctime now (record r { nlink = inc r.nlink }) in
      let e : update p g (update ino (λ r. record r { nlink = 2 }) (insert ino row s.db.inode))
          ≡ update p g (insert ino (record row { nlink = 2 }) s.db.inode) =
        fun_ext λ j. ground arith in
      check_free-makes p n s u _ _ (λ i. (
        ok tt,
        record (after_create p n row g s) {
          db = record (after_create p n row g s).db { inode = e i };
        },
      ))

  -- A new row whose link is counted by an update, or from the start: the same tables.
  counted :
      (row : Inode)
      → row.nlink ≡ 0
      → update
          (s.db.last_ino + 1)
          (λ r. record r { nlink = inc r.nlink })
          (insert (s.db.last_ino + 1) row s.db.inode)
        ≡ update p unchanged (insert (s.db.last_ino + 1) (record row { nlink = 1 }) s.db.inode)
  counted row h = fun_ext λ j. ground arith

  uncounted :
      (row : Inode)
      → insert (s.db.last_ino + 1) row s.db.inode
        ≡ update p unchanged (insert (s.db.last_ino + 1) row s.db.inode)
  uncounted row = fun_ext λ j. ground arith

  pub mknod_at-makes :
      (mode rdev uid gid : ℕ)
      → mknod_at now p n mode rdev uid gid s
        ≡ makes p n s (
          tt,
          after_create p n
              (record (new_inode now mode uid gid) { nlink = 1; rdev = rdev })
              unchanged
              s,
        )
  unfolding mknod_at
  mknod_at-makes mode rdev uid gid =
      let row = record (new_inode now mode uid gid) { rdev = rdev } in
      let t = after_create p n row unchanged s in
      check_free-makes p n s u _ _
        (λ i. (ok tt, record t { db = record t.db { inode = counted row refl i } }))

  pub create_file_at-makes :
      (mode uid gid : ℕ)
      → create_file_at now p n mode uid gid s
        ≡ makes p n s (
          (
            new_stats now (s.db.last_ino + 1) (typed_mode s_ifreg mode) 1 uid gid 0 0,
            s.db.last_ino + 1,
          ),
          after_create p n
              (record (new_inode now (typed_mode s_ifreg mode) uid gid) { nlink = 1 })
              unchanged
              s,
        )
  unfolding create_file_at
  create_file_at-makes mode uid gid =
      let ino = s.db.last_ino + 1 in
      let row = record (new_inode now (typed_mode s_ifreg mode) uid gid) { nlink = 1 } in
      let t = after_create p n row unchanged s in
      check_free-makes p n s u _ _ (λ i. (
        ok (new_stats now ino (typed_mode s_ifreg mode) 1 uid gid 0 0, ino),
        record t { db = record t.db { inode = uncounted row i } },
      ))

  pub symlink_at-makes :
      (target : Str) (uid gid : ℕ)
      → symlink_at now p n target uid gid s
        ≡ makes p n s (
          tt,
          let t = after_create p n (symlink_row now target uid gid) unchanged s in
              record t { db = insert_symlink (s.db.last_ino + 1) target t.db },
        )
  unfolding symlink_at
  symlink_at-makes target uid gid =
      let row = record (new_inode now (bit_or s_iflnk 0o777) uid gid) { size = length target } in
      let t = after_create p n row unchanged s in
      check_free-makes p n s u _ _ (λ i. (
        ok tt,
        record t {
          db = record (insert_symlink (s.db.last_ino + 1) target t.db) {
            inode = counted row refl i;
          };
        },
      ))
