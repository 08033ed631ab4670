-- ===== src/Fs/Created/Invariant.antt =====
-- The operations that make an inode keep the tables well formed and the cache coherent.
use agentfs.Base.{
  ℕ, ◌+◌, ◌≡◌, ◌≢◌, refl, true, false, none, arith, ltb, length, ◌==◌, Str, Bool-cases,
  Option-cases, inl, inr, ==_iff,
}
use agentfs.Db.{Inode, Now}
use agentfs.Db.Dentries.{Dentry, find, find-append}
use agentfs.Db.Mode.{typed_mode, file_type, s_ifdir, file_type-typed_mode}
use agentfs.Fs.Cache.{Lru}
use agentfs.Fs.{Fs, is_directory, max_name_len, insert_symlink}
use agentfs.Fs.Create.{mkdir, create_file, mknod, symlink}
use agentfs.Fs.Created.{
  after_create, creates, mkdir-creates, create_file-creates, mknod-creates, symlink-creates,
}
use agentfs.Fs.Wf.{IsWf, IsCoherent, Inv, IsDirAt}
use agentfs.Fs.Wf.Insert.{create-IsWf}

-- An update of a directory's row that leaves its type alone.
abbrev pub KeepsType : (Inode → Inode) → Type 0
KeepsType g = (r : Inode) → (g r).mode ≡ r.mode

module _ {lru : Lru} (p : ℕ) (n : Str) (s : Fs lru) (v : Inv s) (dir : IsDirAt p s.db) where
  pub parent_is_old : p ≢ s.db.last_ino + 1
  parent_is_old e = ground (arith, v.wf.fresh_inode p, dir.1)

  pub after_create-IsWf :
      (r : Inode) (g : Inode → Inode)
      → find p n s.db.dentry ≡ none
      → KeepsType g
      → (is_directory r ≡ false → r.nlink ≡ 1)
      → IsWf (after_create p n r g s).db
  after_create-IsWf r g free keeps count =
      create-IsWf s.db (after_create p n r g s).db p n dir.0 (g dir.0) r v.wf dir.1 dir.2
        (rw (keeps dir.0) dir.2) free count refl (λ j. ground (arith, dir.1, parent_is_old)) refl

  pub after_create-IsCoherent :
      (r : Inode) (g : Inode → Inode)
      → find p n s.db.dentry ≡ none
      → IsCoherent (after_create p n r g s)
  after_create-IsCoherent r g free q m i h =
      let ino = s.db.last_ino + 1 in
      let d : Dentry = record { name = n; parent_ino = p; ino = ino } in
      ground (
        arith,
        lru.peek-put p n ino q m i s.cache h,
        find-append p n d s.db.dentry free q m,
        v.coherent q m i,
      )

  -- What is put in is well formed if the name was free, and nothing happens otherwise.
  creates-Inv :
      {A : Type 0} (a : A) (r : Inode) (g : Inode → Inode)
      → KeepsType g
      → (is_directory r ≡ false → r.nlink ≡ 1)
      → Inv (creates p n s (a, after_create p n r g s)).1
  creates-Inv a r g keeps count = elim (Option-cases (find p n s.db.dentry)) [
    | inl free ↦ elim (Bool-cases (ltb max_name_len (length n))) [
      | inl long ↦ rw long v
      | inr short ↦
          rw (short, free)
            (record {
              wf = after_create-IsWf r g free keeps count;
              coherent = after_create-IsCoherent r g free;
            })
    ]
    | inr (i, taken) ↦ elim (Bool-cases (ltb max_name_len (length n))) [
      | inl long ↦ rw long v
      | inr short ↦ rw (short, taken) v
    ]
  ]

  new_directory : (mode : ℕ) → (file_type (typed_mode s_ifdir mode) == s_ifdir) ≡ true
  new_directory mode = (==_iff _ _).1 (file_type-typed_mode 4 mode (omega arith))

  pub insert_symlink-Inv :
      (ino : ℕ) (target : Str) (t : Fs lru)
      → Inv t
      → Inv (record t { db = insert_symlink ino target t.db })
  insert_symlink-Inv ino target t w = record {
    wf = record {
      unique = w.wf.unique;
      child = w.wf.child;
      parent = w.wf.parent;
      counted = w.wf.counted;
      single = w.wf.single;
      fresh_inode = w.wf.fresh_inode;
      fresh_links = w.wf.fresh_links;
    };
    coherent = w.coherent;
  }

  creates-symlink-Inv :
      {A : Type 0} (a : A) (t : Fs lru) (ino : ℕ) (target : Str)
      → Inv (creates p n s (a, t)).1
      → Inv (creates p n s (a, record t { db = insert_symlink ino target t.db })).1
  creates-symlink-Inv a t ino target w = elim (Bool-cases (ltb max_name_len (length n))) [
    | inl long ↦ rw long v
    | inr short ↦ rw short (elim (Option-cases (find p n s.db.dentry)) [
      | inl free ↦ rw free (insert_symlink-Inv ino target t (rw (short, free) at w))
      | inr (i, taken) ↦ rw taken v
    ])
  ]

  -- `mkdir` in a directory that is there keeps the invariant, whether it succeeds or not.
  pub mkdir-Inv : (now : Now) (mode uid gid : ℕ) → Inv (mkdir now p n mode uid gid s).1
  mkdir-Inv now mode uid gid =
      rw (mkdir-creates now p n s v.wf.unique mode uid gid)
        (creates-Inv _ _ _ (λ r. refl) (λ h. absurd (cc (new_directory mode))))

  -- `create_file` in a directory that is there keeps the invariant, whether it succeeds or not.
  pub create_file-Inv : (now : Now) (mode uid gid : ℕ) → Inv (create_file now p n mode uid gid s).1
  create_file-Inv now mode uid gid =
      rw (create_file-creates now p n s v.wf.unique mode uid gid)
        (creates-Inv _ _ _ (λ r. refl) (λ h. refl))

  -- `mknod` in a directory that is there keeps the invariant, whether it succeeds or not, and
  -- whatever the mode is.
  pub mknod-Inv : (now : Now) (mode rdev uid gid : ℕ) → Inv (mknod now p n mode rdev uid gid s).1
  mknod-Inv now mode rdev uid gid =
      rw (mknod-creates now p n s v.wf.unique mode rdev uid gid)
        (creates-Inv _ _ _ (λ r. refl) (λ h. refl))

  -- `symlink` in a directory that is there keeps the invariant, whether it succeeds or not.
  pub symlink-Inv :
      (now : Now) (target : Str) (uid gid : ℕ) → Inv (symlink now p n target uid gid s).1
  symlink-Inv now target uid gid =
      rw (symlink-creates now p n s v.wf.unique target uid gid)
        (creates-symlink-Inv _ _ _ _ (creates-Inv _ _ _ (λ r. refl) (λ h. refl)))
