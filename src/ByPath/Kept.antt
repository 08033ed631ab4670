-- ===== src/ByPath/Kept.antt =====
-- The methods by path that make an inode keep the invariant.
use agentfs.Base.{
  ℕ, ◌≡◌, refl, true, false, Option, none, some, Str, Option-cases, Bool-cases, inl, inr, ◌==◌,
}
use agentfs.Db.{Inode, Now}
use agentfs.Db.Dentries.{find}
use agentfs.Db.Mode.{file_type, s_ifdir}
use agentfs.Fs.Cache.{Lru}
use agentfs.Fs.Created.{after_create}
use agentfs.Fs.Created.Invariant.{
  KeepsType, after_create-IsWf, after_create-IsCoherent, insert_symlink-Inv,
}
use agentfs.Fs.{Fs, Exec, err, is_directory, not_found, root_ino, root_operation, ◌>>=◌}
use agentfs.Fs.Schema.{default_dir_mode}
use agentfs.Fs.Wf.{Inv, IsDirAt}
use agentfs.Fs.Resolve.{walk, resolve_path, resolve_path-walk}
use agentfs.Path.{split_path, normalize_path, is_empty}
use agentfs.ByPath.{non_root, resolve_parent, name_of, parent_text}
use agentfs.ByPath.Made.{
  makes, unchanged, mkdir_at-makes, mknod_at-makes, create_file_at-makes, symlink_at-makes,
  symlink_row,
}
use agentfs.ByPath.Make.{
  mkdir_at, mknod_at, create_file_at, symlink_at, mkdir, mknod, create_file, symlink,
}

-- The mode of a new directory is that of a directory.
is_directory_default : (file_type default_dir_mode == s_ifdir) ≡ true
unfolding file_type
is_directory_default = refl

module _ {lru : Lru} (p : ℕ) (n : Str) (s : Fs lru) (v : Inv s) where
  makes-kept :
      {A : Type 0} (a : A) (t : Fs lru)
      → (find p n s.db.dentry ≡ none → Inv t)
      → Inv (makes p n s (a, t)).1
  makes-kept a t h = elim (Option-cases (find p n s.db.dentry)) [
    | inl free ↦ rw free (h free)
    | inr (i, taken) ↦ rw taken v
  ]

  module _ (dir : IsDirAt p s.db) where
    pub after_create-Inv :
        (r : Inode) (g : Inode → Inode)
        → KeepsType g
        → (is_directory r ≡ false → r.nlink ≡ 1)
        → find p n s.db.dentry ≡ none
        → Inv (after_create p n r g s)
    after_create-Inv r g keeps count free = record {
      wf = after_create-IsWf p n s v dir r g free keeps count;
      coherent = after_create-IsCoherent p n s v dir r g free;
    }

    pub mkdir_at-Inv : (now : Now) (uid gid : ℕ) → Inv (mkdir_at now p n uid gid s).1
    mkdir_at-Inv now uid gid = rw (mkdir_at-makes now p n s v.wf.unique uid gid) (
        makes-kept _ _
          (after_create-Inv _ _ (λ r. refl) (λ h. absurd (cc (h, is_directory_default)))))

    mknod_at-Inv :
        (now : Now) (mode rdev uid gid : ℕ) → Inv (mknod_at now p n mode rdev uid gid s).1
    mknod_at-Inv now mode rdev uid gid =
        rw (mknod_at-makes now p n s v.wf.unique mode rdev uid gid)
          (makes-kept _ _ (after_create-Inv _ _ (λ r. refl) (λ h. refl)))

    create_file_at-Inv :
        (now : Now) (mode uid gid : ℕ) → Inv (create_file_at now p n mode uid gid s).1
    create_file_at-Inv now mode uid gid =
        rw (create_file_at-makes now p n s v.wf.unique mode uid gid)
          (makes-kept _ _ (after_create-Inv _ _ (λ r. refl) (λ h. refl)))

    pub symlink_at-Inv :
        (now : Now) (target : Str) (uid gid : ℕ) → Inv (symlink_at now p n target uid gid s).1
    symlink_at-Inv now target uid gid = rw (symlink_at-makes now p n s v.wf.unique target uid gid) (
        makes-kept _ _ (λ free. insert_symlink-Inv p n s v dir _ target _ (
          after_create-Inv (symlink_row now target uid gid) unchanged (λ r. refl) (λ h. refl)
            free)))

-- The directory that the path's last name stands in, if the names before it lead to one.
abbrev pub parent_walk : {lru : Lru} → Str → Fs lru → Option ℕ
parent_walk path s =
    walk (split_path (parent_text (split_path (normalize_path path)))) root_ino s.db.dentry

-- A method that finds the parent of a path, and then does `f` with it and the last name.
abbrev pub at_parent : {lru : Lru} {A : Type 0} → (ℕ → Str → Exec lru A) → Str → Exec lru A
at_parent f path = do
  components ← non_root path
  p ← resolve_parent components
  f p (name_of components)

module _ {lru : Lru} {A : Type 0} (f : ℕ → Str → Exec lru A) (path : Str) (s : Fs lru)
    (v : Inv s) where
  abbrev pub resolved : Fs lru
  resolved = (resolve_path (parent_text (split_path (normalize_path path))) s).1

  -- It fails at the root and where a name before the last is missing.
  at_parent-root :
      is_empty (split_path (normalize_path path)) ≡ true
      → at_parent f path s ≡ (err root_operation, s)
  unfolding non_root resolve_parent
  at_parent-root h = rw h

  at_parent-gone :
      is_empty (split_path (normalize_path path)) ≡ false
      → parent_walk path s ≡ none
      → at_parent f path s ≡ (err not_found, resolved)
  unfolding non_root resolve_parent
  at_parent-gone h k =
      let (walked, _, _) = resolve_path-walk (parent_text (split_path (normalize_path path))) s v in
      rw (h, walked, k)

  pub at_parent-there :
      (p : ℕ)
      → is_empty (split_path (normalize_path path)) ≡ false
      → parent_walk path s ≡ some p
      → at_parent f path s ≡ f p (name_of (split_path (normalize_path path))) resolved
  unfolding non_root resolve_parent
  at_parent-there p h k =
      let (walked, _, _) = resolve_path-walk (parent_text (split_path (normalize_path path))) s v in
      rw (h, walked, k)

  pub at_parent-Inv :
      ((t : Fs lru) (p : ℕ) (n : Str)
        → Inv t
        → t.db ≡ s.db
        → parent_walk path s ≡ some p
        → Inv (f p n t).1)
      → Inv (at_parent f path s).1
  at_parent-Inv h =
      let (_, same, v') = resolve_path-walk (parent_text (split_path (normalize_path path))) s v in
      elim (Bool-cases (is_empty (split_path (normalize_path path)))) [
        | inl root ↦ rw (at_parent-root root) v
        | inr below ↦ elim (Option-cases (parent_walk path s)) [
          | inl gone ↦ rw (at_parent-gone below gone) v'
          | inr (p, there) ↦
              rw (at_parent-there p below there)
                (h resolved p (name_of (split_path (normalize_path path))) v' same there)
        ]
      ]

module _ {lru : Lru} (path : Str) (s : Fs lru) (v : Inv s)
    (dir : (p : ℕ) → parent_walk path s ≡ some p → IsDirAt p s.db) (now : Now) where
  -- If what the names before the last lead to is a directory, `mkdir`, `mknod`, `create_file` and
  -- `symlink` by path keep the invariant, whether they succeed or not.
  pub made_by_path-Inv :
      (mode rdev uid gid : ℕ) (target : Str)
      → Inv (mkdir now path uid gid s).1
        × Inv (mknod now path mode rdev uid gid s).1
        × Inv (create_file now path mode uid gid s).1
        × Inv (symlink now target path uid gid s).1
  unfolding mkdir mknod create_file symlink
  made_by_path-Inv mode rdev uid gid target = (
    at_parent-Inv (λ p n. mkdir_at now p n uid gid) path s v
        (λ t p n w e h. mkdir_at-Inv p n t w (rw e (dir p h)) now uid gid),
    at_parent-Inv (λ p n. mknod_at now p n mode rdev uid gid) path s v
        (λ t p n w e h. mknod_at-Inv p n t w (rw e (dir p h)) now mode rdev uid gid),
    at_parent-Inv (λ p n. create_file_at now p n mode uid gid) path s v
        (λ t p n w e h. create_file_at-Inv p n t w (rw e (dir p h)) now mode uid gid),
    at_parent-Inv (λ p n. symlink_at now p n target uid gid) path s v
        (λ t p n w e h. symlink_at-Inv p n t w (rw e (dir p h)) now target uid gid),
  )
