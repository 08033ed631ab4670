-- ===== src/Fs/Renamed/Outcome.antt =====
-- `rename` on every branch, and the invariant after it.
use agentfs.Base.{
  ℕ, ◌≡◌, refl, true, false, not, ◌&&◌, Option, none, some, arith, ltb, length, ◌==◌, if◌then◌else◌,
  Str, Bool-cases, Option-cases, inl, inr,
}
use agentfs.Db.{Inode, Now}
use agentfs.Db.Dentries.{find, IsUnique, key_eq, count_children, key_eq_iff}
use agentfs.Fs.Cache.{Lru}
use agentfs.Fs.{
  Fs, FsError, Result, ok, err, is_directory, max_name_len, name_too_long, not_found, root_ino,
  not_a_directory, is_a_directory, not_empty, root_operation,
}
use agentfs.Fs.Rename.{rename, replace}
use agentfs.Fs.Wf.{Inv, IsDirAt, HasRoom, lookup_child-find}
use agentfs.Fs.Renamed.Writes.{after_rename, after_rename-Inv, IsFreed}
use agentfs.Fs.Renamed.Replaced.{freed, freed-IsWf, freed-IsFreed, freed-IsDirAt}

-- The outcome of `rename` of an inode with its row, by the destination's entry and row.
abbrev pub renames :
    {lru : Lru}
    → Now
    → Now
    → ℕ
    → Str
    → ℕ
    → Str
    → ℕ
    → Inode
    → Option (ℕ × Inode)
    → Fs lru
    → Result (Unit {0}) × Fs lru
renames now_dec now p n p' n' i src none s =
    (ok tt, after_rename now p n p' n' i (is_directory src) s.db s)
renames now_dec now p n p' n' i src (some (j, dst)) s =
    if is_directory dst && not (is_directory src)
    then (err is_a_directory, s)
    else if not (is_directory dst) && is_directory src
    then (err not_a_directory, s)
    else if is_directory dst && ltb 0 (count_children j s.db.dentry)
    then (err not_empty, s)
    else (ok tt, after_rename now p n p' n' i (is_directory src) (freed now_dec p' n' j s.db) s)

module _ {lru : Lru} (now_dec now : Now) (p : ℕ) (n : Str) (p' : ℕ) (n' : Str) (s : Fs lru) where
  rename_long :
      ltb max_name_len (length n') ≡ true → rename now_dec now p n p' n' s ≡ (err name_too_long, s)
  unfolding rename
  rename_long h = ground arith

  module _ (u : IsUnique s.db.dentry) (short : ltb max_name_len (length n') ≡ false) where
    rename_free : find p n s.db.dentry ≡ none → rename now_dec now p n p' n' s ≡ (err not_found, s)
    unfolding rename
    rename_free free = ground (arith, lookup_child-find p n s.db.dentry u)

    module _ (i : ℕ) (found : find p n s.db.dentry ≡ some i) where
      rename_root : i ≡ root_ino → rename now_dec now p n p' n' s ≡ (err root_operation, s)
      unfolding rename
      rename_root e = ground (arith, lookup_child-find p n s.db.dentry u)

      module _ (r : Inode) (row : s.db.inode i ≡ some r) (other : (i == root_ino) ≡ false) where
        rename_new :
            find p' n' s.db.dentry ≡ none
            → rename now_dec now p n p' n' s ≡ renames now_dec now p n p' n' i r none s
        unfolding rename replace
        rename_new free =
            ground
              (arith, lookup_child-find p n s.db.dentry u, lookup_child-find p' n' s.db.dentry u)

        rename_over :
            (j : ℕ) (dst : Inode)
            → find p' n' s.db.dentry ≡ some j
            → s.db.inode j ≡ some dst
            → rename now_dec now p n p' n' s ≡ renames now_dec now p n p' n' i r (some (j, dst)) s
        unfolding rename replace
        rename_over j dst there row' =
            ground
              (arith, lookup_child-find p n s.db.dentry u, lookup_child-find p' n' s.db.dentry u)

  module _ (v : Inv s) (room : HasRoom s.db) (dir : IsDirAt p' s.db)
      (apart : key_eq p' n' p n ≡ false) (i : ℕ) (found : find p n s.db.dentry ≡ some i)
      (r : Inode) where
    new-Inv : find p' n' s.db.dentry ≡ none → Inv (renames now_dec now p n p' n' i r none s).1
    new-Inv free =
        let same : IsFreed p' n' s.db s.db = λ q m. ground (arith, key_eq_find q m) in
        after_rename-Inv now p n p' n' i (is_directory r) s.db s same found apart v v.wf dir
      where
        key_eq_find : (q : ℕ) (m : Str) → key_eq p' n' q m ≡ true → find q m s.db.dentry ≡ none
        key_eq_find q m h = let (e, e') = (key_eq_iff p' n' q m).0 h in cc (e, e', free)

    over-Inv :
        (j : ℕ) (dst : Inode)
        → find p' n' s.db.dentry ≡ some j
        → s.db.inode j ≡ some dst
        → Inv (renames now_dec now p n p' n' i r (some (j, dst)) s).1
    over-Inv j dst there row = elim (Bool-cases (is_directory dst && not (is_directory r))) [
      | inl onto_dir ↦ rw onto_dir v
      | inr ok₁ ↦ rw ok₁ (elim (Bool-cases (not (is_directory dst) && is_directory r)) [
        | inl onto_file ↦ rw onto_file v
        | inr ok₂ ↦
            rw ok₂ (elim (Bool-cases (is_directory dst && ltb 0 (count_children j s.db.dentry))) [
              | inl full ↦ rw full v
              | inr ok₃ ↦ rw ok₃ (removed (λ d. ground arith))
            ])
      ])
    ]
      where
        removed :
            (is_directory dst ≡ true → count_children j s.db.dentry ≡ 0)
            → Inv (after_rename now p n p' n' i (is_directory r) (freed now_dec p' n' j s.db) s)
        removed why =
            after_rename-Inv now p n p' n' i (is_directory r) (freed now_dec p' n' j s.db) s
              (freed-IsFreed now_dec p' n' j s.db v.wf there dst row) found apart v
              (freed-IsWf now_dec p' n' j s.db v.wf there dst row room why)
              (freed-IsDirAt now_dec p' n' j s.db v.wf there dst row why)

  -- `rename` keeps the invariant, whether it succeeds or not, if the destination's parent is a
  -- directory, the destination is not the source, and there are fewer than 2 ^ 32 entries.
  pub rename-Inv :
      Inv s
      → HasRoom s.db
      → IsDirAt p' s.db
      → key_eq p' n' p n ≡ false
      → Inv (rename now_dec now p n p' n' s).1
  rename-Inv v room dir apart = elim (Bool-cases (ltb max_name_len (length n'))) [
    | inl long ↦ rw (rename_long long) v
    | inr short ↦ elim (Option-cases (find p n s.db.dentry)) [
      | inl free ↦ rw (rename_free v.wf.unique short free) v
      | inr (i, found) ↦
          let (r, row) = v.wf.child p n i found in
          elim (Bool-cases (i == root_ino)) [
            | inl root ↦ rw (rename_root v.wf.unique short i found (ground arith)) v
            | inr other ↦ elim (Option-cases (find p' n' s.db.dentry)) [
              | inl free ↦
                  rw (rename_new v.wf.unique short i found r row other free)
                    (new-Inv v room dir apart i found r free)
              | inr (j, there) ↦
                  let (dst, row') = v.wf.child p' n' j there in
                  rw (rename_over v.wf.unique short i found r row other j dst there row')
                    (over-Inv v room dir apart i found r j dst there row')
            ]
          ]
    ]
  ]

  renames_fails :
      (i : ℕ) (r : Inode) (dst : Option (ℕ × Inode)) (e : FsError)
      → (renames now_dec now p n p' n' i r dst s).0 ≡ err e
      → (renames now_dec now p n p' n' i r dst s).1 ≡ s
  renames_fails i r none e h = cc
  renames_fails i r (some (j, d)) e h = ground arith

  -- With the invariant, a `rename` that fails changes neither the tables nor the cache.
  pub rename_fails :
      (e : FsError)
      → Inv s
      → (rename now_dec now p n p' n' s).0 ≡ err e
      → (rename now_dec now p n p' n' s).1 ≡ s
  rename_fails e v h = elim (Bool-cases (ltb max_name_len (length n'))) [
    | inl long ↦ rw (rename_long long) refl
    | inr short ↦ elim (Option-cases (find p n s.db.dentry)) [
      | inl free ↦ rw (rename_free v.wf.unique short free) refl
      | inr (i, found) ↦
          let (r, row) = v.wf.child p n i found in
          elim (Bool-cases (i == root_ino)) [
            | inl root ↦ rw (rename_root v.wf.unique short i found (ground arith)) refl
            | inr other ↦ elim (Option-cases (find p' n' s.db.dentry)) [
              | inl free ↦
                  let o = rename_new v.wf.unique short i found r row other free in
                  rw o (renames_fails i r none e (rw o at h))
              | inr (j, there) ↦
                  let (dst, row') = v.wf.child p' n' j there in
                  let o = rename_over v.wf.unique short i found r row other j dst there row' in
                  rw o (renames_fails i r (some (j, dst)) e (rw o at h))
            ]
          ]
    ]
  ]
