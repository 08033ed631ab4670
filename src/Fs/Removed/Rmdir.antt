-- ===== src/Fs/Removed/Rmdir.antt =====
-- `rmdir` on every branch, the invariant after it, and the row that it leaves behind.
use agentfs.Base.{
  ℕ, ◌%◌, ◌≤◌, ◌≡◌, ◌≢◌, refl, ap, true, false, not, none, some, arith, ltb, length, ◌==◌,
  if◌then◌else◌, Str, Bool-cases, Option-cases, inl, inr,
}
use agentfs.Db.{Inode, Now, dec, set_mtime_ctime}
use agentfs.Db.Dentries.{
  find, remove, links, IsUnique, find-remove, links-remove, count_children, find_of_count_children,
}
use agentfs.Fs.Cache.{Lru}
use agentfs.Fs.{
  Fs, Result, ok, err, is_directory, max_name_len, name_too_long, not_found, not_a_directory,
  not_empty, root_operation, root_ino, update_inode, delete_dentry, u32_mod,
}
use agentfs.Fs.Remove.{rmdir, purge_inode}
use agentfs.Fs.Wf.{IsCoherent, Inv, lookup_child-find}
use agentfs.Fs.Wf.Delete.{delete-IsWf, IsLeft}
use agentfs.Fs.Removed.Purge.{kept}

-- The writes of `rmdir`.
abbrev pub unlinked_dir : Inode → Inode
unlinked_dir r = record r { nlink = dec r.nlink }

abbrev pub after_rmdir : {lru : Lru} → Now → ℕ → Str → ℕ → Fs lru → Fs lru
after_rmdir {lru} now p n i s = record {
  db = purge_inode i (
      update_inode p (λ r. set_mtime_ctime now (record r { nlink = dec r.nlink }))
        (update_inode i unlinked_dir (delete_dentry p n s.db)));
  cache = lru.pop p n s.cache;
}

-- The outcome of `rmdir`, by what the name stands for.
abbrev pub rmdir_of : {lru : Lru} → Now → ℕ → Str → ℕ → Inode → Fs lru → Result (Unit {0}) × Fs lru
rmdir_of now p n i r s =
    if i == root_ino
    then (err root_operation, s)
    else if not (is_directory r)
    then (err not_a_directory, s)
    else if ltb 0 (count_children i s.db.dentry)
    then (err not_empty, s)
    else (ok tt, after_rmdir now p n i s)

module _ {lru : Lru} (now : Now) (p : ℕ) (n : Str) (s : Fs lru) where
  rmdir_long : ltb max_name_len (length n) ≡ true → rmdir now p n s ≡ (err name_too_long, s)
  unfolding rmdir
  rmdir_long h = ground arith

  rmdir_free :
      IsUnique s.db.dentry
      → ltb max_name_len (length n) ≡ false
      → find p n s.db.dentry ≡ none
      → rmdir now p n s ≡ (err not_found, s)
  unfolding rmdir
  rmdir_free u h free = ground (arith, lookup_child-find p n s.db.dentry u)

  pub rmdir_found :
      (i : ℕ) (r : Inode)
      → IsUnique s.db.dentry
      → ltb max_name_len (length n) ≡ false
      → find p n s.db.dentry ≡ some i
      → s.db.inode i ≡ some r
      → rmdir now p n s ≡ rmdir_of now p n i r s
  unfolding rmdir
  rmdir_found i r u h found row = ground (arith, lookup_child-find p n s.db.dentry u)

  after_rmdir-IsCoherent : (i : ℕ) → IsCoherent s → IsCoherent (after_rmdir now p n i s)
  after_rmdir-IsCoherent i c q m j h =
      let popped = lru.peek-pop p n q m s.cache in
      let found = find-remove p n s.db.dentry q m in
      let e : (after_rmdir now p n i s).db.dentry ≡ remove p n s.db.dentry = ground arith in
      rw e (ground (arith, c q m j))

  module _ (v : Inv s) (i : ℕ) (found : find p n s.db.dentry ≡ some i) (r : Inode)
      (row : s.db.inode i ≡ some r) (isdir : is_directory r ≡ true)
      (empty : count_children i s.db.dentry ≡ 0) where
    not_itself : p ≢ i
    not_itself e =
        cc (find_of_count_children i n s.db.dentry empty, ap (λ j. find j n s.db.dentry) e)

    dir-IsLeft : IsLeft s.db p n i r (kept (unlinked_dir r))
    dir-IsLeft =
        let l = rw found at (links-remove i p n s.db.dentry v.wf.unique) in
        let b = v.wf.single i r row isdir in
        elim (Bool-cases (dec r.nlink % u32_mod == 0)) [
          | inl gone ↦ rw gone (ground arith, λ m. find_of_count_children i m s.db.dentry empty)
          | inr more ↦ rw more (refl, λ file. cc)
        ]

    after_rmdir-Inv : Inv (after_rmdir now p n i s)
    after_rmdir-Inv =
        let (rp, at, dir) = v.wf.parent p n i found in
        let ne = not_itself in
        let t = after_rmdir now p n i s in
        let rp' = set_mtime_ctime now (record rp { nlink = dec rp.nlink }) in
        record {
          wf =
              delete-IsWf s.db t.db p n i rp rp' r (kept (unlinked_dir r)) v.wf found at dir dir row
                ne dir-IsLeft (ground arith) (λ j. ground arith) (ground arith);
          coherent = after_rmdir-IsCoherent i v.coherent;
        }

  -- `rmdir` keeps the invariant, whether it succeeds or not.
  pub rmdir-Inv : Inv s → Inv (rmdir now p n s).1
  rmdir-Inv v = elim (Bool-cases (ltb max_name_len (length n))) [
    | inl long ↦ rw (rmdir_long long) v
    | inr short ↦ elim (Option-cases (find p n s.db.dentry)) [
      | inl free ↦ rw (rmdir_free v.wf.unique short free) v
      | inr (i, found) ↦
          let (r, row) = v.wf.child p n i found in
          rw (rmdir_found i r v.wf.unique short found row) (found_case i found r row)
    ]
  ]
    where
      found_case :
          (i : ℕ)
          → find p n s.db.dentry ≡ some i
          → (r : Inode) → s.db.inode i ≡ some r
          → Inv (rmdir_of now p n i r s).1
      found_case i found r row = elim (Bool-cases (i == root_ino)) [
        | inl root ↦ rw root v
        | inr other ↦ rw other (elim (Bool-cases (is_directory r)) [
          | inr file ↦ rw file v
          | inl dir ↦ rw dir (elim (Bool-cases (ltb 0 (count_children i s.db.dentry))) [
            | inl full ↦ rw full v
            | inr empty ↦ rw empty (after_rmdir-Inv v i found r row dir (ground arith))
          ])
        ])
      ]

  -- With the invariant: `rmdir` of an empty directory other than the root that has two links,
  -- as one that `mkdir` made has, succeeds, and the row of the directory stays in `fs_inode`,
  -- with one link and no entry.
  pub rmdir_leaves_row :
      (i : ℕ) (r : Inode)
      → Inv s
      → length n ≤ max_name_len
      → find p n s.db.dentry ≡ some i
      → i ≢ root_ino
      → s.db.inode i ≡ some r
      → is_directory r ≡ true
      → r.nlink ≡ 2
      → count_children i s.db.dentry ≡ 0
      → ((rmdir now p n s).0 ≡ ok tt)
        × ((rmdir now p n s).1.db.inode i ≡ some (record r { nlink = 1 }))
        × (links i (rmdir now p n s).1.db.dentry ≡ 0)
  rmdir_leaves_row i r v short found other row dir two empty =
      let ne = not_itself v i found r row dir empty in
      let l = rw found at (links-remove i p n s.db.dentry v.wf.unique) in
      let b = v.wf.single i r row dir in
      rw (rmdir_found i r v.wf.unique (ground arith) found row)
        (ground arith, ground arith, ground arith)
