-- ===== src/Fs/Renamed/Replaced.antt =====
-- The destination of a `rename` is removed: the invariant with the entry gone.
use agentfs.Base.{
  ℕ, ◌%◌, ◌≡◌, ◌≢◌, refl, sym, ◌∙◌, ap, true, some, arith, ◌==◌, Str, Bool-cases, inl, inr,
}
use agentfs.Db.{Db, Inode, Now, dec}
use agentfs.Db.Dentries.{find, find-remove, links-remove, count_children, find_of_count_children}
use agentfs.Fs.{is_directory, update_inode, delete_dentry, u32_mod}
use agentfs.Fs.Remove.{purge}
use agentfs.Fs.Wf.{IsWf, IsDirAt, HasRoom}
use agentfs.Fs.Wf.Delete.{delete-IsWf, IsLeft}
use agentfs.Fs.Removed.Purge.{
  unlinked, kept, inode-purge, dentry-purge, last_ino-purge, file-IsLeft,
}
use agentfs.Fs.Renamed.Writes.{IsFreed}

-- The writes that remove the destination.
abbrev pub freed : Now → ℕ → Str → ℕ → Db → Db
freed now p n i db = purge i (update_inode i (unlinked now) (delete_dentry p n db))

module _ (now : Now) (p : ℕ) (n : Str) (i : ℕ) (db : Db) (w : IsWf db)
    (found : find p n db.dentry ≡ some i) (r : Inode) (row : db.inode i ≡ some r) where
  -- An empty directory is not the parent of its own entry, and neither is a file.
  apart : (is_directory r ≡ true → count_children i db.dentry ≡ 0) → p ≢ i
  apart why e =
      let (rp, at, dir) = w.parent p n i found in
      let same : some rp ≡ some r = sym at ∙ (ap db.inode e ∙ row) in
      let empty : count_children i db.dentry ≡ 0 = why (ground arith) in
      cc (find_of_count_children i n db.dentry empty, ap (λ j. find j n db.dentry) e)

  -- What is left of the row agrees with the entries that are left.
  left :
      HasRoom db
      → (is_directory r ≡ true → count_children i db.dentry ≡ 0)
      → IsLeft db p n i r (kept (unlinked now r))
  left room why = elim (Bool-cases (is_directory r)) [
    | inr file ↦ file-IsLeft db p n i r w room found row now file
    | inl dir ↦
        let l = rw found at (links-remove i p n db.dentry w.unique) in
        let b = w.single i r row dir in
        elim (Bool-cases (dec r.nlink % u32_mod == 0)) [
          | inl gone ↦ rw gone (ground arith, λ m. find_of_count_children i m db.dentry (why dir))
          | inr more ↦ rw more (refl, λ file. cc)
        ]
  ]

  pub freed-IsWf :
      HasRoom db
      → (is_directory r ≡ true → count_children i db.dentry ≡ 0)
      → IsWf (freed now p n i db)
  freed-IsWf room why =
      let (rp, at, dir) = w.parent p n i found in
      let t = update_inode i (unlinked now) (delete_dentry p n db) in
      let row' : t.inode i ≡ some (unlinked now r) = ground arith in
      let ne = apart why in
      delete-IsWf db (purge i t) p n i rp rp r (kept (unlinked now r)) w found at dir dir row ne
        (left room why) (last_ino-purge i t)
        (λ j. inode-purge i (unlinked now r) t j row' ∙ ground arith) (dentry-purge i t)

  pub freed-IsFreed : IsFreed p n db (freed now p n i db)
  freed-IsFreed q m =
      let t = update_inode i (unlinked now) (delete_dentry p n db) in
      rw (dentry-purge i t) (find-remove p n db.dentry q m)

  pub freed-IsDirAt :
      (is_directory r ≡ true → count_children i db.dentry ≡ 0) → IsDirAt p (freed now p n i db)
  freed-IsDirAt why =
      let (rp, at, dir) = w.parent p n i found in
      let t = update_inode i (unlinked now) (delete_dentry p n db) in
      let row' : t.inode i ≡ some (unlinked now r) = ground arith in
      let ne = apart why in (rp, inode-purge i (unlinked now r) t p row' ∙ ground arith, dir)
