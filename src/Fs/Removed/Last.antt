-- ===== src/Fs/Removed/Last.antt =====
-- What `unlink` leaves of a file: its contents and its row go exactly with the last of its entries.
use agentfs.Base.{
  ℕ, ◌<◌, ◌≡◌, ◌≢◌, refl, sym, ◌∙◌, ap, false, none, some, arith, ltb, length, ◌==◌, if◌then◌else◌,
  Str,
}
use agentfs.Db.{Inode, Now, set_mtime_ctime}
use agentfs.Db.Dentries.{find, links, remove, key_eq, find-remove, links-le-length, links-remove}
use agentfs.Fs.Cache.{Lru}
use agentfs.Fs.{Fs, ok, is_directory, max_name_len, update_inode, delete_dentry, u32_mod}
use agentfs.Fs.Remove.{unlink, purge}
use agentfs.Fs.Wf.{Inv, HasRoom}
use agentfs.Fs.Removed.Purge.{unlinked, last_link, dentry-purge}
use agentfs.Fs.Removed.Unlink.{unlink-unlinks, after_unlink}

-- The file `i` had the entry `n` of the directory `p`, and has it no more.
pub record IsUnlinked {lru : Lru} (p : ℕ) (n : Str) (i : ℕ) (s s' : Fs lru) : Type 0 where
  pub entries :
      (q : ℕ) (m : Str)
      → find q m s'.db.dentry ≡ (if key_eq p n q m then none else find q m s.db.dentry)
  pub gone :
      links i s'.db.dentry ≡ 0
      → (s'.db.inode i ≡ none) × ((c : ℕ) → s'.db.chunk i c ≡ none) × (s'.db.symlink i ≡ none)
  pub stays :
      0 < links i s'.db.dentry
      → ((r : Inode) × (s'.db.inode i ≡ some r) × (r.nlink ≡ links i s'.db.dentry))
        × ((c : ℕ) → s'.db.chunk i c ≡ s.db.chunk i c)
        × (s'.db.symlink i ≡ s.db.symlink i)
  pub other_rows : (j : ℕ) → (i == j) ≡ false → (p == j) ≡ false → s'.db.inode j ≡ s.db.inode j
  pub other_contents :
      (j : ℕ)
      → (i == j) ≡ false
      → ((c : ℕ) → s'.db.chunk j c ≡ s.db.chunk j c) × (s'.db.symlink j ≡ s.db.symlink j)

module _ {lru : Lru} (now : Now) (p : ℕ) (n : Str) (s : Fs lru) (v : Inv s) (room : HasRoom s.db)
    (i : ℕ) (r : Inode) (found : find p n s.db.dentry ≡ some i) (row : s.db.inode i ≡ some r)
    (file : is_directory r ≡ false) where
  unlink_succeeds :
      ltb max_name_len (length n) ≡ false → unlink now p n s ≡ (ok tt, after_unlink now p n i s)
  unlink_succeeds short = rw (unlink-unlinks now p n s v.wf.unique, short, found, row, file) refl

  after_unlink-IsUnlinked : IsUnlinked p n i s (after_unlink now p n i s)
  after_unlink-IsUnlinked =
      let (rp, at, dir) = v.wf.parent p n i found in
      let ne : p ≢ i =
        λ e. let same : some rp ≡ some r = sym at ∙ (ap s.db.inode e ∙ row) in ground arith in
      let t =
        update_inode i (unlinked now)
          (update_inode p (set_mtime_ctime now) (delete_dentry p n s.db)) in
      let row' : t.inode i ≡ some (unlinked now r) = ground arith in
      let (count, last) = last_link s.db p n i r v.wf room found row file in
      let fits = links-le-length i s.db.dentry in
      let l = links-remove i p n s.db.dentry v.wf.unique in
      let left : (purge i t).dentry ≡ remove p n s.db.dentry = dentry-purge i t in
      let small : links i (remove p n s.db.dentry) < u32_mod = omega arith in
      record {
        entries = λ q m. rw left (find-remove p n s.db.dentry q m);
        gone = λ e. let none_left = rw left at e in (ground arith, λ c. ground arith, ground arith);
        stays = λ more.
            let some_left = rw left at more in
            (rw left (unlinked now r, ground arith, omega arith), λ c. ground arith, ground arith);
        other_rows = λ j a b. ground arith;
        other_contents = λ j a. (λ c. ground arith, ground arith);
      }

  -- With the invariant and fewer than 2 ^ 32 entries, `unlink` of a name of a file, of 255 bytes at
  -- most, succeeds. The name is gone and every other entry stays. If that was the last entry of the
  -- file, its row, its data and its link target are gone; else all of them stay, and the row counts the
  -- entries that are left. The rows but the directory's and the contents of all other files are as
  -- before.
  pub unlink_lem :
      ltb max_name_len (length n) ≡ false
      → ((unlink now p n s).0 ≡ ok tt) × IsUnlinked p n i s (unlink now p n s).1
  unlink_lem short = rw (unlink_succeeds short) (refl, after_unlink-IsUnlinked)
