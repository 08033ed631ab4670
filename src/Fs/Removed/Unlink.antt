-- ===== src/Fs/Removed/Unlink.antt =====
-- `unlink` on every branch, and the invariant after it.
use agentfs.Base.{
  ℕ, ◌≡◌, ◌≢◌, sym, ◌∙◌, ap, false, none, some, arith, ltb, length, if◌then◌else◌, Str, Bool-cases,
  Option-cases, inl, inr,
}
use agentfs.Db.{Inode, Now, dec, set_ctime, set_mtime_ctime}
use agentfs.Db.Dentries.{find, remove, IsUnique, find-remove}
use agentfs.Fs.Cache.{Lru}
use agentfs.Fs.{
  Fs, Result, ok, err, is_directory, max_name_len, name_too_long, not_found, is_a_directory,
  update_inode, delete_dentry,
}
use agentfs.Fs.Remove.{unlink, purge, names_directory}
use agentfs.Fs.Wf.{IsCoherent, Inv, HasRoom, lookup_child-find}
use agentfs.Fs.Wf.Delete.{delete-IsWf}
use agentfs.Fs.Removed.Purge.{
  unlinked, kept, inode-purge, dentry-purge, last_ino-purge, file-IsLeft,
}

-- The writes of `unlink`.
abbrev pub after_unlink : {lru : Lru} → Now → ℕ → Str → ℕ → Fs lru → Fs lru
after_unlink {lru} now p n i s = record {
  db = purge i (
      update_inode i (λ r. set_ctime now (record r { nlink = dec r.nlink }))
        (update_inode p (set_mtime_ctime now) (delete_dentry p n s.db)));
  cache = lru.pop p n s.cache;
}

-- The outcome of `unlink`, by what the name stands for.
abbrev pub unlinks : {lru : Lru} → Now → ℕ → Str → Fs lru → Result (Unit {0}) × Fs lru
unlinks now p n s =
    if ltb max_name_len (length n) then (err name_too_long, s) else elim (find p n s.db.dentry) [
      | none ↦ (err not_found, s)
      | some i ↦
          if names_directory (s.db.inode i)
          then (err is_a_directory, s)
          else (ok tt, after_unlink now p n i s)
    ]

module _ {lru : Lru} (now : Now) (p : ℕ) (n : Str) (s : Fs lru) where
  -- `unlink` refuses a name that is too long, one that is not there and a directory, and changes
  -- nothing then; else it takes the entry away, and the row with it if no link is left. Names are
  -- unique.
  pub unlink-unlinks : IsUnique s.db.dentry → unlink now p n s ≡ unlinks now p n s
  unfolding unlink
  unlink-unlinks u = ground (arith, lookup_child-find p n s.db.dentry u)

  after_unlink-IsCoherent : (i : ℕ) → IsCoherent s → IsCoherent (after_unlink now p n i s)
  after_unlink-IsCoherent i c q m j h =
      let popped = lru.peek-pop p n q m s.cache in
      let found = find-remove p n s.db.dentry q m in
      let t =
        update_inode i (λ r. set_ctime now (record r { nlink = dec r.nlink }))
          (update_inode p (set_mtime_ctime now) (delete_dentry p n s.db)) in
      let e : (purge i t).dentry ≡ remove p n s.db.dentry = ground arith in
      rw e (ground (arith, c q m j))

  module _ (v : Inv s) (room : HasRoom s.db) (i : ℕ) (found : find p n s.db.dentry ≡ some i) where
    after_unlink-Inv :
        (r : Inode)
        → s.db.inode i ≡ some r
        → is_directory r ≡ false
        → Inv (after_unlink now p n i s)
    after_unlink-Inv r row file =
        let (rp, at, dir) = v.wf.parent p n i found in
        let ne : p ≢ i =
          λ e. let same : some rp ≡ some r = sym at ∙ (ap s.db.inode e ∙ row) in ground arith in
        let t =
          update_inode i (unlinked now)
            (update_inode p (set_mtime_ctime now) (delete_dentry p n s.db)) in
        let row' : t.inode i ≡ some (unlinked now r) = ground arith in
        record {
          wf =
              delete-IsWf s.db (purge i t) p n i rp (set_mtime_ctime now rp) r
                (kept (unlinked now r)) v.wf found at dir dir row ne
                (file-IsLeft s.db p n i r v.wf room found row now file) (last_ino-purge i t)
                (λ j. inode-purge i (unlinked now r) t j row' ∙ ground arith) (dentry-purge i t);
          coherent = after_unlink-IsCoherent i v.coherent;
        }

  -- `unlink` keeps the invariant, whether it succeeds or not, while there are fewer than 2 ^ 32
  -- entries.
  pub unlink-Inv : Inv s → HasRoom s.db → Inv (unlink now p n s).1
  unlink-Inv v room =
      rw (unlink-unlinks v.wf.unique) (elim (Bool-cases (ltb max_name_len (length n))) [
        | inl long ↦ rw long v
        | inr short ↦ rw short (elim (Option-cases (find p n s.db.dentry)) [
          | inl free ↦ rw free v
          | inr (i, found) ↦
              let (r, row) = v.wf.child p n i found in
              rw (found, row)
                (elim (Bool-cases (is_directory r)) [
                  | inl dir ↦ rw dir v
                  | inr file ↦ rw file (after_unlink-Inv v room i found r row file)
                ])
        ])
      ])
