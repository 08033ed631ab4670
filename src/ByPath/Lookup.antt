-- ===== src/ByPath/Lookup.antt =====
-- What `lstat` and `readlink` find at a path where `mkdir`, `mknod` or `symlink` made something.
use agentfs.Base.{
  ℕ, ◌+◌, ◌≡◌, refl, ◌∙◌, ap, true, false, none, some, arith, Str, List, bit_or, ◌==◌,
}
use agentfs.Db.{Db, Inode, Now, inc, set_mtime_ctime}
use agentfs.Db.Dentries.{find, append, find-append, key_eq_iff}
use agentfs.Fs.Attr
use agentfs.Fs.Cache.{Lru}
use agentfs.Fs.Created.{after_create}
use agentfs.Fs.Created.Invariant.{parent_is_old}
use agentfs.Fs.Resolve.{walk, resolve_path, resolve_path-walk}
use agentfs.Fs.Wf.Insert.{entry}
use agentfs.Fs.Wf.{Inv, IsDirAt}
use agentfs.Fs.{Fs, ok, root_ino, stats_of, is_symlink, insert_symlink}
use agentfs.Path.{slash, is_empty, starts_with, pop, normalize_path, split_path}
use agentfs.ByPath.{lstat, readlink, name_of, parent_text}
use agentfs.ByPath.Parent.{
  split_path-IsClean, split_path-parent_text, pop-name_of, walk-snoc, walk-append,
}
use agentfs.ByPath.Kept.{parent_walk, resolved, at_parent-there, mkdir_at-Inv, symlink_at-Inv}
use agentfs.ByPath.Make.{mkdir, symlink, mkdir_at, symlink_at}
use agentfs.ByPath.Made.{
  directory_row, symlink_row, mkdir_at-makes, symlink_at-makes, unchanged, makes,
}
use agentfs.Db.Mode.{file_type, s_iflnk}

module _ {lru : Lru} (path : Str) (s t : Fs lru) (absolute : starts_with slash path ≡ true)
    (below : is_empty (split_path (normalize_path path)) ≡ false) (p : ℕ)
    (there : parent_walk path s ≡ some p)
    (free : find p (name_of (split_path (normalize_path path))) s.db.dentry ≡ none) (w : Inv t)
    (i : ℕ)
    (dentry : t.db.dentry
      ≡ append (entry p (name_of (split_path (normalize_path path))) i) s.db.dentry) where
  abbrev parts : List Str
  parts = split_path (normalize_path path)

  walk-made : walk parts root_ino t.db.dentry ≡ some i
  walk-made =
      let c = split_path-IsClean path absolute in
      let n = name_of parts in
      let h = rw (split_path-parent_text parts c below) at there in
      let k = walk-append (pop parts) root_ino p p i n s.db.dentry free h in
      let after = append (entry p n i) s.db.dentry in
      let found : find p n after ≡ some i = ground (
        arith,
        find-append p n (entry p n i) s.db.dentry free p n,
        (key_eq_iff p n p n).1 (refl, refl),
      ) in
      rw dentry (
        ap (λ l. walk l root_ino after) (pop-name_of parts below)
        ∙ (walk-snoc (pop parts) n root_ino p after k ∙ found))

  resolve_path-made :
      ((resolve_path (normalize_path path) t).0 ≡ ok (some i))
      × ((resolve_path (normalize_path path) t).1.db ≡ t.db)
  resolve_path-made =
      let (walked, same, _) = resolve_path-walk (normalize_path path) t w in
      (walked ∙ ap ok walk-made, same)

module _ {lru : Lru} (path : Str) (r : Fs lru) (v : Inv r)
    (absolute : starts_with slash path ≡ true)
    (below : is_empty (split_path (normalize_path path)) ≡ false) (p : ℕ)
    (there : parent_walk path r ≡ some p) (dir : IsDirAt p r.db)
    (free : find p (name_of (split_path (normalize_path path))) r.db.dentry ≡ none) where
  abbrev last_name : Str
  last_name = name_of (split_path (normalize_path path))

  lstat-after_create :
      (row : Inode) (g : Inode → Inode)
      → Inv (after_create p last_name row g r)
      → (lstat path (after_create p last_name row g r)).0
        ≡ ok (some (stats_of (r.db.last_ino + 1) row))
  unfolding lstat
  lstat-after_create row g w =
      let t = after_create p last_name row g r in
      let (found, same) =
        resolve_path-made path r t absolute below p there free w (r.db.last_ino + 1) refl in
      let old = parent_is_old p last_name r v dir in rw (found, same) (ground arith)

  readlink_row :
      (u : Fs lru) (i : ℕ) (row : Inode) (target : Str)
      → u.db.inode i ≡ some row
      → is_symlink row ≡ true
      → u.db.symlink i ≡ some target
      → (Attr.readlink i u).0 ≡ ok (some target)
  unfolding Attr.readlink
  readlink_row u i row target h link k = rw (h, Attr.readlink, link, k) refl

  readlink-after_symlink :
      (row : Inode) (g : Inode → Inode) (target : Str)
      → is_symlink row ≡ true
      → let t = after_create p last_name row g r in
        let t' = record t { db = insert_symlink (r.db.last_ino + 1) target t.db } in
        Inv t' → (readlink path t').0 ≡ ok (some target)
  unfolding readlink
  readlink-after_symlink row g target link w =
      let t = after_create p last_name row g r in
      let t' = record t { db = insert_symlink (r.db.last_ino + 1) target t.db } in
      let (found, same) =
        resolve_path-made path r t' absolute below p there free w (r.db.last_ino + 1) refl in
      let old = parent_is_old p last_name r v dir in
      let u = (resolve_path (normalize_path path) t').1 in
      let ino = r.db.last_ino + 1 in
      let new : t'.db.inode ino ≡ some row = ground arith in
      let to : t'.db.symlink ino ≡ some target = ground arith in
      rw found (readlink_row u ino row target (rw same new) link (rw same to))

makes_free :
    {lru : Lru} {A : Type 0} (p : ℕ) (n : Str) (s : Fs lru) (done : A × Fs lru)
    → find p n s.db.dentry ≡ none
    → makes p n s done ≡ (ok done.0, done.1)
makes_free p n s done h = ground arith

-- The mode of a new symbolic link is that of one.
is_symlink_default : (file_type (bit_or s_iflnk 0o777) == s_iflnk) ≡ true
unfolding file_type
is_symlink_default = refl

module _ {lru : Lru} (now : Now) (path : Str) (uid gid : ℕ) (s : Fs lru) (v : Inv s)
    (absolute : starts_with slash path ≡ true)
    (below : is_empty (split_path (normalize_path path)) ≡ false) (p : ℕ)
    (there : parent_walk path s ≡ some p) (dir : IsDirAt p s.db)
    (free : find p (name_of (split_path (normalize_path path))) s.db.dentry ≡ none) where
  -- If the names before the last of a path that starts with '/' lead to a directory and the last
  -- name is free there, `mkdir` by path succeeds, and `lstat` of the path gives the attributes of the
  -- new directory.
  pub lstat-mkdir :
      ((mkdir now path uid gid s).0 ≡ ok tt)
      × ((lstat path (mkdir now path uid gid s).1).0
          ≡ ok (some (stats_of (s.db.last_ino + 1) (directory_row now uid gid))))
  unfolding mkdir
  lstat-mkdir =
      let n = name_of (split_path (normalize_path path)) in
      let r = resolved (λ p n. mkdir_at now p n uid gid) path s v in
      let (_, same, v') = resolve_path-walk (parent_text (split_path (normalize_path path))) s v in
      let at = at_parent-there (λ p n. mkdir_at now p n uid gid) path s v p below there in
      let free' : find p n r.db.dentry ≡ none = rw same free in
      let row = directory_row now uid gid in
      let g = λ (r : Inode). set_mtime_ctime now (record r { nlink = inc r.nlink }) in
      let e : mkdir_at now p n uid gid r ≡ (ok tt, after_create p n row g r) =
        mkdir_at-makes now p n r v'.wf.unique uid gid
        ∙ makes_free p n r (tt, after_create p n row g r) free' in
      let w = rw e at (mkdir_at-Inv p n r v' (rw same dir) now uid gid) in
      rw (at ∙ e) (
        refl,
        lstat-after_create path r v' absolute below p (rw same there) (rw same dir) free' row g w
            ∙ ap (λ (d : Db). ok (some (stats_of (d.last_ino + 1) row))) same,
      )

  -- If the names before the last of a path that starts with '/' lead to a directory and the last
  -- name is free there, `symlink` by path succeeds, and `readlink` of the path gives the target.
  pub readlink-symlink :
      (target : Str)
      → ((symlink now target path uid gid s).0 ≡ ok tt)
        × ((readlink path (symlink now target path uid gid s).1).0 ≡ ok (some target))
  unfolding symlink
  readlink-symlink target =
      let n = name_of (split_path (normalize_path path)) in
      let f = λ (p : ℕ) (n : Str). symlink_at now p n target uid gid in
      let r = resolved f path s v in
      let (_, same, v') = resolve_path-walk (parent_text (split_path (normalize_path path))) s v in
      let at = at_parent-there f path s v p below there in
      let free' : find p n r.db.dentry ≡ none = rw same free in
      let row = symlink_row now target uid gid in
      let t = after_create p n row unchanged r in
      let t' = record t { db = insert_symlink (r.db.last_ino + 1) target t.db } in
      let e : symlink_at now p n target uid gid r ≡ (ok tt, t') =
        symlink_at-makes now p n r v'.wf.unique target uid gid ∙ makes_free p n r (tt, t') free' in
      let w = rw e at (symlink_at-Inv p n r v' (rw same dir) now target uid gid) in
      rw (at ∙ e) (
        refl,
        readlink-after_symlink path r v' absolute below p (rw same there) (rw same dir) free' row
            unchanged target is_symlink_default w,
      )
