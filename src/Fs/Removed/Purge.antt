-- ===== src/Fs/Removed/Purge.antt =====
-- An inode whose link was taken away: its row goes with the last link, as `unlink` and `rename` do it.
use agentfs.Base.{
  ℕ, ◌%◌, ◌≡◌, refl, false, Option, none, some, arith, ◌==◌, if◌then◌else◌, Str, Bool-cases,
  Option-cases, inl, inr,
}
use agentfs.Db.{Db, Inode, Now, i64_mod, dec, set_ctime}
use agentfs.Db.Dentries.{find, remove, links, links-remove, links-le-length}
use agentfs.Fs.{is_directory, u32_mod}
use agentfs.Fs.Remove.{purge}
use agentfs.Fs.Wf.{IsWf, HasRoom}
use agentfs.Fs.Wf.Delete.{IsLeft}

-- The row with one link less, and what stays of it.
abbrev pub unlinked : Now → Inode → Inode
unlinked now r = set_ctime now (record r { nlink = dec r.nlink })

abbrev pub kept : Inode → Option Inode
kept r = if r.nlink % u32_mod == 0 then none else some r

-- `purge` changes the row of its inode only.
pub inode-purge :
    (i : ℕ) (r : Inode) (db : Db) (j : ℕ)
    → db.inode i ≡ some r
    → (purge i db).inode j ≡ (if i == j then kept r else db.inode j)
inode-purge i r db j h = ground arith

pub dentry-purge : (i : ℕ) (db : Db) → (purge i db).dentry ≡ db.dentry
dentry-purge i db = ground arith

pub last_ino-purge : (i : ℕ) (db : Db) → (purge i db).last_ino ≡ db.last_ino
last_ino-purge i db = ground arith

module _ (db : Db) (p : ℕ) (n : Str) (i : ℕ) (r : Inode) (w : IsWf db) (room : HasRoom db)
    (found : find p n db.dentry ≡ some i) (row : db.inode i ≡ some r) where
  -- The count of 32 bits is the number of entries that are left.
  pub last_link :
      is_directory r ≡ false
      → (dec r.nlink ≡ links i (remove p n db.dentry) % i64_mod)
        × (dec r.nlink % u32_mod ≡ links i (remove p n db.dentry))
  last_link file =
      let l = rw found at (links-remove i p n db.dentry w.unique) in
      let c = w.counted i r row file in let b = links-le-length i db.dentry in ground arith

  -- What is no directory has no entries in it.
  pub no_children : is_directory r ≡ false → (m : Str) → find i m db.dentry ≡ none
  no_children file m = elim (Option-cases (find i m db.dentry)) [
    | inl e ↦ e
    | inr (j, e) ↦ let (r', at, dir) = w.parent i m j e in absurd (ground arith)
  ]

  -- A file keeps its row exactly as long as it has an entry.
  pub file-IsLeft : (now : Now) → is_directory r ≡ false → IsLeft db p n i r (kept (unlinked now r))
  file-IsLeft now file =
      let (count, last) = last_link file in
      elim (Bool-cases (dec r.nlink % u32_mod == 0)) [
        | inl gone ↦ rw gone (ground arith, no_children file)
        | inr more ↦ rw more (refl, λ _. count)
      ]
