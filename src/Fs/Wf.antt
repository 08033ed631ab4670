-- ===== src/Fs/Wf.antt =====
-- What holds of the tables and of the dentry cache between operations.
pub mod Insert
pub mod Delete
pub mod Move
pub mod Same
pub mod Link
use agentfs.Base.{
  ℕ, zero, suc, ◌+◌, ◌%◌, ◌≤◌, ◌<◌, ◌≡◌, refl, ap, Bool, true, false, Option, none, some, List, [],
  ◌∷◌, arith, length, ltb, if◌then◌else◌, Str, Bool-cases, inl, inr,
}
use agentfs.Db.{Db, Inode, i64_mod}
use agentfs.Db.Dentries.{Dentry, find, select, links, IsUnique, key_eq, key_eq_iff}
use agentfs.Fs.Cache.{Lru}
use agentfs.Fs.{Fs, ok, err, invalid_path, lookup_child, last, is_directory, u32_mod}

-- A name stands once in a directory; an entry names an inode, and its parent is a directory; the
-- link count of what is no directory is the number of its entries, and a directory has at most one;
-- nothing is stored under an inode number that was not given out yet.
pub record IsWf (db : Db) : Type 0 where
  pub unique : IsUnique db.dentry
  pub child :
      (p : ℕ) (n : Str) (i : ℕ) → find p n db.dentry ≡ some i → (r : Inode) × (db.inode i ≡ some r)
  pub parent :
      (p : ℕ) (n : Str) (i : ℕ)
      → find p n db.dentry ≡ some i
      → (r : Inode) × (db.inode p ≡ some r) × (is_directory r ≡ true)
  pub counted :
      (i : ℕ) (r : Inode)
      → db.inode i ≡ some r
      → is_directory r ≡ false
      → r.nlink ≡ links i db.dentry % i64_mod
  pub single :
      (i : ℕ) (r : Inode) → db.inode i ≡ some r → is_directory r ≡ true → links i db.dentry ≤ 1
  pub fresh_inode : (i : ℕ) → db.last_ino < i → db.inode i ≡ none
  pub fresh_links : (i : ℕ) → db.last_ino < i → links i db.dentry ≡ 0

-- What the cache holds is so in the table.
abbrev pub IsCoherent : {lru : Lru} → Fs lru → Type 0
IsCoherent {lru} s =
    (p : ℕ) (n : Str) (i : ℕ) → lru.peek p n s.cache ≡ some i → find p n s.db.dentry ≡ some i

last-select :
    (p : ℕ) (n : Str) (t : List Dentry)
    → length (select p n t) ≤ 1
    → last (select p n t) ≡ find p n t
unfolding select find
last-select p n [] h = refl
last-select p n (d ∷ t) h = ground (arith, last-select p n t, empty (select p n t))
  where
    empty : (l : List ℕ) → length l ≤ 0 → l ≡ []
    empty [] h = refl
    empty (x ∷ l) h = absurd (omega arith)

-- With unique names the lookup of a child gives its entry, or none.
pub lookup_child-find :
    (p : ℕ) (n : Str) (t : List Dentry) → IsUnique t → lookup_child p n t ≡ ok (find p n t)
unfolding lookup_child
lookup_child-find p n t u = ground (arith, u p n, last-select p n t (u p n))

-- The invariant of the file system.
pub record Inv {lru : Lru} (s : Fs lru) : Type 0 where
  pub wf : IsWf s.db
  pub coherent : IsCoherent s

-- The cache may learn what is so.
module _ {lru : Lru} where
  pub remember-Inv :
      (s : Fs lru) (p : ℕ) (n : Str) (i : ℕ)
      → Inv s
      → find p n s.db.dentry ≡ some i
      → Inv (record s { cache = lru.put p n i s.cache })
  remember-Inv s p n i v found = record {
    wf = v.wf;
    coherent = λ q m w h.
        let put = lru.peek-put p n i q m w s.cache h in
        elim (Bool-cases (key_eq p n q m)) [
          | inl here ↦
              let (e, e') = (key_eq_iff p n q m).0 here in
              let value : some i ≡ some w = rw here at put in cc (e, e', value, found)
          | inr other ↦ v.coherent q m w (rw other at put)
        ];
  }

-- The inode is a directory.
abbrev pub IsDirAt : ℕ → Db → Type 0
IsDirAt p db = (r : Inode) × (db.inode p ≡ some r) × (is_directory r ≡ true)

-- There are fewer than 2 ^ 32 entries, so that no number of links reads as zero in 32 bits.
abbrev pub HasRoom : Db → Type 0
HasRoom db = length db.dentry < u32_mod
