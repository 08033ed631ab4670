-- ===== src/Db.antt =====
-- The tables of sdk/rust/src/filesystem/agentfs.rs (`initialize_schema`). A table with a primary key
-- is the partial function from its key to its row; `fs_dentry`, whose rows are counted, is the list
-- of its rows. A 64-bit integer of the database is its two's complement pattern.
pub mod Dentries
pub mod Mode
use agentfs.Base.{
  ℕ, ◌+◌, ◌-◌, ◌%◌, ◌^◌, Option, none, some, List, [], if◌then◌else◌, ◌==◌, Str, Blob,
}
use agentfs.Db.Dentries.{Dentry}

-- A row of `fs_inode` but for its key.
pub record Inode : Type 0 where
  pub mode : ℕ
  pub nlink : ℕ
  pub uid : ℕ
  pub gid : ℕ
  pub size : ℕ
  pub atime : ℕ
  pub mtime : ℕ
  pub ctime : ℕ
  pub rdev : ℕ
  pub atime_nsec : ℕ
  pub mtime_nsec : ℕ
  pub ctime_nsec : ℕ

-- `last_ino` is the AUTOINCREMENT counter of `fs_inode`.
pub record Db : Type 0 where
  pub last_ino : ℕ
  pub inode : ℕ → Option Inode
  pub dentry : List Dentry
  pub chunk : ℕ → ℕ → Option Blob
  pub symlink : ℕ → Option Str

-- UPDATE … WHERE ino = k, DELETE … WHERE ino = k and INSERT of a row with key k.
module _ {ℓ} {A : Type ℓ} where
  abbrev pub update : ℕ → (A → A) → (ℕ → Option A) → ℕ → Option A
  update k g t j = if k == j then elim (t j) [ none ↦ none | some a ↦ some (g a) ] else t j

  abbrev pub delete : ℕ → (ℕ → Option A) → ℕ → Option A
  delete k t j = if k == j then none else t j

  abbrev pub insert : ℕ → A → (ℕ → Option A) → ℕ → Option A
  insert k a t j = if k == j then some a else t j

-- A reading of `SystemTime::now()` as seconds and nanoseconds since the epoch.
pub record Now : Type 0 where
  pub secs : ℕ
  pub nsec : ℕ

abbrev pub i64_mod : ℕ
i64_mod = 2 ^ 64

-- `nlink + 1` and `nlink - 1` on a 64-bit column
abbrev pub inc : ℕ → ℕ
inc n = (n + 1) % i64_mod

abbrev pub dec : ℕ → ℕ
dec n = (n + i64_mod - 1) % i64_mod

abbrev pub set_ctime : Now → Inode → Inode
set_ctime now r = record r { ctime = now.secs; ctime_nsec = now.nsec }

abbrev pub set_mtime_ctime : Now → Inode → Inode
set_mtime_ctime now r = record r {
  mtime = now.secs;
  ctime = now.secs;
  mtime_nsec = now.nsec;
  ctime_nsec = now.nsec;
}
