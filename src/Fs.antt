-- ===== src/Fs.antt =====
-- The state of `AgentFS` in sdk/rust/src/filesystem/agentfs.rs and the form of its methods: an action
-- takes the database and the dentry cache, and gives its result with both as it leaves them, also
-- where it fails. The operations and their proofs are in the modules below.
pub mod Cache
pub mod Create
pub mod Remove
pub mod Rename
pub mod Created
pub mod Removed
pub mod Renamed
pub mod Attr
pub mod Listing
pub mod Changed
pub mod Linked
pub mod Schema
pub mod Reach
pub mod Found
pub mod Resolve
pub mod Wf
use agentfs.Base.{
  ℕ, ◌+◌, ◌%◌, ◌^◌, Bool, true, false, Option, none, some, List, [], ◌∷◌, ◌++◌, length, ltb, ◌==◌,
  if◌then◌else◌, Str, not,
}
use agentfs.Db.{Db, Inode, Now, insert, update, delete}
use agentfs.Db.Dentries.{Dentry, select, append, remove, move, count_children}
use agentfs.Db.Mode.{file_type, s_ifdir, s_iflnk}
use agentfs.Fs.Cache.{Lru}

pub data FsError : Type 0 where
  not_found already_exists not_empty not_a_directory is_a_directory not_a_symlink : FsError
  invalid_path root_operation symlink_loop invalid_rename name_too_long : FsError

pub data Result {ℓ} (A : Type ℓ) : Type ℓ where
  ok : A → Result A
  err : FsError → Result A

abbrev pub root_ino : ℕ
root_ino = 1

abbrev pub max_name_len : ℕ
max_name_len = 255

abbrev pub u32_mod : ℕ
u32_mod = 2 ^ 32

pub record Stats : Type 0 where
  pub ino : ℕ
  pub mode : ℕ
  pub nlink : ℕ
  pub uid : ℕ
  pub gid : ℕ
  pub size : ℕ
  pub atime : ℕ
  pub mtime : ℕ
  pub ctime : ℕ
  pub atime_nsec : ℕ
  pub mtime_nsec : ℕ
  pub ctime_nsec : ℕ
  pub rdev : ℕ

-- `build_stats_from_row`, with its casts to `u32`
abbrev pub stats_of : ℕ → Inode → Stats
stats_of ino r = record {
  ino = ino;
  mode = r.mode % u32_mod;
  nlink = r.nlink % u32_mod;
  uid = r.uid % u32_mod;
  gid = r.gid % u32_mod;
  size = r.size;
  atime = r.atime;
  mtime = r.mtime;
  ctime = r.ctime;
  atime_nsec = r.atime_nsec % u32_mod;
  mtime_nsec = r.mtime_nsec % u32_mod;
  ctime_nsec = r.ctime_nsec % u32_mod;
  rdev = r.rdev;
}

-- `(mode & S_IFMT) == S_IFDIR`
abbrev pub is_directory : Inode → Bool
is_directory r = file_type r.mode == s_ifdir

abbrev pub is_symlink : Inode → Bool
is_symlink r = file_type r.mode == s_iflnk

-- The last row of a query.
abbrev pub last {ℓ} : {A : Type ℓ} → List A → Option A
last [] = none
last (x ∷ []) = some x
last (x ∷ y ∷ xs) = last (y ∷ xs)

-- `lookup_child`: more than one row for a name is an error.
unfoldable pub lookup_child : ℕ → Str → List Dentry → Result (Option ℕ)
lookup_child p n t =
    let found = select p n t in if ltb 1 (length found) then err invalid_path else ok (last found)

module _ (lru : Lru) where
  pub record Fs : Type 0 where
    pub db : Db
    pub cache : Lru.Cache lru

abbrev pub Exec {ℓ} : Lru → Type ℓ → Type ℓ
Exec lru A = Fs lru → Result A × Fs lru

abbrev pub is_some {ℓ} : {A : Type ℓ} → Option A → Bool
is_some none = false
is_some (some a) = true

module _ {lru : Lru} where
  infixl 5 ◌>>=◌ ◌>>◌
  -- `?` leaves with the error and keeps what was written before.
  abbrev pub continue {ℓ κ} :
      {A : Type ℓ} {B : Type κ} → (A → Exec lru B) → Result A → Fs lru → Result B × Fs lru
  continue f (ok a) s = f a s
  continue f (err e) s = (err e, s)

  abbrev pub ◌>>=◌ {ℓ κ} : {A : Type ℓ} {B : Type κ} → Exec lru A → (A → Exec lru B) → Exec lru B
  ◌>>=◌ m f s = continue f (m s).0 (m s).1

  abbrev pub ◌>>◌ {ℓ κ} : {A : Type ℓ} {B : Type κ} → Exec lru A → Exec lru B → Exec lru B
  m >> k = m >>= λ _. k

  abbrev pub pure {ℓ} : {A : Type ℓ} → A → Exec lru A
  pure a s = (ok a, s)

  -- `if b { return Err(e) }`
  abbrev pub refuse : Bool → FsError → Exec lru (Unit {0})
  refuse b e s = (if b then err e else ok tt, s)

  -- `ok_or(e)?`
  abbrev pub required {ℓ} : {A : Type ℓ} → FsError → Option A → Exec lru A
  required e none s = (err e, s)
  required e (some a) s = (ok a, s)

  -- A statement that only reads, and one that may fail.
  abbrev pub query {ℓ} : {A : Type ℓ} → (Db → A) → Exec lru A
  query f s = (ok (f s.db), s)

  abbrev pub try_query {ℓ} : {A : Type ℓ} → (Db → Result A) → Exec lru A
  try_query f s = (f s.db, s)

  -- A statement that writes.
  abbrev pub execute : (Db → Db) → Exec lru (Unit {0})
  execute f s = (ok tt, record s { db = f s.db })

  -- `dentry_cache.insert` and `dentry_cache.remove`
  abbrev pub remember : ℕ → Str → ℕ → Exec lru (Unit {0})
  remember p n i s = (ok tt, record s { cache = lru.put p n i s.cache })

  abbrev pub forget : ℕ → Str → Exec lru (Unit {0})
  forget p n s = (ok tt, record s { cache = lru.pop p n s.cache })

-- The statements of several operations.
abbrev pub update_inode : ℕ → (Inode → Inode) → Db → Db
update_inode i g db = record db { inode = update i g db.inode }

abbrev pub delete_inode : ℕ → Db → Db
delete_inode i db = record db { inode = delete i db.inode }

-- INSERT INTO fs_inode, with the next AUTOINCREMENT key
abbrev pub insert_inode : Inode → Db → Db
insert_inode r db = record db {
  last_ino = db.last_ino + 1;
  inode = insert (db.last_ino + 1) r db.inode;
}

abbrev pub insert_dentry : Str → ℕ → ℕ → Db → Db
insert_dentry n p i db = record db {
  dentry = append (record { name = n; parent_ino = p; ino = i }) db.dentry;
}

abbrev pub delete_dentry : ℕ → Str → Db → Db
delete_dentry p n db = record db { dentry = remove p n db.dentry }

abbrev pub insert_symlink : ℕ → Str → Db → Db
insert_symlink i t db = record db { symlink = insert i t db.symlink }

abbrev pub delete_symlink : ℕ → Db → Db
delete_symlink i db = record db { symlink = delete i db.symlink }

-- DELETE FROM fs_data WHERE ino = ?
abbrev pub delete_chunks : ℕ → Db → Db
delete_chunks i db = record db { chunk = λ j c. if i == j then none else db.chunk j c }

-- `get_link_count`: 0 for a missing inode, and the low 32 bits of the column
abbrev pub get_link_count : ℕ → Db → ℕ
get_link_count i db = elim (db.inode i) [ none ↦ 0 | some r ↦ r.nlink % u32_mod ]
