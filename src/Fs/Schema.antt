-- ===== src/Fs/Schema.antt =====
-- `initialize_schema` of sdk/rust/src/filesystem/agentfs.rs: what it does to the rows.
use agentfs.Base.{ℕ, ◌≡◌, refl, max, none, some, [], arith, bit_or}
use agentfs.Db.{Db, Inode, Now, insert}
use agentfs.Db.Dentries.{find, links, select}
use agentfs.Db.Mode.{s_ifdir, file_type}
use agentfs.Fs.{root_ino, update_inode}
use agentfs.Fs.Wf.{IsWf, IsDirAt}
use agentfs.Fs.Wf.Same.{same-IsWf, update_inode-AreSameKind}

-- `DEFAULT_DIR_MODE`
abbrev pub default_dir_mode : ℕ
default_dir_mode = bit_or s_ifdir 0o755

-- The tables of a new database file.
abbrev pub no_rows : Db
no_rows = record {
  last_ino = 0;
  inode = λ _. none;
  dentry = [];
  chunk = λ _ _. none;
  symlink = λ _. none;
}

abbrev pub root_inode : Now → ℕ → ℕ → Inode
root_inode now uid gid = record {
  mode = default_dir_mode;
  nlink = 2;
  uid = uid;
  gid = gid;
  size = 0;
  atime = now.secs;
  mtime = now.secs;
  ctime = now.secs;
  rdev = 0;
  atime_nsec = now.nsec;
  mtime_nsec = now.nsec;
  ctime_nsec = now.nsec;
}

-- The root is inserted if it is missing, and belongs to the current user in any case. A key that is
-- given counts for AUTOINCREMENT.
unfoldable pub initialize_schema : Now → ℕ → ℕ → Db → Db
initialize_schema now uid gid db = elim (db.inode root_ino) [
  | none ↦ record db {
    inode = insert root_ino (root_inode now uid gid) db.inode;
    last_ino = max db.last_ino root_ino;
  }
  | some r ↦ update_inode root_ino (λ r. record r { uid = uid; gid = gid }) db
]

-- In a new database the invariant of the tables holds, and the root is a directory.
pub initialize_schema-new :
    (now : Now) (uid gid : ℕ)
    → IsWf (initialize_schema now uid gid no_rows)
      × IsDirAt root_ino (initialize_schema now uid gid no_rows)
unfolding initialize_schema find links select file_type
initialize_schema-new now uid gid = (
  record {
    unique = λ p n. ground arith;
    child = λ p n i h. ground arith;
    parent = λ p n i h. ground arith;
    counted = λ i r h nd. ground arith;
    single = λ i r h d. ground arith;
    fresh_inode = λ i h. ground arith;
    fresh_links = λ i h. ground arith;
  },
  (root_inode now uid gid, refl, refl),
)

initialize_schema-old :
    (now : Now) (uid gid : ℕ) (db : Db) (r : Inode)
    → db.inode root_ino ≡ some r
    → initialize_schema now uid gid db
      ≡ update_inode root_ino (λ r. record r { uid = uid; gid = gid }) db
unfolding initialize_schema
initialize_schema-old now uid gid db r row = ground arith

-- Opening a database again whose root is a directory keeps the invariant of the tables.
pub initialize_schema-IsWf :
    (now : Now) (uid gid : ℕ) (db : Db)
    → IsWf db
    → IsDirAt root_ino db
    → IsWf (initialize_schema now uid gid db)
initialize_schema-IsWf now uid gid db w (r, row, dir) =
    let g = λ (r : Inode). record r { uid = uid; gid = gid } in
    rw (initialize_schema-old now uid gid db r row) (
      same-IsWf db (update_inode root_ino g db) w refl refl
        (update_inode-AreSameKind root_ino g db (λ r _. (refl, λ file. refl))))
