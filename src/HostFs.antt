-- ===== src/HostFs.antt =====
-- `HostFS` of sdk/rust/src/filesystem/hostfs_linux.rs: the inode numbers that it gives to the files of
-- a host directory, with the descriptor and the number of lookups of each. What a system call returns
-- is an argument of the operation that makes it.
pub mod Inodes
pub mod Runs
pub mod Counts
use agentfs.Base.{
  ℕ, ◌+◌, ◌-◌, ◌%◌, ◌^◌, Bool, true, false, ◌&&◌, ◌||◌, Option, none, some, List, [], ◌∷◌, leb, ltb,
  ◌==◌, if◌then◌else◌, Str,
}
use agentfs.Fs.{FsError, Stats, not_found, already_exists, invalid_path}
use agentfs.Fs.Listing.{DirEntry, name_le}

-- The result of a system call, or of an operation: the file system's error, or that of the system.
pub data HostResult (A : Type 0) : Type 0 where
  ok : A → HostResult A
  fs_error : FsError → HostResult A
  os_error : ℕ → HostResult A

pub data Answer (A : Type 0) : Type 0 where
  done : A → Answer A
  failed : ℕ → Answer A

-- `libc::ENOENT` and `libc::EEXIST`
abbrev pub enoent : ℕ
enoent = 2

abbrev pub eexist : ℕ
eexist = 17

abbrev pub u64_range : ℕ
u64_range = 2 ^ 64

-- `libc::stat`: the device, and the other columns as `stat_to_stats` takes them.
pub record HostStat : Type 0 where
  pub st_dev : ℕ
  pub columns : Stats

pub record SrcId : Type 0 where
  pub ino : ℕ
  pub dev : ℕ

abbrev pub same_src : SrcId → SrcId → Bool
same_src a b = (a.ino == b.ino) && (a.dev == b.dev)

abbrev pub src_id : HostStat → SrcId
src_id stat = record { ino = stat.columns.ino; dev = stat.st_dev }

pub record HostInode : Type 0 where
  pub fd : ℕ
  pub src : SrcId
  pub nlookup : ℕ

pub record HostFs : Type 0 where
  pub inodes : ℕ → Option HostInode
  pub src_to_ino : SrcId → Option ℕ
  pub next_ino : ℕ
  pub fuse_mountpoint_inode : Option ℕ

abbrev pub root_ino : ℕ
root_ino = 1

-- `HashMap::insert` and `HashMap::remove`
abbrev pub put_inode : ℕ → HostInode → (ℕ → Option HostInode) → ℕ → Option HostInode
put_inode i n m j = if i == j then some n else m j

abbrev pub drop_inode : ℕ → (ℕ → Option HostInode) → ℕ → Option HostInode
drop_inode i m j = if i == j then none else m j

abbrev pub put_src : SrcId → ℕ → (SrcId → Option ℕ) → SrcId → Option ℕ
put_src k i m j = if same_src k j then some i else m j

abbrev pub drop_src : SrcId → (SrcId → Option ℕ) → SrcId → Option ℕ
drop_src k m j = if same_src k j then none else m j

-- `HostFS::new`, after the root was opened
unfoldable pub new : ℕ → HostStat → HostFs
new fd stat = record {
  inodes = put_inode root_ino (record { fd = fd; src = src_id stat; nlookup = 1 }) (λ j. none);
  src_to_ino = put_src (src_id stat) root_ino (λ k. none);
  next_ino = 2;
  fuse_mountpoint_inode = none;
}

unfoldable pub with_fuse_mountpoint : ℕ → HostFs → HostFs
with_fuse_mountpoint inode h = record h { fuse_mountpoint_inode = some inode }

unfoldable pub get_inode_fd : ℕ → HostFs → HostResult ℕ
get_inode_fd ino h = elim (h.inodes ino) [ none ↦ fs_error not_found | some n ↦ ok n.fd ]

unfoldable pub alloc_ino : HostFs → ℕ × HostFs
alloc_ino h = (h.next_ino, record h { next_ino = (h.next_ino + 1) % u64_range })

-- A new number for a file that is not known.
unfoldable pub create_inode : ℕ → SrcId → HostFs → ℕ × HostFs
unfolding alloc_ino
create_inode fd src h =
    let ino = (alloc_ino h).0 in
    (
      ino,
      record (alloc_ino h).1 {
        inodes = put_inode ino (record { fd = fd; src = src; nlookup = 1 }) h.inodes;
        src_to_ino = put_src src ino h.src_to_ino;
      },
    )

-- `nlookup.fetch_add(1)`
abbrev pub count_lookup : ℕ → HostInode → HostFs → HostFs
count_lookup ino n h = record h {
  inodes = put_inode ino (record n { nlookup = (n.nlookup + 1) % u64_range }) h.inodes;
}

unfoldable pub get_or_create_inode : ℕ → HostStat → HostFs → ℕ × HostFs
get_or_create_inode fd stat h = elim (h.src_to_ino (src_id stat)) [
  | none ↦ create_inode fd (src_id stat) h
  | some ino ↦ elim (h.inodes ino) [
    | none ↦ create_inode fd (src_id stat) h
    | some n ↦ (ino, count_lookup ino n h)
  ]
]

unfoldable pub remove_inode : ℕ → HostFs → HostFs
remove_inode ino h = elim (h.inodes ino) [
  | none ↦ h
  | some n ↦ record h { inodes = drop_inode ino h.inodes; src_to_ino = drop_src n.src h.src_to_ino }
]

-- `forget`: `fetch_sub` wraps, and gives the old count.
unfoldable pub forget : ℕ → ℕ → HostFs → HostFs
forget ino nlookup h = if ino == root_ino then h else elim (h.inodes ino) [
  | none ↦ h
  | some n ↦
      let h' = record h {
        inodes =
            put_inode ino (record n { nlookup = (n.nlookup + u64_range - nlookup) % u64_range })
              h.inodes;
      } in
      if leb n.nlookup nlookup then remove_inode ino h' else h'
]

-- `CString::new` refuses a zero byte.
unfoldable pub has_zero : Str → Bool
has_zero [] = false
has_zero (x ∷ s) = (x == 0) || has_zero s

abbrev pub is_mountpoint : Option ℕ → ℕ → Bool
is_mountpoint none ino = false
is_mountpoint (some m) ino = ino == m

-- The attributes of a file, with the number that stands for it here.
abbrev pub give : ℕ → HostStat → HostFs → HostResult (Option Stats) × HostFs
give fd stat h =
    let given = get_or_create_inode fd stat h in
    (ok (some (record stat.columns { ino = given.0 })), given.1)

-- What follows on a child that was opened.
unfoldable pub lookup_opened : ℕ → Answer HostStat → HostFs → HostResult (Option Stats) × HostFs
lookup_opened fd (failed e) h = (os_error e, h)
lookup_opened fd (done stat) h =
    if is_mountpoint h.fuse_mountpoint_inode stat.columns.ino then (ok none, h) else give fd stat h

unfoldable pub lookup_child :
    Answer ℕ → Answer HostStat → HostFs → HostResult (Option Stats) × HostFs
lookup_child (failed e) stat h = (if e == enoent then ok none else os_error e, h)
lookup_child (done fd) stat h = lookup_opened fd stat h

-- `openat` of the child and `fstatat` of what it opened.
unfoldable pub lookup :
    ℕ → Str → Answer ℕ → Answer HostStat → HostFs → HostResult (Option Stats) × HostFs
lookup parent name opened stat h = elim (h.inodes parent) [
  | none ↦ (fs_error not_found, h)
  | some n ↦
      if is_mountpoint h.fuse_mountpoint_inode n.src.ino
      then (ok none, h)
      else if has_zero name
      then (fs_error invalid_path, h)
      else lookup_child opened stat h
]

unfoldable pub getattr : ℕ → Answer HostStat → HostFs → HostResult (Option Stats)
getattr ino (failed e) h = elim (h.inodes ino) [ none ↦ ok none | some n ↦ os_error e ]
getattr ino (done stat) h = elim (h.inodes ino) [
  | none ↦ ok none
  | some n ↦ ok (some (record stat.columns { ino = ino }))
]

-- `ok_or(NotFound)`
abbrev pub found : HostResult (Option Stats) × HostFs → HostResult Stats × HostFs
found (ok none, h) = (fs_error not_found, h)
found (ok (some s), h) = (ok s, h)
found (fs_error e, h) = (fs_error e, h)
found (os_error e, h) = (os_error e, h)

-- What follows on `mkdirat`, `mknodat` and `symlinkat`.
unfoldable pub lookup_made :
    ℕ → Str → Answer (Unit {0}) → Answer ℕ → Answer HostStat → HostFs → HostResult Stats × HostFs
lookup_made parent name (failed e) opened stat h =
    (if e == eexist then fs_error already_exists else os_error e, h)
lookup_made parent name (done a) opened stat h = found (lookup parent name opened stat h)

-- `mkdir` and `mknod`
unfoldable pub make :
    ℕ → Str → Answer (Unit {0}) → Answer ℕ → Answer HostStat → HostFs → HostResult Stats × HostFs
make parent name made opened stat h = elim (h.inodes parent) [
  | none ↦ (fs_error not_found, h)
  | some n ↦
      if has_zero name
      then (fs_error invalid_path, h)
      else lookup_made parent name made opened stat h
]

unfoldable pub symlink :
    ℕ
    → Str
    → Str
    → Answer (Unit {0})
    → Answer ℕ
    → Answer HostStat
    → HostFs
    → HostResult Stats × HostFs
symlink parent name target made opened stat h = elim (h.inodes parent) [
  | none ↦ (fs_error not_found, h)
  | some n ↦
      if has_zero name || has_zero target
      then (fs_error invalid_path, h)
      else lookup_made parent name made opened stat h
]

-- `create_file`: the file's own descriptor goes into the handle.
unfoldable pub give_created :
    ℕ → Answer ℕ → Answer HostStat → HostFs → HostResult (Stats × ℕ) × HostFs
give_created file (failed e) stat h = (os_error e, h)
give_created file (done fd) (failed e) h = (os_error e, h)
give_created file (done fd) (done stat) h =
    let given = get_or_create_inode fd stat h in
    (ok (record stat.columns { ino = given.0 }, file), given.1)

unfoldable pub created :
    Answer ℕ → Answer ℕ → Answer HostStat → HostFs → HostResult (Stats × ℕ) × HostFs
created (failed e) path stat h = (if e == eexist then fs_error already_exists else os_error e, h)
created (done file) path stat h = give_created file path stat h

unfoldable pub create_file :
    ℕ → Str → Answer ℕ → Answer ℕ → Answer HostStat → HostFs → HostResult (Stats × ℕ) × HostFs
create_file parent name file path stat h = elim (h.inodes parent) [
  | none ↦ (fs_error not_found, h)
  | some n ↦ if has_zero name then (fs_error invalid_path, h) else created file path stat h
]

-- An entry that `readdir` gave and `fstatat` knew, with what `openat` says of it.
pub record RawEntry : Type 0 where
  pub name : Str
  pub stat : HostStat
  pub opened : Answer ℕ

-- `sort_by` name, one entry after another
unfoldable pub place : DirEntry → List DirEntry → List DirEntry
place e [] = e ∷ []
place e (d ∷ ds) = let rest = place e ds in if name_le d.name e.name then d ∷ rest else e ∷ d ∷ ds

-- The two loops of `readdir_plus`, the second over what the first kept.
unfoldable pub not_mounted : Option ℕ → List RawEntry → List RawEntry
not_mounted m [] = []
not_mounted m (e ∷ es) =
    let rest = not_mounted m es in if is_mountpoint m e.stat.columns.ino then rest else e ∷ rest

unfoldable pub give_entries : List RawEntry → List DirEntry → HostFs → List DirEntry × HostFs
give_entries [] ds h = (ds, h)
give_entries (e ∷ es) ds h = elim e.opened [
  | failed x ↦ give_entries es ds h
  | done fd ↦
      let given = get_or_create_inode fd e.stat h in
      give_entries es
        (place (record { name = e.name; stats = record e.stat.columns { ino = given.0 } }) ds)
        given.1
]

unfoldable pub readdir_plus :
    ℕ → Answer (List RawEntry) → HostFs → HostResult (Option (List DirEntry)) × HostFs
readdir_plus ino (failed e) h = (elim (h.inodes ino) [ none ↦ ok none | some n ↦ os_error e ], h)
readdir_plus ino (done es) h = elim (h.inodes ino) [
  | none ↦ (ok none, h)
  | some n ↦
      let all = give_entries (not_mounted h.fuse_mountpoint_inode es) [] h in
      (ok (some all.0), all.1)
]
