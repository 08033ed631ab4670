-- ===== src/HostFs/Runs.antt =====
-- Runs of `HostFS`, whatever the system calls answer.
use agentfs.Base.{
  ℕ, ◌+◌, ◌≤◌, ◌<◌, ◌≡◌, refl, Option, none, some, List, [], ◌∷◌, arith, length, ◌||◌, Str,
  Option-cases, Bool-cases, inl, inr, ◌⊎◌,
}
use agentfs.Fs.{Stats}
use agentfs.Fs.Listing.{DirEntry}
use agentfs.HostFs.{
  HostResult, ok, fs_error, os_error, Answer, done, failed, HostStat, HostFs, u64_range, new,
  with_fuse_mountpoint, is_mountpoint, get_or_create_inode, forget, has_zero, lookup_opened,
  lookup_child, lookup, found, lookup_made, make, symlink, give_created, created, create_file,
  RawEntry, not_mounted, give_entries, readdir_plus,
}
use agentfs.HostFs.Inodes.{
  Inv, HasNumber, new-Inv, get_or_create_inode-Inv, get_or_create_inode_next, forget-Inv,
}

module _ (h : HostFs) (v : Inv h) (more : HasNumber h) where
  lookup_child-Inv :
      (opened : Answer ℕ) (stat : Answer HostStat) → Inv (lookup_child opened stat h).1
  unfolding lookup_child lookup_opened
  lookup_child-Inv (failed e) stat = v
  lookup_child-Inv (done fd) (failed e) = v
  lookup_child-Inv (done fd) (done stat) =
      elim (Bool-cases (is_mountpoint h.fuse_mountpoint_inode stat.columns.ino)) [
        | inl mounted ↦ rw mounted v
        | inr plain ↦ rw plain (get_or_create_inode-Inv h v fd stat more)
      ]

  lookup-Inv :
      (parent : ℕ) (name : Str) (opened : Answer ℕ) (stat : Answer HostStat)
      → Inv (lookup parent name opened stat h).1
  unfolding lookup
  lookup-Inv parent name opened stat = elim (Option-cases (h.inodes parent)) [
    | inl gone ↦ rw (gone, lookup) v
    | inr (n, row) ↦
        rw (row, lookup)
          (elim (Bool-cases (is_mountpoint h.fuse_mountpoint_inode n.src.ino)) [
            | inl mounted ↦ rw mounted v
            | inr plain ↦ elim (Bool-cases (has_zero name)) [
              | inl zero_byte ↦ rw (plain, zero_byte) v
              | inr text ↦ rw (plain, text) (lookup_child-Inv opened stat)
            ]
          ])
  ]

  found_state : (r : HostResult (Option Stats) × HostFs) → Inv r.1 → Inv (found r).1
  found_state (ok none, t) w = w
  found_state (ok (some s), t) w = w
  found_state (fs_error e, t) w = w
  found_state (os_error e, t) w = w

  lookup_made-Inv :
      (parent : ℕ) (name : Str) (made : Answer (Unit {0})) (opened : Answer ℕ)
      (stat : Answer HostStat)
      → Inv (lookup_made parent name made opened stat h).1
  unfolding lookup_made
  lookup_made-Inv parent name (failed e) opened stat = v
  lookup_made-Inv parent name (done a) opened stat =
      found_state (lookup parent name opened stat h) (lookup-Inv parent name opened stat)

  module _ (parent : ℕ) (name : Str) where
    make-Inv :
        (made : Answer (Unit {0})) (opened : Answer ℕ) (stat : Answer HostStat)
        → Inv (make parent name made opened stat h).1
    unfolding make
    make-Inv made opened stat = elim (Option-cases (h.inodes parent)) [
      | inl gone ↦ rw (gone, make) v
      | inr (n, row) ↦
          rw (row, make)
            (elim (Bool-cases (has_zero name)) [
              | inl zero_byte ↦ rw zero_byte v
              | inr text ↦ rw text (lookup_made-Inv parent name made opened stat)
            ])
    ]

    symlink-Inv :
        (target : Str) (made : Answer (Unit {0})) (opened : Answer ℕ) (stat : Answer HostStat)
        → Inv (symlink parent name target made opened stat h).1
    unfolding symlink
    symlink-Inv target made opened stat = elim (Option-cases (h.inodes parent)) [
      | inl gone ↦ rw (gone, symlink) v
      | inr (n, row) ↦
          rw (row, symlink)
            (elim (Bool-cases (has_zero name || has_zero target)) [
              | inl zero_byte ↦ rw zero_byte v
              | inr text ↦ rw text (lookup_made-Inv parent name made opened stat)
            ])
    ]

    created-Inv : (file path : Answer ℕ) (stat : Answer HostStat) → Inv (created file path stat h).1
    unfolding created give_created
    created-Inv (failed e) path stat = v
    created-Inv (done file) (failed e) stat = v
    created-Inv (done file) (done fd) (failed e) = v
    created-Inv (done file) (done fd) (done stat) = get_or_create_inode-Inv h v fd stat more

    create_file-Inv :
        (file path : Answer ℕ) (stat : Answer HostStat)
        → Inv (create_file parent name file path stat h).1
    unfolding create_file
    create_file-Inv file path stat = elim (Option-cases (h.inodes parent)) [
      | inl gone ↦ rw (gone, create_file) v
      | inr (n, row) ↦
          rw (row, create_file)
            (elim (Bool-cases (has_zero name)) [
              | inl zero_byte ↦ rw zero_byte v
              | inr text ↦ rw text (created-Inv file path stat)
            ])
    ]

Answer-cases : {A : Type 0} (a : Answer A) → ((e : ℕ) × (a ≡ failed e)) ⊎ ((x : A) × (a ≡ done x))
Answer-cases (failed e) = inl (e, refl)
Answer-cases (done x) = inr (x, refl)

give_entries-Inv :
    (es : List RawEntry) (ds : List DirEntry) (h : HostFs)
    → Inv h
    → h.next_ino + length es < u64_range
    → Inv (give_entries es ds h).1
unfolding give_entries
give_entries-Inv [] ds h v room = v
give_entries-Inv (e ∷ es) ds h v room = elim (Answer-cases e.opened) [
  | inl (x, closed) ↦ rw (closed, give_entries) (give_entries-Inv es ds h v (omega arith))
  | inr (fd, opened) ↦
      let more : HasNumber h = omega arith in
      let h' = (get_or_create_inode fd e.stat h).1 in
      rw (opened, give_entries)
        (give_entries-Inv es _ h' (get_or_create_inode-Inv h v fd e.stat more)
          (omega (arith, get_or_create_inode_next fd e.stat h more)))
]

length-not_mounted : (m : Option ℕ) (es : List RawEntry) → length (not_mounted m es) ≤ length es
unfolding not_mounted
length-not_mounted m [] = omega arith
length-not_mounted m (e ∷ es) = elim (Bool-cases (is_mountpoint m e.stat.columns.ino)) [
  | inl mounted ↦ rw mounted (omega (arith, length-not_mounted m es))
  | inr kept ↦ rw kept (omega (arith, length-not_mounted m es))
]

-- The entries that a listing may give numbers to.
abbrev pub entry_count : Answer (List RawEntry) → ℕ
entry_count (failed e) = 0
entry_count (done es) = length es

readdir_plus-Inv :
    (ino : ℕ) (answer : Answer (List RawEntry)) (h : HostFs)
    → Inv h
    → h.next_ino + entry_count answer < u64_range
    → Inv (readdir_plus ino answer h).1
unfolding readdir_plus
readdir_plus-Inv ino (failed e) h v room = v
readdir_plus-Inv ino (done es) h v room = elim (Option-cases (h.inodes ino)) [
  | inl gone ↦ rw (gone, readdir_plus) v
  | inr (n, row) ↦
      let kept = not_mounted h.fuse_mountpoint_inode es in
      rw (row, readdir_plus)
        (give_entries-Inv kept [] h v
          (omega (arith, length-not_mounted h.fuse_mountpoint_inode es)))
]

-- The operations that write the maps, with what the system calls answer; numbers are left for those
-- that may give one out.
pub data HostStep : HostFs → HostFs → Type 0 where
  by_lookup :
      (h : HostFs) (parent : ℕ) (name : Str) (opened : Answer ℕ) (stat : Answer HostStat)
      → HasNumber h
      → HostStep h (lookup parent name opened stat h).1
  by_make :
      (h : HostFs) (parent : ℕ) (name : Str) (made : Answer (Unit {0})) (opened : Answer ℕ)
      (stat : Answer HostStat)
      → HasNumber h
      → HostStep h (make parent name made opened stat h).1
  by_symlink :
      (h : HostFs) (parent : ℕ) (name target : Str) (made : Answer (Unit {0})) (opened : Answer ℕ)
      (stat : Answer HostStat)
      → HasNumber h
      → HostStep h (symlink parent name target made opened stat h).1
  by_create_file :
      (h : HostFs) (parent : ℕ) (name : Str) (file path : Answer ℕ) (stat : Answer HostStat)
      → HasNumber h
      → HostStep h (create_file parent name file path stat h).1
  by_readdir_plus :
      (h : HostFs) (ino : ℕ) (answer : Answer (List RawEntry))
      → h.next_ino + entry_count answer < u64_range
      → HostStep h (readdir_plus ino answer h).1
  by_forget : (h : HostFs) (ino nlookup : ℕ) → HostStep h (forget ino nlookup h)

pub data HostReach : HostFs → Type 0 where
  start : (fd : ℕ) (stat : HostStat) → HostReach (new fd stat)
  mounted : {h : HostFs} (inode : ℕ) → HostReach h → HostReach (with_fuse_mountpoint inode h)
  next : {h h' : HostFs} → HostReach h → HostStep h h' → HostReach h'

HostStep-Inv : {h h' : HostFs} → HostStep h h' → Inv h → Inv h'
HostStep-Inv (by_lookup h parent name opened stat more) v =
    lookup-Inv h v more parent name opened stat
HostStep-Inv (by_make h parent name made opened stat more) v =
    make-Inv h v more parent name made opened stat
HostStep-Inv (by_symlink h parent name target made opened stat more) v =
    symlink-Inv h v more parent name target made opened stat
HostStep-Inv (by_create_file h parent name file path stat more) v =
    create_file-Inv h v more parent name file path stat
HostStep-Inv (by_readdir_plus h ino answer room) v = readdir_plus-Inv ino answer h v room
HostStep-Inv (by_forget h ino nlookup) v = forget-Inv ino nlookup h v

-- In every state of `HostFS` that its operations reach, whatever the system calls answer: the number of
-- a file is that of an inode with this file, the file of every inode has its number, so that two
-- numbers never stand for one file, no number from the counter on is in use, and the root is there.
pub HostReach-Inv : {h : HostFs} → HostReach h → Inv h
unfolding with_fuse_mountpoint
HostReach-Inv (start fd stat) = new-Inv fd stat
HostReach-Inv (mounted inode r) =
    let v = HostReach-Inv r in
    record { known = v.known; back = v.back; fresh = v.fresh; root = v.root }
HostReach-Inv (next r s) = HostStep-Inv s (HostReach-Inv r)
