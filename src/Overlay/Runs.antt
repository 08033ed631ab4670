-- ===== src/Overlay/Runs.antt =====
-- Runs of `OverlayFS`: every operation as a step, with both layers, and the states that can be reached.
use agentfs.Base.{ℕ, ◌+◌, ◌<◌, ◌≤◌, Option, Str, arith}
use agentfs.Db.{Now}
use agentfs.Fs.Attr.{TimeChange}
use agentfs.Fs.Cache.{Lru}
use agentfs.Fs.{Fs}
use agentfs.Overlay.{OverlayFs, new, i64_range}
use agentfs.Overlay.Budget.{Keeps}
use agentfs.Overlay.Budget.Change.{
  Keeps-chmod, Keeps-chown, Keeps-utimens, Keeps-open_file, Keeps-mkdir, Keeps-create_file,
  Keeps-mknod, Keeps-symlink, Keeps-link,
}
use agentfs.Overlay.Budget.Listing.{entry_count, readdir_plus-IsWithin}
use agentfs.Overlay.Budget.Lookup.{Keeps-lookup}
use agentfs.Overlay.Budget.Remove.{Keeps-readdir, Keeps-unlink, Keeps-rmdir, Keeps-rename}
use agentfs.Overlay.Change
use agentfs.Overlay.CopyUp.{BaseLayer, Setting}
use agentfs.Overlay.Inodes.{Inv, new-Inv}
use agentfs.Overlay.Listing.{readdir, readdir_plus}
use agentfs.Overlay.Lookup.{Session, Act, lookup}
use agentfs.Overlay.Reload.{remount, remount-Inv}
use agentfs.Overlay.Remove.{unlink, rmdir, rename}

-- An operation but `readdir_plus`, with its arguments and the readings of the clock.
pub data Call : Type 0 where
  to_lookup : ℕ → Str → Call
  to_readdir : ℕ → Call
  to_chmod : Now → ℕ → ℕ → Call
  to_chown : ℕ → Option ℕ → Option ℕ → Call
  to_utimens : Now → Now → Now → ℕ → TimeChange → TimeChange → Call
  to_open : ℕ → Call
  to_mkdir : Now → ℕ → Str → ℕ → ℕ → ℕ → Call
  to_create_file : Now → ℕ → Str → ℕ → ℕ → ℕ → Call
  to_mknod : Now → ℕ → Str → ℕ → ℕ → ℕ → ℕ → Call
  to_symlink : Now → ℕ → Str → Str → ℕ → ℕ → Call
  to_link : Now → ℕ → ℕ → Str → Call
  to_unlink : Now → ℕ → ℕ → Str → Call
  to_rmdir : Now → ℕ → ℕ → Str → Call
  to_rename : Now → Now → ℕ → ℕ → Str → ℕ → Str → Call

module _ {lru : Lru} (base : BaseLayer) (c : Setting) where
  -- The state after a call, whatever it returns.
  unfoldable pub after : Call → Session lru → Session lru
  after (to_lookup p n) s = (lookup base.lookup p n s).1
  after (to_readdir i) s = (readdir base i s).1
  after (to_chmod t i mode) s = (Change.chmod base c t i mode s).1
  after (to_chown i uid gid) s = (Change.chown base c i uid gid s).1
  after (to_utimens ta tm tc i atime mtime) s = (Change.utimens base c ta tm tc i atime mtime s).1
  after (to_open i) s = (Change.open_file base c i s).1
  after (to_mkdir t p n mode uid gid) s = (Change.mkdir base c t p n mode uid gid s).1
  after (to_create_file t p n mode uid gid) s = (Change.create_file base c t p n mode uid gid s).1
  after (to_mknod t p n mode rdev uid gid) s = (Change.mknod base c t p n mode rdev uid gid s).1
  after (to_symlink t p n target uid gid) s = (Change.symlink base c t p n target uid gid s).1
  after (to_link t i p n) s = (Change.link base c t i p n s).1
  after (to_unlink t secs p n) s = (unlink base t secs p n s).1
  after (to_rmdir t secs p n) s = (rmdir base t secs p n s).1
  after (to_rename t t' secs p n p' n') s = (rename base c t t' secs p n p' n' s).1

abbrev pub HasTwo : OverlayFs → Type 0
HasTwo o = o.next_ino + 2 < i64_range

-- Calls, with those of `readdir_plus`, and new mounts. The base may answer each call otherwise, since other programs write to it,
-- and the delta may be changed behind the overlay, by its open files for one.
pub data OverlayRun {lru : Lru} : Session lru → Type 0 where
  start : (delta : Fs lru) → OverlayRun (record { delta = delta; overlay = new })
  call :
      (s : Session lru) (base : BaseLayer) (c : Setting) (f : Call)
      → OverlayRun s
      → HasTwo s.overlay
      → OverlayRun (after base c f s)
  list_plus :
      (s : Session lru) (base : BaseLayer) (ino : ℕ)
      → OverlayRun s
      → s.overlay.next_ino + entry_count base ino s < i64_range
      → OverlayRun (readdir_plus base ino s).1
  behind :
      (s : Session lru) (delta : Fs lru) → OverlayRun s → OverlayRun (record s { delta = delta })
  mount : (s : Session lru) → OverlayRun s → OverlayRun (record s { overlay = remount s.overlay })

module _ {lru : Lru} where
  within_two :
      {A : Type 0} (k : ℕ) (m : Act lru A) (s : Session lru)
      → k ≤ 2
      → Inv s.overlay
      → HasTwo s.overlay
      → Keeps k m
      → Inv (m s).1.overlay
  within_two k m s le v room h = (h.at s v (omega arith)).maps

  after-Inv :
      (base : BaseLayer) (c : Setting) (f : Call) (s : Session lru)
      → Inv s.overlay
      → HasTwo s.overlay
      → Inv (after base c f s).overlay
  unfolding after
  after-Inv base c (to_lookup p n) s v room =
      within_two 1 (lookup base.lookup p n) s (omega arith) v room (Keeps-lookup base.lookup p n)
  after-Inv base c (to_readdir i) s v room =
      within_two 0 (readdir base i) s (omega arith) v room (Keeps-readdir base i)
  after-Inv base c (to_chmod t i mode) s v room =
      within_two 0 (Change.chmod base c t i mode) s (omega arith) v room
        (Keeps-chmod base c t i mode)
  after-Inv base c (to_chown i uid gid) s v room =
      within_two 0 (Change.chown base c i uid gid) s (omega arith) v room
        (Keeps-chown base c i uid gid)
  after-Inv base c (to_utimens ta tm tc i atime mtime) s v room =
      within_two 0 (Change.utimens base c ta tm tc i atime mtime) s (omega arith) v room
        (Keeps-utimens base c ta tm tc i atime mtime)
  after-Inv base c (to_open i) s v room =
      within_two 0 (Change.open_file base c i) s (omega arith) v room (Keeps-open_file base c i)
  after-Inv base c (to_mkdir t p n mode uid gid) s v room =
      within_two 2 (Change.mkdir base c t p n mode uid gid) s (omega arith) v room
        (Keeps-mkdir base c t p n uid gid mode)
  after-Inv base c (to_create_file t p n mode uid gid) s v room =
      within_two 1 (Change.create_file base c t p n mode uid gid) s (omega arith) v room
        (Keeps-create_file base c t p n uid gid mode)
  after-Inv base c (to_mknod t p n mode rdev uid gid) s v room =
      within_two 1 (Change.mknod base c t p n mode rdev uid gid) s (omega arith) v room
        (Keeps-mknod base c t p n uid gid mode rdev)
  after-Inv base c (to_symlink t p n target uid gid) s v room =
      within_two 1 (Change.symlink base c t p n target uid gid) s (omega arith) v room
        (Keeps-symlink base c t p n uid gid target)
  after-Inv base c (to_link t i p n) s v room =
      within_two 0 (Change.link base c t i p n) s (omega arith) v room (Keeps-link base c t i p n)
  after-Inv base c (to_unlink t secs p n) s v room =
      within_two 2 (unlink base t secs p n) s (omega arith) v room (Keeps-unlink base t secs p n)
  after-Inv base c (to_rmdir t secs p n) s v room =
      within_two 2 (rmdir base t secs p n) s (omega arith) v room (Keeps-rmdir base t secs p n)
  after-Inv base c (to_rename t t' secs p n p' n') s v room =
      within_two 2 (rename base c t t' secs p n p' n') s (omega arith) v room
        (Keeps-rename base c t t' secs p n p' n')

  -- In every state that is reached from a new overlay by its operations and by new mounts, whatever
  -- the base answers and whoever else changes the delta, and with two numbers left before each
  -- operation, before `readdir_plus` as many as both layers list entries: every inode number that a
  -- map gives is known, the number of a path has that path, no number from the counter on is in
  -- use, and the origins in memory are those in the table.
  pub OverlayRun-Inv : {s : Session lru} → OverlayRun s → Inv s.overlay
  OverlayRun-Inv (start delta) = new-Inv
  OverlayRun-Inv (call s base c f r room) = after-Inv base c f s (OverlayRun-Inv r) room
  OverlayRun-Inv (list_plus s base ino r room) =
      (readdir_plus-IsWithin base ino s (OverlayRun-Inv r) room).maps
  OverlayRun-Inv (behind s delta r) = OverlayRun-Inv r
  OverlayRun-Inv (mount s r) = remount-Inv s.overlay
