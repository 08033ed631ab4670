-- ===== src/OpenFile.antt =====
-- `AgentFSFile` of sdk/rust/src/filesystem/agentfs.rs: an open file over the tables.
pub mod View
pub mod Round
use agentfs.Base.{
  ℕ, ◌+◌, ◌%◌, max, Bool, Option, none, some, [], length, ltb, ◌==◌, if◌then◌else◌, Blob,
}
use agentfs.Db.{Db, Inode, Now, set_mtime_ctime}
use agentfs.Chunk
use agentfs.Chunk.{Chunks, u64_mod}
use agentfs.Fs.{Stats, stats_of, Result, ok, err, not_found, update_inode}

-- The handle keeps the inode, not the path, and the chunk size of the file system.
pub record OpenFile : Type 0 where
  pub ino : ℕ
  pub chunk_size : ℕ

-- SELECT size FROM fs_inode; 0 for a missing row
abbrev pub size_of : Option Inode → ℕ
size_of none = 0
size_of (some r) = r.size

abbrev pub set_chunks : ℕ → Chunks → Db → Db
set_chunks ino f db = record db { chunk = λ i. if ino == i then f else db.chunk i }

unfoldable pub pread : OpenFile → Db → ℕ → ℕ → Blob
pread h db offset size =
    Chunk.pread (db.chunk h.ino) (size_of (db.inode h.ino)) h.chunk_size offset size

abbrev pub set_size : Now → ℕ → Inode → Inode
set_size now size r = record r { size = size; mtime = now.secs; mtime_nsec = now.nsec }

-- The update of the size after the bytes are written.
abbrev pub finish_write : OpenFile → Now → ℕ → ℕ → Db → Option Chunks → Option Db
finish_write h now offset n db none = none
finish_write h now offset n db (some f) =
    let new_size = max (size_of (db.inode h.ino)) ((offset + n) % u64_mod) in
    some (update_inode h.ino (set_size now new_size) (set_chunks h.ino f db))

-- `none` means that the loop ran out of fuel.
unfoldable pub pwrite : OpenFile → Now → Db → ℕ → Blob → Option Db
pwrite h now db offset data' =
    if length data' == 0
    then some db
    else finish_write h now offset (length data') db
        (Chunk.write_at h.chunk_size offset data' (db.chunk h.ino))

unfoldable pub truncate : OpenFile → Now → Db → ℕ → Db
truncate h now db new_size =
    update_inode h.ino (λ r. set_mtime_ctime now (record r { size = new_size }))
      (set_chunks h.ino
        (Chunk.truncate h.chunk_size (size_of (db.inode h.ino)) new_size (db.chunk h.ino)) db)

unfoldable pub fstat : OpenFile → Db → Result Stats
fstat h db = elim (db.inode h.ino) [ none ↦ err not_found | some r ↦ ok (stats_of h.ino r) ]
