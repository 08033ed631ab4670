-- ===== src/OpenFile/View.antt =====
-- A file is a sequence of bytes: what the operations of an open file do to it, whatever the chunks.
use agentfs.Base.{
  ℕ, ◌+◌, ◌-◌, ◌%◌, ◌<◌, ◌≤◌, ◌*◌, min, max, ◌≡◌, refl, ◌∙◌, ap, some, arith, length, get_or, ltb,
  if◌then◌else◌, Blob,
}
use native.Mathlib.Nat.{mod-eq_of_lt}
use agentfs.Db.{Db, Inode, Now, set_mtime_ctime}
use agentfs.Fs.{update_inode}
use agentfs.Chunk
use agentfs.Chunk.{Chunks, u64_mod, i64_max}
use agentfs.Chunk.Content.{byte_at, IsBounded, IsClear, length-bytes, get_or-bytes}
use agentfs.Chunk.Read.{pread-bytes}
use agentfs.Chunk.Write.{within, write_at-bytes}
use agentfs.Chunk.Truncate.{truncate-bytes, truncate-IsBounded}
use agentfs.OpenFile.{OpenFile, size_of, set_chunks, pread, pwrite, truncate, set_size}

-- The file is there; no chunk is longer than the chunk size; past the size there are zeros only.
pub record IsFile (h : OpenFile) (db : Db) : Type 0 where
  pub row : (r : Inode) × (db.inode h.ino ≡ some r)
  pub sized : 0 < h.chunk_size
  pub bounded : IsBounded h.chunk_size (db.chunk h.ino)
  pub clear : IsClear h.chunk_size (size_of (db.inode h.ino)) (db.chunk h.ino)

-- The abstract file: its length, and the byte at each position.
unfoldable pub file_size : OpenFile → Db → ℕ
file_size h db = size_of (db.inode h.ino)

unfoldable pub file_byte : OpenFile → Db → ℕ → ℕ
file_byte h db i = byte_at (db.chunk h.ino) h.chunk_size i

-- New chunks and a new row for the inode.
module _ (h : OpenFile) (db : Db) (f : Chunks) (g : Inode → Inode) (r : Inode)
    (row : db.inode h.ino ≡ some r) where
  abbrev changed : Db
  changed = update_inode h.ino g (set_chunks h.ino f db)

  chunk-changed : changed.chunk h.ino ≡ f
  chunk-changed = ground arith

  inode-changed : changed.inode h.ino ≡ some (g r)
  inode-changed = ground arith

  changed-IsFile :
      0 < h.chunk_size
      → IsBounded h.chunk_size f
      → IsClear h.chunk_size (g r).size f
      → IsFile h changed
  changed-IsFile pos b c = record {
    row = (g r, inode-changed);
    sized = pos;
    bounded = rw chunk-changed b;
    clear = rw (chunk-changed, inode-changed) c;
  }

module _ (h : OpenFile) (db : Db) (v : IsFile h db) where
  -- For a file whose row is there, with a positive chunk size, no chunk longer than it, and
  -- only zeros past the size: a read that ends below 2 ^ 63 chunks returns the bytes from the
  -- offset on, as many as were asked for and there are.
  pub pread_lem :
      (offset size k : ℕ)
      → offset + min size (file_size h db - offset) < i64_max * h.chunk_size
      → (length (pread h db offset size) ≡ min size (file_size h db - offset))
        × (k < min size (file_size h db - offset)
            → get_or (pread h db offset size) k 0 ≡ file_byte h db (offset + k))
  unfolding pread file_size file_byte
  pread_lem offset size k room =
      let f = db.chunk h.ino in
      let n = min size (size_of (db.inode h.ino) - offset) in
      rw (pread-bytes f (size_of (db.inode h.ino)) h.chunk_size offset size v.sized v.bounded room)
        (length-bytes f h.chunk_size offset n, get_or-bytes f h.chunk_size offset n k)

  -- For a file whose row is there, with a positive chunk size, no chunk longer than it, and
  -- only zeros past the size: a write of some bytes whose end is below 2 ^ 64 succeeds, keeps
  -- these conditions, extends the file to the end of the data if that is past its end, puts
  -- the data at the offset and leaves every other byte, so that a gap between the old end and
  -- the offset is zeros.
  pub pwrite_lem :
      (now : Now) (offset : ℕ) (data' : Blob)
      → 0 < length data'
      → offset + length data' < u64_mod
      → (db' : Db) × (pwrite h now db offset data' ≡ some db')
        × IsFile h db'
        × (file_size h db' ≡ max (file_size h db) (offset + length data'))
        × ((i : ℕ)
            → file_byte h db' i ≡ (
                if within offset (length data') i
                then get_or data' (i - offset) 0
                else file_byte h db i))
  unfolding pwrite file_size file_byte
  pwrite_lem now offset data' some_data fits =
      let (r, row) = v.row in
      let (f, ran, b, at) =
        write_at-bytes (db.chunk h.ino) h.chunk_size offset data' v.sized fits v.bounded in
      let size = max r.size ((offset + length data') % u64_mod) in
      let no_wrap : (offset + length data') % u64_mod ≡ offset + length data' = mod-eq_of_lt fits in
      let db' = update_inode h.ino (set_size now size) (set_chunks h.ino f db) in
      let old : IsClear h.chunk_size r.size (db.chunk h.ino) = rw row at v.clear in
      let clear : IsClear h.chunk_size size f = λ i le. at i ∙ ground (arith, old i) in
      (
        db',
        ground arith,
        changed-IsFile h db f (set_size now size) r row v.sized b clear,
        rw (inode-changed h db f (set_size now size) r row, row) (ap (max r.size) no_wrap),
        λ i. rw (chunk-changed h db f (set_size now size) r row) (at i),
      )

  -- For a file whose row is there, with a positive chunk size, no chunk longer than it, and
  -- only zeros past the size, which is 2 ^ 63 chunks at most: a truncation keeps these conditions, gives the file the new
  -- size, keeps the bytes below it and makes all others zero, whether the file shrinks or
  -- grows.
  pub truncate_lem :
      (now : Now) (new_size : ℕ)
      → file_size h db ≤ i64_max * h.chunk_size
      → IsFile h (truncate h now db new_size)
        × (file_size h (truncate h now db new_size) ≡ new_size)
        × ((i : ℕ)
            → file_byte h (truncate h now db new_size) i
              ≡ (if ltb i new_size then file_byte h db i else 0))
  unfolding truncate file_size file_byte
  truncate_lem now new_size room =
      let (r, row) = v.row in
      let old = size_of (db.inode h.ino) in
      let f = Chunk.truncate h.chunk_size old new_size (db.chunk h.ino) in
      let g = λ (r : Inode). set_mtime_ctime now (record r { size = new_size }) in
      let at = truncate-bytes (db.chunk h.ino) h.chunk_size old new_size v.sized v.clear in
      let b = truncate-IsBounded (db.chunk h.ino) h.chunk_size old new_size v.bounded in
      (
        changed-IsFile h db f g r row v.sized b (λ i le. at i room ∙ ground arith),
        rw (inode-changed h db f g r row) refl,
        λ i. rw (chunk-changed h db f g r row) (at i room),
      )
