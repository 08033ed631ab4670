-- ===== src/ByPath/Data.antt =====
-- `pread` and `pwrite` of `impl AgentFS`.
use agentfs.Base.{
  ℕ, zero, suc, ◌+◌, ◌-◌, ◌*◌, ◌/◌, ◌%◌, min, max, Bool, true, false, ◌||◌, Option, none, some,
  List, [], ◌∷◌, ◌++◌, length, take, drop, or_else, ltb, leb, ◌==◌, if◌then◌else◌, Str, Blob,
  bit_or,
}
use agentfs.Chunk.{Chunks, put, select_range, zeros, u64_mod}
use agentfs.Db.{Db, Now}
use agentfs.Db.Mode.{s_ifreg}
use agentfs.Fs.Cache.{Lru}
use agentfs.Fs.Create.{new_inode}
use agentfs.Fs.Rename.{transaction}
use agentfs.Fs.Resolve.{resolve_path}
use agentfs.Fs.{Exec, ◌>>=◌, ◌>>◌, pure, query, execute, update_inode, insert_inode, insert_dentry}
use agentfs.OpenFile.{size_of, set_chunks, set_size}
use agentfs.Path.{normalize_path, is_empty}
use agentfs.ByPath.{name_of, non_root, resolve_parent, at_found}

-- `DEFAULT_FILE_MODE`
abbrev pub default_file_mode : ℕ
default_file_mode = bit_or s_ifreg 0o644

-- The rows one after another: from `skip` on while nothing was read, up to `size` bytes.
unfoldable pub gather : ℕ → ℕ → List (ℕ × Blob) → Blob → Blob
gather skip size [] result = result
gather skip size ((i, chunk) ∷ rows) result =
    let from = if is_empty result then skip else 0 in
    gather skip size rows (
      if leb (length chunk) from
      then result
      else result ++ take (min (length chunk - from) (size - length result)) (drop from chunk))

-- `pread`, which does not look at the size of the file. `offset + size` is of 64 bits.
unfoldable pub pread_rows : ℕ → ℕ → ℕ → Chunks → Blob
unfolding gather
pread_rows chunk_size offset size f =
    let start = offset / chunk_size in
    let end = ((offset + size) % u64_mod - 1) / chunk_size in
    gather (offset % chunk_size) size (select_range f start end) []

-- `Vec::resize(size, 0)`
abbrev pub resize : ℕ → Blob → Blob
resize size d = take size d ++ zeros (size - length d)

-- A write of `data'` at an offset, in a file of a size that is known.
pub record Patch : Type 0 where
  pub chunk_size : ℕ
  pub offset : ℕ
  pub content : Blob
  pub current_size : ℕ

abbrev pub write_end : Patch → ℕ
write_end w = (w.offset + length w.content) % u64_mod

abbrev pub start_chunk : Patch → ℕ
start_chunk w = w.offset / w.chunk_size

abbrev pub end_chunk : Patch → ℕ
end_chunk w = (write_end w - 1) / w.chunk_size

-- The part of a chunk that is written.
abbrev pub data_start : Patch → ℕ → ℕ
data_start w i = if ltb (i * w.chunk_size) w.offset then w.offset - i * w.chunk_size else 0

abbrev pub data_end : Patch → ℕ → ℕ
data_end w i = min w.chunk_size (write_end w - i * w.chunk_size)

-- The part of the data that is copied into it.
abbrev pub src_start : Patch → ℕ → ℕ
src_start w i = if ltb w.offset (i * w.chunk_size) then i * w.chunk_size - w.offset else 0

abbrev pub src_end : Patch → ℕ → ℕ
src_end w i = min (length w.content) (src_start w i + (data_end w i - data_start w i))

-- How much of a chunk is saved: the last one up to the end of the file.
abbrev pub actual_len : Patch → ℕ → ℕ
actual_len w i =
    if i == end_chunk w
    then max (write_end w - i * w.chunk_size) (
        if ltb (i * w.chunk_size) w.current_size
        then min (w.current_size - i * w.chunk_size) w.chunk_size
        else 0)
    else w.chunk_size

-- The chunk that is saved.
unfoldable pub patch_chunk : Patch → ℕ → Option Blob → Blob
patch_chunk w i old =
    let needs_read = ltb 0 (data_start w i) || ltb (data_end w i) w.chunk_size in
    let chunk = if needs_read then resize w.chunk_size (or_else old []) else zeros w.chunk_size in
    let piece = take (src_end w i - src_start w i) (drop (src_start w i) w.content) in
    take (actual_len w i) (take (data_start w i) chunk ++ (piece ++ drop (data_end w i) chunk))

-- `for chunk_idx in start_chunk..=end_chunk`, with the rounds that are left.
unfoldable pub patch_chunks : Patch → ℕ → ℕ → Chunks → Chunks
patch_chunks w zero i f = f
patch_chunks w (suc rounds) i f = patch_chunks w rounds (i + 1) (put f i (patch_chunk w i (f i)))

unfoldable pub patch : Patch → Chunks → Chunks
patch w f = patch_chunks w (end_chunk w + 1 - start_chunk w) (start_chunk w) f

-- UPDATE fs_inode SET mtime = ?, mtime_nsec = ?
abbrev pub touch : Now → ℕ → Db → Db
touch now ino = update_inode ino (λ r. record r { mtime = now.secs; mtime_nsec = now.nsec })

-- The inode that is written to.
pub record Target : Type 0 where
  pub ino : ℕ
  pub size : ℕ
  pub is_new : Bool

abbrev pub patch_of : ℕ → ℕ → Blob → Target → Patch
patch_of chunk_size offset content target = record {
  chunk_size = chunk_size;
  offset = offset;
  content = content;
  current_size = target.size;
}

module _ {lru : Lru} (chunk_size : ℕ) where
  unfoldable pub pread : Str → ℕ → ℕ → Exec lru (Option Blob)
  unfolding pread_rows
  pread path offset size = do
    found ← resolve_path path
    at_found (λ ino. query (λ db. some (pread_rows chunk_size offset size (db.chunk ino)))) found

  -- The file, made with its final size if it is not there.
  unfoldable pub open_or_create : Now → ℕ → Str → ℕ → Option ℕ → Exec lru Target
  open_or_create now p n end (some ino) =
      query (λ db. record { ino = ino; size = size_of (db.inode ino); is_new = false })
  open_or_create now p n end none = do
    execute (insert_inode (record (new_inode now default_file_mode 0 0) { nlink = 1; size = end }))
    ino ← query (λ db. db.last_ino)
    execute (insert_dentry n p ino)
    pure (record { ino = ino; size = 0; is_new = true })

  -- The chunks, and the size of a file that was there.
  unfoldable pub write_to : Now → ℕ → Blob → Target → Exec lru (Unit {0})
  unfolding patch
  write_to now offset content target = do
    let w = patch_of chunk_size offset content target
    execute (
        if is_empty content then touch now target.ino else λ db.
        let saved = set_chunks target.ino (patch w (db.chunk target.ino)) db in
        if target.is_new
        then saved
        else update_inode target.ino (set_size now (max target.size (write_end w))) saved)

  -- The two readings of the clock are those for a new file and for the write.
  unfoldable pub pwrite : Now → Now → Str → ℕ → Blob → Exec lru (Unit {0})
  unfolding open_or_create write_to
  pwrite now_new now path offset content = do
    components ← non_root path
    p ← resolve_parent components
    transaction (do
      found ← resolve_path (normalize_path path)
      target ←
          open_or_create now_new p (name_of components) ((offset + length content) % u64_mod) found
      write_to now offset content target)
