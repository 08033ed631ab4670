-- ===== src/Chunk.antt =====
-- The chunked contents of one file: the loops of `AgentFSFile` in sdk/rust/src/filesystem/agentfs.rs
-- over the rows of `fs_data` that belong to one inode.
pub mod Content
pub mod Read
pub mod Write
pub mod Truncate
use agentfs.Base.{
  ℕ, zero, suc, ◌+◌, ◌-◌, ◌/◌, ◌%◌, ◌^◌, ◌≤◌, ◌<◌, min, Bool, ◌&&◌, Option, none, some, List, [],
  ◌∷◌, ◌++◌, length, take, drop, replicate, or_else, ltb, leb, ◌==◌, if◌then◌else◌, Blob,
}

-- The rows of one inode: `fs_data` has the primary key (ino, chunk_index).
abbrev pub Chunks : Type 0
Chunks = ℕ → Option Blob

-- INSERT OR REPLACE INTO fs_data
abbrev pub put : Chunks → ℕ → Blob → Chunks
put f i d j = if i == j then some d else f j

abbrev pub u64_mod : ℕ
u64_mod = 2 ^ 64

abbrev pub i64_max : ℕ
i64_max = 2 ^ 63

-- The place of an index in the order of `chunk_index`, which is a signed column: `as i64`.
unfoldable pub signed_place : ℕ → ℕ
signed_place i = (i + i64_max) % u64_mod

-- The rows of `n` indexes in that order, from `i` on.
unfoldable pub select_from : Chunks → ℕ → ℕ → List (ℕ × Blob)
select_from f i zero = []
select_from f i (suc n) =
    let rest = select_from f ((i + 1) % u64_mod) n in
    elim (f i) [ none ↦ rest | some d ↦ (i, d) ∷ rest ]

-- SELECT chunk_index, data WHERE chunk_index >= first AND chunk_index <= last ORDER BY chunk_index
unfoldable pub select_range : Chunks → ℕ → ℕ → List (ℕ × Blob)
unfolding select_from signed_place
select_range f first last = select_from f first (signed_place last + 1 - signed_place first)

-- `std::iter::repeat_n(0u8, n)`
abbrev pub zeros : ℕ → Blob
zeros n = replicate n 0

-- What every loop of `pread` reads and none changes.
pub record Request : Type 0 where
  pub chunk_size : ℕ
  pub offset : ℕ
  pub size : ℕ

abbrev pub start_chunk : Request → ℕ
start_chunk q = q.offset / q.chunk_size

-- The offset in a chunk at which the read begins.
abbrev pub skip_of : Request → ℕ → ℕ
skip_of q i = if i == start_chunk q then q.offset % q.chunk_size else 0

-- The inner `while` over missing chunks, `rounds` of which are left.
unfoldable pub fill_gap : Request → ℕ → ℕ → Blob → Blob
fill_gap q zero next result = result
fill_gap q (suc rounds) next result =
    let more =
      fill_gap q rounds (next + 1)
        (result ++ zeros (min (q.chunk_size - skip_of q next) (q.size - length result))) in
    if ltb (length result) q.size then more else result

-- One row that was found: its bytes, and zeros where it is shorter than a chunk.
unfoldable pub read_chunk : Request → ℕ → Blob → Blob → Blob
read_chunk q skip chunk result =
    if leb (length chunk) skip
    then result ++ zeros (min (q.chunk_size - skip) (q.size - length result))
    else let taken = min (length chunk - skip) (q.size - length result) in
      let result' = result ++ take taken (drop skip chunk) in
      if ltb (skip + taken) q.chunk_size && ltb (length result') q.size
      then result' ++ zeros (min (q.chunk_size - (skip + taken)) (q.size - length result'))
      else result'

-- `while let Some(row) = rows.next()`
unfoldable pub read_rows : Request → List (ℕ × Blob) → ℕ → Blob → Blob
unfolding fill_gap read_chunk
read_rows q [] next result = result
read_rows q ((i, chunk) ∷ rows) next result =
    read_rows q rows (i + 1) (read_chunk q (skip_of q i) chunk (fill_gap q (i - next) next result))

-- `result.resize(size, 0)` of a shorter result
unfoldable pub pad : ℕ → Blob → Blob
pad size result =
    if ltb (length result) size then result ++ zeros (size - length result) else result

unfoldable pub pread : Chunks → ℕ → ℕ → ℕ → ℕ → Blob
unfolding select_range read_rows pad
pread f file_size chunk_size offset size =
    if leb file_size offset
    then []
    else let size' = min size (file_size - offset) in
      let start = offset / chunk_size in
      let end = (offset + size' - 1) / chunk_size in
      let q : Request = record { chunk_size = chunk_size; offset = offset; size = size' } in
      pad size' (read_rows q (select_range f start end) start [])

-- The chunk that is saved: the old bytes, extended by zeros to the end of the piece, and the piece
-- over them. `size` and `piece` are `to_write` and the slice of the data that is written.
unfoldable pub write_chunk : ℕ → Option Blob → ℕ → Blob → Blob
write_chunk chunk_size old off piece =
    if length piece == chunk_size
    then piece
    else let existing = or_else old [] in
      let chunk =
        if ltb (length existing) (off + length piece)
        then existing ++ zeros (off + length piece - length existing)
        else existing in
      take off chunk ++ (piece ++ drop (off + length piece) chunk)

-- `while written < data.len()` with fuel; `none` means that the fuel ran out.
unfoldable pub write_loop : ℕ → ℕ → ℕ → Blob → ℕ → Chunks → Option Chunks
unfolding write_chunk
write_loop zero chunk_size offset data' written f = none
write_loop (suc fuel) chunk_size offset data' written f =
    let current = (offset + written) % u64_mod in
    let index = current / chunk_size in
    let off = current % chunk_size in
    let to_write = min (chunk_size - off) (length data' - written) in
    let saved = write_chunk chunk_size (f index) off (take to_write (drop written data')) in
    let rest = write_loop fuel chunk_size offset data' (written + to_write) (put f index saved) in
    if ltb written (length data') then rest else some f

-- `write_data_at_offset_with_conn`; every round writes a byte, so that one round for each byte and
-- one for the last test are enough.
unfoldable pub write_at : ℕ → ℕ → Blob → Chunks → Option Chunks
unfolding write_loop
write_at chunk_size offset data' f =
    if length data' == 0 then some f else write_loop (length data' + 1) chunk_size offset data' 0 f

-- Whether `truncate` cuts the last chunk: only a chunk that is longer than the offset.
unfoldable pub cut_chunk : ℕ → Option Blob → Option Blob
cut_chunk off none = none
cut_chunk off (some d) = if ltb off (length d) then some (take off d) else some d

-- The statements of `truncate` on `fs_data`.
unfoldable pub truncate : ℕ → ℕ → ℕ → Chunks → Chunks
unfolding cut_chunk signed_place
truncate chunk_size current_size new_size f i =
    if new_size == 0
    then none
    else if ltb new_size current_size
    then (let last = (new_size - 1) / chunk_size in
        let off = new_size % chunk_size in
        if ltb (signed_place last) (signed_place i)
        then none
        else if (i == last) && ltb 0 off
        then cut_chunk off (f i)
        else f i)
    else f i
