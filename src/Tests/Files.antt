-- ===== src/Tests/Files.antt =====
-- Bytes of files: chunks of four bytes.
use agentfs.Base.{
  ℕ, ◌+◌, ◌-◌, ◌<◌, ◌≡◌, refl, arith, min, max, none, some, [], ◌∷◌, if◌then◌else◌, length, get_or,
  ltb, Blob, ◌==◌,
}
use agentfs.Chunk
use agentfs.Chunk.{Chunks, u64_mod, write_at}
use agentfs.Chunk.Content.{IsBounded, IsClear, byte_at}
use agentfs.Chunk.Write.{IsSpliced, write_at-bytes, within}
use agentfs.ByPath.Data.{Patch, patch}
use agentfs.ByPath.Patched.{patch-write_at}
use agentfs.Db.{Db, Inode}
use agentfs.OpenFile.{OpenFile, pread, pwrite, truncate}
use agentfs.OpenFile.Round.{pread-pwrite}
use agentfs.OpenFile.View.{IsFile, file_size, file_byte, pread_lem, pwrite_lem, truncate_lem}
use agentfs.Tests.Setup.{at}

-- "abcdef" with a short second chunk; the file has seven bytes.
abbrev chunks : Chunks
chunks i =
    if i == 0
    then some (b'a' ∷ b'b' ∷ b'c' ∷ b'd' ∷ [])
    else if i == 1
    then some (b'e' ∷ b'f' ∷ [])
    else none

chunks-IsBounded : IsBounded 4 chunks
chunks-IsBounded i = ground arith

chunks-IsClear : IsClear 4 7 chunks
unfolding byte_at
chunks-IsClear i h = ground arith

abbrev handle : OpenFile
handle = record { ino = 2; chunk_size = 4 }

abbrev row : Inode
row = record {
  mode = 0o100644;
  nlink = 1;
  uid = 0;
  gid = 0;
  size = 7;
  atime = 0;
  mtime = 0;
  ctime = 0;
  rdev = 0;
  atime_nsec = 0;
  mtime_nsec = 0;
  ctime_nsec = 0;
}

abbrev tables : Db
tables = record {
  last_ino = 2;
  inode = λ i. if i == 2 then some row else none;
  dentry = [];
  chunk = λ i. if i == 2 then chunks else (λ _. none);
  symlink = λ _. none;
}

tables-IsFile : IsFile handle tables
tables-IsFile = record {
  row = (row, refl);
  sized = omega arith;
  bounded = chunks-IsBounded;
  clear = chunks-IsClear;
}

abbrev word : Blob
word = b'x' ∷ b'y' ∷ b'z' ∷ []

-- A missing end of the last chunk reads as zero.
pread_run : Chunk.pread chunks 7 4 5 10 ≡ b'f' ∷ 0 ∷ []
unfolding Chunk.pread Chunk.read_rows Chunk.read_chunk Chunk.select_range Chunk.select_from
    Chunk.signed_place
pread_run = refl

write_at-bytes_example :
    (f' : Chunks) × (write_at 4 9 word chunks ≡ some f')
    × IsBounded 4 f'
    × IsSpliced chunks 4 9 word f'
write_at-bytes_example = write_at-bytes chunks 4 9 word (omega arith) (omega arith) chunks-IsBounded

pread_lem_example :
    (length (pread handle tables 3 9) ≡ min 9 (file_size handle tables - 3))
    × (1 < min 9 (file_size handle tables - 3)
        → get_or (pread handle tables 3 9) 1 0 ≡ file_byte handle tables (3 + 1))
pread_lem_example = pread_lem handle tables tables-IsFile 3 9 1 (omega arith)

pwrite_lem_example :
    (db' : Db) × (pwrite handle at tables 9 word ≡ some db')
    × IsFile handle db'
    × (file_size handle db' ≡ max (file_size handle tables) (9 + 3))
    × ((i : ℕ)
        → file_byte handle db' i
          ≡ (if within 9 3 i then get_or word (i - 9) 0 else file_byte handle tables i))
pwrite_lem_example = pwrite_lem handle tables tables-IsFile at 9 word (omega arith) (omega arith)

truncate_lem_example :
    IsFile handle (truncate handle at tables 3)
    × (file_size handle (truncate handle at tables 3) ≡ 3)
    × ((i : ℕ)
        → file_byte handle (truncate handle at tables 3) i
          ≡ (if ltb i 3 then file_byte handle tables i else 0))
unfolding file_size
truncate_lem_example = truncate_lem handle tables tables-IsFile at 3 (omega arith)

pread-pwrite_example :
    (db' : Db) × (pwrite handle at tables 9 word ≡ some db') × (pread handle db' 9 3 ≡ word)
pread-pwrite_example =
    pread-pwrite handle tables tables-IsFile at 9 word (omega arith) (omega arith) (omega arith)

abbrev over_two_chunks : Patch
over_two_chunks = record {
  chunk_size = 4;
  offset = 3;
  content = b'x' ∷ b'y' ∷ [];
  current_size = 7;
}

patch-write_at_example :
    (f' : Chunks) × (write_at 4 3 (b'x' ∷ b'y' ∷ []) chunks ≡ some f')
    × ((i : ℕ) → byte_at (patch over_two_chunks chunks) 4 i ≡ byte_at f' 4 i)
patch-write_at_example =
    patch-write_at over_two_chunks chunks (omega arith) (omega arith) (omega arith) chunks-IsBounded
      chunks-IsClear
