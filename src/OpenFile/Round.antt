-- ===== src/OpenFile/Round.antt =====
-- Reads after writes.
use agentfs.Base.{
  ℕ, suc, ◌+◌, ◌-◌, ◌*◌, ◌<◌, ◌≡◌, refl, ◌∙◌, min, some, [], ◌∷◌, arith, length, get_or, Blob,
}
use agentfs.Db.{Db, Now}
use agentfs.Chunk.{u64_mod, i64_max}
use agentfs.OpenFile.{OpenFile, pread, pwrite}
use agentfs.OpenFile.View.{IsFile, file_size, file_byte, pread_lem, pwrite_lem}

-- Bytes of one length that agree at every position.
bytes_ext :
    (a b : Blob)
    → length a ≡ length b
    → ((k : ℕ) → k < length a → get_or a k 0 ≡ get_or b k 0)
    → a ≡ b
bytes_ext [] [] h k = refl
bytes_ext [] (y ∷ b) h k = absurd (omega arith)
bytes_ext (x ∷ a) [] h k = absurd (omega arith)
bytes_ext (x ∷ a) (y ∷ b) h k =
    let rest = bytes_ext a b (omega arith) (λ i lt. k (suc i) (omega arith)) in
    let head = k 0 (omega arith) in cc

module _ (h : OpenFile) (db : Db) (v : IsFile h db) where
  -- For a file whose row is there, with a positive chunk size, no chunk longer than it, and
  -- only zeros past the size: a write of some bytes whose end is below 2 ^ 64 and below
  -- 2 ^ 63 chunks succeeds, and a
  -- read of as many bytes at its offset gives them back.
  pub pread-pwrite :
      (now : Now) (offset : ℕ) (data' : Blob)
      → 0 < length data'
      → offset + length data' < u64_mod
      → offset + length data' < i64_max * h.chunk_size
      → (db' : Db) × (pwrite h now db offset data' ≡ some db')
        × (pread h db' offset (length data') ≡ data')
  pread-pwrite now offset data' some_data fits room =
      let (db', ran, v', size, at) = pwrite_lem h db v now offset data' some_data fits in
      let read : (k : ℕ)
          → (length (pread h db' offset (length data'))
              ≡ min (length data') (file_size h db' - offset))
            × (k < min (length data') (file_size h db' - offset)
                → get_or (pread h db' offset (length data')) k 0 ≡ file_byte h db' (offset + k)) =
        λ k. pread_lem h db' v' offset (length data') k (omega (arith, size)) in
      let n : min (length data') (file_size h db' - offset) ≡ length data' = omega (arith, size) in
      let same_length : length (pread h db' offset (length data')) ≡ length data' =
        (read 0).0 ∙ n in
      (
        db',
        ran,
        bytes_ext (pread h db' offset (length data')) data' same_length (λ k lt.
            let got = (read k).1 (omega arith) in
            got ∙ (at (offset + k) ∙ ground (arith, same_length))),
      )
