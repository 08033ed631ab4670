-- ===== src/ByPath/Patched/One.antt =====
-- One chunk that `pwrite` by path saves.
use agentfs.Base.{
  ltb→lt, ◌⊎◌, ℕ, zero, ◌+◌, ◌-◌, ◌*◌, ◌≤◌, ◌<◌, ◌≡◌, sym, ◌∙◌, ap, min, true, false, ◌||◌, Option,
  [], ◌++◌, length, take, drop, or_else, get_or, ltb, ◌==◌, if◌then◌else◌, Blob, arith, Bool-cases,
  inl, inr, get_or_past, get_or-take, get_or-drop, length-append, length-take, length-drop,
  length-replicate,
}
use agentfs.Chunk.{zeros, u64_mod}
use agentfs.Chunk.Write.{within}
use agentfs.ByPath.Data.{
  Patch, write_end, end_chunk, data_start, data_end, src_start, src_end, actual_len, resize,
  patch_chunk,
}
use agentfs.ByPath.Patched.Copy.{
  get_or-resize, copied_before, copied_within, copied_behind, within_not, within_yes, not_lt,
  cut_lem, has_to_read,
}

-- One chunk of a write: `w` writes at most to the end `e` of the data, without wrapping round.
module _ (w : Patch) (c : ℕ) (o : Option Blob) (r : ℕ)
    (fits : w.offset + length w.content < u64_mod) (bound : length (or_else o []) ≤ w.chunk_size)
    (inside : r < w.chunk_size) (begins : w.offset < c * w.chunk_size + w.chunk_size)
    (ends : c * w.chunk_size < w.offset + length w.content) where
  abbrev base : ℕ
  base = c * w.chunk_size

  end_lem : write_end w ≡ w.offset + length w.content
  end_lem = omega (arith, fits)

  data_start_lem : data_start w c ≡ w.offset - base
  data_start_lem = ground arith

  src_start_lem : src_start w c ≡ base - w.offset
  src_start_lem = ground arith

  data_end_lem : data_end w c ≡ min w.chunk_size (w.offset + length w.content - base)
  data_end_lem = ap (λ n. min w.chunk_size (n - base)) end_lem

  src_len_lem : src_end w c - src_start w c ≡ data_end w c - data_start w c
  src_len_lem = omega (arith, data_start_lem, src_start_lem, data_end_lem, begins, ends)

  abbrev piece : Blob
  piece = take (src_end w c - src_start w c) (drop (src_start w c) w.content)

  length-piece : length (piece) ≡ data_end w c - data_start w c
  length-piece =
      let t = length-take (src_end w c - src_start w c) (drop (src_start w c) w.content) in
      let d = length-drop (src_start w c) w.content in
      omega (arith, t, d, src_len_lem, data_start_lem, src_start_lem, data_end_lem, begins, ends)

  abbrev chunk : Blob
  chunk =
      if ltb 0 (data_start w c) || ltb (data_end w c) w.chunk_size
      then resize w.chunk_size (or_else o [])
      else zeros w.chunk_size

  length-resize : length (resize w.chunk_size (or_else o [])) ≡ w.chunk_size
  length-resize =
      let a =
        length-append (take w.chunk_size (or_else o []))
          (zeros (w.chunk_size - length (or_else o []))) in
      let b = length-take w.chunk_size (or_else o []) in
      let z = length-replicate (w.chunk_size - length (or_else o [])) zero in
      omega (arith, a, b, z, bound)

  length-chunk : length (chunk) ≡ w.chunk_size
  length-chunk = elim (Bool-cases (ltb 0 (data_start w c) || ltb (data_end w c) w.chunk_size)) [
    | inl partial ↦ rw partial length-resize
    | inr whole ↦ rw whole (length-replicate w.chunk_size 0)
  ]

  -- Where nothing is copied to, the chunk was read.
  chunk_kept :
      (r < data_start w c) ⊎ (data_end w c ≤ r) → get_or (chunk) r 0 ≡ get_or (or_else o []) r 0
  chunk_kept out =
      let partial : (ltb 0 (data_start w c) || ltb (data_end w c) w.chunk_size) ≡ true =
        has_to_read (data_start w c) (data_end w c) w.chunk_size r inside out in
      rw partial (get_or-resize w.chunk_size r (or_else o []) bound inside)

  -- The chunk with the data in it.
  abbrev filled : Blob
  filled = take (data_start w c) (chunk) ++ (piece ++ drop (data_end w c) (chunk))

  start_le_end : data_start w c ≤ data_end w c
  start_le_end = omega (arith, data_start_lem, data_end_lem, begins, ends)

  end_le_chunk : data_end w c ≤ length (chunk)
  end_le_chunk = omega (arith, data_end_lem, length-chunk)

  filled-byte : get_or (filled) r 0 ≡ (
      if within w.offset (length w.content) (base + r)
      then get_or w.content (base + r - w.offset) 0
      else get_or (or_else o []) r 0)
  filled-byte = elim (Bool-cases (ltb r (data_start w c))) [
    | inl early ↦
        let h : r < data_start w c = ltb→lt r (data_start w c) early in
        rw
          (within_not w.offset (length w.content) (base + r)
            (inl (omega (arith, data_start_lem, h))))
          (copied_before (chunk) (piece) (data_start w c) (data_end w c) r start_le_end end_le_chunk
              length-piece h
            ∙ chunk_kept (inl h))
    | inr started ↦ elim (Bool-cases (ltb r (data_end w c))) [
      | inl here ↦
          let h : data_start w c ≤ r = not_lt r (data_start w c) started in
          let k : r < data_end w c = ltb→lt r (data_end w c) here in
          let e : src_start w c + (r - data_start w c) ≡ base + r - w.offset =
            omega (arith, data_start_lem, src_start_lem, h) in
          rw
            (within_yes w.offset (length w.content) (base + r) (omega (arith, data_start_lem, h))
              (omega (arith, data_end_lem, k)))
            (copied_within (chunk) (piece) (data_start w c) (data_end w c) r start_le_end
                end_le_chunk length-piece h k
              ∙ (get_or-take (src_end w c - src_start w c) (drop (src_start w c) w.content)
                    (r - data_start w c) 0 (omega (arith, src_len_lem, h, k))
                  ∙ (get_or-drop (src_start w c) w.content (r - data_start w c) 0
                      ∙ ap (λ n. get_or w.content n 0) e)))
      | inr late ↦
          let h : data_end w c ≤ r = not_lt r (data_end w c) late in
          rw
            (within_not w.offset (length w.content) (base + r)
              (inr (omega (arith, data_end_lem, h, inside))))
            (copied_behind (chunk) (piece) (data_start w c) (data_end w c) r start_le_end
                end_le_chunk length-piece h
              ∙ chunk_kept (inr h))
    ]
  ]

  -- What is cut off at the end of the last chunk is zero anyway.
  pub patch_chunk-byte :
      (w.current_size ≤ base + r → get_or (or_else o []) r 0 ≡ 0)
      → ((c == end_chunk w) ≡ false → base + w.chunk_size ≤ w.offset + length w.content)
      → get_or (patch_chunk w c o) r 0 ≡ (
          if within w.offset (length w.content) (base + r)
          then get_or w.content (base + r - w.offset) 0
          else get_or (or_else o []) r 0)
  unfolding patch_chunk
  patch_chunk-byte clear full = elim (Bool-cases (ltb r (actual_len w c))) [
    | inl saved ↦
        get_or-take (actual_len w c) (filled) r 0 (ltb→lt r (actual_len w c) saved) ∙ filled-byte
    | inr cut ↦
        let le : actual_len w c ≤ r = not_lt r (actual_len w c) cut in
        let t = length-take (actual_len w c) (filled) in
        let gone = get_or_past (take (actual_len w c) (filled)) r 0 (omega (arith, t, le)) in
        elim (Bool-cases (c == end_chunk w)) [
          | inl at_end ↦
              let le' = rw at_end at le in
              let (e, cur) = cut_lem (write_end w) base w.current_size w.chunk_size r le' inside in
              rw
                (within_not w.offset (length w.content) (base + r)
                  (inr (omega (arith, end_lem, e))))
                (gone ∙ sym (clear cur))
          | inr other ↦ absurd (omega (arith, rw other at le, inside))
        ]
  ]
