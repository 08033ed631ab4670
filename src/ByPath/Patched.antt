-- ===== src/ByPath/Patched.antt =====
-- `pwrite` by path writes the same bytes as `pwrite` of an open file.
pub mod Copy
pub mod One
use native.Mathlib.Nat.{
  div-add-mod', mod-lt, le-div_iff_mul-le, div-lt_iff_lt-mul, div-mul-le_self, lt-div-mul-add,
}
use agentfs.Base.{
  ==_iff, ltb→lt, ◌⊎◌, ℕ, zero, suc, ◌+◌, ◌-◌, ◌*◌, ◌/◌, ◌%◌, ◌≤◌, ◌<◌, ◌≡◌, ◌≢◌, refl, sym, ◌∙◌,
  ap, min, max, Bool, true, false, ◌&&◌, ◌||◌, Option, none, some, List, [], ◌∷◌, ◌++◌, length,
  take, drop, or_else, get_or, ltb, leb, ◌==◌, if◌then◌else◌, Blob, arith, Bool-cases, inl, inr,
  get_or_past, get_or-take, get_or-drop, get_or-append_left, get_or-append_right, get_or-replicate,
  length-append, length-take, length-drop, length-replicate,
}
use agentfs.Chunk.{Chunks, put, zeros, u64_mod}
use agentfs.Chunk.Content.{byte_at, IsBounded, IsClear}
use agentfs.Chunk.Write.{within, IsSpliced}
use agentfs.ByPath.Data.{
  Patch, write_end, start_chunk, end_chunk, data_start, data_end, src_start, src_end, actual_len,
  resize, patch_chunk, patch_chunks, patch,
}
use agentfs.Chunk.{write_at}
use agentfs.Chunk.Write.{write_at-bytes}
use agentfs.ByPath.Patched.Copy.{within_not, within_yes, not_lt, cut_lem, has_to_read, not_same}
use agentfs.ByPath.Patched.One.{patch_chunk-byte}

put_other : (f : Chunks) (i : ℕ) (b : Blob) (c : ℕ) → i ≢ c → put f i b c ≡ f c
put_other f i b c h = ground arith

put_self : (f : Chunks) (i : ℕ) (b : Blob) → put f i b i ≡ some b
put_self f i b = ground arith

-- Each chunk of the range is written once, from what it held before, and no other is.
patch_before : (w : Patch) (rounds i c : ℕ) (f : Chunks) → c < i → patch_chunks w rounds i f c ≡ f c
unfolding patch_chunks
patch_before w zero i c f h = refl
patch_before w (suc rounds) i c f h =
    patch_before w rounds (i + 1) c (put f i (patch_chunk w i (f i))) (omega arith)
    ∙ put_other f i (patch_chunk w i (f i)) c (λ e. omega arith)

patch_behind :
    (w : Patch) (rounds i c : ℕ) (f : Chunks) → i + rounds ≤ c → patch_chunks w rounds i f c ≡ f c
unfolding patch_chunks
patch_behind w zero i c f h = refl
patch_behind w (suc rounds) i c f h =
    patch_behind w rounds (i + 1) c (put f i (patch_chunk w i (f i))) (omega arith)
    ∙ put_other f i (patch_chunk w i (f i)) c (λ e. omega arith)

patch_within :
    (w : Patch) (rounds i c : ℕ) (f : Chunks)
    → i ≤ c
    → c < i + rounds
    → patch_chunks w rounds i f c ≡ some (patch_chunk w c (f c))
unfolding patch_chunks
patch_within w zero i c f h k = absurd (omega arith)
patch_within w (suc rounds) i c f h k =
    let b = patch_chunk w i (f i) in
    elim (Bool-cases (i == c)) [
      | inl here ↦
          let e : i ≡ c = (==_iff i c).0 here in
          patch_before w rounds (i + 1) c (put f i b) (omega arith) ∙ rw (← e) (put_self f i b)
      | inr other ↦
          let ne : i ≢ c = λ e. ground (arith, e) in
          patch_within w rounds (i + 1) c (put f i b) (ground arith) (omega arith)
          ∙ ap (λ o. some (patch_chunk w c o)) (put_other f i b c ne)
    ]

-- The chunks of the range from `off` to `e`, in chunks of `n` bytes.
module _ (n off e i : ℕ) (pos : 0 < n) (more : off < e) where
  in_order : off / n ≤ (e - 1) / n
  in_order =
      let low : off / n * n ≤ off = div-mul-le_self off n in
      (le-div_iff_mul-le pos).1 (omega (arith, low, more))

  before_start : i / n < off / n → i < off
  before_start h =
      let low : off / n * n ≤ off = div-mul-le_self off n in
      let up : i < off / n * n = (div-lt_iff_lt-mul pos).0 h in omega (arith, low, up)

  behind_end : (e - 1) / n < i / n → e ≤ i
  behind_end h =
      let low : i / n * n ≤ i = div-mul-le_self i n in
      let up : e - 1 < i / n * n = (div-lt_iff_lt-mul pos).0 h in omega (arith, low, up)

  next_chunk : (c : ℕ) → (c + 1) * n ≡ c * n + n
  next_chunk c = omega arith

  starts_before : (c : ℕ) → off / n ≤ c → off < c * n + n
  starts_before c h =
      let up : off < (c + 1) * n = (div-lt_iff_lt-mul pos).0 (omega (arith, h)) in
      rw (next_chunk c) at up

  ends_behind : (c : ℕ) → c ≤ (e - 1) / n → c * n < e
  ends_behind c h =
      let low : c * n ≤ e - 1 = (le-div_iff_mul-le pos).0 h in omega (arith, low, more)

  is_full : (c : ℕ) → c ≤ (e - 1) / n → c ≢ (e - 1) / n → c * n + n ≤ e
  is_full c h ne =
      let lt : c + 1 ≤ (e - 1) / n = omega (arith, below c ((e - 1) / n) h ne) in
      let low : (c + 1) * n ≤ e - 1 = (le-div_iff_mul-le pos).0 lt in
      omega (arith, rw (next_chunk c) at low, more)
    where
      below : (a b : ℕ) → a ≤ b → a ≢ b → a < b
      below a b h ne = ground (arith, h, ne)

module _ (w : Patch) (f : Chunks) (pos : 0 < w.chunk_size)
    (fits : w.offset + length w.content < u64_mod) (some_data : 0 < length w.content)
    (bound : IsBounded w.chunk_size f) (clear : IsClear w.chunk_size w.current_size f) where
  abbrev total_len : ℕ
  total_len = w.offset + length w.content

  total : write_end w ≡ w.offset + length w.content
  total = omega (arith, fits)

  unchanged :
      (i : ℕ)
      → patch w f (i / w.chunk_size) ≡ f (i / w.chunk_size)
      → (i < w.offset) ⊎ (w.offset + length w.content ≤ i)
      → byte_at (patch w f) w.chunk_size i ≡ (
          if within w.offset (length w.content) i
          then get_or w.content (i - w.offset) 0
          else byte_at f w.chunk_size i)
  unfolding byte_at
  unchanged i same out = rw (within_not w.offset (length w.content) i out, same) refl

  changed :
      (i : ℕ)
      → patch w f (i / w.chunk_size)
        ≡ some (patch_chunk w (i / w.chunk_size) (f (i / w.chunk_size)))
      → w.offset < i / w.chunk_size * w.chunk_size + w.chunk_size
      → i / w.chunk_size * w.chunk_size < w.offset + length w.content
      → ((i / w.chunk_size == end_chunk w) ≡ false
          → i / w.chunk_size * w.chunk_size + w.chunk_size ≤ w.offset + length w.content)
      → byte_at (patch w f) w.chunk_size i ≡ (
          if within w.offset (length w.content) i
          then get_or w.content (i - w.offset) 0
          else byte_at f w.chunk_size i)
  unfolding byte_at
  changed i saved begins ends full =
      let c = i / w.chunk_size in
      let whole : c * w.chunk_size + i % w.chunk_size ≡ i = div-add-mod' i w.chunk_size in
      let b =
        patch_chunk-byte w c (f c) (i % w.chunk_size) fits (bound c) (mod-lt i pos) begins ends in
      rw saved (rw whole at (b (λ h. clear i (rw whole at h)) full))

  -- For a positive chunk size, data that is not empty and ends below 2 ^ 64, chunks within the chunk
  -- size and zeros behind the end of the file: the chunks that `pwrite` by path saves hold the data
  -- at the offset and every other byte as it was, as those that `pwrite` of an open file saves.
  pub patch-bytes : IsSpliced f w.chunk_size w.offset w.content (patch w f)
  unfolding patch
  patch-bytes i =
      let c = i / w.chunk_size in
      let start = start_chunk w in
      let end = end_chunk w in
      let rounds = end + 1 - start in
      let n = w.chunk_size in
      let more : w.offset < total_len = omega (arith, some_data) in
      let same : end ≡ (total_len - 1) / n = ap (λ e. (e - 1) / n) total in
      let order : start ≤ end = rw same (in_order n w.offset total_len i pos more) in
      elim (Bool-cases (ltb c start)) [
        | inl before ↦
            let h : c < start = ltb→lt c start before in
            unchanged i (patch_before w rounds start c f h)
              (inl (before_start n w.offset total_len i pos more h))
        | inr later ↦ elim (Bool-cases (ltb end c)) [
          | inl behind ↦
              let h : end < c = ltb→lt end c behind in
              unchanged i (patch_behind w rounds start c f (omega (arith, h, order)))
                (inr (behind_end n w.offset total_len i pos more (rw same at h)))
          | inr here ↦
              let h : start ≤ c = not_lt c start later in
              let k : c ≤ end = not_lt end c here in
              changed i (patch_within w rounds start c f h (omega (arith, h, k, order)))
                (starts_before n w.offset total_len i pos more c h)
                (ends_behind n w.offset total_len i pos more c (rw same at k))
                (λ other.
                  is_full n w.offset total_len i pos more c (rw same at k)
                    (λ e. not_same c end other (e ∙ sym same)))
        ]
      ]

-- For a positive chunk size, data that is not empty and ends below 2 ^ 64, chunks within the chunk
-- size and zeros behind the end of the file: the write of an open file ends, and every byte of the file is then the
-- same as after the write by path.
pub patch-write_at :
    (w : Patch) (f : Chunks)
    → 0 < w.chunk_size
    → w.offset + length w.content < u64_mod
    → 0 < length w.content
    → IsBounded w.chunk_size f
    → IsClear w.chunk_size w.current_size f
    → (f' : Chunks) × (write_at w.chunk_size w.offset w.content f ≡ some f')
      × ((i : ℕ) → byte_at (patch w f) w.chunk_size i ≡ byte_at f' w.chunk_size i)
patch-write_at w f pos fits some_data bound clear =
    let (f', ran, _, spliced) = write_at-bytes f w.chunk_size w.offset w.content pos fits bound in
    (f', ran, λ i. patch-bytes w f pos fits some_data bound clear i ∙ sym (spliced i))
