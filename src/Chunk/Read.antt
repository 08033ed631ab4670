-- ===== src/Chunk/Read.antt =====
-- `pread` returns the bytes of the file: the loop over rows against the reference.
use native.Mathlib.Nat.{
  div-mul-le_self, lt-div-mul-add, div-add-mod', mod-lt, le-div_iff_mul-le, div-lt_iff_lt-mul,
}
use native.Mathlib.Nat.{le_refl}
use agentfs.Base.{
  ℕ, zero, suc, ◌+◌, ◌-◌, ◌*◌, ◌/◌, ◌%◌, ◌≤◌, ◌<◌, min, ◌≡◌, refl, sym, ap, ◌∙◌, inl, inr, none,
  some, [], ◌++◌, append_assoc, append-nil, arith, length, take, drop, or_else, Blob, length-append,
  length-take, length-drop, ltb, leb, ◌==◌, if◌then◌else◌, Bool, true, false, Bool-cases,
  Option-cases,
}
use agentfs.Chunk.{
  Chunks, Request, start_chunk, skip_of, zeros, select_range, select_from, signed_place, i64_max,
  u64_mod, fill_gap, read_chunk, read_rows, pad, pread,
}
use agentfs.Chunk.Content.{
  bytes, window, IsBounded, length-bytes, bytes-add, window-add, window-zero, bytes_clear,
  bytes-zero, byte_at_missing, window_past, window-take-drop, bytes-window,
}

if_zeros :
    (b : Bool) (xs : Blob) (n m : ℕ)
    → (b ≡ true → n ≡ m)
    → (b ≡ false → m ≡ 0)
    → (if b then xs ++ zeros n else xs) ≡ xs ++ zeros m
if_zeros true xs n m h k = rw (h refl)
if_zeros false xs n m h k = rw (k refl, append-nil)

-- The window of a chunk from `skip` on: what the chunk has, and zeros behind its end.
window_split :
    (skip t z : ℕ) (chunk : Blob)
    → skip + t ≤ length chunk
    → (0 < z → length chunk ≤ skip + t)
    → window chunk skip (t + z) ≡ take t (drop skip chunk) ++ zeros z
window_split skip t zero chunk h k =
    let e : t + 0 ≡ t = omega arith in rw (e, append-nil) (window-take-drop chunk skip t h)
window_split skip t (suc z) chunk h k = rw (
  window-add chunk skip t (suc z),
  window-take-drop chunk skip t h,
  window_past chunk (skip + t) (suc z) (k (omega arith)),
)

length-slice :
    (chunk : Blob) (skip t : ℕ) → t ≤ length chunk - skip → length (take t (drop skip chunk)) ≡ t
length-slice chunk skip t h = omega (arith, length-take t (drop skip chunk), length-drop skip chunk)

-- One row gives the window of the chunk that still fits.
read_chunk-window :
    (q : Request) (skip : ℕ) (chunk result : Blob)
    → length chunk ≤ q.chunk_size
    → read_chunk q skip chunk result
      ≡ result ++ window chunk skip (min (q.chunk_size - skip) (q.size - length result))
unfolding read_chunk
read_chunk-window q skip chunk result h = elim (Bool-cases (leb (length chunk) skip)) [
  | inl short ↦
      rw
        (
          short,
          window_past chunk skip (min (q.chunk_size - skip) (q.size - length result))
              (ground arith),
        )
        refl
  | inr long ↦
      let r = q.size - length result in
      let t = min (length chunk - skip) r in
      let piece = take t (drop skip chunk) in
      let lp : length piece ≡ t = length-slice chunk skip t (omega arith) in
      let lr : length (result ++ piece) ≡ length result + t =
        omega (arith, length-append result piece, lp) in
      let z = min (q.chunk_size - skip) r - t in
      let e : min (q.chunk_size - skip) r ≡ t + z = omega arith in
      rw (long, e, window_split skip t z chunk (ground arith) (λ m. omega arith), ← append_assoc)
        (if_zeros _ (result ++ piece) _ z (λ b. rw lr (omega arith)) (λ b. ground arith))
]

-- How many bytes of the request lie below a chunk.
abbrev below : Request → ℕ → ℕ
below q i = min q.size (i * q.chunk_size - q.offset)

-- The result of the loop when it reaches a chunk.
abbrev IsRead : Request → Chunks → ℕ → Blob → Type 0
IsRead q f i result = result ≡ bytes f q.chunk_size q.offset (below q i)

reach_step :
    (cs o size i skip l : ℕ)
    → o + min size (i * cs - o) ≡ i * cs + skip
    → i * cs - o < size
    → l ≡ min size (i * cs - o)
    → skip < cs
    → min size ((i + 1) * cs - o) ≡ min size (i * cs - o) + min (cs - skip) (size - l)
reach_step cs o size i skip l at h e lt = omega arith

-- One more missing chunk.
missing :
    {f : Chunks} (i next : ℕ)
    → ((k : ℕ) → next ≤ k → k < i → f k ≡ none)
    → f i ≡ none
    → (k : ℕ) → next ≤ k
    → k < i + 1
    → f k ≡ none
missing i next gap gone k lo hi = elim (Bool-cases (ltb k i)) [
  | inl lt ↦ gap k lo (ground arith)
  | inr ge ↦ let e : k ≡ i = ground arith in rw e gone
]

-- The rows that `pread` selects reach to the end of the request.
rows_reach : (cs o n : ℕ) → 0 < cs → o + n ≤ (o / cs + ((o + n - 1) / cs + 1 - o / cs)) * cs
rows_reach cs o n pos =
    let last : o + n - 1 < (o + n - 1) / cs * cs + cs = lt-div-mul-add pos in
    let more : (o + n - 1) / cs + 1 ≤ o / cs + ((o + n - 1) / cs + 1 - o / cs) = omega arith in
    let mono : ((o + n - 1) / cs + 1) * cs ≤ (o / cs + ((o + n - 1) / cs + 1 - o / cs)) * cs =
      grind arith in
    omega arith

module _ (q : Request) (f : Chunks) (pos : 0 < q.chunk_size) where
  -- The next position is the skip of the next chunk, unless the request is done.
  next_position :
      (i : ℕ)
      → start_chunk q ≤ i
      → i * q.chunk_size - q.offset < q.size
      → q.offset + below q i ≡ i * q.chunk_size + skip_of q i
  next_position i h k =
      let s = start_chunk q in
      let low : s * q.chunk_size ≤ q.offset = div-mul-le_self q.offset q.chunk_size in
      let split : s * q.chunk_size + q.offset % q.chunk_size ≡ q.offset =
        div-add-mod' q.offset q.chunk_size in
      let high : q.offset < s * q.chunk_size + q.chunk_size = lt-div-mul-add pos in
      elim (Bool-cases (i == s)) [
        | inl e ↦ let e' : i ≡ s = ground arith in rw (e, e') (omega arith)
        | inr ne ↦ let lt : s < i = ground arith in rw ne (grind arith)
      ]

  skip-lt : (i : ℕ) → skip_of q i < q.chunk_size
  skip-lt i = ground (arith, mod-lt q.offset pos)

  length-IsRead : (i : ℕ) (result : Blob) → IsRead q f i result → length result ≡ below q i
  length-IsRead i result r = rw r (length-bytes f q.chunk_size q.offset (below q i))

  -- A chunk's window extends what was read to the next chunk.
  window-IsRead :
      (i : ℕ) (result : Blob)
      → start_chunk q ≤ i
      → IsRead q f i result
      → IsRead q f (i + 1) (
          result
          ++ window
              (or_else (f i) [])
              (skip_of q i)
              (min (q.chunk_size - skip_of q i) (q.size - length result)))
  window-IsRead i result h r = elim (Bool-cases (ltb (i * q.chunk_size - q.offset) q.size)) [
    | inl more ↦
        let skip = skip_of q i in
        let n = min (q.chunk_size - skip) (q.size - length result) in
        let at = next_position i h (ground arith) in
        let len = length-IsRead i result r in
        let lt = skip-lt i in
        let e : below q (i + 1) ≡ below q i + n =
          reach_step q.chunk_size q.offset q.size i skip (length result) at (ground arith) len lt in
        rw (e, bytes-add f q.chunk_size q.offset (below q i) n, at, ← r)
          (ap (◌++◌ result) (sym (bytes-window f q.chunk_size i skip n (omega arith))))
    | inr done ↦
        let len = length-IsRead i result r in
        let full : q.size ≤ i * q.chunk_size - q.offset = ground arith in
        let e : min (q.chunk_size - skip_of q i) (q.size - length result) ≡ 0 = omega arith in
        let e' : below q (i + 1) ≡ below q i = omega arith in rw (e, e', window-zero, append-nil) r
  ]

  -- A missing chunk is read as zeros.
  gap-IsRead :
      (i : ℕ) (result : Blob)
      → f i ≡ none
      → start_chunk q ≤ i
      → IsRead q f i result
      → IsRead q f
          (i + 1)
          (result ++ zeros (min (q.chunk_size - skip_of q i) (q.size - length result)))
  gap-IsRead i result gone h r =
      let w = window-IsRead i result h r in
      rw
        (← window_past [] (skip_of q i) (min (q.chunk_size - skip_of q i) (q.size - length result))
          (omega arith))
        (rw gone at w)

  -- So are all that a gap holds.
  fill_gap-IsRead :
      (rounds next : ℕ) (result : Blob)
      → ((k : ℕ) → next ≤ k → k < next + rounds → f k ≡ none)
      → start_chunk q ≤ next
      → IsRead q f next result
      → IsRead q f (next + rounds) (fill_gap q rounds next result)
  unfolding fill_gap
  fill_gap-IsRead zero next result gap h r = let e : next + 0 ≡ next = omega arith in rw e r
  fill_gap-IsRead (suc rounds) next result gap h r =
      let n = min (q.chunk_size - skip_of q next) (q.size - length result) in
      let gone = gap next (omega arith) (omega arith) in
      let step : IsRead q f (next + 1) (result ++ zeros n) = gap-IsRead next result gone h r in
      let e : next + suc rounds ≡ next + 1 + rounds = omega arith in
      elim (Bool-cases (ltb (length result) q.size)) [
        | inl more ↦
            rw (more, e)
              (fill_gap-IsRead rounds (next + 1) (result ++ zeros n)
                (λ k a b. gap k (omega arith) (omega arith)) (omega arith) step)
        | inr done ↦
            let len = length-IsRead next result r in
            let e' : below q (next + suc rounds) ≡ below q next = ground arith in rw (done, e') r
      ]

  -- With every chunk missing up to the end of the request, padding completes the result.
  pad-IsRead :
      (next i : ℕ) (result : Blob)
      → ((k : ℕ) → next ≤ k → k < i → f k ≡ none)
      → q.offset + q.size ≤ i * q.chunk_size
      → IsRead q f next result
      → pad q.size result ≡ bytes f q.chunk_size q.offset q.size
  unfolding pad
  pad-IsRead next i result gap fits r =
      let a = below q next in
      let m = q.size - a in
      let len = length-IsRead next result r in
      let e : q.size ≡ a + m = omega arith in
      let clear : bytes f q.chunk_size (q.offset + a) m ≡ zeros m =
        bytes_clear f q.chunk_size (q.offset + a) m λ p lo hi. byte_at_missing f q.chunk_size p (
          gap (p / q.chunk_size) ((le-div_iff_mul-le pos).1 (omega arith))
            ((div-lt_iff_lt-mul pos).1 (omega arith))) in
      if_zeros (ltb (length result) q.size) result (q.size - length result) m (λ b. omega arith)
        (λ b. ground arith)
      ∙ (ap (λ t. t ++ zeros m) r
          ∙ sym (
              ap (bytes f q.chunk_size q.offset) e
              ∙ (bytes-add f q.chunk_size q.offset a m
                  ∙ ap (◌++◌ (bytes f q.chunk_size q.offset a)) clear)))

  found-IsRead :
      (i : ℕ) (d result : Blob)
      → IsBounded q.chunk_size f
      → f i ≡ some d
      → start_chunk q ≤ i
      → IsRead q f i result
      → IsRead q f (i + 1) (read_chunk q (skip_of q i) d result)
  found-IsRead i d result b found h r =
      let w = window-IsRead i result h r in
      let bound : length d ≤ q.chunk_size = rw found at (b i) in
      rw (read_chunk-window q (skip_of q i) d result bound) (rw found at w)

  -- From the rows of the chunks between `i` and `i + n`, with all chunks from `next` to `i` missing,
  -- the loop and the final padding give the bytes of the request.
  pad-read_rows :
      (n i next : ℕ) (result : Blob)
      → IsBounded q.chunk_size f
      → ((k : ℕ) → next ≤ k → k < i → f k ≡ none)
      → start_chunk q ≤ next
      → next ≤ i
      → i + n ≤ i64_max
      → q.offset + q.size ≤ (i + n) * q.chunk_size
      → IsRead q f next result
      → pad q.size (read_rows q (select_from f i n) next result)
        ≡ bytes f q.chunk_size q.offset q.size
  unfolding select_from read_rows
  pad-read_rows zero i next result b gap h le room fits r =
      pad-IsRead next i result gap (omega arith) r
  pad-read_rows (suc n) i next result b gap h le room fits r = elim (Option-cases (f i)) [
    | inl gone ↦
        let plain : (i + 1) % u64_mod ≡ i + 1 = omega arith in
        rw (gone, select_from, plain)
          (pad-read_rows n (i + 1) next result b (missing i next gap gone) h (omega arith)
            (omega arith) (omega arith) r)
    | inr (d, found) ↦
        let e : next + (i - next) ≡ i = omega arith in
        let filled : IsRead q f i (fill_gap q (i - next) next result) =
          rw e at
            (fill_gap-IsRead (i - next) next result (λ k lo hi. gap k lo (omega arith)) h r) in
        let plain : (i + 1) % u64_mod ≡ i + 1 = omega arith in
        rw (found, select_from, plain)
          (pad-read_rows n (i + 1) (i + 1) _ b (λ k lo hi. absurd (omega arith)) (omega arith)
            (omega arith) (omega arith) (omega arith)
            (found-IsRead i d _ b found (omega arith) filled))
  ]

-- Between indexes that are not negative the signed order is the order of numbers.
select_range-plain :
    (f : Chunks) (first last : ℕ)
    → first < i64_max
    → last < i64_max
    → select_range f first last ≡ select_from f first (last + 1 - first)
unfolding select_range signed_place
select_range-plain f first last h k =
    let e : (last + i64_max) % u64_mod + 1 - (first + i64_max) % u64_mod ≡ last + 1 - first =
      omega arith in
    ap (select_from f first) e

-- `pread` returns the bytes of the file from the offset on: as many as were asked for, or those up
-- to the end of the file, for a positive chunk size and chunks no longer than it. Chunks that are
-- missing or too short read as zeros. The chunks have indexes that are not negative as signed ones.
pub pread-bytes :
    (f : Chunks) (file_size cs offset size : ℕ)
    → 0 < cs
    → IsBounded cs f
    → offset + min size (file_size - offset) < i64_max * cs
    → pread f file_size cs offset size ≡ bytes f cs offset (min size (file_size - offset))
unfolding pread
pread-bytes f file_size cs offset size pos b room = elim (Bool-cases (leb file_size offset)) [
  | inl past ↦ let e : min size (file_size - offset) ≡ 0 = ground arith in rw (past, e, bytes-zero)
  | inr inside ↦
      let n = min size (file_size - offset) in
      let q : Request = record { chunk_size = cs; offset = offset; size = n } in
      let low : offset / cs * cs ≤ offset = div-mul-le_self offset cs in
      let none_yet : below q (offset / cs) ≡ 0 = omega arith in
      let first : offset / cs < i64_max = (div-lt_iff_lt-mul pos).1 (omega arith) in
      let last : (offset + n - 1) / cs < i64_max = (div-lt_iff_lt-mul pos).1 (omega arith) in
      rw (inside, select_range-plain f (offset / cs) ((offset + n - 1) / cs) first last)
        (pad-read_rows q f pos ((offset + n - 1) / cs + 1 - offset / cs) (offset / cs) (offset / cs)
          [] b (λ k lo hi. absurd (omega arith)) (le_refl (offset / cs)) (le_refl (offset / cs))
          (omega arith) (rows_reach cs offset n pos) (rw (none_yet, bytes-zero)))
]
