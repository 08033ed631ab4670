-- ===== src/Chunk/Write.antt =====
-- `write_data_at_offset_with_conn`: the loop ends, and afterwards the file holds the written bytes
-- at their place and its old bytes elsewhere.
use native.Mathlib.Nat.{div-add-mod', mod-lt, mod-eq_of_lt, le-div_iff_mul-le, div-lt_iff_lt-mul}
use agentfs.Base.{
  ℕ, zero, suc, ◌+◌, ◌-◌, ◌*◌, ◌/◌, ◌%◌, ◌≤◌, ◌<◌, min, ◌≡◌, ◌≢◌, refl, ap, ◌∙◌, ◌⊎◌, inl, inr,
  Option, some, [], ◌++◌, arith, length, take, drop, get_or, or_else, Blob, length-append,
  length-replicate, length-take, length-drop, ltb, leb, ◌==◌, if◌then◌else◌, Bool, true, false,
  ◌&&◌, Bool-cases, get_or_past, get_or-append_left, get_or-append_right, get_or-take, get_or-drop,
  get_or-replicate,
}
use agentfs.Chunk.{Chunks, put, zeros, write_chunk, write_loop, write_at, u64_mod}
use agentfs.Chunk.Content.{byte_at, IsBounded}

-- Whether a position lies in a range of `n` positions.
abbrev pub within : ℕ → ℕ → ℕ → Bool
within o n i = leb o i && ltb i (o + n)

get_or-extend : (xs : Blob) (n k : ℕ) → get_or (xs ++ zeros n) k 0 ≡ get_or xs k 0
get_or-extend xs n k = elim (Bool-cases (ltb k (length xs))) [
  | inl lt ↦ get_or-append_left xs (zeros n) k 0 (ground arith)
  | inr ge ↦
      let le : length xs ≤ k = ground arith in
      rw (
        get_or-append_right xs (zeros n) k 0 le,
        get_or-replicate {A = ℕ} n (k - length xs) 0,
        get_or_past xs k 0 le,
      )
]

-- A piece over the bytes of a chunk that is long enough for it.
get_or-splice :
    (c piece : Blob) (off k : ℕ)
    → off + length piece ≤ length c
    → get_or (take off c ++ (piece ++ drop (off + length piece) c)) k 0
      ≡ (if within off (length piece) k then get_or piece (k - off) 0 else get_or c k 0)
get_or-splice c piece off k h =
    let lt : length (take off c) ≡ off = omega (arith, length-take off c) in
    elim (Bool-cases (ltb k off)) [
      | inl before ↦
          get_or-append_left (take off c) _ k 0 (ground arith)
          ∙ (get_or-take off c k 0 (ground arith) ∙ ground arith)
      | inr from ↦
          get_or-append_right (take off c) (piece ++ drop (off + length piece) c) k 0 (ground arith)
          ∙ rw lt (inside (Bool-cases (ltb (k - off) (length piece))) (ground arith))
    ]
  where
    inside :
        (ltb (k - off) (length piece) ≡ true) ⊎ (ltb (k - off) (length piece) ≡ false)
        → off ≤ k
        → get_or (piece ++ drop (off + length piece) c) (k - off) 0
          ≡ (if within off (length piece) k then get_or piece (k - off) 0 else get_or c k 0)
    inside (inl lt) le =
        get_or-append_left piece (drop (off + length piece) c) (k - off) 0 (ground arith)
        ∙ ground arith
    inside (inr ge) le =
        let e : off + length piece + (k - off - length piece) ≡ k = ground arith in
        get_or-append_right piece (drop (off + length piece) c) (k - off) 0 (ground arith)
        ∙ (get_or-drop (off + length piece) c (k - off - length piece) 0 ∙ rw e (ground arith))

length-splice :
    (c piece : Blob) (off : ℕ)
    → off + length piece ≤ length c
    → length (take off c ++ (piece ++ drop (off + length piece) c)) ≡ length c
length-splice c piece off h = omega (
  arith,
  length-append (take off c) (piece ++ drop (off + length piece) c),
  length-append piece (drop (off + length piece) c),
  length-take off c,
  length-drop (off + length piece) c,
)

-- The saved chunk holds the piece at its place and the old bytes elsewhere.
write_chunk-bytes :
    (cs : ℕ) (old : Option Blob) (off : ℕ) (piece : Blob) (k : ℕ)
    → off + length piece ≤ cs
    → length (or_else old []) ≤ cs
    → get_or (write_chunk cs old off piece) k 0 ≡ (
        if within off (length piece) k
        then get_or piece (k - off) 0
        else get_or (or_else old []) k 0)
unfolding write_chunk
write_chunk-bytes cs old off piece k h b =
    let c = or_else old [] in
    let n = off + length piece - length c in
    let grown = length-append c (zeros n) in
    let lz = length-replicate {A = ℕ} n 0 in
    elim (Bool-cases (length piece == cs)) [
      | inl whole ↦
          let e : off ≡ 0 = ground arith in
          rw (whole, e) (ground (arith, get_or_past piece k 0, get_or_past c k 0))
      | inr part ↦ rw part (elim (Bool-cases (ltb (length c) (off + length piece))) [
        | inl short ↦
            rw short
              (get_or-splice (c ++ zeros n) piece off k (ground arith) ∙ rw (get_or-extend c n k))
        | inr long ↦ rw long (get_or-splice c piece off k (ground arith))
      ])
    ]

length-write_chunk :
    (cs : ℕ) (old : Option Blob) (off : ℕ) (piece : Blob)
    → off + length piece ≤ cs
    → length (or_else old []) ≤ cs
    → length (write_chunk cs old off piece) ≤ cs
unfolding write_chunk
length-write_chunk cs old off piece h b =
    let c = or_else old [] in
    let n = off + length piece - length c in
    let grown = length-append c (zeros n) in
    let lz = length-replicate {A = ℕ} n 0 in
    elim (Bool-cases (length piece == cs)) [
      | inl whole ↦ rw whole (ground arith)
      | inr part ↦ rw part (elim (Bool-cases (ltb (length c) (off + length piece))) [
        | inl short ↦
            rw (short, length-splice (c ++ zeros n) piece off (ground arith)) (ground arith)
        | inr long ↦ rw (long, length-splice c piece off (ground arith)) b
      ])
    ]

-- Whether two positions lie in one chunk, and where.
same_chunk :
    (cs cur i n : ℕ)
    → 0 < cs
    → cur % cs + n ≤ cs
    → i / cs ≡ cur / cs
    → (within (cur % cs) n (i % cs) ≡ within cur n i) × (i % cs - cur % cs ≡ i - cur)
same_chunk cs cur i n pos fits e =
    let ei : i / cs * cs + i % cs ≡ i = div-add-mod' i cs in
    let ec : cur / cs * cs + cur % cs ≡ cur = div-add-mod' cur cs in
    let eq : i / cs * cs ≡ cur / cs * cs = ap (λ (t : ℕ). t * cs) e in (ground arith, omega arith)

other_chunk :
    (cs cur i n : ℕ) → 0 < cs → cur % cs + n ≤ cs → i / cs ≢ cur / cs → within cur n i ≡ false
other_chunk cs cur i n pos fits ne =
    let ec : cur / cs * cs + cur % cs ≡ cur = div-add-mod' cur cs in
    elim (Bool-cases (ltb (i / cs) (cur / cs))) [
      | inl lt ↦
          let below : i < cur / cs * cs = (div-lt_iff_lt-mul pos).0 (ground arith) in ground arith
      | inr ge ↦
          let above : (cur / cs + 1) * cs ≤ i = (le-div_iff_mul-le pos).0 (ground arith) in
          ground arith
    ]

-- One round of the loop: the piece at its place in the file, the old bytes elsewhere.
put-write_chunk :
    (f : Chunks) (cs cur : ℕ) (piece : Blob) (i : ℕ)
    → 0 < cs
    → cur % cs + length piece ≤ cs
    → IsBounded cs f
    → byte_at (put f (cur / cs) (write_chunk cs (f (cur / cs)) (cur % cs) piece)) cs i
      ≡ (if within cur (length piece) i then get_or piece (i - cur) 0 else byte_at f cs i)
unfolding byte_at
put-write_chunk f cs cur piece i pos fits b = elim (Bool-cases (cur / cs == i / cs)) [
  | inl here ↦
      let e : i / cs ≡ cur / cs = ground arith in
      let (wi, at) = same_chunk cs cur i (length piece) pos fits e in
      let w = write_chunk-bytes cs (f (cur / cs)) (cur % cs) piece (i % cs) fits (b (cur / cs)) in
      rw (here, w, wi, at, e) refl
  | inr there ↦
      let ne : i / cs ≢ cur / cs = ground arith in
      rw (there, other_chunk cs cur i (length piece) pos fits ne) refl
]

put-IsBounded :
    (f : Chunks) (cs j : ℕ) (d : Blob) → IsBounded cs f → length d ≤ cs → IsBounded cs (put f j d)
put-IsBounded f cs j d b h i = elim (Bool-cases (j == i)) [ inl e ↦ rw e h | inr ne ↦ rw ne (b i) ]

-- The bytes of a file after `data'` is written at `offset`.
abbrev pub IsSpliced : Chunks → ℕ → ℕ → Blob → Chunks → Type 0
IsSpliced f cs offset data' f' =
    (i : ℕ)
    → byte_at f' cs i
      ≡ (if within offset (length data') i then get_or data' (i - offset) 0 else byte_at f cs i)

-- The bytes of this round and those of the later rounds.
rounds_join :
    (offset written n l len i new saved old : ℕ)
    → l ≡ n
    → written + n ≤ len
    → (within (offset + written) l i ≡ true → saved ≡ new)
    → (if within (offset + (written + n)) (len - (written + n)) i
        then new
        else if within (offset + written) l i
        then saved
        else old)
      ≡ (if within (offset + written) (len - written) i then new else old)
rounds_join offset written n l len i new saved old e h same =
    elim (Bool-cases (within (offset + written) l i)) [
      | inl here ↦ rw (here, same here) (ground arith)
      | inr other ↦ rw other (ground arith)
    ]

module _ (cs offset : ℕ) (data' : Blob) (pos : 0 < cs)
    (fits : offset + length data' < u64_mod) where
  piece_of : ℕ → Blob
  piece_of written =
      take (min (cs - (offset + written) % cs) (length data' - written)) (drop written data')

  length-piece_of :
      (written : ℕ)
      → length (piece_of written) ≡ min (cs - (offset + written) % cs) (length data' - written)
  unfolding piece_of
  length-piece_of written = omega (
    arith,
    length-take (min (cs - (offset + written) % cs) (length data' - written)) (drop written data'),
    length-drop written data',
  )

  get_or-piece_of :
      (written k : ℕ)
      → k < length (piece_of written)
      → get_or (piece_of written) k 0 ≡ get_or data' (written + k) 0
  unfolding piece_of
  get_or-piece_of written k h =
      let n = min (cs - (offset + written) % cs) (length data' - written) in
      get_or-take n (drop written data') k 0 (rw (length-piece_of written) at h)
      ∙ get_or-drop written data' k 0

  -- The loop from `written` on ends, and writes the rest of the data.
  write_loop-bytes :
      (fuel written : ℕ) (f : Chunks)
      → length data' - written < fuel
      → IsBounded cs f
      → (f' : Chunks) × (write_loop fuel cs offset data' written f ≡ some f')
        × IsBounded cs f'
        × ((i : ℕ)
            → byte_at f' cs i ≡ (
                if within (offset + written) (length data' - written) i
                then get_or data' (i - offset) 0
                else byte_at f cs i))
  unfolding write_loop piece_of
  write_loop-bytes zero written f h b = absurd (omega arith)
  write_loop-bytes (suc fuel) written f h b = elim (Bool-cases (ltb written (length data'))) [
    | inl more ↦
        let cur = offset + written in
        let piece = piece_of written in
        let no_wrap : (offset + written) % u64_mod ≡ offset + written =
          mod-eq_of_lt (ground arith) in
        let n = min (cs - cur % cs) (length data' - written) in
        let lp = length-piece_of written in
        let lt = mod-lt cur pos in
        let saved = write_chunk cs (f (cur / cs)) (cur % cs) piece in
        let fits : cur % cs + length piece ≤ cs = omega arith in
        let b' =
          put-IsBounded f cs (cur / cs) saved b
            (length-write_chunk cs (f (cur / cs)) (cur % cs) piece fits (b (cur / cs))) in
        let (f', ran, bound, at) =
          write_loop-bytes fuel (written + n) (put f (cur / cs) saved) (ground arith) b' in
        (
          f',
          rw more (
              ap
                (λ c.
                  let m = min (cs - c % cs) (length data' - written) in
                  write_loop fuel cs offset data' (written + m) (
                    put f (c / cs)
                      (write_chunk cs (f (c / cs)) (c % cs) (take m (drop written data')))))
                no_wrap
              ∙ ran),
          bound,
          λ i.
              at i
              ∙ rw (put-write_chunk f cs cur piece i pos fits b) (
                  rounds_join offset written n (length piece) (length data') i _ _ _ lp
                    (ground arith)
                    λ inside.
                      let k : offset ≤ i = ground arith in
                      let e : written + (i - cur) ≡ i - offset = ground arith in
                      get_or-piece_of written (i - cur) (ground arith)
                      ∙ ap (λ j. get_or data' j 0) e),
        )
    | inr done ↦ (f, rw done, b, λ i. ground arith)
  ]

-- Writing ends, within one round for each byte, keeps every chunk within the chunk size, and leaves
-- the data at the offset and every other byte as it was, for a positive chunk size and an end of the
-- data below 2 ^ 64.
pub write_at-bytes :
    (f : Chunks) (cs offset : ℕ) (data' : Blob)
    → 0 < cs
    → offset + length data' < u64_mod
    → IsBounded cs f
    → (f' : Chunks) × (write_at cs offset data' f ≡ some f')
      × IsBounded cs f'
      × IsSpliced f cs offset data' f'
unfolding write_at
write_at-bytes f cs offset data' pos fits b = elim (Bool-cases (length data' == 0)) [
  | inl empty ↦ (f, rw empty, b, λ i. ground arith)
  | inr some_data ↦
      let (f', ran, bound, at) =
        write_loop-bytes cs offset data' pos fits (length data' + 1) 0 f (omega arith) b in
      (f', rw some_data ran, bound, λ i. at i ∙ ground arith)
]
