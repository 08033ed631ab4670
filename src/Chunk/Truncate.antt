-- ===== src/Chunk/Truncate.antt =====
-- `truncate`: the bytes below the new size stay, and all others are zero.
use native.Mathlib.Nat.{div-add-mod', mod-lt, le-div_iff_mul-le, div-lt_iff_lt-mul}
use agentfs.Base.{
  ℕ, ◌+◌, ◌-◌, ◌*◌, ◌/◌, ◌%◌, ◌≤◌, ◌<◌, ◌≡◌, ◌≢◌, refl, ap, inl, inr, Option, none, some, [], arith,
  length, take, get_or, or_else, Blob, length-take, ltb, ◌==◌, if◌then◌else◌, true, false,
  Bool-cases, get_or_past, get_or-take,
}
use agentfs.Chunk.{Chunks, i64_max, u64_mod, signed_place, cut_chunk, truncate}
use agentfs.Chunk.Content.{byte_at, IsBounded, IsClear}

cut_chunk-bytes :
    (off : ℕ) (old : Option Blob) (k : ℕ)
    → get_or (or_else (cut_chunk off old) []) k 0
      ≡ (if ltb k off then get_or (or_else old []) k 0 else 0)
unfolding cut_chunk
cut_chunk-bytes off none k = ground arith
cut_chunk-bytes off (some d) k =
    let lt = length-take off d in
    ground (arith, get_or-take off d k 0, get_or_past (take off d) k 0, get_or_past d k 0)

length-cut_chunk :
    (off : ℕ) (old : Option Blob)
    → length (or_else (cut_chunk off old) []) ≤ length (or_else old [])
unfolding cut_chunk
length-cut_chunk off none = omega arith
length-cut_chunk off (some d) = ground (arith, length-take off d)

-- If no chunk is longer than a bound, none is after `truncate`.
pub truncate-IsBounded :
    (f : Chunks) (cs current new : ℕ) → IsBounded cs f → IsBounded cs (truncate cs current new f)
unfolding truncate
truncate-IsBounded f cs current new b i = ground (arith, b i, length-cut_chunk (new % cs) (f i))

-- The position of a byte against the last chunk that stays.
beyond_last : (cs new i : ℕ) → 0 < cs → 0 < new → (new - 1) / cs < i / cs → new ≤ i
beyond_last cs new i pos h lt =
    let up : new - 1 < ((new - 1) / cs + 1) * cs = (div-lt_iff_lt-mul pos).0 (omega arith) in
    let low : ((new - 1) / cs + 1) * cs ≤ i = (le-div_iff_mul-le pos).0 (omega arith) in omega arith

before_last : (cs new i : ℕ) → 0 < cs → 0 < new → i / cs < (new - 1) / cs → i < new
before_last cs new i pos h lt =
    let up : i < (new - 1) / cs * cs = (div-lt_iff_lt-mul pos).0 lt in
    let low : (new - 1) / cs * cs ≤ new - 1 = (le-div_iff_mul-le pos).0 (omega arith) in omega arith

-- In the last chunk a byte stays if it is below the cut, and every byte stays if nothing is cut.
in_last :
    (cs new i : ℕ)
    → 0 < cs
    → 0 < new
    → i / cs ≡ (new - 1) / cs
    → (0 < new % cs → ltb (i % cs) (new % cs) ≡ ltb i new) × (new % cs ≡ 0 → i < new)
in_last cs new i pos h e =
    let en : new / cs * cs + new % cs ≡ new = div-add-mod' new cs in
    let ei : i / cs * cs + i % cs ≡ i = div-add-mod' i cs in
    let eq : i / cs * cs ≡ (new - 1) / cs * cs = ap (λ (t : ℕ). t * cs) e in
    let low : (new - 1) / cs * cs ≤ new - 1 = (le-div_iff_mul-le pos).0 (omega arith) in
    let lt : i % cs < cs = mod-lt i pos in
    let up : (new - 1) / cs ≤ new / cs = (le-div_iff_mul-le pos).1 (omega arith) in
    (
      λ cut.
          let down : new / cs ≤ (new - 1) / cs = (le-div_iff_mul-le pos).1 (omega arith) in
          let same : new / cs * cs ≡ (new - 1) / cs * cs = ap (λ (t : ℕ). t * cs) (omega arith) in
          ground arith,
      λ whole.
          let more : (new - 1) / cs < new / cs = (div-lt_iff_lt-mul pos).1 (omega arith) in
          let top : ((new - 1) / cs + 1) * cs ≤ new = (le-div_iff_mul-le pos).0 (omega arith) in
          omega arith,
    )

module _ (f : Chunks) (cs current new : ℕ) (pos : 0 < cs) (clear : IsClear cs current f)
    (i : ℕ) where
  -- Shrinking to a size that is not zero.
  shrink-bytes :
      new ≢ 0
      → new < current
      → current ≤ i64_max * cs
      → byte_at (truncate cs current new f) cs i ≡ (if ltb i new then byte_at f cs i else 0)
  unfolding truncate byte_at signed_place
  shrink-bytes some_left shorter room =
      let nz : (new == 0) ≡ false = ground arith in
      let sh : ltb new current ≡ true = ground arith in
      let h : 0 < new = omega arith in
      let last : (new - 1) / cs < i64_max = (div-lt_iff_lt-mul pos).1 (omega arith) in
      elim (Bool-cases
        (ltb (((new - 1) / cs + i64_max) % u64_mod) ((i / cs + i64_max) % u64_mod))) [
          | inl gone ↦
              let more : (new - 1) / cs < i / cs = ground arith in
              let le = beyond_last cs new i pos h more in rw (nz, sh, gone) (ground arith)
          | inr kept ↦
              rw (nz, sh, kept)
                (elim (Bool-cases (i / cs == (new - 1) / cs)) [
                  | inl at ↦
                      let (cut, whole) = in_last cs new i pos h (ground arith) in
                      rw at (elim (Bool-cases (ltb 0 (new % cs))) [
                        | inl y ↦
                            rw
                              (
                                y,
                                cut_chunk-bytes (new % cs) (f (i / cs)) (i % cs),
                                cut (ground arith),
                              )
                              refl
                        | inr n ↦ let lt = whole (ground arith) in rw n (ground arith)
                      ])
                  | inr ne ↦ rw ne (elim (Bool-cases (ltb (i / cs) i64_max)) [
                    | inl low ↦ let lt = before_last cs new i pos h (ground arith) in ground arith
                    | inr negative ↦
                        let up : i64_max * cs ≤ i = (le-div_iff_mul-le pos).0 (ground arith) in
                        ground (arith, clear i (omega arith))
                  ])
                ])
        ]

  -- After `truncate` the bytes below the new size are as before, and all others are zero, whether
  -- the file shrinks, grows or becomes empty; before, the bytes past its size are zero.
  pub truncate-bytes :
      current ≤ i64_max * cs
      → byte_at (truncate cs current new f) cs i ≡ (if ltb i new then byte_at f cs i else 0)
  unfolding truncate byte_at
  truncate-bytes room = elim (Bool-cases (new == 0)) [
    | inl empty ↦ rw empty (ground arith)
    | inr some_left ↦ elim (Bool-cases (ltb new current)) [
      | inl shorter ↦ shrink-bytes (ground arith) (ground arith) room
      | inr longer ↦ rw (some_left, longer) (ground (arith, clear i))
    ]
  ]
