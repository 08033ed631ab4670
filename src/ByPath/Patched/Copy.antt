-- ===== src/ByPath/Patched/Copy.antt =====
-- A chunk that is brought to its full size and overwritten in part.
use agentfs.Base.{
  ◌⊎◌, ℕ, ◌+◌, ◌-◌, ◌≤◌, ◌<◌, ◌≡◌, ◌≢◌, sym, ◌∙◌, ap, min, max, true, false, ◌||◌, ◌++◌, length,
  take, drop, get_or, ltb, ◌==◌, if◌then◌else◌, Blob, arith, Bool-cases, inl, inr, get_or_past,
  get_or-take, get_or-drop, get_or-append_left, get_or-append_right, get_or-replicate, length-take,
}
use agentfs.Chunk.{zeros}
use agentfs.Chunk.Write.{within}
use agentfs.ByPath.Data.{resize}

pub get_or-resize :
    (n r : ℕ) (d : Blob) → length d ≤ n → r < n → get_or (resize n d) r 0 ≡ get_or d r 0
get_or-resize n r d short lt =
    let t = get_or-take n d r 0 lt in
    let len = length-take n d in
    elim (Bool-cases (ltb r (length d))) [
      | inl inside ↦
          get_or-append_left (take n d) (zeros (n - length d)) r 0 (ground (arith, len)) ∙ t
      | inr past ↦
          let le : length d ≤ r = ground arith in
          get_or-append_right (take n d) (zeros (n - length d)) r 0 (ground (arith, len))
          ∙ (get_or-replicate (n - length d) (r - length (take n d)) 0 ∙ sym (get_or_past d r 0 le))
    ]

-- A piece that is copied over the bytes from `a` to `b` of a chunk.
module _ (chunk piece : Blob) (a b r : ℕ) (before : a ≤ b) (inside : b ≤ length chunk)
    (size : length piece ≡ b - a) where
  abbrev copied : Blob
  copied = take a chunk ++ (piece ++ drop b chunk)

  pub copied_before : r < a → get_or (copied) r 0 ≡ get_or chunk r 0
  copied_before h =
      get_or-append_left (take a chunk) (piece ++ drop b chunk) r 0
        (omega (arith, length-take a chunk))
      ∙ get_or-take a chunk r 0 h

  taken : length (take a chunk) ≡ a
  taken = omega (arith, length-take a chunk)

  pub copied_within : a ≤ r → r < b → get_or (copied) r 0 ≡ get_or piece (r - a) 0
  copied_within h k =
      get_or-append_right (take a chunk) (piece ++ drop b chunk) r 0 (omega (arith, taken))
      ∙ (ap (λ n. get_or (piece ++ drop b chunk) (r - n) 0) taken
          ∙ get_or-append_left piece (drop b chunk) (r - a) 0 (omega arith))

  pub copied_behind : b ≤ r → get_or (copied) r 0 ≡ get_or chunk r 0
  copied_behind h =
      let e : b + (r - a - length piece) ≡ r = omega (arith, size) in
      get_or-append_right (take a chunk) (piece ++ drop b chunk) r 0 (omega (arith, taken))
      ∙ (ap (λ n. get_or (piece ++ drop b chunk) (r - n) 0) taken
          ∙ (get_or-append_right piece (drop b chunk) (r - a) 0 (omega arith)
              ∙ (get_or-drop b chunk (r - a - length piece) 0 ∙ ap (λ n. get_or chunk n 0) e)))

pub within_not : (o n p : ℕ) → (p < o) ⊎ (o + n ≤ p) → within o n p ≡ false
within_not o n p (inl h) = ground arith
within_not o n p (inr h) = ground arith

pub within_yes : (o n p : ℕ) → o ≤ p → p < o + n → within o n p ≡ true
within_yes o n p h k = ground arith

pub not_lt : (a b : ℕ) → ltb a b ≡ false → b ≤ a
not_lt a b h = ground arith

pub cut_lem :
    (e b cur n r : ℕ)
    → max (e - b) (if ltb b cur then min (cur - b) n else 0) ≤ r
    → r < n
    → (e ≤ b + r) × (cur ≤ b + r)
cut_lem e b cur n r h k = (omega (arith, h), ground (arith, h, k))

pub not_same : (a b : ℕ) → (a == b) ≡ false → a ≢ b
not_same a b h e = ground (arith, h, e)

pub has_to_read : (a b n r : ℕ) → r < n → (r < a) ⊎ (b ≤ r) → (ltb 0 a || ltb b n) ≡ true
has_to_read a b n r lt (inl h) = ground arith
has_to_read a b n r lt (inr h) = ground arith
