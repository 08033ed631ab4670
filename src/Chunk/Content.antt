-- ===== src/Chunk/Content.antt =====
-- What a file holds, byte by byte, whatever its chunks look like: the reference for the loops.
use native.Mathlib.Nat.{add-mul-div_right, add-mul-mod_self_right, div-eq_of_lt, mod-eq_of_lt}
use agentfs.Base.{
  ℕ, zero, suc, ◌+◌, ◌*◌, ◌/◌, ◌%◌, ◌≤◌, ◌<◌, ◌≡◌, refl, ap, ap, none, [], ◌∷◌, ◌++◌, arith, length,
  take, drop, get_or, or_else, Blob, get_or_past,
}
use agentfs.Chunk.{Chunks, zeros}

-- The byte at a position: 0 where the chunk is missing or too short.
unfoldable pub byte_at : Chunks → ℕ → ℕ → ℕ
byte_at f cs i = get_or (or_else (f (i / cs)) []) (i % cs) 0

-- The `n` bytes from a position on.
unfoldable pub bytes : Chunks → ℕ → ℕ → ℕ → Blob
bytes f cs o zero = []
bytes f cs o (suc n) = byte_at f cs o ∷ bytes f cs (o + 1) n

-- The `n` bytes of one chunk from a position in it on, zeros behind its end.
unfoldable pub window : Blob → ℕ → ℕ → Blob
window d o zero = []
window d o (suc n) = get_or d o 0 ∷ window d (o + 1) n

-- No chunk is longer than the chunk size.
abbrev pub IsBounded : ℕ → Chunks → Type 0
IsBounded cs f = (i : ℕ) → length (or_else (f i) []) ≤ cs

-- Past the size of the file every byte is zero.
abbrev pub IsClear : ℕ → ℕ → Chunks → Type 0
IsClear cs size f = (i : ℕ) → size ≤ i → byte_at f cs i ≡ 0

pub length-bytes : (f : Chunks) (cs o n : ℕ) → length (bytes f cs o n) ≡ n
unfolding bytes
length-bytes f cs o zero = refl
length-bytes f cs o (suc n) = ap suc (length-bytes f cs (o + 1) n)

pub bytes-zero : (f : Chunks) (cs o : ℕ) → bytes f cs o 0 ≡ []
unfolding bytes
bytes-zero f cs o = refl

pub bytes-add :
    (f : Chunks) (cs o a b : ℕ) → bytes f cs o (a + b) ≡ bytes f cs o a ++ bytes f cs (o + a) b
unfolding bytes
bytes-add f cs o zero b =
    let e : o + 0 ≡ o = omega arith in let e' : 0 + b ≡ b = omega arith in rw (e, e')
bytes-add f cs o (suc a) b =
    let e : suc a + b ≡ suc (a + b) = omega arith in
    let e' : o + suc a ≡ o + 1 + a = omega arith in
    rw (e, e') (ap (◌∷◌ (byte_at f cs o)) (bytes-add f cs (o + 1) a b))

pub get_or-bytes :
    (f : Chunks) (cs o n k : ℕ) → k < n → get_or (bytes f cs o n) k 0 ≡ byte_at f cs (o + k)
unfolding bytes
get_or-bytes f cs o zero k h = absurd (omega arith)
get_or-bytes f cs o (suc n) zero h = ap (byte_at f cs) (omega arith)
get_or-bytes f cs o (suc n) (suc k) h =
    let e : o + suc k ≡ o + 1 + k = omega arith in
    rw e (get_or-bytes f cs (o + 1) n k (omega arith))

-- Bytes that are all zero.
pub bytes_clear :
    (f : Chunks) (cs o n : ℕ)
    → ((p : ℕ) → o ≤ p → p < o + n → byte_at f cs p ≡ 0)
    → bytes f cs o n ≡ zeros n
unfolding bytes
bytes_clear f cs o zero h = refl
bytes_clear f cs o (suc n) h =
    rw (h o (omega arith) (omega arith))
      (ap (◌∷◌ 0) (bytes_clear f cs (o + 1) n (λ p a b. h p (omega arith) (omega arith))))

pub byte_at_missing : (f : Chunks) (cs p : ℕ) → f (p / cs) ≡ none → byte_at f cs p ≡ 0
unfolding byte_at
byte_at_missing f cs p h = rw h

pub length-window : (d : Blob) (o n : ℕ) → length (window d o n) ≡ n
unfolding window
length-window d o zero = refl
length-window d o (suc n) = ap suc (length-window d (o + 1) n)

pub window-zero : (d : Blob) (o : ℕ) → window d o 0 ≡ []
unfolding window
window-zero d o = refl

pub window-add : (d : Blob) (o a b : ℕ) → window d o (a + b) ≡ window d o a ++ window d (o + a) b
unfolding window
window-add d o zero b =
    let e : o + 0 ≡ o = omega arith in let e' : 0 + b ≡ b = omega arith in rw (e, e')
window-add d o (suc a) b =
    let e : suc a + b ≡ suc (a + b) = omega arith in
    let e' : o + suc a ≡ o + 1 + a = omega arith in
    rw (e, e') (ap (◌∷◌ (get_or d o 0)) (window-add d (o + 1) a b))

-- Behind the end of a chunk its window is zeros.
pub window_past : (d : Blob) (o n : ℕ) → length d ≤ o → window d o n ≡ zeros n
unfolding window
window_past d o zero h = refl
window_past d o (suc n) h =
    rw (get_or_past d o 0 h) (ap (◌∷◌ 0) (window_past d (o + 1) n (omega arith)))

window-cons : (x : ℕ) (d : Blob) (o n : ℕ) → window (x ∷ d) (suc o) n ≡ window d o n
unfolding window
window-cons x d o zero = refl
window-cons x d o (suc n) =
    let e : suc o + 1 ≡ suc (o + 1) = omega arith in
    rw e (ap (◌∷◌ (get_or d o 0)) (window-cons x d (o + 1) n))

-- Inside a chunk its window is a slice.
pub window-take-drop : (d : Blob) (o n : ℕ) → o + n ≤ length d → window d o n ≡ take n (drop o d)
unfolding window
window-take-drop d zero zero h = refl
window-take-drop [] zero (suc n) h = absurd (omega arith)
window-take-drop (x ∷ d) zero (suc n) h =
    let e : 0 + 1 ≡ suc 0 = refl in
    rw (e, window-cons x d 0 n) (ap (◌∷◌ x) (window-take-drop d zero n (omega arith)))
window-take-drop [] (suc o) zero h = refl
window-take-drop [] (suc o) (suc n) h = absurd (omega arith)
window-take-drop (x ∷ d) (suc o) n h =
    rw (window-cons x d o n) (window-take-drop d o n (omega arith))

-- Positions inside one chunk.
pub div_in_chunk : (cs i k : ℕ) → k < cs → (i * cs + k) / cs ≡ i
div_in_chunk cs i k h = grind (arith, add-mul-div_right k i, div-eq_of_lt h)

pub mod_in_chunk : (cs i k : ℕ) → k < cs → (i * cs + k) % cs ≡ k
mod_in_chunk cs i k h = grind (arith, add-mul-mod_self_right k i cs, mod-eq_of_lt h)

pub byte_in_chunk :
    (f : Chunks) (cs i k : ℕ) → k < cs → byte_at f cs (i * cs + k) ≡ get_or (or_else (f i) []) k 0
unfolding byte_at
byte_in_chunk f cs i k h = rw (div_in_chunk cs i k h, mod_in_chunk cs i k h)

-- Inside one chunk the bytes of the file are a window of the chunk.
pub bytes-window :
    (f : Chunks) (cs i o n : ℕ)
    → o + n ≤ cs
    → bytes f cs (i * cs + o) n ≡ window (or_else (f i) []) o n
unfolding bytes window
bytes-window f cs i o zero h = refl
bytes-window f cs i o (suc n) h =
    let e : i * cs + o + 1 ≡ i * cs + (o + 1) = omega arith in
    rw (byte_in_chunk f cs i o (omega arith), e)
      (ap (◌∷◌ (get_or (or_else (f i) []) o 0)) (bytes-window f cs i (o + 1) n (omega arith)))
