-- ===== src/Overlay/Budget.antt =====
-- What an operation of the overlay does to its maps: the invariant is kept, and so many inode numbers
-- at most are given out. One rule for each way to build an action.
pub mod Lookup
pub mod Change
pub mod Remove
pub mod Listing
use agentfs.Base.{
  ℕ, ◌+◌, ◌%◌, ◌≤◌, ◌<◌, ◌≡◌, refl, Bool, true, false, Option, none, some, arith, Str,
  if◌then◌else◌, Option-cases, inl, inr,
}
use native.Mathlib.Nat.{mod-eq_of_lt}
use agentfs.Fs.Cache.{Lru}
use agentfs.Fs.{Exec, Result, ok, err, FsError}
use agentfs.ByPath.Steps.{Result-cases}
use agentfs.Overlay.{Layer, InodeInfo, OverlayFs, i64_range, get_or_create_overlay_ino, alloc_ino}
use agentfs.Overlay.CopyUp.{required, update}
use agentfs.Overlay.Inodes.{Inv, get_or_create_overlay_ino-Inv}
use agentfs.Overlay.Lookup.{Session, Act, ◌>>=◌, pure, ask, view, on_delta, on_overlay}

-- The invariant holds and at most `k` numbers more are in use.
pub record IsWithin (k : ℕ) (o o' : OverlayFs) : Type 0 where
  pub maps : Inv o'
  pub numbers : o'.next_ino ≤ o.next_ino + k

get_or_create_overlay_ino_next :
    (l : Layer) (u : ℕ) (path : Str) (o : OverlayFs)
    → o.next_ino + 1 < i64_range
    → (get_or_create_overlay_ino l u path o).1.next_ino ≤ o.next_ino + 1
unfolding get_or_create_overlay_ino alloc_ino
get_or_create_overlay_ino_next l u path o more = elim (Option-cases (o.reverse_map l u)) [
  | inl unknown ↦ rw (unknown, get_or_create_overlay_ino) (omega (arith, mod-eq_of_lt more))
  | inr (i, known) ↦ rw (known, get_or_create_overlay_ino) (omega arith)
]

pub given-IsWithin :
    (l : Layer) (u : ℕ) (path : Str) (o : OverlayFs)
    → Inv o
    → o.next_ino + 1 < i64_range
    → IsWithin 1 o (get_or_create_overlay_ino l u path o).1
given-IsWithin l u path o v more = record {
  maps = get_or_create_overlay_ino-Inv o v l u path more;
  numbers = get_or_create_overlay_ino_next l u path o more;
}

-- With room for `k` numbers the action stays within `k`, whether it succeeds or not.
pub record Keeps {lru : Lru} {A : Type 0} (k : ℕ) (m : Act lru A) : Type 0 where
  pub at :
      (s : Session lru)
      → Inv s.overlay
      → s.overlay.next_ino + k < i64_range
      → IsWithin k s.overlay (m s).1.overlay

pub unmoved : (o o' : OverlayFs) → o' ≡ o → Inv o → IsWithin 0 o o'
unmoved o o' e v = record { maps = rw e v; numbers = rw e (omega arith) }

module _ {lru : Lru} {A : Type 0} where
  -- Nothing of the overlay is written.
  pub Keeps-still : (m : Act lru A) → ((s : Session lru) → (m s).1.overlay ≡ s.overlay) → Keeps 0 m
  Keeps-still m h = record { at = λ s v room. unmoved s.overlay (m s).1.overlay (h s) v }

  pub Keeps-pure : (a : A) → Keeps {lru = lru} 0 (pure a)
  Keeps-pure a = Keeps-still (pure a) (λ s. refl)

  pub Keeps-ask : (r : Result A) → Keeps {lru = lru} 0 (ask r)
  Keeps-ask r = Keeps-still (ask r) (λ s. refl)

  pub Keeps-view : (f : OverlayFs → Result A) → Keeps {lru = lru} 0 (view f)
  Keeps-view f = Keeps-still (view f) (λ s. refl)

  pub Keeps-on_delta : (m : Exec lru A) → Keeps 0 (on_delta m)
  Keeps-on_delta m = Keeps-still (on_delta m) (λ s. refl)

  pub Keeps-required : (e : FsError) (o : Option A) → Keeps {lru = lru} 0 (required e o)
  Keeps-required e none = Keeps-still (required e none) (λ s. refl)
  Keeps-required e (some a) = Keeps-still (required e (some a)) (λ s. refl)

  pub Keeps-on_overlay :
      (k : ℕ) (f : OverlayFs → A × OverlayFs)
      → ((o : OverlayFs) → Inv o → o.next_ino + k < i64_range → IsWithin k o (f o).1)
      → Keeps {lru = lru} k (on_overlay f)
  Keeps-on_overlay k f h = record { at = λ s v room. h s.overlay v room }

  pub Keeps-le : (j k : ℕ) (m : Act lru A) → j ≤ k → Keeps j m → Keeps k m
  Keeps-le j k m le h = record {
    at = λ s v room.
        let w = h.at s v (omega arith) in
        record { maps = w.maps; numbers = omega (arith, w.numbers) };
  }

  pub Keeps-if :
      (k : ℕ) (b : Bool) (m n : Act lru A) → Keeps k m → Keeps k n → Keeps k (if b then m else n)
  Keeps-if k true m n h h' = h
  Keeps-if k false m n h h' = h'

module _ {lru : Lru} {A B : Type 0} where
  pub Keeps-bind :
      (j k : ℕ) (m : Act lru A) (f : A → Act lru B)
      → Keeps j m
      → ((a : A) → Keeps k (f a))
      → Keeps (j + k) (m >>= f)
  Keeps-bind j k m f h hf = record {
    at = λ s v room.
        let w = h.at s v (omega arith) in
        elim (Result-cases (m s).0) [
          | inl (a, e) ↦
              let w' = (hf a).at (m s).1 w.maps (omega (arith, w.numbers)) in
              rw e (record { maps = w'.maps; numbers = omega (arith, w.numbers, w'.numbers) })
          | inr (x, e) ↦ rw e (record { maps = w.maps; numbers = omega (arith, w.numbers) })
        ];
  }
