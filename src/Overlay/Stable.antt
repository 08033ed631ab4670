-- ===== src/Overlay/Stable.antt =====
-- The numbers that `OverlayFS` gives out are stable, and `lookup` keeps the maps consistent.
use agentfs.Base.{
  ℕ, ◌+◌, ◌%◌, ◌≡◌, refl, Option, none, some, List, [], ◌∷◌, arith, Str, Option-cases, Bool-cases,
  inl, inr,
}
use agentfs.Fs.Attr
use agentfs.Fs.Cache.{Lru}
use agentfs.Fs.Changed.{lookup-Inv}
use agentfs.Fs.Wf
use agentfs.ByPath.Remove.{is_dir}
use agentfs.Overlay.{
  Layer, in_delta, in_base, InodeInfo, OverlayFs, i64_range, alloc_ino, record_ino,
  get_or_create_overlay_ino, put_reverse,
}
use agentfs.Overlay.Inodes.{Inv}
use agentfs.Overlay.Lookup.{Session, Act, ◌>>=◌, on_delta, walk_delta}
use agentfs.ByPath.Steps.{Result-cases}

put_reverse_self :
    (l : Layer) (u i : ℕ) (m : Layer → ℕ → Option ℕ) → put_reverse l u i m l u ≡ some i
put_reverse_self in_delta u i m = ground arith
put_reverse_self in_base u i m = ground arith

given_known :
    (l : Layer) (u : ℕ) (path : Str) (o : OverlayFs) (i : ℕ)
    → o.reverse_map l u ≡ some i
    → get_or_create_overlay_ino l u path o ≡ (i, o)
unfolding get_or_create_overlay_ino
given_known l u path o i h = ground arith

module _ (l : Layer) (u : ℕ) (path : Str) (o : OverlayFs) (v : Inv o) where
  abbrev given : ℕ × OverlayFs
  given = get_or_create_overlay_ino l u path o

  given_new :
      o.reverse_map l u ≡ none
      → given ≡ (
        o.next_ino,
        record_ino o.next_ino
            (record { layer = l; underlying_ino = u; path = path })
            (record o { next_ino = (o.next_ino + 1) % i64_range }),
      )
  unfolding get_or_create_overlay_ino alloc_ino
  given_new h = ground arith

  -- The number of an inode of a layer is known afterwards, every number that was known stands for
  -- what it stood for, and asking again, by any path, gives the same number and changes nothing.
  pub get_or_create_overlay_ino_lem :
      ((given).1.reverse_map l u ≡ some (given).0)
      × ((j : ℕ) (x : InodeInfo) → o.inode_map j ≡ some x → (given).1.inode_map j ≡ some x)
      × ((again : Str) → get_or_create_overlay_ino l u again (given).1 ≡ ((given).0, (given).1))
  get_or_create_overlay_ino_lem = elim (Option-cases (o.reverse_map l u)) [
    | inr (i, known) ↦
        rw (given_known l u path o i known)
          (known, λ j x h. h, λ again. given_known l u again o i known)
    | inl unknown ↦
        let info : InodeInfo = record { layer = l; underlying_ino = u; path = path } in
        let o' =
          record_ino o.next_ino info (record o { next_ino = (o.next_ino + 1) % i64_range }) in
        let self = put_reverse_self l u o.next_ino o.reverse_map in
        rw (given_new unknown) (
          self,
          λ j x h. ground (arith, v.fresh j),
          λ again. given_known l u again o' o.next_ino self,
        )
  ]

module _ {lru : Lru} where
  -- Nothing of the overlay's own state is changed, and the delta keeps its invariant.
  abbrev pub Stays : Session lru → Session lru → Type 0
  Stays s t = (t.overlay ≡ s.overlay) × Wf.Inv t.delta

  pub Stays-then :
      {A B : Type 0} (m : Act lru A) (f : A → Act lru B) (s : Session lru)
      → Stays s (m s).1
      → ((a : A) → Stays s (f a (m s).1).1)
      → Stays s ((m >>= f) s).1
  Stays-then m f s h k = elim (Result-cases (m s).0) [
    | inl (a, e) ↦ rw e (k a)
    | inr (x, e) ↦ rw e h
  ]

  Stays-lookup :
      (p : ℕ) (n : Str) (s : Session lru)
      → Wf.Inv s.delta
      → Stays s (on_delta (Attr.lookup p n) s).1
  Stays-lookup p n s v = (refl, lookup-Inv s.delta v p n)

  pub Stays-walk_delta :
      (cs : List Str) (ino : ℕ) (s : Session lru) → Wf.Inv s.delta → Stays s (walk_delta cs ino s).1
  unfolding walk_delta
  Stays-walk_delta [] ino s v = (refl, v)
  Stays-walk_delta (c ∷ cs) ino s v =
      Stays-then (on_delta (Attr.lookup ino c)) _ s (Stays-lookup ino c s v) λ found.
        elim (Option-cases found) [
          | inl gone ↦ rw gone (Stays-lookup ino c s v)
          | inr (stats, there) ↦ elim (Bool-cases (is_dir stats)) [
            | inl dir ↦
                rw (there, dir)
                  (Stays-walk_delta cs stats.ino (on_delta (Attr.lookup ino c) s).1
                    (lookup-Inv s.delta v ino c))
            | inr file ↦ rw (there, file) (Stays-lookup ino c s v)
          ]
        ]
