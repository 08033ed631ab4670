-- ===== src/Overlay/Budget/Listing.antt =====
-- `readdir_plus` gives out one number at most for each entry that the two layers list.
use agentfs.Base.{
  ℕ, ap, ◌+◌, ◌<◌, ◌≡◌, refl, Option, none, some, List, [], ◌∷◌, arith, Str, length, Option-cases,
  Bool-cases, inl, inr,
}
use agentfs.Fs.Cache.{Lru}
use agentfs.Fs.Listing.{DirEntry}
use agentfs.Fs.{Result, ok, err}
use agentfs.ByPath.Steps.{Result-cases}
use agentfs.Overlay.{
  in_delta, in_base, InodeInfo, OverlayFs, i64_range, same_layer, get_inode_info, get_origin_ino,
  child_path,
}
use agentfs.Overlay.Budget.{IsWithin, given-IsWithin, unmoved}
use agentfs.Overlay.Change.{known}
use agentfs.Overlay.CopyUp.{BaseLayer}
use agentfs.Overlay.Inodes.{Inv}
use agentfs.Overlay.Listing.{
  is_covered, put_entry, set_ino, number_base_entry, number_delta_entry, add_entries, base_entries,
  delta_entries, readdir_plus, listed_base, base_entries_at,
}
use agentfs.Overlay.Lookup.{Session, Act, ◌>>=◌, pure, on_overlay}

-- Numbering an entry gives out one number at most.
abbrev NumbersOne : (Str → DirEntry → OverlayFs → ℕ × OverlayFs) → Type 0
NumbersOne number =
    (path : Str) (e : DirEntry) (o : OverlayFs)
    → Inv o
    → o.next_ino + 1 < i64_range
    → IsWithin 1 o (number path e o).1

base_one : NumbersOne number_base_entry
unfolding number_base_entry
base_one path e o v more = given-IsWithin in_base e.stats.ino path o v more

delta_one : NumbersOne number_delta_entry
unfolding number_delta_entry
delta_one path e o v more = elim (Option-cases (get_origin_ino e.stats.ino o)) [
  | inl own ↦ rw (own, number_delta_entry) (given-IsWithin in_delta e.stats.ino path o v more)
  | inr (b, origin) ↦ rw (origin, number_delta_entry) (given-IsWithin in_base b path o v more)
]

add_entries-IsWithin :
    (number : Str → DirEntry → OverlayFs → ℕ × OverlayFs) (dir : Str)
    → NumbersOne number
    → (es ds : List DirEntry) (o : OverlayFs) → Inv o
    → o.next_ino + length es < i64_range
    → IsWithin (length es) o (add_entries number dir es ds o).1
unfolding add_entries
add_entries-IsWithin number dir one [] ds o v room = unmoved o o refl v
add_entries-IsWithin number dir one (e ∷ es) ds o v room =
    elim (Bool-cases (is_covered dir e.name o)) [
      | inl covered ↦
          let w = add_entries-IsWithin number dir one es ds o v (omega arith) in
          rw covered (record { maps = w.maps; numbers = omega (arith, w.numbers) })
      | inr shown ↦
          let given = number (child_path dir e.name) e o in
          let first = one (child_path dir e.name) e o v (omega arith) in
          let w =
            add_entries-IsWithin number dir one es (put_entry (set_ino e given.0) ds) given.1
              first.maps (omega (arith, first.numbers)) in
          rw shown (record { maps = w.maps; numbers = omega (arith, w.numbers, first.numbers) })
    ]

-- The entries that a listing of a layer gave.
abbrev pub count_of : Result (List DirEntry) → ℕ
count_of (ok es) = length es
count_of (err e) = 0

module _ {lru : Lru} (base : BaseLayer) where
  abbrev pub listed_at : Option InodeInfo → Session lru → ℕ
  listed_at none s = 0
  listed_at (some info) s =
      count_of (base_entries base info s).0 + count_of (delta_entries info s).0

  -- As many entries as both layers list in a directory.
  unfoldable pub entry_count : ℕ → Session lru → ℕ
  entry_count ino s = listed_at (get_inode_info ino s.overlay) s

  base_entries_still : (info : InodeInfo) (s : Session lru) → (base_entries base info s).1 ≡ s
  unfolding base_entries
  base_entries_still info s = elim (Result-cases (listed_base base info)) [
    | inr (x, e) ↦ rw e refl
    | inl (at, e) ↦ rw e (elim (Result-cases (base_entries_at base at)) [
      | inr (x, e') ↦ rw e' refl
      | inl (found, e') ↦ rw e' refl
    ])
  ]

delta_entries_still :
    {lru : Lru} (info : InodeInfo) (s : Session lru) → (delta_entries info s).1.overlay ≡ s.overlay
unfolding delta_entries
delta_entries_still info s = elim (Bool-cases (same_layer info.layer in_delta)) [
  | inl own ↦ rw own refl
  | inr other ↦ rw other refl
]

-- What the delta lists does not depend on the maps.
delta_entries_same :
    {lru : Lru} (info : InodeInfo) (s : Session lru) (o : OverlayFs)
    → (delta_entries info (record s { overlay = o })).0 ≡ (delta_entries info s).0
unfolding delta_entries
delta_entries_same info s o = elim (Bool-cases (same_layer info.layer in_delta)) [
  | inl own ↦ rw own refl
  | inr other ↦ rw other refl
]

module _ {lru : Lru} (info : InodeInfo) where
  upper_part : List DirEntry → Act lru (Option (List DirEntry))
  upper_part ds = do
    upper ← delta_entries info
    es ← on_overlay (add_entries number_delta_entry info.path upper ds)
    pure (some es)

  upper_part-IsWithin :
      (ds : List DirEntry) (s : Session lru)
      → Inv s.overlay
      → s.overlay.next_ino + count_of (delta_entries info s).0 < i64_range
      → IsWithin (count_of (delta_entries info s).0) s.overlay (upper_part ds s).1.overlay
  unfolding upper_part
  upper_part-IsWithin ds s v room =
      let same = delta_entries_still info s in
      elim (Result-cases (delta_entries info s).0) [
        | inl (upper, e) ↦
            let w =
              add_entries-IsWithin number_delta_entry info.path delta_one upper ds s.overlay v
                (rw e at room) in
            rw (e, same) w
        | inr (x, e) ↦ rw e (unmoved s.overlay _ same v)
      ]

module _ {lru : Lru} (base : BaseLayer) (ino : ℕ) where
  listing_of : InodeInfo → Act lru (Option (List DirEntry))
  listing_of info = do
    lower ← base_entries base info
    ds ← on_overlay (add_entries number_base_entry info.path lower [])
    upper_part info ds

  listing_of-IsWithin :
      (info : InodeInfo) (s : Session lru)
      → Inv s.overlay
      → s.overlay.next_ino + listed_at base (some info) s < i64_range
      → IsWithin (listed_at base (some info) s) s.overlay (listing_of info s).1.overlay
  unfolding listing_of
  listing_of-IsWithin info s v room =
      let same = base_entries_still base info s in
      elim (Result-cases (base_entries base info s).0) [
        | inl (lower, e) ↦
            let room' : s.overlay.next_ino + (length lower + count_of (delta_entries info s).0)
                < i64_range =
              rw e at room in
            let given = add_entries number_base_entry info.path lower [] s.overlay in
            let first =
              add_entries-IsWithin number_base_entry info.path base_one lower [] s.overlay v
                (omega arith) in
            let s₁ : Session lru = record s { overlay = given.1 } in
            let alike : count_of (delta_entries info s₁).0 ≡ count_of (delta_entries info s).0 =
              ap count_of (delta_entries_same info s given.1) in
            let second =
              upper_part-IsWithin info given.0 s₁ first.maps
                (omega (arith, first.numbers, alike)) in
            rw (e, same)
              (record {
                maps = second.maps;
                numbers = omega (arith, first.numbers, second.numbers, alike);
              })
        | inr (x, e) ↦ rw (e, same) (record { maps = v; numbers = omega arith })
      ]

  pub readdir_plus-IsWithin :
      (s : Session lru)
      → Inv s.overlay
      → s.overlay.next_ino + entry_count base ino s < i64_range
      → IsWithin (entry_count base ino s) s.overlay (readdir_plus base ino s).1.overlay
  unfolding readdir_plus entry_count known listing_of upper_part
  readdir_plus-IsWithin s v room = elim (Option-cases (get_inode_info ino s.overlay)) [
    | inl gone ↦ rw (gone, readdir_plus) (record { maps = v; numbers = omega arith })
    | inr (info, there) ↦
        let room' : s.overlay.next_ino + listed_at base (some info) s < i64_range =
          rw there at room in
        rw (there, readdir_plus) (listing_of-IsWithin info s v room')
  ]
