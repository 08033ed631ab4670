-- ===== src/Overlay/Budget/Lookup.antt =====
-- `lookup` of the overlay gives out one inode number at most.
use agentfs.Base.{
  ℕ, ◌+◌, ◌<◌, ◌≡◌, Bool, Option, none, some, List, [], ◌∷◌, arith, Str, Option-cases, inl, inr,
}
use agentfs.Fs.Attr
use agentfs.Fs.Cache.{Lru}
use agentfs.Fs.{Result, ok, err, Stats, not_found}
use agentfs.ByPath.Remove.{is_dir}
use agentfs.Overlay.{
  in_delta, in_base, InodeInfo, OverlayFs, i64_range, same_layer, build_path, get_inode_info,
  get_origin_ino, get_or_create_overlay_ino, refresh_overlay_mapping,
}
use agentfs.Overlay.Budget.{
  IsWithin, given-IsWithin, Keeps, Keeps-pure, Keeps-ask, Keeps-view, Keeps-on_delta,
  Keeps-on_overlay, Keeps-le, Keeps-if, Keeps-bind,
}
use agentfs.Overlay.Inodes.{Inv, refresh_overlay_mapping-Inv}
use agentfs.Overlay.Lookup.{
  Base, pure, ask, view, on_delta, on_overlay, components, walk_delta, resolve_delta_parent,
  lookup_delta, number_delta, number, ask_base, base_parent, lookup_base, delta_or_base,
  lookup_visible, unless_hidden, lookup,
}
use agentfs.Overlay.Whiteouts.{is_whiteout}

refresh_overlay_mapping_next :
    (i d : ℕ) (path : Str) (o : OverlayFs)
    → (refresh_overlay_mapping i in_delta d path o).next_ino ≡ o.next_ino
unfolding refresh_overlay_mapping
refresh_overlay_mapping_next i d path o = ground arith

number_delta-IsWithin :
    (d : ℕ) (path : Str) (o : OverlayFs)
    → Inv o
    → o.next_ino + 1 < i64_range
    → IsWithin 1 o (number_delta d path o).1
unfolding number_delta
number_delta-IsWithin d path o v more =
    let o₁ = (get_or_create_overlay_ino in_delta d path o).1 in
    let w = given-IsWithin in_delta d path o v more in
    elim (Option-cases (get_origin_ino d o₁)) [
      | inl own ↦ rw (own, number_delta) w
      | inr (b, origin) ↦ elim (Option-cases (o₁.reverse_map in_base b)) [
        | inl stale ↦ rw (origin, number_delta, stale) w
        | inr (i, live) ↦
            rw (origin, number_delta, live)
              (record {
                maps = refresh_overlay_mapping-Inv o₁ w.maps i in_delta d path;
                numbers = rw (refresh_overlay_mapping_next i d path o₁) w.numbers;
              })
      ]
    ]

module _ {lru : Lru} where
  Keeps-walk_delta : (names : List Str) (ino : ℕ) → Keeps {lru = lru} 0 (walk_delta names ino)
  unfolding walk_delta
  Keeps-walk_delta [] ino = Keeps-pure (some ino)
  Keeps-walk_delta (name ∷ names) ino =
      Keeps-bind 0 0 (on_delta (Attr.lookup ino name)) _ (Keeps-on_delta (Attr.lookup ino name))
        λ found. elim (Option-cases found) [
          | inl gone ↦ rw gone (Keeps-pure none)
          | inr (stats, there) ↦
              rw there
                (Keeps-if 0 (is_dir stats) _ _ (Keeps-walk_delta names stats.ino) (Keeps-pure none))
        ]

  pub Keeps-resolve_delta_parent :
      (info : InodeInfo) → Keeps {lru = lru} 0 (resolve_delta_parent info)
  unfolding resolve_delta_parent
  Keeps-resolve_delta_parent info =
      Keeps-if 0 (same_layer info.layer in_delta) _ _ (Keeps-pure (some info.underlying_ino))
        (Keeps-walk_delta (components info.path) 1)

  Keeps-lookup_delta : (p : Option ℕ) (name : Str) → Keeps {lru = lru} 0 (lookup_delta p name)
  unfolding lookup_delta
  Keeps-lookup_delta none name = Keeps-pure none
  Keeps-lookup_delta (some p) name = Keeps-on_delta (Attr.lookup p name)

  Keeps-number :
      (f : ℕ → OverlayFs → ℕ × OverlayFs) (found : Option Stats)
      → ((d : ℕ) (o : OverlayFs) → Inv o → o.next_ino + 1 < i64_range → IsWithin 1 o (f d o).1)
      → Keeps {lru = lru} 1 (number f found)
  unfolding number
  Keeps-number f none h = Keeps-le 0 1 (pure none) (omega arith) (Keeps-pure none)
  Keeps-number f (some stats) h =
      Keeps-bind 1 0 (on_overlay (f stats.ino)) _ (Keeps-on_overlay 1 (f stats.ino) (h stats.ino))
        λ ino. Keeps-pure (some (record stats { ino = ino }))

  module _ (base : Base) (info : InodeInfo) (path name : Str) where
    Keeps-ask_base : (p : Option ℕ) → Keeps {lru = lru} 0 (ask_base base name p)
    Keeps-ask_base none = Keeps-pure none
    Keeps-ask_base (some p) = Keeps-ask (base p name)

    Keeps-lookup_base : Keeps {lru = lru} 1 (lookup_base base info path name)
    unfolding lookup_base
    Keeps-lookup_base =
        Keeps-bind 0 1 (ask (base_parent base info)) _ (Keeps-ask (base_parent base info)) λ parent.
          Keeps-bind 0 1 (ask_base base name parent) _ (Keeps-ask_base parent) λ found.
            Keeps-number (λ b. get_or_create_overlay_ino in_base b path) found
              (λ b. given-IsWithin in_base b path)

    Keeps-delta_or_base :
        (found : Option Stats) → Keeps {lru = lru} 1 (delta_or_base base info path name found)
    unfolding delta_or_base
    Keeps-delta_or_base none = Keeps-lookup_base
    Keeps-delta_or_base (some stats) =
        Keeps-number (λ d. number_delta d path) (some stats) (λ d. number_delta-IsWithin d path)

    Keeps-unless_hidden :
        (hidden : Bool) → Keeps {lru = lru} 1 (unless_hidden base info path name hidden)
    unfolding unless_hidden lookup_visible
    Keeps-unless_hidden hidden =
        Keeps-if 1 hidden _ _ (Keeps-le 0 1 (pure none) (omega arith) (Keeps-pure none)) (
          Keeps-bind 0 1 (resolve_delta_parent info) _ (Keeps-resolve_delta_parent info) λ parent.
            Keeps-bind 0 1 (lookup_delta parent name) _ (Keeps-lookup_delta parent name)
              λ found. Keeps-delta_or_base found)

  pub Keeps-lookup :
      (base : Base) (parent : ℕ) (name : Str) → Keeps {lru = lru} 1 (lookup base parent name)
  unfolding lookup
  Keeps-lookup base parent name =
      let row : OverlayFs → Result InodeInfo =
        λ o. elim (get_inode_info parent o) [ none ↦ err not_found | some i ↦ ok i ] in
      Keeps-bind 0 1 (view row) _ (Keeps-view row) λ info.
        Keeps-bind 0 1 (view (build_path parent name)) _ (Keeps-view (build_path parent name))
          λ path.
            let hidden : OverlayFs → Result Bool = λ o. ok (is_whiteout path o) in
            Keeps-bind 0 1 (view hidden) _ (Keeps-view hidden)
              λ h. Keeps-unless_hidden base info path name h
