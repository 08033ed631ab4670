-- ===== src/Overlay/Kept.antt =====
-- `lookup` of `OverlayFS` keeps the overlay's maps consistent and the delta's invariant.
use agentfs.Base.{
  ℕ, ◌≡◌, refl, ◌∙◌, Bool, true, false, Option, none, some, List, ◌∷◌, ◌++◌, arith, Str,
  Option-cases, Bool-cases, inl, inr,
}
use agentfs.Fs.Cache.{Lru}
use agentfs.Fs.Changed.{lookup-Inv}
use agentfs.Fs.Wf
use agentfs.Fs.{ok, err, Stats, not_found}
use agentfs.ByPath.Steps.{Result-cases}
use agentfs.Overlay.{
  in_delta, in_base, InodeInfo, OverlayFs, same_layer, get_or_create_overlay_ino, get_inode_info,
  get_origin_ino, build_path, child_path,
}
use agentfs.Overlay.Inodes.{
  Inv, HasNumbers, get_or_create_overlay_ino-Inv, refresh_overlay_mapping-Inv,
}
use agentfs.Overlay.Lookup.{
  Base, Session, Act, ◌>>=◌, ask, view, components, resolve_delta_parent, lookup_delta,
  number_delta, base_parent, lookup_base, lookup_visible, lookup,
}
use agentfs.Overlay.Lookup.{number, ask_base, delta_or_base, unless_hidden}
use agentfs.Overlay.Stable.{Stays, Stays-walk_delta}
use agentfs.Overlay.Whiteouts.{is_whiteout, create_whiteout}
use agentfs.Overlay.Whiteouts.Table.{is_whiteout_below}
use agentfs.Path.Clean.{all_names}
use agentfs.Path.Normal.{rendered}

module _ (o : OverlayFs) (v : Inv o) (more : HasNumbers o) (d : ℕ) (path : Str) where
  abbrev given : ℕ × OverlayFs
  given = get_or_create_overlay_ino in_delta d path o

  given-Inv : Inv (given).1
  given-Inv = get_or_create_overlay_ino-Inv o v in_delta d path more

  number_delta-Inv : Inv (number_delta d path o).1
  unfolding number_delta
  number_delta-Inv = elim (Option-cases (get_origin_ino d (given).1)) [
    | inl own ↦ rw (own, number_delta) given-Inv
    | inr (b, origin) ↦ elim (Option-cases ((given).1.reverse_map in_base b)) [
      | inl stale ↦ rw (origin, number_delta, stale) given-Inv
      | inr (i, live) ↦
          rw (origin, number_delta, live)
            (refresh_overlay_mapping-Inv (given).1 given-Inv i in_delta d path)
    ]
  ]

module _ {lru : Lru} where
  -- Both invariants.
  pub record IsConsistent (s : Session lru) : Type 0 where
    pub delta : Wf.Inv s.delta
    pub overlay : Inv s.overlay

  then-IsConsistent :
      {A B : Type 0} (m : Act lru A) (f : A → Act lru B) (s : Session lru)
      → Stays s (m s).1
      → Inv s.overlay
      → ((a : A) (t : Session lru)
          → t.overlay ≡ s.overlay
          → Wf.Inv t.delta
          → IsConsistent (f a t).1)
      → IsConsistent ((m >>= f) s).1
  then-IsConsistent m f s (same, delta) v k = elim (Result-cases (m s).0) [
    | inl (a, e) ↦ rw e (k a (m s).1 same delta)
    | inr (x, e) ↦ rw e (record { delta = delta; overlay = rw same v })
  ]

  module _ (s : Session lru) (w : Wf.Inv s.delta) where
    Stays-resolve_delta_parent : (info : InodeInfo) → Stays s (resolve_delta_parent info s).1
    unfolding resolve_delta_parent
    Stays-resolve_delta_parent info = elim (Bool-cases (same_layer info.layer in_delta)) [
      | inl delta ↦ rw delta (refl, w)
      | inr base ↦ rw base (Stays-walk_delta (components info.path) 1 s w)
    ]

    Stays-lookup_delta : (p : Option ℕ) (n : Str) → Stays s (lookup_delta p n s).1
    unfolding lookup_delta
    Stays-lookup_delta none n = (refl, w)
    Stays-lookup_delta (some p) n = (refl, lookup-Inv s.delta w p n)

  number-IsConsistent :
      (f : ℕ → OverlayFs → ℕ × OverlayFs) (found : Option Stats) (s : Session lru)
      → IsConsistent s
      → ((d : ℕ) → Inv (f d s.overlay).1)
      → IsConsistent (number f found s).1
  unfolding number
  number-IsConsistent f none s c h = c
  number-IsConsistent f (some stats) s c h = record { delta = c.delta; overlay = h stats.ino }

  module _ (base : Base) (n : Str) where
    Stays-ask_base :
        (parent : Option ℕ) (s : Session lru)
        → Wf.Inv s.delta
        → Stays s (ask_base base n parent s).1
    Stays-ask_base none s w = (refl, w)
    Stays-ask_base (some p) s w = (refl, w)

    module _ (info : InodeInfo) (path : Str) where
      lookup_base-IsConsistent :
          (s : Session lru)
          → IsConsistent s
          → HasNumbers s.overlay
          → IsConsistent (lookup_base base info path n s).1
      unfolding lookup_base
      lookup_base-IsConsistent s c more =
          then-IsConsistent (ask (base_parent base info)) _ s (refl, c.delta) c.overlay
            λ parent t q w.
              then-IsConsistent (ask_base base n parent)
                (λ found. number (λ b. get_or_create_overlay_ino in_base b path) found) t
                (Stays-ask_base parent t w) (rw q c.overlay)
                λ found t' q' w'.
                  let v' : Inv t'.overlay = rw (q' ∙ q) c.overlay in
                  number-IsConsistent (λ b. get_or_create_overlay_ino in_base b path) found t'
                    (record { delta = w'; overlay = v' })
                    (λ b.
                      get_or_create_overlay_ino-Inv t'.overlay v' in_base b path (rw (q' ∙ q) more))

      delta_or_base-IsConsistent :
          (found : Option Stats) (s : Session lru)
          → IsConsistent s
          → HasNumbers s.overlay
          → IsConsistent (delta_or_base base info path n found s).1
      unfolding delta_or_base
      delta_or_base-IsConsistent none s c more = lookup_base-IsConsistent s c more
      delta_or_base-IsConsistent (some stats) s c more =
          number-IsConsistent (λ d. number_delta d path) (some stats) s c
            (λ d. number_delta-Inv s.overlay c.overlay more d path)

      lookup_visible-IsConsistent :
          (s : Session lru)
          → IsConsistent s
          → HasNumbers s.overlay
          → IsConsistent (lookup_visible base info path n s).1
      unfolding lookup_visible
      lookup_visible-IsConsistent s c more =
          then-IsConsistent (resolve_delta_parent info) _ s
            (Stays-resolve_delta_parent s c.delta info) c.overlay
            λ parent t q w.
              then-IsConsistent (lookup_delta parent n) (delta_or_base base info path n) t
                (Stays-lookup_delta t w parent n) (rw q c.overlay)
                λ found t' q' w'.
                  delta_or_base-IsConsistent found t'
                    (record { delta = w'; overlay = rw (q' ∙ q) c.overlay }) (rw (q' ∙ q) more)

      unless_hidden-IsConsistent :
          (hidden : Bool) (s : Session lru)
          → IsConsistent s
          → HasNumbers s.overlay
          → IsConsistent (unless_hidden base info path n hidden s).1
      unfolding unless_hidden
      unless_hidden-IsConsistent true s c more = c
      unless_hidden-IsConsistent false s c more = lookup_visible-IsConsistent s c more

    -- `lookup` keeps the overlay's maps consistent and the delta's invariant, whether it succeeds or
    -- not and whatever the base answers, while there are numbers left.
    pub lookup-IsConsistent :
        (parent : ℕ) (s : Session lru)
        → IsConsistent s
        → HasNumbers s.overlay
        → IsConsistent (lookup base parent n s).1
    unfolding lookup
    lookup-IsConsistent parent s c more =
        then-IsConsistent
          (view (λ o. elim (get_inode_info parent o) [ none ↦ err not_found | some i ↦ ok i ])) _ s
          (refl, c.delta) c.overlay
          λ info t q w.
            then-IsConsistent (view (build_path parent n))
              (λ path. do
                hidden ← view (λ o. ok (is_whiteout path o))
                unless_hidden base info path n hidden)
              t (refl, w) (rw q c.overlay)
              λ path t' q' w'.
                unless_hidden-IsConsistent info path (is_whiteout path t'.overlay) t'
                  (record { delta = w'; overlay = rw (q' ∙ q) c.overlay }) (rw (q' ∙ q) more)

pub lookup_hidden :
    {lru : Lru} (base : Base) (parent : ℕ) (name : Str) (info : InodeInfo) (s : Session lru)
    → s.overlay.inode_map parent ≡ some info
    → is_whiteout (child_path info.path name) s.overlay ≡ true
    → lookup base parent name s ≡ (ok none, s)
unfolding lookup build_path unless_hidden
lookup_hidden base parent name info s row hidden = ground arith

-- A path that a whiteout stands at or above is not found, whatever the layers hold, and nothing
-- changes: neither layer is asked.
pub lookup-create_whiteout :
    {lru : Lru} (base : Base) (now parent : ℕ) (name p : Str) (ps qs : List Str) (info : InodeInfo)
    (s : Session lru)
    → s.overlay.inode_map parent ≡ some info
    → child_path info.path name ≡ rendered (p ∷ (ps ++ qs))
    → all_names (p ∷ (ps ++ qs)) ≡ true
    → let s' = record s { overlay = create_whiteout now (rendered (p ∷ ps)) s.overlay } in
      lookup base parent name s' ≡ (ok none, s')
unfolding create_whiteout
lookup-create_whiteout base now parent name p ps qs info s row at names =
    let s' = record s { overlay = create_whiteout now (rendered (p ∷ ps)) s.overlay } in
    lookup_hidden base parent name info s' row
      (rw at (is_whiteout_below now p ps qs s.overlay names))
