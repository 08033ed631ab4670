-- ===== src/Overlay/Lookup.antt =====
-- `lookup` of `OverlayFS`: the delta first, then the base. The delta is an `AgentFS`; the base is
-- given by what its `lookup` answers, since the overlay never writes to it.
use agentfs.Base.{ℕ, Bool, Option, none, some, List, [], ◌∷◌, if◌then◌else◌, Str, same}
use agentfs.Fs.Attr
use agentfs.Fs.Cache.{Lru}
use agentfs.Fs.{Fs, Exec, Result, ok, err, Stats, not_found}
use agentfs.ByPath.Remove.{is_dir}
use agentfs.Path.{slash, split, nonempty, root_path}
use agentfs.Overlay.{
  OverlayFs, InodeInfo, in_delta, in_base, same_layer, build_path, get_inode_info, get_origin_ino,
  get_or_create_overlay_ino, refresh_overlay_mapping,
}
use agentfs.Overlay.Whiteouts.{is_whiteout}

-- What the base layer answers: `FileSystem::lookup` by inode and name.
abbrev pub Base : Type 0
Base = ℕ → Str → Result (Option Stats)

abbrev pub components : Str → List Str
components path = nonempty (split slash path)

-- The overlay's number for an inode of the delta: that of its origin, if that is known, and else one
-- of its own.
unfoldable pub number_delta : ℕ → Str → OverlayFs → ℕ × OverlayFs
number_delta delta_ino path o =
    let (ino, o₁) = get_or_create_overlay_ino in_delta delta_ino path o in
    elim (get_origin_ino delta_ino o₁) [
      | none ↦ (ino, o₁)
      | some base_ino ↦ elim (o₁.reverse_map in_base base_ino) [
        | none ↦ (ino, o₁)
        | some existing ↦ (existing, refresh_overlay_mapping existing in_delta delta_ino path o₁)
      ]
    ]

module _ (base : Base) where
  unfoldable pub walk_base : List Str → ℕ → Result (Option ℕ)
  walk_base [] ino = ok (some ino)
  walk_base (c ∷ cs) ino = elim (base ino c) [
    | err e ↦ err e
    | ok found ↦ elim found [ none ↦ ok none | some stats ↦ walk_base cs stats.ino ]
  ]

  abbrev pub base_parent : InodeInfo → Result (Option ℕ)
  base_parent info =
      if same_layer info.layer in_base
      then ok (some info.underlying_ino)
      else if same info.path root_path
      then ok (some 1)
      else walk_base (components info.path) 1

module _ (lru : Lru) where
  pub record Session : Type 0 where
    pub delta : Fs lru
    pub overlay : OverlayFs

abbrev pub Act : Lru → Type 0 → Type 0
Act lru A = Session lru → Result A × Session lru

module _ {lru : Lru} where
  infixl 5 ◌>>=◌
  abbrev pub continue :
      {A B : Type 0} → (A → Act lru B) → Result A → Session lru → Result B × Session lru
  continue f (ok a) s = f a s
  continue f (err e) s = (err e, s)

  abbrev pub ◌>>=◌ : {A B : Type 0} → Act lru A → (A → Act lru B) → Act lru B
  ◌>>=◌ m f s = continue f (m s).0 (m s).1

  abbrev pub pure : {A : Type 0} → A → Act lru A
  pure a s = (ok a, s)

  -- A call of the delta, a question to the base, and an operation on the overlay's own state.
  abbrev pub on_delta : {A : Type 0} → Exec lru A → Act lru A
  on_delta m s = ((m s.delta).0, record s { delta = (m s.delta).1 })

  abbrev pub ask : {A : Type 0} → Result A → Act lru A
  ask r s = (r, s)

  abbrev pub on_overlay : {A : Type 0} → (OverlayFs → A × OverlayFs) → Act lru A
  on_overlay f s = (ok (f s.overlay).0, record s { overlay = (f s.overlay).1 })

  abbrev pub view : {A : Type 0} → (OverlayFs → Result A) → Act lru A
  view f s = (f s.overlay, s)

  -- From the delta's root along the components: each has to be a directory.
  unfoldable pub walk_delta : List Str → ℕ → Act lru (Option ℕ)
  walk_delta [] ino = pure (some ino)
  walk_delta (c ∷ cs) ino = do
    found ← on_delta (Attr.lookup ino c)
    elim found [
      | none ↦ pure none
      | some stats ↦ if is_dir stats then walk_delta cs stats.ino else pure none
    ]

  unfoldable pub resolve_delta_parent : InodeInfo → Act lru (Option ℕ)
  resolve_delta_parent info =
      if same_layer info.layer in_delta
      then pure (some info.underlying_ino)
      else walk_delta (components info.path) 1

  unfoldable pub lookup_delta : Option ℕ → Str → Act lru (Option Stats)
  lookup_delta none name = pure none
  lookup_delta (some p) name = on_delta (Attr.lookup p name)

  -- The attributes that a layer gave, with the overlay's number in place of its own.
  unfoldable pub number : (ℕ → OverlayFs → ℕ × OverlayFs) → Option Stats → Act lru (Option Stats)
  number f none = pure none
  number f (some stats) = do
    ino ← on_overlay (f stats.ino)
    pure (some (record stats { ino = ino }))

  module _ (base : Base) where
    abbrev pub ask_base : Str → Option ℕ → Act lru (Option Stats)
    ask_base name none = pure none
    ask_base name (some p) = ask (base p name)

    unfoldable pub lookup_base : InodeInfo → Str → Str → Act lru (Option Stats)
    lookup_base info path name = do
      parent ← ask (base_parent base info)
      found ← ask_base name parent
      number (λ base_ino. get_or_create_overlay_ino in_base base_ino path) found

    -- What the delta has goes before the base.
    unfoldable pub delta_or_base : InodeInfo → Str → Str → Option Stats → Act lru (Option Stats)
    delta_or_base info path name none = lookup_base info path name
    delta_or_base info path name (some stats) =
        number (λ delta_ino. number_delta delta_ino path) (some stats)

    -- Past the whiteout test.
    unfoldable pub lookup_visible : InodeInfo → Str → Str → Act lru (Option Stats)
    lookup_visible info path name = do
      parent ← resolve_delta_parent info
      found ← lookup_delta parent name
      delta_or_base info path name found

    unfoldable pub unless_hidden : InodeInfo → Str → Str → Bool → Act lru (Option Stats)
    unless_hidden info path name hidden =
        if hidden then pure none else lookup_visible info path name

    unfoldable pub lookup : ℕ → Str → Act lru (Option Stats)
    lookup parent name = do
      info ← view (λ o. elim (get_inode_info parent o) [ none ↦ err not_found | some i ↦ ok i ])
      path ← view (build_path parent name)
      hidden ← view (λ o. ok (is_whiteout path o))
      unless_hidden info path name hidden
