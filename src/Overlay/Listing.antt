-- ===== src/Overlay/Listing.antt =====
-- `getattr`, `readlink`, `readdir` and `readdir_plus` of `OverlayFS`. The set of names and the map of
-- entries are lists in the order of their keys, which is the order of the result.
pub mod Visible
use agentfs.Base.{
  ℕ, Bool, true, false, ◌&&◌, ◌||◌, not, Option, none, some, List, [], ◌∷◌, if◌then◌else◌, Str,
  same,
}
use agentfs.Fs.Attr
use agentfs.Fs.Cache.{Lru}
use agentfs.Fs.Listing
use agentfs.Fs.Listing.{name_le, DirEntry}
use agentfs.Fs.{Result, ok, err, Stats}
use agentfs.Overlay.{
  in_delta, in_base, InodeInfo, OverlayFs, same_layer, get_inode_info, get_origin_ino, child_path,
  get_or_create_overlay_ino,
}
use agentfs.Overlay.Change.{known}
use agentfs.Overlay.CopyUp.{BaseLayer}
use agentfs.Overlay.Lookup.{
  Act, ◌>>=◌, pure, ask, view, on_delta, on_overlay, walk_base, components,
}
use agentfs.Overlay.Whiteouts.{is_whiteout, get_child_whiteouts, contains}

-- `is_whiteout(entry_path) || child_whiteouts.contains(entry)`
unfoldable pub is_covered : Str → Str → OverlayFs → Bool
is_covered dir name o =
    is_whiteout (child_path dir name) o || contains name (get_child_whiteouts dir o)

-- `HashSet::insert`, into the names in order
unfoldable pub add_name : Str → List Str → List Str
add_name n [] = n ∷ []
add_name n (m ∷ ms) =
    let rest = add_name n ms in
    if same n m then m ∷ ms else if name_le n m then n ∷ m ∷ ms else m ∷ rest

-- The loops of `readdir` over the names of one layer.
unfoldable pub add_names : Str → OverlayFs → List Str → List Str → List Str
add_names dir o [] ns = ns
add_names dir o (n ∷ rest) ns =
    add_names dir o rest (if is_covered dir n o then ns else add_name n ns)

-- `HashMap::insert`
unfoldable pub put_entry : DirEntry → List DirEntry → List DirEntry
put_entry e [] = e ∷ []
put_entry e (d ∷ ds) =
    let rest = put_entry e ds in
    if same e.name d.name then e ∷ ds else if name_le e.name d.name then e ∷ d ∷ ds else d ∷ rest

-- The overlay's number of an entry of each layer.
unfoldable pub number_base_entry : Str → DirEntry → OverlayFs → ℕ × OverlayFs
number_base_entry path e o = get_or_create_overlay_ino in_base e.stats.ino path o

unfoldable pub number_delta_entry : Str → DirEntry → OverlayFs → ℕ × OverlayFs
number_delta_entry path e o = elim (get_origin_ino e.stats.ino o) [
  | some base_ino ↦ get_or_create_overlay_ino in_base base_ino path o
  | none ↦ get_or_create_overlay_ino in_delta e.stats.ino path o
]

abbrev pub set_ino : DirEntry → ℕ → DirEntry
set_ino e ino = record e { stats = record e.stats { ino = ino } }

-- The loops of `readdir_plus` over the entries of one layer.
unfoldable pub add_entries :
    (Str → DirEntry → OverlayFs → ℕ × OverlayFs)
    → Str
    → List DirEntry
    → List DirEntry
    → OverlayFs
    → List DirEntry × OverlayFs
add_entries number dir [] ds o = (ds, o)
add_entries number dir (e ∷ es) ds o =
    let skipped = add_entries number dir es ds o in
    let given = number (child_path dir e.name) e o in
    let added = add_entries number dir es (put_entry (set_ino e given.0) ds) given.1 in
    if is_covered dir e.name o then skipped else added

abbrev pub set_number : ℕ → Option Stats → Option Stats
set_number ino none = none
set_number ino (some stats) = some (record stats { ino = ino })

abbrev pub or_empty {ℓ} : {A : Type ℓ} → Option (List A) → List A
or_empty none = []
or_empty (some xs) = xs

module _ (base : BaseLayer) where
  -- The directory of the base, for the listings: the root is walked to as every path.
  unfoldable pub listed_base : InodeInfo → Result (Option ℕ)
  listed_base info =
      if same_layer info.layer in_base
      then ok (some info.underlying_ino)
      else walk_base base.lookup (components info.path) 1

  unfoldable pub base_names_at : Option ℕ → Result (Option (List Str))
  base_names_at none = ok none
  base_names_at (some ino) = base.readdir ino

  unfoldable pub base_entries_at : Option ℕ → Result (Option (List DirEntry))
  base_entries_at none = ok none
  base_entries_at (some ino) = base.readdir_plus ino

module _ {lru : Lru} where
  -- Nothing where a whiteout hides the path.
  unfoldable pub if_visible : {A : Type 0} → InodeInfo → Act lru (Option A) → Act lru (Option A)
  if_visible info m = do
    hidden ← view (λ o. ok (is_whiteout info.path o))
    if hidden then pure none else m

  -- What the delta lists by the methods of `impl AgentFS`, nothing for a directory of the base.
  unfoldable pub delta_names : InodeInfo → Act lru (List Str)
  delta_names info =
      if same_layer info.layer in_delta
      then on_delta (Listing.list_names info.underlying_ino)
      else pure []

  unfoldable pub delta_entries : InodeInfo → Act lru (List DirEntry)
  delta_entries info =
      if same_layer info.layer in_delta
      then on_delta (Listing.list_entries info.underlying_ino)
      else pure []

  module _ (base : BaseLayer) where
    unfoldable pub stats_in_layer : InodeInfo → Act lru (Option Stats)
    stats_in_layer info =
        if same_layer info.layer in_delta
        then on_delta (Attr.getattr info.underlying_ino)
        else ask (base.getattr info.underlying_ino)

    unfoldable pub getattr_of : ℕ → Option InodeInfo → Act lru (Option Stats)
    getattr_of ino none = pure none
    getattr_of ino (some info) =
        if_visible info do stats ← stats_in_layer info; pure (set_number ino stats)

    unfoldable pub getattr : ℕ → Act lru (Option Stats)
    getattr ino = do info ← view (λ o. ok (get_inode_info ino o)); getattr_of ino info

    unfoldable pub readlink : ℕ → Act lru (Option Str)
    readlink ino = do
      info ← known ino
      if_visible info (
          if same_layer info.layer in_delta
          then on_delta (Attr.readlink info.underlying_ino)
          else ask (base.readlink info.underlying_ino))

    unfoldable pub base_names : InodeInfo → Act lru (List Str)
    base_names info = do
      at ← ask (listed_base base info)
      found ← ask (base_names_at base at)
      pure (or_empty found)

    unfoldable pub readdir : ℕ → Act lru (Option (List Str))
    readdir ino = do
      info ← known ino
      upper ← delta_names info
      lower ← base_names info
      view (λ o. ok (some (add_names info.path o lower (add_names info.path o upper []))))

    unfoldable pub base_entries : InodeInfo → Act lru (List DirEntry)
    base_entries info = do
      at ← ask (listed_base base info)
      found ← ask (base_entries_at base at)
      pure (or_empty found)

    -- The base first, so that the delta goes over it.
    unfoldable pub readdir_plus : ℕ → Act lru (Option (List DirEntry))
    readdir_plus ino = do
      info ← known ino
      lower ← base_entries info
      ds ← on_overlay (add_entries number_base_entry info.path lower [])
      upper ← delta_entries info
      es ← on_overlay (add_entries number_delta_entry info.path upper ds)
      pure (some es)
