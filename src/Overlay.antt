-- ===== src/Overlay.antt =====
-- The state that `OverlayFS` of sdk/rust/src/filesystem/overlayfs.rs keeps beside its two layers: the
-- inode numbers that it gives out, the paths deleted from the base, and where copies come from. A
-- `HashMap` is a function to an `Option`, a `HashSet` a list whose order no operation shows.
pub mod Whiteouts
pub mod Inodes
pub mod Reach
pub mod Kept
pub mod Stable
pub mod Lookup
pub mod CopyUp
pub mod Change
pub mod Budget
pub mod Settled
pub mod Reload
pub mod Runs
pub mod Gone
pub mod Copied
pub mod Listing
pub mod Remove
use agentfs.Base.{
  ℕ, ◌+◌, ◌^◌, ◌%◌, Bool, true, false, Option, none, some, List, [], ◌∷◌, ◌++◌, if◌then◌else◌, ◌==◌,
  Str, same, map,
}
use agentfs.Fs.{Result, ok, err, not_found}
use agentfs.Path.{slash, root_path}

pub data Layer : Type 0 where
  in_delta in_base : Layer

pub record InodeInfo : Type 0 where
  pub layer : Layer
  pub underlying_ino : ℕ
  pub path : Str

-- A row of the table `fs_whiteout`, whose key is the path.
pub record WhiteoutRow : Type 0 where
  pub path : Str
  pub created_at : ℕ

pub record OverlayFs : Type 0 where
  pub inode_map : ℕ → Option InodeInfo
  pub reverse_map : Layer → ℕ → Option ℕ
  pub path_map : Str → Option ℕ
  pub next_ino : ℕ
  pub whiteouts : List Str
  pub origin_map : ℕ → Option ℕ
  pub fs_whiteout : List WhiteoutRow
  pub fs_origin : ℕ → Option ℕ

abbrev pub root_ino : ℕ
root_ino = 1

abbrev pub i64_range : ℕ
i64_range = 2 ^ 64

abbrev pub same_layer : Layer → Layer → Bool
same_layer in_delta in_delta = true
same_layer in_delta in_base = false
same_layer in_base in_delta = false
same_layer in_base in_base = true

-- `HashMap::insert` and `HashMap::remove`
abbrev pub put_info : ℕ → InodeInfo → (ℕ → Option InodeInfo) → ℕ → Option InodeInfo
put_info i info m j = if i == j then some info else m j

abbrev pub put_reverse : Layer → ℕ → ℕ → (Layer → ℕ → Option ℕ) → Layer → ℕ → Option ℕ
put_reverse l u i m l' u' =
    if same_layer l l' then (if u == u' then some i else m l' u') else m l' u'

abbrev pub drop_reverse : Layer → ℕ → (Layer → ℕ → Option ℕ) → Layer → ℕ → Option ℕ
drop_reverse l u m l' u' = if same_layer l l' then (if u == u' then none else m l' u') else m l' u'

abbrev pub put_path : Str → ℕ → (Str → Option ℕ) → Str → Option ℕ
put_path p i m q = if same p q then some i else m q

abbrev pub drop_path : Str → (Str → Option ℕ) → Str → Option ℕ
drop_path p m q = if same p q then none else m q

-- `OverlayFS::new`: the root is the delta's root.
unfoldable pub new : OverlayFs
new = record {
  inode_map =
      put_info root_ino (record { layer = in_delta; underlying_ino = 1; path = root_path })
        (λ j. none);
  reverse_map = put_reverse in_delta 1 root_ino (λ l u. none);
  path_map = put_path root_path root_ino (λ p. none);
  next_ino = 2;
  whiteouts = [];
  origin_map = λ d. none;
  fs_whiteout = [];
  fs_origin = λ d. none;
}

-- `fetch_add` gives the old value; the counter has 64 bits.
unfoldable pub alloc_ino : OverlayFs → ℕ × OverlayFs
alloc_ino o = (o.next_ino, record o { next_ino = (o.next_ino + 1) % i64_range })

-- The new number, as all three maps take it.
abbrev pub record_ino : ℕ → InodeInfo → OverlayFs → OverlayFs
record_ino ino info o = record o {
  inode_map = put_info ino info o.inode_map;
  reverse_map = put_reverse info.layer info.underlying_ino ino o.reverse_map;
  path_map = put_path info.path ino o.path_map;
}

unfoldable pub get_or_create_overlay_ino : Layer → ℕ → Str → OverlayFs → ℕ × OverlayFs
unfolding alloc_ino
get_or_create_overlay_ino layer underlying_ino path o = elim (o.reverse_map layer underlying_ino) [
  | some ino ↦ (ino, o)
  | none ↦
      let info : InodeInfo = record {
        layer = layer;
        underlying_ino = underlying_ino;
        path = path;
      } in
      ((alloc_ino o).0, record_ino (alloc_ino o).0 info (alloc_ino o).1)
]

abbrev pub is_at : Option ℕ → ℕ → Bool
is_at none i = false
is_at (some j) i = j == i

unfoldable pub refresh_overlay_mapping : ℕ → Layer → ℕ → Str → OverlayFs → OverlayFs
refresh_overlay_mapping ino layer underlying_ino path o = elim (o.inode_map ino) [
  | none ↦ o
  | some info ↦ record o {
    inode_map =
        put_info ino (record { layer = layer; underlying_ino = underlying_ino; path = path })
          o.inode_map;
    reverse_map = put_reverse layer underlying_ino ino o.reverse_map;
    path_map =
        put_path path ino
          (if is_at (o.path_map info.path) ino then drop_path info.path o.path_map else o.path_map);
  }
]

abbrev pub get_inode_info : ℕ → OverlayFs → Option InodeInfo
get_inode_info ino o = o.inode_map ino

abbrev pub child_path : Str → Str → Str
child_path dir name = if same dir root_path then slash ∷ name else dir ++ (slash ∷ name)

unfoldable pub build_path : ℕ → Str → OverlayFs → Result Str
build_path parent name o = elim (get_inode_info parent o) [
  | none ↦ err not_found
  | some info ↦ ok (child_path info.path name)
]

abbrev pub put_ino : ℕ → ℕ → (ℕ → Option ℕ) → ℕ → Option ℕ
put_ino d b m e = if d == e then some b else m e

unfoldable pub add_origin_mapping : ℕ → ℕ → OverlayFs → OverlayFs
add_origin_mapping delta_ino base_ino o = record o {
  fs_origin = put_ino delta_ino base_ino o.fs_origin;
  origin_map = put_ino delta_ino base_ino o.origin_map;
}

abbrev pub get_origin_ino : ℕ → OverlayFs → Option ℕ
get_origin_ino delta_ino o = o.origin_map delta_ino

-- A mapped path whose inode is in the base is moved to the delta.
abbrev pub promote_info : ℕ → InodeInfo → ℕ → OverlayFs → OverlayFs
promote_info ino info delta_ino o = record o {
  inode_map =
      put_info ino (record info { layer = in_delta; underlying_ino = delta_ino }) o.inode_map;
  reverse_map =
      put_reverse in_delta delta_ino ino (drop_reverse in_base info.underlying_ino o.reverse_map);
}

unfoldable pub promote_to_delta : Str → ℕ → OverlayFs → OverlayFs
promote_to_delta path delta_ino o = elim (o.path_map path) [
  | none ↦ o
  | some ino ↦ elim (o.inode_map ino) [
    | none ↦ o
    | some info ↦ if same_layer info.layer in_base then promote_info ino info delta_ino o else o
  ]
]

-- What `copy_up_and_update_mapping` does after the copy.
unfoldable pub update_mapping : ℕ → InodeInfo → ℕ → OverlayFs → OverlayFs
update_mapping ino info delta_ino o = record o {
  inode_map =
      put_info ino (record { layer = in_delta; underlying_ino = delta_ino; path = info.path })
        o.inode_map;
  reverse_map = put_reverse in_delta delta_ino ino o.reverse_map;
}
