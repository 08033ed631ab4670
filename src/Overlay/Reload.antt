-- ===== src/Overlay/Reload.antt =====
-- A mount of an overlay that is there already: `OverlayFS::new` and `load`.
use agentfs.Base.{
  ℕ, ◌≡◌, refl, ◌∙◌, sym, none, some, List, [], ◌∷◌, ◌++◌, arith, Str, Option-cases, inl, inr,
}
use agentfs.Overlay.{OverlayFs, new, get_origin_ino}
use agentfs.Overlay.Inodes.{Inv, new-Inv}
use agentfs.Overlay.Whiteouts.{contains, has_row, is_hidden, is_whiteout, load_whiteouts, IsLoaded}
use agentfs.Overlay.Whiteouts.Table.{contains-load_rows}
use agentfs.Path.{slash, split, nonempty}

-- The rows of the table go into the map, over what it holds.
unfoldable pub load_origins : OverlayFs → OverlayFs
load_origins o = record o {
  origin_map = λ d. elim (o.fs_origin d) [ none ↦ o.origin_map d | some b ↦ some b ];
}

unfoldable pub load : OverlayFs → OverlayFs
load o = load_origins (load_whiteouts o)

-- What a new process has: only the tables of the old state are left.
unfoldable pub remount : OverlayFs → OverlayFs
remount o = load (record new { fs_whiteout = o.fs_whiteout; fs_origin = o.fs_origin })

remount-has_row :
    (o : OverlayFs) (p : Str) → contains p (remount o).whiteouts ≡ has_row p o.fs_whiteout
unfolding remount load load_origins load_whiteouts contains new
remount-has_row o p = contains-load_rows p o.fs_whiteout []

remount_origins : (o : OverlayFs) (d : ℕ) → (remount o).origin_map d ≡ o.fs_origin d
unfolding remount load load_origins load_whiteouts new
remount_origins o d = elim (Option-cases (o.fs_origin d)) [
  | inl free ↦ ground arith
  | inr (b, copied) ↦ ground arith
]

pub remount-Inv : (o : OverlayFs) → Inv (remount o)
unfolding remount load load_origins load_whiteouts
remount-Inv o = record {
  reverse = new-Inv.reverse;
  path = new-Inv.path;
  fresh = new-Inv.fresh;
  origin = λ d. remount_origins o d;
}

-- Sets that hold the same paths hide the same.
is_hidden-same :
    (ws ws' : List Str)
    → ((p : Str) → contains p ws ≡ contains p ws')
    → (current : Str) (cs : List Str) → is_hidden ws current cs ≡ is_hidden ws' current cs
unfolding is_hidden
is_hidden-same ws ws' h current [] = refl
is_hidden-same ws ws' h current (c ∷ cs) =
    let next = current ++ (slash ∷ c) in ground (arith, h next, is_hidden-same ws ws' h next cs)

-- After a new mount of the same tables the same paths are hidden and every copy has its origin as
-- before, if the invariant held and the set of whiteouts was that of the table; the invariant holds.
pub remount_lem :
    (o : OverlayFs)
    → Inv o
    → IsLoaded o
    → ((path : Str) → is_whiteout path (remount o) ≡ is_whiteout path o)
      × ((d : ℕ) → get_origin_ino d (remount o) ≡ get_origin_ino d o)
      × Inv (remount o)
unfolding is_whiteout
remount_lem o v loaded = (
  λ path.
      is_hidden-same (remount o).whiteouts o.whiteouts (λ p. remount-has_row o p ∙ sym (loaded p))
        [] (nonempty (split slash path)),
  λ d. remount_origins o d ∙ sym (v.origin d),
  remount-Inv o,
)
