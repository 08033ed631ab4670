-- ===== src/Overlay/Whiteouts.antt =====
-- Whiteouts: the paths of the base that were deleted, in memory and in the table `fs_whiteout`.
pub mod Table
pub mod Children
use agentfs.Base.{
  ℕ, ◌≡◌, refl, Bool, true, false, ◌&&◌, ◌||◌, not, List, [], ◌∷◌, ◌++◌, if◌then◌else◌, Str, same,
  same_iff, arith, append_assoc, Bool-cases, inl, inr, sym, ◌∙◌, ap, append-nil, Option, none, some,
  ◌==◌, ◌+◌, length, drop, Option-cases,
}
use agentfs.Path.{slash, root_path, split, nonempty, join, is_empty}
use agentfs.Path.Clean.{all_names, is_name, no_slash, components-join}
use agentfs.Path.Normal.{rendered}
use agentfs.ByPath.Remove.{has_prefix}
use agentfs.Overlay.{OverlayFs, WhiteoutRow, child_path}

-- `HashSet::contains`, `insert` and `remove`
unfoldable pub contains : Str → List Str → Bool
contains p [] = false
contains p (q ∷ qs) = same p q || contains p qs

unfoldable pub insert : Str → List Str → List Str
insert p qs = if contains p qs then qs else p ∷ qs

unfoldable pub remove : Str → List Str → List Str
remove p [] = []
remove p (q ∷ qs) = let rest = remove p qs in if same p q then rest else q ∷ rest

-- DELETE FROM fs_whiteout WHERE path = ?
unfoldable pub delete_row : Str → List WhiteoutRow → List WhiteoutRow
delete_row p [] = []
delete_row p (r ∷ rs) = let rest = delete_row p rs in if same p r.path then rest else r ∷ rest

-- The loop of `is_whiteout`, with the text so far.
unfoldable pub is_hidden : List Str → Str → List Str → Bool
is_hidden ws current [] = false
is_hidden ws current (c ∷ cs) =
    let next = current ++ (slash ∷ c) in
    let rest = is_hidden ws next cs in if contains next ws then true else rest

unfoldable pub is_whiteout : Str → OverlayFs → Bool
is_whiteout path o = is_hidden o.whiteouts [] (nonempty (split slash path))

unfoldable pub create_whiteout : ℕ → Str → OverlayFs → OverlayFs
create_whiteout now path o = record o {
  fs_whiteout = (record { path = path; created_at = now }) ∷ delete_row path o.fs_whiteout;
  whiteouts = insert path o.whiteouts;
}

unfoldable pub remove_whiteout : Str → OverlayFs → OverlayFs
remove_whiteout path o = if not (contains path o.whiteouts) then o else record o {
  fs_whiteout = delete_row path o.fs_whiteout;
  whiteouts = remove path o.whiteouts;
}

unfoldable pub load_rows : List WhiteoutRow → List Str → List Str
load_rows [] ws = ws
load_rows (r ∷ rs) ws = load_rows rs (insert r.path ws)

unfoldable pub load_whiteouts : OverlayFs → OverlayFs
load_whiteouts o = record o { whiteouts = load_rows o.fs_whiteout o.whiteouts }

-- The path has a row.
unfoldable pub has_row : Str → List WhiteoutRow → Bool
has_row p [] = false
has_row p (r ∷ rs) = same p r.path || has_row p rs

-- `trim_start_matches('/')` and `contains('/')`
unfoldable pub trim_start : ℕ → Str → Str
trim_start c [] = []
trim_start c (x ∷ s) = let rest = trim_start c s in if x == c then rest else x ∷ s

-- The name in the directory that a whiteout stands for.
unfoldable pub child_of : Str → Str → Option Str
child_of dir p =
    if same dir root_path
    then (let rest = trim_start slash p in if no_slash rest then some rest else none)
    else if has_prefix (dir ++ (slash ∷ [])) p
    then (let rest = drop (length (dir ++ (slash ∷ []))) p in
        if no_slash rest then some rest else none)
    else none

unfoldable pub child_names : Str → List Str → List Str
child_names dir [] = []
child_names dir (p ∷ ps) =
    let rest = child_names dir ps in elim (child_of dir p) [ none ↦ rest | some n ↦ insert n rest ]

unfoldable pub get_child_whiteouts : Str → OverlayFs → List Str
get_child_whiteouts dir o = child_names dir o.whiteouts

-- The set in memory holds the paths of the table.
abbrev pub IsLoaded : OverlayFs → Type 0
IsLoaded o = (p : Str) → contains p o.whiteouts ≡ has_row p o.fs_whiteout
