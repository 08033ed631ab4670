-- ===== src/Overlay/Whiteouts/Table.antt =====
-- What whiteouts hide, and the table they are kept in.
use agentfs.Base.{
  ℕ, ◌≡◌, refl, true, ◌&&◌, ◌||◌, not, List, [], ◌∷◌, ◌++◌, Str, same, same_iff, arith,
  append_assoc, Bool-cases, inl, inr, ◌∙◌, ap, append-nil,
}
use agentfs.Path.{slash, split, nonempty, join}
use agentfs.Path.Clean.{all_names, components-join}
use agentfs.Path.Normal.{rendered}
use agentfs.Overlay.{OverlayFs, WhiteoutRow}
use agentfs.Overlay.Whiteouts.{
  contains, insert, remove, delete_row, is_hidden, is_whiteout, create_whiteout, remove_whiteout,
  load_rows, load_whiteouts, has_row, IsLoaded,
}

pub contains-insert :
    (p q : Str) (ws : List Str) → contains q (insert p ws) ≡ (same q p || contains q ws)
unfolding contains insert
contains-insert p q ws = elim (Bool-cases (contains p ws)) [
  | inl known ↦ elim (Bool-cases (same q p)) [
    | inl e ↦ let k : contains q ws ≡ true = rw ((same_iff q p).0 e) known in ground arith
    | inr ne ↦ ground arith
  ]
  | inr new ↦ ground arith
]

contains-remove :
    (p q : Str) (ws : List Str) → contains q (remove p ws) ≡ (not (same q p) && contains q ws)
unfolding contains remove
contains-remove p q [] = ground arith
contains-remove p q (w ∷ ws) =
    ground (arith, contains-remove p q ws, same_iff p w, same_iff q p, same_iff q w)

has_row-delete_row :
    (p q : Str) (rs : List WhiteoutRow)
    → has_row q (delete_row p rs) ≡ (not (same q p) && has_row q rs)
unfolding has_row delete_row
has_row-delete_row p q [] = ground arith
has_row-delete_row p q (r ∷ rs) =
    ground (arith, has_row-delete_row p q rs, same_iff p r.path, same_iff q p, same_iff q r.path)

pub contains-load_rows :
    (q : Str) (rs : List WhiteoutRow) (ws : List Str)
    → contains q (load_rows rs ws) ≡ (contains q ws || has_row q rs)
unfolding load_rows has_row
contains-load_rows q [] ws = ground arith
contains-load_rows q (r ∷ rs) ws =
    ground (arith, contains-load_rows q rs (insert r.path ws), contains-insert r.path q ws)

module _ (path : Str) (o : OverlayFs) (h : IsLoaded o) where
  create_whiteout-IsLoaded : (now : ℕ) → IsLoaded (create_whiteout now path o)
  unfolding create_whiteout has_row
  create_whiteout-IsLoaded now p =
      ground
        (arith, contains-insert path p o.whiteouts, has_row-delete_row path p o.fs_whiteout, h p)

  remove_whiteout-IsLoaded : IsLoaded (remove_whiteout path o)
  unfolding remove_whiteout
  remove_whiteout-IsLoaded p = elim (Bool-cases (contains path o.whiteouts)) [
    | inl there ↦
        rw (there, remove_whiteout)
          (ground (
            arith,
            contains-remove path p o.whiteouts,
            has_row-delete_row path p o.fs_whiteout,
            h p,
          ))
    | inr gone ↦ rw (gone, remove_whiteout) (h p)
  ]

  load_whiteouts-IsLoaded : IsLoaded (load_whiteouts o)
  unfolding load_whiteouts
  load_whiteouts-IsLoaded p = ground (arith, contains-load_rows p o.fs_whiteout o.whiteouts, h p)

  -- While the set in memory holds exactly the paths of the table, it does so after creating a
  -- whiteout, removing one, and loading the table again; and a table that is loaded into an empty set
  -- makes it so.
  pub whiteouts-IsLoaded :
      (now : ℕ)
      → IsLoaded (create_whiteout now path o)
        × IsLoaded (remove_whiteout path o)
        × IsLoaded (load_whiteouts o)
        × IsLoaded (load_whiteouts (record o { whiteouts = [] }))
  unfolding load_whiteouts contains
  whiteouts-IsLoaded now = (
    create_whiteout-IsLoaded now,
    remove_whiteout-IsLoaded,
    load_whiteouts-IsLoaded,
    λ p. ground (arith, contains-load_rows p o.fs_whiteout []),
  )

-- What a larger set hides.
is_hidden-insert :
    (p : Str) (ws : List Str) (current : Str) (cs : List Str)
    → is_hidden (insert p ws) current cs
      ≡ (is_hidden ws current cs || is_hidden (p ∷ []) current cs)
unfolding is_hidden contains
is_hidden-insert p ws current [] = refl
is_hidden-insert p ws current (c ∷ cs) =
    let next = current ++ (slash ∷ c) in
    ground (arith, is_hidden-insert p ws next cs, contains-insert p next ws, same_iff next p)

-- '/' before each component.
text : List Str → Str
text [] = []
text (c ∷ cs) = slash ∷ (c ++ text cs)

text-join : (p : Str) (ps : List Str) → text (p ∷ ps) ≡ slash ∷ join slash (p ∷ ps)
unfolding text join
text-join p [] = ap (λ t. slash ∷ t) (append-nil p)
text-join p (q ∷ ps) = ap (λ t. slash ∷ (p ++ t)) (text-join q ps)

is_hidden_below :
    (ws : List Str) (current : Str) (p : Str) (ps qs : List Str)
    → contains (current ++ text (p ∷ ps)) ws ≡ true
    → is_hidden ws current (p ∷ (ps ++ qs)) ≡ true
unfolding is_hidden text
is_hidden_below ws current p [] qs h =
    let e : current ++ (slash ∷ (p ++ [])) ≡ current ++ (slash ∷ p) =
      ap (λ t. current ++ (slash ∷ t)) (append-nil p) in
    let k = rw e at h in ground arith
is_hidden_below ws current p (q ∷ ps) qs h =
    let next = current ++ (slash ∷ p) in
    let e : next ++ text (q ∷ ps) ≡ current ++ text (p ∷ q ∷ ps) =
      append_assoc current (slash ∷ p) (text (q ∷ ps)) in
    let rest = is_hidden_below ws next q ps qs (rw e h) in ground arith

-- Creating a whiteout hides its path and all below it: the whiteout's names come first among those of
-- the path, and are not empty.
pub is_whiteout_below :
    (now : ℕ) (p : Str) (ps qs : List Str) (o : OverlayFs)
    → all_names (p ∷ (ps ++ qs)) ≡ true
    → is_whiteout (rendered (p ∷ (ps ++ qs))) (create_whiteout now (rendered (p ∷ ps)) o) ≡ true
unfolding is_whiteout create_whiteout contains
is_whiteout_below now p ps qs o names =
    let ws = insert (rendered (p ∷ ps)) o.whiteouts in
    let there : contains (text (p ∷ ps)) ws ≡ true = rw (text-join p ps) (
      contains-insert (rendered (p ∷ ps)) (rendered (p ∷ ps)) o.whiteouts
      ∙ ap (λ b. b || contains (rendered (p ∷ ps)) o.whiteouts)
          ((same_iff (rendered (p ∷ ps)) (rendered (p ∷ ps))).1 refl)) in
    rw (components-join p (ps ++ qs) names) (is_hidden_below ws [] p ps qs there)

-- A new whiteout hides what it alone would hide, and what was hidden before.
pub is_whiteout-create_whiteout :
    (now : ℕ) (p q : Str) (o : OverlayFs)
    → is_whiteout q (create_whiteout now p o)
      ≡ (is_whiteout q o || is_hidden (p ∷ []) [] (nonempty (split slash q)))
unfolding is_whiteout create_whiteout
is_whiteout-create_whiteout now p q o = is_hidden-insert p o.whiteouts [] (nonempty (split slash q))
