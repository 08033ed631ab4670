-- ===== src/Overlay/Gone/Removed.antt =====
-- After `unlink`, `rmdir` and `rename` the name is not found, whichever layer had it.
use agentfs.Base.{
  ℕ, ◌≡◌, refl, true, Option, none, some, List, [], ◌∷◌, ◌++◌, arith, Str, Option-cases, inl, inr,
  if◌then◌else◌, append-nil, ap,
}
use agentfs.Db.{Now}
use agentfs.Fs.Cache.{Lru}
use agentfs.Fs.Remove
use agentfs.Fs.{
  Exec, Result, ok, err, FsError, Stats, not_found, is_a_directory, not_a_directory, not_empty,
}
use agentfs.ByPath.Remove.{is_dir}
use agentfs.ByPath.Steps.{Result-cases}
use agentfs.Overlay.{InodeInfo, OverlayFs, build_path, child_path}
use agentfs.Overlay.Change.{known}
use agentfs.Overlay.CopyUp.{BaseLayer, Setting, required, update, ensure_parent_dirs}
use agentfs.Overlay.Kept.{lookup_hidden}
use agentfs.Overlay.Listing.{readdir, or_empty}
use agentfs.Overlay.Lookup.{Session, Act, ◌>>=◌, ask, resolve_delta_parent, lookup}
use agentfs.Overlay.Remove.{
  in_parent, hide, hide_visible, unlink, rmdir, copy_source, rename_in_delta, rename,
}
use agentfs.Overlay.Whiteouts.{is_whiteout, create_whiteout, remove_whiteout}
use agentfs.Overlay.Whiteouts.Table.{is_whiteout_below}
use agentfs.Path.{is_empty}
use agentfs.Path.Clean.{all_names}
use agentfs.Path.Normal.{rendered}
use agentfs.Overlay.Gone.Again.{FindsNothing-lookup, Ends, Ends-self, Ends-bind, known-row}

is_whiteout-itself :
    (secs : ℕ) (path p : Str) (ps : List Str)
    → path ≡ rendered (p ∷ ps)
    → all_names (p ∷ ps) ≡ true
    → (o : OverlayFs) → is_whiteout path (create_whiteout secs path o) ≡ true
is_whiteout-itself secs path p ps at names o =
    let same : ps ++ [] ≡ ps = append-nil ps in
    rw at (rw same at (is_whiteout_below secs p ps [] o (rw same names)))

module _ {lru : Lru} where
  module _ (base : BaseLayer) (secs parent : ℕ) (name path p : Str) (ps : List Str)
      (at : path ≡ rendered (p ∷ ps)) (names : all_names (p ∷ ps) ≡ true) where
    abbrev hiding : Session lru → Result (Unit {0}) × Session lru
    hiding = hide_visible base secs parent name path

    abbrev with_whiteout : Session lru → Session lru
    with_whiteout s = record s { overlay = create_whiteout secs path s.overlay }

    found_again :
        (s : Session lru) (stats : Stats)
        → (lookup base.lookup parent name s).0 ≡ ok (some stats)
        → hiding s ≡ (ok tt, with_whiteout (lookup base.lookup parent name s).1)
    unfolding hide_visible hide
    found_again s stats e = rw e refl

    found_nothing :
        (s : Session lru)
        → (lookup base.lookup parent name s).0 ≡ ok none
        → hiding s ≡ (ok tt, (lookup base.lookup parent name s).1)
    unfolding hide_visible hide
    found_nothing s e = rw e refl

    found_error :
        (s : Session lru) (x : FsError)
        → (lookup base.lookup parent name s).0 ≡ err x
        → (hiding s).0 ≡ err x
    unfolding hide_visible hide
    found_error s x e = rw e refl

    -- The last part of every removal.
    hidden_after :
        (s : Session lru) (info : InodeInfo)
        → (hiding s).0 ≡ ok tt
        → (hiding s).1.overlay.inode_map parent ≡ some info
        → child_path info.path name ≡ path
        → (lookup base.lookup parent name (hiding s).1).0 ≡ ok none
    hidden_after s info done row same = elim (Result-cases (lookup base.lookup parent name s).0) [
      | inr (x, e) ↦ absurd (cc (done, found_error s x e))
      | inl (found, e) ↦ elim (Option-cases found) [
        | inl gone ↦
            let nothing : (lookup base.lookup parent name s).0 ≡ ok none = rw gone at e in
            let once = FindsNothing-lookup base.lookup parent name in
            let (_, like) = once.at s s nothing (refl, refl) in
            let t = (lookup base.lookup parent name s).1 in
            rw (found_nothing s nothing) (once.at s t nothing like).0
        | inr (stats, there) ↦
            let again : (lookup base.lookup parent name s).0 ≡ ok (some stats) = rw there at e in
            let t = with_whiteout (lookup base.lookup parent name s).1 in
            let row' : t.overlay.inode_map parent ≡ some info =
              rw (found_again s stats again) at row in
            rw (found_again s stats again) (
              ap (λ (r : Result (Option Stats) × Session lru). r.0)
                (lookup_hidden base.lookup parent name info t row' (
                  rw same (
                    is_whiteout-itself secs path p ps at names
                      (lookup base.lookup parent name s).1.overlay))))
      ]
    ]

    -- A removal that ends with this part.
    ended :
        (m : Act lru (Unit {0})) (s : Session lru) (info : InodeInfo)
        → Ends m hiding
        → (m s).0 ≡ ok tt
        → (m s).1.overlay.inode_map parent ≡ some info
        → child_path info.path name ≡ path
        → (lookup base.lookup parent name (m s).1).0 ≡ ok none
    ended m s info ends done row same =
        let (t, e) = ends.at s tt done in
        rw e (hidden_after t info (rw e at done) (rw e at row) same)

  built :
      (parent : ℕ) (name : Str) (info : InodeInfo) (s : Session lru)
      → s.overlay.inode_map parent ≡ some info
      → build_path parent name s.overlay ≡ ok (child_path info.path name)
  unfolding build_path
  built parent name info s row = ground arith

  module _ (base : BaseLayer) (now : Now) (secs parent : ℕ) (name : Str) where
    Ends-removal :
        (info : InodeInfo) (path : Str) (f : ℕ → Exec lru (Unit {0}))
        → Ends
            (do
              p ← resolve_delta_parent info
              _ ← in_parent base f p
              hide_visible base secs parent name path)
            (hide_visible base secs parent name path)
    Ends-removal info path f = Ends-bind (resolve_delta_parent info) _ _ λ p.
        Ends-bind (in_parent base f p) _ _ λ _. Ends-self (hide_visible base secs parent name path)

    -- What `unlink` does once the path is known.
    abbrev unlink_at : InodeInfo → Str → Act lru (Unit {0})
    unlink_at info path = do
      found ← lookup base.lookup parent name
      stats ← required not_found found
      _ ← ask (if is_dir stats then err is_a_directory else ok tt)
      p ← resolve_delta_parent info
      _ ← in_parent base (λ i. Remove.unlink now i name) p
      hide_visible base secs parent name path

    Ends-unlink_at :
        (info : InodeInfo) (path : Str)
        → Ends (unlink_at info path) (hide_visible base secs parent name path)
    Ends-unlink_at info path = Ends-bind (lookup base.lookup parent name) _ _ λ found.
        Ends-bind (required not_found found) _ _ λ stats.
          Ends-bind (ask (if is_dir stats then err is_a_directory else ok tt)) _ _
            λ _. Ends-removal info path (λ i. Remove.unlink now i name)

    unlink-unlink_at :
        (info : InodeInfo) (s : Session lru)
        → s.overlay.inode_map parent ≡ some info
        → unlink base now secs parent name s ≡ unlink_at info (child_path info.path name) s
    unfolding unlink
    unlink-unlink_at info s row =
        rw (known-row parent info s row, built parent name info s row) refl

    -- After an `unlink` that succeeds the name is not found, whichever layer had it, if the directory
    -- has the same path afterwards, and that of the name consists of names.
    pub unlink-lookup :
        (s : Session lru) (info info' : InodeInfo) (p : Str) (ps : List Str)
        → s.overlay.inode_map parent ≡ some info
        → child_path info.path name ≡ rendered (p ∷ ps)
        → all_names (p ∷ ps) ≡ true
        → (unlink base now secs parent name s).0 ≡ ok tt
        → (unlink base now secs parent name s).1.overlay.inode_map parent ≡ some info'
        → info'.path ≡ info.path
        → (lookup base.lookup parent name (unlink base now secs parent name s).1).0 ≡ ok none
    unlink-lookup s info info' p ps row at names done row' same =
        let e = unlink-unlink_at info s row in
        let path = child_path info.path name in
        rw e (
          ended base secs parent name path p ps at names (unlink_at info path) s info'
            (Ends-unlink_at info path) (rw e at done) (rw e at row')
            (ap (λ d. child_path d name) same))

    -- What `rmdir` does once the path is known.
    abbrev rmdir_at : InodeInfo → Str → Act lru (Unit {0})
    rmdir_at info path = do
      found ← lookup base.lookup parent name
      stats ← required not_found found
      _ ← ask (if is_dir stats then ok tt else err not_a_directory)
      entries ← readdir base stats.ino
      _ ← ask (if is_empty (or_empty entries) then ok tt else err not_empty)
      p ← resolve_delta_parent info
      _ ← in_parent base (λ i. Remove.rmdir now i name) p
      hide_visible base secs parent name path

    Ends-rmdir_at :
        (info : InodeInfo) (path : Str)
        → Ends (rmdir_at info path) (hide_visible base secs parent name path)
    Ends-rmdir_at info path = Ends-bind (lookup base.lookup parent name) _ _ λ found.
        Ends-bind (required not_found found) _ _ λ stats.
          Ends-bind (ask (if is_dir stats then ok tt else err not_a_directory)) _ _ λ _.
            Ends-bind (readdir base stats.ino) _ _ λ entries.
              Ends-bind (ask (if is_empty (or_empty entries) then ok tt else err not_empty)) _ _
                λ _. Ends-removal info path (λ i. Remove.rmdir now i name)

    rmdir-rmdir_at :
        (info : InodeInfo) (s : Session lru)
        → s.overlay.inode_map parent ≡ some info
        → rmdir base now secs parent name s ≡ rmdir_at info (child_path info.path name) s
    unfolding rmdir
    rmdir-rmdir_at info s row = rw (known-row parent info s row, built parent name info s row) refl

    -- After an `rmdir` that succeeds the name is not found, whichever layer had it, if the parent
    -- has the same path afterwards, and that of the name consists of names.
    pub rmdir-lookup :
        (s : Session lru) (info info' : InodeInfo) (p : Str) (ps : List Str)
        → s.overlay.inode_map parent ≡ some info
        → child_path info.path name ≡ rendered (p ∷ ps)
        → all_names (p ∷ ps) ≡ true
        → (rmdir base now secs parent name s).0 ≡ ok tt
        → (rmdir base now secs parent name s).1.overlay.inode_map parent ≡ some info'
        → info'.path ≡ info.path
        → (lookup base.lookup parent name (rmdir base now secs parent name s).1).0 ≡ ok none
    rmdir-lookup s info info' p ps row at names done row' same =
        let e = rmdir-rmdir_at info s row in
        let path = child_path info.path name in
        rw e (
          ended base secs parent name path p ps at names (rmdir_at info path) s info'
            (Ends-rmdir_at info path) (rw e at done) (rw e at row')
            (ap (λ d. child_path d name) same))

    module _ (c : Setting) (now' : Now) (parent' : ℕ) (name' : Str) where
      -- What `rename` does once both directories are known.
      abbrev rename_at : InodeInfo → InodeInfo → Str → Str → Act lru (Unit {0})
      rename_at old new path path' = do
        found ← lookup base.lookup parent name
        stats ← required not_found found
        info ← known stats.ino
        _ ← copy_source base c path info
        _ ← update (remove_whiteout path')
        _ ← ensure_parent_dirs base c path' 0 0
        _ ← rename_in_delta base c now now' old name new name'
        hide_visible base secs parent name path

      Ends-rename_at :
          (old new : InodeInfo) (path path' : Str)
          → Ends (rename_at old new path path') (hide_visible base secs parent name path)
      Ends-rename_at old new path path' = Ends-bind (lookup base.lookup parent name) _ _ λ found.
          Ends-bind (required not_found found) _ _ λ stats. Ends-bind (known stats.ino) _ _ λ info.
            Ends-bind (copy_source base c path info) _ _ λ _.
              Ends-bind (update (remove_whiteout path')) _ _ λ _.
                Ends-bind (ensure_parent_dirs base c path' 0 0) _ _ λ _.
                  Ends-bind (rename_in_delta base c now now' old name new name') _ _
                    λ _. Ends-self (hide_visible base secs parent name path)

      rename-rename_at :
          (old new : InodeInfo) (s : Session lru)
          → s.overlay.inode_map parent ≡ some old
          → s.overlay.inode_map parent' ≡ some new
          → rename base c now now' secs parent name parent' name' s
            ≡ rename_at old new (child_path old.path name) (child_path new.path name') s
      unfolding rename
      rename-rename_at old new s row row' =
          rw
            (
              known-row parent old s row,
              known-row parent' new s row',
              built parent name old s row,
              built parent' name' new s row',
            )
            refl

      -- After a `rename` that succeeds the old name is not found, whichever layer had it, if its
      -- directory has the same path afterwards, and that of the name consists of names.
      pub rename-lookup :
          (s : Session lru) (info info' new : InodeInfo) (p : Str) (ps : List Str)
          → s.overlay.inode_map parent ≡ some info
          → s.overlay.inode_map parent' ≡ some new
          → child_path info.path name ≡ rendered (p ∷ ps)
          → all_names (p ∷ ps) ≡ true
          → (rename base c now now' secs parent name parent' name' s).0 ≡ ok tt
          → (rename base c now now' secs parent name parent' name' s).1.overlay.inode_map parent
            ≡ some info'
          → info'.path ≡ info.path
          → (lookup base.lookup parent name
              (rename base c now now' secs parent name parent' name' s).1).0
            ≡ ok none
      rename-lookup s info info' new p ps row at' at names done row' same =
          let e = rename-rename_at info new s row at' in
          let path = child_path info.path name in
          rw e (
            ended base secs parent name path p ps at names
              (rename_at info new path (child_path new.path name')) s info'
              (Ends-rename_at info new path (child_path new.path name')) (rw e at done)
              (rw e at row') (ap (λ d. child_path d name) same))
