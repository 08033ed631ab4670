-- ===== src/Overlay/Budget/Remove.antt =====
-- The operations that remove and rename give out two numbers at most.
use agentfs.Base.{ℕ, Bool, Option, none, some, arith, Str, if◌then◌else◌, List}
use agentfs.Db.{Now}
use agentfs.Fs.Cache.{Lru}
use agentfs.Fs.Listing
use agentfs.Fs.Remove
use agentfs.Fs.Rename
use agentfs.Fs.{
  Exec, Result, ok, err, not_found, not_empty, not_a_directory, is_a_directory, is_some,
}
use agentfs.ByPath.Remove.{is_dir}
use agentfs.Overlay.{in_delta, in_base, InodeInfo, OverlayFs, same_layer, build_path}
use agentfs.Overlay.Budget.{
  IsWithin, Keeps, Keeps-pure, Keeps-ask, Keeps-view, Keeps-on_delta, Keeps-on_overlay, Keeps-if,
  Keeps-bind, Keeps-required,
}
use agentfs.Overlay.Budget.Lookup.{Keeps-lookup, Keeps-resolve_delta_parent}
use agentfs.Overlay.Budget.Change.{Keeps-known}
use agentfs.Overlay.Change.{known}
use agentfs.Overlay.CopyUp.{BaseLayer, Setting, required, update, ensure_parent_dirs, copy_up}
use agentfs.Overlay.Inodes.{Inv}
use agentfs.Overlay.Listing.{
  delta_names, listed_base, base_names_at, base_names, readdir, or_empty, add_names,
}
use agentfs.Overlay.Lookup.{◌>>=◌, ask, view, resolve_delta_parent, lookup}
use agentfs.Overlay.Remove.{
  tolerate, in_parent, hide, hide_visible, unlink, rmdir, copy_source, rename_in_delta, rename,
}
use agentfs.Overlay.Settled.{Settles-Keeps, Settles-update, remove_whiteout-IsSettled}
use agentfs.Overlay.Settled.Copy.{Settles-copy_up, Settles-ensure_parent_dirs}
use agentfs.Overlay.Whiteouts.{create_whiteout, remove_whiteout}
use agentfs.Path.{is_empty}

create_whiteout-IsWithin :
    (now : ℕ) (path : Str) (o : OverlayFs) → Inv o → IsWithin 0 o (create_whiteout now path o)
unfolding create_whiteout
create_whiteout-IsWithin now path o v = record {
  maps = record { reverse = v.reverse; path = v.path; fresh = v.fresh; origin = v.origin };
  numbers = omega arith;
}

module _ {lru : Lru} (base : BaseLayer) where
  Keeps-in_parent : (f : ℕ → Exec lru (Unit {0})) (p : Option ℕ) → Keeps 0 (in_parent base f p)
  unfolding in_parent
  Keeps-in_parent f none = Keeps-pure tt
  Keeps-in_parent f (some p) = Keeps-on_delta (tolerate (f p))

  Keeps-hide : (secs : ℕ) (path : Str) (b : Bool) → Keeps {lru = lru} 0 (hide base secs path b)
  unfolding hide
  Keeps-hide secs path b =
      Keeps-if 0 b _ _
        (Keeps-on_overlay 0 (λ o. (tt, create_whiteout secs path o))
          (λ o v room. create_whiteout-IsWithin secs path o v))
        (Keeps-pure tt)

  Keeps-hide_visible :
      (secs parent : ℕ) (name path : Str)
      → Keeps {lru = lru} 1 (hide_visible base secs parent name path)
  unfolding hide_visible
  Keeps-hide_visible secs parent name path =
      Keeps-bind 1 0 (lookup base.lookup parent name) _ (Keeps-lookup base.lookup parent name)
        λ found. Keeps-hide secs path (is_some found)

  Keeps-delta_names : (info : InodeInfo) → Keeps {lru = lru} 0 (delta_names info)
  unfolding delta_names
  Keeps-delta_names info =
      Keeps-if 0 (same_layer info.layer in_delta) _ _
        (Keeps-on_delta (Listing.list_names info.underlying_ino)) (Keeps-pure _)

  Keeps-base_names : (info : InodeInfo) → Keeps {lru = lru} 0 (base_names base info)
  unfolding base_names
  Keeps-base_names info =
      Keeps-bind 0 0 (ask (listed_base base info)) _ (Keeps-ask (listed_base base info)) λ at.
        Keeps-bind 0 0 (ask (base_names_at base at)) _ (Keeps-ask (base_names_at base at))
          λ found. Keeps-pure (or_empty found)

  pub Keeps-readdir : (ino : ℕ) → Keeps {lru = lru} 0 (readdir base ino)
  unfolding readdir
  Keeps-readdir ino = Keeps-bind 0 0 (known ino) _ (Keeps-known ino) λ info.
      Keeps-bind 0 0 (delta_names info) _ (Keeps-delta_names info) λ upper.
        Keeps-bind 0 0 (base_names base info) _ (Keeps-base_names info) λ lower.
          Keeps-view (λ o. ok (some (add_names info.path o lower (add_names info.path o upper _))))

  module _ (now : Now) (secs parent : ℕ) (name : Str) where
    -- What follows in the parent's directory of the delta, and the whiteout.
    Keeps-removed :
        (info : InodeInfo) (path : Str) (f : ℕ → Exec lru (Unit {0}))
        → Keeps 1 (do
          p ← resolve_delta_parent info
          _ ← in_parent base f p
          hide_visible base secs parent name path)
    Keeps-removed info path f =
        Keeps-bind 0 1 (resolve_delta_parent info) _ (Keeps-resolve_delta_parent info) λ p.
          Keeps-bind 0 1 (in_parent base f p) _ (Keeps-in_parent f p)
            λ _. Keeps-hide_visible secs parent name path

    pub Keeps-unlink : Keeps {lru = lru} 2 (unlink base now secs parent name)
    unfolding unlink
    Keeps-unlink = Keeps-bind 0 2 (known parent) _ (Keeps-known parent) λ info.
        Keeps-bind 0 2 (view (build_path parent name)) _ (Keeps-view (build_path parent name))
          λ path.
            Keeps-bind 1 1 (lookup base.lookup parent name) _ (Keeps-lookup base.lookup parent name)
              λ found.
                Keeps-bind 0 1 (required not_found found) _ (Keeps-required not_found found)
                  λ stats.
                    let file : Result (Unit {0}) =
                      if is_dir stats then err is_a_directory else ok tt in
                    Keeps-bind 0 1 (ask file) _ (Keeps-ask file)
                      λ _. Keeps-removed info path (λ i. Remove.unlink now i name)

    pub Keeps-rmdir : Keeps {lru = lru} 2 (rmdir base now secs parent name)
    unfolding rmdir
    Keeps-rmdir = Keeps-bind 0 2 (known parent) _ (Keeps-known parent) λ info.
        Keeps-bind 0 2 (view (build_path parent name)) _ (Keeps-view (build_path parent name))
          λ path.
            Keeps-bind 1 1 (lookup base.lookup parent name) _ (Keeps-lookup base.lookup parent name)
              λ found.
                Keeps-bind 0 1 (required not_found found) _ (Keeps-required not_found found)
                  λ stats.
                    let dir : Result (Unit {0}) =
                      if is_dir stats then ok tt else err not_a_directory in
                    Keeps-bind 0 1 (ask dir) _ (Keeps-ask dir) λ _.
                      Keeps-bind 0 1 (readdir base stats.ino) _ (Keeps-readdir stats.ino)
                        λ entries. Keeps-emptied info path entries
      where
        Keeps-emptied :
            (info : InodeInfo) (path : Str) (entries : Option (List Str))
            → Keeps 1 (do
              _ ← ask (if is_empty (or_empty entries) then ok tt else err not_empty)
              p ← resolve_delta_parent info
              _ ← in_parent base (λ i. Remove.rmdir {lru = lru} now i name) p
              hide_visible base secs parent name path)
        Keeps-emptied info path entries =
            let bare : Result (Unit {0}) =
              if is_empty (or_empty entries) then ok tt else err not_empty in
            Keeps-bind 0 1 (ask bare) _ (Keeps-ask bare)
              λ _. Keeps-removed info path (λ i. Remove.rmdir now i name)

  module _ (c : Setting) where
    Keeps-copy_source :
        (path : Str) (info : InodeInfo) → Keeps {lru = lru} 0 (copy_source base c path info)
    unfolding copy_source
    Keeps-copy_source path info =
        let copy = copy_up {lru = lru} base c path info.underlying_ino in
        Keeps-if 0 (same_layer info.layer in_base) _ _
          (Settles-Keeps copy (Settles-copy_up base c path info.underlying_ino))
          (Keeps-pure info.underlying_ino)

    Keeps-rename_in_delta :
        (now now' : Now) (info : InodeInfo) (name : Str) (info' : InodeInfo) (name' : Str)
        → Keeps {lru = lru} 0 (rename_in_delta base c now now' info name info' name')
    unfolding rename_in_delta
    Keeps-rename_in_delta now now' info name info' name' =
        Keeps-bind 0 0 (resolve_delta_parent info) _ (Keeps-resolve_delta_parent info) λ from.
          Keeps-bind 0 0 (required not_found from) _ (Keeps-required not_found from) λ p.
            Keeps-bind 0 0 (resolve_delta_parent info') _ (Keeps-resolve_delta_parent info') λ to.
              Keeps-bind 0 0 (required not_found to) _ (Keeps-required not_found to)
                λ p'. Keeps-on_delta (Rename.rename now now' p name p' name')

    -- The copies, the rename and the whiteout, once the source is known.
    Keeps-renamed :
        (now now' : Now) (secs parent : ℕ) (name path name' path' : Str) (old new info : InodeInfo)
        → Keeps {lru = lru} 1 (do
          _ ← copy_source base c path info
          _ ← update (remove_whiteout path')
          _ ← ensure_parent_dirs base c path' 0 0
          _ ← rename_in_delta base c now now' old name new name'
          hide_visible base secs parent name path)
    Keeps-renamed now now' secs parent name path name' path' old new info =
        Keeps-bind 0 1 (copy_source base c path info) _ (Keeps-copy_source path info) λ _.
          Keeps-bind 0 1 (update (remove_whiteout path')) _
            (Settles-Keeps (update (remove_whiteout path'))
              (Settles-update (remove_whiteout path') (remove_whiteout-IsSettled path')))
            λ _.
              Keeps-bind 0 1 (ensure_parent_dirs base c path' 0 0) _
                (Settles-Keeps (ensure_parent_dirs base c path' 0 0)
                  (Settles-ensure_parent_dirs base c path' 0 0))
                λ _.
                  Keeps-bind 0 1 (rename_in_delta base c now now' old name new name') _
                    (Keeps-rename_in_delta now now' old name new name')
                    λ _. Keeps-hide_visible secs parent name path

    pub Keeps-rename :
        (now now' : Now) (secs parent : ℕ) (name : Str) (parent' : ℕ) (name' : Str)
        → Keeps {lru = lru} 2 (rename base c now now' secs parent name parent' name')
    unfolding rename
    Keeps-rename now now' secs parent name parent' name' =
        Keeps-bind 0 2 (known parent) _ (Keeps-known parent) λ old.
          Keeps-bind 0 2 (known parent') _ (Keeps-known parent') λ new.
            Keeps-bind 0 2 (view (build_path parent name)) _ (Keeps-view (build_path parent name))
              λ path.
                Keeps-bind 0 2 (view (build_path parent' name')) _
                  (Keeps-view (build_path parent' name'))
                  λ path'.
                    Keeps-bind 1 1 (lookup base.lookup parent name) _
                      (Keeps-lookup base.lookup parent name)
                      λ found.
                        Keeps-bind 0 1 (required not_found found) _ (Keeps-required not_found found)
                          λ stats.
                            Keeps-bind 0 1 (known stats.ino) _ (Keeps-known stats.ino)
                              (Keeps-renamed now now' secs parent name path name' path' old new)
