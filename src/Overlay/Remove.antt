-- ===== src/Overlay/Remove.antt =====
-- `unlink`, `rmdir` and `rename` of `OverlayFS`: what goes away in the delta and is still there in the
-- base gets a whiteout.
use agentfs.Base.{ℕ, Bool, Option, none, some, if◌then◌else◌, Str}
use agentfs.Db.{Now}
use agentfs.Fs.Cache.{Lru}
use agentfs.Fs.Remove
use agentfs.Fs.Rename
use agentfs.Fs.{
  Exec, Result, ok, err, not_found, not_empty, not_a_directory, is_a_directory, is_some,
}
use agentfs.ByPath.Remove.{is_dir}
use agentfs.Overlay.{in_base, InodeInfo, same_layer, build_path}
use agentfs.Overlay.Change.{known}
use agentfs.Overlay.CopyUp.{BaseLayer, Setting, required, update, ensure_parent_dirs, copy_up}
use agentfs.Overlay.Listing.{readdir, or_empty}
use agentfs.Overlay.Lookup.{Act, ◌>>=◌, pure, ask, view, on_delta, resolve_delta_parent, lookup}
use agentfs.Overlay.Whiteouts.{create_whiteout, remove_whiteout}
use agentfs.Path.{is_empty}

-- `Ok(()) => {}`, `Err(NotFound) => {}`, `Err(e) => return Err(e)`
abbrev pub unless_missing : Result (Unit {0}) → Result (Unit {0})
unless_missing (ok a) = ok tt
unless_missing (err not_found) = ok tt
unless_missing (err e) = err e

abbrev pub tolerate : {lru : Lru} → Exec lru (Unit {0}) → Exec lru (Unit {0})
tolerate m s = (unless_missing (m s).0, (m s).1)

module _ {lru : Lru} (base : BaseLayer) where
  -- Where the delta has the parent.
  unfoldable pub in_parent : (ℕ → Exec lru (Unit {0})) → Option ℕ → Act lru (Unit {0})
  in_parent f none = pure tt
  in_parent f (some p) = on_delta (tolerate (f p))

  unfoldable pub hide : ℕ → Str → Bool → Act lru (Unit {0})
  hide now path visible = if visible then update (create_whiteout now path) else pure tt

  -- If the name is still visible, it must come from the base: a whiteout hides it.
  unfoldable pub hide_visible : ℕ → ℕ → Str → Str → Act lru (Unit {0})
  hide_visible now parent name path = do
    found ← lookup base.lookup parent name
    hide now path (is_some found)

  unfoldable pub unlink : Now → ℕ → ℕ → Str → Act lru (Unit {0})
  unlink now secs parent name = do
    info ← known parent
    path ← view (build_path parent name)
    found ← lookup base.lookup parent name
    stats ← required not_found found
    _ ← ask (if is_dir stats then err is_a_directory else ok tt)
    p ← resolve_delta_parent info
    _ ← in_parent (λ i. Remove.unlink now i name) p
    hide_visible secs parent name path

  unfoldable pub rmdir : Now → ℕ → ℕ → Str → Act lru (Unit {0})
  rmdir now secs parent name = do
    info ← known parent
    path ← view (build_path parent name)
    found ← lookup base.lookup parent name
    stats ← required not_found found
    _ ← ask (if is_dir stats then ok tt else err not_a_directory)
    entries ← readdir base stats.ino
    _ ← ask (if is_empty (or_empty entries) then ok tt else err not_empty)
    p ← resolve_delta_parent info
    _ ← in_parent (λ i. Remove.rmdir now i name) p
    hide_visible secs parent name path

  module _ (c : Setting) where
    -- A copy that no map is told of.
    unfoldable pub copy_source : Str → InodeInfo → Act lru ℕ
    copy_source path info =
        if same_layer info.layer in_base
        then copy_up base c path info.underlying_ino
        else pure info.underlying_ino

    -- The rename in the delta, whose parents are there after the copies.
    unfoldable pub rename_in_delta :
        Now → Now → InodeInfo → Str → InodeInfo → Str → Act lru (Unit {0})
    rename_in_delta now now' old_info old_name new_info new_name = do
      from ← resolve_delta_parent old_info
      p ← required not_found from
      to ← resolve_delta_parent new_info
      p' ← required not_found to
      on_delta (Rename.rename now now' p old_name p' new_name)

    unfoldable pub rename : Now → Now → ℕ → ℕ → Str → ℕ → Str → Act lru (Unit {0})
    rename now now' secs old_parent old_name new_parent new_name = do
      old_info ← known old_parent
      new_info ← known new_parent
      old_path ← view (build_path old_parent old_name)
      new_path ← view (build_path new_parent new_name)
      found ← lookup base.lookup old_parent old_name
      stats ← required not_found found
      info ← known stats.ino
      _ ← copy_source old_path info
      _ ← update (remove_whiteout new_path)
      _ ← ensure_parent_dirs base c new_path 0 0
      _ ← rename_in_delta now now' old_info old_name new_info new_name
      hide_visible secs old_parent old_name old_path
