-- ===== src/Overlay/Change.antt =====
-- The operations of `OverlayFS` that change an inode or make a new name. Each works in the delta, into
-- which it copies what it needs.
use agentfs.Base.{ℕ, Option, if◌then◌else◌, Str}
use agentfs.Db.{Now}
use agentfs.Fs.Attr
use agentfs.Fs.Attr.{TimeChange}
use agentfs.Fs.Cache.{Lru}
use agentfs.Fs.Create
use agentfs.Fs.{ok, err, Stats, not_found, already_exists, is_some}
use agentfs.ByPath.Remove as Owner
use agentfs.Overlay.{
  in_delta, InodeInfo, same_layer, build_path, get_inode_info, get_or_create_overlay_ino,
}
use agentfs.Overlay.CopyUp.{
  BaseLayer, Setting, required, update, ensure_parent_dirs, copy_up, copy_up_and_update_mapping,
}
use agentfs.Overlay.Lookup.{
  Act, ◌>>=◌, pure, ask, view, on_delta, on_overlay, resolve_delta_parent, lookup,
}
use agentfs.Overlay.Whiteouts.{is_whiteout, remove_whiteout}

module _ {lru : Lru} where
  -- `get_inode_info(ino).ok_or(NotFound)?`
  unfoldable pub known : ℕ → Act lru InodeInfo
  known ino = do info ← view (λ o. ok (get_inode_info ino o)); required not_found info

  -- `if is_whiteout(path) { return Err(NotFound) }`
  abbrev pub not_hidden : Str → Act lru (Unit {0})
  not_hidden path = view (λ o. if is_whiteout path o then err not_found else ok tt)

  -- The attributes of a new inode, with the overlay's number.
  unfoldable pub number_new : Str → Stats → Act lru Stats
  number_new path stats = do
    ino ← on_overlay (get_or_create_overlay_ino in_delta stats.ino path)
    pure (record stats { ino = ino })

  module _ (base : BaseLayer) (c : Setting) where
    unfoldable pub in_delta_layer : ℕ → InodeInfo → Act lru ℕ
    in_delta_layer ino info =
        if same_layer info.layer in_delta
        then pure info.underlying_ino
        else copy_up_and_update_mapping base c ino info

    -- The inode in the delta that an operation on an inode goes to.
    unfoldable pub delta_ino_of : ℕ → Act lru ℕ
    delta_ino_of ino = do info ← known ino; _ ← not_hidden info.path; in_delta_layer ino info

    unfoldable pub chmod : Now → ℕ → ℕ → Act lru (Unit {0})
    chmod now ino mode = do delta_ino ← delta_ino_of ino; on_delta (Attr.chmod now delta_ino mode)

    -- The method that takes an inode is that of `impl AgentFS`, not that of its file system.
    unfoldable pub chown : ℕ → Option ℕ → Option ℕ → Act lru (Unit {0})
    chown ino uid gid = do delta_ino ← delta_ino_of ino; on_delta (Owner.chown delta_ino uid gid)

    unfoldable pub utimens : Now → Now → Now → ℕ → TimeChange → TimeChange → Act lru (Unit {0})
    utimens ta tm tc ino atime mtime = do
      delta_ino ← delta_ino_of ino
      on_delta (Attr.utimens ta tm tc delta_ino atime mtime)

    unfoldable pub open_file : ℕ → Act lru ℕ
    open_file ino = do delta_ino ← delta_ino_of ino; on_delta (Attr.open_file delta_ino)

    -- The delta's directory for a new name, which a whiteout hides no longer.
    unfoldable pub make_room : InodeInfo → Str → ℕ → ℕ → Act lru ℕ
    make_room info path uid gid = do
      _ ← update (remove_whiteout path)
      _ ← ensure_parent_dirs base c path uid gid
      parent ← resolve_delta_parent info
      required not_found parent

    unfoldable pub mkdir : Now → ℕ → Str → ℕ → ℕ → ℕ → Act lru Stats
    mkdir now parent name mode uid gid = do
      info ← known parent
      path ← view (build_path parent name)
      found ← lookup base.lookup parent name
      _ ← ask (if is_some found then err already_exists else ok tt)
      p ← make_room info path uid gid
      stats ← on_delta (Create.mkdir now p name mode uid gid)
      number_new path stats

    -- The handle of the open file is its inode in the delta.
    unfoldable pub create_file : Now → ℕ → Str → ℕ → ℕ → ℕ → Act lru (Stats × ℕ)
    create_file now parent name mode uid gid = do
      info ← known parent
      path ← view (build_path parent name)
      p ← make_room info path uid gid
      made ← on_delta (Create.create_file now p name mode uid gid)
      stats ← number_new path made.0
      pure (stats, made.1)

    unfoldable pub mknod : Now → ℕ → Str → ℕ → ℕ → ℕ → ℕ → Act lru Stats
    mknod now parent name mode rdev uid gid = do
      info ← known parent
      path ← view (build_path parent name)
      p ← make_room info path uid gid
      stats ← on_delta (Create.mknod now p name mode rdev uid gid)
      number_new path stats

    unfoldable pub symlink : Now → ℕ → Str → Str → ℕ → ℕ → Act lru Stats
    symlink now parent name target uid gid = do
      info ← known parent
      path ← view (build_path parent name)
      p ← make_room info path uid gid
      stats ← on_delta (Create.symlink now p name target uid gid)
      number_new path stats

    -- What a link is made to: a copy that no map is told of.
    unfoldable pub linked_ino : InodeInfo → Act lru ℕ
    linked_ino info =
        if same_layer info.layer in_delta
        then pure info.underlying_ino
        else copy_up base c info.path info.underlying_ino

    unfoldable pub link : Now → ℕ → ℕ → Str → Act lru Stats
    link now ino new_parent new_name = do
      info ← known ino
      parent_info ← known new_parent
      new_path ← view (build_path new_parent new_name)
      delta_ino ← linked_ino info
      p ← make_room parent_info new_path 0 0
      stats ← on_delta (Create.link now delta_ino p new_name)
      pure (record stats { ino = ino })
