-- ===== src/Overlay/CopyUp.antt =====
-- Copies from the base to the delta: `ensure_parent_dirs`, `copy_up` and `copy_up_and_update_mapping`
-- of `OverlayFS`.
use agentfs.Base.{
  ℕ, ◌==◌, Bool, Option, none, some, List, [], ◌∷◌, ◌++◌, length, or_else, if◌then◌else◌, Str, Blob,
}
use agentfs.Db.{Now}
use agentfs.Db.Mode.{file_type, permissions, s_iflnk}
use agentfs.Fs.Attr
use agentfs.Fs.Cache.{Lru}
use agentfs.Fs.Create
use agentfs.Fs.Listing.{DirEntry}
use agentfs.Fs.{
  Exec, Result, ok, err, FsError, Stats, not_found, not_a_directory, root_operation, execute, last,
}
use agentfs.ByPath.Remove.{is_dir}
use agentfs.OpenFile.{pwrite}
use agentfs.Path.{slash}
use agentfs.Overlay.{InodeInfo, OverlayFs, add_origin_mapping, promote_to_delta, update_mapping}
use agentfs.Overlay.Lookup.{Base, Act, ◌>>=◌, pure, ask, on_delta, on_overlay, components}
use agentfs.Overlay.Whiteouts.{remove_whiteout}

-- What the base layer answers. `open` with O_RDONLY gives a handle, which `pread` takes.
pub record BaseLayer : Type 0 where
  pub lookup : Base
  pub getattr : ℕ → Result (Option Stats)
  pub readlink : ℕ → Result (Option Str)
  pub readdir : ℕ → Result (Option (List Str))
  pub readdir_plus : ℕ → Result (Option (List DirEntry))
  pub open_file : ℕ → Result ℕ
  pub pread : ℕ → ℕ → ℕ → Result Blob

-- `take(components.len().saturating_sub(1))` and `last()`
abbrev pub but_last {ℓ} : {A : Type ℓ} → List A → List A
but_last [] = []
but_last (x ∷ []) = []
but_last (x ∷ y ∷ xs) = x ∷ but_last (y ∷ xs)

-- `Stats::is_symlink`
abbrev pub is_link : Stats → Bool
is_link s = file_type s.mode == s_iflnk

-- Where the walk stands in the delta and in the base.
pub record Place : Type 0 where
  pub delta_ino : ℕ
  pub base_ino : ℕ

-- The readings of the clock in a copy, for a directory by the number of components that are left,
-- and the chunk size of the delta.
pub record Setting : Type 0 where
  pub clock : ℕ → Now
  pub made : Now
  pub written : Now
  pub chunk_size : ℕ

-- The handle that `create_file` returns. The write ends, by the theorem on its fuel, if the chunk
-- size is positive.
unfoldable pub write_content : {lru : Lru} → Setting → ℕ → Blob → Exec lru (Unit {0})
write_content c ino content = execute λ db.
    or_else (pwrite (record { ino = ino; chunk_size = c.chunk_size }) c.written db 0 content) db

module _ {lru : Lru} where
  -- `ok_or(e)?`
  abbrev pub required : {A : Type 0} → FsError → Option A → Act lru A
  required e none s = (err e, s)
  required e (some a) s = (ok a, s)

  -- A write to the overlay's own state.
  abbrev pub update : (OverlayFs → OverlayFs) → Act lru (Unit {0})
  update f = on_overlay (λ o. (tt, f o))

  module _ (base : BaseLayer) (c : Setting) where
    -- A component of which the delta has nothing: a directory is made, with the owner of the base's.
    unfoldable pub make_parent : ℕ → ℕ → Str → Str → Place → ℕ → Option Stats → Act lru Place
    make_parent uid gid path name at left none = do
      made ← on_delta (Create.mkdir (c.clock left) at.delta_ino name 0o755 uid gid)
      pure (record at { delta_ino = made.ino })
    make_parent uid gid path name at left (some s) = do
      made ← on_delta (Create.mkdir (c.clock left) at.delta_ino name 0o755 s.uid s.gid)
      _ ← update (add_origin_mapping made.ino s.ino)
      _ ← update (promote_to_delta path made.ino)
      pure (record { delta_ino = made.ino; base_ino = s.ino })

    unfoldable pub enter_parent : ℕ → ℕ → Str → Str → Place → ℕ → Option Stats → Act lru Place
    enter_parent uid gid path name at left none = do
      found ← ask (base.lookup at.base_ino name)
      make_parent uid gid path name at left found
    enter_parent uid gid path name at left (some stats) =
        if is_dir stats
        then (do
          found ← ask (base.lookup at.base_ino name)
          pure (record {
            delta_ino = stats.ino;
            base_ino = elim found [ none ↦ at.base_ino | some s ↦ s.ino ];
          }))
        else ask (err not_a_directory)

    -- The loop over the components, with the path so far.
    unfoldable pub ensure_dirs : ℕ → ℕ → List Str → Str → Place → Act lru (Unit {0})
    ensure_dirs uid gid [] current at = pure tt
    ensure_dirs uid gid (name ∷ names) current at = do
      _ ← update (remove_whiteout (current ++ (slash ∷ name)))
      found ← on_delta (Attr.lookup at.delta_ino name)
      next ← enter_parent uid gid (current ++ (slash ∷ name)) name at (length names) found
      ensure_dirs uid gid names (current ++ (slash ∷ name)) next

    unfoldable pub ensure_parent_dirs : Str → ℕ → ℕ → Act lru (Unit {0})
    ensure_parent_dirs path uid gid =
        ensure_dirs uid gid (but_last (components path)) [] (record { delta_ino = 1; base_ino = 1 })

    -- The walk of `copy_up` through the delta, which does not ask for directories.
    unfoldable pub follow_delta : List Str → ℕ → Act lru (Option ℕ)
    follow_delta [] ino = pure (some ino)
    follow_delta (name ∷ names) ino = do
      found ← on_delta (Attr.lookup ino name)
      elim found [ none ↦ pure none | some stats ↦ follow_delta names stats.ino ]

    -- What is at the name already, if the parent was found.
    unfoldable pub already_copied : Str → Option ℕ → Act lru (Option Stats)
    already_copied name none = pure none
    already_copied name (some p) = on_delta (Attr.lookup p name)

    unfoldable pub copy_link : ℕ → Str → ℕ → Stats → Act lru ℕ
    copy_link parent name base_ino s = do
      answer ← ask (base.readlink base_ino)
      target ← required not_found answer
      made ← on_delta (Create.symlink c.made parent name target s.uid s.gid)
      pure made.ino

    unfoldable pub copy_dir : ℕ → Str → Stats → Act lru ℕ
    copy_dir parent name s = do
      made ← on_delta (Create.mkdir c.made parent name (permissions s.mode) s.uid s.gid)
      pure made.ino

    unfoldable pub copy_file : ℕ → Str → ℕ → Stats → Act lru ℕ
    copy_file parent name base_ino s = do
      handle ← ask (base.open_file base_ino)
      content ← ask (base.pread handle 0 s.size)
      made ← on_delta (Create.create_file c.made parent name s.mode s.uid s.gid)
      _ ← on_delta (write_content c made.1 content)
      pure made.0.ino

    -- Copy based on file type
    unfoldable pub copy_entry : ℕ → Str → ℕ → Stats → Act lru ℕ
    copy_entry parent name base_ino s =
        if is_link s
        then copy_link parent name base_ino s
        else if is_dir s
        then copy_dir parent name s
        else copy_file parent name base_ino s

    unfoldable pub copy_missing : Str → List Str → Str → ℕ → Act lru ℕ
    copy_missing path parents name base_ino = do
      answer ← ask (base.getattr base_ino)
      stats ← required not_found answer
      _ ← ensure_parent_dirs path stats.uid stats.gid
      place ← follow_delta parents 1
      parent ← required not_found place
      delta_ino ← copy_entry parent name base_ino stats
      _ ← update (add_origin_mapping delta_ino base_ino)
      pure delta_ino

    unfoldable pub unless_copied : Str → List Str → Str → ℕ → Option Stats → Act lru ℕ
    unless_copied path parents name base_ino (some stats) = pure stats.ino
    unless_copied path parents name base_ino none = copy_missing path parents name base_ino

    -- The path of the root has no components.
    unfoldable pub copy_named : Str → List Str → Option Str → ℕ → Act lru ℕ
    copy_named path parents none base_ino = ask (err root_operation)
    copy_named path parents (some name) base_ino = do
      parent ← follow_delta parents 1
      found ← already_copied name parent
      unless_copied path parents name base_ino found

    unfoldable pub copy_up : Str → ℕ → Act lru ℕ
    copy_up path base_ino =
        copy_named path (but_last (components path)) (last (components path)) base_ino

    unfoldable pub copy_up_and_update_mapping : ℕ → InodeInfo → Act lru ℕ
    copy_up_and_update_mapping ino info = do
      delta_ino ← copy_up info.path info.underlying_ino
      _ ← update (update_mapping ino info delta_ino)
      pure delta_ino
