-- ===== src/Overlay/Settled/Copy.antt =====
-- The copy of a path from the base to the delta settles, step by step.
use agentfs.Base.{ℕ, Option, none, some, List, [], ◌∷◌, ◌++◌, Str, Option-cases, inl, inr, length}
use agentfs.Db.Mode.{permissions}
use agentfs.Fs.Attr
use agentfs.Fs.Cache.{Lru}
use agentfs.Fs.Create
use agentfs.Fs.{err, Stats, not_found, not_a_directory, root_operation, last}
use agentfs.ByPath.Remove.{is_dir}
use agentfs.Path.{slash}
use agentfs.Overlay.{add_origin_mapping, promote_to_delta}
use agentfs.Overlay.CopyUp.{
  BaseLayer, Setting, Place, required, update, is_link, make_parent, enter_parent, ensure_dirs,
  ensure_parent_dirs, follow_delta, already_copied, copy_link, copy_dir, copy_file, copy_entry,
  copy_missing, unless_copied, copy_named, copy_up, write_content, but_last,
}
use agentfs.Overlay.Lookup.{◌>>=◌, pure, ask, on_delta, components}
use agentfs.Overlay.Settled.{
  Settles, Settles-pure, Settles-ask, Settles-on_delta, Settles-required, Settles-if, Settles-bind,
  Settles-update, remove_whiteout-IsSettled, add_origin_mapping-IsSettled,
  promote_to_delta-IsSettled,
}
use agentfs.Overlay.Whiteouts.{remove_whiteout}

module _ {lru : Lru} (base : BaseLayer) (c : Setting) where
  module _ (uid gid : ℕ) where
    Settles-make_parent :
        (path name : Str) (at : Place) (left : ℕ) (found : Option Stats)
        → Settles {lru = lru} (make_parent base c uid gid path name at left found)
    unfolding make_parent
    Settles-make_parent path name at left none =
        let make = Create.mkdir {lru = lru} (c.clock left) at.delta_ino name 0o755 uid gid in
        Settles-bind (on_delta make) _ (Settles-on_delta make)
          λ made. Settles-pure (record at { delta_ino = made.ino })
    Settles-make_parent path name at left (some s) =
        let make = Create.mkdir {lru = lru} (c.clock left) at.delta_ino name 0o755 s.uid s.gid in
        Settles-bind (on_delta make) _ (Settles-on_delta make) λ made.
          Settles-bind (update (add_origin_mapping made.ino s.ino)) _
            (Settles-update (add_origin_mapping made.ino s.ino)
              (add_origin_mapping-IsSettled made.ino s.ino))
            λ _.
              Settles-bind (update (promote_to_delta path made.ino)) _
                (Settles-update (promote_to_delta path made.ino)
                  (promote_to_delta-IsSettled path made.ino))
                λ _. Settles-pure (record { delta_ino = made.ino; base_ino = s.ino })

    Settles-enter_parent :
        (path name : Str) (at : Place) (left : ℕ) (found : Option Stats)
        → Settles {lru = lru} (enter_parent base c uid gid path name at left found)
    unfolding enter_parent
    Settles-enter_parent path name at left none =
        Settles-bind (ask (base.lookup at.base_ino name)) _
          (Settles-ask (base.lookup at.base_ino name))
          λ found. Settles-make_parent path name at left found
    Settles-enter_parent path name at left (some stats) =
        Settles-if (is_dir stats) _ _
          (Settles-bind (ask (base.lookup at.base_ino name)) _
            (Settles-ask (base.lookup at.base_ino name))
            λ found. Settles-pure (record {
              delta_ino = stats.ino;
              base_ino = elim found [ none ↦ at.base_ino | some s ↦ s.ino ];
            }))
          (Settles-ask (err not_a_directory))

    Settles-ensure_dirs :
        (names : List Str) (current : Str) (at : Place)
        → Settles {lru = lru} (ensure_dirs base c uid gid names current at)
    unfolding ensure_dirs
    Settles-ensure_dirs [] current at = Settles-pure tt
    Settles-ensure_dirs (name ∷ names) current at =
        let path = current ++ (slash ∷ name) in
        Settles-bind (update (remove_whiteout path)) _
          (Settles-update (remove_whiteout path) (remove_whiteout-IsSettled path))
          λ _.
            Settles-bind (on_delta (Attr.lookup at.delta_ino name)) _
              (Settles-on_delta (Attr.lookup at.delta_ino name))
              λ found.
                Settles-bind (enter_parent base c uid gid path name at (length names) found) _
                  (Settles-enter_parent path name at (length names) found)
                  λ next. Settles-ensure_dirs names path next

  pub Settles-ensure_parent_dirs :
      (path : Str) (uid gid : ℕ) → Settles {lru = lru} (ensure_parent_dirs base c path uid gid)
  unfolding ensure_parent_dirs
  Settles-ensure_parent_dirs path uid gid =
      Settles-ensure_dirs uid gid (but_last (components path)) []
        (record { delta_ino = 1; base_ino = 1 })

  Settles-follow_delta :
      (names : List Str) (ino : ℕ) → Settles {lru = lru} (follow_delta base c names ino)
  unfolding follow_delta
  Settles-follow_delta [] ino = Settles-pure (some ino)
  Settles-follow_delta (name ∷ names) ino =
      Settles-bind (on_delta (Attr.lookup ino name)) _ (Settles-on_delta (Attr.lookup ino name))
        λ found. elim (Option-cases found) [
          | inl gone ↦ rw gone (Settles-pure none)
          | inr (stats, there) ↦ rw there (Settles-follow_delta names stats.ino)
        ]

  Settles-already_copied :
      (name : Str) (parent : Option ℕ) → Settles {lru = lru} (already_copied base c name parent)
  unfolding already_copied
  Settles-already_copied name none = Settles-pure none
  Settles-already_copied name (some p) = Settles-on_delta (Attr.lookup p name)

  module _ (parent : ℕ) (name : Str) (s : Stats) where
    Settles-copy_dir : Settles {lru = lru} (copy_dir base c parent name s)
    unfolding copy_dir
    Settles-copy_dir =
        let make = Create.mkdir {lru = lru} c.made parent name (permissions s.mode) s.uid s.gid in
        Settles-bind (on_delta make) _ (Settles-on_delta make) λ made. Settles-pure made.ino

    module _ (base_ino : ℕ) where
      Settles-copy_link : Settles {lru = lru} (copy_link base c parent name base_ino s)
      unfolding copy_link
      Settles-copy_link =
          Settles-bind (ask (base.readlink base_ino)) _ (Settles-ask (base.readlink base_ino))
            λ answer.
              Settles-bind (required not_found answer) _ (Settles-required not_found answer)
                λ target.
                  let make = Create.symlink {lru = lru} c.made parent name target s.uid s.gid in
                  Settles-bind (on_delta make) _ (Settles-on_delta make)
                    λ made. Settles-pure made.ino

      Settles-copy_file : Settles {lru = lru} (copy_file base c parent name base_ino s)
      unfolding copy_file
      Settles-copy_file =
          let make = Create.create_file {lru = lru} c.made parent name s.mode s.uid s.gid in
          Settles-bind (ask (base.open_file base_ino)) _ (Settles-ask (base.open_file base_ino))
            λ handle.
              Settles-bind (ask (base.pread handle 0 s.size)) _
                (Settles-ask (base.pread handle 0 s.size))
                λ content. Settles-bind (on_delta make) _ (Settles-on_delta make) λ made.
                  Settles-bind (on_delta (write_content c made.1 content)) _
                    (Settles-on_delta (write_content c made.1 content)) λ _. Settles-pure made.0.ino

      Settles-copy_entry : Settles {lru = lru} (copy_entry base c parent name base_ino s)
      unfolding copy_entry
      Settles-copy_entry =
          Settles-if (is_link s) _ _ Settles-copy_link
            (Settles-if (is_dir s) _ _ Settles-copy_dir Settles-copy_file)

  module _ (path : Str) (parents : List Str) where
    Settles-copied :
        (name : Str) (base_ino parent : ℕ) (stats : Stats)
        → Settles {lru = lru} (do
          delta_ino ← copy_entry base c parent name base_ino stats
          _ ← update (add_origin_mapping delta_ino base_ino)
          pure delta_ino)
    Settles-copied name base_ino parent stats =
        Settles-bind (copy_entry base c parent name base_ino stats) _
          (Settles-copy_entry parent name stats base_ino)
          λ d.
            Settles-bind (update (add_origin_mapping d base_ino)) _
              (Settles-update (add_origin_mapping d base_ino)
                (add_origin_mapping-IsSettled d base_ino))
              λ _. Settles-pure d

    Settles-copy_missing :
        (name : Str) (base_ino : ℕ)
        → Settles {lru = lru} (copy_missing base c path parents name base_ino)
    unfolding copy_missing
    Settles-copy_missing name base_ino =
        Settles-bind (ask (base.getattr base_ino)) _ (Settles-ask (base.getattr base_ino)) λ answer.
          Settles-bind (required not_found answer) _ (Settles-required not_found answer) λ stats.
            Settles-bind (ensure_parent_dirs base c path stats.uid stats.gid) _
              (Settles-ensure_parent_dirs path stats.uid stats.gid)
              λ _.
                Settles-bind (follow_delta base c parents 1) _ (Settles-follow_delta parents 1)
                  λ place.
                    Settles-bind (required not_found place) _ (Settles-required not_found place)
                      λ parent. Settles-copied name base_ino parent stats

    Settles-unless_copied :
        (name : Str) (base_ino : ℕ) (found : Option Stats)
        → Settles {lru = lru} (unless_copied base c path parents name base_ino found)
    unfolding unless_copied
    Settles-unless_copied name base_ino (some stats) = Settles-pure stats.ino
    Settles-unless_copied name base_ino none = Settles-copy_missing name base_ino

    Settles-copy_named :
        (name : Option Str) (base_ino : ℕ)
        → Settles {lru = lru} (copy_named base c path parents name base_ino)
    unfolding copy_named
    Settles-copy_named none base_ino = Settles-ask (err root_operation)
    Settles-copy_named (some name) base_ino =
        Settles-bind (follow_delta base c parents 1) _ (Settles-follow_delta parents 1) λ parent.
          Settles-bind (already_copied base c name parent) _ (Settles-already_copied name parent)
            λ found. Settles-unless_copied name base_ino found

  pub Settles-copy_up :
      (path : Str) (base_ino : ℕ) → Settles {lru = lru} (copy_up base c path base_ino)
  unfolding copy_up
  Settles-copy_up path base_ino =
      Settles-copy_named path (but_last (components path)) (last (components path)) base_ino
