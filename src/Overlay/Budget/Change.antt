-- ===== src/Overlay/Budget/Change.antt =====
-- The operations that change an inode give out no number, those that make one give out two at most.
use agentfs.Base.{
  ℕ, ◌+◌, ◌<◌, ◌≡◌, refl, Option, none, some, arith, Str, Option-cases, Bool-cases, inl, inr,
  if◌then◌else◌,
}
use agentfs.Db.{Now}
use agentfs.Fs.Attr
use agentfs.Fs.Attr.{TimeChange}
use agentfs.Fs.Cache.{Lru}
use agentfs.Fs.Create
use agentfs.Fs.{Exec, Result, ok, err, Stats, not_found, already_exists, is_some}
use agentfs.ByPath.Remove as Owner
use agentfs.ByPath.Steps.{Result-cases}
use agentfs.Overlay.{
  in_delta, InodeInfo, OverlayFs, i64_range, same_layer, build_path, get_inode_info, update_mapping,
  get_or_create_overlay_ino,
}
use agentfs.Overlay.Budget.{
  IsWithin, given-IsWithin, unmoved, Keeps, Keeps-pure, Keeps-ask, Keeps-view, Keeps-on_delta,
  Keeps-on_overlay, Keeps-if, Keeps-bind, Keeps-required,
}
use agentfs.Overlay.Budget.Lookup.{Keeps-lookup, Keeps-resolve_delta_parent}
use agentfs.Overlay.Change.{
  known, number_new, in_delta_layer, delta_ino_of, chmod, chown, utimens, open_file, make_room,
  mkdir, create_file, mknod, symlink, linked_ino, link,
}
use agentfs.Overlay.CopyUp.{
  BaseLayer, Setting, update, ensure_parent_dirs, copy_up, copy_up_and_update_mapping,
}
use agentfs.Overlay.Inodes.{Inv, update_mapping-Inv}
use agentfs.Overlay.Lookup.{
  Session, Act, ◌>>=◌, ask, view, on_delta, on_overlay, resolve_delta_parent, lookup,
}
use agentfs.Overlay.Settled.{Settles-Keeps, Settles-update, remove_whiteout-IsSettled}
use agentfs.Overlay.Settled.Copy.{Settles-copy_up, Settles-ensure_parent_dirs}
use agentfs.Overlay.Whiteouts.{is_whiteout, remove_whiteout}

-- The path is that of the number, whatever else is known of it.
update_mapping-IsWithin :
    (i d : ℕ) (info info' : InodeInfo) (o : OverlayFs)
    → Inv o
    → o.inode_map i ≡ some info'
    → info'.path ≡ info.path
    → IsWithin 0 o (update_mapping i info d o)
unfolding update_mapping
update_mapping-IsWithin i d info info' o v row e = record {
  maps = rw e at (update_mapping-Inv o v i info' d row);
  numbers = omega arith;
}

module _ {lru : Lru} where
  pub Keeps-known : (ino : ℕ) → Keeps {lru = lru} 0 (known ino)
  unfolding known
  Keeps-known ino =
      let row : OverlayFs → Result (Option InodeInfo) = λ o. ok (get_inode_info ino o) in
      Keeps-bind 0 0 (view row) _ (Keeps-view row) λ info. Keeps-required not_found info

  known-gone :
      (ino : ℕ) (s : Session lru)
      → s.overlay.inode_map ino ≡ none
      → known ino s ≡ (err not_found, s)
  unfolding known
  known-gone ino s gone = ground arith

  known-row :
      (ino : ℕ) (info : InodeInfo) (s : Session lru)
      → s.overlay.inode_map ino ≡ some info
      → known ino s ≡ (ok info, s)
  unfolding known
  known-row ino info s row = ground arith

  Keeps-number_new : (path : Str) (stats : Stats) → Keeps {lru = lru} 1 (number_new path stats)
  unfolding number_new
  Keeps-number_new path stats =
      let number = get_or_create_overlay_ino in_delta stats.ino path in
      Keeps-bind 1 0 (on_overlay number) _
        (Keeps-on_overlay 1 number (given-IsWithin in_delta stats.ino path))
        λ ino. Keeps-pure (record stats { ino = ino })

  module _ (base : BaseLayer) (c : Setting) where
    copied-IsWithin :
        (ino : ℕ) (info : InodeInfo) (s : Session lru)
        → Inv s.overlay
        → s.overlay.next_ino + 0 < i64_range
        → s.overlay.inode_map ino ≡ some info
        → IsWithin 0 s.overlay (copy_up_and_update_mapping base c ino info s).1.overlay
    unfolding copy_up_and_update_mapping
    copied-IsWithin ino info s v room row =
        let copy = copy_up {lru = lru} base c info.path info.underlying_ino in
        let w = (Settles-copy_up base c info.path info.underlying_ino).at s v in
        let (info', row', named) = w.paths ino info row in
        elim (Result-cases (copy s).0) [
          | inl (d, e) ↦
              let u =
                update_mapping-IsWithin ino d info info' (copy s).1.overlay w.maps row' named in
              rw e (record { maps = u.maps; numbers = omega (arith, u.numbers, w.next) })
          | inr (x, e) ↦ rw e (record { maps = w.maps; numbers = omega (arith, w.next) })
        ]

    in_delta_layer-IsWithin :
        (ino : ℕ) (info : InodeInfo) (s : Session lru)
        → Inv s.overlay
        → s.overlay.next_ino + 0 < i64_range
        → s.overlay.inode_map ino ≡ some info
        → IsWithin 0 s.overlay (in_delta_layer base c ino info s).1.overlay
    unfolding in_delta_layer
    in_delta_layer-IsWithin ino info s v room row =
        elim (Bool-cases (same_layer info.layer in_delta)) [
          | inl delta ↦ rw delta (unmoved s.overlay s.overlay refl v)
          | inr base ↦ rw base (copied-IsWithin ino info s v room row)
        ]

    Keeps-delta_ino_of : (ino : ℕ) → Keeps {lru = lru} 0 (delta_ino_of base c ino)
    unfolding delta_ino_of
    Keeps-delta_ino_of ino = record {
      at = λ s v room. elim (Option-cases (s.overlay.inode_map ino)) [
        | inl gone ↦ rw (known-gone ino s gone) (unmoved s.overlay s.overlay refl v)
        | inr (info, row) ↦
            rw (known-row ino info s row) (elim (Bool-cases (is_whiteout info.path s.overlay)) [
              | inl hidden ↦ rw hidden (unmoved s.overlay s.overlay refl v)
              | inr shown ↦ rw shown (in_delta_layer-IsWithin ino info s v room row)
            ])
      ];
    }

    -- An operation on an inode of the delta, found or copied there.
    Keeps-in_delta :
        {A : Type 0} (ino : ℕ) (f : ℕ → Exec lru A)
        → Keeps 0 (delta_ino_of base c ino >>= λ d. on_delta (f d))
    Keeps-in_delta ino f =
        Keeps-bind 0 0 (delta_ino_of base c ino) _ (Keeps-delta_ino_of ino)
          λ d. Keeps-on_delta (f d)

    pub Keeps-chmod : (now : Now) (ino mode : ℕ) → Keeps {lru = lru} 0 (chmod base c now ino mode)
    unfolding chmod
    Keeps-chmod now ino mode = Keeps-in_delta ino (λ d. Attr.chmod now d mode)

    pub Keeps-chown :
        (ino : ℕ) (uid gid : Option ℕ) → Keeps {lru = lru} 0 (chown base c ino uid gid)
    unfolding chown
    Keeps-chown ino uid gid = Keeps-in_delta ino (λ d. Owner.chown d uid gid)

    pub Keeps-utimens :
        (ta tm tc : Now) (ino : ℕ) (atime mtime : TimeChange)
        → Keeps {lru = lru} 0 (utimens base c ta tm tc ino atime mtime)
    unfolding utimens
    Keeps-utimens ta tm tc ino atime mtime =
        Keeps-in_delta ino (λ d. Attr.utimens ta tm tc d atime mtime)

    pub Keeps-open_file : (ino : ℕ) → Keeps {lru = lru} 0 (open_file base c ino)
    unfolding open_file
    Keeps-open_file ino = Keeps-in_delta ino (λ d. Attr.open_file d)

    Keeps-make_room :
        (info : InodeInfo) (path : Str) (uid gid : ℕ)
        → Keeps {lru = lru} 0 (make_room base c info path uid gid)
    unfolding make_room
    Keeps-make_room info path uid gid =
        Keeps-bind 0 0 (update (remove_whiteout path)) _
          (Settles-Keeps (update (remove_whiteout path))
            (Settles-update (remove_whiteout path) (remove_whiteout-IsSettled path)))
          λ _.
            Keeps-bind 0 0 (ensure_parent_dirs base c path uid gid) _
              (Settles-Keeps (ensure_parent_dirs base c path uid gid)
                (Settles-ensure_parent_dirs base c path uid gid))
              λ _.
                Keeps-bind 0 0 (resolve_delta_parent info) _ (Keeps-resolve_delta_parent info)
                  λ parent. Keeps-required not_found parent

    -- What is made at a path, after its parent is known and there is room for it.
    Keeps-made :
        {A B : Type 0} (parent : ℕ) (name : Str) (uid gid : ℕ) (make : ℕ → Exec lru A)
        (rest : Str → A → Act lru B)
        → ((path : Str) (a : A) → Keeps 1 (rest path a))
        → Keeps 1 (do
          info ← known parent
          path ← view (build_path parent name)
          p ← make_room base c info path uid gid
          a ← on_delta (make p)
          rest path a)
    Keeps-made parent name uid gid make rest h =
        Keeps-bind 0 1 (known parent) _ (Keeps-known parent) λ info.
          Keeps-bind 0 1 (view (build_path parent name)) _ (Keeps-view (build_path parent name))
            λ path.
              Keeps-bind 0 1 (make_room base c info path uid gid) _
                (Keeps-make_room info path uid gid)
                λ p. Keeps-bind 0 1 (on_delta (make p)) _ (Keeps-on_delta (make p)) λ a. h path a

    module _ (now : Now) (parent : ℕ) (name : Str) (uid gid : ℕ) where
      pub Keeps-create_file :
          (mode : ℕ) → Keeps {lru = lru} 1 (create_file base c now parent name mode uid gid)
      unfolding create_file
      Keeps-create_file mode =
          Keeps-made parent name uid gid (λ p. Create.create_file now p name mode uid gid) _
            λ path made.
              Keeps-bind 1 0 (number_new path made.0) _ (Keeps-number_new path made.0)
                λ stats. Keeps-pure (stats, made.1)

      pub Keeps-mknod :
          (mode rdev : ℕ) → Keeps {lru = lru} 1 (mknod base c now parent name mode rdev uid gid)
      unfolding mknod
      Keeps-mknod mode rdev =
          Keeps-made parent name uid gid (λ p. Create.mknod now p name mode rdev uid gid) number_new
            Keeps-number_new

      pub Keeps-symlink :
          (target : Str) → Keeps {lru = lru} 1 (symlink base c now parent name target uid gid)
      unfolding symlink
      Keeps-symlink target =
          Keeps-made parent name uid gid (λ p. Create.symlink now p name target uid gid) number_new
            Keeps-number_new

      -- The lookup before may give out a number too.
      pub Keeps-mkdir : (mode : ℕ) → Keeps {lru = lru} 2 (mkdir base c now parent name mode uid gid)
      unfolding mkdir
      Keeps-mkdir mode =
          let free : Option Stats → Result (Unit {0}) =
            λ found. if is_some found then err already_exists else ok tt in
          let make = λ (p : ℕ). Create.mkdir {lru = lru} now p name mode uid gid in
          Keeps-bind 0 2 (known parent) _ (Keeps-known parent) λ info.
            Keeps-bind 0 2 (view (build_path parent name)) _ (Keeps-view (build_path parent name))
              λ path.
                Keeps-bind 1 1 (lookup base.lookup parent name) _
                  (Keeps-lookup base.lookup parent name)
                  λ found. Keeps-bind 0 1 (ask (free found)) _ (Keeps-ask (free found)) λ _.
                    Keeps-bind 0 1 (make_room base c info path uid gid) _
                      (Keeps-make_room info path uid gid)
                      λ p.
                        Keeps-bind 0 1 (on_delta (make p)) _ (Keeps-on_delta (make p))
                          λ stats. Keeps-number_new path stats

    Keeps-linked_ino : (info : InodeInfo) → Keeps {lru = lru} 0 (linked_ino base c info)
    unfolding linked_ino
    Keeps-linked_ino info =
        let copy = copy_up {lru = lru} base c info.path info.underlying_ino in
        Keeps-if 0 (same_layer info.layer in_delta) _ _ (Keeps-pure info.underlying_ino)
          (Settles-Keeps copy (Settles-copy_up base c info.path info.underlying_ino))

    pub Keeps-link :
        (now : Now) (ino parent : ℕ) (name : Str)
        → Keeps {lru = lru} 0 (link base c now ino parent name)
    unfolding link
    Keeps-link now ino parent name = Keeps-bind 0 0 (known ino) _ (Keeps-known ino) λ info.
        Keeps-bind 0 0 (known parent) _ (Keeps-known parent) λ parent_info.
          Keeps-bind 0 0 (view (build_path parent name)) _ (Keeps-view (build_path parent name))
            λ path. Keeps-bind 0 0 (linked_ino base c info) _ (Keeps-linked_ino info) λ d.
              Keeps-bind 0 0 (make_room base c parent_info path 0 0) _
                (Keeps-make_room parent_info path 0 0)
                λ p.
                  let make = Create.link {lru = lru} now d p name in
                  Keeps-bind 0 0 (on_delta make) _ (Keeps-on_delta make)
                    λ stats. Keeps-pure (record stats { ino = ino })
