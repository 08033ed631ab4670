-- ===== src/Fs/Changed.antt =====
-- `chmod`, `chown`, `utimens` and `lookup`: the invariant after them, and what `chmod` sets.
use agentfs.Base.{
  ℕ, ◌≡◌, refl, Bool, true, false, not, ◌&&◌, Option, none, some, arith, ltb, length, Str,
  Bool-cases, Option-cases, inl, inr, same,
}
use agentfs.Db.{Inode, Now, set_ctime}
use agentfs.Db.Dentries.{find}
use agentfs.Db.Mode.{change_mode, change_mode_lem, permissions, file_type}
use agentfs.Fs.Cache.{Lru}
use agentfs.Fs.{Fs, Result, ok, err, max_name_len, not_found, update_inode, stats_of}
use agentfs.Base.{◌⊎◌}
use agentfs.Fs.Attr.{is_omit}
use agentfs.Fs.Attr.{
  TimeChange, chmod, chown, utimens, lookup, lookup_row, set_owner, set_atime, set_mtime, getattr,
  dot_dot,
}
use agentfs.Fs.Wf.{Inv, lookup_child-find, remember-Inv}
use agentfs.Fs.Wf.Move.{IsSameKind}
use agentfs.Fs.Wf.Same.{same-IsWf, update_inode-AreSameKind}

abbrev is_none : Option ℕ → Bool
is_none none = true
is_none (some u) = false

module _ {lru : Lru} (s : Fs lru) (v : Inv s) where
  -- A write to one row that keeps its kind.
  update-Inv :
      (i : ℕ) (f : Inode → Inode)
      → ((r : Inode) → s.db.inode i ≡ some r → IsSameKind (some r) (some (f r)))
      → Inv (record s { db = update_inode i f s.db })
  update-Inv i f h = record {
    wf =
        same-IsWf s.db (update_inode i f s.db) v.wf refl refl (update_inode-AreSameKind i f s.db h);
    coherent = v.coherent;
  }

  module _ (t : Now) (i : ℕ) where
    chmod_gone : (mode : ℕ) → s.db.inode i ≡ none → chmod t i mode s ≡ (err not_found, s)
    unfolding chmod
    chmod_gone mode h = ground arith

    chmod_row :
        (mode : ℕ) (r : Inode)
        → s.db.inode i ≡ some r
        → chmod t i mode s ≡ (
          ok tt,
          record s {
            db =
                update_inode i
                  (λ r'. set_ctime t (record r' { mode = change_mode r.mode mode }))
                  s.db;
          },
        )
    unfolding chmod
    chmod_row mode r h = ground arith

    chmod_kind :
        (mode : ℕ) (r r' : Inode)
        → r'.mode ≡ r.mode
        → IsSameKind (some r') (some (set_ctime t (record r' { mode = change_mode r.mode mode })))
    chmod_kind mode r r' e =
        let (k, _) = change_mode_lem r.mode mode in (ground (arith, e, k), λ file. refl)

    -- `chmod` keeps the invariant, whether it succeeds or not.
    pub chmod-Inv : (mode : ℕ) → Inv (chmod t i mode s).1
    chmod-Inv mode = elim (Option-cases (s.db.inode i)) [
      | inl gone ↦ rw (chmod_gone mode gone) v
      | inr (r, row) ↦ rw (chmod_row mode r row) (
          update-Inv i (λ r'. set_ctime t (record r' { mode = change_mode r.mode mode }))
            (λ r' row'. chmod_kind mode r r' (ground arith)))
    ]

    -- A write to a row that is there, or nothing.
    writes : (Inode → Inode) → Result (Unit {0}) × Fs lru
    writes f = elim (s.db.inode i) [
      | none ↦ (err not_found, s)
      | some r ↦ (ok tt, record s { db = update_inode i f s.db })
    ]

    writes-Inv :
        (f : Inode → Inode) → ((r : Inode) → IsSameKind (some r) (some (f r))) → Inv (writes f).1
    unfolding writes
    writes-Inv f h = elim (Option-cases (s.db.inode i)) [
      | inl gone ↦ rw (gone, writes) v
      | inr (r, row) ↦ rw (row, writes) (update-Inv i f (λ r _. h r))
    ]

    chown_one :
        (uid gid : Option ℕ)
        → (not (is_none uid && is_none gid)) ≡ true
        → chown t i uid gid s ≡ writes (λ r. set_ctime t (set_owner uid gid r))
    unfolding chown writes
    chown_one none none h = cc
    chown_one (some u) gid h = ground arith
    chown_one none (some g) h = ground arith

    chown_neither :
        (uid gid : Option ℕ)
        → (is_none uid && is_none gid) ≡ true
        → chown t i uid gid s ≡ (ok tt, s)
    unfolding chown
    chown_neither none none h = refl
    chown_neither (some u) gid h = ground arith
    chown_neither none (some g) h = ground arith

    -- `chown` keeps the invariant, whether it succeeds or not.
    pub chown-Inv : (uid gid : Option ℕ) → Inv (chown t i uid gid s).1
    chown-Inv uid gid = elim (Bool-cases (is_none uid && is_none gid)) [
      | inl neither ↦ rw (chown_neither uid gid neither) v
      | inr one ↦
          rw (chown_one uid gid (ground arith))
            (writes-Inv (λ r. set_ctime t (set_owner uid gid r)) (λ r. (refl, λ file. refl)))
    ]

    set_times : Now → Now → TimeChange → TimeChange → Inode → Inode
    set_times ta tm atime mtime r = set_ctime t (set_mtime tm mtime (set_atime ta atime r))

    set_times-IsSameKind :
        (ta tm : Now) (atime mtime : TimeChange) (r : Inode)
        → IsSameKind (some r) (some (set_times ta tm atime mtime r))
    unfolding set_times
    set_times-IsSameKind ta tm atime mtime r = (ground arith, λ file. ground arith)

    -- `utimens` keeps the invariant, whether it succeeds or not.
    pub utimens-Inv :
        (ta tm : Now) (atime mtime : TimeChange) → Inv (utimens ta tm t i atime mtime s).1
    unfolding utimens set_times
    utimens-Inv ta tm atime mtime = elim (Option-cases (s.db.inode i)) [
      | inl gone ↦ rw gone v
      | inr (r, row) ↦ rw row (elim (Bool-cases (is_omit atime && is_omit mtime)) [
        | inl both ↦ rw both v
        | inr one ↦ rw one (
            update-Inv i (set_times ta tm atime mtime)
              (λ r _. set_times-IsSameKind ta tm atime mtime r))
      ])
    ]

  -- With the invariant and a row for the inode: what `getattr` gives after `chmod` has the
  -- old type, link count and size, and the permission bits that were asked for.
  pub getattr-chmod :
      (t : Now) (i mode : ℕ) (r : Inode)
      → s.db.inode i ≡ some r
      → (r' : Inode) × (getattr i (chmod t i mode s).1
          ≡ (ok (some (stats_of i r')), (chmod t i mode s).1))
        × (permissions r'.mode ≡ permissions mode)
        × (file_type r'.mode ≡ file_type r.mode)
        × (r'.nlink ≡ r.nlink)
        × (r'.size ≡ r.size)
  unfolding getattr
  getattr-chmod t i mode r row =
      let r' = set_ctime t (record r { mode = change_mode r.mode mode }) in
      let (type, bits) = change_mode_lem r.mode mode in
      (r', rw (chmod_row t i mode r row) (ground arith), bits, type, refl, refl)

  lookup_keeps :
      (p : ℕ) (n : Str)
      → (ltb max_name_len (length n) ≡ true) ⊎ (same n dot_dot ≡ true)
      → (lookup p n s).1 ≡ s
  unfolding lookup
  lookup_keeps p n (inl long) = ground arith
  lookup_keeps p n (inr up) = ground arith

  lookup_child_state :
      (p : ℕ) (n : Str)
      → ltb max_name_len (length n) ≡ false
      → same n dot_dot ≡ false
      → (lookup p n s).1 ≡ (lookup_row p n (find p n s.db.dentry) s).1
  unfolding lookup
  lookup_child_state p n short name = ground (arith, lookup_child-find p n s.db.dentry v.wf.unique)

  row-Inv : (p : ℕ) (n : Str) → Inv (lookup_row p n (find p n s.db.dentry) s).1
  unfolding lookup_row
  row-Inv p n = elim (Option-cases (find p n s.db.dentry)) [
    | inl free ↦ rw free v
    | inr (i, found) ↦ rw found (elim (Option-cases (s.db.inode i)) [
      | inl gone ↦ rw (gone, lookup_row) v
      | inr (r, row) ↦ rw (row, lookup_row) (remember-Inv s p n i v found)
    ])
  ]

  -- `lookup` keeps the invariant, whether it succeeds or not.
  pub lookup-Inv : (p : ℕ) (n : Str) → Inv (lookup p n s).1
  lookup-Inv p n = elim (Bool-cases (ltb max_name_len (length n))) [
    | inl long ↦ rw (lookup_keeps p n (inl long)) v
    | inr short ↦ elim (Bool-cases (same n dot_dot)) [
      | inl up ↦ rw (lookup_keeps p n (inr up)) v
      | inr name ↦ rw (lookup_child_state p n short name) (row-Inv p n)
    ]
  ]
