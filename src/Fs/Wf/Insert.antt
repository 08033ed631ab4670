-- ===== src/Fs/Wf/Insert.antt =====
-- The invariant after the writes that put a new inode, or a new entry of an old one, into a
-- directory.
use agentfs.Base.{
  ℕ, ◌+◌, ◌≡◌, ◌≢◌, refl, ◌∙◌, true, false, none, some, arith, ◌==◌, if◌then◌else◌, Str, Bool-cases,
  inl, inr,
}
use agentfs.Db.{Db, Inode}
use agentfs.Db.Dentries.{
  Dentry, find, links, append, key_eq, find-append, links-append, append-IsUnique, key_eq_iff,
}
use agentfs.Fs.{is_directory}
use agentfs.Fs.Wf.{IsWf}

-- The entry that is put in.
abbrev pub entry : ℕ → Str → ℕ → Dentry
entry p n i = record { name = n; parent_ino = p; ino = i }

module _ (db db' : Db) (p : ℕ) (n : Str) (rp rp' r : Inode) (w : IsWf db)
    (at : db.inode p ≡ some rp) (dir : is_directory rp ≡ true) (dir' : is_directory rp' ≡ true)
    (free : find p n db.dentry ≡ none) (count : is_directory r ≡ false → r.nlink ≡ 1)
    (next : db'.last_ino ≡ db.last_ino + 1)
    (inode : (j : ℕ)
      → db'.inode j
        ≡ (if db.last_ino + 1 == j then some r else if p == j then some rp' else db.inode j))
    (dentry : db'.dentry ≡ append (entry p n (db.last_ino + 1)) db.dentry) where
  old_parent : p ≢ db.last_ino + 1
  old_parent e = ground (arith, w.fresh_inode p)

  finds :
      (q : ℕ) (m : Str)
      → find q m db'.dentry
        ≡ (if key_eq p n q m then some (db.last_ino + 1) else find q m db.dentry)
  finds q m = rw dentry (find-append p n (entry p n (db.last_ino + 1)) db.dentry free q m)

  linked :
      (i : ℕ) → links i db'.dentry ≡ links i db.dentry + (if db.last_ino + 1 == i then 1 else 0)
  linked i = rw dentry (links-append i (entry p n (db.last_ino + 1)) db.dentry)

  new_inode : db'.inode (db.last_ino + 1) ≡ some r
  new_inode = ground (arith, inode (db.last_ino + 1))

  new_parent : db'.inode p ≡ some rp'
  new_parent = ground (arith, inode p, old_parent)

  -- A row that was there is there, and of the same kind.
  survives :
      (i : ℕ) (r₁ : Inode)
      → db.inode i ≡ some r₁
      → (r₂ : Inode) × (db'.inode i ≡ some r₂) × (is_directory r₂ ≡ is_directory r₁)
  survives i r₁ h = elim (Bool-cases (p == i)) [
    | inl e ↦
        let e' : p ≡ i = ground arith in
        let same : rp ≡ r₁ = ground (arith, at, rw e' at at) in
        (rp', rw (← e') new_parent, ground (arith, dir, dir'))
    | inr ne ↦ (r₁, ground (arith, inode i, w.fresh_inode i), refl)
  ]

  -- The directory gains an entry for an inode that was not there before.
  pub create-IsWf : IsWf db'
  create-IsWf = record {
    unique = rw dentry (append-IsUnique p n (db.last_ino + 1) db.dentry free w.unique);
    child = λ q m i h. elim (Bool-cases (key_eq p n q m)) [
      | inl here ↦
          let e : db.last_ino + 1 ≡ i = ground (arith, finds q m) in (r, rw (← e) new_inode)
      | inr other ↦
          let (r₁, old) = w.child q m i (ground (arith, finds q m)) in
          let (r₂, now, _) = survives i r₁ old in (r₂, now)
    ];
    parent = λ q m i h. elim (Bool-cases (key_eq p n q m)) [
      | inl here ↦
          let e : p ≡ q = ((key_eq_iff p n q m).0 here).0 in (rp', rw (← e) new_parent, dir')
      | inr other ↦
          let (r₁, old, d) = w.parent q m i (ground (arith, finds q m)) in
          let (r₂, now, same) = survives q r₁ old in (r₂, now, same ∙ d)
    ];
    counted =
        λ i r' h nd. ground (arith, inode i, linked i, w.counted i r', w.fresh_links i, count);
    single = λ i r' h d.
        ground (arith, inode i, linked i, w.single i r', w.single i rp, w.fresh_links i);
    fresh_inode = λ i h. ground (arith, inode i, w.fresh_inode i, old_parent, w.fresh_inode p);
    fresh_links = λ i h. ground (arith, linked i, w.fresh_links i);
  }
