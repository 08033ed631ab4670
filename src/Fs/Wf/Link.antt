-- ===== src/Fs/Wf/Link.antt =====
-- The invariant after the writes of `link`: one more entry for a file that is there.
use agentfs.Base.{
  ℕ, ◌+◌, ◌≤◌, ◌≡◌, ◌≢◌, refl, sym, ◌∙◌, ap, true, false, none, some, arith, ◌==◌, if◌then◌else◌,
  Str, Bool-cases, inl, inr,
}
use agentfs.Db.{Db, Inode, inc}
use agentfs.Db.Dentries.{
  find, links, append, key_eq, find-append, links-append, append-IsUnique, key_eq_iff,
}
use agentfs.Fs.{is_directory}
use agentfs.Fs.Wf.{IsWf}
use agentfs.Fs.Wf.Insert.{entry}

module _ (db db' : Db) (p : ℕ) (n : Str) (i : ℕ) (rp rp' r r' : Inode) (w : IsWf db)
    (at : db.inode p ≡ some rp) (dir : is_directory rp ≡ true) (dir' : is_directory rp' ≡ true)
    (free : find p n db.dentry ≡ none) (row : db.inode i ≡ some r) (file : is_directory r ≡ false)
    (file' : is_directory r' ≡ false) (count : r'.nlink ≡ inc r.nlink)
    (next : db'.last_ino ≡ db.last_ino)
    (inode : (j : ℕ)
      → db'.inode j ≡ (if i == j then some r' else if p == j then some rp' else db.inode j))
    (dentry : db'.dentry ≡ append (entry p n i) db.dentry) where
  finds :
      (q : ℕ) (m : Str)
      → find q m db'.dentry ≡ (if key_eq p n q m then some i else find q m db.dentry)
  finds q m = rw dentry (find-append p n (entry p n i) db.dentry free q m)

  linked : (j : ℕ) → links j db'.dentry ≡ links j db.dentry + (if i == j then 1 else 0)
  linked j = rw dentry (links-append j (entry p n i) db.dentry)

  not_parent : p ≢ i
  not_parent e = let same : some rp ≡ some r = sym at ∙ (ap db.inode e ∙ row) in ground arith

  new_row : db'.inode i ≡ some r'
  new_row = ground (arith, inode i)

  new_parent : db'.inode p ≡ some rp'
  new_parent = ground (arith, inode p, not_parent)

  known : (j : ℕ) (r₁ : Inode) → db.inode j ≡ some r₁ → j ≤ db.last_ino
  known j r₁ h = ground (arith, w.fresh_inode j)

  survives :
      (j : ℕ) (r₁ : Inode)
      → db.inode j ≡ some r₁
      → (r₂ : Inode) × (db'.inode j ≡ some r₂) × (is_directory r₂ ≡ is_directory r₁)
  survives j r₁ h = elim (Bool-cases (i == j)) [
    | inl e ↦ let e' : i ≡ j = ground arith in (r', rw (← e') new_row, ground (arith, rw e' at row))
    | inr ne ↦ elim (Bool-cases (p == j)) [
      | inl e ↦
          let e' : p ≡ j = ground arith in (rp', rw (← e') new_parent, ground (arith, rw e' at at))
      | inr ne' ↦ (r₁, ground (arith, inode j), refl)
    ]
  ]

  single_at :
      (j : ℕ) (r₂ : Inode) → db'.inode j ≡ some r₂ → is_directory r₂ ≡ true → links j db'.dentry ≤ 1
  single_at j r₂ h d = elim (Bool-cases (p == j)) [
    | inl e ↦
        let e' : p ≡ j = ground arith in
        let b = w.single p rp at dir in let l = linked p in rw (← e') (ground (arith, not_parent))
    | inr ne ↦ ground (arith, inode j, linked j, w.single j r₂)
  ]

  -- A file gains an entry.
  pub link-IsWf : IsWf db'
  link-IsWf = record {
    unique = rw dentry (append-IsUnique p n i db.dentry free w.unique);
    child = λ q m j h. elim (Bool-cases (key_eq p n q m)) [
      | inl here ↦ let e : i ≡ j = ground (arith, finds q m) in (r', rw (← e) new_row)
      | inr other ↦
          let (r₁, old) = w.child q m j (ground (arith, finds q m)) in
          let (r₂, now, _) = survives j r₁ old in (r₂, now)
    ];
    parent = λ q m j h. elim (Bool-cases (key_eq p n q m)) [
      | inl here ↦
          let e : p ≡ q = ((key_eq_iff p n q m).0 here).0 in (rp', rw (← e) new_parent, dir')
      | inr other ↦
          let (r₁, old, d) = w.parent q m j (ground (arith, finds q m)) in
          let (r₂, now, same) = survives q r₁ old in (r₂, now, same ∙ d)
    ];
    counted = λ j r₂ h nd.
        ground (arith, inode j, linked j, w.counted j r₂, w.counted i r row file, count);
    single = single_at;
    fresh_inode = λ j h. ground (arith, inode j, w.fresh_inode j, known p rp at, known i r row);
    fresh_links = λ j h. ground (arith, linked j, w.fresh_links j, known i r row);
  }
