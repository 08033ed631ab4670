-- ===== src/Fs/Wf/Delete.antt =====
-- The invariant after the writes that take an entry out of a directory.
use agentfs.Base.{
  ℕ, ◌+◌, ◌%◌, ◌≤◌, ◌≡◌, ◌≢◌, refl, sym, ◌∙◌, true, false, Option, none, some, arith, ◌==◌,
  if◌then◌else◌, Str, Bool-cases, inl, inr, ◌⊎◌,
}
use agentfs.Db.{Db, Inode, i64_mod}
use agentfs.Db.Dentries.{
  find, links, remove, key_eq, find-remove, links-remove, remove-IsUnique, links_of_find,
}
use agentfs.Fs.{is_directory}
use agentfs.Fs.Wf.{IsWf}

-- The row of the inode whose entry is taken out: gone, with its last entry and no children, or of
-- the same kind with a link count that is right.
abbrev pub IsLeft : Db → ℕ → Str → ℕ → Inode → Option Inode → Type 0
IsLeft db p n i r none =
    (links i (remove p n db.dentry) ≡ 0) × ((m : Str) → find i m db.dentry ≡ none)
IsLeft db p n i r (some r') =
    (is_directory r' ≡ is_directory r)
    × (is_directory r ≡ false → r'.nlink ≡ links i (remove p n db.dentry) % i64_mod)

module _ (db db' : Db) (p : ℕ) (n : Str) (i : ℕ) (rp rp' r : Inode) (left : Option Inode)
    (w : IsWf db) (found : find p n db.dentry ≡ some i) (at : db.inode p ≡ some rp)
    (dir : is_directory rp ≡ true) (dir' : is_directory rp' ≡ true) (row : db.inode i ≡ some r)
    (other : p ≢ i) (keeps : IsLeft db p n i r left) (next : db'.last_ino ≡ db.last_ino)
    (inode : (j : ℕ)
      → db'.inode j ≡ (if i == j then left else if p == j then some rp' else db.inode j))
    (dentry : db'.dentry ≡ remove p n db.dentry) where
  finds :
      (q : ℕ) (m : Str)
      → find q m db'.dentry ≡ (if key_eq p n q m then none else find q m db.dentry)
  finds q m = rw dentry (find-remove p n db.dentry q m)

  linked : (j : ℕ) → links j db.dentry ≡ links j db'.dentry + (if i == j then 1 else 0)
  linked j = let l = links-remove j p n db.dentry w.unique in rw dentry (rw found at l)

  -- The inode's own row, if it has an entry or is a parent.
  stays :
      (links i db'.dentry ≢ 0) ⊎ ((m : Str) × (find i m db.dentry ≢ none))
      → (r₂ : Inode) × (left ≡ some r₂) × (is_directory r₂ ≡ is_directory r)
  stays why = kept left refl
    where
      kept :
          (o : Option Inode)
          → left ≡ o
          → (r₂ : Inode) × (left ≡ some r₂) × (is_directory r₂ ≡ is_directory r)
      kept none e = absurd (gone (rw e at keeps) why)
        where
          gone :
              IsLeft db p n i r none
              → (links i db'.dentry ≢ 0) ⊎ ((m : Str) × (find i m db.dentry ≢ none))
              → ⊥
          gone k (inl h) = h (rw dentry k.0)
          gone k (inr (m, h)) = h (k.1 m)
      kept (some r₂) e = let k : IsLeft db p n i r (some r₂) = rw e at keeps in (r₂, e, k.0)

  -- A row that was there is there, and of the same kind, if its inode has an entry or is a parent.
  survives :
      (j : ℕ) (r₁ : Inode)
      → db.inode j ≡ some r₁
      → (links j db'.dentry ≢ 0) ⊎ ((m : Str) × (find j m db.dentry ≢ none))
      → (r₂ : Inode) × (db'.inode j ≡ some r₂) × (is_directory r₂ ≡ is_directory r₁)
  survives j r₁ h why = elim (Bool-cases (i == j)) [
    | inl e ↦
        let e' : i ≡ j = ground arith in
        let (r₂, kept, same) = stays (rw e' why) in
        (r₂, ground (arith, inode j), ground (arith, rw e' at row))
    | inr ne ↦ elim (Bool-cases (p == j)) [
      | inl e ↦
          let e' : p ≡ j = ground arith in
          (rp', ground (arith, inode j), ground (arith, rw e' at at))
      | inr ne' ↦ (r₁, ground (arith, inode j), refl)
    ]
  ]

  -- The row of the inode itself.
  at_left : (r' : Inode) → left ≡ some r' → IsLeft db p n i r (some r')
  at_left r' e = rw e at keeps

  count_at :
      (j : ℕ) (r' : Inode)
      → db'.inode j ≡ some r'
      → is_directory r' ≡ false
      → r'.nlink ≡ links j db'.dentry % i64_mod
  count_at j r' h nd = elim (Bool-cases (i == j)) [
    | inl e ↦
        let e' : i ≡ j = ground arith in
        let (same, count) = at_left r' (ground (arith, inode j)) in
        rw (← e', dentry) (count (sym same ∙ nd))
    | inr ne ↦ ground (arith, inode j, linked j, w.counted j r')
  ]

  single_at :
      (j : ℕ) (r' : Inode) → db'.inode j ≡ some r' → is_directory r' ≡ true → links j db'.dentry ≤ 1
  single_at j r' h d = elim (Bool-cases (i == j)) [
    | inl e ↦
        let e' : i ≡ j = ground arith in
        let (same, _) = at_left r' (ground (arith, inode j)) in
        let l = linked i in let b = w.single i r row (sym same ∙ d) in rw (← e') (omega arith)
    | inr ne ↦ ground (arith, inode j, linked j, w.single j r', w.single p rp at dir)
  ]

  -- The directory loses the entry.
  pub delete-IsWf : IsWf db'
  delete-IsWf = record {
    unique = rw dentry (remove-IsUnique p n db.dentry w.unique);
    child = λ q m j h.
        let (r₁, old) = w.child q m j (ground (arith, finds q m)) in
        let some_link = links_of_find q m j db'.dentry h in
        let (r₂, now, _) = survives j r₁ old (inl (omega arith)) in (r₂, now);
    parent = λ q m j h.
        let old_entry : find q m db.dentry ≡ some j = ground (arith, finds q m) in
        let (r₁, old, d) = w.parent q m j old_entry in
        let (r₂, now, same) = survives q r₁ old (inr (m, ground arith)) in (r₂, now, same ∙ d);
    counted = λ j r' h nd. count_at j r' h nd;
    single = λ j r' h d. single_at j r' h d;
    fresh_inode = λ j h. ground (arith, inode j, w.fresh_inode j, w.fresh_inode p, w.fresh_inode i);
    fresh_links = λ j h. ground (arith, linked j, w.fresh_links j);
  }
