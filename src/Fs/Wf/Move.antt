-- ===== src/Fs/Wf/Move.antt =====
-- The invariant after an entry is moved to a name that is free, while rows change in ways that keep
-- the type of every inode and the link count of every file.
use agentfs.Base.{
  ℕ, ◌≡◌, refl, sym, ◌∙◌, true, false, Option, none, some, arith, if◌then◌else◌, Str, Bool-cases,
  inl, inr, ◌⊎◌,
}
use agentfs.Db.{Db, Inode}
use agentfs.Db.Dentries.{
  find, links, move, key_eq, find-move, links-move, move-IsUnique, key_eq_iff,
}
use agentfs.Fs.{is_directory}
use agentfs.Fs.Wf.{IsWf}

-- A row before and after.
abbrev pub IsSameKind : Option Inode → Option Inode → Type 0
IsSameKind none none = Unit
IsSameKind none (some r') = ⊥
IsSameKind (some r) none = ⊥
IsSameKind (some r) (some r') =
    (is_directory r' ≡ is_directory r) × (is_directory r ≡ false → r'.nlink ≡ r.nlink)

pub forwards :
    (o o' : Option Inode) (r : Inode)
    → IsSameKind o o'
    → o ≡ some r
    → (r' : Inode) × (o' ≡ some r') × (is_directory r' ≡ is_directory r)
forwards none o' r k e = cc
forwards (some r₁) none r k e = absurd k
forwards (some r₁) (some r') r k e = (r', refl, ground (arith, k.0))

pub backwards :
    (o o' : Option Inode) (r' : Inode)
    → IsSameKind o o'
    → o' ≡ some r'
    → (r : Inode) × (o ≡ some r) × IsSameKind (some r) (some r')
backwards o none r' k e = cc
backwards none (some r₁) r' k e = absurd k
backwards (some r) (some r₁) r' k e = (r, refl, rw (← some_eq e) k)
  where
    some_eq : some r₁ ≡ some r' → r₁ ≡ r'
    some_eq e = cc

pub same_none : (o o' : Option Inode) → IsSameKind o o' → o ≡ none → o' ≡ none
same_none none none k e = refl
same_none none (some r') k e = absurd k
same_none (some r) o' k e = cc

module _ (db db' : Db) (p : ℕ) (n : Str) (p' : ℕ) (n' : Str) (rp : Inode) (w : IsWf db)
    (free : find p' n' db.dentry ≡ none) (at : db.inode p' ≡ some rp) (dir : is_directory rp ≡ true)
    (next : db'.last_ino ≡ db.last_ino) (inode : (j : ℕ) → IsSameKind (db.inode j) (db'.inode j))
    (dentry : db'.dentry ≡ move p' n' p n db.dentry) where
  finds :
      (q : ℕ) (m : Str)
      → find q m db'.dentry ≡ (
          if key_eq p' n' q m
          then find p n db.dentry
          else if key_eq p n q m
          then none
          else find q m db.dentry)
  finds q m = rw dentry (find-move p' n' p n db.dentry free q m)

  linked : (j : ℕ) → links j db'.dentry ≡ links j db.dentry
  linked j = rw dentry (links-move j p' n' p n db.dentry)

  -- What an entry names was named by an entry before, and its directory is the new one or was there.
  origin :
      (q : ℕ) (m : Str) (i : ℕ)
      → find q m db'.dentry ≡ some i
      → ((p' ≡ q) × (find p n db.dentry ≡ some i)) ⊎ (find q m db.dentry ≡ some i)
  origin q m i h = elim (Bool-cases (key_eq p' n' q m)) [
    | inl here ↦ inl (((key_eq_iff p' n' q m).0 here).0, ground (arith, finds q m))
    | inr other ↦ inr (ground (arith, finds q m))
  ]

  named :
      (q : ℕ) (m : Str) (i : ℕ) → find q m db'.dentry ≡ some i → (r : Inode) × (db.inode i ≡ some r)
  named q m i h = elim (origin q m i h) [ inl (e, f) ↦ w.child p n i f | inr f ↦ w.child q m i f ]

  under :
      (q : ℕ) (m : Str) (i : ℕ)
      → find q m db'.dentry ≡ some i
      → (r : Inode) × (db.inode q ≡ some r) × (is_directory r ≡ true)
  under q m i h = elim (origin q m i h) [
    | inl (e, f) ↦ (rp, rw (← e) at, dir)
    | inr f ↦ w.parent q m i f
  ]

  pub move-IsWf : IsWf db'
  move-IsWf = record {
    unique = rw dentry (move-IsUnique p' n' p n db.dentry free w.unique);
    child = λ q m i h.
        let (r, old) = named q m i h in
        let (r', now, _) = forwards (db.inode i) (db'.inode i) r (inode i) old in (r', now);
    parent = λ q m i h.
        let (r, old, d) = under q m i h in
        let (r', now, same) = forwards (db.inode q) (db'.inode q) r (inode q) old in
        (r', now, same ∙ d);
    counted = λ j r' h nd.
        let (r, old, k) = backwards (db.inode j) (db'.inode j) r' (inode j) h in
        let file : is_directory r ≡ false = sym k.0 ∙ nd in
        rw (linked j) (k.1 file ∙ w.counted j r old file);
    single = λ j r' h d.
        let (r, old, k) = backwards (db.inode j) (db'.inode j) r' (inode j) h in
        rw (linked j) (w.single j r old (sym k.0 ∙ d));
    fresh_inode =
        λ j h. same_none (db.inode j) (db'.inode j) (inode j) (w.fresh_inode j (rw next at h));
    fresh_links = λ j h. rw (linked j) (w.fresh_links j (rw next at h));
  }
