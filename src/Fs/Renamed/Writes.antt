-- ===== src/Fs/Renamed/Writes.antt =====
-- The writes of `rename` once the destination is free.
use agentfs.Base.{same_iff}
use agentfs.Base.{
  ℕ, ◌≡◌, refl, sym, ◌∙◌, Bool, false, not, ◌&&◌, Option, none, some, arith, ◌==◌, if◌then◌else◌,
  Str, Bool-cases, inl, inr,
}
use agentfs.Db.{Db, Inode, Now, dec, inc, set_ctime, set_mtime_ctime}
use agentfs.Db.Dentries.{find, move, key_eq, find-move}
use agentfs.Fs.Cache.{Lru}
use agentfs.Fs.{Fs, is_directory, update_inode}
use agentfs.Fs.Rename.{move_dentry, move_links}
use agentfs.Fs.Wf.{IsWf, IsCoherent, Inv, IsDirAt}
use agentfs.Fs.Wf.Move.{IsSameKind, move-IsWf}
use agentfs.Fs.Wf.Same.{AreSameKind, IsSameKind-refl, update_inode-AreSameKind}

IsSameKind-trans : (a b c : Option Inode) → IsSameKind a b → IsSameKind b c → IsSameKind a c
IsSameKind-trans none none none h k = tt
IsSameKind-trans none none (some z) h k = k
IsSameKind-trans none (some y) c h k = absurd h
IsSameKind-trans (some x) none c h k = absurd h
IsSameKind-trans (some x) (some y) none h k = k
IsSameKind-trans (some x) (some y) (some z) h k = (k.0 ∙ h.0, λ e. k.1 (h.0 ∙ e) ∙ h.1 e)

AreSameKind-trans : (a b c : Db) → AreSameKind a b → AreSameKind b c → AreSameKind a c
AreSameKind-trans a b c h k j = IsSameKind-trans (a.inode j) (b.inode j) (c.inode j) (h j) (k j)

-- A directory stays one.
pub AreSameKind-IsDirAt : (p : ℕ) (a b : Db) → AreSameKind a b → IsDirAt p a → IsDirAt p b
AreSameKind-IsDirAt p a b h (r, row, dir) = kept (b.inode p) refl
  where
    kept : (o : Option Inode) → b.inode p ≡ o → IsDirAt p b
    kept none e = absurd (rw (e, row) at (h p))
    kept (some r') e = (r', e, (rw (e, row) at (h p)).0 ∙ dir)

-- A write to a directory that keeps the mode.
touch_dir :
    (p : ℕ) (f : Inode → Inode) (db : Db)
    → ((r : Inode) → is_directory (f r) ≡ is_directory r)
    → IsDirAt p db
    → AreSameKind db (update_inode p f db)
touch_dir p f db h (r, row, dir) =
    update_inode-AreSameKind p f db (λ r' row'. (h r', λ file. ground (arith, sym row ∙ row')))

move_links-AreSameKind :
    (is_dir : Bool) (p p' : ℕ) (db : Db)
    → IsDirAt p db
    → IsDirAt p' db
    → AreSameKind db (move_links is_dir p p' db)
move_links-AreSameKind is_dir p p' db d d' = elim (Bool-cases (is_dir && not (p == p'))) [
  | inr stays ↦ rw stays (λ j. IsSameKind-refl (db.inode j))
  | inl moves ↦ rw moves (
      let one = update_inode p (λ r. record r { nlink = dec r.nlink }) db in
      let a : AreSameKind db one =
        touch_dir p (λ r. record r { nlink = dec r.nlink }) db (λ r. refl) d in
      AreSameKind-trans db one (update_inode p' (λ r. record r { nlink = inc r.nlink }) one) a (
        touch_dir p' (λ r. record r { nlink = inc r.nlink }) one (λ r. refl)
          (AreSameKind-IsDirAt p' db one a d')))
]

-- The statements of `rename` after the destination is removed.
abbrev pub renamed : Now → ℕ → Str → ℕ → Str → ℕ → Bool → Db → Db
renamed now p n p' n' i is_dir db =
    let touched =
      update_inode p (set_mtime_ctime now)
        (update_inode i (set_ctime now) (move_links is_dir p p' (move_dentry p' n' p n db))) in
    if p' == p then touched else update_inode p' (set_mtime_ctime now) touched

set_ctime-AreSameKind :
    (now : Now) (i : ℕ) (db : Db) → AreSameKind db (update_inode i (set_ctime now) db)
set_ctime-AreSameKind now i db =
    update_inode-AreSameKind i (set_ctime now) db (λ r row. (refl, λ file. refl))

set_times-AreSameKind :
    (now : Now) (i : ℕ) (db : Db) → AreSameKind db (update_inode i (set_mtime_ctime now) db)
set_times-AreSameKind now i db =
    update_inode-AreSameKind i (set_mtime_ctime now) db (λ r row. (refl, λ file. refl))

module _ (now : Now) (p : ℕ) (n : Str) (p' : ℕ) (n' : Str) (i : ℕ) (is_dir : Bool) (db : Db) where
  pub dentry-renamed : (renamed now p n p' n' i is_dir db).dentry ≡ move p' n' p n db.dentry
  dentry-renamed = ground arith

  last_ino-renamed : (renamed now p n p' n' i is_dir db).last_ino ≡ db.last_ino
  last_ino-renamed = ground arith

module _ (now : Now) (p : ℕ) (n : Str) (p' : ℕ) (n' : Str) (i : ℕ) (is_dir : Bool) (db : Db)
    (d : IsDirAt p db) (d' : IsDirAt p' db) where
  renamed-AreSameKind : AreSameKind db (renamed now p n p' n' i is_dir db)
  renamed-AreSameKind =
      let a = move_links is_dir p p' (move_dentry p' n' p n db) in
      let b = update_inode i (set_ctime now) a in
      let c = update_inode p (set_mtime_ctime now) b in
      let to_a : AreSameKind db a =
        move_links-AreSameKind is_dir p p' (move_dentry p' n' p n db) d d' in
      let to_b = AreSameKind-trans db a b to_a (set_ctime-AreSameKind now i a) in
      let to_c = AreSameKind-trans db b c to_b (set_times-AreSameKind now p b) in
      elim (Bool-cases (p' == p)) [
        | inl same ↦ rw same to_c
        | inr other ↦ rw other (
            AreSameKind-trans db c (update_inode p' (set_mtime_ctime now) c) to_c
              (set_times-AreSameKind now p' c))
      ]

  pub renamed-IsWf :
      IsWf db → find p' n' db.dentry ≡ none → IsWf (renamed now p n p' n' i is_dir db)
  renamed-IsWf w free =
      move-IsWf db (renamed now p n p' n' i is_dir db) p n p' n' d'.0 w free d'.1 d'.2
        (last_ino-renamed now p n p' n' i is_dir db) renamed-AreSameKind
        (dentry-renamed now p n p' n' i is_dir db)

-- The destination is free, and everything else is as it was.
abbrev pub IsFreed : ℕ → Str → Db → Db → Type 0
IsFreed p' n' db db' =
    (q : ℕ) (m : Str)
    → find q m db'.dentry ≡ (if key_eq p' n' q m then none else find q m db.dentry)

-- The cache forgets both names and learns where the inode is now.
abbrev pub cached : {lru : Lru} → ℕ → Str → ℕ → Str → ℕ → Fs lru → lru.Cache
cached {lru} p n p' n' i s = lru.put p' n' i (lru.pop p' n' (lru.pop p n s.cache))

abbrev pub after_rename : {lru : Lru} → Now → ℕ → Str → ℕ → Str → ℕ → Bool → Db → Fs lru → Fs lru
after_rename now p n p' n' i is_dir freed s = record {
  db = renamed now p n p' n' i is_dir freed;
  cache = cached p n p' n' i s;
}

module _ {lru : Lru} (now : Now) (p : ℕ) (n : Str) (p' : ℕ) (n' : Str) (i : ℕ) (is_dir : Bool)
    (freed : Db) (s : Fs lru) (free : IsFreed p' n' s.db freed)
    (found : find p n s.db.dentry ≡ some i) (apart : key_eq p' n' p n ≡ false) where
  still_there : find p n freed.dentry ≡ some i
  still_there = ground (arith, free p n)

  is_free : find p' n' freed.dentry ≡ none
  is_free = ground (arith, free p' n', same_iff n' n')

  after_rename-IsCoherent : IsCoherent s → IsCoherent (after_rename now p n p' n' i is_dir freed s)
  after_rename-IsCoherent c q m w h =
      let one = lru.pop p n s.cache in
      let put = lru.peek-put p' n' i q m w (lru.pop p' n' one) h in
      let popped' = lru.peek-pop p' n' q m one in
      let popped = lru.peek-pop p n q m s.cache in
      let moved = find-move p' n' p n freed.dentry is_free q m in
      rw (dentry-renamed now p n p' n' i is_dir freed)
        (ground (arith, still_there, free q m, c q m w))

  pub after_rename-Inv :
      Inv s → IsWf freed → IsDirAt p' freed → Inv (after_rename now p n p' n' i is_dir freed s)
  after_rename-Inv v w d' = record {
    wf = renamed-IsWf now p n p' n' i is_dir freed (w.parent p n i still_there) d' w is_free;
    coherent = after_rename-IsCoherent v.coherent;
  }
