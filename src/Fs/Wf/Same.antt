-- ===== src/Fs/Wf/Same.antt =====
-- The invariant after a write that leaves the entries, and the kind of every row, as they are.
use agentfs.Base.{
  ℕ, ◌≡◌, refl, sym, ◌∙◌, false, Option, none, some, arith, ◌==◌, inl, inr, Bool-cases,
  Option-cases,
}
use agentfs.Db.{Db, Inode}
use agentfs.Fs.{is_directory, update_inode}
use agentfs.Fs.Wf.{IsWf}
use agentfs.Fs.Wf.Move.{IsSameKind, forwards, backwards, same_none}

pub IsSameKind-refl : (a : Option Inode) → IsSameKind a a
IsSameKind-refl none = tt
IsSameKind-refl (some x) = (refl, λ _. refl)

-- The same rows, by kind.
abbrev pub AreSameKind : Db → Db → Type 0
AreSameKind db db' = (j : ℕ) → IsSameKind (db.inode j) (db'.inode j)

pub update_inode-AreSameKind :
    (i : ℕ) (f : Inode → Inode) (db : Db)
    → ((r : Inode) → db.inode i ≡ some r → IsSameKind (some r) (some (f r)))
    → AreSameKind db (update_inode i f db)
update_inode-AreSameKind i f db h j = elim (Bool-cases (i == j)) [
  | inr other ↦ rw other (IsSameKind-refl (db.inode j))
  | inl here ↦
      let e : i ≡ j = ground arith in
      rw (here, ← e)
        (elim (Option-cases (db.inode i)) [
          | inl gone ↦ rw gone tt
          | inr (r, row) ↦ rw row (h r row)
        ])
]

pub same-IsWf :
    (db db' : Db)
    → IsWf db
    → db'.dentry ≡ db.dentry
    → db'.last_ino ≡ db.last_ino
    → AreSameKind db db'
    → IsWf db'
same-IsWf db db' w dentry next inode = record {
  unique = rw dentry w.unique;
  child = λ q m i h.
      let (r, old) = w.child q m i (rw dentry at h) in
      let (r', now, _) = forwards (db.inode i) (db'.inode i) r (inode i) old in (r', now);
  parent = λ q m i h.
      let (r, old, d) = w.parent q m i (rw dentry at h) in
      let (r', now, same) = forwards (db.inode q) (db'.inode q) r (inode q) old in
      (r', now, same ∙ d);
  counted = λ j r' h nd.
      let (r, old, k) = backwards (db.inode j) (db'.inode j) r' (inode j) h in
      let file : is_directory r ≡ false = sym k.0 ∙ nd in
      rw dentry (k.1 file ∙ w.counted j r old file);
  single = λ j r' h d.
      let (r, old, k) = backwards (db.inode j) (db'.inode j) r' (inode j) h in
      rw dentry (w.single j r old (sym k.0 ∙ d));
  fresh_inode =
      λ j h. same_none (db.inode j) (db'.inode j) (inode j) (w.fresh_inode j (rw next at h));
  fresh_links = λ j h. rw dentry (w.fresh_links j (rw next at h));
}
