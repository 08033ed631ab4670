-- ===== src/Fs/Listing/Sorted.antt =====
-- What the listings of a directory hold: every name once looked up, in order.
use agentfs.Base.{
  ℕ, ◌≡◌, refl, ◌∙◌, Bool, true, false, ◌&&◌, ◌||◌, not, some, List, [], ◌∷◌, Str, same, same_iff,
  arith, Bool-cases, inl, inr,
}
use agentfs.Db.{Inode}
use agentfs.Db.Dentries.{Dentry, find, is_at}
use agentfs.Fs.Cache.{Lru}
use agentfs.Fs.{Fs, ok, is_directory, is_some}
use agentfs.Fs.Listing.{name_le, in_directory, place, order_by_name, names, readdir}
use agentfs.Fs.Wf.{IsDirAt}
use agentfs.Path.{is_empty}

unfoldable pub has_name : Str → List Str → Bool
has_name n [] = false
has_name n (m ∷ ms) = same n m || has_name n ms

abbrev pub IsSorted : List Str → Type 0
IsSorted [] = Unit
IsSorted (n ∷ []) = Unit
IsSorted (n ∷ m ∷ ms) = (name_le n m ≡ true) × IsSorted (m ∷ ms)

pub name_le_total : (a b : Str) → name_le a b ≡ false → name_le b a ≡ true
unfolding name_le
name_le_total [] b h = cc
name_le_total (x ∷ a) [] h = refl
name_le_total (x ∷ a) (y ∷ b) h = ground (arith, name_le_total a b)

name_le_trans : (a b c : Str) → name_le a b ≡ true → name_le b c ≡ true → name_le a c ≡ true
unfolding name_le
name_le_trans [] b c h k = refl
name_le_trans (x ∷ a) [] c h k = cc
name_le_trans (x ∷ a) (y ∷ b) [] h k = cc
name_le_trans (x ∷ a) (y ∷ b) (z ∷ c) h k = ground (arith, name_le_trans a b c)

has_name-place :
    (n : Str) (d : Dentry) (t : List Dentry)
    → has_name n (names (place d t)) ≡ has_name n (names (d ∷ t))
unfolding has_name names place
has_name-place n d [] = refl
has_name-place n d (e ∷ t) = ground (arith, has_name-place n d t)

pub has_name-order_by_name :
    (n : Str) (t : List Dentry) → has_name n (names (order_by_name t)) ≡ has_name n (names t)
unfolding has_name names order_by_name
has_name-order_by_name n [] = refl
has_name-order_by_name n (d ∷ t) =
    has_name-place n d (order_by_name t) ∙ ground (arith, has_name-order_by_name n t)

-- The names in a directory are those that are found there, but for the empty one.
pub has_name-in_directory :
    (n : Str) (p : ℕ) (t : List Dentry)
    → has_name n (names (in_directory p t)) ≡ (not (is_empty n) && is_some (find p n t))
unfolding has_name names in_directory find is_at
has_name-in_directory n p [] = ground arith
has_name-in_directory n p (d ∷ t) =
    ground (arith, has_name-in_directory n p t, same_iff n d.name, same_iff d.name n)

-- Every row comes before those that follow.
abbrev AllAfter : Str → List Dentry → Type 0
AllAfter n [] = Unit
AllAfter n (d ∷ t) = (name_le n d.name ≡ true) × AllAfter n t

abbrev AreOrdered : List Dentry → Type 0
AreOrdered [] = Unit
AreOrdered (d ∷ t) = AllAfter d.name t × AreOrdered t

AllAfter-le : (a b : Str) (t : List Dentry) → name_le a b ≡ true → AllAfter b t → AllAfter a t
AllAfter-le a b [] h k = tt
AllAfter-le a b (d ∷ t) h (k, ks) = (name_le_trans a b d.name h k, AllAfter-le a b t h ks)

AllAfter-place :
    (n : Str) (d : Dentry) (t : List Dentry)
    → name_le n d.name ≡ true
    → AllAfter n t
    → AllAfter n (place d t)
unfolding place
AllAfter-place n d [] h k = (h, tt)
AllAfter-place n d (e ∷ t) h (k, ks) = elim (Bool-cases (name_le d.name e.name)) [
  | inl first ↦ rw first (h, (k, ks))
  | inr later ↦ rw later (k, AllAfter-place n d t h ks)
]

place-AreOrdered : (d : Dentry) (t : List Dentry) → AreOrdered t → AreOrdered (place d t)
unfolding place
place-AreOrdered d [] o = (tt, tt)
place-AreOrdered d (e ∷ t) (after, o) = elim (Bool-cases (name_le d.name e.name)) [
  | inl first ↦ rw first ((first, AllAfter-le d.name e.name t first after), (after, o))
  | inr later ↦
      rw later (
        AllAfter-place e.name d t (name_le_total d.name e.name later) after,
        place-AreOrdered d t o,
      )
]

order_by_name-AreOrdered : (t : List Dentry) → AreOrdered (order_by_name t)
unfolding order_by_name
order_by_name-AreOrdered [] = tt
order_by_name-AreOrdered (d ∷ t) = place-AreOrdered d (order_by_name t) (order_by_name-AreOrdered t)

IsSorted-cons :
    (n : Str) (t : List Dentry) → AllAfter n t → IsSorted (names t) → IsSorted (n ∷ names t)
unfolding names
IsSorted-cons n [] a s = tt
IsSorted-cons n (d ∷ t) (a, later) s = elim (Bool-cases (is_empty d.name)) [
  | inl skipped ↦ rw skipped (IsSorted-cons n t later (rw skipped at s))
  | inr kept ↦ rw kept (a, rw kept at s)
]

names-IsSorted : (t : List Dentry) → AreOrdered t → IsSorted (names t)
unfolding names
names-IsSorted [] o = tt
names-IsSorted (d ∷ t) (after, o) = elim (Bool-cases (is_empty d.name)) [
  | inl skipped ↦ rw skipped (names-IsSorted t o)
  | inr kept ↦ rw kept (IsSorted-cons d.name t after (names-IsSorted t o))
]

module _ {lru : Lru} (p : ℕ) (s : Fs lru) where
  listed :
      (r : Inode)
      → s.db.inode p ≡ some r
      → is_directory r ≡ true
      → readdir p s ≡ (ok (some (names (order_by_name (in_directory p s.db.dentry)))), s)
  unfolding readdir
  listed r row dir = ground arith

  -- `readdir` of a directory succeeds and changes nothing; its names are in order, and a name is
  -- among them exactly if it is not empty and is found in the directory.
  pub readdir-find :
      IsDirAt p s.db
      → (ns : List Str) × (readdir p s ≡ (ok (some ns), s))
        × IsSorted ns
        × ((n : Str) → has_name n ns ≡ (not (is_empty n) && is_some (find p n s.db.dentry)))
  readdir-find (r, row, dir) =
      let rows = in_directory p s.db.dentry in
      (
        names (order_by_name rows),
        listed r row dir,
        names-IsSorted (order_by_name rows) (order_by_name-AreOrdered rows),
        λ n. has_name-order_by_name n rows ∙ has_name-in_directory n p s.db.dentry,
      )
