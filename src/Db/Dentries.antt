-- ===== src/Db/Dentries.antt =====
-- The table `fs_dentry` of sdk/rust/src/filesystem/agentfs.rs: the statements on it, and the child
-- lookup. The rows are in the order of insertion.
use agentfs.Base.{
  ℕ, ◌+◌, ◌≤◌, ◌<◌, ◌≡◌, ◌↔◌, refl, Bool, true, false, ◌&&◌, Option, none, some, List, [], ◌∷◌,
  ◌++◌, arith, length, ◌==◌, if◌then◌else◌, same, same_iff, Str, Bool-cases, inl, inr,
}

pub record Dentry : Type 0 where
  pub name : Str
  pub parent_ino : ℕ
  pub ino : ℕ

-- WHERE parent_ino = ? AND name = ?
unfoldable pub is_at : ℕ → Str → Dentry → Bool
is_at p n d = (d.parent_ino == p) && same d.name n

-- SELECT ino FROM fs_dentry WHERE parent_ino = ? AND name = ?
unfoldable pub select : ℕ → Str → List Dentry → List ℕ
select p n [] = []
select p n (d ∷ t) = let rest = select p n t in if is_at p n d then d.ino ∷ rest else rest

-- INSERT INTO fs_dentry; the caller has checked UNIQUE(parent_ino, name).
unfoldable pub append : Dentry → List Dentry → List Dentry
append d t = t ++ d ∷ []

-- DELETE FROM fs_dentry WHERE parent_ino = ? AND name = ?
unfoldable pub remove : ℕ → Str → List Dentry → List Dentry
remove p n [] = []
remove p n (d ∷ t) = let rest = remove p n t in if is_at p n d then rest else d ∷ rest

-- UPDATE fs_dentry SET parent_ino = ?, name = ? WHERE parent_ino = ? AND name = ?
unfoldable pub move : ℕ → Str → ℕ → Str → List Dentry → List Dentry
move p' n' p n [] = []
move p' n' p n (d ∷ t) =
    (if is_at p n d then record d { parent_ino = p'; name = n' } else d) ∷ move p' n' p n t

-- SELECT COUNT(*) FROM fs_dentry WHERE parent_ino = ?
unfoldable pub count_children : ℕ → List Dentry → ℕ
count_children p [] = 0
count_children p (d ∷ t) = (if d.parent_ino == p then 1 else 0) + count_children p t

-- SELECT parent_ino FROM fs_dentry WHERE ino = ? LIMIT 1
unfoldable pub parent_of : ℕ → List Dentry → Option ℕ
parent_of i [] = none
parent_of i (d ∷ t) = if d.ino == i then some d.parent_ino else parent_of i t

-- The first entry of a name in a directory.
unfoldable pub find : ℕ → Str → List Dentry → Option ℕ
find p n [] = none
find p n (d ∷ t) = if is_at p n d then some d.ino else find p n t

-- The number of entries that name an inode.
unfoldable pub links : ℕ → List Dentry → ℕ
links i [] = 0
links i (d ∷ t) = (if d.ino == i then 1 else 0) + links i t

-- UNIQUE(parent_ino, name)
abbrev pub IsUnique : List Dentry → Type 0
IsUnique t = (p : ℕ) (n : Str) → length (select p n t) ≤ 1

abbrev pub key_eq : ℕ → Str → ℕ → Str → Bool
key_eq p n p' n' = (p == p') && same n n'

pub key_eq_iff :
    (p : ℕ) (n : Str) (p' : ℕ) (n' : Str) → (key_eq p n p' n' ≡ true) ↔ ((p ≡ p') × (n ≡ n'))
key_eq_iff p n p' n' = ground (arith, same_iff n n')

pub find-append :
    (p : ℕ) (n : Str) (d : Dentry) (t : List Dentry)
    → find p n t ≡ none
    → (q : ℕ) (m : Str)
    → find q m (append (record d { parent_ino = p; name = n }) t)
      ≡ (if key_eq p n q m then some d.ino else find q m t)
unfolding find append is_at
find-append p n d [] h q m = ground arith
find-append p n d (e ∷ t) h q m = ground (
  arith,
  find-append p n d t,
  find-append p n d t (ground arith) q m,
  same_iff e.name n,
  same_iff e.name m,
  same_iff n m,
)

pub find-remove :
    (p : ℕ) (n : Str) (t : List Dentry) (q : ℕ) (m : Str)
    → find q m (remove p n t) ≡ (if key_eq p n q m then none else find q m t)
unfolding find remove is_at
find-remove p n [] q m = ground arith
find-remove p n (e ∷ t) q m =
    ground (arith, find-remove p n t q m, same_iff e.name n, same_iff e.name m, same_iff n m)

pub find-move :
    (p' : ℕ) (n' : Str) (p : ℕ) (n : Str) (t : List Dentry)
    → find p' n' t ≡ none
    → (q : ℕ) (m : Str)
    → find q m (move p' n' p n t)
      ≡ (if key_eq p' n' q m then find p n t else if key_eq p n q m then none else find q m t)
unfolding find move is_at
find-move p' n' p n [] h q m = ground arith
find-move p' n' p n (e ∷ t) h q m = ground (
  arith,
  find-move p' n' p n t (ground arith) q m,
  same_iff e.name n,
  same_iff e.name m,
  same_iff e.name n',
  same_iff n m,
  same_iff n' m,
  same_iff n' n,
)

pub links-append :
    (i : ℕ) (d : Dentry) (t : List Dentry)
    → links i (append d t) ≡ links i t + (if d.ino == i then 1 else 0)
unfolding links append
links-append i d [] = ground arith
links-append i d (e ∷ t) = omega (arith, links-append i d t)

pub links-move :
    (i p' : ℕ) (n' : Str) (p : ℕ) (n : Str) (t : List Dentry)
    → links i (move p' n' p n t) ≡ links i t
unfolding links move
links-move i p' n' p n [] = refl
links-move i p' n' p n (e ∷ t) = ground (arith, links-move i p' n' p n t)

-- How many rows a lookup finds.
abbrev pub rows : ℕ → Str → List Dentry → ℕ
rows p n t = length (select p n t)

pub find-none_of_rows : (p : ℕ) (n : Str) (t : List Dentry) → find p n t ≡ none → rows p n t ≡ 0
unfolding find select
find-none_of_rows p n [] h = refl
find-none_of_rows p n (d ∷ t) h = ground (arith, find-none_of_rows p n t)

rows-append :
    (p : ℕ) (n : Str) (d : Dentry) (t : List Dentry)
    → rows p n (append d t) ≡ rows p n t + (if is_at p n d then 1 else 0)
unfolding select append
rows-append p n d [] = ground arith
rows-append p n d (e ∷ t) = ground (arith, rows-append p n d t)

rows-remove-le :
    (q : ℕ) (m : Str) (p : ℕ) (n : Str) (t : List Dentry) → rows q m (remove p n t) ≤ rows q m t
unfolding select remove
rows-remove-le q m p n [] = omega arith
rows-remove-le q m p n (e ∷ t) = ground (arith, rows-remove-le q m p n t)

-- Of two keys, the tests of a row tell whether they are the same.
is_at-key_eq :
    (p : ℕ) (n : Str) (q : ℕ) (m : Str) (d : Dentry)
    → key_eq p n q m ≡ true
    → is_at q m d ≡ is_at p n d
is_at-key_eq p n q m d h = let (e, e') = (key_eq_iff p n q m).0 h in rw (e, e')

is_at_both :
    (p : ℕ) (n : Str) (q : ℕ) (m : Str) (d : Dentry)
    → is_at p n d ≡ true
    → is_at q m d ≡ key_eq p n q m
unfolding is_at
is_at_both p n q m d h = ground (arith, same_iff d.name n)

is_at_moved :
    (p : ℕ) (n : Str) (q : ℕ) (m : Str) (d : Dentry)
    → is_at q m (record d { parent_ino = p; name = n }) ≡ key_eq p n q m
unfolding is_at
is_at_moved p n q m d = refl

rows-move :
    (p' : ℕ) (n' : Str) (p : ℕ) (n : Str) (t : List Dentry)
    → find p' n' t ≡ none
    → (q : ℕ) (m : Str)
    → rows q m (move p' n' p n t)
      ≡ (if key_eq p' n' q m then rows p n t else if key_eq p n q m then 0 else rows q m t)
unfolding select move find
rows-move p' n' p n [] h q m = ground arith
rows-move p' n' p n (e ∷ t) h q m =
    let free : (is_at p' n' e ≡ false) × (find p' n' t ≡ none) = ground arith in
    let ih = rows-move p' n' p n t free.1 q m in
    elim (Bool-cases (is_at p n e)) [
      | inl here ↦ rw (here, is_at_moved p' n' q m e) (ground (arith, is_at_both p n q m e here))
      | inr other ↦ rw other (ground (arith, is_at-key_eq p' n' q m e, is_at-key_eq p n q m e))
    ]

-- The statements keep UNIQUE(parent_ino, name): an INSERT and an UPDATE to a key that is free, and
-- every DELETE.
pub append-IsUnique :
    (p : ℕ) (n : Str) (i : ℕ) (t : List Dentry)
    → find p n t ≡ none
    → IsUnique t
    → IsUnique (append (record { name = n; parent_ino = p; ino = i }) t)
unfolding is_at
append-IsUnique p n i t h u q m =
    let d : Dentry = record { name = n; parent_ino = p; ino = i } in
    ground (arith, rows-append q m d t, u q m, find-none_of_rows p n t h, same_iff n m)

pub remove-IsUnique : (p : ℕ) (n : Str) (t : List Dentry) → IsUnique t → IsUnique (remove p n t)
remove-IsUnique p n t u q m = omega (arith, rows-remove-le q m p n t, u q m)

pub move-IsUnique :
    (p' : ℕ) (n' : Str) (p : ℕ) (n : Str) (t : List Dentry)
    → find p' n' t ≡ none
    → IsUnique t
    → IsUnique (move p' n' p n t)
move-IsUnique p' n' p n t h u q m = ground (arith, rows-move p' n' p n t h q m, u q m, u p n)

IsUnique-tail : (d : Dentry) (t : List Dentry) → IsUnique (d ∷ t) → IsUnique t
unfolding select
IsUnique-tail d t u q m = ground (arith, u q m)

IsUnique-head :
    (p : ℕ) (n : Str) (d : Dentry) (t : List Dentry)
    → IsUnique (d ∷ t)
    → is_at p n d ≡ true
    → rows p n t ≡ 0
unfolding select
IsUnique-head p n d t u h = ground (arith, u p n)

remove_absent : (p : ℕ) (n : Str) (t : List Dentry) → rows p n t ≡ 0 → remove p n t ≡ t
unfolding select remove
remove_absent p n [] h = refl
remove_absent p n (d ∷ t) h = ground (arith, remove_absent p n t)

-- A DELETE of one entry takes one link from the inode that it names, and none from others.
pub links-remove :
    (i p : ℕ) (n : Str) (t : List Dentry)
    → IsUnique t
    → links i t
      ≡ links i (remove p n t) + elim (find p n t) [ none ↦ 0 | some j ↦ if j == i then 1 else 0 ]
unfolding links remove find
links-remove i p n [] u = refl
links-remove i p n (d ∷ t) u = ground (
  arith,
  links-remove i p n t (IsUnique-tail d t u),
  remove_absent p n t,
  IsUnique-head p n d t u,
)

-- A directory without children has no entries.
pub find_of_count_children :
    (p : ℕ) (n : Str) (t : List Dentry) → count_children p t ≡ 0 → find p n t ≡ none
unfolding find count_children is_at
find_of_count_children p n [] h = refl
find_of_count_children p n (d ∷ t) h = ground (arith, find_of_count_children p n t)

-- An entry that is found is a link.
pub links_of_find :
    (p : ℕ) (n : Str) (i : ℕ) (t : List Dentry) → find p n t ≡ some i → 0 < links i t
unfolding find links
links_of_find p n i [] h = cc
links_of_find p n i (d ∷ t) h = ground (arith, links_of_find p n i t)

pub links-le-length : (i : ℕ) (t : List Dentry) → links i t ≤ length t
unfolding links
links-le-length i [] = omega arith
links-le-length i (d ∷ t) = ground (arith, links-le-length i t)
