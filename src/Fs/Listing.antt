-- ===== src/Fs/Listing.antt =====
-- `readdir` and `readdir_plus` of sdk/rust/src/filesystem/agentfs.rs, as `impl FileSystem for AgentFS`
-- has them.
pub mod Sorted
use agentfs.Base.{
  ℕ, Bool, true, false, ◌&&◌, ◌||◌, not, Option, none, some, List, [], ◌∷◌, ltb, ◌==◌,
  if◌then◌else◌, Str,
}
use agentfs.Db.{Db, Inode}
use agentfs.Db.Dentries.{Dentry}
use agentfs.Fs.Cache.{Lru}
use agentfs.Fs.{Fs, Exec, Stats, ok, err, query, not_a_directory, is_directory, stats_of}
use agentfs.Path.{is_empty}

-- ORDER BY name: texts are compared byte by byte.
unfoldable pub name_le : Str → Str → Bool
name_le [] t = true
name_le (x ∷ s) [] = false
name_le (x ∷ s) (y ∷ t) = ltb x y || ((x == y) && name_le s t)

unfoldable pub in_directory : ℕ → List Dentry → List Dentry
in_directory p [] = []
in_directory p (d ∷ t) = let rest = in_directory p t in if d.parent_ino == p then d ∷ rest else rest

unfoldable pub place : Dentry → List Dentry → List Dentry
place d [] = d ∷ []
place d (e ∷ t) = let rest = place d t in if name_le d.name e.name then d ∷ e ∷ t else e ∷ rest

unfoldable pub order_by_name : List Dentry → List Dentry
order_by_name [] = []
order_by_name (d ∷ t) = place d (order_by_name t)

-- The loop over the rows leaves empty names out.
unfoldable pub names : List Dentry → List Str
names [] = []
names (d ∷ t) = let rest = names t in if is_empty d.name then rest else d.name ∷ rest

pub record DirEntry : Type 0 where
  pub name : Str
  pub stats : Stats

-- The join with `fs_inode`, and the loop over its rows.
unfoldable pub entries : Db → List Dentry → List DirEntry
entries db [] = []
entries db (d ∷ t) =
    let rest = entries db t in
    elim (db.inode d.ino) [
      | none ↦ rest
      | some r ↦
          if is_empty d.name
          then rest
          else record { name = d.name; stats = stats_of d.ino r } ∷ rest
    ]

module _ {lru : Lru} where
  -- Nothing for an inode that is not there, an error for one that is no directory.
  abbrev pub of_directory {ℓ} : {A : Type ℓ} → ℕ → (Db → A) → Exec lru (Option A)
  of_directory ino f s = elim (s.db.inode ino) [
    | none ↦ (ok none, s)
    | some r ↦ (if is_directory r then ok (some (f s.db)) else err not_a_directory, s)
  ]

  unfoldable pub readdir : ℕ → Exec lru (Option (List Str))
  readdir ino = of_directory ino (λ db. names (order_by_name (in_directory ino db.dentry)))

  unfoldable pub readdir_plus : ℕ → Exec lru (Option (List DirEntry))
  readdir_plus ino =
      of_directory ino (λ db. entries db (order_by_name (in_directory ino db.dentry)))

  -- `readdir` and `readdir_plus` of `impl AgentFS`, which do not look at the inode itself.
  unfoldable pub list_names : ℕ → Exec lru (List Str)
  list_names ino = query (λ db. names (order_by_name (in_directory ino db.dentry)))

  unfoldable pub list_entries : ℕ → Exec lru (List DirEntry)
  list_entries ino = query (λ db. entries db (order_by_name (in_directory ino db.dentry)))
