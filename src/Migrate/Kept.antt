-- ===== src/Migrate/Kept.antt =====
-- What a migration does to the rows of `fs_inode`, and where it leads.
use agentfs.Base.{
  ◌≡◌, refl, true, false, ◌&&◌, Option, none, some, List, [], ◌∷◌, Str, Bool-cases, inl, inr, ◌⊎◌,
  arith,
}
use agentfs.Migrate.{
  SchemaVersion, v0_0, v0_2, v0_4, is_current, nlink, atime_nsec, mtime_nsec, ctime_nsec, rdev,
  Table, has, version_of, detect_schema_version, compatible, check_schema_version, Faults, and_then,
  apply_migrations, handle_migrate_command, agentfs_schema_version,
}
use agentfs.Migrate.Columns.{
  quiet, holding, Keeps, add, add_known, has-add, four, five, add_all, add_until, four_lem,
  five_lem, quiet_lem, add_all-Keeps,
}

pub version_cases :
    (cs : List Str)
    → (version_of cs ≡ v0_4)
      ⊎ (((version_of cs ≡ v0_2) × (has nlink cs ≡ true)) ⊎ (version_of cs ≡ v0_0))
version_cases cs =
    elim (Bool-cases
      (has atime_nsec cs && (has mtime_nsec cs && (has ctime_nsec cs && has rdev cs)))) [
        | inl new ↦ inl (rw new refl)
        | inr old ↦ elim (Bool-cases (has nlink cs)) [
          | inl links ↦ inr (inl (rw (old, links) (refl, refl)))
          | inr none_yet ↦ inr (inr (rw (old, none_yet) refl))
        ]
      ]

-- The columns that a migration goes through: one that is at v0.2 has the first already.
unfoldable pub missing_of : SchemaVersion → List Str
missing_of v0_0 = five
missing_of v0_2 = four
missing_of v0_4 = []

-- The command on a table that is not current.
pub handle_lem :
    (faults : Faults) (v : Option Str) (t : Table)
    → is_current (version_of t.columns) ≡ false
    → handle_migrate_command faults false (holding v t)
      ≡ and_then
          (add_until faults (missing_of (version_of t.columns)) v t)
          (λ db. (none, record db { schema_version = some agentfs_schema_version }))
unfolding handle_migrate_command apply_migrations detect_schema_version missing_of is_current
handle_lem faults v t old = elim (version_cases t.columns) [
  | inl e ↦ absurd (ground (arith, rw e at old))
  | inr (inl (e, links)) ↦ rw (e, handle_migrate_command) (rw (four_lem faults v t) refl)
  | inr (inr e) ↦ rw (e, handle_migrate_command) (rw (five_lem faults v t) refl)
]

pub missing_of-five :
    (t : Table)
    → is_current (version_of t.columns) ≡ false
    → add_all (missing_of (version_of t.columns)) t ≡ add_all five t
unfolding missing_of is_current add_all
missing_of-five t old = elim (version_cases t.columns) [
  | inl e ↦ absurd (ground (arith, rw e at old))
  | inr (inl (e, links)) ↦ rw (e, missing_of, add_known nlink t links) refl
  | inr (inr e) ↦ rw (e, missing_of) refl
]

pub five_current :
    (t : Table)
    → (version_of (add_all five t).columns ≡ v0_4) × (has nlink (add_all five t).columns ≡ true)
unfolding add_all
five_current t =
    let t₁ = add nlink t in
    let t₂ = add atime_nsec t₁ in
    let t₃ = add mtime_nsec t₂ in
    let t₄ = add ctime_nsec t₃ in
    let a =
      (add_all-Keeps (mtime_nsec ∷ ctime_nsec ∷ rdev ∷ []) t₂).column _ (has-add atime_nsec t₁) in
    let m = (add_all-Keeps (ctime_nsec ∷ rdev ∷ []) t₃).column _ (has-add mtime_nsec t₂) in
    let c = (add_all-Keeps (rdev ∷ []) t₄).column _ (has-add ctime_nsec t₃) in
    let r = has-add rdev t₄ in
    (rw (a, m, c, r) refl, (add_all-Keeps four t₁).column _ (has-add nlink t))

-- The command on a table of an older version, where the engine does not fail: it succeeds and leaves
-- a table that `check_schema_version` takes, with a link count; every inode is still there with what it
-- had in every column, and has zero in each column that is new, so also as its link count if there was
-- none.
pub migrate_lem :
    (v : Option Str) (t : Table)
    → is_current (version_of t.columns) ≡ false
    → ((handle_migrate_command quiet false (holding v t)).0 ≡ none)
      × (check_schema_version (handle_migrate_command quiet false (holding v t)).1 ≡ compatible)
      × ((t' : Table) × ((handle_migrate_command quiet false (holding v t)).1.fs_inode ≡ some t')
          × (has nlink t'.columns ≡ true)
          × Keeps t t')
unfolding and_then check_schema_version detect_schema_version is_current
migrate_lem v t old =
    let (current, links) = five_current t in
    rw
      (
        handle_lem quiet v t old,
        quiet_lem (missing_of (version_of t.columns)) v t,
        missing_of-five t old,
        current,
      )
      (refl, refl, (add_all five t, refl, links, add_all-Keeps five t))
