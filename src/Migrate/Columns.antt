-- ===== src/Migrate/Columns.antt =====
-- Adding columns to `fs_inode` one after another, and what that leaves of the rows.
use agentfs.Base.{
  ℕ, ◌≡◌, refl, ◌∙◌, true, false, ◌||◌, if◌then◌else◌, Option, none, some, List, [], ◌∷◌, ◌++◌, Str,
  same, same_iff, Bool-cases, Option-cases, inl, inr, arith,
}
use agentfs.Migrate.{
  nlink, atime_nsec, mtime_nsec, ctime_nsec, rdev, Table, Database, has, Faults, with_column, alter,
  altered, add_column_idempotent, and_then, migrate_v0_0_to_v0_2, migrate_v0_2_to_v0_4, Migrated,
  engine,
}

abbrev pub quiet : Faults
quiet c = none

abbrev pub holding : Option Str → Table → Database
holding v t = record { fs_inode = some t; schema_version = v }

has_append : (c d : Str) (ds : List Str) → has c (ds ++ (d ∷ [])) ≡ has c ds || same d c
unfolding has
has_append c d [] = ground arith
has_append c d (x ∷ ds) = let e = has_append c d ds in ground (arith, e)

-- The rows and columns of a table are still there, and a column that is new is zero in every row.
pub record Keeps (t t' : Table) : Type 0 where
  pub column : (c : Str) → has c t.columns ≡ true → has c t'.columns ≡ true
  pub row :
      (ino : ℕ) (r : Str → ℕ)
      → t.row ino ≡ some r
      → (r' : Str → ℕ) × (t'.row ino ≡ some r')
        × ((c : Str) → has c t.columns ≡ true → r' c ≡ r c)
        × ((c : Str) → has c t.columns ≡ false → has c t'.columns ≡ true → r' c ≡ 0)
  pub no_row : (ino : ℕ) → t.row ino ≡ none → t'.row ino ≡ none

pub Keeps-refl : (t : Table) → Keeps t t
Keeps-refl t = record {
  column = λ c h. h;
  row = λ ino r e. (r, e, λ c h. refl, λ c h k. ground arith);
  no_row = λ ino e. e;
}

pub Keeps-trans : (t t' t'' : Table) → Keeps t t' → Keeps t' t'' → Keeps t t''
Keeps-trans t t' t'' k k' = record {
  column = λ c h. k'.column c (k.column c h);
  row = λ ino r e.
      let (r', e', old, new) = k.row ino r e in
      let (r'', e'', old', new') = k'.row ino r' e' in
      (
        r'',
        e'',
        λ c h. old' c (k.column c h) ∙ old c h,
        λ c gone there. elim (Bool-cases (has c t'.columns)) [
          | inl h ↦ old' c h ∙ new c gone h
          | inr h ↦ new' c h there
        ],
      );
  no_row = λ ino e. k'.no_row ino (k.no_row ino e);
}

with_column-Keeps : (c : Str) (t : Table) → has c t.columns ≡ false → Keeps t (with_column c t)
with_column-Keeps c t missing = record {
  column = λ d h. ground (arith, has_append d c t.columns);
  row = λ ino r e. (
    λ d. if same c d then 0 else r d,
    rw e refl,
    λ d h. elim (Bool-cases (same c d)) [
      | inl s ↦ let p = (same_iff c d).0 s in absurd (ground (arith, p))
      | inr s ↦ ground arith
    ],
    λ d gone there. ground (arith, has_append d c t.columns),
  );
  no_row = λ ino e. rw e refl;
}

-- `add_column_idempotent` on a table, where the engine does not fail.
unfoldable pub add : Str → Table → Table
add c t = if has c t.columns then t else with_column c t

pub add_known : (c : Str) (t : Table) → has c t.columns ≡ true → add c t ≡ t
unfolding add
add_known c t h = rw h refl

pub has-add : (c : Str) (t : Table) → has c (add c t).columns ≡ true
unfolding add
has-add c t = elim (Bool-cases (has c t.columns)) [
  | inl h ↦ rw h h
  | inr h ↦ let s = (same_iff c c).1 refl in rw h (ground (arith, s, has_append c c t.columns))
]

pub add-Keeps : (c : Str) (t : Table) → Keeps t (add c t)
unfolding add
add-Keeps c t = elim (Bool-cases (has c t.columns)) [
  | inl h ↦ rw h (Keeps-refl t)
  | inr h ↦ rw h (with_column-Keeps c t h)
]

abbrev pub four : List Str
four = atime_nsec ∷ mtime_nsec ∷ ctime_nsec ∷ rdev ∷ []

abbrev pub five : List Str
five = nlink ∷ four

-- One column after another, until the engine fails.
unfoldable pub add_all : List Str → Table → Table
add_all [] t = t
add_all (c ∷ cs) t = add_all cs (add c t)

unfoldable pub add_until : Faults → List Str → Option Str → Table → Migrated
add_until faults [] v t = (none, holding v t)
add_until faults (c ∷ cs) v t = elim (faults c) [
  | some e ↦ (some (engine c e), holding v t)
  | none ↦ add_until faults cs v (add c t)
]

module _ (faults : Faults) (v : Option Str) where
  well_altered :
      (c : Str) (t : Table)
      → faults c ≡ none
      → add_column_idempotent faults c (holding v t) ≡ (none, holding v (add c t))
  unfolding add_column_idempotent alter altered add
  well_altered c t well = elim (Bool-cases (has c t.columns)) [
    | inl h ↦ rw (well, alter, h) refl
    | inr h ↦ rw (well, alter, h) refl
  ]

  badly_altered :
      (c : Str) (t : Table) (e : ℕ)
      → faults c ≡ some e
      → add_column_idempotent faults c (holding v t) ≡ (some (engine c e), holding v t)
  unfolding add_column_idempotent alter altered
  badly_altered c t e bad = rw (bad, alter) refl

  last_column :
      (c : Str) (t : Table)
      → add_column_idempotent faults c (holding v t) ≡ add_until faults (c ∷ []) v t
  unfolding add_until
  last_column c t = elim (Option-cases (faults c)) [
    | inl well ↦ rw (well, add_until) (well_altered c t well)
    | inr (e, bad) ↦ rw (bad, add_until) (badly_altered c t e bad)
  ]

  -- A step of the chain of `?` is a round of the loop over the columns.
  next_column :
      (c : Str) (cs : List Str) (step : Database → Migrated) (t : Table)
      → ((t' : Table) → step (holding v t') ≡ add_until faults cs v t')
      → and_then (add_column_idempotent faults c (holding v t)) step ≡ add_until faults (c ∷ cs) v t
  unfolding and_then add_until
  next_column c cs step t e = rw (last_column c t) (elim (Option-cases (faults c)) [
    | inl well ↦ rw (well, add_until) (e (add c t))
    | inr (x, bad) ↦ rw (bad, add_until) refl
  ])

  pub four_lem : (t : Table) → migrate_v0_2_to_v0_4 faults (holding v t) ≡ add_until faults four v t
  unfolding migrate_v0_2_to_v0_4
  four_lem t = next_column atime_nsec _ _ t (λ t₁.
      next_column mtime_nsec _ _ t₁
        (λ t₂. next_column ctime_nsec _ _ t₂ (λ t₃. last_column rdev t₃)))

  pub five_lem :
      (t : Table)
      → and_then (migrate_v0_0_to_v0_2 faults (holding v t)) (migrate_v0_2_to_v0_4 faults)
        ≡ add_until faults five v t
  unfolding migrate_v0_0_to_v0_2
  five_lem t = next_column nlink four (migrate_v0_2_to_v0_4 faults) t four_lem

pub quiet_lem :
    (cs : List Str) (v : Option Str) (t : Table)
    → add_until quiet cs v t ≡ (none, holding v (add_all cs t))
unfolding add_until add_all
quiet_lem [] v t = refl
quiet_lem (c ∷ cs) v t = quiet_lem cs v (add c t)

pub add_all-Keeps : (cs : List Str) (t : Table) → Keeps t (add_all cs t)
unfolding add_all
add_all-Keeps [] t = Keeps-refl t
add_all-Keeps (c ∷ cs) t =
    Keeps-trans t (add c t) (add_all cs (add c t)) (add-Keeps c t) (add_all-Keeps cs (add c t))
