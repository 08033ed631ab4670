-- ===== src/Migrate/Resumed.antt =====
-- Migrations that fail half way, and are run again.
use agentfs.Base.{
  ◌≡◌, refl, sym, ◌∙◌, ap, subst, true, false, ◌&&◌, if◌then◌else◌, Option, none, some, List, [],
  ◌∷◌, Str, Bool-cases, Option-cases, inl, inr, ◌⊎◌, arith,
}
use agentfs.Migrate.{
  is_current, nlink, atime_nsec, mtime_nsec, ctime_nsec, rdev, Table, Database, has, version_of,
  detect_schema_version, Faults, alter, altered, add_column_idempotent, and_then, apply_migrations,
  migrate_v0_0_to_v0_2, handle_migrate_command, Migrated, store_version,
}
use agentfs.Migrate.Columns.{
  quiet, holding, Keeps, Keeps-refl, Keeps-trans, add, add_known, has-add, add-Keeps, four, five,
  add_all, add_until, quiet_lem,
}
use agentfs.Migrate.Kept.{version_cases, missing_of, handle_lem, missing_of-five}

-- A table on the way: what is there is kept, and the rest of the columns leads to the same table.
record IsOnTheWay (cs : List Str) (t t' : Table) : Type 0 where
  keeps : Keeps t t'
  rest : add_all cs t' ≡ add_all cs t

on_a_step :
    (c : Str) (cs : List Str) (t t' : Table) → IsOnTheWay cs (add c t) t' → IsOnTheWay (c ∷ cs) t t'
unfolding add_all
on_a_step c cs t t' way = record {
  keeps = Keeps-trans t (add c t) t' (add-Keeps c t) way.keeps;
  rest = ap (add_all cs) (add_known c t' (way.keeps.column c (has-add c t))) ∙ way.rest;
}

add_until_lem :
    (faults : Faults) (cs : List Str) (v : Option Str) (t : Table)
    → (t' : Table) × ((add_until faults cs v t).1 ≡ holding v t') × IsOnTheWay cs t t'
unfolding add_until
add_until_lem faults [] v t = (t, refl, record { keeps = Keeps-refl t; rest = refl })
add_until_lem faults (c ∷ cs) v t = elim (Option-cases (faults c)) [
  | inl well ↦
      let (t', e, way) = add_until_lem faults cs v (add c t) in
      (t', rw (well, add_until) e, on_a_step c cs t t' way)
  | inr (x, bad) ↦ (t, rw (bad, add_until) refl, record { keeps = Keeps-refl t; rest = refl })
]

-- What a migration of an older table leaves. Until the link count is there, nothing is changed.
record IsLeft (t t' : Table) : Type 0 where
  way : IsOnTheWay five t t'
  links : (t' ≡ t) ⊎ (has nlink t'.columns ≡ true)

store_tables : (r : Migrated) → (and_then r store_version).1.fs_inode ≡ r.1.fs_inode
unfolding and_then
store_tables (some e, db) = refl
store_tables (none, db) = refl

left_from_four : (t t' : Table) → has nlink t.columns ≡ true → IsOnTheWay four t t' → IsLeft t t'
left_from_four t t' there way =
    let way' : IsOnTheWay four (add nlink t) t' = rw (add_known nlink t there) way in
    record { way = on_a_step nlink four t t' way'; links = inr (way.keeps.column nlink there) }

five_left :
    (faults : Faults) (v : Option Str) (t : Table)
    → (t' : Table) × ((add_until faults five v t).1 ≡ holding v t') × IsLeft t t'
unfolding add_until
five_left faults v t = elim (Option-cases (faults nlink)) [
  | inl well ↦
      let (t', e, way) = add_until_lem faults four v (add nlink t) in
      let links = way.keeps.column nlink (has-add nlink t) in
      (
        t',
        rw (well, add_until) e,
        record { way = on_a_step nlink four t t' way; links = inr links },
      )
  | inr (x, bad) ↦ (
    t,
    rw (bad, add_until) refl,
    record { way = record { keeps = Keeps-refl t; rest = refl }; links = inl refl },
  )
]

missing_left :
    (faults : Faults) (v : Option Str) (t : Table)
    → is_current (version_of t.columns) ≡ false
    → (t' : Table) × ((add_until faults (missing_of (version_of t.columns)) v t).1 ≡ holding v t')
      × IsLeft t t'
unfolding missing_of is_current
missing_left faults v t old = elim (version_cases t.columns) [
  | inl e ↦ absurd (ground (arith, rw e at old))
  | inr (inl (e, there)) ↦
      let (t', e', way) = add_until_lem faults four v t in
      rw (e, missing_of) (t', e', left_from_four t t' there way)
  | inr (inr e) ↦ rw (e, missing_of) (five_left faults v t)
]

handle_left :
    (faults : Faults) (v : Option Str) (t : Table)
    → is_current (version_of t.columns) ≡ false
    → (t' : Table) × ((handle_migrate_command faults false (holding v t)).1.fs_inode ≡ some t')
      × IsLeft t t'
handle_left faults v t old =
    let (t', e, left) = missing_left faults v t old in
    (
      t',
      ap (λ r. r.1.fs_inode) (handle_lem faults v t old)
          ∙ store_tables (add_until faults (missing_of (version_of t.columns)) v t)
          ∙ ap (λ db. db.fs_inode) e,
      left,
    )

-- The table of the command when the engine does not fail.
abbrev handled : Table → Table
handled t = if is_current (version_of t.columns) then t else add_all five t

quiet_handle :
    (v : Option Str) (t : Table)
    → (handle_migrate_command quiet false (holding v t)).1.fs_inode ≡ some (handled t)
unfolding handle_migrate_command detect_schema_version and_then
quiet_handle v t = elim (Bool-cases (is_current (version_of t.columns))) [
  | inl new ↦ rw new refl
  | inr old ↦
      ap (λ r. r.1.fs_inode) (handle_lem quiet v t old)
      ∙ rw (old, quiet_lem (missing_of (version_of t.columns)) v t, missing_of-five t old) refl
]

current_has :
    (cs : List Str)
    → is_current (version_of cs) ≡ true
    → (has atime_nsec cs ≡ true)
      × (has mtime_nsec cs ≡ true)
      × (has ctime_nsec cs ≡ true)
      × (has rdev cs ≡ true)
unfolding is_current
current_has cs new =
    elim (Bool-cases
      (has atime_nsec cs && (has mtime_nsec cs && (has ctime_nsec cs && has rdev cs)))) [
        | inl e ↦ (ground arith, ground arith, ground arith, ground arith)
        | inr e ↦ elim (Bool-cases (has nlink cs)) [
          | inl links ↦ absurd (ground (arith, rw (e, links) at new))
          | inr none_yet ↦ absurd (ground (arith, rw (e, none_yet) at new))
        ]
      ]

-- A table with the four columns and the link count misses nothing.
five_known :
    (t : Table)
    → is_current (version_of t.columns) ≡ true
    → has nlink t.columns ≡ true
    → add_all five t ≡ t
unfolding add_all
five_known t new there =
    let (a, m, c, r) = current_has t.columns new in
    rw
      (
        add_known nlink t there,
        add_known atime_nsec t a,
        add_known mtime_nsec t m,
        add_known ctime_nsec t c,
      )
      (add_known rdev t r)

handled_left :
    (t t' : Table)
    → is_current (version_of t.columns) ≡ false
    → IsLeft t t'
    → handled t' ≡ handled t
handled_left t t' old left = elim (Bool-cases (is_current (version_of t'.columns))) [
  | inr still ↦ rw (old, still) left.way.rest
  | inl new ↦ elim left.links [
    | inl same_table ↦ absurd (ground (arith, rw same_table at new))
    | inr there ↦ rw (old, new) (sym (five_known t' new there) ∙ left.way.rest)
  ]
]

holding_lem : (db : Database) (t : Table) → db.fs_inode ≡ some t → db ≡ holding db.schema_version t
holding_lem db t e = ap (λ x. record { fs_inode = x; schema_version = db.schema_version }) e

-- A database file without the table stays as it is.
no_table_left :
    (faults : Faults) (v : Option Str)
    → (handle_migrate_command faults false (record { fs_inode = none; schema_version = v })).1
      ≡ record { fs_inode = none; schema_version = v }
unfolding handle_migrate_command detect_schema_version is_current apply_migrations
    migrate_v0_0_to_v0_2 add_column_idempotent alter altered and_then
no_table_left faults v = elim (Option-cases (faults nlink)) [
  | inl well ↦ rw (well, alter) refl
  | inr (x, bad) ↦ rw (bad, alter) refl
]

current_left :
    (faults : Faults) (v : Option Str) (t : Table)
    → is_current (version_of t.columns) ≡ true
    → (handle_migrate_command faults false (holding v t)).1 ≡ holding v t
unfolding handle_migrate_command detect_schema_version
current_left faults v t new = rw (new, handle_migrate_command) refl

abbrev migrated_table : Database → Option Table
migrated_table db = (handle_migrate_command quiet false db).1.fs_inode

again_holding :
    (faults : Faults) (v : Option Str) (t : Table)
    → migrated_table (handle_migrate_command faults false (holding v t)).1
      ≡ migrated_table (holding v t)
again_holding faults v t = elim (Bool-cases (is_current (version_of t.columns))) [
  | inl new ↦ ap migrated_table (current_left faults v t new)
  | inr old ↦
      let (t', e, left) = handle_left faults v t old in
      let db' = (handle_migrate_command faults false (holding v t)).1 in
      ap migrated_table (holding_lem db' t' e)
      ∙ quiet_handle db'.schema_version t'
      ∙ ap some (handled_left t t' old left)
      ∙ sym (quiet_handle v t)
]

-- A migration that the engine lets fail at any column, or does not, and that is run again without a
-- failure, leaves the same `fs_inode` as the one run without a failure alone, from every database.
pub handle_migrate_command_again :
    (faults : Faults) (db : Database)
    → (handle_migrate_command quiet false (handle_migrate_command faults false db).1).1.fs_inode
      ≡ (handle_migrate_command quiet false db).1.fs_inode
handle_migrate_command_again faults db =
    let goal : Database → Type 0 =
      λ d. migrated_table (handle_migrate_command faults false d).1 ≡ migrated_table d in
    elim (Option-cases db.fs_inode) [
      | inl gone ↦
          let e : db ≡ record { fs_inode = none; schema_version = db.schema_version } =
            ap (λ x. record { fs_inode = x; schema_version = db.schema_version }) gone in
          subst goal (sym e) (ap migrated_table (no_table_left faults db.schema_version))
      | inr (t, there) ↦
          subst goal (sym (holding_lem db t there)) (again_holding faults db.schema_version t)
    ]
