-- ===== src/Overlay/Gone.antt =====
-- What `unlink`, `rmdir` and `rename` take away is not found again.
pub mod Again
pub mod Removed
use agentfs.Base.{
  ℕ, ◌≡◌, refl, sym, ◌∙◌, Bool, true, false, Option, none, some, List, [], ◌∷◌, ◌++◌, arith, Str,
  Option-cases, Bool-cases, inl, inr, if◌then◌else◌, append-nil, ap, ltb, length, same, ◌==◌,
}
use agentfs.Db.{Db, Now}
use agentfs.Db.Dentries.{parent_of}
use agentfs.Fs.Attr
use agentfs.Fs.Attr.{lookup_row, stats_at, or_root, dot_dot}
use agentfs.Fs.Cache.{Lru}
use agentfs.Fs.{
  Fs, Exec, Result, ok, err, FsError, Stats, is_some, not_found, max_name_len, root_ino,
  lookup_child,
}
use agentfs.ByPath.Remove.{is_dir}
use agentfs.ByPath.Steps.{Result-cases}
use agentfs.Overlay.{
  in_delta, in_base, InodeInfo, OverlayFs, same_layer, build_path, get_inode_info, child_path,
  get_or_create_overlay_ino,
}
use agentfs.Overlay.Kept.{lookup_hidden}
use agentfs.Overlay.Lookup.{
  Base, Session, Act, ◌>>=◌, pure, ask, view, on_delta, components, walk_delta,
  resolve_delta_parent, lookup_delta, number_delta, number, ask_base, base_parent, lookup_base,
  delta_or_base, lookup_visible, unless_hidden, lookup,
}
use agentfs.Overlay.Whiteouts.{is_whiteout}

module _ {lru : Lru} where
  -- The same but for the delta's cache.
  abbrev pub Alike : Session lru → Session lru → Type 0
  Alike s t = (s.overlay ≡ t.overlay) × (s.delta.db ≡ t.delta.db)

  -- The answer goes by the overlay and the tables, which stay as they are.
  pub record Asks {A : Type 0} (m : Act lru A) : Type 0 where
    pub at : (s t : Session lru) → Alike s t → ((m s).0 ≡ (m t).0) × Alike t (m t).1

  module _ {A : Type 0} where
    pub Asks-pure : (a : A) → Asks (pure a)
    Asks-pure a = record { at = λ s t e. (refl, (refl, refl)) }

    pub Asks-ask : (r : Result A) → Asks (ask r)
    Asks-ask r = record { at = λ s t e. (refl, (refl, refl)) }

    pub Asks-view : (f : OverlayFs → Result A) → Asks (view f)
    Asks-view f = record { at = λ s t e. (ap f e.0, (refl, refl)) }

    pub Asks-if : (b : Bool) (m n : Act lru A) → Asks m → Asks n → Asks (if b then m else n)
    Asks-if true m n h k = h
    Asks-if false m n h k = k

  -- An action that answers with nothing does so again, and changes nothing but the cache.
  pub record FindsNothing {A : Type 0} (m : Act lru (Option A)) : Type 0 where
    pub at :
        (s t : Session lru) → (m s).0 ≡ ok none → Alike s t → ((m t).0 ≡ ok none) × Alike t (m t).1

  Alike-trans : (s t u : Session lru) → Alike s t → Alike t u → Alike s u
  Alike-trans s t u (a, b) (c, d) = (a ∙ c, b ∙ d)

  Alike-sym : (s t : Session lru) → Alike s t → Alike t s
  Alike-sym s t (a, b) = (sym a, sym b)

  module _ {A B : Type 0} (m : Act lru A) (f : A → Act lru B) (h : Asks m) where
    -- With like states, the rest of a chain starts with the same answer from like states.
    asked :
        (s t : Session lru)
        → Alike s t
        → ((m s).0 ≡ (m t).0) × Alike (m s).1 (m t).1 × Alike t (m t).1
    asked s t e =
        let (same, to) = h.at s t e in
        let (_, from) = h.at s s (refl, refl) in
        (
          same,
          Alike-trans (m s).1 t (m t).1 (Alike-trans (m s).1 s t (Alike-sym s (m s).1 from) e) to,
          to,
        )

    pub Asks-bind : ((a : A) → Asks (f a)) → Asks (m >>= f)
    Asks-bind k = record {
      at = λ s t e.
          let (same, between, to) = asked s t e in
          elim (Result-cases (m s).0) [
            | inl (a, answer) ↦
                let (same', to') = (k a).at (m s).1 (m t).1 between in
                rw (answer, sym same ∙ answer) (same', Alike-trans t (m t).1 (f a (m t).1).1 to to')
            | inr (x, answer) ↦ rw (answer, sym same ∙ answer) (refl, to)
          ];
    }

  pub FindsNothing-bind :
      {A B : Type 0} (m : Act lru A) (f : A → Act lru (Option B))
      → Asks m
      → ((a : A) → FindsNothing (f a))
      → FindsNothing (m >>= f)
  FindsNothing-bind {B = B} m f h k = record {
    at = λ s t nothing e.
        let (same, between, to) = asked m f h s t e in
        elim (Result-cases (m s).0) [
          | inl (a, answer) ↦
              let (again, to') = (k a).at (m s).1 (m t).1 (rw answer at nothing) between in
              rw (sym same ∙ answer) (again, Alike-trans t (m t).1 (f a (m t).1).1 to to')
          | inr (x, answer) ↦
              let failed : ◌≡◌ {A = Result (Option B)} (err x) (ok none) = rw answer at nothing in
              absurd (cc failed)
        ];
  }

  lookup_row_alike :
      (p : ℕ) (n : Str) (i : Option ℕ) (s t : Fs lru)
      → s.db ≡ t.db
      → ((lookup_row p n i s).0 ≡ (lookup_row p n i t).0) × ((lookup_row p n i t).1.db ≡ t.db)
  unfolding lookup_row
  lookup_row_alike p n none s t e = (refl, refl)
  lookup_row_alike p n (some ino) s t e = elim (Option-cases (t.db.inode ino)) [
    | inl gone ↦ (ground arith, ground arith)
    | inr (r, row) ↦ (ground arith, ground arith)
  ]

  pub lookup_alike :
      (p : ℕ) (n : Str) (s t : Fs lru)
      → s.db ≡ t.db
      → ((Attr.lookup p n s).0 ≡ (Attr.lookup p n t).0) × ((Attr.lookup p n t).1.db ≡ t.db)
  unfolding Attr.lookup
  lookup_alike p n s t e = elim (Bool-cases (ltb max_name_len (length n))) [
    | inl long ↦ rw long (refl, refl)
    | inr short ↦ elim (Bool-cases (same n dot_dot)) [
      | inl up ↦ rw (short, up) (ap parent e, refl)
      | inr down ↦ elim (Result-cases (lookup_child p n t.db.dentry)) [
        | inl (found, known) ↦
            let known' : lookup_child p n s.db.dentry ≡ ok found =
              ap (λ (db : Db). lookup_child p n db.dentry) e ∙ known in
            rw (short, down, known, known') (lookup_row_alike p n found s t e)
        | inr (x, failed) ↦
            let failed' : lookup_child p n s.db.dentry ≡ err x =
              ap (λ (db : Db). lookup_child p n db.dentry) e ∙ failed in
            rw (short, down, failed, failed') (refl, refl)
      ]
    ]
  ]
    where
      parent : Db → Result (Option Stats)
      parent db =
          ok (stats_at (if p == root_ino then root_ino else or_root (parent_of p db.dentry)) db)
