-- ===== src/ByPath/Steps.antt =====
-- Chains of actions that read, before the one that writes.
use agentfs.Base.{ℕ, ◌≡◌, refl, Bool, false, Option, none, some, List, arith, Str, inl, inr, ◌⊎◌}
use agentfs.Db.{Db}
use agentfs.Fs.Cache.{Lru}
use agentfs.Fs.{
  Fs, Exec, Result, ok, err, root_ino, root_operation, refuse, pure, FsError, required, not_found,
  query, invalid_path, ◌>>=◌,
}
use agentfs.Fs.Wf.{Inv}
use agentfs.ByPath.Reads.{
  Reads, Reads-bind, Reads-pure, Reads-refuse, Reads-resolve_path, Reads-required, Reads-follow,
}
use agentfs.ByPath.{
  non_root, resolve_known, resolve_parent, parent_text, stat_with_conn, max_symlink_depth,
}
use agentfs.Fs.Resolve.{walk, resolve_path, resolve_path-walk}
use agentfs.Path.{is_empty, split_path, normalize_path}

pub Result-cases :
    {A : Type 0} (r : Result A) → ((a : A) × (r ≡ ok a)) ⊎ ((e : FsError) × (r ≡ err e))
Result-cases (ok a) = inl (a, refl)
Result-cases (err e) = inr (e, refl)

module _ {lru : Lru} where
  -- After an action that reads, only what follows it matters.
  pub then-Inv :
      {A B : Type 0} (m : Exec lru A) (f : A → Exec lru B) (s : Fs lru)
      → Reads m
      → Inv s
      → ((a : A) (t : Fs lru) → (m s).0 ≡ ok a → t.db ≡ s.db → Inv t → Inv (f a t).1)
      → Inv ((m >>= f) s).1
  then-Inv m f s reads v h =
      let (same, v') = reads s v in
      elim (Result-cases (m s).0) [
        | inl (a, e) ↦ rw e (h a (m s).1 e same v')
        | inr (x, e) ↦ rw e v'
      ]

  pub Reads-non_root : (path : Str) → Reads {lru = lru} (non_root path)
  unfolding non_root
  Reads-non_root path =
      Reads-bind (refuse {lru = lru} (is_empty (split_path (normalize_path path))) root_operation)
        (λ _. pure (split_path (normalize_path path)))
        (Reads-refuse (is_empty (split_path (normalize_path path))) root_operation)
        (λ _. Reads-pure (split_path (normalize_path path)))

  pub non_root-ok :
      (path : Str) (s : Fs lru) (cs : List Str)
      → (non_root path s).0 ≡ ok cs
      → (cs ≡ split_path (normalize_path path)) × (is_empty cs ≡ false)
  unfolding non_root
  non_root-ok path s cs h = ground arith

  pub required-ok :
      {A : Type 0} (e : FsError) (o : Option A) (s : Fs lru) (a : A)
      → (required e o s).0 ≡ ok a
      → o ≡ some a
  required-ok e none s a h = absurd (ground arith)
  required-ok e (some b) s a h = ground arith

  pub resolve_known-ok :
      (path : Str) (s : Fs lru) (i : ℕ)
      → Inv s
      → (resolve_known path s).0 ≡ ok i
      → walk (split_path path) root_ino s.db.dentry ≡ some i
  unfolding resolve_known
  resolve_known-ok path s i v h =
      let (walked, _, _) = resolve_path-walk path s v in
      required-ok not_found _ (resolve_path path s).1 i (rw walked at h)

  pub Reads-resolve_parent : (cs : List Str) → Reads {lru = lru} (resolve_parent cs)
  unfolding resolve_parent
  Reads-resolve_parent cs =
      Reads-bind (resolve_path (parent_text cs)) (required not_found)
        (Reads-resolve_path (parent_text cs)) (Reads-required not_found)

  pub resolve_parent-ok :
      (cs : List Str) (s : Fs lru) (p : ℕ)
      → Inv s
      → (resolve_parent cs s).0 ≡ ok p
      → walk (split_path (parent_text cs)) root_ino s.db.dentry ≡ some p
  unfolding resolve_parent
  resolve_parent-ok cs s p v h =
      let (walked, _, _) = resolve_path-walk (parent_text cs) s v in
      required-ok not_found _ (resolve_path (parent_text cs) s).1 p (rw walked at h)

  pub refuse-ok :
      (b : Bool) (e : FsError) (s : Fs lru) (a : Unit {0}) → (refuse b e s).0 ≡ ok a → b ≡ false
  refuse-ok b e s a h = ground arith

  pub query-ok : {A : Type 0} (f : Db → A) (s : Fs lru) (a : A) → (query f s).0 ≡ ok a → a ≡ f s.db
  query-ok f s a h = ground arith

  pub Reads-stat_with_conn : (path : Str) → Reads {lru = lru} (stat_with_conn path)
  unfolding stat_with_conn
  Reads-stat_with_conn path = Reads-follow invalid_path max_symlink_depth (normalize_path path)
