-- ===== src/ByPath/Reads.antt =====
-- Methods that read: they may change the dentry cache, and nothing else.
use agentfs.Base.{
  ℕ, zero, suc, ◌≡◌, refl, ◌∙◌, Bool, true, false, Option, none, some, arith, Str, Option-cases,
  Bool-cases, inl, inr,
}
use agentfs.Db.{Db, Inode}
use agentfs.Fs.Attr
use agentfs.Fs.Cache.{Lru}
use agentfs.Fs.Resolve.{resolve_path, resolve_path-walk}
use agentfs.Fs.{
  Fs, Exec, Result, FsError, Stats, ok, err, not_found, ◌>>=◌, pure, refuse, required, query,
  is_symlink, continue, stats_of,
}
use agentfs.Fs.Wf.{Inv}
use agentfs.Path.{normalize_path}
use agentfs.ByPath.{resolve_known, at_found, lstat, readlink, stat_row, follow, link_target}

module _ {lru : Lru} where
  abbrev pub Reads : {A : Type 0} → Exec lru A → Type 0
  Reads m = (s : Fs lru) → Inv s → ((m s).1.db ≡ s.db) × Inv (m s).1

  pub Reads-bind :
      {A B : Type 0} (m : Exec lru A) (f : A → Exec lru B)
      → Reads m
      → ((a : A) → Reads (f a))
      → Reads (m >>= f)
  Reads-bind {A = A} {B = B} m f h k s v = let (same, v') = h s v in after (m s).0 (m s).1 same v'
    where
      after :
          (r : Result A) (t : Fs lru)
          → t.db ≡ s.db
          → Inv t
          → ((continue f r t).1.db ≡ s.db) × Inv (continue f r t).1
      after (ok a) t e w = let (e', w') = k a t w in (e' ∙ e, w')
      after (err x) t e w = (e, w)

  pub Reads-pure : {A : Type 0} (a : A) → Reads (pure a)
  Reads-pure a s v = (refl, v)

  pub Reads-refuse : (b : Bool) (e : FsError) → Reads (refuse b e)
  Reads-refuse b e s v = (refl, v)

  pub Reads-required : {A : Type 0} (e : FsError) (o : Option A) → Reads (required e o)
  Reads-required e none s v = (refl, v)
  Reads-required e (some a) s v = (refl, v)

  pub Reads-query : {A : Type 0} (f : Db → A) → Reads (query f)
  Reads-query f s v = (refl, v)

  pub Reads-resolve_path : (path : Str) → Reads (resolve_path path)
  Reads-resolve_path path s v = let (_, same, v') = resolve_path-walk path s v in (same, v')

  pub Reads-at_found :
      {A : Type 0} (f : ℕ → Exec lru (Option A)) (o : Option ℕ)
      → ((i : ℕ) → Reads (f i))
      → Reads (at_found f o)
  Reads-at_found {A = A} f none h = Reads-pure {A = Option A} none
  Reads-at_found f (some i) h = h i

  pub Reads-resolve_known : (path : Str) → Reads (resolve_known path)
  unfolding resolve_known
  Reads-resolve_known path =
      Reads-bind (resolve_path path) (required not_found) (Reads-resolve_path path)
        (Reads-required not_found)

  pub Reads-inode_readlink : (i : ℕ) → Reads (Attr.readlink i)
  unfolding Attr.readlink
  Reads-inode_readlink i s v = ground (arith, v)

  pub Reads-readlink : (path : Str) → Reads (readlink path)
  unfolding readlink
  Reads-readlink path =
      Reads-bind (resolve_path (normalize_path path)) (at_found Attr.readlink)
        (Reads-resolve_path (normalize_path path))
        (λ o. Reads-at_found Attr.readlink o Reads-inode_readlink)

  module _ (e : FsError) (again : Str → Exec lru (Option Stats)) (path : Str) (i : ℕ) where
    -- What a round does at a symbolic link.
    unfoldable pub through : Exec lru (Option Stats)
    through = do found ← readlink path; target ← required e found; again (link_target path target)

    Reads-through : ((p : Str) → Reads (again p)) → Reads through
    unfolding through
    Reads-through h =
        Reads-bind (readlink path) (λ found. do t ← required e found; again (link_target path t))
          (Reads-readlink path)
          (λ found.
            Reads-bind (required e found) (λ t. again (link_target path t)) (Reads-required e found)
              (λ t. h (link_target path t)))

    stat_row_gone : (s : Fs lru) → s.db.inode i ≡ none → stat_row e again path i s ≡ (ok none, s)
    unfolding stat_row
    stat_row_gone s h = ground arith

    pub stat_row_link :
        (s : Fs lru) (r : Inode)
        → s.db.inode i ≡ some r
        → is_symlink r ≡ true
        → stat_row e again path i s ≡ through s
    unfolding stat_row through
    stat_row_link s r h k = rw (h, stat_row, k)

    pub stat_row_found :
        (s : Fs lru) (r : Inode)
        → s.db.inode i ≡ some r
        → is_symlink r ≡ false
        → stat_row e again path i s ≡ (ok (some (stats_of i r)), s)
    unfolding stat_row
    stat_row_found s r h k = rw (h, stat_row, k)

    Reads-stat_row : ((p : Str) → Reads (again p)) → Reads (stat_row e again path i)
    Reads-stat_row h s v = elim (Option-cases (s.db.inode i)) [
      | inl gone ↦ rw (stat_row_gone s gone) (refl, v)
      | inr (r, row) ↦ elim (Bool-cases (is_symlink r)) [
        | inl link ↦ rw (stat_row_link s r row link) (Reads-through h s v)
        | inr other ↦ rw (stat_row_found s r row other) (refl, v)
      ]
    ]

  pub Reads-follow : (e : FsError) (rounds : ℕ) (path : Str) → Reads (follow e rounds path)
  unfolding follow
  Reads-follow e zero path = λ s v. (refl, v)
  Reads-follow e (suc rounds) path =
      Reads-bind (resolve_path path) (at_found (stat_row e (follow e rounds) path))
        (Reads-resolve_path path)
        (λ o.
          Reads-at_found (stat_row e (follow e rounds) path) o
            (λ i. Reads-stat_row e (follow e rounds) path i (Reads-follow e rounds)))

  pub Reads-lstat : (path : Str) → Reads (lstat path)
  unfolding lstat
  Reads-lstat path =
      Reads-bind (resolve_path (normalize_path path)) (at_found (λ i. query (Attr.stats_at i)))
        (Reads-resolve_path (normalize_path path))
        (λ o. Reads-at_found (λ i. query (Attr.stats_at i)) o (λ i. Reads-query (Attr.stats_at i)))
