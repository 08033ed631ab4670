-- ===== src/Fs/Resolve.antt =====
-- `resolve_path_with_conn` of sdk/rust/src/filesystem/agentfs.rs: a path to an inode number, through
-- the dentry cache; and the walk over the entries alone that it agrees with.
use agentfs.Base.{
  ℕ, ◌≡◌, refl, sym, ◌∙◌, ap, Option, none, some, List, [], ◌∷◌, arith, Str, Option-cases, inl, inr,
}
use agentfs.Db.Dentries.{Dentry, find}
use agentfs.Fs.Cache.{Lru}
use agentfs.Fs.{Fs, Exec, ok, err, root_ino, lookup_child}
use agentfs.Fs.Wf.{Inv, lookup_child-find, remember-Inv}
use agentfs.Path.{split_path}

-- What follows the query for one component.
module _ {lru : Lru} where
  unfoldable pub resolve_from : List Str → ℕ → Exec lru (Option ℕ)
  resolve_from [] current s = (ok (some current), s)
  resolve_from (c ∷ cs) current s =
      let hit = lru.get current c s.cache in
      let s₁ = record s { cache = hit.1 } in
      elim hit.0 [
        | some cached ↦ resolve_from cs cached s₁
        | none ↦ elim (lookup_child current c s₁.db.dentry) [
          | err e ↦ (err e, s₁)
          | ok found ↦ elim found [
            | none ↦ (ok none, s₁)
            | some child ↦
                resolve_from cs child (record s₁ { cache = lru.put current c child s₁.cache })
          ]
        ]
      ]

  unfoldable pub resolve_path : Str → Exec lru (Option ℕ)
  resolve_path path = resolve_from (split_path path) root_ino

-- From directory to directory, with no cache.
unfoldable pub walk : List Str → ℕ → List Dentry → Option ℕ
walk [] current t = some current
walk (c ∷ cs) current t = elim (find current c t) [ none ↦ none | some child ↦ walk cs child t ]

pub walk_free :
    (c : Str) (cs : List Str) (p : ℕ) (t : List Dentry)
    → find p c t ≡ none
    → walk (c ∷ cs) p t ≡ none
unfolding walk
walk_free c cs p t h = ground arith

pub walk_found :
    (c : Str) (cs : List Str) (p i : ℕ) (t : List Dentry)
    → find p c t ≡ some i
    → walk (c ∷ cs) p t ≡ walk cs i t
unfolding walk
walk_found c cs p i t h = ground arith

module _ {lru : Lru} where
  get-Inv :
      (s : Fs lru) (p : ℕ) (n : Str) → Inv s → Inv (record s { cache = (lru.get p n s.cache).1 })
  get-Inv s p n v = record {
    wf = v.wf;
    coherent = λ q m i h. v.coherent q m i (rw (lru.peek-get p n q m s.cache) at h);
  }

  module _ (c : Str) (cs : List Str) (current : ℕ) (s : Fs lru) where
    abbrev used : Fs lru
    used = record s { cache = (lru.get current c s.cache).1 }

    resolve_hit :
        (i : ℕ)
        → (lru.get current c s.cache).0 ≡ some i
        → resolve_from (c ∷ cs) current s ≡ resolve_from cs i used
    unfolding resolve_from
    resolve_hit i h = ground arith

    resolve_free :
        (lru.get current c s.cache).0 ≡ none
        → lookup_child current c s.db.dentry ≡ ok none
        → resolve_from (c ∷ cs) current s ≡ (ok none, used)
    unfolding resolve_from
    resolve_free h k = ground arith

    resolve_found :
        (i : ℕ)
        → (lru.get current c s.cache).0 ≡ none
        → lookup_child current c s.db.dentry ≡ ok (some i)
        → resolve_from (c ∷ cs) current s
          ≡ resolve_from cs i (record used { cache = lru.put current c i used.cache })
    unfolding resolve_from
    resolve_found i h k = ground arith

  -- The cache may be used or filled on the way; the answer is that of the entries.
  resolve_from-walk :
      (cs : List Str) (current : ℕ) (s : Fs lru)
      → Inv s
      → ((resolve_from cs current s).0 ≡ ok (walk cs current s.db.dentry))
        × ((resolve_from cs current s).1.db ≡ s.db)
        × Inv (resolve_from cs current s).1
  unfolding resolve_from walk
  resolve_from-walk [] current s v = (refl, refl, v)
  resolve_from-walk (c ∷ cs) current s v =
      let s₁ = used c cs current s in
      let v₁ : Inv s₁ = get-Inv s current c v in
      let peeked = lru.get-peek current c s.cache in
      let query = lookup_child-find current c s.db.dentry v.wf.unique in
      elim (Option-cases (lru.get current c s.cache).0) [
        | inr (i, hit) ↦
            let found = v.coherent current c i (sym peeked ∙ hit) in
            rw (resolve_hit c cs current s i hit, walk_found c cs current i s.db.dentry found)
              (resolve_from-walk cs i s₁ v₁)
        | inl miss ↦ elim (Option-cases (find current c s.db.dentry)) [
          | inl free ↦
              rw
                (
                  resolve_free c cs current s miss (query ∙ ap ok free),
                  walk_free c cs current s.db.dentry free,
                )
                (refl, refl, v₁)
          | inr (i, found) ↦
              rw
                (
                  resolve_found c cs current s i miss (query ∙ ap ok found),
                  walk_found c cs current i s.db.dentry found,
                )
                (resolve_from-walk cs i (record s₁ { cache = lru.put current c i s₁.cache })
                  (remember-Inv s₁ current c i v₁ found))
        ]
      ]

  -- With the invariant, `resolve_path` gives what a walk from the root over the entries
  -- gives, whatever the cache holds; it changes no table, and the invariant holds after it.
  pub resolve_path-walk :
      (path : Str) (s : Fs lru)
      → Inv s
      → ((resolve_path path s).0 ≡ ok (walk (split_path path) root_ino s.db.dentry))
        × ((resolve_path path s).1.db ≡ s.db)
        × Inv (resolve_path path s).1
  unfolding resolve_path
  resolve_path-walk path s v = resolve_from-walk (split_path path) root_ino s v
