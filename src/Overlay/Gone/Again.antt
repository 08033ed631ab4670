-- ===== src/Overlay/Gone/Again.antt =====
-- What `lookup` does not find it does not find again, and how a chain of actions ends.
use agentfs.Base.{
  ℕ, ◌≡◌, refl, sym, Bool, true, false, Option, none, some, List, [], ◌∷◌, arith, Str, Option-cases,
  inl, inr,
}
use agentfs.Fs.Attr
use agentfs.Fs.Cache.{Lru}
use agentfs.Fs.{Result, ok, err, Stats, not_found}
use agentfs.ByPath.Remove.{is_dir}
use agentfs.ByPath.Steps.{Result-cases}
use agentfs.Overlay.{in_delta, InodeInfo, OverlayFs, same_layer, build_path, get_inode_info}
use agentfs.Overlay.Change.{known}
use agentfs.Overlay.Gone.{
  Asks, Asks-pure, Asks-ask, Asks-view, Asks-if, Asks-bind, FindsNothing, FindsNothing-bind,
  lookup_alike,
}
use agentfs.Overlay.Lookup.{
  Base, Session, Act, ◌>>=◌, ask, view, on_delta, components, walk_delta, resolve_delta_parent,
  lookup_delta, number, ask_base, base_parent, lookup_base, delta_or_base, lookup_visible,
  unless_hidden, lookup,
}
use agentfs.Overlay.Whiteouts.{is_whiteout}

module _ {lru : Lru} where
  Asks-on_delta : (p : ℕ) (name : Str) → Asks {lru = lru} (on_delta (Attr.lookup p name))
  Asks-on_delta p name = record {
    at = λ s t (same, db).
        let (answer, kept) = lookup_alike p name s.delta t.delta db in (answer, (refl, sym kept));
  }

  Asks-walk_delta : (names : List Str) (ino : ℕ) → Asks {lru = lru} (walk_delta names ino)
  unfolding walk_delta
  Asks-walk_delta [] ino = Asks-pure (some ino)
  Asks-walk_delta (name ∷ names) ino =
      Asks-bind (on_delta (Attr.lookup ino name)) _ (Asks-on_delta ino name) λ found.
        elim (Option-cases found) [
          | inl gone ↦ rw gone (Asks-pure none)
          | inr (stats, there) ↦
              rw there
                (Asks-if (is_dir stats) _ _ (Asks-walk_delta names stats.ino) (Asks-pure none))
        ]

  Asks-resolve_delta_parent : (info : InodeInfo) → Asks {lru = lru} (resolve_delta_parent info)
  unfolding resolve_delta_parent
  Asks-resolve_delta_parent info =
      Asks-if (same_layer info.layer in_delta) _ _ (Asks-pure (some info.underlying_ino))
        (Asks-walk_delta (components info.path) 1)

  Asks-lookup_delta : (p : Option ℕ) (name : Str) → Asks {lru = lru} (lookup_delta p name)
  unfolding lookup_delta
  Asks-lookup_delta none name = Asks-pure none
  Asks-lookup_delta (some p) name = Asks-on_delta p name

  -- A number is given only with an answer.
  FindsNothing-number :
      (f : ℕ → OverlayFs → ℕ × OverlayFs) (found : Option Stats)
      → FindsNothing {lru = lru} (number f found)
  unfolding number
  FindsNothing-number f none = record { at = λ s t nothing e. (refl, (refl, refl)) }
  FindsNothing-number f (some stats) = record { at = λ s t nothing e. absurd (ground arith) }

  module _ (base : Base) (info : InodeInfo) (path name : Str) where
    Asks-ask_base : (p : Option ℕ) → Asks {lru = lru} (ask_base base name p)
    Asks-ask_base none = Asks-pure none
    Asks-ask_base (some p) = Asks-ask (base p name)

    FindsNothing-delta_or_base :
        (found : Option Stats) → FindsNothing {lru = lru} (delta_or_base base info path name found)
    unfolding delta_or_base lookup_base
    FindsNothing-delta_or_base none =
        FindsNothing-bind (ask (base_parent base info)) _ (Asks-ask (base_parent base info))
          λ parent.
            FindsNothing-bind (ask_base base name parent) _ (Asks-ask_base parent)
              λ found. FindsNothing-number _ found
    FindsNothing-delta_or_base (some stats) = FindsNothing-number _ (some stats)

    FindsNothing-unless_hidden :
        (hidden : Bool) → FindsNothing {lru = lru} (unless_hidden base info path name hidden)
    unfolding unless_hidden lookup_visible
    FindsNothing-unless_hidden true = record { at = λ s t nothing e. (refl, (refl, refl)) }
    FindsNothing-unless_hidden false =
        FindsNothing-bind (resolve_delta_parent info) _ (Asks-resolve_delta_parent info) λ parent.
          FindsNothing-bind (lookup_delta parent name) _ (Asks-lookup_delta parent name)
            λ found. FindsNothing-delta_or_base found

  -- What is not found is not found again.
  pub FindsNothing-lookup :
      (base : Base) (parent : ℕ) (name : Str) → FindsNothing {lru = lru} (lookup base parent name)
  unfolding lookup
  FindsNothing-lookup base parent name =
      let row : OverlayFs → Result InodeInfo =
        λ o. elim (get_inode_info parent o) [ none ↦ err not_found | some i ↦ ok i ] in
      FindsNothing-bind (view row) _ (Asks-view row) λ info.
        FindsNothing-bind (view (build_path parent name)) _ (Asks-view (build_path parent name))
          λ path.
            let hidden : OverlayFs → Result Bool = λ o. ok (is_whiteout path o) in
            FindsNothing-bind (view hidden) _ (Asks-view hidden)
              λ h. FindsNothing-unless_hidden base info path name h

  -- A success of the action is one of its last part.
  pub record Ends {B : Type 0} (m last : Act lru B) : Type 0 where
    pub at : (s : Session lru) (b : B) → (m s).0 ≡ ok b → (t : Session lru) × (m s ≡ last t)

  pub Ends-self : {B : Type 0} (m : Act lru B) → Ends m m
  Ends-self m = record { at = λ s b h. (s, refl) }

  pub Ends-bind :
      {A B : Type 0} (m : Act lru A) (f : A → Act lru B) (last : Act lru B)
      → ((a : A) → Ends (f a) last)
      → Ends (m >>= f) last
  Ends-bind {B = B} m f last h = record {
    at = λ s b done. elim (Result-cases (m s).0) [
      | inl (a, e) ↦ let (t, same) = (h a).at (m s).1 b (rw e at done) in (t, rw e same)
      | inr (x, e) ↦
          let failed : ◌≡◌ {A = Result B} (err x) (ok b) = rw e at done in absurd (cc failed)
    ];
  }

  pub known-row :
      (ino : ℕ) (info : InodeInfo) (s : Session lru)
      → s.overlay.inode_map ino ≡ some info
      → known ino s ≡ (ok info, s)
  unfolding known
  known-row ino info s row = ground arith
