-- ===== src/ByPath/Parent.antt =====
-- The parent's text and the last name of a path, and the walk along both.
use agentfs.Base.{
  ℕ, ◌≡◌, refl, sym, ◌∙◌, ap, true, false, none, some, List, [], ◌∷◌, ◌++◌, arith, Str,
  Option-cases, inl, inr,
}
use agentfs.Db.Dentries.{Dentry, find, append, find-append, key_eq_iff}
use agentfs.Fs.Resolve.{walk, walk_free, walk_found}
use agentfs.Fs.Wf.Insert.{entry}
use agentfs.Path.{slash, is_empty, starts_with, pop, split_path, normalize_path}
use agentfs.Path.Normal.{
  IsClean, IsClean-pop, rendered, split_path-rendered, normalize_path-components, components,
  components-IsClean,
}
use agentfs.ByPath.{parent_text, name_of}

pub pop-name_of : (cs : List Str) → is_empty cs ≡ false → cs ≡ pop cs ++ (name_of cs ∷ [])
unfolding pop
pop-name_of [] h = absurd (cc h)
pop-name_of (c ∷ []) h = refl
pop-name_of (c ∷ d ∷ cs) h = ap (λ l. c ∷ l) (pop-name_of (d ∷ cs) refl)

parent_text-rendered : (cs : List Str) → is_empty cs ≡ false → parent_text cs ≡ rendered (pop cs)
unfolding pop
parent_text-rendered [] h = absurd (cc h)
parent_text-rendered (c ∷ []) h = refl
parent_text-rendered (c ∷ d ∷ cs) h = ground arith

-- The components of a path that starts with '/' are clean.
pub split_path-IsClean :
    (path : Str) → starts_with slash path ≡ true → IsClean (split_path (normalize_path path))
split_path-IsClean path h =
    let c = components-IsClean path in
    rw (normalize_path-components path h, split_path-rendered (components path) c) c

pub split_path-parent_text :
    (cs : List Str) → IsClean cs → is_empty cs ≡ false → split_path (parent_text cs) ≡ pop cs
split_path-parent_text cs c h =
    rw (parent_text-rendered cs h) (split_path-rendered (pop cs) (IsClean-pop cs c))

-- A walk along one name more.
pub walk-snoc :
    (ps : List Str) (n : Str) (current p : ℕ) (t : List Dentry)
    → walk ps current t ≡ some p
    → walk (ps ++ (n ∷ [])) current t ≡ find p n t
unfolding walk
walk-snoc [] n current p t h = ground arith
walk-snoc (c ∷ ps) n current p t h = elim (Option-cases (find current c t)) [
  | inl free ↦ absurd (ground (arith, walk_free c ps current t free))
  | inr (i, found) ↦
      rw (walk_found c (ps ++ (n ∷ [])) current i t found)
        (walk-snoc ps n i p t (sym (walk_found c ps current i t found) ∙ h))
]

-- A new entry changes no walk that led somewhere.
pub walk-append :
    (ps : List Str) (current p q i : ℕ) (n : Str) (t : List Dentry)
    → find q n t ≡ none
    → walk ps current t ≡ some p
    → walk ps current (append (entry q n i) t) ≡ some p
unfolding walk
walk-append [] current p q i n t free h = h
walk-append (c ∷ ps) current p q i n t free h = elim (Option-cases (find current c t)) [
  | inl gone ↦ absurd (ground (arith, walk_free c ps current t gone))
  | inr (j, found) ↦
      let t' = append (entry q n i) t in
      let found' : find current c t' ≡ some j =
        ground (arith, find-append q n (entry q n i) t free current c, key_eq_iff q n current c) in
      rw (walk_found c ps current j t' found')
        (walk-append ps j p q i n t free (sym (walk_found c ps current j t found) ∙ h))
]
