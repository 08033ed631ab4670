-- ===== src/ByPath/Targets.antt =====
-- Where a symbolic link leads, by the names on the way: the text that `stat` builds for it.
use agentfs.Base.{
  ◌≡◌, refl, ◌∙◌, ap, subst, true, List, [], ◌∷◌, ◌++◌, append_assoc, arith, Str, same, Bool-cases,
  inl, inr, if◌then◌else◌,
}
use agentfs.Path.{slash, starts_with, split, nonempty, join, pop}
use agentfs.Path.Clean.{is_name, all_names, all_plain, split-append, components-join}
use agentfs.Path.Normal.{
  IsClean, IsClean-pop, rendered, same-rendered, kept, components, components-IsClean,
  components-kept, normalize_path-components,
}
use agentfs.ByPath.{without_dots, path_parent, path_join, link_target}

abbrev pub pieces : Str → List Str
pieces path = nonempty (split slash path)

-- From the root if the target starts with '/', and else from the directory of the link.
abbrev pub target_names : List Str → Str → List Str
target_names names target =
    if starts_with slash target then kept (pieces target) else kept (pop names ++ pieces target)

without_dots-plain : (ps : List Str) → all_plain ps ≡ true → without_dots ps ≡ ps
unfolding without_dots all_plain
without_dots-plain [] h = refl
without_dots-plain (p ∷ ps) h = ground (arith, without_dots-plain ps)

pieces-rendered : (ps : List Str) → IsClean ps → pieces (rendered ps) ≡ ps
unfolding split nonempty
pieces-rendered [] h = refl
pieces-rendered (p ∷ ps) h = components-join p ps h.0

path_parent-rendered : (ps : List Str) → IsClean ps → path_parent (rendered ps) ≡ rendered (pop ps)
path_parent-rendered ps h = rw (pieces-rendered ps h, without_dots-plain ps h.1) refl

split-join_append :
    (p : Str) (ps : List Str) (s : Str)
    → all_names (p ∷ ps) ≡ true
    → split slash (join slash (p ∷ ps) ++ (slash ∷ s)) ≡ (p ∷ ps) ++ split slash s
unfolding join all_names
split-join_append p [] s h = split-append p s (ground arith)
split-join_append p (q ∷ ps) s h =
    let rest = split-join_append q ps s (ground arith) in
    let e = split-append p (join slash (q ∷ ps) ++ (slash ∷ s)) (ground arith) in
    ap (split slash) (append_assoc p (slash ∷ join slash (q ∷ ps)) (slash ∷ s))
    ∙ (e ∙ ap (◌∷◌ p) rest)

nonempty-append : (ps qs : List Str) → all_names ps ≡ true → nonempty (ps ++ qs) ≡ ps ++ nonempty qs
unfolding nonempty all_names
nonempty-append [] qs h = refl
nonempty-append (p ∷ ps) qs h = ground (arith, nonempty-append ps qs)

name_first : (p : Str) (ps : List Str) → all_names (p ∷ ps) ≡ true → is_name p ≡ true
unfolding all_names
name_first p ps h = ground arith

pieces-path_join :
    (ps : List Str) (target : Str)
    → IsClean ps
    → (starts_with slash (path_join (rendered ps) target) ≡ true)
      × (pieces (path_join (rendered ps) target) ≡ ps ++ pieces target)
unfolding split nonempty same
pieces-path_join [] target h = (refl, refl)
pieces-path_join (p ∷ ps) target h =
    let name : is_name p ≡ true = name_first p ps h.0 in
    let cut = split-join_append p ps target h.0 in
    rw (same-rendered p ps name)
      (refl, ap nonempty cut ∙ nonempty-append (p ∷ ps) (split slash target) h.0)

-- The path that `stat` goes on with.
pub link_target_lem :
    (names : List Str) (target : Str)
    → IsClean names
    → (link_target (rendered names) target ≡ rendered (target_names names target))
      × IsClean (target_names names target)
unfolding link_target
link_target_lem names target h = elim (Bool-cases (starts_with slash target)) [
  | inl absolute ↦ rw absolute (
    normalize_path-components target absolute ∙ ap rendered (components-kept target),
    subst IsClean (components-kept target) (components-IsClean target),
  )
  | inr relative ↦
      let up = pop names in
      let base = path_parent-rendered names h in
      let joined = path_join (rendered up) target in
      let (absolute, parts) = pieces-path_join up target (IsClean-pop names h) in
      let e : components joined ≡ kept (up ++ pieces target) =
        components-kept joined ∙ ap kept parts in
      rw (relative, base)
        (
          normalize_path-components joined absolute ∙ ap rendered e,
          subst IsClean e (components-IsClean joined),
        )
]
