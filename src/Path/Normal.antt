-- ===== src/Path/Normal.antt =====
-- What `normalize_path` and `split_path` give.
use agentfs.Base.{
  ℕ, zero, suc, ◌+◌, ◌-◌, ◌==◌, ◌||◌, ap, true, false, ◌≡◌, refl, sym, ◌∙◌, List, [], ◌∷◌, ◌++◌,
  if◌then◌else◌, Str, same, same_iff, arith, append_assoc, append-nil, Bool-cases, inl, inr,
}
use agentfs.Path.{
  slash, dot, dot_dot, is_empty, starts_with, trim_end, split, nonempty, join, pop, step,
  resolve_dots, root_path, normalize_path, split_path,
}
use agentfs.Path.Clean.{
  no_slash, is_name, all_names, is_plain, all_plain, components-all_names, components-join,
}

-- Both properties of a list of components at once.
abbrev pub IsClean : List Str → Type 0
IsClean ps = (all_names ps ≡ true) × (all_plain ps ≡ true)

pub IsClean-pop : (ps : List Str) → IsClean ps → IsClean (pop ps)
unfolding pop all_names all_plain
IsClean-pop [] h = h
IsClean-pop (p ∷ []) h = (refl, refl)
IsClean-pop (p ∷ q ∷ ps) h =
    let k = IsClean-pop (q ∷ ps) (ground arith, ground arith) in (ground arith, ground arith)

IsClean-push :
    (ps : List Str) (p : Str)
    → IsClean ps
    → is_name p ≡ true
    → is_plain p ≡ true
    → IsClean (ps ++ (p ∷ []))
unfolding all_names all_plain
IsClean-push [] p h n k = (ground arith, ground arith)
IsClean-push (q ∷ ps) p h n k =
    let r = IsClean-push ps p (ground arith, ground arith) n k in (ground arith, ground arith)

-- The loop leaves no `.` and no `..`.
IsClean-resolve_dots :
    (result ps : List Str) → IsClean result → all_names ps ≡ true → IsClean (resolve_dots result ps)
unfolding resolve_dots all_names
IsClean-resolve_dots result [] h n = h
IsClean-resolve_dots result (p ∷ ps) h n =
    IsClean-resolve_dots (step result p) ps (one (ground arith)) (ground arith)
  where
    one : is_name p ≡ true → IsClean (step result p)
    one name = elim (Bool-cases (same p dot)) [
      | inl here ↦ rw here h
      | inr other ↦ rw other (elim (Bool-cases (same p dot_dot)) [
        | inl up ↦ rw up (IsClean-pop result h)
        | inr plain ↦ rw plain (IsClean-push result p h name (ground arith))
      ])
    ]

-- It keeps a list with neither.
resolve_dots-plain :
    (result ps : List Str) → all_plain ps ≡ true → resolve_dots result ps ≡ result ++ ps
unfolding resolve_dots all_plain
resolve_dots-plain result [] h = sym (append-nil result)
resolve_dots-plain result (p ∷ ps) h =
    let e : step result p ≡ result ++ (p ∷ []) = ground arith in
    rw e
      (resolve_dots-plain (result ++ (p ∷ [])) ps (ground arith) ∙ append_assoc result (p ∷ []) ps)

trim_end-no_slash : (p : Str) → no_slash p ≡ true → trim_end slash p ≡ p
unfolding trim_end no_slash
trim_end-no_slash [] h = refl
trim_end-no_slash (x ∷ p) h = ground (arith, trim_end-no_slash p)

trim_end-append :
    (p s : Str) → trim_end slash s ≡ s → is_empty s ≡ false → trim_end slash (p ++ s) ≡ p ++ s
unfolding trim_end
trim_end-append [] s h e = h
trim_end-append (x ∷ p) s h e = let k = trim_end-append p s h e in ground (arith, more p s e)
  where
    more : (p s : Str) → is_empty s ≡ false → is_empty (p ++ s) ≡ false
    more [] s e = e
    more (x ∷ p) s e = refl

-- A joined path has no '/' at its end, and is not empty.
trim_end-join :
    (p : Str) (ps : List Str)
    → all_names (p ∷ ps) ≡ true
    → (trim_end slash (slash ∷ join slash (p ∷ ps)) ≡ slash ∷ join slash (p ∷ ps))
unfolding trim_end join all_names
trim_end-join p [] h = ground (arith, trim_end-no_slash p)
trim_end-join p (q ∷ ps) h =
    let k = trim_end-join q ps (ground arith) in
    let e = trim_end-append p (slash ∷ join slash (q ∷ ps)) k refl in ground (arith, e)

-- The text of a list of components.
abbrev pub rendered : List Str → Str
rendered ps = if is_empty ps then root_path else slash ∷ join slash ps

normalize_path-rendered : (ps : List Str) → IsClean ps → normalize_path (rendered ps) ≡ rendered ps
unfolding normalize_path trim_end resolve_dots nonempty split
normalize_path-rendered [] h = at_root
  where
    at_root : normalize_path root_path ≡ root_path
    at_root = refl
normalize_path-rendered (p ∷ ps) h =
    ground
      (arith, trim_end-join p ps h.0, components-join p ps h.0, resolve_dots-plain [] (p ∷ ps) h.1)

join-nonempty :
    (p : Str) (ps : List Str) → is_name p ≡ true → is_empty (join slash (p ∷ ps)) ≡ false
unfolding join
join-nonempty [] ps h = cc
join-nonempty (x ∷ p) [] h = refl
join-nonempty (x ∷ p) (q ∷ ps) h = refl

pub same-rendered :
    (p : Str) (ps : List Str) → is_name p ≡ true → same (rendered (p ∷ ps)) root_path ≡ false
same-rendered p ps h =
    ground (arith, same_iff (slash ∷ join slash (p ∷ ps)) root_path, join-nonempty p ps h)

pub split_path-rendered : (ps : List Str) → IsClean ps → split_path (rendered ps) ≡ ps
unfolding split_path all_names
split_path-rendered [] h =
    ground (arith, normalize_path-rendered [] h, same_iff root_path root_path)
split_path-rendered (p ∷ ps) h =
    ground (arith, normalize_path-rendered (p ∷ ps) h, same-rendered p ps, components-join p ps h.0)

-- '/' at the end changes no component but the empty ones.
first : List Str → Str
first [] = []
first (p ∷ ps) = p

others : List Str → List Str
others [] = []
others (p ∷ ps) = ps

split-trim_end :
    (s : Str)
    → (first (split slash (trim_end slash s)) ≡ first (split slash s))
      × (nonempty (others (split slash (trim_end slash s))) ≡ nonempty (others (split slash s)))
unfolding split trim_end nonempty first others
split-trim_end [] = (refl, refl)
split-trim_end (x ∷ s) = let k = split-trim_end s in ground arith

same_pieces :
    (a b : List Str)
    → first a ≡ first b
    → nonempty (others a) ≡ nonempty (others b)
    → nonempty a ≡ nonempty b
unfolding nonempty first others
same_pieces [] [] h k = refl
same_pieces [] (q ∷ b) h k = ground arith
same_pieces (p ∷ a) [] h k = ground arith
same_pieces (p ∷ a) (q ∷ b) h k = ground arith

components-trim_end :
    (s : Str) → nonempty (split slash (trim_end slash s)) ≡ nonempty (split slash s)
components-trim_end s =
    let (h, k) = split-trim_end s in
    same_pieces (split slash (trim_end slash s)) (split slash s) h k

-- The components of a path, with `.` and `..` resolved.
abbrev pub components : Str → List Str
components path = resolve_dots [] (nonempty (split slash path))

pub components-IsClean : (path : Str) → IsClean (components path)
unfolding all_names all_plain
components-IsClean path =
    IsClean-resolve_dots [] (nonempty (split slash path)) (refl, refl) (components-all_names path)

starts_with-trim_end :
    (path : Str)
    → starts_with slash path ≡ true
    → is_empty (trim_end slash path) ≡ false
    → starts_with slash (trim_end slash path) ≡ true
unfolding trim_end
starts_with-trim_end [] h e = cc
starts_with-trim_end (x ∷ path) h e = ground arith

components-empty : (path : Str) → is_empty (trim_end slash path) ≡ true → components path ≡ []
unfolding resolve_dots split nonempty
components-empty path h = ground (arith, components-trim_end path)

no_components : resolve_dots [] (nonempty (split slash root_path)) ≡ []
unfolding resolve_dots split nonempty
no_components = refl

pub normalize_path-components :
    (path : Str) → starts_with slash path ≡ true → normalize_path path ≡ rendered (components path)
unfolding normalize_path
normalize_path-components path h = elim (Bool-cases (is_empty (trim_end slash path))) [
  | inl e ↦ ground (arith, components-empty path e, no_components)
  | inr ne ↦ ground (arith, components-trim_end path, starts_with-trim_end path h ne)
]

-- A path that starts with '/' is normalised by one call: another changes nothing.
pub normalize_path-normalize_path :
    (path : Str)
    → starts_with slash path ≡ true
    → normalize_path (normalize_path path) ≡ normalize_path path
normalize_path-normalize_path path h =
    rw (normalize_path-components path h)
      (normalize_path-rendered (components path) (components-IsClean path))

pub split_path-same :
    (a b : Str) → normalize_path a ≡ normalize_path b → split_path a ≡ split_path b
unfolding split_path
split_path-same a b h = rw h refl

split_path-absolute :
    (path : Str) → starts_with slash path ≡ true → split_path path ≡ components path
split_path-absolute path h =
    let c = components-IsClean path in
    let e = normalize_path-components path h ∙ sym (normalize_path-rendered (components path) c) in
    split_path-same path (rendered (components path)) e ∙ split_path-rendered (components path) c

-- Read from the end: how many `..` still wait for a name before them, and the names that no `..`
-- takes away.
unfoldable pub ups : List Str → ℕ
ups [] = 0
ups (p ∷ ps) = if same p dot then ups ps else if same p dot_dot then ups ps + 1 else ups ps - 1

unfoldable pub kept : List Str → List Str
kept [] = []
kept (p ∷ ps) =
    let rest = kept ps in
    if same p dot || same p dot_dot then rest else if ups ps == 0 then p ∷ rest else rest

-- So many taken from the end.
pop_times : ℕ → List Str → List Str
pop_times zero ps = ps
pop_times (suc k) ps = pop_times k (pop ps)

pop-snoc : (ps : List Str) (p : Str) → pop (ps ++ (p ∷ [])) ≡ ps
unfolding pop
pop-snoc [] p = refl
pop-snoc (q ∷ []) p = refl
pop-snoc (q ∷ r ∷ ps) p = ap (◌∷◌ q) (pop-snoc (r ∷ ps) p)

pop_times-nil : (k : ℕ) → pop_times k [] ≡ []
unfolding pop_times pop
pop_times-nil zero = refl
pop_times-nil (suc k) = pop_times-nil k

-- A name goes to the end, and is taken away by the first of the `..` behind it.
pop_times-snoc :
    (k : ℕ) (result rest : List Str) (p : Str)
    → pop_times k (result ++ (p ∷ [])) ++ rest
      ≡ pop_times (k - 1) result ++ (if k == 0 then p ∷ rest else rest)
unfolding pop_times
pop_times-snoc zero result rest p = append_assoc result (p ∷ []) rest
pop_times-snoc (suc k) result rest p =
    let e : suc k - 1 ≡ k = omega arith in
    let more : (suc k == 0) ≡ false = ground arith in
    rw (e, more) (ap (λ t. pop_times k t ++ rest) (pop-snoc result p))

-- The loop from the front takes away what the reading from the end does.
resolve_dots-kept :
    (result ps : List Str) → resolve_dots result ps ≡ pop_times (ups ps) result ++ kept ps
unfolding resolve_dots ups kept pop_times
resolve_dots-kept result [] = sym (append-nil result)
resolve_dots-kept result (p ∷ ps) = elim (Bool-cases (same p dot)) [
  | inl here ↦ rw here (resolve_dots-kept result ps)
  | inr other ↦ rw other (elim (Bool-cases (same p dot_dot)) [
    | inl up ↦
        let e : ups ps + 1 ≡ suc (ups ps) = omega arith in
        rw (up, e) (resolve_dots-kept (pop result) ps)
    | inr plain ↦
        rw plain
          (resolve_dots-kept (result ++ (p ∷ [])) ps ∙ pop_times-snoc (ups ps) result (kept ps) p)
  ])
]

pub components-kept : (path : Str) → components path ≡ kept (nonempty (split slash path))
components-kept path =
    let ps = nonempty (split slash path) in
    resolve_dots-kept [] ps ∙ ap (λ t. t ++ kept ps) (pop_times-nil (ups ps))

-- The components of a path that starts with '/' are those between its slashes, without `.` and `..`
-- and without the names that a `..` takes away: read from the end, each `..` takes away the next name
-- that is left, if there is one. None is empty, holds a '/', or is `.` or `..`.
pub split_path-components :
    (path : Str)
    → starts_with slash path ≡ true
    → (split_path path ≡ kept (nonempty (split slash path)))
      × (all_names (split_path path) ≡ true)
      × (all_plain (split_path path) ≡ true)
split_path-components path h =
    let e = split_path-absolute path h in
    let c = components-IsClean path in (e ∙ components-kept path, rw e c.0, rw e c.1)
