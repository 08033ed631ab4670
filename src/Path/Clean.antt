-- ===== src/Path/Clean.antt =====
-- Components that are not empty and hold no '/': splitting a joined path gives them back.
use agentfs.Base.{Bool, true, not, ◌&&◌, ◌≡◌, refl, List, [], ◌∷◌, ◌++◌, ◌==◌, Str, same, arith}
use agentfs.Path.{slash, dot, dot_dot, is_empty, split, nonempty, join}

-- No byte is '/'.
unfoldable pub no_slash : Str → Bool
no_slash [] = true
no_slash (x ∷ s) = not (x == slash) && no_slash s

-- Not empty, and no '/' in it.
abbrev pub is_name : Str → Bool
is_name p = not (is_empty p) && no_slash p

unfoldable pub all_names : List Str → Bool
all_names [] = true
all_names (p ∷ ps) = is_name p && all_names ps

-- Neither `.` nor `..`.
abbrev pub is_plain : Str → Bool
is_plain p = not (same p dot) && not (same p dot_dot)

unfoldable pub all_plain : List Str → Bool
all_plain [] = true
all_plain (p ∷ ps) = is_plain p && all_plain ps

split-no_slash : (p : Str) → no_slash p ≡ true → split slash p ≡ p ∷ []
unfolding split no_slash
split-no_slash [] h = refl
split-no_slash (x ∷ p) h = ground (arith, split-no_slash p)

pub split-append :
    (p s : Str) → no_slash p ≡ true → split slash (p ++ (slash ∷ s)) ≡ p ∷ split slash s
unfolding split no_slash
split-append [] s h = ground arith
split-append (x ∷ p) s h = ground (arith, split-append p s)

split-join :
    (p : Str) (ps : List Str)
    → all_names (p ∷ ps) ≡ true
    → split slash (join slash (p ∷ ps)) ≡ p ∷ ps
unfolding join all_names
split-join p [] h = split-no_slash p (ground arith)
split-join p (q ∷ ps) h =
    let e = split-append p (join slash (q ∷ ps)) (ground arith) in
    ground (arith, split-join q ps, e)

nonempty-names : (ps : List Str) → all_names ps ≡ true → nonempty ps ≡ ps
unfolding nonempty all_names
nonempty-names [] h = refl
nonempty-names (p ∷ ps) h = ground (arith, nonempty-names ps)

-- What splitting gives holds no '/'.
unfoldable all_no_slash : List Str → Bool
all_no_slash [] = true
all_no_slash (p ∷ ps) = no_slash p && all_no_slash ps

split-no_slashes : (s : Str) → all_no_slash (split slash s) ≡ true
unfolding split all_no_slash no_slash
split-no_slashes [] = refl
split-no_slashes (x ∷ s) = ground (arith, split-no_slashes s)

nonempty-all_names : (ps : List Str) → all_no_slash ps ≡ true → all_names (nonempty ps) ≡ true
unfolding nonempty all_no_slash all_names
nonempty-all_names [] h = refl
nonempty-all_names (p ∷ ps) h = ground (arith, nonempty-all_names ps)

-- The components of a path are names.
pub components-all_names : (s : Str) → all_names (nonempty (split slash s)) ≡ true
components-all_names s = nonempty-all_names (split slash s) (split-no_slashes s)

-- Joined with a '/' in front and split again.
pub components-join :
    (p : Str) (ps : List Str)
    → all_names (p ∷ ps) ≡ true
    → nonempty (split slash (slash ∷ join slash (p ∷ ps))) ≡ p ∷ ps
unfolding split nonempty
components-join p ps h = ground (arith, split-join p ps h, nonempty-names (p ∷ ps) h)
