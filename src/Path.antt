-- ===== src/Path.antt =====
-- Paths: `normalize_path` and `split_path` of sdk/rust/src/filesystem/agentfs.rs. `split`,
-- `trim_end_matches`, `filter` and `join` are those of Rust's standard library on the byte '/'.
pub mod Clean
pub mod Normal
use agentfs.Base.{
  ℕ, Bool, true, false, not, ◌&&◌, ◌||◌, List, [], ◌∷◌, ◌++◌, if◌then◌else◌, ◌==◌, Str, same,
}

abbrev pub slash : ℕ
slash = b'/'

abbrev pub dot : Str
dot = b'.' ∷ []

abbrev pub dot_dot : Str
dot_dot = b'.' ∷ b'.' ∷ []

abbrev pub is_empty {ℓ} : {A : Type ℓ} → List A → Bool
is_empty [] = true
is_empty (x ∷ xs) = false

abbrev pub starts_with : ℕ → Str → Bool
starts_with c [] = false
starts_with c (x ∷ s) = x == c

unfoldable pub trim_end : ℕ → Str → Str
trim_end c [] = []
trim_end c (x ∷ s) = let rest = trim_end c s in if (x == c) && is_empty rest then [] else x ∷ rest

-- A byte in front of the first piece.
abbrev pub extend_first : ℕ → List Str → List Str
extend_first x [] = (x ∷ []) ∷ []
extend_first x (p ∷ ps) = (x ∷ p) ∷ ps

unfoldable pub split : ℕ → Str → List Str
split c [] = [] ∷ []
split c (x ∷ s) = let rest = split c s in if x == c then [] ∷ rest else extend_first x rest

-- `filter(|s| !s.is_empty())`
unfoldable pub nonempty : List Str → List Str
nonempty [] = []
nonempty (p ∷ ps) = let rest = nonempty ps in if is_empty p then rest else p ∷ rest

unfoldable pub join : ℕ → List Str → Str
join c [] = []
join c (p ∷ []) = p
join c (p ∷ q ∷ ps) = p ++ (c ∷ join c (q ∷ ps))

-- `Vec::pop`, which does nothing on an empty vector
unfoldable pub pop : List Str → List Str
pop [] = []
pop (p ∷ []) = []
pop (p ∷ q ∷ ps) = p ∷ pop (q ∷ ps)

-- The loop over the components, with the result so far.
abbrev pub step : List Str → Str → List Str
step result p =
    if same p dot then result else if same p dot_dot then pop result else result ++ (p ∷ [])

unfoldable pub resolve_dots : List Str → List Str → List Str
resolve_dots result [] = result
resolve_dots result (p ∷ ps) = resolve_dots (step result p) ps

abbrev pub root_path : Str
root_path = slash ∷ []

abbrev pub absolute : Str → Str
absolute s =
    let result = resolve_dots [] (nonempty (split slash s)) in
    if is_empty result then root_path else slash ∷ join slash result

unfoldable pub normalize_path : Str → Str
normalize_path path =
    let normalized = trim_end slash path in
    if is_empty normalized
    then absolute root_path
    else if starts_with slash normalized
    then absolute normalized
    else slash ∷ normalized

unfoldable pub split_path : Str → List Str
split_path path =
    let normalized = normalize_path path in
    if same normalized root_path then [] else nonempty (split slash normalized)
