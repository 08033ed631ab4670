-- ===== src/Tests/Paths.antt =====
-- Paths.
use agentfs.Base.{◌≡◌, refl, [], ◌∷◌, Str, true, same}
use agentfs.Path.{
  normalize_path, split_path, slash, split, nonempty, resolve_dots, trim_end, join, pop,
}
use agentfs.Path.Clean.{all_names, all_plain}
use agentfs.Path.Normal.{split_path-components, kept}

-- "/a/../b/"
abbrev dotted : Str
dotted = slash ∷ b'a' ∷ slash ∷ b'.' ∷ b'.' ∷ slash ∷ b'b' ∷ slash ∷ []

-- "a/../b"
abbrev relative : Str
relative = b'a' ∷ slash ∷ b'.' ∷ b'.' ∷ slash ∷ b'b' ∷ []

program : Unit {0}
unfolding normalize_path split_path split nonempty resolve_dots trim_end join pop same
program = tt

split_path_run : split_path dotted ≡ (b'b' ∷ []) ∷ []
unfolding program
split_path_run = refl

-- A path that does not start with '/' keeps its `..`.
split_path-relative : split_path relative ≡ (b'a' ∷ []) ∷ (b'.' ∷ b'.' ∷ []) ∷ (b'b' ∷ []) ∷ []
unfolding program
split_path-relative = refl

split_path-components_example :
    (split_path dotted ≡ kept (nonempty (split slash dotted)))
    × (all_names (split_path dotted) ≡ true)
    × (all_plain (split_path dotted) ≡ true)
split_path-components_example = split_path-components dotted refl
