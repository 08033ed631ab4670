-- ===== src/Overlay/Whiteouts/Children.antt =====
-- The whiteouts of a directory's children.
use agentfs.Base.{
  ℕ, ◌≡◌, refl, true, ◌||◌, List, [], ◌∷◌, ◌++◌, Str, same, same_iff, arith, Bool-cases, inl, inr,
  ◌∙◌, ap, some, length, drop, Option-cases,
}
use agentfs.Path.{slash, root_path}
use agentfs.Path.Clean.{no_slash}
use agentfs.ByPath.Remove.{has_prefix}
use agentfs.Overlay.{OverlayFs, child_path}
use agentfs.Overlay.Whiteouts.{contains, trim_start, child_of, child_names, get_child_whiteouts}
use agentfs.Overlay.Whiteouts.Table.{contains-insert}

-- The names that are whited out in a directory, whether it is the root or not.
contains-child_names :
    (dir n p : Str) (ws : List Str)
    → contains p ws ≡ true
    → child_of dir p ≡ some n
    → contains n (child_names dir ws) ≡ true
unfolding contains child_names
contains-child_names dir n p [] h e = cc
contains-child_names dir n p (w ∷ ws) h e = elim (Bool-cases (same p w)) [
  | inl here ↦
      let e' : child_of dir w ≡ some n = rw ((same_iff p w).0 here) at e in
      rw (e', child_names)
        (contains-insert n n (child_names dir ws)
          ∙ ap (λ b. b || contains n (child_names dir ws)) ((same_iff n n).1 refl))
  | inr other ↦
      let k = contains-child_names dir n p ws (ground arith) e in
      elim (Option-cases (child_of dir w)) [
        | inl gone ↦ rw (gone, child_names) k
        | inr (m, found) ↦
            rw (found, child_names) (contains-insert m n (child_names dir ws) ∙ (ground (arith, k)))
      ]
]

trim_start-no_slash : (n : Str) → no_slash n ≡ true → trim_start slash n ≡ n
unfolding trim_start no_slash
trim_start-no_slash [] h = refl
trim_start-no_slash (x ∷ n) h = ground arith

has_prefix-append : (p : Str) (c : ℕ) (n : Str) → has_prefix (p ++ (c ∷ [])) (p ++ (c ∷ n)) ≡ true
unfolding has_prefix
has_prefix-append [] c n = ground arith
has_prefix-append (x ∷ p) c n = ground (arith, has_prefix-append p c n)

drop-append : (p : Str) (c : ℕ) (n : Str) → drop (length (p ++ (c ∷ []))) (p ++ (c ∷ n)) ≡ n
drop-append [] c n = refl
drop-append (x ∷ p) c n = drop-append p c n

trim_slash : (n : Str) → no_slash n ≡ true → trim_start slash (slash ∷ n) ≡ n
unfolding trim_start
trim_slash n h = trim_start-no_slash n h

child_of-child_path : (dir n : Str) → no_slash n ≡ true → child_of dir (child_path dir n) ≡ some n
unfolding child_of
child_of-child_path dir n h = elim (Bool-cases (same dir root_path)) [
  | inl root ↦ let e : trim_start slash (slash ∷ n) ≡ n = trim_slash n h in rw (root, e, h) refl
  | inr other ↦ rw (other, has_prefix-append dir slash n, drop-append dir slash n, h) refl
]

-- A name whose path in a directory has a whiteout is one of those that `get_child_whiteouts` gives
-- for the directory.
pub get_child_whiteouts-child_path :
    (dir n : Str) (o : OverlayFs)
    → no_slash n ≡ true
    → contains (child_path dir n) o.whiteouts ≡ true
    → contains n (get_child_whiteouts dir o) ≡ true
unfolding get_child_whiteouts
get_child_whiteouts-child_path dir n o h there =
    contains-child_names dir n (child_path dir n) o.whiteouts there (child_of-child_path dir n h)
