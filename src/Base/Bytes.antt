-- ===== src/Base/Bytes.antt =====
-- Texts as their UTF-8 bytes: `String` and `&str` of the source, compared byte by byte.
use Prim.Native.Nat.{ℕ}
use mathlib.Core.Path.{◌≡◌, refl}
use mathlib.Core.Logic.{◌↔◌}
use mathlib.Core.Bool.{Bool, true, false, ◌&&◌}
use mathlib.Core.List.{List, [], ◌∷◌}
use native.Mathlib.Omega.{arith}
use agentfs.Base.Tests.{◌==◌}

abbrev pub Str : Type 0
Str = List ℕ

abbrev pub Blob : Type 0
Blob = List ℕ

-- `==` on texts
unfoldable pub same : Str → Str → Bool
same [] [] = true
same [] (y ∷ ys) = false
same (x ∷ xs) [] = false
same (x ∷ xs) (y ∷ ys) = (x == y) && same xs ys

same_sound : (s t : Str) → same s t ≡ true → s ≡ t
unfolding same
same_sound [] [] h = refl
same_sound [] (y ∷ t) h = cc
same_sound (x ∷ s) [] h = cc
same_sound (x ∷ s) (y ∷ t) h = ground (arith, same_sound s t)

same_refl : (s : Str) → same s s ≡ true
unfolding same
same_refl [] = refl
same_refl (x ∷ s) = ground (arith, same_refl s)

pub same_iff : (s t : Str) → (same s t ≡ true) ↔ (s ≡ t)
same_iff s t = (same_sound s t, λ e. subst_same e)
  where
    subst_same : s ≡ t → same s t ≡ true
    subst_same e = rw e (same_refl t)
