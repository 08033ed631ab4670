-- ===== src/Mounts/Deepest.antt =====
-- The mount table resolves a path to the deepest mount that has it.
use agentfs.Base.{
  ◌≤◌, ◌≡◌, ◌≢◌, Option, none, some, List, [], ◌∷◌, ◌++◌, ltb, Str, arith, Bool-cases, Option-cases,
  inl, inr, ◌⊎◌, refl,
}
use agentfs.Mounts.{MountPoint, depth, translate_path, place, sort_from, add_mount, resolve}

abbrev pub All : (MountPoint → Type 0) → List MountPoint → Type 0
All P [] = Unit
All P (m ∷ ms) = P m × All P ms

-- The deepest first.
abbrev pub IsSorted : List MountPoint → Type 0
IsSorted [] = Unit
IsSorted (m ∷ ms) = All (λ x. depth x ≤ depth m) ms × IsSorted ms

All-imp :
    (P Q : MountPoint → Type 0) (ms : List MountPoint)
    → ((m : MountPoint) → P m → Q m)
    → All P ms
    → All Q ms
All-imp P Q [] f h = tt
All-imp P Q (m ∷ ms) f (h, hs) = (f m h, All-imp P Q ms f hs)

All-place :
    (P : MountPoint → Type 0) (m : MountPoint) (ms : List MountPoint)
    → P m
    → All P ms
    → All P (place m ms)
unfolding place
All-place P m [] h hs = (h, tt)
All-place P m (x ∷ xs) h (hx, hs) = elim (Bool-cases (ltb (depth x) (depth m))) [
  | inl before ↦ rw before (h, (hx, hs))
  | inr after ↦ rw after (hx, All-place P m xs h hs)
]

place-IsSorted : (m : MountPoint) (ms : List MountPoint) → IsSorted ms → IsSorted (place m ms)
unfolding place
place-IsSorted m [] s = (tt, tt)
place-IsSorted m (x ∷ xs) (below, s) = elim (Bool-cases (ltb (depth x) (depth m))) [
  | inl before ↦
      let lt : depth x ≤ depth m = ground arith in
      let all =
        All-imp (λ y. depth y ≤ depth x) (λ y. depth y ≤ depth m) xs (λ y h. omega (arith, h, lt))
          below in
      rw before ((lt, all), (below, s))
  | inr after ↦
      let le : depth m ≤ depth x = ground arith in
      rw after (All-place (λ y. depth y ≤ depth x) m xs le below, place-IsSorted m xs s)
]

sort_from-IsSorted :
    (sorted ms : List MountPoint) → IsSorted sorted → IsSorted (sort_from sorted ms)
unfolding sort_from
sort_from-IsSorted sorted [] s = s
sort_from-IsSorted sorted (m ∷ ms) s =
    sort_from-IsSorted (place m sorted) ms (place-IsSorted m sorted s)

-- Adding a mount leaves the table sorted, the deepest mounts first, whatever it was before.
pub add_mount-IsSorted : (m : MountPoint) (mounts : List MountPoint) → IsSorted (add_mount m mounts)
unfolding add_mount
add_mount-IsSorted m mounts = sort_from-IsSorted [] (mounts ++ (m ∷ [])) tt

-- One of these mounts.
abbrev pub IsAmong : MountPoint → List MountPoint → Type 0
IsAmong m [] = ⊥
IsAmong m (x ∷ xs) = (m ≡ x) ⊎ IsAmong m xs

All-among :
    (P : MountPoint → Type 0) (m : MountPoint) (ms : List MountPoint)
    → IsAmong m ms
    → All P ms
    → P m
All-among P m [] h hs = absurd h
All-among P m (x ∷ xs) (inl e) (h, hs) = rw e h
All-among P m (x ∷ xs) (inr there) (h, hs) = All-among P m xs there hs

All-IsAmong : (ms : List MountPoint) → All (λ x. IsAmong x ms) ms
All-IsAmong [] = tt
All-IsAmong (m ∷ ms) = (
  inl refl,
  All-imp (λ x. IsAmong x ms) (λ x. IsAmong x (m ∷ ms)) ms (λ x there. inr there) (All-IsAmong ms),
)

-- What `resolve` answers: none, if no mount has the path, or one of the mounts that has it and is as
-- deep as any other that has it, with the path as that mount translates it.
abbrev pub IsDeepest : Str → List MountPoint → Option (MountPoint × Str) → Type 0
IsDeepest path ms none = All (λ x. translate_path x path ≡ none) ms
IsDeepest path ms (some (m, translated)) =
    IsAmong m ms
    × (translate_path m path ≡ some translated)
    × All (λ x. translate_path x path ≢ none → depth x ≤ depth m) ms

resolve_has :
    (path : Str) (m : MountPoint) (ms : List MountPoint) (t : Str)
    → translate_path m path ≡ some t
    → resolve path (m ∷ ms) ≡ some (m, t)
unfolding resolve
resolve_has path m ms t h = ground arith

resolve_misses :
    (path : Str) (m : MountPoint) (ms : List MountPoint)
    → translate_path m path ≡ none
    → resolve path (m ∷ ms) ≡ resolve path ms
unfolding resolve
resolve_misses path m ms h = ground arith

IsDeepest-cons :
    (path : Str) (m : MountPoint) (ms : List MountPoint) (r : Option (MountPoint × Str))
    → translate_path m path ≡ none
    → IsDeepest path ms r
    → IsDeepest path (m ∷ ms) r
IsDeepest-cons path m ms none h d = (h, d)
IsDeepest-cons path m ms (some (n, t)) h (there, has, d) =
    (inr there, has, ((λ ne. absurd (ne h)), d))

resolve_sorted :
    (path : Str) (ms : List MountPoint) → IsSorted ms → IsDeepest path ms (resolve path ms)
unfolding resolve
resolve_sorted path [] s = tt
resolve_sorted path (m ∷ ms) (below, s) = elim (Option-cases (translate_path m path)) [
  | inr (t, has) ↦
      let all =
        All-imp (λ x. depth x ≤ depth m) (λ x. translate_path x path ≢ none → depth x ≤ depth m) ms
          (λ x h _. h) below in
      rw (resolve_has path m ms t has) (inl refl, has, ((λ _. omega arith), all))
  | inl misses ↦
      rw (resolve_misses path m ms misses)
        (IsDeepest-cons path m ms (resolve path ms) misses (resolve_sorted path ms s))
]

-- Sorting loses no mount.
All-of_place :
    (P : MountPoint → Type 0) (m : MountPoint) (ms : List MountPoint)
    → All P (place m ms)
    → P m × All P ms
unfolding place
All-of_place P m [] (h, hs) = (h, tt)
All-of_place P m (x ∷ xs) h = elim (Bool-cases (ltb (depth x) (depth m))) [
  | inl before ↦ let (a, b) = rw before at h in (a, b)
  | inr after ↦ let (a, b) = rw after at h in let (c, d) = All-of_place P m xs b in (c, (a, d))
]

All-of_sort_from :
    (P : MountPoint → Type 0) (sorted ms : List MountPoint)
    → All P (sort_from sorted ms)
    → All P sorted × All P ms
unfolding sort_from
All-of_sort_from P sorted [] h = (h, tt)
All-of_sort_from P sorted (m ∷ ms) h =
    let (a, b) = All-of_sort_from P (place m sorted) ms h in
    let (c, d) = All-of_place P m sorted a in (d, (c, b))

All-of_snoc :
    (P : MountPoint → Type 0) (m : MountPoint) (ms : List MountPoint)
    → All P (ms ++ (m ∷ []))
    → All P (m ∷ ms)
All-of_snoc P m [] h = h
All-of_snoc P m (x ∷ xs) (h, hs) = let (a, b) = All-of_snoc P m xs hs in (a, (h, b))

All-add_mount :
    (P : MountPoint → Type 0) (m : MountPoint) (mounts : List MountPoint)
    → All P (add_mount m mounts)
    → All P (m ∷ mounts)
unfolding add_mount
All-add_mount P m mounts h = All-of_snoc P m mounts (All-of_sort_from P [] (mounts ++ (m ∷ [])) h).1

All-sort_from :
    (P : MountPoint → Type 0) (sorted ms : List MountPoint)
    → All P sorted
    → All P ms
    → All P (sort_from sorted ms)
unfolding sort_from
All-sort_from P sorted [] h hs = h
All-sort_from P sorted (m ∷ ms) h (hm, hs) =
    All-sort_from P (place m sorted) ms (All-place P m sorted hm h) hs

All-snoc :
    (P : MountPoint → Type 0) (m : MountPoint) (ms : List MountPoint)
    → P m
    → All P ms
    → All P (ms ++ (m ∷ []))
All-snoc P m [] h hs = (h, tt)
All-snoc P m (x ∷ xs) h (hx, hs) = (hx, All-snoc P m xs h hs)

-- Sorting adds no mount.
IsAmong-add_mount :
    (x m : MountPoint) (mounts : List MountPoint)
    → IsAmong x (add_mount m mounts)
    → IsAmong x (m ∷ mounts)
unfolding add_mount
IsAmong-add_mount x m mounts there =
    let P : MountPoint → Type 0 = λ y. IsAmong y (m ∷ mounts) in
    let (here, rest) = All-IsAmong (m ∷ mounts) in
    All-among P x (sort_from [] (mounts ++ (m ∷ []))) there
      (All-sort_from P [] (mounts ++ (m ∷ [])) tt (All-snoc P m mounts here rest))

IsDeepest-add_mount :
    (path : Str) (m : MountPoint) (mounts : List MountPoint) (r : Option (MountPoint × Str))
    → IsDeepest path (add_mount m mounts) r
    → IsDeepest path (m ∷ mounts) r
IsDeepest-add_mount path m mounts none h =
    All-add_mount (λ x. translate_path x path ≡ none) m mounts h
IsDeepest-add_mount path m mounts (some (n, t)) (there, has, d) = (
  IsAmong-add_mount n m mounts there,
  has,
  All-add_mount (λ x. translate_path x path ≢ none → depth x ≤ depth n) m mounts d,
)

-- After adding a mount to a table, `resolve` answers with one of these mounts that has the path and is as deep as
-- any other of them that has it, and with the path as that mount translates it; and with none
-- only if no mount has the path.
pub resolve-add_mount :
    (path : Str) (m : MountPoint) (mounts : List MountPoint)
    → IsDeepest path (m ∷ mounts) (resolve path (add_mount m mounts))
resolve-add_mount path m mounts =
    IsDeepest-add_mount path m mounts (resolve path (add_mount m mounts))
      (resolve_sorted path (add_mount m mounts) (add_mount-IsSorted m mounts))
