-- ===== src/FdTable/Bag.antt =====
-- The free descriptors as a bag: how often each occurs.
use agentfs.Base.{
  ℕ, zero, suc, ◌+◌, ◌-◌, ◌≤◌, ◌<◌, ◌≡◌, min, true, false, ◌&&◌, Option, some, List, [], ◌∷◌,
  if◌then◌else◌, ◌==◌, ltb, leb, arith, Bool-cases, Option-cases, inl, inr,
}
use agentfs.FdTable.{
  FdEntry, first_user_fd, least, remove_one, without, is_free, find_free, free_gap,
}

unfoldable pub count : ℕ → List ℕ → ℕ
count k [] = 0
count k (x ∷ l) = (if k == x then 1 else 0) + count k l

pub count-least : (x : ℕ) (l : List ℕ) → 0 < count (least x l) (x ∷ l)
unfolding count
count-least x [] = ground arith
count-least x (y ∷ l) = let k = count-least (min x y) l in ground arith

pub least-le : (x : ℕ) (l : List ℕ) (k : ℕ) → 0 < count k (x ∷ l) → least x l ≤ k
unfolding count
least-le x [] k h = ground arith
least-le x (y ∷ l) k h =
    let r = least-le (min x y) l k in let low = least-le (min x y) l (min x y) in ground arith

pub count-remove_one :
    (k m : ℕ) (l : List ℕ) → count k (remove_one m l) ≡ count k l - (if k == m then 1 else 0)
unfolding count remove_one
count-remove_one k m [] = ground arith
count-remove_one k m (x ∷ l) = ground (arith, count-remove_one k m l)

pub count-without :
    (k v : ℕ) (l : List ℕ) → count k (without v l) ≡ (if k == v then 0 else count k l)
unfolding count without
count-without k v [] = ground arith
count-without k v (x ∷ l) = ground (arith, count-without k v l)

module _ {Ops : Type 0} (entries : ℕ → Option (FdEntry Ops)) where
  pub count-free_gap :
      (n fd k : ℕ) (free : List ℕ)
      → count k (free_gap n fd entries free)
        ≡ count k free
          + (if leb fd k && (ltb k (fd + n) && (leb first_user_fd k && is_free entries k))
              then 1
              else 0)
  unfolding count free_gap
  count-free_gap zero fd k free = ground arith
  count-free_gap (suc n) fd k free =
      let free' = if leb first_user_fd fd && is_free entries fd then fd ∷ free else free in
      let rest = count-free_gap n (fd + 1) k free' in
      elim (Bool-cases (k == fd)) [
        | inl here ↦ let e : fd ≡ k = ground arith in rw e (ground (arith, rw e at rest))
        | inr other ↦ ground arith
      ]

  -- The descriptor found is the lowest free one from `fd` on.
  pub find_free_lem :
      (n fd v : ℕ)
      → find_free n fd entries ≡ some v
      → (fd ≤ v)
        × (v < fd + n)
        × (is_free entries v ≡ true)
        × ((k : ℕ) → fd ≤ k → k < v → is_free entries k ≡ false)
  unfolding find_free is_free
  find_free_lem zero fd v h = cc
  find_free_lem (suc n) fd v h = elim (Option-cases (entries fd)) [
    | inl free ↦
        let e : fd ≡ v = ground (arith, h) in
        (
          omega arith,
          omega arith,
          (let here : is_free entries fd ≡ true = ground arith in rw e at here),
          λ k le lt. absurd (omega arith),
        )
    | inr (x, taken) ↦
        let (low, high, free, before) = find_free_lem n (fd + 1) v (ground (arith, h)) in
        (
          omega arith,
          omega arith,
          free,
          λ k le lt. elim (Bool-cases (k == fd)) [
            | inl here ↦
                let e : fd ≡ k = ground arith in
                let used : is_free entries fd ≡ false = ground arith in rw e at used
            | inr other ↦ before k (ground arith) lt
          ],
        )
  ]
