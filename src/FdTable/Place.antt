-- ===== src/FdTable/Place.antt =====
-- A descriptor taken at a given place, as `dup2` and `fcntl(F_DUPFD)` ask for it.
use agentfs.Base.{
  ℕ, zero, suc, max, ◌+◌, ◌-◌, ◌≤◌, ◌<◌, ◌≡◌, refl, true, false, ◌&&◌, Option, some, List,
  if◌then◌else◌, ◌==◌, ltb, leb, arith, Bool-cases, Option-cases, inl, inr,
}
use agentfs.FdTable.{
  FdEntry, FdTable, first_user_fd, i32_max, without, is_free, find_free, free_gap, insert,
  move_next, allocate_min, allocate_at, get,
}
use agentfs.FdTable.Bag.{count, count-without, count-free_gap, find_free_lem}
use agentfs.FdTable.Table.{IsTable, IsLowest, is_free-insert}

-- How often a descriptor is free once `vfd` is taken.
abbrev taken_count : {Ops : Type 0} → ℕ → FdTable Ops → ℕ → ℕ
taken_count vfd t k =
    if k == vfd
    then 0
    else count k t.free_fds
      + (if leb t.next_vfd k && (ltb k vfd && (leb first_user_fd k && is_free t.entries k))
          then 1
          else 0)

abbrev next_after : {Ops : Type 0} → ℕ → FdTable Ops → ℕ
next_after vfd t = if leb t.next_vfd vfd then vfd + 1 else t.next_vfd

module _ {Ops : Type 0} (entry : FdEntry Ops) (vfd : ℕ) (t : FdTable Ops) (v : IsTable t)
    (fits : vfd < i32_max) where
  placed-IsTable :
      (free : List ℕ)
      → ((k : ℕ) → count k free ≡ taken_count vfd t k)
      → IsTable (record t {
        entries = insert vfd entry t.entries;
        next_vfd = next_after vfd t;
        free_fds = free;
      })
  placed-IsTable free c = record {
    counted =
        λ k. rw (is_free-insert vfd k entry t.entries, c k) (ground (arith, v.counted k, v.used k));
    used = λ k le. rw (is_free-insert vfd k entry t.entries) (ground (arith, v.used k));
    low = ground (arith, v.low);
    high = ground (arith, v.high);
  }

  at_free : List ℕ
  at_free =
      if leb t.next_vfd vfd
      then free_gap (vfd - t.next_vfd) t.next_vfd t.entries (without vfd t.free_fds)
      else without vfd t.free_fds

  count-at_free : (k : ℕ) → count k at_free ≡ taken_count vfd t k
  unfolding at_free
  count-at_free k = ground (
    arith,
    count-free_gap t.entries (vfd - t.next_vfd) t.next_vfd k (without vfd t.free_fds),
    count-without k vfd t.free_fds,
  )

  min_free : List ℕ
  min_free = without vfd (
      if leb t.next_vfd vfd
      then free_gap (vfd - t.next_vfd) t.next_vfd t.entries t.free_fds
      else t.free_fds)

  count-min_free : (k : ℕ) → count k min_free ≡ taken_count vfd t k
  unfolding min_free
  count-min_free k = elim (Bool-cases (leb t.next_vfd vfd)) [
    | inl far ↦
        let gap = free_gap (vfd - t.next_vfd) t.next_vfd t.entries t.free_fds in
        rw far (
          ground (
            arith,
            count-without k vfd gap,
            count-free_gap t.entries (vfd - t.next_vfd) t.next_vfd k t.free_fds,
          ))
    | inr near ↦ rw near (ground (arith, count-without k vfd t.free_fds))
  ]

  allocate_at_state :
      allocate_at vfd entry t
      ≡ some (
        t.entries vfd,
        record t {
          entries = insert vfd entry t.entries;
          next_vfd = next_after vfd t;
          free_fds = at_free;
        },
      )
  unfolding allocate_at move_next at_free
  allocate_at_state =
      let ne : (vfd == i32_max) ≡ false = ground arith in
      elim (Bool-cases (leb t.next_vfd vfd)) [
        | inl far ↦ rw (far, allocate_at, move_next, at_free, ne) refl
        | inr near ↦ rw (near, allocate_at, move_next, at_free) refl
      ]

  -- In a table with the invariant and for a descriptor below `i32::MAX`, `allocate_at` does
  -- not panic; it gives what the descriptor was, enters the new entry there, changes no
  -- other, and keeps the invariant: what it skips becomes free.
  pub allocate_at-IsTable :
      (t' : FdTable Ops) × (allocate_at vfd entry t ≡ some (get vfd t, t'))
      × IsTable t'
      × ((k : ℕ) → get k t' ≡ (if k == vfd then some entry else get k t))
  unfolding get
  allocate_at-IsTable = (
    record t {
      entries = insert vfd entry t.entries;
      next_vfd = next_after vfd t;
      free_fds = at_free;
    },
    allocate_at_state,
    placed-IsTable at_free count-at_free,
    λ k. refl,
  )

  allocate_min_state :
      (min_vfd : ℕ)
      → find_free (i32_max - min_vfd) min_vfd t.entries ≡ some vfd
      → allocate_min min_vfd entry t
        ≡ some (
          vfd,
          record t {
            entries = insert vfd entry t.entries;
            next_vfd = next_after vfd t;
            free_fds = min_free;
          },
        )
  unfolding allocate_min move_next min_free
  allocate_min_state min_vfd h =
      let ne : (vfd == i32_max) ≡ false = ground arith in
      elim (Bool-cases (leb t.next_vfd vfd)) [
        | inl far ↦ rw (allocate_min, h, move_next, far, min_free, ne) refl
        | inr near ↦ rw (allocate_min, h, move_next, near, min_free) refl
      ]

find_free-some :
    {Ops : Type 0} (n fd k : ℕ) (entries : ℕ → Option (FdEntry Ops))
    → fd ≤ k
    → k < fd + n
    → is_free entries k ≡ true
    → (v : ℕ) × (find_free n fd entries ≡ some v)
unfolding find_free is_free
find_free-some zero fd k entries le lt h = absurd (omega arith)
find_free-some (suc n) fd k entries le lt h = elim (Option-cases (entries fd)) [
  | inl free ↦ (fd, ground arith)
  | inr (e, busy) ↦ elim (Bool-cases (fd == k)) [
    | inl here ↦
        let e' : fd ≡ k = ground arith in
        let used : is_free entries fd ≡ false = ground arith in
        let used' : is_free entries k ≡ false = rw e' at used in absurd (ground arith)
    | inr other ↦
        let (v, found) = find_free-some n (fd + 1) k entries (ground arith) (omega arith) h in
        (v, ground (arith, found))
  ]
]

-- In a table with the invariant, and with the minimum and the next descriptor below `i32::MAX`,
-- `allocate_min` does not panic; it gives the lowest descriptor from the minimum on that is not
-- in use, enters it, changes no other entry and keeps the invariant.
pub allocate_min-IsLowest :
    {Ops : Type 0} (entry : FdEntry Ops) (min_vfd : ℕ) (t : FdTable Ops)
    → IsTable t
    → min_vfd < i32_max
    → t.next_vfd < i32_max
    → (fd : ℕ) × (t' : FdTable Ops) × (allocate_min min_vfd entry t ≡ some (fd, t'))
      × IsLowest min_vfd fd t
      × IsTable t'
      × ((k : ℕ) → get k t' ≡ (if k == fd then some entry else get k t))
unfolding get
allocate_min-IsLowest entry min_vfd t v low_min low_next =
    let k = max min_vfd t.next_vfd in
    let (fd, found) =
      find_free-some (i32_max - min_vfd) min_vfd k t.entries (omega arith) (omega arith)
        (v.used k (omega arith)) in
    let (above, below, free, least_free) =
      find_free_lem t.entries (i32_max - min_vfd) min_vfd fd found in
    let fits : fd < i32_max = omega arith in
    (
      fd,
      record t {
        entries = insert fd entry t.entries;
        next_vfd = next_after fd t;
        free_fds = min_free entry fd t v fits;
      },
      allocate_min_state entry fd t v fits min_vfd found,
      record { above = above; free = free; least_free = least_free },
      placed-IsTable entry fd t v fits (min_free entry fd t v fits)
          (count-min_free entry fd t v fits),
      λ k. refl,
    )
