-- ===== src/FdTable/Table.antt =====
-- The invariant of the descriptor table, and that every allocation gives the lowest free descriptor.
use agentfs.Base.{
  ℕ, ◌+◌, ◌-◌, ◌≤◌, ◌<◌, ◌≡◌, refl, sym, true, false, ◌&&◌, Option, none, some, List, [], ◌∷◌,
  if◌then◌else◌, ◌==◌, ltb, leb, arith, Bool-cases, Option-cases, inl, inr,
}
use agentfs.FdTable.{
  FdEntry, FdTable, first_user_fd, i32_max, least, remove_one, is_free, insert, delete, new,
  allocate, deallocate, get,
}
use agentfs.FdTable.Bag.{count, count-least, least-le, count-remove_one}

module _ {Ops : Type 0} where
  pub is_free-insert :
      (fd k : ℕ) (e : FdEntry Ops) (entries : ℕ → Option (FdEntry Ops))
      → is_free (insert fd e entries) k ≡ (if k == fd then false else is_free entries k)
  unfolding is_free
  is_free-insert fd k e entries = elim (Bool-cases (k == fd)) [
    | inl here ↦ rw (is_free, here) refl
    | inr other ↦ rw (is_free, other) refl
  ]

  is_free-delete :
      (fd k : ℕ) (entries : ℕ → Option (FdEntry Ops))
      → is_free (delete fd entries) k ≡ (if k == fd then true else is_free entries k)
  unfolding is_free
  is_free-delete fd k entries = elim (Bool-cases (k == fd)) [
    | inl here ↦ rw (is_free, here) refl
    | inr other ↦ rw (is_free, other) refl
  ]

  is_free-none :
      (fd : ℕ) (entries : ℕ → Option (FdEntry Ops)) → entries fd ≡ none → is_free entries fd ≡ true
  unfolding is_free
  is_free-none fd entries h = ground arith

  is_free-some :
      (fd : ℕ) (e : FdEntry Ops) (entries : ℕ → Option (FdEntry Ops))
      → entries fd ≡ some e
      → is_free entries fd ≡ false
  unfolding is_free
  is_free-some fd e entries h = ground arith

  -- The free descriptors are those from 3 up to the next one that are not in use, each once; what is
  -- in use is below the next one.
  pub record IsTable (t : FdTable Ops) : Type 0 where
    pub counted :
        (fd : ℕ)
        → count fd t.free_fds
          ≡ (if leb first_user_fd fd && (ltb fd t.next_vfd && is_free t.entries fd) then 1 else 0)
    pub used : (fd : ℕ) → t.next_vfd ≤ fd → is_free t.entries fd ≡ true
    pub low : first_user_fd ≤ t.next_vfd
    pub high : t.next_vfd ≤ i32_max

  -- The lowest descriptor from `from` on that is not in use.
  pub record IsLowest (from fd : ℕ) (t : FdTable Ops) : Type 0 where
    pub above : from ≤ fd
    pub free : is_free t.entries fd ≡ true
    pub least_free : (k : ℕ) → from ≤ k → k < fd → is_free t.entries k ≡ false

  pub new-IsTable : IsTable new
  unfolding new count is_free
  new-IsTable = record {
    counted = λ fd. ground arith;
    used = λ fd h. ground arith;
    low = omega arith;
    high = omega arith;
  }

  module _ (entry : FdEntry Ops) (t : FdTable Ops) (v : IsTable t) where
    reuse-IsLowest :
        (x : ℕ) (l : List ℕ) → t.free_fds ≡ x ∷ l → IsLowest first_user_fd (least x l) t
    reuse-IsLowest x l e =
        let fd = least x l in
        let there : 0 < count fd t.free_fds = rw e (count-least x l) in
        let below : (k : ℕ) → 0 < count k t.free_fds → fd ≤ k = λ k h. least-le x l k (rw e at h) in
        record {
          above = ground (arith, v.counted fd);
          free = ground (arith, v.counted fd);
          least_free = λ k le lt. ground (arith, v.counted k, below k, v.counted fd);
        }

    reuse-IsTable :
        (x : ℕ) (l : List ℕ)
        → t.free_fds ≡ x ∷ l
        → IsTable (record t {
          entries = insert (least x l) entry t.entries;
          free_fds = remove_one (least x l) (x ∷ l);
        })
    reuse-IsTable x l e =
        let fd = least x l in
        let there : 0 < count fd t.free_fds = rw e (count-least x l) in
        record {
          counted = λ k.
              let c : count k (remove_one fd (x ∷ l))
                  ≡ count k t.free_fds - (if k == fd then 1 else 0) =
                rw e (count-remove_one k fd (x ∷ l)) in
              rw (is_free-insert fd k entry t.entries) (ground (arith, v.counted k, v.counted fd));
          used = λ k h.
              rw (is_free-insert fd k entry t.entries) (ground (arith, v.used k, v.counted fd));
          low = v.low;
          high = v.high;
        }

    fresh-IsLowest : t.free_fds ≡ [] → IsLowest first_user_fd t.next_vfd t
    unfolding count
    fresh-IsLowest e = record {
      above = v.low;
      free = v.used t.next_vfd (omega arith);
      least_free = λ k le lt. let c = rw e at (v.counted k) in ground arith;
    }

    fresh-IsTable :
        t.next_vfd < i32_max
        → IsTable
            (record t { entries = insert t.next_vfd entry t.entries; next_vfd = t.next_vfd + 1 })
    fresh-IsTable h = record {
      counted = λ k.
          rw (is_free-insert t.next_vfd k entry t.entries) (ground (arith, v.counted k, v.used k));
      used = λ k le. rw (is_free-insert t.next_vfd k entry t.entries) (ground (arith, v.used k));
      low = omega (arith, v.low);
      high = omega arith;
    }

    -- In a table with the invariant whose next descriptor is below `i32::MAX`, `allocate`
    -- does not panic; it gives the lowest descriptor from 3 on that is not in use, enters
    -- it, changes no other entry and keeps the invariant.
    pub allocate-IsLowest :
        t.next_vfd < i32_max
        → (fd : ℕ) × (t' : FdTable Ops) × (allocate entry t ≡ some (fd, t'))
          × IsLowest first_user_fd fd t
          × IsTable t'
          × ((k : ℕ) → get k t' ≡ (if k == fd then some entry else get k t))
    unfolding allocate get
    allocate-IsLowest h = by_heap t.free_fds refl
      where
        by_heap :
            (l : List ℕ)
            → t.free_fds ≡ l
            → (fd : ℕ) × (t' : FdTable Ops) × (allocate entry t ≡ some (fd, t'))
              × IsLowest first_user_fd fd t
              × IsTable t'
              × ((k : ℕ) → get k t' ≡ (if k == fd then some entry else get k t))
        by_heap (x ∷ l) e = (
          least x l,
          record t {
            entries = insert (least x l) entry t.entries;
            free_fds = remove_one (least x l) (x ∷ l);
          },
          rw e refl,
          reuse-IsLowest x l e,
          reuse-IsTable x l e,
          λ k. refl,
        )
        by_heap [] e = (
          t.next_vfd,
          record t { entries = insert t.next_vfd entry t.entries; next_vfd = t.next_vfd + 1 },
          ground arith,
          fresh-IsLowest e,
          fresh-IsTable h,
          λ k. refl,
        )

  deallocate_open :
      (fd : ℕ) (t : FdTable Ops) (e : FdEntry Ops)
      → t.entries fd ≡ some e
      → deallocate fd t ≡ (
        some e,
        record t {
          entries = delete fd t.entries;
          free_fds = if leb first_user_fd fd then fd ∷ t.free_fds else t.free_fds;
        },
      )
  unfolding deallocate
  deallocate_open fd t e h = rw (deallocate, h) refl

  deallocate_closed : (fd : ℕ) (t : FdTable Ops) → t.entries fd ≡ none → deallocate fd t ≡ (none, t)
  unfolding deallocate
  deallocate_closed fd t h = rw (deallocate, h) refl

  deallocated-IsTable :
      (fd : ℕ) (t : FdTable Ops) (e : FdEntry Ops)
      → IsTable t
      → t.entries fd ≡ some e
      → IsTable (record t {
        entries = delete fd t.entries;
        free_fds = if leb first_user_fd fd then fd ∷ t.free_fds else t.free_fds;
      })
  unfolding count
  deallocated-IsTable fd t e v h =
      let busy = is_free-some fd e t.entries h in
      record {
        counted = λ k.
            rw (is_free-delete fd k t.entries)
              (ground (arith, v.counted k, v.counted fd, v.used fd));
        used = λ k le. rw (is_free-delete fd k t.entries) (ground (arith, v.used k));
        low = v.low;
        high = v.high;
      }

  -- In a table with the invariant, `deallocate` gives the entry of the descriptor, closes it
  -- and no other, and keeps the invariant.
  pub deallocate-IsTable :
      (fd : ℕ) (t : FdTable Ops)
      → IsTable t
      → ((deallocate fd t).0 ≡ get fd t)
        × IsTable (deallocate fd t).1
        × ((k : ℕ) → get k (deallocate fd t).1 ≡ (if k == fd then none else get k t))
  unfolding get
  deallocate-IsTable fd t v = elim (Option-cases (t.entries fd)) [
    | inr (e, h) ↦ rw (deallocate_open fd t e h) (sym h, deallocated-IsTable fd t e v h, λ k. refl)
    | inl h ↦ rw (deallocate_closed fd t h) (
      sym h,
      v,
      λ k. elim (Bool-cases (k == fd)) [
        | inl here ↦ let e : k ≡ fd = ground arith in rw (here, e) h
        | inr other ↦ rw other refl
      ],
    )
  ]
