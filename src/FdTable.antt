-- ===== src/FdTable.antt =====
-- The table of virtual file descriptors, sandbox/src/vfs/fdtable.rs. The mutex makes every method
-- one step; `BinaryHeap<Reverse<i32>>` is a bag with removal of the least. A descriptor is not
-- negative. `none` as the outcome of a method is a panic: no descriptor left, or an overflow.
pub mod Bag
pub mod Table
pub mod Place
use agentfs.Base.{
  ℕ, zero, suc, ◌+◌, ◌-◌, ◌^◌, Bool, true, false, not, ◌&&◌, Option, none, some, List, [], ◌∷◌,
  if◌then◌else◌, ◌==◌, ltb, leb, Str, min,
}

abbrev pub first_user_fd : ℕ
first_user_fd = 3

abbrev pub i32_max : ℕ
i32_max = 2 ^ 31 - 1

-- The operations of a virtual file are a parameter, `BoxedFileOps`.
pub data FdEntry (Ops : Type 0) : Type 0 where
  passthrough : ℕ → ℕ → Option Str → FdEntry Ops
  virtual : Ops → ℕ → Option Str → FdEntry Ops

module _ {Ops : Type 0} where
  unfoldable pub kernel_fd : FdEntry Ops → Option ℕ
  kernel_fd (passthrough fd fl p) = some fd
  kernel_fd (virtual ops fl p) = none

  unfoldable pub flags : FdEntry Ops → ℕ
  flags (passthrough fd fl p) = fl
  flags (virtual ops fl p) = fl

  unfoldable pub path : FdEntry Ops → Option Str
  path (passthrough fd fl p) = p
  path (virtual ops fl p) = p

  unfoldable pub file_ops : FdEntry Ops → Option Ops
  file_ops (passthrough fd fl p) = none
  file_ops (virtual ops fl p) = some ops

-- `FdTableInner`
pub record FdTable (Ops : Type 0) : Type 0 where
  pub entries : ℕ → Option (FdEntry Ops)
  pub next_vfd : ℕ
  pub free_fds : List ℕ

-- The least of a heap, and the heap without one of an element.
abbrev pub least : ℕ → List ℕ → ℕ
least x [] = x
least x (y ∷ l) = least (min x y) l

unfoldable pub remove_one : ℕ → List ℕ → List ℕ
remove_one m [] = []
remove_one m (x ∷ l) = let rest = remove_one m l in if x == m then l else x ∷ rest

-- `filter(|fd| fd != vfd)`
unfoldable pub without : ℕ → List ℕ → List ℕ
without v [] = []
without v (x ∷ l) = let rest = without v l in if x == v then rest else x ∷ rest

module _ {Ops : Type 0} where
  unfoldable pub is_free : (ℕ → Option (FdEntry Ops)) → ℕ → Bool
  is_free entries fd = elim (entries fd) [ none ↦ true | some e ↦ false ]

  -- `(from..from + n).find(|fd| !entries.contains_key(fd))`
  unfoldable pub find_free : ℕ → ℕ → (ℕ → Option (FdEntry Ops)) → Option ℕ
  find_free zero fd entries = none
  find_free (suc n) fd entries = elim (entries fd) [
    | none ↦ some fd
    | some e ↦ find_free n (fd + 1) entries
  ]

  -- The loop that frees the `n` descriptors from `fd` on that are skipped.
  unfoldable pub free_gap : ℕ → ℕ → (ℕ → Option (FdEntry Ops)) → List ℕ → List ℕ
  free_gap zero fd entries free = free
  free_gap (suc n) fd entries free =
      free_gap n (fd + 1) entries
        (if leb first_user_fd fd && is_free entries fd then fd ∷ free else free)

  abbrev pub insert : ℕ → FdEntry Ops → (ℕ → Option (FdEntry Ops)) → ℕ → Option (FdEntry Ops)
  insert vfd entry entries fd = if fd == vfd then some entry else entries fd

  abbrev pub delete : ℕ → (ℕ → Option (FdEntry Ops)) → ℕ → Option (FdEntry Ops)
  delete vfd entries fd = if fd == vfd then none else entries fd

  abbrev std : ℕ → FdEntry Ops
  std fd = passthrough fd 0 none

  unfoldable pub new : FdTable Ops
  new = record {
    entries = insert 2 (std 2) (insert 1 (std 1) (insert 0 (std 0) (λ _. none)));
    next_vfd = first_user_fd;
    free_fds = [];
  }

  -- `inner.entries.insert(vfd, entry)` at the end of every allocation.
  abbrev put : FdEntry Ops → ℕ → FdTable Ops → ℕ × FdTable Ops
  put entry vfd t = (vfd, record t { entries = insert vfd entry t.entries })

  unfoldable pub allocate : FdEntry Ops → FdTable Ops → Option (ℕ × FdTable Ops)
  allocate entry t = elim t.free_fds [
    | x ∷ l ↦
        let free_fd = least x l in
        some (put entry free_fd (record t { free_fds = remove_one free_fd (x ∷ l) }))
    | [] ↦
        if t.next_vfd == i32_max
        then elim (find_free (i32_max - first_user_fd) first_user_fd t.entries) [
          | none ↦ none
          | some fd ↦ some (put entry fd t)
        ]
        else some (put entry t.next_vfd (record t { next_vfd = t.next_vfd + 1 }))
  ]

  -- `next_vfd` moves past the descriptor, and those between become free; `next_vfd = vfd + 1` has
  -- to fit.
  unfoldable pub move_next : ℕ → FdTable Ops → Option (FdTable Ops)
  move_next vfd t =
      if leb t.next_vfd vfd
      then if vfd == i32_max
        then none
        else some (record t {
          free_fds = free_gap (vfd - t.next_vfd) t.next_vfd t.entries t.free_fds;
          next_vfd = vfd + 1;
        })
      else some t

  unfoldable pub allocate_min : ℕ → FdEntry Ops → FdTable Ops → Option (ℕ × FdTable Ops)
  allocate_min min_vfd entry t = elim (find_free (i32_max - min_vfd) min_vfd t.entries) [
    | none ↦ none
    | some vfd ↦ elim (move_next vfd t) [
      | none ↦ none
      | some t' ↦ some (put entry vfd (record t' { free_fds = without vfd t'.free_fds }))
    ]
  ]

  -- The old entry of the descriptor, if it had one.
  unfoldable pub allocate_at :
      ℕ → FdEntry Ops → FdTable Ops → Option (Option (FdEntry Ops) × FdTable Ops)
  allocate_at vfd entry t =
      let old = t.entries vfd in
      elim (move_next vfd (record t { free_fds = without vfd t.free_fds })) [
        | none ↦ none
        | some t' ↦ some (old, (put entry vfd t').1)
      ]

  unfoldable pub get : ℕ → FdTable Ops → Option (FdEntry Ops)
  get vfd t = t.entries vfd

  unfoldable pub translate : ℕ → FdTable Ops → Option ℕ
  translate vfd t = elim (t.entries vfd) [ none ↦ none | some e ↦ kernel_fd e ]

  unfoldable pub deallocate : ℕ → FdTable Ops → Option (FdEntry Ops) × FdTable Ops
  deallocate vfd t = elim (t.entries vfd) [
    | none ↦ (none, t)
    | some e ↦ (
      some e,
      record t {
        entries = delete vfd t.entries;
        free_fds = if leb first_user_fd vfd then vfd ∷ t.free_fds else t.free_fds;
      },
    )
  ]

  -- The outer `none` is a panic, the inner one a descriptor that is not open.
  unfoldable pub duplicate : ℕ → FdTable Ops → Option (Option ℕ × FdTable Ops)
  duplicate old_vfd t = elim (t.entries old_vfd) [
    | none ↦ some (none, t)
    | some e ↦ elim (allocate e t) [ none ↦ none | some r ↦ some (some r.0, r.1) ]
  ]

  unfoldable pub duplicate_at : ℕ → ℕ → FdTable Ops → Option (Option (FdEntry Ops) × FdTable Ops)
  duplicate_at old_vfd new_vfd t = elim (t.entries old_vfd) [
    | none ↦ some (none, t)
    | some e ↦ allocate_at new_vfd e t
  ]
