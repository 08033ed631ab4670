-- ===== src/HostFs/Counts.antt =====
-- The counts of lookups: an inode stays until the kernel has forgotten it as often as it was found.
use agentfs.Base.{
  ℕ, zero, suc, ◌+◌, ◌-◌, ◌%◌, ◌≤◌, ◌<◌, ◌≡◌, false, none, some, arith, ◌==◌, Bool-cases, inl, inr,
}
use native.Mathlib.Nat.{mod-eq_of_lt}
use agentfs.HostFs.{
  HostStat, SrcId, same_src, src_id, HostFs, root_ino, u64_range, alloc_ino, create_inode,
  get_or_create_inode, remove_inode, forget,
}
use agentfs.HostFs.Inodes.{Inv, same_src_iff, same_src_self}

-- The file is found `k` times; the descriptors may differ.
unfoldable pub find_again : ℕ → (ℕ → ℕ) → HostStat → HostFs → HostFs
find_again zero fds stat h = h
find_again (suc k) fds stat h = (get_or_create_inode (fds k) stat (find_again k fds stat h)).1

-- What a state holds once a new file was found so many times.
record IsCounted (h h' : HostFs) (i : ℕ) (k : SrcId) (fd count : ℕ) : Type 0 where
  row : h'.inodes i ≡ some (record { fd = fd; src = k; nlookup = count })
  src : h'.src_to_ino k ≡ some i
  others : (j : ℕ) → (i == j) ≡ false → h'.inodes j ≡ h.inodes j
  other_src : (k' : SrcId) → same_src k k' ≡ false → h'.src_to_ino k' ≡ h.src_to_ino k'

module _ (h : HostFs) (v : Inv h) (fds : ℕ → ℕ) (stat : HostStat)
    (unknown : h.src_to_ino (src_id stat) ≡ none) where
  abbrev number : ℕ
  number = h.next_ino

  first : (fd : ℕ) → IsCounted h (get_or_create_inode fd stat h).1 number (src_id stat) fd 1
  unfolding get_or_create_inode create_inode alloc_ino
  first fd =
      rw (unknown, get_or_create_inode)
        (record {
          row = ground arith;
          src = ground (arith, same_src_self (src_id stat));
          others = λ j e. ground arith;
          other_src = λ k e. ground arith;
        })

  once_more :
      (h' : HostFs) (fd fd' c : ℕ)
      → IsCounted h h' number (src_id stat) fd c
      → c + 1 < u64_range
      → IsCounted h (get_or_create_inode fd' stat h').1 number (src_id stat) fd (c + 1)
  unfolding get_or_create_inode
  once_more h' fd fd' c counted room =
      rw (counted.src, get_or_create_inode, counted.row)
        (record {
          row = ground (arith, mod-eq_of_lt room);
          src = counted.src;
          others = λ j ne. ground (arith, counted.others j ne);
          other_src = counted.other_src;
        })

  counted :
      (k : ℕ)
      → k + 1 < u64_range
      → IsCounted h (find_again (suc k) fds stat h) number (src_id stat) (fds 0) (k + 1)
  unfolding find_again
  counted zero room = first (fds 0)
  counted (suc k) room =
      let e : suc k + 1 ≡ k + 1 + 1 = omega arith in
      rw e (
        once_more (find_again (suc k) fds stat h) (fds 0) (fds (suc k)) (k + 1)
          (counted k (omega arith)) (omega arith))

  not_root : (number == root_ino) ≡ false
  not_root =
      let (n, at) = v.root in
      elim (Bool-cases (number == root_ino)) [
        | inl same ↦ absurd (ground (arith, v.fresh root_ino))
        | inr other ↦ other
      ]

  forget_partly :
      (h' : HostFs) (i : ℕ) (src : SrcId) (fd c m : ℕ)
      → IsCounted h h' i src fd c
      → (i == root_ino) ≡ false
      → m < c
      → c < u64_range
      → (forget i m h').inodes i ≡ some (record { fd = fd; src = src; nlookup = c - m })
  unfolding forget
  forget_partly h' i src fd c m counted other few fits =
      let left : (c + u64_range - m) % u64_range ≡ c - m = omega arith in
      rw (other, counted.row, forget) (ground (arith, left))

  forget_wholly :
      (h' : HostFs) (i : ℕ) (src : SrcId) (fd c m : ℕ)
      → IsCounted h h' i src fd c
      → (i == root_ino) ≡ false
      → h.inodes i ≡ none
      → h.src_to_ino src ≡ none
      → c ≤ m
      → ((j : ℕ) → (forget i m h').inodes j ≡ h.inodes j)
        × ((k : SrcId) → (forget i m h').src_to_ino k ≡ h.src_to_ino k)
  unfolding forget remove_inode
  forget_wholly h' i src fd c m counted other free unknown all =
      rw (other, counted.row, forget)
        (
          λ j. elim (Bool-cases (i == j)) [
            | inl here ↦ ground arith
            | inr apart ↦ ground (arith, counted.others j apart)
          ],
          λ k. elim (Bool-cases (same_src src k)) [
            | inl here ↦ let e = same_src_iff src k here in ground (arith, e)
            | inr apart ↦ ground (arith, counted.other_src k apart)
          ],
        )

  -- A file that is not known yet and is found some times, fewer than 2 ^ 64: while it is forgotten
  -- fewer times its number stands for it, with the descriptor of the first time and the difference as
  -- its count; once it is forgotten as often, or more, the maps are what they were before.
  pub forget-find_again :
      (k m : ℕ)
      → k + 1 < u64_range
      → (m < k + 1
          → (forget number m (find_again (suc k) fds stat h)).inodes number
            ≡ some (record { fd = fds 0; src = src_id stat; nlookup = k + 1 - m }))
        × (k + 1 ≤ m
            → ((j : ℕ) → (forget number m (find_again (suc k) fds stat h)).inodes j ≡ h.inodes j)
              × ((src : SrcId)
                  → (forget number m (find_again (suc k) fds stat h)).src_to_ino src
                    ≡ h.src_to_ino src))
  forget-find_again k m room =
      let h' = find_again (suc k) fds stat h in
      let c = counted k room in
      (
        λ few. forget_partly h' number (src_id stat) (fds 0) (k + 1) m c not_root few room,
        λ all.
            forget_wholly h' number (src_id stat) (fds 0) (k + 1) m c not_root
              (v.fresh number (omega arith)) unknown all,
      )
