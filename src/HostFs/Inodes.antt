-- ===== src/HostFs/Inodes.antt =====
-- The two maps of `HostFS`: what holds of them between operations.
use agentfs.Base.{
  ℕ, ◌+◌, ◌-◌, ◌%◌, ◌≤◌, ◌<◌, ◌≡◌, refl, ◌∙◌, true, false, none, some, arith, ◌==◌, ==_iff,
  Option-cases, Bool-cases, inl, inr, leb,
}
use native.Mathlib.Nat.{mod-eq_of_lt}
use agentfs.HostFs.{
  HostStat, SrcId, same_src, src_id, HostInode, HostFs, root_ino, u64_range, put_inode, new,
  alloc_ino, create_inode, get_or_create_inode, remove_inode, forget,
}

-- The number of a file is that of an inode with this file, and every inode's file has its number; no
-- number from the counter on is in use; the root stays.
pub record Inv (h : HostFs) : Type 0 where
  pub known :
      (k : SrcId) (i : ℕ)
      → h.src_to_ino k ≡ some i
      → (n : HostInode) × (h.inodes i ≡ some n) × (n.src ≡ k)
  pub back : (i : ℕ) (n : HostInode) → h.inodes i ≡ some n → h.src_to_ino n.src ≡ some i
  pub fresh : (i : ℕ) → h.next_ino ≤ i → h.inodes i ≡ none
  pub root : (n : HostInode) × (h.inodes root_ino ≡ some n)

abbrev pub HasNumber : HostFs → Type 0
HasNumber h = h.next_ino + 1 < u64_range

pub same_src_iff : (a b : SrcId) → same_src a b ≡ true → a ≡ b
same_src_iff a b h = ground (arith, ==_iff a.ino b.ino, ==_iff a.dev b.dev)

pub same_src_self : (a : SrcId) → same_src a a ≡ true
same_src_self a = ground arith

pub new-Inv : (fd : ℕ) (stat : HostStat) → Inv (new fd stat)
unfolding new
new-Inv fd stat =
    let n : HostInode = record { fd = fd; src = src_id stat; nlookup = 1 } in
    record {
      known = λ k i e. elim (Bool-cases (same_src (src_id stat) k)) [
        | inl here ↦ (n, ground arith, same_src_iff (src_id stat) k here)
        | inr other ↦ absurd (ground arith)
      ];
      back = λ i m e. ground (arith, same_src_self (src_id stat));
      fresh = λ i le. ground arith;
      root = (n, ground arith);
    }

module _ (h : HostFs) (v : Inv h) where
  -- A number keeps its file.
  same_file-Inv :
      (i : ℕ) (n n' : HostInode)
      → h.inodes i ≡ some n
      → n'.src ≡ n.src
      → Inv (record h { inodes = put_inode i n' h.inodes })
  same_file-Inv i n n' row same = record {
    known = λ k j e.
        let (m, at, src) = v.known k j e in
        elim (Bool-cases (i == j)) [
          | inl here ↦
              let found : some n ≡ some m = ground arith in
              (n', ground arith, same ∙ cc (found, src))
          | inr other ↦ (m, ground arith, src)
        ];
    back = λ j m e. elim (Bool-cases (i == j)) [
      | inl here ↦
          let e' : some n' ≡ some m = ground arith in
          let e'' : n'.src ≡ m.src = cc in rw (← e'') (rw same (ground (arith, v.back i n row)))
      | inr other ↦ v.back j m (ground arith)
    ];
    fresh = λ j le. ground (arith, v.fresh j le);
    root = elim (Bool-cases (i == root_ino)) [
      | inl here ↦ (n', ground arith)
      | inr other ↦ let (m, at) = v.root in (m, ground arith)
    ];
  }

  create_inode-Inv :
      (fd : ℕ) (k : SrcId) → h.src_to_ino k ≡ none → HasNumber h → Inv (create_inode fd k h).1
  unfolding create_inode alloc_ino
  create_inode-Inv fd k unknown more =
      let i = h.next_ino in
      let new_one : HostInode = record { fd = fd; src = k; nlookup = 1 } in
      let free = v.fresh i (omega arith) in
      record {
        known = λ k' j e. elim (Bool-cases (same_src k k')) [
          | inl here ↦ (new_one, ground arith, same_src_iff k k' here)
          | inr other ↦ let (m, at, src) = v.known k' j (ground arith) in (m, ground arith, src)
        ];
        back = λ j m e. elim (Bool-cases (i == j)) [
          | inl here ↦
              let e' : some new_one ≡ some m = ground arith in
              let src : k ≡ m.src = cc in rw (← src) (ground (arith, same_src_self k))
          | inr other ↦
              let old = v.back j m (ground arith) in
              elim (Bool-cases (same_src k m.src)) [
                | inl same ↦ absurd (cc (unknown, same_src_iff k m.src same, old))
                | inr apart ↦ ground arith
              ]
        ];
        fresh = λ j le. ground (arith, v.fresh j, mod-eq_of_lt more);
        root = let (m, at) = v.root in (m, ground (arith, v.fresh root_ino));
      }

  pub get_or_create_inode-Inv :
      (fd : ℕ) (stat : HostStat) → HasNumber h → Inv (get_or_create_inode fd stat h).1
  unfolding get_or_create_inode
  get_or_create_inode-Inv fd stat more = elim (Option-cases (h.src_to_ino (src_id stat))) [
    | inl unknown ↦
        rw (unknown, get_or_create_inode) (create_inode-Inv fd (src_id stat) unknown more)
    | inr (i, known) ↦
        let (n, at, src) = v.known (src_id stat) i known in
        rw (known, get_or_create_inode, at)
          (same_file-Inv i n (record n { nlookup = (n.nlookup + 1) % u64_range }) at refl)
  ]

  -- An inode that is not the root's goes away with the number of its file.
  remove_inode-Inv : (i : ℕ) → (i == root_ino) ≡ false → Inv (remove_inode i h)
  unfolding remove_inode
  remove_inode-Inv i not_root = elim (Option-cases (h.inodes i)) [
    | inl gone ↦ rw (gone, remove_inode) v
    | inr (n, row) ↦
        rw (row, remove_inode)
          (record {
            known = λ k j e. elim (Bool-cases (same_src n.src k)) [
              | inl here ↦ absurd (ground arith)
              | inr other ↦
                  let (m, at, src) = v.known k j (ground arith) in
                  elim (Bool-cases (i == j)) [
                    | inl same ↦
                        let found : some n ≡ some m = ground arith in
                        let e' : n.src ≡ k = cc (found, src) in
                        absurd (ground (arith, same_src_self k, e'))
                    | inr apart ↦ (m, ground arith, src)
                  ]
            ];
            back = λ j m e. elim (Bool-cases (i == j)) [
              | inl here ↦ absurd (ground arith)
              | inr apart ↦
                  let old = v.back j m (ground arith) in
                  elim (Bool-cases (same_src n.src m.src)) [
                    | inl same ↦
                        let e' = same_src_iff n.src m.src same in
                        let one : some i ≡ some j = cc (v.back i n row, old, e') in
                        absurd (ground arith)
                    | inr other ↦ ground arith
                  ]
            ];
            fresh = λ j le. ground (arith, v.fresh j le);
            root = let (m, at) = v.root in (m, ground arith);
          })
  ]

pub forget-Inv : (i n : ℕ) (h : HostFs) → Inv h → Inv (forget i n h)
unfolding forget
forget-Inv i n h v = elim (Bool-cases (i == root_ino)) [
  | inl root ↦ rw root v
  | inr other ↦ elim (Option-cases (h.inodes i)) [
    | inl gone ↦ rw (other, gone) v
    | inr (m, row) ↦
        let m' = record m { nlookup = (m.nlookup + u64_range - n) % u64_range } in
        let h' = record h { inodes = put_inode i m' h.inodes } in
        let v' : Inv h' = same_file-Inv h v i m m' row refl in
        rw (other, row)
          (elim (Bool-cases (leb m.nlookup n)) [
            | inl last ↦ rw last (remove_inode-Inv h' v' i other)
            | inr more ↦ rw more v'
          ])
  ]
]

pub get_or_create_inode_next :
    (fd : ℕ) (stat : HostStat) (h : HostFs)
    → HasNumber h
    → (get_or_create_inode fd stat h).1.next_ino ≤ h.next_ino + 1
unfolding get_or_create_inode create_inode alloc_ino
get_or_create_inode_next fd stat h more = elim (Option-cases (h.src_to_ino (src_id stat))) [
  | inl unknown ↦ rw (unknown, get_or_create_inode) (omega (arith, mod-eq_of_lt more))
  | inr (i, known) ↦ elim (Option-cases (h.inodes i)) [
    | inl gone ↦ rw (known, get_or_create_inode, gone) (omega (arith, mod-eq_of_lt more))
    | inr (n, row) ↦ rw (known, get_or_create_inode, row) (omega arith)
  ]
]
