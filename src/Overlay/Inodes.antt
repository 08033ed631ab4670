-- ===== src/Overlay/Inodes.antt =====
-- The maps of `OverlayFS`: what holds of them between operations.
use agentfs.Base.{
  ℕ, ◌+◌, ◌%◌, ◌≤◌, ◌<◌, ◌≡◌, ◌≢◌, refl, false, Option, none, some, arith, ◌==◌, if◌then◌else◌, Str,
  same, same_iff, Option-cases, Bool-cases, inl, inr, ◌⊎◌,
}
use agentfs.Path.{root_path}
use agentfs.Overlay.{
  Layer, in_delta, in_base, InodeInfo, OverlayFs, root_ino, i64_range, same_layer, new, alloc_ino,
  get_or_create_overlay_ino, refresh_overlay_mapping, promote_to_delta, update_mapping, record_ino,
  add_origin_mapping, promote_info, is_at, put_info, put_reverse, drop_reverse, put_path, drop_path,
}

-- Every number that a map gives is known; a path's number has that path; numbers from the counter on
-- are not in use; the origins in memory are those in the table.
pub record Inv (o : OverlayFs) : Type 0 where
  pub reverse :
      (l : Layer) (u i : ℕ)
      → o.reverse_map l u ≡ some i
      → (info : InodeInfo) × (o.inode_map i ≡ some info)
  pub path :
      (p : Str) (i : ℕ)
      → o.path_map p ≡ some i
      → (info : InodeInfo) × (o.inode_map i ≡ some info) × (info.path ≡ p)
  pub fresh : (i : ℕ) → o.next_ino ≤ i → o.inode_map i ≡ none
  pub origin : (d : ℕ) → o.origin_map d ≡ o.fs_origin d

-- The counter has not come to its last value.
abbrev pub HasNumbers : OverlayFs → Type 0
HasNumbers o = o.next_ino + 1 < i64_range

put_info_self :
    (ino : ℕ) (info : InodeInfo) (m : ℕ → Option InodeInfo) → put_info ino info m ino ≡ some info
put_info_self ino info m = ground arith

put_info_known :
    (ino : ℕ) (info : InodeInfo) (m : ℕ → Option InodeInfo) (i : ℕ)
    → (x : InodeInfo) × (m i ≡ some x)
    → (x : InodeInfo) × (put_info ino info m i ≡ some x)
put_info_known ino info m i (x, h) = elim (Bool-cases (ino == i)) [
  | inl here ↦ (info, ground arith)
  | inr other ↦ (x, ground arith)
]

put_reverse_cases :
    (l : Layer) (u i : ℕ) (m : Layer → ℕ → Option ℕ) (l' : Layer) (u' j : ℕ)
    → put_reverse l u i m l' u' ≡ some j
    → (i ≡ j) ⊎ (m l' u' ≡ some j)
put_reverse_cases l u i m l' u' j h = elim (Bool-cases (same_layer l l')) [
  | inl here ↦ elim (Bool-cases (u == u')) [
    | inl number ↦ inl (ground arith)
    | inr other ↦ inr (ground arith)
  ]
  | inr other ↦ inr (ground arith)
]

drop_reverse_found :
    (l : Layer) (u : ℕ) (m : Layer → ℕ → Option ℕ) (l' : Layer) (u' j : ℕ)
    → drop_reverse l u m l' u' ≡ some j
    → m l' u' ≡ some j
drop_reverse_found l u m l' u' j h = ground arith

put_path_cases :
    (p : Str) (i : ℕ) (m : Str → Option ℕ) (q : Str) (j : ℕ)
    → put_path p i m q ≡ some j
    → ((p ≡ q) × (i ≡ j)) ⊎ (m q ≡ some j)
put_path_cases p i m q j h = elim (Bool-cases (same p q)) [
  | inl here ↦ inl ((same_iff p q).0 here, ground arith)
  | inr other ↦ inr (ground arith)
]

drop_path_found :
    (p : Str) (m : Str → Option ℕ) (q : Str) (j : ℕ)
    → drop_path p m q ≡ some j
    → (same p q ≡ false) × (m q ≡ some j)
drop_path_found p m q j h = (ground arith, ground arith)

-- In a new overlay the invariant holds.
pub new-Inv : Inv new
unfolding new
new-Inv = record {
  reverse = λ l u i h.
      let e : root_ino ≡ i = ground arith in rw (← e) (put_info_known_root root_ino refl);
  path = λ p i h. elim (put_path_cases root_path root_ino (λ p. none) p i h) [
    | inl (e, e') ↦ rw (← e') (root_info, ground arith, e)
    | inr gone ↦ absurd (ground arith)
  ];
  fresh = λ i h. ground arith;
  origin = λ d. refl;
}
  where
    root_info : InodeInfo
    root_info = record { layer = in_delta; underlying_ino = 1; path = root_path }

    put_info_known_root :
        (i : ℕ)
        → root_ino ≡ i
        → (x : InodeInfo) × (put_info root_ino root_info (λ j. none) i ≡ some x)
    put_info_known_root i e = (root_info, ground arith)

module _ (o : OverlayFs) (v : Inv o) where
  -- A new number with what it stands for.
  record_ino-Inv :
      (info : InodeInfo)
      → HasNumbers o
      → Inv (record_ino o.next_ino info (record o { next_ino = (o.next_ino + 1) % i64_range }))
  record_ino-Inv info more = record {
    reverse = λ l u i h.
        elim (put_reverse_cases info.layer info.underlying_ino o.next_ino o.reverse_map l u i h) [
          | inl e ↦ rw (← e) (info, put_info_self o.next_ino info o.inode_map)
          | inr old ↦ put_info_known o.next_ino info o.inode_map i (v.reverse l u i old)
        ];
    path = λ p i h. elim (put_path_cases info.path o.next_ino o.path_map p i h) [
      | inl (e, e') ↦ rw (← e') (info, put_info_self o.next_ino info o.inode_map, e)
      | inr old ↦ let (x, at, named) = v.path p i old in (x, ground (arith, v.fresh i), named)
    ];
    fresh = λ i h. ground (arith, v.fresh i);
    origin = v.origin;
  }

  pub get_or_create_overlay_ino-Inv :
      (l : Layer) (u : ℕ) (path : Str) → HasNumbers o → Inv (get_or_create_overlay_ino l u path o).1
  unfolding get_or_create_overlay_ino alloc_ino
  get_or_create_overlay_ino-Inv l u path more = elim (Option-cases (o.reverse_map l u)) [
    | inl unknown ↦
        rw (unknown, get_or_create_overlay_ino)
          (record_ino-Inv (record { layer = l; underlying_ino = u; path = path }) more)
    | inr (i, known) ↦ rw (known, get_or_create_overlay_ino) v
  ]

  -- The inode's row is written and its path kept; more numbers may be known by the reverse map.
  same_path-Inv :
      (i : ℕ) (info info' : InodeInfo) (m : Layer → ℕ → Option ℕ)
      → o.inode_map i ≡ some info
      → info'.path ≡ info.path
      → ((l : Layer) (u j : ℕ) → m l u ≡ some j → (i ≡ j) ⊎ (o.reverse_map l u ≡ some j))
      → Inv (record o { inode_map = put_info i info' o.inode_map; reverse_map = m })
  same_path-Inv i info info' m row same known = record {
    reverse = λ l u j h. elim (known l u j h) [
      | inl e ↦ rw (← e) (info', put_info_self i info' o.inode_map)
      | inr old ↦ put_info_known i info' o.inode_map j (v.reverse l u j old)
    ];
    path = λ p j h.
        let (x, at, named) = v.path p j h in
        elim (Bool-cases (i == j)) [
          | inl here ↦ (info', ground arith, ground arith)
          | inr other ↦ (x, ground arith, named)
        ];
    fresh = λ j h. ground (arith, v.fresh j);
    origin = v.origin;
  }

  pub update_mapping-Inv :
      (i : ℕ) (info : InodeInfo) (d : ℕ)
      → o.inode_map i ≡ some info
      → Inv (update_mapping i info d o)
  unfolding update_mapping
  update_mapping-Inv i info d row =
      same_path-Inv i info (record { layer = in_delta; underlying_ino = d; path = info.path })
        (put_reverse in_delta d i o.reverse_map) row refl
        (λ l u j h. put_reverse_cases in_delta d i o.reverse_map l u j h)

  promote_info-Inv :
      (i : ℕ) (info : InodeInfo) (d : ℕ) → o.inode_map i ≡ some info → Inv (promote_info i info d o)
  promote_info-Inv i info d row =
      let dropped = drop_reverse in_base info.underlying_ino o.reverse_map in
      same_path-Inv i info (record info { layer = in_delta; underlying_ino = d })
        (put_reverse in_delta d i dropped) row refl
        (λ l u j h. elim (put_reverse_cases in_delta d i dropped l u j h) [
          | inl e ↦ inl e
          | inr old ↦ inr (drop_reverse_found in_base info.underlying_ino o.reverse_map l u j old)
        ])

  pub promote_to_delta-Inv : (path : Str) (d : ℕ) → Inv (promote_to_delta path d o)
  unfolding promote_to_delta
  promote_to_delta-Inv path d = elim (Option-cases (o.path_map path)) [
    | inl unknown ↦ rw (unknown, promote_to_delta) v
    | inr (i, known) ↦ elim (Option-cases (o.inode_map i)) [
      | inl gone ↦ rw (known, promote_to_delta, gone) v
      | inr (info, row) ↦ elim (Bool-cases (same_layer info.layer in_base)) [
        | inl base ↦ rw (known, promote_to_delta, row, base) (promote_info-Inv i info d row)
        | inr delta ↦ rw (known, promote_to_delta, row, delta) v
      ]
    ]
  ]

  module _ (i : ℕ) (info : InodeInfo) (row : o.inode_map i ≡ some info) (path : Str) where
    abbrev left_paths : Str → Option ℕ
    left_paths =
        if is_at (o.path_map info.path) i then drop_path info.path o.path_map else o.path_map

    -- No other path leads to the inode once its old one is gone.
    left_paths_lem : (q : Str) (j : ℕ) → left_paths q ≡ some j → (i ≢ j) × (o.path_map q ≡ some j)
    left_paths_lem q j h = elim (Bool-cases (is_at (o.path_map info.path) i)) [
      | inl mapped ↦
          let (other, found) = drop_path_found info.path o.path_map q j (rw mapped at h) in
          let (x, at, named) = v.path q j found in
          (λ e. ground (arith, same_iff info.path q, e), found)
      | inr not_mapped ↦
          let found = rw not_mapped at h in
          let (x, at, named) = v.path q j found in (λ e. ground (arith, e), found)
    ]

    refreshed-Inv :
        (l : Layer) (u : ℕ)
        → Inv (record o {
          inode_map =
              put_info i (record { layer = l; underlying_ino = u; path = path }) o.inode_map;
          reverse_map = put_reverse l u i o.reverse_map;
          path_map = put_path path i left_paths;
        })
    refreshed-Inv l u =
        let info' : InodeInfo = record { layer = l; underlying_ino = u; path = path } in
        record {
          reverse = λ l' u' j h. elim (put_reverse_cases l u i o.reverse_map l' u' j h) [
            | inl e ↦ rw (← e) (info', put_info_self i info' o.inode_map)
            | inr old ↦ put_info_known i info' o.inode_map j (v.reverse l' u' j old)
          ];
          path = λ p j h. elim (put_path_cases path i left_paths p j h) [
            | inl (e, e') ↦ rw (← e') (info', put_info_self i info' o.inode_map, e)
            | inr old ↦
                let (other, found) = left_paths_lem p j old in
                let (x, at, named) = v.path p j found in (x, ground arith, named)
          ];
          fresh = λ j h. ground (arith, v.fresh j);
          origin = v.origin;
        }

  pub refresh_overlay_mapping-Inv :
      (i : ℕ) (l : Layer) (u : ℕ) (path : Str) → Inv (refresh_overlay_mapping i l u path o)
  unfolding refresh_overlay_mapping
  refresh_overlay_mapping-Inv i l u path = elim (Option-cases (o.inode_map i)) [
    | inl unknown ↦ rw (unknown, refresh_overlay_mapping) v
    | inr (info, row) ↦ rw (row, refresh_overlay_mapping) (refreshed-Inv i info row path l u)
  ]

  pub add_origin_mapping-Inv : (d b : ℕ) → Inv (add_origin_mapping d b o)
  unfolding add_origin_mapping
  add_origin_mapping-Inv d b = record {
    reverse = v.reverse;
    path = v.path;
    fresh = v.fresh;
    origin = λ e. ground (arith, v.origin e);
  }
