-- ===== src/Overlay/Settled.antt =====
-- What a copy to the delta does to the overlay's maps: the invariant is kept, no number is given out,
-- and every number keeps its path.
pub mod Copy
use agentfs.Base.{
  ℕ, ◌+◌, ◌<◌, ◌≡◌, refl, ◌∙◌, Bool, true, false, Option, none, some, List, [], ◌∷◌, arith, Str,
  if◌then◌else◌, ◌==◌, Option-cases, Bool-cases, inl, inr, ◌++◌, length,
}
use agentfs.Fs.Attr
use agentfs.Fs.Cache.{Lru}
use agentfs.Fs.Create
use agentfs.Fs.{Exec, Result, ok, err, FsError, Stats, not_found, not_a_directory, root_operation}
use agentfs.ByPath.Remove.{is_dir}
use agentfs.ByPath.Steps.{Result-cases}
use agentfs.Overlay.{
  in_base, InodeInfo, OverlayFs, i64_range, same_layer, add_origin_mapping, promote_to_delta,
  promote_info, put_info,
}
use agentfs.Overlay.Budget.{IsWithin, Keeps, unmoved}
use agentfs.Overlay.CopyUp.{
  BaseLayer, Setting, Place, required, update, is_link, make_parent, enter_parent, ensure_dirs,
  ensure_parent_dirs, follow_delta, already_copied, copy_link, copy_dir, copy_file, copy_entry,
  copy_missing, unless_copied, copy_named, copy_up,
}
use agentfs.Overlay.Inodes.{Inv, add_origin_mapping-Inv, promote_to_delta-Inv}
use agentfs.Overlay.Lookup.{Session, Act, ◌>>=◌, pure, ask, view, on_delta, on_overlay}
use agentfs.Overlay.Reach.{remove_whiteout-Inv}
use agentfs.Overlay.Whiteouts.{remove_whiteout, contains}

-- A number that is known stays known, with its path.
abbrev pub KeepsPaths : OverlayFs → OverlayFs → Type 0
KeepsPaths o o' =
    (i : ℕ) (info : InodeInfo)
    → o.inode_map i ≡ some info
    → (info' : InodeInfo) × (o'.inode_map i ≡ some info') × (info'.path ≡ info.path)

pub record IsSettled (o o' : OverlayFs) : Type 0 where
  pub maps : Inv o'
  pub next : o'.next_ino ≡ o.next_ino
  pub paths : KeepsPaths o o'

same-IsSettled :
    (o o' : OverlayFs)
    → Inv o'
    → o'.next_ino ≡ o.next_ino
    → ((i : ℕ) → o'.inode_map i ≡ o.inode_map i)
    → IsSettled o o'
same-IsSettled o o' v n e = record { maps = v; next = n; paths = λ i info h. (info, e i ∙ h, refl) }

pub remove_whiteout-IsSettled :
    (path : Str) (o : OverlayFs) → Inv o → IsSettled o (remove_whiteout path o)
unfolding remove_whiteout
remove_whiteout-IsSettled path o v =
    same-IsSettled o (remove_whiteout path o) (remove_whiteout-Inv o path v) (ground arith)
      (λ i. ground arith)

pub add_origin_mapping-IsSettled :
    (d b : ℕ) (o : OverlayFs) → Inv o → IsSettled o (add_origin_mapping d b o)
unfolding add_origin_mapping
add_origin_mapping-IsSettled d b o v =
    same-IsSettled o (add_origin_mapping d b o) (add_origin_mapping-Inv o v d b) refl (λ i. refl)

-- Promotion changes the layer of one number.
put_info_paths :
    (o : OverlayFs) (i : ℕ) (x x' : InodeInfo) (o' : OverlayFs)
    → o.inode_map i ≡ some x
    → x'.path ≡ x.path
    → ((j : ℕ) → o'.inode_map j ≡ put_info i x' o.inode_map j)
    → KeepsPaths o o'
put_info_paths o i x x' o' row named e j info h = elim (Bool-cases (i == j)) [
  | inl here ↦ (x', ground (arith, e j), ground arith)
  | inr other ↦ (info, ground (arith, e j), refl)
]

pub promote_to_delta-IsSettled :
    (path : Str) (d : ℕ) (o : OverlayFs) → Inv o → IsSettled o (promote_to_delta path d o)
unfolding promote_to_delta
promote_to_delta-IsSettled path d o v =
    let kept = promote_to_delta-Inv o v path d in
    elim (Option-cases (o.path_map path)) [
      | inl unknown ↦ rw (unknown, promote_to_delta) (same-IsSettled o o v refl (λ i. refl))
      | inr (i, known) ↦ elim (Option-cases (o.inode_map i)) [
        | inl gone ↦ rw (known, promote_to_delta, gone) (same-IsSettled o o v refl (λ i. refl))
        | inr (info, row) ↦ elim (Bool-cases (same_layer info.layer in_base)) [
          | inl base ↦
              rw (known, promote_to_delta, row, base)
                (record {
                  maps = rw (known, promote_to_delta, row, base) at kept;
                  next = refl;
                  paths = put_info_paths o i info _ (promote_info i info d o) row refl (λ j. refl);
                })
          | inr delta ↦
              rw (known, promote_to_delta, row, delta) (same-IsSettled o o v refl (λ i. refl))
        ]
      ]
    ]

-- The action settles, whether it succeeds or not.
pub record Settles {lru : Lru} {A : Type 0} (m : Act lru A) : Type 0 where
  pub at : (s : Session lru) → Inv s.overlay → IsSettled s.overlay (m s).1.overlay

module _ {lru : Lru} {A : Type 0} where
  pub Settles-still :
      (m : Act lru A) → ((s : Session lru) → (m s).1.overlay ≡ s.overlay) → Settles m
  Settles-still m h = record {
    at = λ s v. rw (h s) (same-IsSettled s.overlay s.overlay v refl (λ i. refl));
  }

  pub Settles-pure : (a : A) → Settles {lru = lru} (pure a)
  Settles-pure a = Settles-still (pure a) (λ s. refl)

  pub Settles-ask : (r : Result A) → Settles {lru = lru} (ask r)
  Settles-ask r = Settles-still (ask r) (λ s. refl)

  pub Settles-on_delta : (m : Exec lru A) → Settles (on_delta m)
  Settles-on_delta m = Settles-still (on_delta m) (λ s. refl)

  pub Settles-required : (e : FsError) (o : Option A) → Settles {lru = lru} (required e o)
  Settles-required e none = Settles-still (required e none) (λ s. refl)
  Settles-required e (some a) = Settles-still (required e (some a)) (λ s. refl)

  pub Settles-if :
      (b : Bool) (m n : Act lru A) → Settles m → Settles n → Settles (if b then m else n)
  Settles-if true m n h h' = h
  Settles-if false m n h h' = h'

  pub Settles-Keeps : (m : Act lru A) → Settles m → Keeps 0 m
  Settles-Keeps m h = record {
    at = λ s v room. let w = h.at s v in record { maps = w.maps; numbers = omega (arith, w.next) };
  }

IsSettled-trans : (o o' o'' : OverlayFs) → IsSettled o o' → IsSettled o' o'' → IsSettled o o''
IsSettled-trans o o' o'' h k = record {
  maps = k.maps;
  next = k.next ∙ h.next;
  paths = λ i info row.
      let (x, row', e) = h.paths i info row in
      let (x', row'', e') = k.paths i x row' in (x', row'', e' ∙ e);
}

module _ {lru : Lru} {A B : Type 0} where
  pub Settles-bind :
      (m : Act lru A) (f : A → Act lru B)
      → Settles m
      → ((a : A) → Settles (f a))
      → Settles (m >>= f)
  Settles-bind m f h hf = record {
    at = λ s v.
        let w = h.at s v in
        elim (Result-cases (m s).0) [
          | inl (a, e) ↦ rw e (
              IsSettled-trans s.overlay (m s).1.overlay (f a (m s).1).1.overlay w
                ((hf a).at (m s).1 w.maps))
          | inr (x, e) ↦ rw e w
        ];
  }

module _ {lru : Lru} where
  pub Settles-update :
      (f : OverlayFs → OverlayFs)
      → ((o : OverlayFs) → Inv o → IsSettled o (f o))
      → Settles {lru = lru} (update f)
  Settles-update f h = record { at = λ s v. h s.overlay v }
