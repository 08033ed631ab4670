-- ===== src/Overlay/Reach.antt =====
-- Runs of the operations on the state of `OverlayFS`.
use agentfs.Base.{ℕ, ◌≡◌, some, Str, Bool-cases, inl, inr}
use agentfs.Overlay.{
  Layer, InodeInfo, OverlayFs, new, get_or_create_overlay_ino, refresh_overlay_mapping,
  promote_to_delta, update_mapping, add_origin_mapping,
}
use agentfs.Overlay.Inodes.{
  Inv, HasNumbers, new-Inv, get_or_create_overlay_ino-Inv, refresh_overlay_mapping-Inv,
  promote_to_delta-Inv, update_mapping-Inv, add_origin_mapping-Inv,
}
use agentfs.Overlay.Whiteouts.{create_whiteout, remove_whiteout, load_whiteouts, contains}

-- A number is asked for while there are some left; a copy is recorded for an inode that is known.
pub data Step : OverlayFs → OverlayFs → Type 0 where
  by_number :
      (o : OverlayFs) (l : Layer) (u : ℕ) (path : Str)
      → HasNumbers o
      → Step o (get_or_create_overlay_ino l u path o).1
  by_refresh :
      (o : OverlayFs) (i : ℕ) (l : Layer) (u : ℕ) (path : Str)
      → Step o (refresh_overlay_mapping i l u path o)
  by_promotion : (o : OverlayFs) (path : Str) (d : ℕ) → Step o (promote_to_delta path d o)
  by_copy :
      (o : OverlayFs) (i : ℕ) (info : InodeInfo) (d : ℕ)
      → o.inode_map i ≡ some info
      → Step o (update_mapping i info d o)
  by_origin : (o : OverlayFs) (d b : ℕ) → Step o (add_origin_mapping d b o)
  by_whiteout : (o : OverlayFs) (now : ℕ) (path : Str) → Step o (create_whiteout now path o)
  by_removal : (o : OverlayFs) (path : Str) → Step o (remove_whiteout path o)
  by_load : (o : OverlayFs) → Step o (load_whiteouts o)

pub data Reach : OverlayFs → Type 0 where
  start : Reach new
  next : {o o' : OverlayFs} → Reach o → Step o o' → Reach o'

pub remove_whiteout-Inv : (o : OverlayFs) (path : Str) → Inv o → Inv (remove_whiteout path o)
unfolding remove_whiteout
remove_whiteout-Inv o path v = elim (Bool-cases (contains path o.whiteouts)) [
  | inl there ↦
      rw (there, remove_whiteout)
        (record { reverse = v.reverse; path = v.path; fresh = v.fresh; origin = v.origin })
  | inr gone ↦ rw (gone, remove_whiteout) v
]

Step-Inv : {o o' : OverlayFs} → Step o o' → Inv o → Inv o'
unfolding create_whiteout load_whiteouts
Step-Inv (by_number o l u path more) v = get_or_create_overlay_ino-Inv o v l u path more
Step-Inv (by_refresh o i l u path) v = refresh_overlay_mapping-Inv o v i l u path
Step-Inv (by_promotion o path d) v = promote_to_delta-Inv o v path d
Step-Inv (by_copy o i info d row) v = update_mapping-Inv o v i info d row
Step-Inv (by_origin o d b) v = add_origin_mapping-Inv o v d b
Step-Inv (by_whiteout o now path) v = record {
  reverse = v.reverse;
  path = v.path;
  fresh = v.fresh;
  origin = v.origin;
}
Step-Inv (by_removal o path) v = remove_whiteout-Inv o path v
Step-Inv (by_load o) v = record {
  reverse = v.reverse;
  path = v.path;
  fresh = v.fresh;
  origin = v.origin;
}

-- After any number of operations on a new overlay, every inode number that a map gives is known, the
-- number of a path has that path, no number from the counter on is in use, and the origins in memory
-- are those in the table.
pub overlay_Reach-Inv : {o : OverlayFs} → Reach o → Inv o
overlay_Reach-Inv start = new-Inv
overlay_Reach-Inv (next r s) = Step-Inv s (overlay_Reach-Inv r)
