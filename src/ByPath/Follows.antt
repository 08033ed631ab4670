-- ===== src/ByPath/Follows.antt =====
-- `stat` follows symbolic links: where a chain of links in the tables leads, and how long it is.
use agentfs.Base.{
  ℕ, zero, suc, ◌≤◌, ◌<◌, List, ◌≡◌, refl, sym, ◌∙◌, ap, subst, true, false, some, [], ◌∷◌, arith,
  Str,
}
use agentfs.Db.{Db, Inode}
use agentfs.Fs.Attr
use agentfs.Fs.Cache.{Lru}
use agentfs.Fs.Resolve.{resolve_path, resolve_path-walk, walk}
use agentfs.Fs.{Fs, FsError, ok, err, root_ino, not_found, symlink_loop, is_symlink, stats_of}
use agentfs.Fs.Wf.{Inv}
use agentfs.Path.{slash, starts_with, split, nonempty, normalize_path, split_path}
use agentfs.Path.Normal.{
  normalize_path-normalize_path, split_path-same, rendered, IsClean, kept, components,
  components-kept, components-IsClean, normalize_path-components, split_path-rendered,
}
use agentfs.ByPath.Targets.{target_names, link_target_lem}
use agentfs.ByPath.{readlink, stat_row, follow, stat, link_target, max_symlink_depth}
use agentfs.ByPath.Reads
use agentfs.ByPath.Reads.{Reads-readlink, stat_row_link, stat_row_found}

-- After so many symbolic links the names lead to an inode that is none, by the entries from the root.
pub data Leads (db : Db) : ℕ → List Str → ℕ → Inode → Type 0 where
  here :
      (names : List Str) (i : ℕ) (r : Inode)
      → walk names root_ino db.dentry ≡ some i
      → db.inode i ≡ some r
      → is_symlink r ≡ false
      → Leads db 0 names i r
  through :
      (k : ℕ) (names : List Str) (i : ℕ) (link : Inode) (target : Str) (j : ℕ) (r : Inode)
      → walk names root_ino db.dentry ≡ some i
      → db.inode i ≡ some link
      → is_symlink link ≡ true
      → db.symlink i ≡ some target
      → Leads db k (target_names names target) j r
      → Leads db (suc k) names j r

starts-rendered : (names : List Str) → starts_with slash (rendered names) ≡ true
starts-rendered [] = refl
starts-rendered (p ∷ ps) = refl

walk-rendered :
    (names : List Str) (db : Db) (i : ℕ)
    → IsClean names
    → walk names root_ino db.dentry ≡ some i
    → walk (split_path (rendered names)) root_ino db.dentry ≡ some i
walk-rendered names db i h found = rw (split_path-rendered names h) found

module _ {lru : Lru} where
  readlink_link :
      (u : Fs lru) (i : ℕ) (link : Inode) (target : Str)
      → u.db.inode i ≡ some link
      → is_symlink link ≡ true
      → u.db.symlink i ≡ some target
      → (Attr.readlink i u).0 ≡ ok (some target)
  unfolding Attr.readlink
  readlink_link u i link target h is k = rw (h, Attr.readlink, is, k) refl

  -- The link at a path, which `readlink` normalises again.
  readlink_at :
      (path target : Str) (s : Fs lru) (i : ℕ) (link : Inode)
      → Inv s
      → starts_with slash path ≡ true
      → walk (split_path path) root_ino s.db.dentry ≡ some i
      → s.db.inode i ≡ some link
      → is_symlink link ≡ true
      → s.db.symlink i ≡ some target
      → (readlink path s).0 ≡ ok (some target)
  unfolding readlink
  readlink_at path target s i link v absolute found row is to =
      let (got, same, v') = resolve_path-walk (normalize_path path) s v in
      let parts =
        split_path-same (normalize_path path) path (normalize_path-normalize_path path absolute) in
      let got' : (resolve_path (normalize_path path) s).0 ≡ ok (some i) =
        got ∙ ap ok (ap (λ ps. walk ps root_ino s.db.dentry) parts ∙ found) in
      let u = (resolve_path (normalize_path path) s).1 in
      rw got' (readlink_link u i link target (rw same row) is (rw same to))

  module _ (e : FsError) where
    follow_step :
        (n : ℕ) (path : Str) (s : Fs lru) (i : ℕ)
        → Inv s
        → walk (split_path path) root_ino s.db.dentry ≡ some i
        → follow e (suc n) path s ≡ stat_row e (follow e n) path i (resolve_path path s).1
    unfolding follow
    follow_step n path s i v found =
        let (got, same, v') = resolve_path-walk path s v in
        let got' : (resolve_path path s).0 ≡ ok (some i) = got ∙ ap ok found in rw got' refl

    follow_here :
        (n : ℕ) (path : Str) (s : Fs lru) (i : ℕ) (r : Inode)
        → Inv s
        → walk (split_path path) root_ino s.db.dentry ≡ some i
        → s.db.inode i ≡ some r
        → is_symlink r ≡ false
        → (follow e (suc n) path s).0 ≡ ok (some (stats_of i r))
    follow_here n path s i r v found row is =
        let (got, same, v') = resolve_path-walk path s v in
        let u = (resolve_path path s).1 in
        ap (λ x. x.0)
          (follow_step n path s i v found
            ∙ stat_row_found e (follow e n) path i u r (rw same row) is)

    through_target :
        (n : ℕ) (path target : Str) (i : ℕ) (u : Fs lru)
        → (readlink path u).0 ≡ ok (some target)
        → Reads.through e (follow e n) path i u
          ≡ follow e n (link_target path target) (readlink path u).1
    unfolding Reads.through
    through_target n path target i u read = rw read refl

    follow_through :
        (n : ℕ) (path target : Str) (s : Fs lru) (i : ℕ) (link : Inode)
        → Inv s
        → starts_with slash path ≡ true
        → walk (split_path path) root_ino s.db.dentry ≡ some i
        → s.db.inode i ≡ some link
        → is_symlink link ≡ true
        → s.db.symlink i ≡ some target
        → (u : Fs lru) × (u.db ≡ s.db)
          × Inv u
          × (follow e (suc n) path s ≡ follow e n (link_target path target) u)
    follow_through n path target s i link v absolute found row is to =
        let (got, same, v') = resolve_path-walk path s v in
        let u = (resolve_path path s).1 in
        let read =
          readlink_at path target u i link v' absolute (rw same found) (rw same row) is
            (rw same to) in
        let (same', w) = Reads-readlink path u v' in
        (
          (readlink path u).1,
          same' ∙ same,
          w,
          follow_step n path s i v found
              ∙ (stat_row_link e (follow e n) path i u link (rw same row) is
                  ∙ through_target n path target i u read),
        )

    -- A chain of links shorter than the rounds is followed to its end, and every other is refused.
    follow_lem :
        (n : ℕ) (s : Fs lru) {k : ℕ} {names : List Str} {j : ℕ} {r : Inode}
        → Inv s
        → IsClean names
        → Leads s.db k names j r
        → (k < n → (follow e n (rendered names) s).0 ≡ ok (some (stats_of j r)))
          × (n ≤ k → (follow e n (rendered names) s).0 ≡ err symlink_loop)
    unfolding follow
    follow_lem zero s v clean leads = (λ lt. absurd (omega arith), λ le. refl)
    follow_lem (suc n) s v clean (here names i r found row is) = (
      λ lt. follow_here n (rendered names) s i r v (walk-rendered names s.db i clean found) row is,
      λ le. absurd (omega arith),
    )
    follow_lem (suc n) s v clean (through k names i link target j r found row is to rest) =
        let (u, same, w, step) =
          follow_through n (rendered names) target s i link v (starts-rendered names)
            (walk-rendered names s.db i clean found) row is to in
        let (next, clean') = link_target_lem names target clean in
        let rest' : Leads u.db k (target_names names target) j r =
          subst (λ d. Leads d k (target_names names target) j r) (sym same) rest in
        let (ends, loops) = follow_lem n u w clean' rest' in
        let step' = step ∙ ap (λ p. follow e n p u) next in
        (
          λ lt. ap (λ x. x.0) step' ∙ ends (omega arith),
          λ le. ap (λ x. x.0) step' ∙ loops (omega arith),
        )

  -- With the invariant, a path that starts with '/' and so many symbolic links that lead from its names
  -- to an inode that is none, each from the directory of the link or from the root: `stat` gives the
  -- attributes of that inode if there are fewer than 40 links, whatever the cache holds, and refuses
  -- the path if there are 40 or more.
  pub stat_lem :
      (path : Str) (s : Fs lru) (k j : ℕ) (r : Inode)
      → Inv s
      → starts_with slash path ≡ true
      → Leads s.db k (kept (nonempty (split slash path))) j r
      → (k < max_symlink_depth → (stat path s).0 ≡ ok (some (stats_of j r)))
        × (max_symlink_depth ≤ k → (stat path s).0 ≡ err symlink_loop)
  unfolding stat
  stat_lem path s k j r v absolute leads =
      let e : components path ≡ kept (nonempty (split slash path)) = components-kept path in
      let text = normalize_path-components path absolute ∙ ap rendered e in
      rw text (
        follow_lem not_found max_symlink_depth s v (subst IsClean e (components-IsClean path))
          leads)
