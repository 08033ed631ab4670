-- ===== src/ByPath/Removed.antt =====
-- `remove` by path keeps the invariant.
use agentfs.Base.{
  ℕ, ◌%◌, ◌≡◌, ◌≢◌, refl, sym, ◌∙◌, ap, Bool, true, false, some, List, arith, ltb, ◌==◌,
  if◌then◌else◌, Str, Bool-cases, inl, inr,
}
use agentfs.Db.{Inode, Now, dec, set_mtime_ctime}
use agentfs.Db.Dentries.{
  find, remove, find-remove, links-remove, count_children, find_of_count_children,
}
use agentfs.Fs.Cache.{Lru}
use agentfs.Fs.{
  Fs, Exec, is_directory, u32_mod, delete_dentry, root_ino, root_operation, refuse, required,
  not_found, not_empty, query, ◌>>◌, ◌>>=◌,
}
use agentfs.Fs.Remove.{purge}
use agentfs.Fs.Removed.Purge.{kept, inode-purge, dentry-purge, last_ino-purge, last_link}
use agentfs.Fs.Wf.{IsCoherent, Inv, HasRoom}
use agentfs.Fs.Wf.Delete.{delete-IsWf, IsLeft}
use agentfs.ByPath.Reads.{Reads-refuse, Reads-resolve_known, Reads-required, Reads-query}
use agentfs.ByPath.{non_root, resolve_known, resolve_parent, name_of, parent_text, stat_with_conn}
use agentfs.Fs.Resolve.{walk}
use agentfs.Path.{is_empty, split_path, normalize_path, starts_with, slash, pop}
use agentfs.Path.Normal.{IsClean}
use agentfs.ByPath.Parent.{split_path-IsClean, split_path-parent_text, pop-name_of, walk-snoc}
use agentfs.ByPath.Steps.{
  then-Inv, Reads-non_root, non_root-ok, resolve_known-ok, Reads-resolve_parent, resolve_parent-ok,
  refuse-ok, query-ok, Reads-stat_with_conn,
}
use agentfs.ByPath.Remove.{unlink_inode, unlink_parent, remove_at, is_dir}
use agentfs.ByPath.Remove

abbrev unlinked : Inode → Inode
unlinked r = record r { nlink = dec r.nlink }

-- The writes of `remove`.
abbrev after_remove : {lru : Lru} → Now → Bool → ℕ → Str → ℕ → Fs lru → Fs lru
after_remove {lru} now b p n i s = record {
  db = purge i (unlink_parent now b p (unlink_inode i (delete_dentry p n s.db)));
  cache = lru.pop p n s.cache;
}

-- The row of the parent after them.
abbrev parent_row : Now → Bool → Inode → Inode
parent_row now b r = if b then set_mtime_ctime now (record r { nlink = dec r.nlink }) else r

module _ {lru : Lru} (now : Now) (b : Bool) (p : ℕ) (n : Str) (s : Fs lru) (i : ℕ) where
  after_remove-IsCoherent : IsCoherent s → IsCoherent (after_remove now b p n i s)
  after_remove-IsCoherent c q m j h =
      let popped = lru.peek-pop p n q m s.cache in
      let found = find-remove p n s.db.dentry q m in
      let e : (after_remove now b p n i s).db.dentry ≡ remove p n s.db.dentry = ground arith in
      rw e (ground (arith, c q m j))

  module _ (v : Inv s) (room : HasRoom s.db) (found : find p n s.db.dentry ≡ some i)
      (empty : count_children i s.db.dentry ≡ 0) where
    apart : p ≢ i
    apart e = cc (find_of_count_children i n s.db.dentry empty, ap (λ j. find j n s.db.dentry) e)

    unlinked-IsLeft : (r : Inode) → s.db.inode i ≡ some r → IsLeft s.db p n i r (kept (unlinked r))
    unlinked-IsLeft r row =
        let l = rw found at (links-remove i p n s.db.dentry v.wf.unique) in
        let none_inside = λ (m : Str). find_of_count_children i m s.db.dentry empty in
        elim (Bool-cases (is_directory r)) [
          | inl dir ↦
              let c = v.wf.single i r row dir in
              elim (Bool-cases (dec r.nlink % u32_mod == 0)) [
                | inl gone ↦ rw gone (ground arith, none_inside)
                | inr more ↦ rw more (refl, λ file. cc)
              ]
          | inr file ↦
              let (count, last) = last_link s.db p n i r v.wf room found row file in
              elim (Bool-cases (dec r.nlink % u32_mod == 0)) [
                | inl gone ↦ rw gone (ground arith, none_inside)
                | inr more ↦ rw more (refl, λ _. count)
              ]
        ]

    after_remove-Inv : Inv (after_remove now b p n i s)
    after_remove-Inv =
        let (r, row) = v.wf.child p n i found in
        let (rp, at, dir) = v.wf.parent p n i found in
        let ne = apart in
        let t = unlink_parent now b p (unlink_inode i (delete_dentry p n s.db)) in
        let row' : t.inode i ≡ some (unlinked r) = ground arith in
        record {
          wf =
              delete-IsWf s.db (purge i t) p n i rp (parent_row now b rp) r (kept (unlinked r)) v.wf
                found at dir (ground arith) row ne (unlinked-IsLeft r row)
                (last_ino-purge i t ∙ ground arith)
                (λ j. inode-purge i (unlinked r) t j row' ∙ ground arith)
                (dentry-purge i t ∙ ground arith);
          coherent = after_remove-IsCoherent v.coherent;
        }

    pub remove_at-Inv : Inv (remove_at now b p n i s).1
    unfolding remove_at
    remove_at-Inv = after_remove-Inv

module _ {lru : Lru} where
  -- What is found at a path stands in the directory that its parent leads to.
  found_in_parent :
      (cs : List Str) (s : Fs lru) (i p : ℕ)
      → IsClean cs
      → is_empty cs ≡ false
      → walk cs root_ino s.db.dentry ≡ some i
      → walk (split_path (parent_text cs)) root_ino s.db.dentry ≡ some p
      → find p (name_of cs) s.db.dentry ≡ some i
  found_in_parent cs s i p c below h k =
      let k' = rw (split_path-parent_text cs c below) at k in
      let e = ap (λ l. walk l root_ino s.db.dentry) (pop-name_of cs below) in
      sym (walk-snoc (pop cs) (name_of cs) root_ino p s.db.dentry k') ∙ (sym e ∙ h)

  -- The last part of `remove`.
  abbrev in_parent : Now → Bool → List Str → ℕ → Exec lru (Unit {0})
  in_parent now b cs i = do p ← resolve_parent cs; remove_at now b p (name_of cs) i

  -- `remove` of a path that starts with '/' keeps the invariant, whether it succeeds or not, while
  -- there are fewer than 2 ^ 32 entries.
  pub remove-Inv :
      (now : Now) (path : Str) (s : Fs lru)
      → starts_with slash path ≡ true
      → Inv s
      → HasRoom s.db
      → Inv (Remove.remove now path s).1
  unfolding Remove.remove
  remove-Inv now path s absolute v room =
      then-Inv (non_root path) _ s (Reads-non_root path) v λ cs t e₁ q₁ v₁.
        then-Inv (resolve_known (normalize_path path)) _ t
          (Reads-resolve_known (normalize_path path)) v₁
          λ i t₂ e₂ q₂ v₂.
            then-Inv (refuse (i == root_ino) root_operation) _ t₂
              (Reads-refuse (i == root_ino) root_operation) v₂
              λ _ t₃ e₃ q₃ v₃.
                then-Inv (stat_with_conn (normalize_path path)) _ t₃
                  (Reads-stat_with_conn (normalize_path path)) v₃
                  λ found t₄ e₄ q₄ v₄.
                    then-Inv (required not_found found) _ t₄ (Reads-required not_found found) v₄
                      λ stats t₅ e₅ q₅ v₅.
                        then-Inv (query (λ db. count_children i db.dentry))
                          (λ count. do
                            refuse (ltb 0 count) not_empty
                            in_parent now (is_dir stats) cs i)
                          t₅ (Reads-query (λ db. count_children i db.dentry)) v₅
                          λ count t₆ e₆ q₆ v₆.
                            then-Inv (refuse (ltb 0 count) not_empty)
                              (λ _. in_parent now (is_dir stats) cs i) t₆
                              (Reads-refuse (ltb 0 count) not_empty) v₆
                              λ _ t₇ e₇ q₇ v₇.
                                then-Inv (resolve_parent cs)
                                  (λ p. remove_at now (is_dir stats) p (name_of cs) i) t₇
                                  (Reads-resolve_parent cs) v₇
                                  λ p t₈ e₈ q₈ v₈.
                                    let (parts, below) = non_root-ok path s cs e₁ in
                                    let q₅' = q₅ ∙ (q₄ ∙ (q₃ ∙ q₂)) in
                                    let q₇' = q₇ ∙ (q₆ ∙ q₅') in
                                    let q₈' = q₈ ∙ q₇' in
                                    let to =
                                      rw (← parts) at
                                        (resolve_known-ok (normalize_path path) t i v₁ e₂) in
                                    let up = rw q₇' at (resolve_parent-ok cs t₇ p v₇ e₈) in
                                    let found =
                                      found_in_parent cs t i p
                                        (rw parts (split_path-IsClean path absolute)) below to up in
                                    let count_is =
                                      query-ok (λ db. count_children i db.dentry) t₅ count e₆ in
                                    let zero = refuse-ok (ltb 0 count) not_empty t₆ tt e₇ in
                                    let empty : count_children i t₅.db.dentry ≡ 0 =
                                      ground (arith, count_is, zero) in
                                    remove_at-Inv now (is_dir stats) p (name_of cs) t₈ i v₈
                                      (rw (q₈' ∙ q₁) room) (rw q₈' found)
                                      (rw (q₈ ∙ (q₇ ∙ q₆)) empty)
