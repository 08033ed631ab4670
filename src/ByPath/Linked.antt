-- ===== src/ByPath/Linked.antt =====
-- `link` by path keeps the invariant.
use agentfs.Base.{
  ℕ, ◌≡◌, ◌≢◌, refl, sym, ◌∙◌, ap, false, none, some, List, arith, Str, Option-cases, inl, inr,
}
use agentfs.Db.{Inode, inc}
use agentfs.Db.Dentries.{find, find-append}
use agentfs.Fs.Cache.{Lru}
use agentfs.Fs.{
  Fs, Exec, is_directory, ◌>>=◌, ◌>>◌, update_inode, insert_dentry, required, not_found, refuse,
  is_a_directory, query,
}
use agentfs.Fs.Wf.{Inv, IsDirAt, lookup_child-find}
use agentfs.Fs.Wf.Insert.{entry}
use agentfs.Fs.Wf.Link.{link-IsWf}
use agentfs.Path.{normalize_path}
use agentfs.ByPath.{non_root, resolve_known, resolve_parent, name_of}
use agentfs.ByPath.Kept.{parent_walk}
use agentfs.ByPath.Make.{link_at}
use agentfs.ByPath.Make
use agentfs.ByPath.Reads.{Reads-required, Reads-refuse, Reads-resolve_known, Reads-query}
use agentfs.ByPath.Steps.{
  then-Inv, Reads-non_root, non_root-ok, required-ok, Reads-resolve_parent, resolve_parent-ok,
  refuse-ok, query-ok,
}

abbrev after_link : {lru : Lru} → ℕ → ℕ → Str → Fs lru → Fs lru
after_link {lru} i p n s = record {
  db = update_inode i (λ r. record r { nlink = inc r.nlink }) (insert_dentry n p i s.db);
  cache = lru.put p n i s.cache;
}

module _ {lru : Lru} (i p : ℕ) (n : Str) (s : Fs lru) (v : Inv s) (dir : IsDirAt p s.db) (r : Inode)
    (row : s.db.inode i ≡ some r) (file : is_directory r ≡ false) where
  after_link-Inv : find p n s.db.dentry ≡ none → Inv (after_link i p n s)
  after_link-Inv free =
      let at = dir.1 in
      let ne : p ≢ i = λ e.
        let same : some dir.0 ≡ some r = sym dir.1 ∙ (ap s.db.inode e ∙ row) in
        ground (arith, dir.2) in
      record {
        wf =
            link-IsWf s.db (after_link i p n s).db p n i dir.0 dir.0 r
              (record r { nlink = inc r.nlink }) v.wf dir.1 dir.2 dir.2 free row file file refl refl
              (λ j. ground arith) refl;
        coherent = λ q m w h. ground (
          arith,
          lru.peek-put p n i q m w s.cache h,
          find-append p n (entry p n i) s.db.dentry free q m,
          v.coherent q m w,
        );
      }

  link_at_taken : (j : ℕ) → find p n s.db.dentry ≡ some j → (link_at i p n s).1 ≡ s
  unfolding link_at
  link_at_taken j taken = ground (arith, lookup_child-find p n s.db.dentry v.wf.unique)

  link_at_free : find p n s.db.dentry ≡ none → (link_at i p n s).1 ≡ after_link i p n s
  unfolding link_at
  link_at_free free = ground (arith, lookup_child-find p n s.db.dentry v.wf.unique)

  link_at-Inv : Inv (link_at i p n s).1
  link_at-Inv = elim (Option-cases (find p n s.db.dentry)) [
    | inl free ↦ rw (link_at_free free) (after_link-Inv free)
    | inr (j, taken) ↦ rw (link_at_taken j taken) v
  ]

module _ {lru : Lru} where
  abbrev link_known : ℕ → List Str → Exec lru (Unit {0})
  link_known ino cs = do p ← resolve_parent cs; link_at ino p (name_of cs)

  -- `link` by path keeps the invariant, whether it succeeds or not, if what the names before the
  -- last of the new path lead to is a directory.
  pub link_by_path-Inv :
      (from to : Str) (s : Fs lru)
      → Inv s
      → ((p : ℕ) → parent_walk to s ≡ some p → IsDirAt p s.db)
      → Inv (Make.link from to s).1
  unfolding Make.link
  link_by_path-Inv from to s v dir =
      then-Inv (non_root to) _ s (Reads-non_root to) v λ cs t e₁ q₁ v₁.
        then-Inv (resolve_known (normalize_path from)) _ t
          (Reads-resolve_known (normalize_path from)) v₁
          λ i t₂ e₂ q₂ v₂.
            then-Inv (query (λ db. db.inode i))
              (λ o. do
                r ← required not_found o
                refuse (is_directory r) is_a_directory
                link_known i cs)
              t₂ (Reads-query (λ db. db.inode i)) v₂
              λ o t₃ e₃ q₃ v₃.
                then-Inv (required not_found o)
                  (λ r. do refuse (is_directory r) is_a_directory; link_known i cs) t₃
                  (Reads-required not_found o) v₃
                  λ r t₄ e₄ q₄ v₄.
                    then-Inv (refuse (is_directory r) is_a_directory) (λ _. link_known i cs) t₄
                      (Reads-refuse (is_directory r) is_a_directory) v₄
                      λ _ t₅ e₅ q₅ v₅.
                        then-Inv (resolve_parent cs) (λ p. link_at i p (name_of cs)) t₅
                          (Reads-resolve_parent cs) v₅
                          λ p t₆ e₆ q₆ v₆.
                            let (parts, _) = non_root-ok to s cs e₁ in
                            let q₅' = q₅ ∙ (q₄ ∙ (q₃ ∙ (q₂ ∙ q₁))) in
                            let up = rw q₅' at (resolve_parent-ok cs t₅ p v₅ e₆) in
                            let there : parent_walk to s ≡ some p = rw parts at up in
                            let row =
                              sym (query-ok (λ db. db.inode i) t₂ o e₃)
                              ∙ required-ok not_found o t₃ r e₄ in
                            link_at-Inv i p (name_of cs) t₆ v₆ (rw (q₆ ∙ q₅') (dir p there)) r
                              (rw (q₆ ∙ (q₅ ∙ (q₄ ∙ q₃))) row)
                              (refuse-ok (is_directory r) is_a_directory t₄ tt e₅)
