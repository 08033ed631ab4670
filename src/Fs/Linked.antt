-- ===== src/Fs/Linked.antt =====
-- `link` on every branch, and the invariant after it.
use agentfs.Base.{
  ℕ, ◌≡◌, ◌≢◌, refl, sym, ◌∙◌, ap, false, none, some, arith, ltb, length, if◌then◌else◌, Str,
  Bool-cases, Option-cases, inl, inr,
}
use agentfs.Db.{Inode, Now, inc, set_ctime, set_mtime_ctime}
use agentfs.Db.Dentries.{find, IsUnique, find-append}
use agentfs.Fs.Cache.{Lru}
use agentfs.Fs.{Fs, is_directory, max_name_len, update_inode, insert_dentry}
use agentfs.Fs.Create.{link}
use agentfs.Fs.Wf.{IsCoherent, Inv, IsDirAt, lookup_child-find}
use agentfs.Fs.Wf.Insert.{entry}
use agentfs.Fs.Wf.Link.{link-IsWf}

-- The state with the entry, the link count and the parent's times changed.
abbrev pub after_link : {lru : Lru} → Now → ℕ → ℕ → Str → Fs lru → Fs lru
after_link {lru} now i p n s = record {
  db = update_inode p (set_mtime_ctime now) (
      update_inode i (λ r. set_ctime now (record r { nlink = inc r.nlink }))
        (insert_dentry n p i s.db));
  cache = lru.put p n i s.cache;
}

-- The state after `link`, by what its arguments stand for.
abbrev pub links_state : {lru : Lru} → Now → ℕ → ℕ → Str → Fs lru → Fs lru
links_state now i p n s = if ltb max_name_len (length n) then s else elim (s.db.inode i) [
  | none ↦ s
  | some r ↦
      if is_directory r
      then s
      else elim (find p n s.db.dentry) [ some j ↦ s | none ↦ after_link now i p n s ]
]

module _ {lru : Lru} (now : Now) (i p : ℕ) (n : Str) (s : Fs lru) where
  link_state : IsUnique s.db.dentry → (link now i p n s).1 ≡ links_state now i p n s
  unfolding link
  link_state u = ground (arith, lookup_child-find p n s.db.dentry u)

  module _ (v : Inv s) (dir : IsDirAt p s.db) (free : find p n s.db.dentry ≡ none) (r : Inode)
      (row : s.db.inode i ≡ some r) (file : is_directory r ≡ false) where
    after_link-IsCoherent : IsCoherent (after_link now i p n s)
    after_link-IsCoherent q m w h = ground (
      arith,
      lru.peek-put p n i q m w s.cache h,
      find-append p n (entry p n i) s.db.dentry free q m,
      v.coherent q m w,
    )

    apart : p ≢ i
    apart e =
        let same : some dir.0 ≡ some r = sym dir.1 ∙ (ap s.db.inode e ∙ row) in
        ground (arith, dir.2)

    after_link-Inv : Inv (after_link now i p n s)
    after_link-Inv =
        let r' = set_ctime now (record r { nlink = inc r.nlink }) in
        let at = dir.1 in
        let ne = apart in
        record {
          wf =
              link-IsWf s.db (after_link now i p n s).db p n i dir.0 (set_mtime_ctime now dir.0) r
                r' v.wf dir.1 dir.2 dir.2 free row file file refl refl (λ j. ground arith) refl;
          coherent = after_link-IsCoherent;
        }

  -- `link` into a directory that is there keeps the invariant, whether it succeeds or not.
  pub link-Inv : Inv s → IsDirAt p s.db → Inv (link now i p n s).1
  link-Inv v dir = rw (link_state v.wf.unique) (elim (Bool-cases (ltb max_name_len (length n))) [
    | inl long ↦ rw long v
    | inr short ↦ rw short (elim (Option-cases (s.db.inode i)) [
      | inl gone ↦ rw gone v
      | inr (r, row) ↦ rw row (elim (Bool-cases (is_directory r)) [
        | inl d ↦ rw d v
        | inr file ↦ rw file (elim (Option-cases (find p n s.db.dentry)) [
          | inr (j, taken) ↦ rw taken v
          | inl free ↦ rw free (after_link-Inv v dir free r row file)
        ])
      ])
    ])
  ])
