-- ===== src/Overlay/Copied.antt =====
-- What the copy of a regular file of the base has in the delta.
use agentfs.Base.{
  ℕ, ◌+◌, ◌/◌, ◌%◌, ◌<◌, ◌≤◌, ◌≡◌, refl, sym, ◌∙◌, ap, false, true, none, some, [], ◌∷◌, arith,
  length, get_or, get_or_past, max, Str, Blob, same, ◌==◌, Bool-cases, Option-cases, inl, inr,
}
use agentfs.Chunk
use agentfs.Chunk.{u64_mod}
use agentfs.Chunk.Write.{within}
use agentfs.Chunk.Content.{byte_at}
use agentfs.Db.{Db, Inode, Now}
use agentfs.Db.Dentries.{find}
use agentfs.Db.Mode.{typed_mode, s_ifreg}
use agentfs.Fs.Attr.{dot_dot}
use agentfs.Fs.Cache.{Lru}
use agentfs.Fs.Found
use agentfs.Fs.Wf.{Inv, IsDirAt}
use agentfs.Fs.{Fs, update_inode, ok, Stats, max_name_len}
use agentfs.OpenFile.{OpenFile, pwrite, size_of, set_chunks, set_size}
use agentfs.OpenFile.View.{IsFile, file_size, file_byte, pwrite_lem}
use agentfs.Overlay.CopyUp.{BaseLayer, Setting, write_content, copy_file}
use agentfs.Overlay.Lookup.{Session}

-- The attributes that a write leaves.
abbrev SameOwner : Inode → Inode → Type 0
SameOwner r r' = (r'.mode ≡ r.mode) × (r'.uid ≡ r.uid) × (r'.gid ≡ r.gid) × (r'.nlink ≡ r.nlink)

pwrite_keeps :
    (h : OpenFile) (now : Now) (db db' : Db) (offset : ℕ) (data' : Blob) (r : Inode)
    → pwrite h now db offset data' ≡ some db'
    → db.inode h.ino ≡ some r
    → (db'.dentry ≡ db.dentry) × ((r' : Inode) × (db'.inode h.ino ≡ some r') × SameOwner r r')
unfolding pwrite
pwrite_keeps h now db db' offset data' r ran row = elim (Bool-cases (length data' == 0)) [
  | inl empty ↦
      let e : db ≡ db' = ground arith in rw (← e) (refl, (r, row, (refl, refl, refl, refl)))
  | inr some_data ↦
      elim (Option-cases (Chunk.write_at h.chunk_size offset data' (db.chunk h.ino))) [
        | inl stuck ↦ absurd (ground arith)
        | inr (f, done) ↦
            let size = max (size_of (db.inode h.ino)) ((offset + length data') % u64_mod) in
            let e : update_inode h.ino (set_size now size) (set_chunks h.ino f db) ≡ db' =
              some_eq (rw (some_data, done) at ran) in
            rw (← e) (refl, (set_size now size r, ground arith, (refl, refl, refl, refl)))
      ]
]
  where
    some_eq : {a b : Db} → some a ≡ some b → a ≡ b
    some_eq e = cc

module _ {lru : Lru} (base : BaseLayer) (c : Setting) (p : ℕ) (n : Str) (base_ino : ℕ) (st : Stats)
    (s : Session lru) (v : Inv s.delta) (dir : IsDirAt p s.delta.db)
    (short : length n ≤ max_name_len) (name : same n dot_dot ≡ false)
    (free : find p n s.delta.db.dentry ≡ none) where
  abbrev ino : ℕ
  ino = s.delta.db.last_ino + 1

  abbrev handle : OpenFile
  handle = record { ino = ino; chunk_size = c.chunk_size }

  abbrev made : Fs lru
  made = Found.made c.made p n st.mode st.uid st.gid s.delta v dir short name free

  -- The new file is empty.
  made-IsFile : 0 < c.chunk_size → ((k : ℕ) → s.delta.db.chunk ino k ≡ none) → IsFile handle made.db
  unfolding byte_at
  made-IsFile pos clean = record {
    row = (_, Found.found_row c.made p n st.mode st.uid st.gid s.delta v dir short name free);
    sized = pos;
    bounded = λ k. rw (clean k) (omega arith);
    clear = λ k h. rw (clean (k / c.chunk_size)) refl;
  }

  module _ (clean : (k : ℕ) → s.delta.db.chunk ino k ≡ none) where
    new_size : file_size handle made.db ≡ 0
    unfolding file_size
    new_size =
        rw (Found.found_row c.made p n st.mode st.uid st.gid s.delta v dir short name free) refl

    new_byte : (i : ℕ) → file_byte handle made.db i ≡ 0
    unfolding file_byte byte_at
    new_byte i = rw (clean (i / c.chunk_size)) refl

    empty_write :
        (content : Blob)
        → (length content == 0) ≡ true
        → (pwrite handle c.written made.db 0 content ≡ some made.db)
          × (file_size handle made.db ≡ length content)
          × ((i : ℕ) → file_byte handle made.db i ≡ get_or content i 0)
    unfolding pwrite
    empty_write content e =
        let none_left : length content ≡ 0 = ground arith in
        (
          rw e refl,
          rw none_left new_size,
          λ i. new_byte i ∙ ap (λ (x : ℕ). x) (get_or_zero content i none_left),
        )
      where
        get_or_zero : (d : Blob) (i : ℕ) → length d ≡ 0 → 0 ≡ get_or d i 0
        get_or_zero [] i h = refl
        get_or_zero (x ∷ d) i h = absurd (omega arith)

    some_write :
        (content : Blob)
        → 0 < c.chunk_size
        → (length content == 0) ≡ false
        → length content < u64_mod
        → (db' : Db) × (pwrite handle c.written made.db 0 content ≡ some db')
          × (file_size handle db' ≡ length content)
          × ((i : ℕ) → file_byte handle db' i ≡ get_or content i 0)
    some_write content pos e fits =
        let (db', ran, _, size, byte) =
          pwrite_lem handle made.db (made-IsFile pos clean) c.written 0 content (ground arith)
            (omega arith) in
        (
          db',
          ran,
          size ∙ rw new_size (omega arith),
          λ i. byte i ∙ elim (Bool-cases (within 0 (length content) i)) [
            | inl inside ↦ rw inside (ap (λ k. get_or content k 0) (omega arith))
            | inr past ↦ rw past (new_byte i ∙ sym (get_or_past content i 0 (ground arith)))
          ],
        )

    written :
        (content : Blob)
        → 0 < c.chunk_size
        → length content < u64_mod
        → (db' : Db) × (pwrite handle c.written made.db 0 content ≡ some db')
          × (file_size handle db' ≡ length content)
          × ((i : ℕ) → file_byte handle db' i ≡ get_or content i 0)
    written content pos fits = elim (Bool-cases (length content == 0)) [
      | inl empty ↦ let (ran, size, byte) = empty_write content empty in (made.db, ran, size, byte)
      | inr data' ↦ some_write content pos data' fits
    ]

    ran :
        (content : Blob) (file : ℕ) (db' : Db)
        → base.open_file base_ino ≡ ok file
        → base.pread file 0 st.size ≡ ok content
        → pwrite handle c.written made.db 0 content ≡ some db'
        → copy_file base c p n base_ino st s
          ≡ (ok ino, record s { delta = record made { db = db' } })
    unfolding copy_file write_content
    ran content file db' opened read wrote =
        rw
          (
            opened,
            read,
            Found.made_by c.made p n st.mode st.uid st.gid s.delta v dir short name free,
            wrote,
          )
          refl

    -- The copy of a regular file of the base into a directory of the delta, for a name of allowed
    -- length that is free there and not `..`, succeeds if the base lets the file be read, with a
    -- positive chunk size, fewer than 2 ^ 64 bytes and no data under the next inode number: the name
    -- is then that of a file with the base's bytes, as many and in their order, its permission bits
    -- and its owner, with one link; and nothing of the overlay's maps is changed.
    pub copy_file_lem :
        (content : Blob) (file : ℕ)
        → 0 < c.chunk_size
        → length content < u64_mod
        → base.open_file base_ino ≡ ok file
        → base.pread file 0 st.size ≡ ok content
        → (t : Session lru) × (copy_file base c p n base_ino st s ≡ (ok ino, t))
          × (t.overlay ≡ s.overlay)
          × (find p n t.delta.db.dentry ≡ some ino)
          × (file_size handle t.delta.db ≡ length content)
          × ((i : ℕ) → file_byte handle t.delta.db i ≡ get_or content i 0)
          × ((r : Inode) × (t.delta.db.inode ino ≡ some r)
              × (r.mode ≡ typed_mode s_ifreg st.mode)
              × (r.uid ≡ st.uid)
              × (r.gid ≡ st.gid)
              × (r.nlink ≡ 1))
    copy_file_lem content file pos fits opened read =
        let (db', wrote, size, byte) = written content pos fits in
        let row = Found.found_row c.made p n st.mode st.uid st.gid s.delta v dir short name free in
        let entry = Found.found c.made p n st.mode st.uid st.gid s.delta v dir short name free in
        let (same, (r, at, (mode, uid, gid, links))) =
          pwrite_keeps handle c.written made.db db' 0 content _ wrote row in
        (
          record s { delta = record made { db = db' } },
          ran content file db' opened read wrote,
          refl,
          rw same entry,
          size,
          byte,
          (r, at, mode, uid, gid, links),
        )
