-- ===== src/ByPath/Renamed.antt =====
-- `rename` by path that fails.
use agentfs.Base.{ℕ, ◌≡◌, refl, ◌∙◌, Bool, true, false, none, some, Str, inl, inr, arith}
use agentfs.Fs.Cache.{Lru}
use agentfs.Fs.Rename.{transaction}
use agentfs.Fs.{
  Fs, Exec, ok, err, FsError, Stats, refuse, required, forget, remember, ◌>>◌, invalid_path,
  not_found, root_operation, invalid_rename, last, ◌>>=◌,
}
use agentfs.Fs.Wf.{Inv}
use agentfs.ByPath.Reads.{Reads, Reads-resolve_known}
use agentfs.ByPath.Remove
use agentfs.ByPath.Remove.{is_dir, is_below}
use agentfs.Db.{Now}
use agentfs.Base.{Option, same, ◌&&◌}
use agentfs.Path.{split_path, normalize_path, root_path}
use agentfs.ByPath.{resolve_parent, resolve_known, non_root, name_of, stat_with_conn}
use agentfs.ByPath.Steps.{Result-cases, Reads-resolve_parent, Reads-non_root, Reads-stat_with_conn}

module _ {lru : Lru} where
  -- If the action fails, no table is changed.
  abbrev IsUndone : {A : Type 0} → Exec lru A → Fs lru → Type 0
  IsUndone m s = (e : FsError) → (m s).0 ≡ err e → (m s).1.db ≡ s.db

  then-IsUndone :
      {A B : Type 0} (m : Exec lru A) (f : A → Exec lru B) (s : Fs lru)
      → Reads m
      → Inv s
      → ((a : A) (t : Fs lru) → t.db ≡ s.db → Inv t → IsUndone (f a) t)
      → IsUndone (m >>= f) s
  then-IsUndone m f s reads v h =
      let (same, v') = reads s v in
      elim (Result-cases (m s).0) [
        | inl (a, e) ↦ rw e (λ x failed. h a (m s).1 same v' x failed ∙ same)
        | inr (x, e) ↦ rw e (λ _ _. same)
      ]

  transaction-IsUndone : {A : Type 0} (m : Exec lru A) (s : Fs lru) → IsUndone (transaction m) s
  transaction-IsUndone m s x h = elim (Result-cases (m s).0) [
    | inl (a, e) ↦ absurd (ground (arith, e, h))
    | inr (y, e) ↦ rw (e, transaction) refl
  ]

  -- What follows a transaction and cannot fail.
  total-IsUndone :
      {A B : Type 0} (m : Exec lru A) (k : Exec lru B) (s : Fs lru)
      → IsUndone m s
      → ((t : Fs lru) → (b : B) × ((k t).0 ≡ ok b))
      → IsUndone (m >>= λ _. k) s
  total-IsUndone m k s undone total = elim (Result-cases (m s).0) [
    | inl (a, e) ↦
        let (b, done) = total (m s).1 in rw e (λ x failed. absurd (ground (arith, done, failed)))
    | inr (y, e) ↦ rw e (λ x failed. undone y e)
  ]

  refuse-IsUndone :
      {B : Type 0} (b : Bool) (x : FsError) (k : Exec lru B) (s : Fs lru)
      → IsUndone k s
      → IsUndone (refuse b x >>= λ _. k) s
  refuse-IsUndone true x k s h = λ y _. refl
  refuse-IsUndone false x k s h = h

  required-IsUndone :
      {A B : Type 0} (x : FsError) (o : Option A) (f : A → Exec lru B) (s : Fs lru)
      → ((a : A) → IsUndone (f a) s)
      → IsUndone (required x o >>= f) s
  required-IsUndone x none f s h = λ y _. refl
  required-IsUndone x (some a) f s h = h a

  rename_entry-IsUndone :
      (now : Now) (to_path : Str) (i : ℕ) (src : Stats) (p : ℕ) (n : Str) (p' : ℕ) (n' : Str)
      (s : Fs lru)
      → IsUndone (Remove.rename_entry now to_path i src p n p' n') s
  unfolding Remove.rename_entry
  rename_entry-IsUndone now to_path i src p n p' n' s =
      total-IsUndone (transaction (Remove.rename_rows now to_path i src p n p' n'))
        (do forget p n; forget p' n'; remember p' n' i) s
        (transaction-IsUndone (Remove.rename_rows now to_path i src p n p' n') s) (λ t. (tt, refl))

  rename_named-IsUndone :
      (now : Now) (from_path to_path : Str) (i : ℕ) (src : Stats) (n : Str) (s : Fs lru)
      → Inv s
      → IsUndone (Remove.rename_named now from_path to_path i src n) s
  unfolding Remove.rename_named
  rename_named-IsUndone now from_path to_path i src n s v =
      then-IsUndone (resolve_parent (split_path from_path)) _ s
        (Reads-resolve_parent (split_path from_path)) v
        λ p t q w. then-IsUndone (non_root to_path) _ t (Reads-non_root to_path) w λ cs t₂ q₂ w₂.
          then-IsUndone (resolve_parent cs)
            (λ p'. Remove.rename_entry now to_path i src p n p' (name_of cs)) t₂
            (Reads-resolve_parent cs) w₂
            λ p' t₃ q₃ w₃. rename_entry-IsUndone now to_path i src p n p' (name_of cs) t₃

  -- What `rename` does when the types are known.
  abbrev checked : Now → Str → Str → ℕ → Stats → Exec lru (Unit {0})
  checked now from_path to_path i src = do
    refuse (is_dir src && is_below from_path to_path) invalid_rename
    n ← required invalid_path (last (split_path from_path))
    Remove.rename_named now from_path to_path i src n

  checked-IsUndone :
      (now : Now) (from_path to_path : Str) (i : ℕ) (src : Stats) (s : Fs lru)
      → Inv s
      → IsUndone (checked now from_path to_path i src) s
  checked-IsUndone now from_path to_path i src s v =
      refuse-IsUndone (is_dir src && is_below from_path to_path) invalid_rename
        (do
          n ← required invalid_path (last (split_path from_path))
          Remove.rename_named now from_path to_path i src n)
        s
        (required-IsUndone invalid_path (last (split_path from_path))
          (Remove.rename_named now from_path to_path i src) s
          (λ n. rename_named-IsUndone now from_path to_path i src n s v))

  rename-IsUndone :
      (now : Now) (from to : Str) (s : Fs lru) → Inv s → IsUndone (Remove.rename now from to) s
  unfolding Remove.rename
  rename-IsUndone now from to s v =
      let from_path = normalize_path from in
      let to_path = normalize_path to in
      let after_stat : ℕ → Option Stats → Exec lru (Unit {0}) =
        λ i found. (required not_found found >>= λ src. checked now from_path to_path i src) in
      refuse-IsUndone (same from_path root_path) root_operation
        (do i ← resolve_known from_path; found ← stat_with_conn from_path; after_stat i found) s
        (then-IsUndone (resolve_known from_path)
          (λ i. do found ← stat_with_conn from_path; after_stat i found) s
          (Reads-resolve_known from_path) v
          λ i t q w.
            then-IsUndone (stat_with_conn from_path) (after_stat i) t
              (Reads-stat_with_conn from_path) w
              λ found t₂ q₂ w₂.
                required-IsUndone not_found found (checked now from_path to_path i) t₂
                  (λ src. checked-IsUndone now from_path to_path i src t₂ w₂))

  -- With the invariant, a `rename` by path that fails changes no table.
  pub rename_by_path_fails :
      (now : Now) (from to : Str) (s : Fs lru) (e : FsError)
      → Inv s
      → (Remove.rename now from to s).0 ≡ err e
      → (Remove.rename now from to s).1.db ≡ s.db
  rename_by_path_fails now from to s e v failed = rename-IsUndone now from to s v e failed
