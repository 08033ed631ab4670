-- ===== src/Fs/Cache.antt =====
-- The dentry cache of sdk/rust/src/filesystem/agentfs.rs (`DentryCache`). The `LruCache` below it is
-- of the crate `lru`: its operations are a parameter, with what its documentation says of them. An
-- entry may be evicted at any `put`.
use agentfs.Base.{ℕ, ◌≡◌, Option, none, some, Str, if◌then◌else◌}
use agentfs.Db.Dentries.{key_eq}

pub record Lru : Type 1 where
  pub Cache : Type 0
  pub new : Cache
  -- `get` is a use of the entry; `peek` is what the cache holds, with no use.
  pub get : ℕ → Str → Cache → Option ℕ × Cache
  pub put : ℕ → Str → ℕ → Cache → Cache
  pub pop : ℕ → Str → Cache → Cache
  pub peek : ℕ → Str → Cache → Option ℕ
  pub peek-new : (p : ℕ) (n : Str) → peek p n new ≡ none
  pub get-peek : (p : ℕ) (n : Str) (c : Cache) → (get p n c).0 ≡ peek p n c
  pub peek-get :
      (p : ℕ) (n : Str) (q : ℕ) (m : Str) (c : Cache) → peek q m (get p n c).1 ≡ peek q m c
  pub peek-put :
      (p : ℕ) (n : Str) (v : ℕ) (q : ℕ) (m : Str) (w : ℕ) (c : Cache)
      → peek q m (put p n v c) ≡ some w
      → (if key_eq p n q m then some v else peek q m c) ≡ some w
  pub peek-pop :
      (p : ℕ) (n : Str) (q : ℕ) (m : Str) (c : Cache)
      → peek q m (pop p n c) ≡ (if key_eq p n q m then none else peek q m c)
