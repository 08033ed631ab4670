-- ===== src/Tests/Setup.antt =====
-- A cache, a new file system, and one with a file, a link and a directory.
use agentfs.Base.{ℕ, refl, Option, none, some, [], ◌∷◌, Str, if◌then◌else◌, same}
use agentfs.Db.{Db, Now}
use agentfs.Db.Dentries.{key_eq, find}
use agentfs.Fs.{Fs, root_ino, u32_mod}
use agentfs.Fs.Cache.{Lru}
use agentfs.Fs.Create.{mkdir, create_file}
use agentfs.Fs.Reach.{Reach, start, next, by_mkdir, by_create_file, Reach-Inv}
use agentfs.Fs.Schema.{initialize_schema, no_rows, initialize_schema-new}
use agentfs.Fs.Wf.{Inv, IsDirAt}

-- A cache that evicts nothing.
abbrev pub map_lru : Lru
map_lru = record {
  Cache = ℕ → Str → Option ℕ;
  new = λ _ _. none;
  get = λ p n c. (c p n, c);
  put = λ p n i c q m. if key_eq p n q m then some i else c q m;
  pop = λ p n c q m. if key_eq p n q m then none else c q m;
  peek = λ p n c. c p n;
  peek-new = λ p n. refl;
  get-peek = λ p n c. refl;
  peek-get = λ p n q m c. refl;
  peek-put = λ p n v q m w c h. h;
  peek-pop = λ p n q m c. refl;
}

abbrev pub at : Now
at = record { secs = 100; nsec = 5 }

abbrev pub name_a : Str
name_a = b'a' ∷ []

abbrev pub name_b : Str
name_b = b'b' ∷ []

abbrev pub name_d : Str
name_d = b'd' ∷ []

abbrev pub fresh : Fs map_lru
fresh = record { db = initialize_schema at 1000 1000 no_rows; cache = map_lru.new }

pub fresh-Reach : Reach fresh
fresh-Reach = start at 1000 1000

pub fresh_dir : IsDirAt root_ino fresh.db
fresh_dir = (initialize_schema-new at 1000 1000).1

-- A file `a`, inode 2.
abbrev pub with_file : Fs map_lru
with_file = (create_file at root_ino name_a 0o644 0 0 fresh).1

pub with_file-Reach : Reach with_file
with_file-Reach = next fresh-Reach (by_create_file fresh at root_ino name_a 0o644 0 0 fresh_dir)

pub with_file-Inv : Inv with_file
with_file-Inv = Reach-Inv with_file-Reach

pub with_file_dir : IsDirAt root_ino with_file.db
unfolding create_file initialize_schema agentfs.Fs.lookup_child agentfs.Db.Dentries.select
    agentfs.Db.Mode.file_type
with_file_dir = (_, refl, refl)

-- And an empty directory `d`, inode 3.
abbrev pub with_dir : Fs map_lru
with_dir = (mkdir at root_ino name_d 0o755 0 0 with_file).1

pub with_dir-Inv : Inv with_dir
with_dir-Inv =
    Reach-Inv (next with_file-Reach (by_mkdir with_file at root_ino name_d 0o755 0 0 with_file_dir))

pub with_dir_root : IsDirAt root_ino with_dir.db
unfolding create_file mkdir initialize_schema agentfs.Fs.lookup_child agentfs.Db.Dentries.select
    agentfs.Db.Dentries.append agentfs.Db.Mode.file_type agentfs.Db.Dentries.is_at same
with_dir_root = (_, refl, refl)
