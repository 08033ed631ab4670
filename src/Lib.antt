-- ===== src/Lib.antt =====
-- AgentFS: a file system in a SQLite database, and the sandbox that runs programs on it.
--
-- The parts that are modelled, and where:
--
--   Base      lists, texts as bytes, Boolean tests and bit operations that the other modules share.
--   Db        the tables that `initialize_schema` of sdk/rust/src/filesystem/agentfs.rs creates, with
--             the rows of `fs_inode`, `fs_data` and `fs_symlink` as partial functions of their keys
--             and `fs_dentry` as the list of its rows (Db/Dentries). Db/Mode has the mode bits of
--             sdk/rust/src/filesystem/mod.rs.
--   Chunk     the bytes of one file in `fs_data`: `pread`, `write_data_at_offset_with_conn` and
--             `truncate` of `impl File for AgentFSFile`. Chunk/Content reads the chunks as a sequence
--             of bytes; Chunk/Read, Chunk/Write and Chunk/Truncate are about the three operations.
--   OpenFile  `AgentFSFile` over the tables: `pread`, `pwrite`, `truncate`, `fstat`. OpenFile/View
--             takes a file to be its size and its bytes; OpenFile/Round is about reads after writes.
--   Fs        `impl FileSystem for AgentFS`: Fs/Create (mkdir, create_file, mknod, symlink, link),
--             Fs/Remove (unlink, rmdir), Fs/Rename (rename), Fs/Attr (lookup, getattr, readlink, open,
--             chmod, chown, utimens), Fs/Listing (readdir, readdir_plus), Fs/Schema
--             (`initialize_schema`), Fs/Resolve (`resolve_path`).
--             An operation is a function from the state, the tables and the dentry cache, to a result
--             and a state: an error keeps what was written before it. Fs/Wf is the invariant, with the
--             writes that keep it in Fs/Wf/Insert, Delete, Move, Same and Link; Fs/Created, Removed,
--             Renamed, Linked, Changed and Found are about the operations, Fs/Reach about all runs.
--   Path      `normalize_path` and `split_path` of agentfs.rs.
--   ByPath    the methods of `impl AgentFS` that take a path: stat, lstat, readlink and open (ByPath),
--             mkdir, mknod, create_file, symlink and link (ByPath/Make), remove, rename and chown
--             (ByPath/Remove), pread and pwrite (ByPath/Data). ByPath/Parent relates a path to its
--             parent and its last name, ByPath/Reads and Steps are about what only reads, ByPath/Made
--             about what the parent's directory is changed to, ByPath/Kept, Linked, Removed and
--             Renamed about the invariant and failures, ByPath/Lookup about what is found at a path
--             afterwards, ByPath/Follows about the links that stat follows and ByPath/Targets about where
--             one leads, ByPath/Patched about the chunks that pwrite saves.
--   Overlay   sdk/rust/src/filesystem/overlayfs.rs: the inode numbers, whiteouts and origins of
--             `OverlayFS` (Overlay, Overlay/Whiteouts) and its operations over both layers: `lookup`
--             (Overlay/Lookup), copy-up with the parents that it makes (Overlay/CopyUp), chmod, chown,
--             utimens, open, mkdir, create_file, mknod, symlink and link (Overlay/Change), unlink,
--             rmdir and rename (Overlay/Remove), getattr, readlink and the listings
--             (Overlay/Listing), `load` (Overlay/Reload). Overlay/Inodes has the invariant of the maps,
--             Overlay/Reach the runs of the operations on them, and Overlay/Runs those of the whole
--             overlay, by the rules of Overlay/Budget (how many numbers an operation gives out) and
--             Overlay/Settled (what a copy leaves as it is); Overlay/Kept and Stable are about lookup
--             and about the numbers, Overlay/Copied about the bytes of a copy, Overlay/Gone about what
--             was removed, Overlay/Listing/Visible about the names that are listed.
--   HostFs    `HostFS` of sdk/rust/src/filesystem/hostfs_linux.rs: the numbers that it gives to the files
--             of a host directory, and the operations that write them: lookup, mkdir and mknod (`make`),
--             symlink, create_file, readdir_plus and forget. HostFs/Inodes has the invariant of the two
--             maps, HostFs/Runs the runs of the operations, HostFs/Counts the counts of lookups.
--   Mounts    the mount table of sandbox/src/vfs/mount.rs with the bind mounts of
--             sandbox/src/vfs/bind.rs; Mounts/Deepest is about the mount that a path resolves to.
--   FdTable   the virtual file descriptors of sandbox/src/vfs/fdtable.rs.
--   Migrate   the schema versions of sdk/rust/src/schema.rs and the migrate command of
--             cli/src/cmd/migrate.rs, over the columns and rows of `fs_inode`: Migrate/Columns is about
--             columns added one after another, Migrate/Kept about a migration, Migrate/Resumed about one
--             that fails and is run again.
--   Tests     runs and concrete instances.
--
-- An operation on the tree calls `lookup_child` on the entries; `lookup` and `resolve_path` fill
-- the cache and only `resolve_path` reads it. The methods by path resolve the parent and then write
-- as those by inode do, but set fewer times and check less. An overlay calls the methods of its
-- delta, by inode, and asks its base; its listings and its chown go to the methods of `impl
-- AgentFS` that have these names. An open file holds its inode number and goes to `fs_inode` and
-- `fs_data` by itself. `HostFS` is what an overlay usually has as its base. Before an existing
-- database is opened, its schema version is checked.
--
-- Numbers: an integer of the database is its two's complement pattern, so that `nlink + 1` and
-- `nlink - 1` wrap at 2 ^ 64, and `as u32` is `% 2 ^ 32`; offsets of `pwrite` wrap at 2 ^ 64. The index of a chunk is
-- compared as a signed integer, as the queries do. A text is
-- the list of its bytes. The readings of the clock are arguments.
--
-- Fuel: only the loop of `write_data_at_offset_with_conn` runs on fuel, one round for each byte and one
-- for the last test; every round writes at least one byte.
--
-- Parameters: the `LruCache` of the crate `lru` is a record of operations with the laws that its
-- documentation states (Fs/Cache); an entry may be evicted at any `put`. The operations of a
-- virtual file (`BoxedFileOps`) are a type. The base of an overlay is a record of functions from
-- the arguments of its methods to what they answer, another one for each call of the overlay, and
-- the delta is the file system of Fs. What a system call answers to `HostFS` is an argument of the
-- operation that makes it, and so are the failures of the engine in a migration.
--
-- Not modelled: other failures of the database engine, and those of the clock and of the connection
-- pool; operations that interleave at their `await` points; a negative or exhausted inode number;
-- `statfs`; `read_file` and `truncate` by path; the parsing of mount options; columns of `fs_inode`
-- whose names differ only in case; the host file systems of macOS and Windows, and what that of
-- Linux only passes on to the system; the FUSE and NFS servers, the system calls of the sandbox,
-- the other commands, and the libraries for other languages.
pub mod Base
pub mod ByPath
pub mod Overlay
pub mod Mounts
pub mod Chunk
pub mod Db
pub mod FdTable
pub mod HostFs
pub mod Migrate
pub mod Fs
pub mod OpenFile
pub mod Path
pub mod Tests
