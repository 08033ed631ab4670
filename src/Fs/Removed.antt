-- ===== src/Fs/Removed.antt =====
-- What `unlink` and `rmdir` compute, and that they keep the invariant.
pub mod Purge
pub mod Unlink
pub mod Last
pub mod Rmdir
