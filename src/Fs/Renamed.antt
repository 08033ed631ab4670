-- ===== src/Fs/Renamed.antt =====
-- `rename`: the states it passes through, and the invariant after it.
pub mod Writes
pub mod Replaced
pub mod Outcome
