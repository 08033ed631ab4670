-- ===== src/Db/Mode.antt =====
-- File types and permission bits: the constants of sdk/rust/src/filesystem/mod.rs and the masks with
-- which sdk/rust/src/filesystem/agentfs.rs builds a mode.
use agentfs.Base.{
  ℕ, ◌*◌, ◌/◌, ◌%◌, ◌<◌, ◌≡◌, refl, Bool, true, ◌&&◌, arith, ◌==◌, ==_iff, bit_and, bit_or,
}
use agentfs.Base.Bits.{bit_and-zero, bit_and_ones, bit_and_zeros, all_below, at_below}

abbrev pub s_ifmt : ℕ
s_ifmt = 0o170000

abbrev pub s_ifreg : ℕ
s_ifreg = 0o100000

abbrev pub s_ifdir : ℕ
s_ifdir = 0o040000

abbrev pub s_iflnk : ℕ
s_iflnk = 0o120000

-- `mode & 0o7777`
unfoldable pub permissions : ℕ → ℕ
permissions m = bit_and m 0o7777

-- `mode & S_IFMT`
unfoldable pub file_type : ℕ → ℕ
file_type m = bit_and m s_ifmt

-- The mode of a new inode of a type, `S_IFDIR | (mode & 0o7777)`.
unfoldable pub typed_mode : ℕ → ℕ → ℕ
unfolding permissions
typed_mode t m = bit_or t (permissions m)

-- `chmod`: the type bits of the old mode and the permission bits of the new one
unfoldable pub change_mode : ℕ → ℕ → ℕ
unfolding permissions file_type
change_mode old new = bit_or (file_type old) (permissions new)

permissions-lt : (m : ℕ) → permissions m ≡ m % 4096
unfolding permissions
permissions-lt m =
    let s₁ = bit_and_ones m 255 in
    let s₂ = bit_and_ones (m / 16) 15 in
    let s₃ = bit_and_ones (m / 16 / 16) 0 in let s₄ = bit_and-zero (m / 16 / 16 / 16) in omega arith

file_type-nibble : (m : ℕ) → file_type m ≡ m / 4096 % 16 * 4096
unfolding file_type
file_type-nibble m =
    let s₁ = bit_and_zeros m 0o7400 in
    let s₂ = bit_and_zeros (m / 16) 0o360 in
    let s₃ = bit_and_zeros (m / 16 / 16) 15 in
    let s₄ = bit_and_ones (m / 16 / 16 / 16) 0 in
    let s₅ = bit_and-zero (m / 16 / 16 / 16 / 16) in omega arith

-- Type bits and permission bits do not overlap: every type and every permission.
split : ℕ → ℕ → Bool
split t p =
    (bit_and (bit_or (t * 4096) p) s_ifmt == t * 4096)
    && (bit_and (bit_or (t * 4096) p) 0o7777 == p)

split_table : all_below 16 (λ t. all_below 4096 (split t)) ≡ true
unfolding all_below split
split_table = refl

split_at : (t p : ℕ) → t < 16 → p < 4096 → split t p ≡ true
split_at t p ht hp =
    at_below 4096 (split t) (at_below 16 (λ t. all_below 4096 (split t)) split_table t ht) p hp

fields :
    (t p : ℕ)
    → t < 16
    → p < 4096
    → (file_type (bit_or (t * 4096) p) ≡ t * 4096) × (permissions (bit_or (t * 4096) p) ≡ p)
unfolding file_type permissions split
fields t p ht hp =
    let h = split_at t p ht hp in
    ground (
      arith,
      ==_iff (bit_and (bit_or (t * 4096) p) s_ifmt) (t * 4096),
      ==_iff (bit_and (bit_or (t * 4096) p) 0o7777) p,
    )

-- A new inode has the type that it was made with, whatever mode was asked for.
pub file_type-typed_mode : (t m : ℕ) → t < 16 → file_type (typed_mode (t * 4096) m) ≡ t * 4096
unfolding typed_mode
file_type-typed_mode t m h = (fields t (permissions m) h (omega (arith, permissions-lt m))).0

-- `chmod` keeps the type and sets the twelve permission bits.
pub change_mode_lem :
    (old new : ℕ)
    → (file_type (change_mode old new) ≡ file_type old)
      × (permissions (change_mode old new) ≡ permissions new)
unfolding change_mode
change_mode_lem old new =
    rw (file_type-nibble old)
      (fields (old / 4096 % 16) (permissions new) (omega arith) (omega (arith, permissions-lt new)))
