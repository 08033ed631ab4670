-- ===== src/Base/Bits.antt =====
-- `&` at a variable, four binary digits at a time, and tables over a small range.
use Prim.Native.Nat.{
  ℕ, zero, suc, ◌+◌, ◌*◌, ◌/◌, ◌%◌, ◌≤◌, ◌<◌, min, bit_and, digits, bit_and-bitwise,
}
use mathlib.Core.Path.{◌≡◌, refl, ◌∙◌}
use mathlib.Core.Bool.{Bool, true, ◌&&◌}
use native.Mathlib.Omega.{arith}

-- The digit recursion does not depend on its fuel, once that is enough.
digits_enough :
    (z : ℕ → ℕ) (f : ℕ → ℕ → ℕ) (n m a b : ℕ) → a ≤ n → a ≤ m → digits z f n a b ≡ digits z f m a b
digits_enough z f zero zero a b h k = refl
digits_enough z f zero (suc m) zero b h k = refl
digits_enough z f (suc n) zero zero b h k = refl
digits_enough z f (suc n) (suc m) zero b h k = refl
digits_enough z f zero m (suc a) b h k = absurd (omega arith)
digits_enough z f (suc n) zero (suc a) b h k = absurd (omega arith)
digits_enough z f (suc n) (suc m) (suc a) b h k =
    omega (arith, digits_enough z f n m (suc a / 2) (b / 2) (omega arith) (omega arith))

digits-zero : (n a : ℕ) → digits (λ b. zero) min n a 0 ≡ 0
digits-zero zero a = refl
digits-zero (suc n) zero = refl
digits-zero (suc n) (suc a) = omega (arith, digits-zero n (suc a / 2))

pub bit_and-zero : (a : ℕ) → bit_and a 0 ≡ 0
bit_and-zero a = bit_and-bitwise a 0 ∙ digits-zero a a

lowest : (a b : ℕ) → bit_and a b ≡ bit_and (a / 2) (b / 2) * 2 + min (a % 2) (b % 2)
lowest zero b = omega (arith, bit_and-bitwise 0 b, bit_and-bitwise 0 (b / 2))
lowest (suc a) b =
    let half = suc a / 2 in
    omega (
      arith,
      bit_and-bitwise (suc a) b,
      bit_and-bitwise half (b / 2),
      digits_enough (λ b. zero) min a half half (b / 2) (omega arith) (omega arith),
    )

-- A nibble of ones in the mask keeps four digits, and one of zeros clears them.
pub bit_and_ones : (a m : ℕ) → bit_and a (m * 16 + 15) ≡ bit_and (a / 16) m * 16 + a % 16
bit_and_ones a m =
    let e : a / 2 / 2 / 2 / 2 ≡ a / 16 = omega arith in
    let e₁ : (m * 16 + 15) / 2 ≡ m * 8 + 7 = omega arith in
    let e₂ : (m * 8 + 7) / 2 ≡ m * 4 + 3 = omega arith in
    let e₃ : (m * 4 + 3) / 2 ≡ m * 2 + 1 = omega arith in
    let e₄ : (m * 2 + 1) / 2 ≡ m = omega arith in
    let s₁ = rw e₁ at (lowest a (m * 16 + 15)) in
    let s₂ = rw e₂ at (lowest (a / 2) (m * 8 + 7)) in
    let s₃ = rw e₃ at (lowest (a / 2 / 2) (m * 4 + 3)) in
    let s₄ = rw (e₄, e) at (lowest (a / 2 / 2 / 2) (m * 2 + 1)) in omega arith

pub bit_and_zeros : (a m : ℕ) → bit_and a (m * 16) ≡ bit_and (a / 16) m * 16
bit_and_zeros a m =
    let e : a / 2 / 2 / 2 / 2 ≡ a / 16 = omega arith in
    let e₁ : m * 16 / 2 ≡ m * 8 = omega arith in
    let e₂ : m * 8 / 2 ≡ m * 4 = omega arith in
    let e₃ : m * 4 / 2 ≡ m * 2 = omega arith in
    let e₄ : m * 2 / 2 ≡ m = omega arith in
    let s₁ = rw e₁ at (lowest a (m * 16)) in
    let s₂ = rw e₂ at (lowest (a / 2) (m * 8)) in
    let s₃ = rw e₃ at (lowest (a / 2 / 2) (m * 4)) in
    let s₄ = rw (e₄, e) at (lowest (a / 2 / 2 / 2) (m * 2)) in omega arith

-- A test that holds at every number below a bound.
unfoldable pub all_below : ℕ → (ℕ → Bool) → Bool
all_below zero p = true
all_below (suc n) p = p n && all_below n p

pub at_below : (n : ℕ) (p : ℕ → Bool) → all_below n p ≡ true → (x : ℕ) → x < n → p x ≡ true
unfolding all_below
at_below zero p h x lt = absurd (omega arith)
at_below (suc n) p h x lt = ground (arith, at_below n p (ground arith) x)
