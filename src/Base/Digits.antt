-- ===== src/Base/Digits.antt =====
-- Bounds of the operations on binary digits.
use Prim.Native.Nat.{
  ℕ, zero, suc, ◌/◌, ◌%◌, ◌^◌, ◌≤◌, ◌<◌, min, max, bit_and, bit_or, digits, bit_and-bitwise,
  bit_or-bitwise,
}
use native.Mathlib.Nat.{pow-suc}
use native.Mathlib.Omega.{arith}

digits_lt :
    (z : ℕ → ℕ) (f : ℕ → ℕ → ℕ)
    → ((b : ℕ) → z b ≤ b)
    → ((x y : ℕ) → x < 2 → y < 2 → f x y < 2)
    → (k n a b : ℕ) → a < 2 ^ k
    → b < 2 ^ k
    → digits z f n a b < 2 ^ k
digits_lt z f small digit k zero a b p q = omega (arith, small b, q)
digits_lt z f small digit k (suc n) zero b p q = omega (arith, small b, q)
digits_lt z f small digit zero (suc n) (suc a) b p q = absurd (omega arith)
digits_lt z f small digit (suc k) (suc n) (suc a) b p q =
    let e = pow-suc 2 k in
    let rest =
      digits_lt z f small digit k n (suc a / 2) (b / 2) (omega (arith, e, p))
        (omega (arith, e, q)) in
    omega (arith, e, rest, digit (suc a % 2) (b % 2) (omega arith) (omega arith))

pub bit_and-lt : (k a b : ℕ) → a < 2 ^ k → b < 2 ^ k → bit_and a b < 2 ^ k
bit_and-lt k a b p q = omega (
  arith,
  bit_and-bitwise a b,
  digits_lt (λ b. 0) min (λ b. omega arith) (λ x y h i. omega arith) k a a b p q,
)

pub bit_or-lt : (k a b : ℕ) → a < 2 ^ k → b < 2 ^ k → bit_or a b < 2 ^ k
bit_or-lt k a b p q = omega (
  arith,
  bit_or-bitwise a b,
  digits_lt (λ b. b) max (λ b. omega arith) (λ x y h i. omega arith) k a a b p q,
)
