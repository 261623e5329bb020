-- ===== src/Gf/Polynomial.antt =====
-- gf.c: `gmul` against an independent description, multiplication of polynomials over two elements
-- modulo x^8 + x^4 + x^3 + x + 1, digit by digit.
use mac.Base.{
  ℕ, zero, suc, ◌-◌, ◌*◌, ◌/◌, ◌%◌, ◌^◌, ◌<◌, bit_xor, ◌≡◌, refl, ap, arith, true, ◌==◌, ltb,
  if◌then◌else◌, all_below, all_below_sound, zero-bit_xor, bit_xor_step, ◌⊎◌, ◌≡⟨◌⟩◌, ◌∎,
}
use native.Mathlib.Nat.{pow-suc}
use mac.Gf.{log, antilog, gmul, IsByte}
use mac.Gf.Laws.{zero-gmul, gmul_assoc, gmul_comm, one-gmul, gmul-IsByte}
use mac.Gf.Linear.{gmul-bit_xor}

-- Multiplication by x.
times_x : ℕ → ℕ
times_x b = if ltb b 128 then 2 * b else bit_xor (2 * b - 256) 0x1b

-- The product by the lowest `n` digits of `a`.
unfoldable pub poly_mul : ℕ → ℕ → ℕ → ℕ
unfolding times_x
poly_mul zero a b = 0
poly_mul (suc n) a b = bit_xor (if a % 2 == 1 then b else 0) (times_x (poly_mul n (a / 2) b))

times_x_table : all_below 256 (λ b. gmul 2 b == times_x b) ≡ true
unfolding all_below gmul log antilog times_x
times_x_table = refl

gmul-two : (b : ℕ) → IsByte b → gmul 2 b ≡ times_x b
gmul-two b h =
    let t = all_below_sound 256 (λ b. gmul 2 b == times_x b) b times_x_table h in ground arith

digit_cases : (a b : ℕ) → IsByte b → gmul (a % 2) b ≡ (if a % 2 == 1 then b else 0)
digit_cases a b h =
    let bit : (a % 2 ≡ 0) ⊎ (a % 2 ≡ 1) = omega arith in
    ground (arith, bit, zero-gmul b, one-gmul b h)

-- A number is its lowest digit and the rest shifted.
split_digit : (a : ℕ) → IsByte a → a ≡ bit_xor (a % 2) (gmul 2 (a / 2))
unfolding times_x
split_digit a h = rw (gmul-two (a / 2) (omega arith)) (
    ground (
      arith,
      bit_xor_step (a % 2) (2 * (a / 2)),
      ap (λ t. bit_xor t (2 * (a / 2) / 2)) (half_digit a),
      zero-bit_xor (2 * (a / 2) / 2),
    ))
  where
    half_digit : (a : ℕ) → a % 2 / 2 ≡ 0
    half_digit a = omega arith

gmul-poly_mul : (n a b : ℕ) → a < 2 ^ n → a < 256 → IsByte b → gmul a b ≡ poly_mul n a b
unfolding poly_mul
gmul-poly_mul zero a b small h k = let e : a ≡ 0 = omega arith in rw e (zero-gmul b)
gmul-poly_mul (suc n) a b small h k =
    let half : a / 2 < 2 ^ n = omega (arith, pow-suc 2 n) in
    gmul a b
    ≡⟨ ap (λ t. gmul t b) (split_digit a h) ⟩ gmul (bit_xor (a % 2) (gmul 2 (a / 2))) b
    ≡⟨ gmul_comm _ b ⟩ gmul b (bit_xor (a % 2) (gmul 2 (a / 2)))
    ≡⟨ gmul-bit_xor (a % 2) _ (omega arith) (gmul-IsByte 2 (a / 2)) b k ⟩
      bit_xor (gmul b (a % 2)) (gmul b (gmul 2 (a / 2)))
    ≡⟨ rw
        (
          gmul_comm b (a % 2),
          digit_cases a b k,
          gmul_comm b (gmul 2 (a / 2)),
          gmul_assoc 2 (a / 2) b,
          gmul-poly_mul n (a / 2) b half (omega arith) k,
        )
        (ap (bit_xor (if a % 2 == 1 then b else 0)) (
          gmul-two _
            (rw (gmul-poly_mul n (a / 2) b half (omega arith) k) at (gmul-IsByte (a / 2) b)))) ⟩
      poly_mul (suc n) a b ∎

-- On all bytes `gmul` is multiplication modulo the polynomial 0x11b.
pub gmul-eq-poly_mul : (a b : ℕ) → IsByte a → IsByte b → gmul a b ≡ poly_mul 8 a b
gmul-eq-poly_mul a b h k = gmul-poly_mul 8 a b h h k
