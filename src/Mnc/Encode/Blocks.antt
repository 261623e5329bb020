-- ===== src/Mnc/Encode/Blocks.antt =====
-- mnc_tx.c: what the coding of one packet adds to each byte.
use mac.Base.{
  ℕ, zero, suc, ◌+◌, ◌-◌, ◌*◌, ◌/◌, ◌%◌, ◌<◌, bit_xor, ◌≡◌, sym, ap, ◌∙◌, arith, for_range, Matrix,
  ◌&&◌, ◌==◌, leb, ltb, if◌then◌else◌, Bool-cases, inl, inr, ==→eq,
}
use mac.Gf.{gmul}
use mac.Gf.Sum.{xsum}
use mac.Mnc.Substitute.{Vector}
use mac.Mnc.Substitute.Cells.{bounds_of_quotient, quotient_of_bounds}
use mac.Mnc.Substitute.Recover.{rounds_enough}
use native.Mathlib.Nat.{div-lt_iff_lt-mul}
use mac.Mnc.Encode.{cal_data, cal_data_lem, code_blocks}

-- The byte `y` of a packet's product with its coefficients, block by block.
abbrev pub coded : ℕ → Vector → Matrix → ℕ → ℕ
coded p old coefficient y = xsum p (λ j. gmul (old (y / p * p + j)) (coefficient (y % p) j))

block_cell :
    (p : ℕ) (old : Vector) (coefficient : Matrix) (o b : ℕ) (new : Vector) (y : ℕ)
    → 0 < p
    → cal_data p old (b * p) coefficient (o + b * p) new (o + y)
      ≡ (if y / p == b then bit_xor (new (o + y)) (coded p old coefficient y) else new (o + y))
block_cell p old coefficient o b new y h =
    let cell = cal_data_lem p old (b * p) coefficient (o + b * p) new (o + y) in
    elim (Bool-cases (y / p == b)) [
      | inl e ↦
          let q = ==→eq (y / p) b e in
          let bounds = bounds_of_quotient p y h in
          let at : y ≡ b * p + y % p = bounds.0 ∙ ap (λ t. t * p + y % p) q in
          let off : o + y - (o + b * p) ≡ y % p = omega (arith, at) in
          let sum : xsum p (λ j. gmul (old (b * p + j)) (coefficient (o + y - (o + b * p)) j))
              ≡ coded p old coefficient y =
            ap (λ i. xsum p (λ j. gmul (old (b * p + j)) (coefficient i j))) off
            ∙ ap (λ t. xsum p (λ j. gmul (old (t * p + j)) (coefficient (y % p) j))) (sym q) in
          ground (arith, cell, at, bounds.1, sum)
      | inr e ↦ ground (arith, cell, quotient_of_bounds b p y)
    ]

blocks_cell :
    (p : ℕ) (old : Vector) (coefficient : Matrix) (o y : ℕ) (n b : ℕ) (new : Vector)
    → 0 < p
    → for_range n b (λ b new. cal_data p old (b * p) coefficient (o + b * p) new) new (o + y) ≡ (
        if leb b (y / p) && ltb (y / p) (b + n)
        then bit_xor (new (o + y)) (coded p old coefficient y)
        else new (o + y))
unfolding for_range
blocks_cell p old coefficient o y zero b new h = ground arith
blocks_cell p old coefficient o y (suc n) b new h = ground (
  arith,
  blocks_cell p old coefficient o y n (suc b) (cal_data p old (b * p) coefficient (o + b * p) new)
      h,
  block_cell p old coefficient o b new y h,
)

-- For blocks of at least one byte, the coding of a packet adds to each byte below its length the
-- product of the packet's block with the row of coefficients for that byte.
pub code_blocks-coded :
    (p coding_len : ℕ) (old : Vector) (coefficient : Matrix) (o : ℕ) (new : Vector) (y : ℕ)
    → 0 < p
    → y < coding_len
    → code_blocks p coding_len old coefficient o new (o + y)
      ≡ bit_xor (new (o + y)) (coded p old coefficient y)
unfolding code_blocks
code_blocks-coded p coding_len old coefficient o new y h below =
    let bound : y / p < (coding_len + p - 1) / p =
      let n : ℕ = (coding_len + p - 1) / p in
      let all : y < n * p = omega (arith, rounds_enough coding_len p h) in
      (div-lt_iff_lt-mul h).1 all in
    ground (arith, blocks_cell p old coefficient o y ((coding_len + p - 1) / p) 0 new h)
