-- ===== src/Gf/Linear.antt =====
-- gf.c: `gmul` distributes over `gadd`. The map of 0xe5 is linear in the bits, by its eight columns,
-- and every other nonzero byte is a power of 0xe5.
use mac.Base.{
  ℕ, zero, suc, ◌/◌, ◌%◌, ◌<◌, bit_xor, ◌≡◌, refl, sym, ap, ◌∙◌, inl, inr, arith, true, ◌==◌,
  if◌then◌else◌, List, [], ◌∷◌, all_below, all_below_sound, zero-bit_xor, bit_xor-zero,
  bit_xor_assoc, bit_xor_comm, bit_xor_self, half-bit_xor, parity-bit_xor, bit_xor-lt,
}
use mac.Gf.{log, antilog, gmul, gadd, gsub, IsByte}
use mac.Gf.Logs.{dlog, dlog-lt, antilog-dlog}
use mac.Gf.Laws.{zero_cases, zero-gmul, gmul_assoc, gmul_comm, one-gmul, gmul-IsByte}

-- The exclusive or of the columns at the set bits of `x`.
columns_at : List ℕ → ℕ → ℕ
columns_at [] x = 0
columns_at (c ∷ cs) x = bit_xor (if x % 2 == 1 then c else 0) (columns_at cs (x / 2))

pub bit_xor_swap :
    (a b c d : ℕ) → bit_xor (bit_xor a b) (bit_xor c d) ≡ bit_xor (bit_xor a c) (bit_xor b d)
bit_xor_swap a b c d =
    rw (bit_xor_assoc a b (bit_xor c d), bit_xor_assoc a c (bit_xor b d))
      (ap (bit_xor a) (
        sym (bit_xor_assoc b c d) ∙ ap (λ t. bit_xor t d) (bit_xor_comm b c) ∙ bit_xor_assoc c b d))

pick-bit_xor :
    (c x y : ℕ)
    → (if bit_xor x y % 2 == 1 then c else 0)
      ≡ bit_xor (if x % 2 == 1 then c else 0) (if y % 2 == 1 then c else 0)
pick-bit_xor c x y =
    ground
      (arith, parity-bit_xor x y, bit_xor_self c, zero-bit_xor c, bit_xor-zero c, zero-bit_xor 0)

columns_at-bit_xor :
    (cs : List ℕ) (x y : ℕ)
    → columns_at cs (bit_xor x y) ≡ bit_xor (columns_at cs x) (columns_at cs y)
unfolding columns_at
columns_at-bit_xor [] x y = sym (zero-bit_xor 0)
columns_at-bit_xor (c ∷ cs) x y =
    rw (pick-bit_xor c x y, half-bit_xor x y, columns_at-bit_xor cs (x / 2) (y / 2))
      (bit_xor_swap _ _ _ _)

abbrev columns : List ℕ
columns = 229 ∷ 209 ∷ 185 ∷ 105 ∷ 210 ∷ 191 ∷ 101 ∷ 202 ∷ []

columns_table : all_below 256 (λ x. gmul 229 x == columns_at columns x) ≡ true
unfolding all_below gmul log antilog columns_at
columns_table = refl

gmul_generator : (x : ℕ) → IsByte x → gmul 229 x ≡ columns_at columns x
gmul_generator x h =
    let t = all_below_sound 256 (λ x. gmul 229 x == columns_at columns x) x columns_table h in
    ground arith

generator-bit_xor :
    (x y : ℕ) → IsByte x → IsByte y → gmul 229 (bit_xor x y) ≡ bit_xor (gmul 229 x) (gmul 229 y)
generator-bit_xor x y p q =
    rw (gmul_generator _ (bit_xor-lt 8 x y p q), gmul_generator x p, gmul_generator y q)
      (columns_at-bit_xor columns x y)

next_table : all_below 254 (λ i. antilog (suc i) == gmul 229 (antilog i)) ≡ true
unfolding all_below gmul log antilog
next_table = refl

antilog-suc : (i : ℕ) → i < 254 → antilog (suc i) ≡ gmul 229 (antilog i)
antilog-suc i h =
    let t = all_below_sound 254 (λ i. antilog (suc i) == gmul 229 (antilog i)) i next_table h in
    ground arith

module _ (x y : ℕ) (p : IsByte x) (q : IsByte y) where
  Additive : ℕ → Type 0
  Additive a = gmul a (bit_xor x y) ≡ bit_xor (gmul a x) (gmul a y)

  antilog-Additive : (i : ℕ) → i < 255 → Additive (antilog i)
  unfolding Additive
  antilog-Additive zero h =
      let e : antilog 0 ≡ 1 = unfold antilog in refl in
      rw (e, one-gmul _ (bit_xor-lt 8 x y p q), one-gmul x p, one-gmul y q) refl
  antilog-Additive (suc i) h =
      rw
        (
          antilog-suc i (omega arith),
          gmul_assoc 229 (antilog i) (bit_xor x y),
          gmul_assoc 229 (antilog i) x,
          gmul_assoc 229 (antilog i) y,
          antilog-Additive i (omega arith),
        )
        (generator-bit_xor _ _ (gmul-IsByte (antilog i) x) (gmul-IsByte (antilog i) y))

  pub gmul-bit_xor : (a : ℕ) → IsByte a → gmul a (bit_xor x y) ≡ bit_xor (gmul a x) (gmul a y)
  unfolding Additive
  gmul-bit_xor a h = elim (zero_cases a) [
    | inl e ↦ rw (e, zero-gmul (bit_xor x y), zero-gmul x, zero-gmul y) (sym (zero-bit_xor 0))
    | inr ne ↦ rw (antilog-dlog a h ne) at (antilog-Additive (dlog a) (dlog-lt a))
  ]

-- On bytes `gmul` distributes over `gadd` on the right and over `gsub` on the left.
pub gmul-gadd :
    (a x y : ℕ)
    → IsByte a
    → IsByte x
    → IsByte y
    → (gmul a (gadd x y) ≡ gadd (gmul a x) (gmul a y))
      × (gmul (gsub x y) a ≡ gsub (gmul x a) (gmul y a))
unfolding gadd gsub
gmul-gadd a x y ha hx hy = (
  gmul-bit_xor x y hx hy a ha,
  rw (gmul_comm (bit_xor x y) a, gmul_comm x a, gmul_comm y a) (gmul-bit_xor x y hx hy a ha),
)
