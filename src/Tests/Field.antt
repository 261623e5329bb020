-- ===== src/Tests/Field.antt =====
-- gf.c at single bytes.
use mac.Base.{ℕ, ◌≡◌, ◌≢◌, refl, arith}
use mac.Gf.{gmul, gmul_inverse, gdiv, gadd, gsub, log, antilog}
use mac.Gf.Laws.{gmul_assoc, gmul-gdiv}
use mac.Gf.Linear.{gmul-gadd}
use mac.Gf.Polynomial.{poly_mul, gmul-eq-poly_mul}

product_of_bytes : (gmul 0x53 0xca ≡ 1) × (gdiv 1 0x53 ≡ 0xca) × (gdiv 9 0 ≡ 0)
unfolding gmul gdiv gmul_inverse log antilog
product_of_bytes = (refl, refl, refl)

gmul_assoc_example : gmul (gmul 3 7) 0xe5 ≡ gmul 3 (gmul 7 0xe5)
gmul_assoc_example = gmul_assoc 3 7 0xe5

gmul-gdiv_example :
    (◌≢◌ {A = ℕ} 5 0 → (gmul (gdiv 9 5) 5 ≡ 9) × (gdiv (gmul 9 5) 5 ≡ 9)) × (gdiv 9 0 ≡ 0)
gmul-gdiv_example = gmul-gdiv 9 5 (omega arith) (omega arith)

gmul-gadd_example :
    (gmul 0x57 (gadd 0x83 0x1a) ≡ gadd (gmul 0x57 0x83) (gmul 0x57 0x1a))
    × (gmul (gsub 0x83 0x1a) 0x57 ≡ gsub (gmul 0x83 0x57) (gmul 0x1a 0x57))
gmul-gadd_example = gmul-gadd 0x57 0x83 0x1a (omega arith) (omega arith) (omega arith)

gmul-eq-poly_mul_example : gmul 0x57 0x83 ≡ poly_mul 8 0x57 0x83
gmul-eq-poly_mul_example = gmul-eq-poly_mul 0x57 0x83 (omega arith) (omega arith)
