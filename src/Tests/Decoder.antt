-- ===== src/Tests/Decoder.antt =====
-- mnc_rx.c on two packets with blocks of one byte; the first coefficient is zero, so rows are exchanged.
use mac.Base.{
  ℕ, zero, suc, ◌+◌, ◌*◌, ◌-◌, ◌/◌, ◌%◌, ◌<◌, ◌≡◌, ◌≢◌, refl, arith, false, Matrix, for_range,
  if◌then◌else◌,
}
use mac.Gf.{gmul, gdiv, gsub, gmul_inverse, log, antilog}
use mac.Gf.Sum.{xsum, xsum_congr}
use mac.Mnc.Lu.{
  Lu, lu_fac, lu_init, column_step, row_step, eliminate, swap_rows, swap_cells, swap_pivot,
  find_change, clear_cell,
}
use mac.Mnc.Lu.Factor.{IsStart, IsFactorisation, lu_fac-IsFactorisation}
use mac.Mnc.Substitute.{Vector, Work, skb_substi}
use mac.Mnc.Substitute.Recover.{IsCoded, skb_substi-recovers}

abbrev coefficients : Matrix
coefficients zero zero = 0
coefficients zero (suc c) = 2
coefficients (suc r) zero = 3
coefficients (suc r) (suc c) = 5

abbrev start : Lu
start = record { arr = coefficients; u = λ r c. 0; l = λ r c. 0; pivot = λ r. r }

start-IsStart : (n : ℕ) → IsStart n start
start-IsStart n = record {
  arr_bytes = bytes;
  u_bytes = λ r c. omega arith;
  l_bytes = λ r c. omega arith;
  pivot_start = λ r h. refl;
}
  where
    bytes : (r c : ℕ) → coefficients r c < 256
    bytes zero zero = omega arith
    bytes zero (suc c) = omega arith
    bytes (suc r) zero = omega arith
    bytes (suc r) (suc c) = omega arith

lu_fac-IsFactorisation_example : IsFactorisation 2 coefficients (lu_fac 2 2 start)
lu_fac-IsFactorisation_example = lu_fac-IsFactorisation 2 start (start-IsStart 2)

exchanged :
    let f = lu_fac 2 2 start in (f.u 0 0 ≡ 3) × (f.u 1 1 ≡ 2) × (f.pivot 0 ≡ 1) × (f.arr 1 1 ≡ 2)
unfolding lu_fac lu_init column_step row_step eliminate swap_rows swap_cells swap_pivot find_change
    clear_cell for_range gmul gdiv gsub gmul_inverse log antilog
exchanged = (refl, refl, refl, refl)

start-regular : (r : ℕ) → r < 2 * 1 → (lu_fac (2 * 1) (2 * 1) start).u r r ≢ 0
start-regular zero h = λ e. omega (arith, exchanged.0, e)
start-regular (suc zero) h = λ e. omega (arith, exchanged.1, e)
start-regular (suc (suc r)) h = absurd (omega arith)

abbrev original : ℕ → Vector
original j o = (17 * j + o + 3) % 256

abbrev received : ℕ → Vector
received j o = xsum 2 (λ c. gmul (coefficients j c) (original c (o - 5)))

received-IsCoded : IsCoded 2 1 4 coefficients received (λ j. if false then 3 else 5) original
received-IsCoded = record {
  original_bytes = λ r c. omega arith;
  combined = λ q r hq hr.
      let row : r / 1 ≡ r = omega arith in
      let off : 5 + q * 1 + r % 1 - 5 ≡ q = omega arith in
      rw (row, off)
        (xsum_congr 2 _ (λ c. gmul (coefficients r c) (original (c / 1) (q * 1 + c % 1)))
          λ c hc.
            let e : c / 1 ≡ c = omega arith in
            let o : q * 1 + c % 1 ≡ q = omega arith in rw (e, o));
}

abbrev idle : Work
idle = record { b = λ r. 0; t = λ r. 0; y = λ r. 0; x = λ r. 0; newskb = λ j o. 0 }

skb_substi-recovers_example :
    let f = lu_fac (2 * 1) (2 * 1) start in
    (skb_substi (2 * 1) 2 1 f.u f.l f.pivot received 4 5 (λ j. false) idle).newskb 1 3 ≡ 23
skb_substi-recovers_example =
    skb_substi-recovers 2 1 4 5 start received original (λ j. false) idle (omega arith)
      (start-IsStart 2) start-regular received-IsCoded 1 3 (omega arith) (omega arith)
