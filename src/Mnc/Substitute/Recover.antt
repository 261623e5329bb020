-- ===== src/Mnc/Substitute/Recover.antt =====
-- mnc_rx.c, `lu_fac` and `skb_substi` together: coded packets give the original packets back.
use mac.Base.{
  ℕ, suc, ◌-◌, ◌+◌, ◌*◌, ◌/◌, ◌%◌, ◌≤◌, ◌<◌, ◌≡◌, ◌≢◌, sym, ap, ◌∙◌, arith, if◌then◌else◌, Bool,
  for_range_inv, Matrix,
}
use native.Mathlib.Nat.{div-add-mod', mod-lt}
use mac.Gf.{gmul, IsByte}
use mac.Gf.Laws.{gmul_comm, gmul_assoc, gmul-IsByte}
use mac.Gf.Sum.{xsum, xsum_congr, xsum_swap, xsum-IsByte, gmul-xsum}
use mac.Mnc.Lu.{Lu, lu_fac}
use mac.Mnc.Lu.Invariant.{AllBytes}
use mac.Mnc.Lu.Factor.{IsStart, IsFactorisation, lu_fac-IsFactorisation}
use mac.Mnc.Substitute.{Vector, Work, block_step, skb_substi, fill_block, permute}
use mac.Mnc.Substitute.Cells.{
  fill_block_cells, permute_cells, write_block_cells, quotient_of_bounds, bounds_of_quotient,
}
use mac.Mnc.Substitute.Solve.{forward-Solved, backward-Solved}

-- Row `r` of the product of a matrix of bytes and a vector of bytes.
abbrev pub row_times : ℕ → Matrix → Vector → ℕ → ℕ
row_times n m x r = xsum n (λ c. gmul (m r c) (x c))

module _ (n : ℕ) (l u : Matrix) (x : Vector) (l_bytes : AllBytes l) (u_bytes : AllBytes u)
    (x_bytes : (c : ℕ) → IsByte (x c)) where
  -- The product of two matrices acts as one after the other.
  product_times :
      (r : ℕ)
      → xsum n (λ c. gmul (xsum n (λ k. gmul (l r k) (u k c))) (x c))
        ≡ row_times n l (row_times n u x) r
  product_times r =
      xsum_congr n _ (λ c. xsum n (λ k. gmul (l r k) (gmul (u k c) (x c)))) (λ c h. inner c)
      ∙ xsum_swap n n (λ c k. gmul (l r k) (gmul (u k c) (x c)))
      ∙ xsum_congr n _ _ (λ k h. sym (
          gmul-xsum (l r k) n (λ c. gmul (u k c) (x c)) (l_bytes r k)
            (λ c q. gmul-IsByte (u k c) (x c))))
    where
      inner :
          (c : ℕ)
          → gmul (xsum n (λ k. gmul (l r k) (u k c))) (x c)
            ≡ xsum n (λ k. gmul (l r k) (gmul (u k c) (x c)))
      inner c =
          gmul_comm _ (x c)
          ∙ gmul-xsum (x c) n (λ k. gmul (l r k) (u k c)) (x_bytes c)
              (λ k q. gmul-IsByte (l r k) (u k c))
          ∙ xsum_congr n _ _
              (λ k q. gmul_comm (x c) (gmul (l r k) (u k c)) ∙ gmul_assoc (l r k) (u k c) (x c))

-- What the sender and the channel provide: `k` packets of which the received ones are combinations.
pub record IsCoded (k p len : ℕ) (a : Matrix) (skb : ℕ → Vector) (start : ℕ → ℕ)
    (original : ℕ → Vector) : Type 0 where
  pub original_bytes : AllBytes original
  pub combined :
      (q r : ℕ)
      → q * p < len
      → r < k * p
      → skb (r / p) (start (r / p) + q * p + r % p)
        ≡ xsum (k * p) (λ c. gmul (a r c) (original (c / p) (q * p + c % p)))

module _ {k p len : ℕ} {a : Matrix} {f : Lu} {skb : ℕ → Vector} {start : ℕ → ℕ}
    {original : ℕ → Vector} (pos : 0 < p) (fact : IsFactorisation (k * p) a f)
    (regular : (r : ℕ) → r < k * p → f.u r r ≢ 0)
    (coded : IsCoded k p len a skb start original) where
  abbrev block : ℕ → Vector
  block q c = original (c / p) (q * p + c % p)

  block_bytes : (q c : ℕ) → IsByte (block q c)
  block_bytes q c = coded.original_bytes (c / p) (q * p + c % p)

  -- The permuted right-hand side is what the lower factor makes of the upper factor's image.
  permuted_rows :
      (q : ℕ) (t b : Vector) (r : ℕ)
      → q * p < len
      → r < k * p
      → permute (k * p) f.pivot (fill_block k p skb start (q * p) t) b r
        ≡ row_times (k * p) f.l (row_times (k * p) f.u (block q)) r
  permuted_rows q t b r hq hr =
      permute_cells (k * p) f.pivot _ b r hr
      ∙ fill_block_cells k p skb start (q * p) t (f.pivot r) pos (fact.pivot_lt r hr)
      ∙ coded.combined q (f.pivot r) hq (fact.pivot_lt r hr)
      ∙ xsum_congr (k * p) _ _ (λ c hc. ap (λ s. gmul s (block q c)) (fact.product r c hr hc))
      ∙ product_times (k * p) f.l f.u (block q) fact.bytes.1 fact.bytes.0 (block_bytes q) r

  solved_block :
      (q : ℕ) (w : Work) (r : ℕ)
      → q * p < len
      → r < k * p
      → (block_step (k * p) k p f.u f.l f.pivot skb start (q * p) w).x r ≡ block q r
  unfolding block_step
  solved_block q w r hq hr =
      backward-Solved (k * p) f.u _ (block q) fact.upper regular fact.bytes.0
        (λ r h. block_bytes q r)
        (λ r h.
          forward-Solved (k * p) f.l _ (row_times (k * p) f.u (block q)) fact.unit fact.lower
            (λ r h. xsum-IsByte (k * p) _ (λ c h. gmul-IsByte (f.u r c) (block q c)))
            (λ r h. permuted_rows q w.t _ r hq h) w.y r h)
        w.x r hr

  abbrev Recovered : ℕ → Work → Type 0
  Recovered q w = (j o : ℕ) → j < k → o < q * p → w.newskb j o ≡ original j o

  new_cell :
      (q : ℕ) (w : Work) (j o : ℕ)
      → q * p < len
      → j < k
      → q * p ≤ o
      → o < q * p + p
      → (block_step (k * p) k p f.u f.l f.pivot skb start (q * p) w).x (j * p + (o - q * p))
        ≡ original j o
  new_cell q w j o hq hj low high =
      let inside : j * p + (o - q * p) < k * p = grind arith in
      let row : (j * p + (o - q * p)) / p ≡ j =
        quotient_of_bounds j p (j * p + (o - q * p)) (omega arith) (omega arith) in
      let rest : q * p + (j * p + (o - q * p)) % p ≡ o =
        omega (arith, bounds_of_quotient p (j * p + (o - q * p)) pos, ap (λ t. t * p) row) in
      solved_block q w (j * p + (o - q * p)) hq inside ∙ rw (row, rest)

  block_step-Recovered :
      (q : ℕ) (w : Work)
      → q * p < len
      → Recovered q w
      → Recovered (suc q) (block_step (k * p) k p f.u f.l f.pivot skb start (q * p) w)
  block_step-Recovered q w hq rec j o hj ho =
      let x = (block_step (k * p) k p f.u f.l f.pivot skb start (q * p) w).x in
      let cells = write_block_cells k p x (q * p) w.newskb j o hj in
      let next : suc q * p ≡ q * p + p = omega arith in
      unfold block_step in ground (arith, cells, next, rec j o hj, new_cell q w j o hq hj)

pub rounds_enough : (len p : ℕ) → 0 < p → len ≤ (len + p - 1) / p * p
rounds_enough len p h = omega (arith, div-add-mod' (len + p - 1) p, mod-lt (len + p - 1) h)

rounds_needed : (len p q : ℕ) → 0 < p → q < (len + p - 1) / p → q * p < len
rounds_needed len p q h lt =
    let le : suc q * p ≤ (len + p - 1) / p * p = grind arith in
    omega (arith, le, div-add-mod' (len + p - 1) p)

-- Let `skb` hold `k` received packets, each a combination of `k` original ones with the coefficients in
-- `s.arr`, and let `lu_fac` find no zero on the diagonal of `U`. Then `skb_substi`, from the arrays of
-- `lu_fac`, writes the original bytes below `len` into each of the `k` new packets.
pub skb_substi-recovers :
    (k p len mncheadsize : ℕ) (s : Lu) (skb original : ℕ → Vector) (is_sys : ℕ → Bool) (w : Work)
    → 0 < p
    → IsStart (k * p) s
    → ((r : ℕ) → r < k * p → (lu_fac (k * p) (k * p) s).u r r ≢ 0)
    → IsCoded k p len s.arr skb (λ j. if is_sys j then 3 else mncheadsize) original
    → (j o : ℕ) → j < k
    → o < len
    → let f = lu_fac (k * p) (k * p) s in
      (skb_substi (k * p) k p f.u f.l f.pivot skb len mncheadsize is_sys w).newskb j o
      ≡ original j o
unfolding skb_substi
skb_substi-recovers k p len mncheadsize s skb original is_sys w pos start regular coded j o hj ho =
    let fact = lu_fac-IsFactorisation (k * p) s start in
    for_range_inv (λ q w. Recovered pos fact regular coded q w)
      (λ q.
        block_step (k * p) k p (lu_fac (k * p) (k * p) s).u (lu_fac (k * p) (k * p) s).l
          (lu_fac (k * p) (k * p) s).pivot skb (λ j. if is_sys j then 3 else mncheadsize) (q * p))
      0 ((len + p - 1) / p)
      (λ q w a b rec.
        block_step-Recovered pos fact regular coded q w (rounds_needed len p q pos b) rec)
      ((len + p - 1) / p) 0 w (omega arith) (omega arith) (λ j o a b. absurd (omega arith)) j o hj
      (omega (arith, rounds_enough len p pos))
