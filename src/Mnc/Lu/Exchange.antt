-- ===== src/Mnc/Lu/Exchange.antt =====
-- mnc_rx.c, `lu_fac`: exchanging two rows keeps the factorisation.
use mac.Base.{
  ℕ, ◌-◌, ◌+◌, ◌<◌, ◌≡◌, refl, sym, ◌∙◌, inl, inr, arith, ◌==◌, ltb, leb, ◌&&◌, if◌then◌else◌,
  Bool-cases, Matrix, ==→eq,
}
use mac.Gf.{gmul}
use mac.Gf.Laws.{zero-gmul}
use mac.Gf.Sum.{xsum_congr}
use mac.Mnc.Lu.{Lu, swap_rows, swap_pivot}
use mac.Mnc.Lu.Loops.{swap_cells_loop}
use mac.Mnc.Lu.Invariant.{low, taken, Core, Rows}

-- Row `r` comes from this row.
abbrev source_row : ℕ → ℕ → ℕ → ℕ
source_row j change r = if r == j then change else if r == change then j else r

module _ {n j i change : ℕ} {a : Matrix} {s : Lu} (v : Rows n a j i s) (below : j < change)
    (inside : change < n) (zero_pivot : s.u j j ≡ 0) where
  from : ℕ → ℕ
  from r = source_row j change r

  swapped : Lu
  unfolding swap_rows
  swapped = swap_rows n j change s

  from-lt : (r : ℕ) → r < n → from r < n
  unfolding from
  from-lt r h = ground arith

  from_inj : (r q : ℕ) → from r ≡ from q → r ≡ q
  unfolding from
  from_inj r q e = ground arith

  swapped_arr : (r c : ℕ) → c < n → swapped.arr r c ≡ s.arr (from r) c
  unfolding swapped from
  swapped_arr r c h = ground (arith, swap_cells_loop j change n 0 s.arr r c)

  -- In the columns left of `j` both rows are zero.
  swapped_u : (r c : ℕ) → r < n → c < n → swapped.u r c ≡ s.u (from r) c
  unfolding swapped from
  swapped_u r c hr hc =
      ground
        (arith, swap_cells_loop j change (n - j) j s.u r c, v.core.upper j c, v.core.upper change c)

  swapped_u_cells :
      (r c : ℕ)
      → swapped.u r c ≡ (
          if leb j c && ltb c (j + (n - j))
          then (if r == change then s.u j c else if r == j then s.u change c else s.u r c)
          else s.u r c)
  unfolding swapped
  swapped_u_cells r c = swap_cells_loop j change (n - j) j s.u r c

  swapped_l : (r k : ℕ) → swapped.l r k ≡ (if ltb k j then s.l (from r) k else s.l r k)
  unfolding swapped from
  swapped_l r k = ground (arith, swap_cells_loop j change j 0 s.l r k)

  swapped_pivot : (r : ℕ) → swapped.pivot r ≡ s.pivot (from r)
  unfolding swapped from swap_pivot
  swapped_pivot r = ground arith

  swapped_low : (r k : ℕ) → r < n → low swapped.l r k ≡ low s.l (from r) k
  unfolding from
  swapped_low r k h = ground (
    arith,
    swapped_l r k,
    v.stuck zero_pivot j,
    v.stuck zero_pivot change,
    v.stuck zero_pivot r,
    v.fresh change k,
    v.fresh r k,
  )

  -- The exchanged rows of `U` are multiplied by zeros only.
  exchanged_zero : (r : ℕ) → r < n → (low s.l r j ≡ 0) × (low s.l r change ≡ 0)
  exchanged_zero r h = ground (arith, v.stuck zero_pivot r, v.fresh r change)

  swapped_term :
      (r c k : ℕ)
      → r < n
      → c < n
      → k < n
      → gmul (low swapped.l r k) (swapped.u k c) ≡ gmul (low s.l (from r) k) (s.u k c)
  swapped_term r c k hr hc hk =
      rw (swapped_low r k hr, swapped_u k c hk hc)
        (elim (Bool-cases (k == j)) [
          | inl e ↦
              rw (==→eq k j e, (exchanged_zero (from r) (from-lt r hr)).0)
                (zero-gmul (s.u (from j) c) ∙ sym (zero-gmul (s.u j c)))
          | inr e ↦ elim (Bool-cases (k == change)) [
            | inl f ↦
                rw (==→eq k change f, (exchanged_zero (from r) (from-lt r hr)).1)
                  (zero-gmul (s.u (from change) c) ∙ sym (zero-gmul (s.u change c)))
            | inr f ↦ let same : from k ≡ k = unfold from in ground arith in rw same refl
          ]
        ])

  swapped_taken :
      (r c : ℕ) → r < n → c < n → taken n swapped.l swapped.u r c ≡ taken n s.l s.u (from r) c
  swapped_taken r c hr hc = xsum_congr n _ _ (λ k hk. swapped_term r c k hr hc hk)

  swapped-Core : Core n a j swapped
  unfolding from
  swapped-Core = record {
    arr_rows = λ r c hr hc.
        rw (swapped_arr r c hc, swapped_pivot r) (v.core.arr_rows (from r) c (from-lt r hr) hc);
    rows = λ r c hr hc.
        rw (swapped_u r c hr hc, swapped_pivot r, swapped_taken r c hr hc)
          (v.core.rows (from r) c (from-lt r hr) hc);
    u_bytes = λ r c. ground (
      arith,
      swapped_u_cells r c,
      v.core.u_bytes r c,
      v.core.u_bytes j c,
      v.core.u_bytes change c,
    );
    l_bytes = λ r k. ground (arith, swapped_l r k, v.core.l_bytes r k, v.core.l_bytes (from r) k);
    upper = λ r c h p q. ground (arith, swapped_u_cells r c, v.core.upper r c);
    above = λ r k h p. ground (arith, swapped_l r k, v.core.above r k);
    pivot_lt = λ r h. rw (swapped_pivot r) (v.core.pivot_lt (from r) (from-lt r h));
    pivot_inj = λ r q hr hq e. from_inj r q (
        v.core.pivot_inj (from r) (from q) (from-lt r hr) (from-lt q hq)
          (sym (swapped_pivot r) ∙ e ∙ swapped_pivot q));
  }

  pub swap_rows-Rows : Rows n a j i (swap_rows n j change s)
  unfolding swapped from
  swap_rows-Rows = record {
    core = swapped-Core;
    diagonal = λ r h. ground (arith, swapped_l r r, v.diagonal r);
    fresh = λ r k h p q. ground (arith, swapped_l r k, v.fresh r k);
    fresh_rows = λ r h p. ground (arith, swapped_l r j, v.fresh_rows r);
    cleared = λ r h p q. ground (arith, swapped_u r j h, v.cleared r);
    stuck = λ z r h p. ground (arith, swapped_l r j, v.stuck zero_pivot r);
  }

  pub swap_rows-pivot : (swap_rows n j change s).u j j ≡ s.u change j
  unfolding swapped from
  swap_rows-pivot = ground (arith, swapped_u j j)
