-- ===== src/Mnc/Lu/Eliminate.antt =====
-- mnc_rx.c, `lu_fac`: clearing row `i` in column `j` keeps the factorisation.
use mac.Base.{
  ℕ, suc, ◌-◌, ◌+◌, ◌<◌, bit_xor, ◌≡◌, ◌≢◌, refl, sym, ap, ◌∙◌, inl, inr, arith, ◌==◌, ltb, leb,
  ◌&&◌, if◌then◌else◌, Bool-cases, Matrix, put, for_range, bit_xor-lt, bit_xor-zero, zero-bit_xor,
  ==→eq, bit_xor_self,
}
use mathlib.Core.Path.{fun_ext}
use mac.Gf.{gmul, gmul_inverse, gsub, gdiv, IsByte}
use mac.Gf.Laws.{zero-gmul, gmul-zero, gmul_comm, gmul-IsByte, gmul-gdiv}
use mac.Gf.Linear.{bit_xor_swap}
use mac.Gf.Sum.{xsum_congr, xsum_change}
use mac.Mnc.Lu.{Lu, eliminate, clear_cell}
use mac.Mnc.Lu.Loops.{clear_cell_loop}
use mac.Mnc.Lu.Invariant.{low, taken, AllBytes, Core, Rows}

pub gdiv-IsByte : (a b : ℕ) → IsByte (gdiv a b)
unfolding gdiv
gdiv-IsByte a b = ground (arith, gmul-IsByte a (gmul_inverse b))

xor_both : (a b g : ℕ) → bit_xor (bit_xor a g) (bit_xor b g) ≡ bit_xor a b
xor_both a b g =
    bit_xor_swap a g b g ∙ ap (bit_xor (bit_xor a b)) (bit_xor_self g) ∙ bit_xor-zero (bit_xor a b)

module _ {n j i : ℕ} {a : Matrix} {s : Lu} (v : Rows n a j i s) (below : j < i) (inside : i < n)
    (pivot_ne : s.u j j ≢ 0) where
  factor : ℕ
  factor = gdiv (s.u i j) (s.u j j)

  factor_lem : gmul factor (s.u j j) ≡ s.u i j
  unfolding factor
  factor_lem =
      ((gmul-gdiv (s.u i j) (s.u j j) (v.core.u_bytes i j) (v.core.u_bytes j j)).0 pivot_ne).0

  cleared_u : Matrix
  cleared_u r c =
      if r == i && (leb j c && ltb c n) then gsub (s.u i c) (gmul (s.u j c) factor) else s.u r c

  new_l : Matrix
  unfolding factor
  new_l = put s.l i j factor

  after : Lu
  unfolding factor cleared_u new_l
  after = record s { l = new_l; u = cleared_u }

  zero_factor : (r c : ℕ) → factor ≡ 0 → s.u r c ≡ cleared_u r c
  unfolding cleared_u gsub
  zero_factor r c z = ground (
    arith,
    z,
    ap (gmul (s.u j c)) z,
    gmul-zero (s.u j c),
    bit_xor-zero (s.u i c),
    ap (bit_xor (s.u i c)) (ap (gmul (s.u j c)) z ∙ gmul-zero (s.u j c)),
  )

  loop_u : (r c : ℕ) → for_range (n - j) j (clear_cell i j factor) s.u r c ≡ cleared_u r c
  unfolding cleared_u
  loop_u r c =
      let e : j + (n - j) ≡ n = omega arith in
      clear_cell_loop i j factor (n - j) j s.u r c (omega arith) ∙ rw e refl

  -- What the source writes, with the loop in closed form; without the early `continue` too.
  eliminate_lem : eliminate n j i s ≡ after
  unfolding eliminate after factor new_l
  eliminate_lem = elim (Bool-cases (factor == 0)) [
    | inl z ↦
        rw z
          (λ t. record after { u = fun_ext (λ r. fun_ext (λ c. zero_factor r c (==→eq _ _ z))) t })
    | inr nz ↦ rw nz (λ t. record after { u = fun_ext (λ r. fun_ext (loop_u r)) t })
  ]

  bytes_u : AllBytes cleared_u
  unfolding cleared_u gsub
  bytes_u r c = ground (
    arith,
    v.core.u_bytes r c,
    v.core.u_bytes i c,
    bit_xor-lt 8 (s.u i c) (gmul (s.u j c) factor) (v.core.u_bytes i c) (gmul-IsByte _ _),
  )

  bytes_l : AllBytes new_l
  unfolding new_l factor
  bytes_l r c = ground (arith, v.core.l_bytes r c, gdiv-IsByte (s.u i j) (s.u j j))

  -- Column `i` of `L` is still empty below its diagonal.
  low_empty : (r : ℕ) → r < n → (low s.l r i ≡ 0) × (low new_l r i ≡ 0)
  unfolding new_l
  low_empty r h = ground (arith, v.fresh r i)

  term_other :
      (r c k : ℕ)
      → r < n
      → r ≢ i
      → gmul (low new_l r k) (cleared_u k c) ≡ gmul (low s.l r k) (s.u k c)
  term_other r c k h ne = elim (Bool-cases (k == i)) [
    | inl e ↦ rw (
      ==→eq k i e,
      (low_empty r h).0,
      (low_empty r h).1,
      zero-gmul (cleared_u i c),
      zero-gmul (s.u i c),
    )
    | inr e ↦
        let p : cleared_u k c ≡ s.u k c = unfold cleared_u in ground arith in
        let q : low new_l r k ≡ low s.l r k = unfold new_l in ground arith in rw (p, q)
  ]

  term_self :
      (c k : ℕ) → k ≢ j → gmul (low new_l i k) (cleared_u k c) ≡ gmul (low s.l i k) (s.u k c)
  term_self c k ne = elim (Bool-cases (ltb k i)) [
    | inl e ↦
        let p : cleared_u k c ≡ s.u k c = unfold cleared_u in ground arith in
        let q : low new_l i k ≡ low s.l i k = unfold new_l in ground arith in rw (p, q)
    | inr e ↦ rw (e, zero-gmul (cleared_u k c), zero-gmul (s.u k c))
  ]

  taken_self :
      (c : ℕ) → taken n new_l cleared_u i c ≡ bit_xor (taken n s.l s.u i c) (gmul factor (s.u j c))
  taken_self c =
      let was : low s.l i j ≡ 0 = ground (arith, v.fresh_rows i) in
      let p : cleared_u j c ≡ s.u j c = unfold cleared_u in ground arith in
      let q : low new_l i j ≡ factor = unfold new_l in ground arith in
      xsum_change n j (λ k. gmul (low s.l i k) (s.u k c))
        (λ k. gmul (low new_l i k) (cleared_u k c)) (omega arith) (rw (was, zero-gmul (s.u j c)))
        (λ k h ne. term_self c k ne)
      ∙ rw (p, q)

  cleared_self : (c : ℕ) → c < n → cleared_u i c ≡ bit_xor (s.u i c) (gmul factor (s.u j c))
  unfolding cleared_u gsub
  cleared_self c h = elim (Bool-cases (leb j c)) [
    | inl e ↦ ground (arith, ap (bit_xor (s.u i c)) (gmul_comm (s.u j c) factor))
    | inr e ↦
        let p : s.u i c ≡ 0 = v.core.upper i c inside (ground arith) (ground arith) in
        let q : s.u j c ≡ 0 = v.core.upper j c (omega arith) (ground arith) (ground arith) in
        ground (
          arith,
          p,
          zero-bit_xor 0,
          ap (bit_xor (s.u i c)) (ap (gmul factor) q ∙ gmul-zero factor),
          ap (λ t. bit_xor t 0) p,
        )
  ]

  row_kept :
      (r c : ℕ)
      → r < n
      → c < n
      → a (s.pivot r) c ≡ bit_xor (cleared_u r c) (taken n new_l cleared_u r c)
  row_kept r c hr hc = elim (Bool-cases (r == i)) [
    | inl e ↦
        rw (==→eq r i e, cleared_self c hc, taken_self c)
          (v.core.rows i c inside hc ∙ sym (xor_both _ _ (gmul factor (s.u j c))))
    | inr e ↦
        let ne : r ≢ i = ground arith in
        let p : cleared_u r c ≡ s.u r c = unfold cleared_u in ground arith in
        rw (p, xsum_congr n _ _ (λ k h. term_other r c k hr ne)) (v.core.rows r c hr hc)
  ]

  diagonal_cleared : cleared_u i j ≡ 0
  unfolding cleared_u gsub
  diagonal_cleared = ground (
    arith,
    ap (bit_xor (s.u i j)) (gmul_comm (s.u j j) factor ∙ factor_lem) ∙ bit_xor_self (s.u i j),
  )

  after-Core : Core n a j after
  unfolding after cleared_u new_l
  after-Core = record {
    arr_rows = v.core.arr_rows;
    rows = row_kept;
    u_bytes = bytes_u;
    l_bytes = bytes_l;
    upper = λ r c h p q. ground (arith, v.core.upper r c);
    above = λ r k h p. ground (arith, v.core.above r k);
    pivot_lt = v.core.pivot_lt;
    pivot_inj = v.core.pivot_inj;
  }

  after-Rows : Rows n a j (suc i) after
  unfolding after cleared_u new_l
  after-Rows = record {
    core = after-Core;
    diagonal = λ r h. ground (arith, v.diagonal r);
    fresh = λ r k h p q. ground (arith, v.fresh r k);
    fresh_rows = λ r h p. ground (arith, v.fresh_rows r);
    cleared = λ r h p q. ground (arith, v.cleared r, diagonal_cleared);
    stuck = λ z. absurd (ground arith);
  }

  pub eliminate-Rows : Rows n a j (suc i) (eliminate n j i s)
  eliminate-Rows = rw eliminate_lem after-Rows
