-- ===== src/Mnc/Lu/Factor.antt =====
-- mnc_rx.c, `lu_fac`: the loops together, and the factorisation that they leave.
use mac.Base.{
  ℕ, suc, ◌-◌, ◌<◌, bit_xor, ◌≡◌, ◌≢◌, sym, ap, ◌∙◌, inl, inr, arith, false, ◌==◌, ltb, ◌&&◌,
  if◌then◌else◌, Bool-cases, Matrix, put, for_range_inv, ==→eq, bit_xor-zero, bit_xor_comm,
}
use mac.Gf.{gmul}
use mac.Gf.Laws.{zero-gmul, one-gmul}
use mac.Gf.Sum.{xsum, xsum_congr, xsum-zero, xsum_change}
use mac.Mnc.Lu.{Lu, find_change, row_step, column_step, lu_init, lu_fac}
use mac.Mnc.Lu.Loops.{find_change_lem, find_change_none, fill_loop}
use mac.Mnc.Lu.Invariant.{low, taken, AllBytes, Rows, Columns}
use mac.Mnc.Lu.Eliminate.{eliminate-Rows}
use mac.Mnc.Lu.Exchange.{swap_rows-Rows, swap_rows-pivot}

module _ {n j i : ℕ} {a : Matrix} {s : Lu} (v : Rows n a j i s) (below : j < i)
    (inside : i < n) where
  -- A column of zeros: the row is passed over.
  skip-Rows : ((r : ℕ) → r < n → j < r → s.u r j ≡ 0) → Rows n a j (suc i) s
  skip-Rows zeros = record {
    core = v.core;
    diagonal = v.diagonal;
    fresh = v.fresh;
    fresh_rows = λ r h p. v.fresh_rows r h (omega arith);
    cleared = λ r h p q. zeros r h p;
    stuck = v.stuck;
  }

  row_step-Rows : Rows n a j (suc i) (row_step n j i s)
  unfolding row_step
  row_step-Rows = elim (Bool-cases (s.u j j == 0)) [
    | inr e ↦ rw e (eliminate-Rows v below inside (ground arith))
    | inl e ↦ elim (Bool-cases (find_change (n - suc j) (suc j) s.u j == n)) [
      | inl f ↦
          rw (e, f)
            (skip-Rows λ r h p.
              find_change_none (n - suc j) (suc j) s.u j n r (omega arith) (==→eq _ _ f) p h)
      | inr f ↦
          let found = find_change_lem (n - suc j) (suc j) s.u j n (omega arith) in
          let low_end : j < find_change (n - suc j) (suc j) s.u j = found.0 in
          let high_end : find_change (n - suc j) (suc j) s.u j < n = ground arith in
          let z : s.u j j ≡ 0 = ==→eq _ _ e in
          rw (e, f)
            (eliminate-Rows (swap_rows-Rows v low_end high_end z) below inside
              (rw (swap_rows-pivot v low_end high_end z) (found.2 high_end)))
    ]
  ]

module _ {n : ℕ} {a : Matrix} where
  -- Setting the diagonal of `L` opens a column.
  open_column :
      {j : ℕ} {s : Lu}
      → Columns n a j s
      → j < n
      → Rows n a j (suc j) (record s { l = put s.l j j 1 })
  open_column {j} {s} v h = record {
    core = record {
      arr_rows = v.core.arr_rows;
      rows = λ r c hr hc.
          rw
            (xsum_congr n (λ k. gmul (low (put s.l j j 1) r k) (s.u k c))
              (λ k. gmul (low s.l r k) (s.u k c))
              (λ k p. ap (λ t. gmul t (s.u k c)) (same_low r k)))
            (v.core.rows r c hr hc);
      u_bytes = v.core.u_bytes;
      l_bytes = λ r c. ground (arith, v.core.l_bytes r c);
      upper = v.core.upper;
      above = λ r k p q. ground (arith, v.core.above r k);
      pivot_lt = v.core.pivot_lt;
      pivot_inj = v.core.pivot_inj;
    };
    diagonal = λ r p. ground (arith, v.diagonal r);
    fresh = λ r k p q t. ground (arith, v.fresh r k);
    fresh_rows = λ r p q. ground (arith, v.fresh r j);
    cleared = λ r p q t. absurd (omega arith);
    stuck = λ z r p q. ground (arith, v.fresh r j);
  }
    where
      same_low : (r k : ℕ) → low (put s.l j j 1) r k ≡ low s.l r k
      same_low r k = ground arith

  -- After the last row the column is clear.
  close_column : {j : ℕ} {s : Lu} → Rows n a j n s → Columns n a (suc j) s
  close_column {j} {s} v = record {
    core = record {
      arr_rows = v.core.arr_rows;
      rows = v.core.rows;
      u_bytes = v.core.u_bytes;
      l_bytes = v.core.l_bytes;
      upper = λ r c hr p q. elim (Bool-cases (c == j)) [
        | inl e ↦ rw (==→eq c j e) (v.cleared r hr (ground arith) hr)
        | inr e ↦ v.core.upper r c hr (ground arith) q
      ];
      above = v.core.above;
      pivot_lt = v.core.pivot_lt;
      pivot_inj = v.core.pivot_inj;
    };
    diagonal = v.diagonal;
    fresh = λ r k hr p q. v.fresh r k hr p q;
  }

  column_step-Columns :
      {j : ℕ} {s : Lu} → Columns n a j s → j < n → Columns n a (suc j) (column_step n j s)
  unfolding column_step
  column_step-Columns {j} {s} v h = close_column (
      for_range_inv (λ i t. Rows n a j i t) (row_step n j) (suc j) n
        (λ i t p q w. row_step-Rows w p q) (n - suc j) (suc j) _ (omega arith) (omega arith)
        (open_column v h))

-- What `lu_fac` is called with: bytes, and the rows in their own order.
pub record IsStart (n : ℕ) (s : Lu) : Type 0 where
  pub arr_bytes : AllBytes s.arr
  pub u_bytes : AllBytes s.u
  pub l_bytes : AllBytes s.l
  pub pivot_start : (r : ℕ) → r < n → s.pivot r ≡ r

module _ {n : ℕ} {s : Lu} (v : IsStart n s) where
  init_u : (r c : ℕ) → (lu_init n n s).u r c ≡ (if ltb r n && ltb c n then s.arr r c else s.u r c)
  unfolding lu_init
  init_u r c = ground (arith, fill_loop (λ i j. if ltb i n then s.arr i j else 0) n n 0 s.u r c)

  init_l : (r c : ℕ) → (lu_init n n s).l r c ≡ (if ltb r n && ltb c n then 0 else s.l r c)
  unfolding lu_init
  init_l r c = ground (arith, fill_loop (λ i j. 0) n n 0 s.l r c)

  init_zero : (r k : ℕ) → r < n → k < n → (lu_init n n s).l r k ≡ 0
  init_zero r k hr hk = ground (arith, init_l r k)

  init_taken : (r c : ℕ) → r < n → taken n (lu_init n n s).l (lu_init n n s).u r c ≡ 0
  init_taken r c hr = xsum-zero n _ λ k hk.
      let z : low (lu_init n n s).l r k ≡ 0 = ground (arith, init_zero r k) in
      rw z (zero-gmul ((lu_init n n s).u k c))

  lu_init-Columns : Columns n s.arr 0 (lu_init n n s)
  lu_init-Columns = record {
    core = record {
      arr_rows =
          λ r c hr hc. unfold lu_init in ground (arith, ap (λ t. s.arr t c) (v.pivot_start r hr));
      rows = λ r c hr hc.
          rw (init_taken r c hr, bit_xor-zero ((lu_init n n s).u r c))
            (unfold lu_init in
              ap (λ t. s.arr t c) (v.pivot_start r hr) ∙ ground (arith, init_u r c));
      u_bytes = λ r c. ground (arith, init_u r c, v.arr_bytes r c, v.u_bytes r c);
      l_bytes = λ r c. ground (arith, init_l r c, v.l_bytes r c);
      upper = λ r c h p q. absurd (omega arith);
      above = λ r k p q. init_zero r k (omega arith) p;
      pivot_lt = λ r h. unfold lu_init in omega (arith, v.pivot_start r h);
      pivot_inj =
          λ r q hr hq e. unfold lu_init in omega (arith, v.pivot_start r hr, v.pivot_start q hq);
    };
    diagonal = λ r h. absurd (omega arith);
    fresh = λ r k hr p q. init_zero r k hr (omega arith);
  }

  pub lu_fac-Columns : Columns n s.arr n (lu_fac n n s)
  unfolding lu_fac
  lu_fac-Columns =
      let square : ltb n n ≡ false = ground arith in
      rw square (
        for_range_inv (λ j t. Columns n s.arr j t) (column_step n) 0 n
          (λ j t p q w. column_step-Columns w q) n 0 (lu_init n n s) (omega arith) (omega arith)
          lu_init-Columns)

-- `l` is lower triangular with a unit diagonal, `u` upper triangular, and `l` times `u` is the matrix
-- `a` with its rows exchanged by the permutation `pivot`.
pub record IsFactorisation (n : ℕ) (a : Matrix) (t : Lu) : Type 0 where
  pub product : (r c : ℕ) → r < n → c < n → a (t.pivot r) c ≡ xsum n (λ k. gmul (t.l r k) (t.u k c))
  pub unit : (r : ℕ) → r < n → t.l r r ≡ 1
  pub lower : (r k : ℕ) → k < n → r < k → t.l r k ≡ 0
  pub upper : (r c : ℕ) → r < n → c < r → t.u r c ≡ 0
  pub pivot_lt : (r : ℕ) → r < n → t.pivot r < n
  pub pivot_inj : (r q : ℕ) → r < n → q < n → t.pivot r ≡ t.pivot q → r ≡ q
  pub arr_rows : (r c : ℕ) → r < n → c < n → t.arr r c ≡ a (t.pivot r) c
  pub bytes : AllBytes t.u × AllBytes t.l

module _ {n : ℕ} {a : Matrix} {t : Lu} (v : Columns n a n t) where
  whole_row :
      (r c : ℕ)
      → r < n
      → xsum n (λ k. gmul (t.l r k) (t.u k c)) ≡ bit_xor (t.u r c) (taken n t.l t.u r c)
  whole_row r c h =
      let z : low t.l r r ≡ 0 = ground arith in
      xsum_change n r (λ k. gmul (low t.l r k) (t.u k c)) (λ k. gmul (t.l r k) (t.u k c)) h
        (rw z (zero-gmul (t.u r c))) term
      ∙ rw (v.diagonal r h, one-gmul (t.u r c) (v.core.u_bytes r c)) (bit_xor_comm _ (t.u r c))
    where
      term : (k : ℕ) → k < n → k ≢ r → gmul (t.l r k) (t.u k c) ≡ gmul (low t.l r k) (t.u k c)
      term k p ne = elim (Bool-cases (ltb k r)) [
        | inl e ↦ rw e
        | inr e ↦ rw (e, v.core.above r k p (ground arith))
      ]

  Columns-IsFactorisation : IsFactorisation n a t
  Columns-IsFactorisation = record {
    product = λ r c hr hc. v.core.rows r c hr hc ∙ sym (whole_row r c hr);
    unit = v.diagonal;
    lower = v.core.above;
    upper = λ r c hr p. v.core.upper r c hr (omega arith) p;
    pivot_lt = v.core.pivot_lt;
    pivot_inj = v.core.pivot_inj;
    arr_rows = v.core.arr_rows;
    bytes = (v.core.u_bytes, v.core.l_bytes);
  }

-- On a square matrix of bytes `lu_fac` returns an LU factorisation with row exchange, and leaves the
-- matrix itself with its rows exchanged; this holds for singular matrices too.
pub lu_fac-IsFactorisation : (n : ℕ) (s : Lu) → IsStart n s → IsFactorisation n s.arr (lu_fac n n s)
lu_fac-IsFactorisation n s v = Columns-IsFactorisation (lu_fac-Columns v)
