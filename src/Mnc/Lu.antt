-- ===== src/Mnc/Lu.antt =====
-- mnc_rx.c, `lu_fac`: LU factorisation with row exchange over the field of gf.c.
pub mod Loops
pub mod Invariant
pub mod Eliminate
pub mod Exchange
pub mod Factor
use mac.Base.{ℕ, zero, suc, ◌-◌, ◌+◌, ◌<◌, ◌==◌, ltb, ◌&&◌, if◌then◌else◌, for_range, Matrix, put}
use mac.Gf.{gdiv, gsub, gmul}

-- The four arrays that `lu_fac` writes.
pub record Lu : Type 0 where
  pub arr : Matrix
  pub u : Matrix
  pub l : Matrix
  pub pivot : ℕ → ℕ

-- `temp = M[a][k]; M[a][k] = M[b][k]; M[b][k] = temp`
unfoldable pub swap_cells : ℕ → ℕ → ℕ → Matrix → Matrix
swap_cells a b k m = let temp = m a k in put (put m a k (m b k)) b k temp

unfoldable pub swap_pivot : ℕ → ℕ → (ℕ → ℕ) → ℕ → ℕ
swap_pivot a b p r = if r == a then p b else if r == b then p a else p r

-- The four exchanges of rows `j` and `change`.
unfoldable pub swap_rows : ℕ → ℕ → ℕ → Lu → Lu
swap_rows n j change s = record {
  arr = for_range n 0 (swap_cells j change) s.arr;
  u = for_range (n - j) j (swap_cells j change) s.u;
  l = for_range j 0 (swap_cells j change) s.l;
  pivot = swap_pivot j change s.pivot;
}

-- `for(k = j + 1; k < n; k++) if(U[k][j] != 0) break;`, from `k` with the rounds left.
unfoldable pub find_change : ℕ → ℕ → Matrix → ℕ → ℕ
find_change zero k u j = k
find_change (suc left) k u j = if u k j == 0 then find_change left (suc k) u j else k

-- `U[i][k] = U[i][k] - U[j][k] * f`
unfoldable pub clear_cell : ℕ → ℕ → ℕ → ℕ → Matrix → Matrix
clear_cell i j f k u = put u i k (gsub (u i k) (gmul (u j k) f))

-- The end of the loop's body: `L[i][j]` is set, and row `i` is cleared in column `j`.
unfoldable pub eliminate : ℕ → ℕ → ℕ → Lu → Lu
eliminate n j i s =
    let f = gdiv (s.u i j) (s.u j j) in
    let l' = put s.l i j f in
    if f == 0
    then record s { l = l' }
    else record s { l = l'; u = for_range (n - j) j (clear_cell i j f) s.u }

-- The body of the inner loop.
unfoldable pub row_step : ℕ → ℕ → ℕ → Lu → Lu
row_step n j i s =
    let change = find_change (n - suc j) (suc j) s.u j in
    if s.u j j == 0
    then (if change == n then s else eliminate n j i (swap_rows n j change s))
    else eliminate n j i s

-- The body of the outer loop.
unfoldable pub column_step : ℕ → ℕ → Lu → Lu
column_step n j s = for_range (n - suc j) (suc j) (row_step n j) (record s { l = put s.l j j 1 })

-- The two loops that fill `U` and `L` at the start.
unfoldable pub lu_init : ℕ → ℕ → Lu → Lu
lu_init m n s = record s {
  u =
      for_range n 0 (λ i u. for_range n 0 (λ j u. put u i j (if ltb i m then s.arr i j else 0)) u)
        s.u;
  l = for_range n 0 (λ i l. for_range n 0 (λ j l. put l i j 0) l) s.l;
}

unfoldable pub lu_fac : ℕ → ℕ → Lu → Lu
lu_fac m n s = if ltb n m then s else for_range n 0 (column_step n) (lu_init m n s)
