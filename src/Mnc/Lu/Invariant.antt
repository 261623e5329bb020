-- ===== src/Mnc/Lu/Invariant.antt =====
-- mnc_rx.c, `lu_fac`: what holds of the four arrays between the columns and between the rows.
use mac.Base.{ℕ, suc, ◌≤◌, ◌<◌, bit_xor, ◌≡◌, ltb, if◌then◌else◌, Matrix}
use mac.Gf.{gmul, IsByte}
use mac.Gf.Sum.{xsum}
use mac.Mnc.Lu.{Lu}

-- The part of `L` below the diagonal.
abbrev pub low : Matrix → Matrix
low l r k = if ltb k r then l r k else 0

-- The sum of the multiples of other rows that were taken off row `r`, in column `c`.
abbrev pub taken : ℕ → Matrix → Matrix → Matrix
taken n l u r c = xsum n (λ k. gmul (low l r k) (u k c))

abbrev pub AllBytes : Matrix → Type 0
AllBytes m = (r c : ℕ) → IsByte (m r c)

-- `a` is the matrix at the start; the columns below `j` are cleared under the diagonal.
pub record Core (n : ℕ) (a : Matrix) (j : ℕ) (s : Lu) : Type 0 where
  pub arr_rows : (r c : ℕ) → r < n → c < n → s.arr r c ≡ a (s.pivot r) c
  pub rows : (r c : ℕ) → r < n → c < n → a (s.pivot r) c ≡ bit_xor (s.u r c) (taken n s.l s.u r c)
  pub u_bytes : AllBytes s.u
  pub l_bytes : AllBytes s.l
  pub upper : (r c : ℕ) → r < n → c < j → c < r → s.u r c ≡ 0
  pub above : (r k : ℕ) → k < n → r < k → s.l r k ≡ 0
  pub pivot_lt : (r : ℕ) → r < n → s.pivot r < n
  pub pivot_inj : (r q : ℕ) → r < n → q < n → s.pivot r ≡ s.pivot q → r ≡ q

-- Before column `j`.
pub record Columns (n : ℕ) (a : Matrix) (j : ℕ) (s : Lu) : Type 0 where
  pub core : Core n a j s
  pub diagonal : (r : ℕ) → r < j → s.l r r ≡ 1
  pub fresh : (r k : ℕ) → r < n → j ≤ k → k < r → s.l r k ≡ 0

-- In column `j`, before row `i`.
pub record Rows (n : ℕ) (a : Matrix) (j i : ℕ) (s : Lu) : Type 0 where
  pub core : Core n a j s
  pub diagonal : (r : ℕ) → r < suc j → s.l r r ≡ 1
  pub fresh : (r k : ℕ) → r < n → j < k → k < r → s.l r k ≡ 0
  pub fresh_rows : (r : ℕ) → r < n → i ≤ r → s.l r j ≡ 0
  pub cleared : (r : ℕ) → r < n → j < r → r < i → s.u r j ≡ 0
  -- with a zero on the diagonal nothing has been taken off yet
  pub stuck : s.u j j ≡ 0 → (r : ℕ) → r < n → j < r → s.l r j ≡ 0
