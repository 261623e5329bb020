-- ===== src/Mnc/Lu/Loops.antt =====
-- mnc_rx.c, `lu_fac`: what each of its inner loops leaves in each cell.
use mac.Base.{
  ℕ, zero, suc, ◌+◌, ◌≤◌, ◌<◌, ◌≡◌, ◌≢◌, arith, ◌==◌, ltb, leb, Bool-cases, inl, inr, ==→eq, ap,
  ◌&&◌, if◌then◌else◌, for_range, Matrix, put,
}
use mac.Gf.{gsub, gmul}
use mac.Mnc.Lu.{swap_cells, find_change, clear_cell}

pub swap_cells_loop :
    (a b : ℕ) (n lo : ℕ) (m : Matrix) (r c : ℕ)
    → for_range n lo (swap_cells a b) m r c ≡ (
        if leb lo c && ltb c (lo + n)
        then (if r == b then m a c else if r == a then m b c else m r c)
        else m r c)
unfolding for_range swap_cells
swap_cells_loop a b zero lo m r c = ground arith
swap_cells_loop a b (suc n) lo m r c =
    ground (arith, swap_cells_loop a b n (suc lo) (swap_cells a b lo m) r c)

pub clear_cell_loop :
    (i j f : ℕ) (n lo : ℕ) (u : Matrix) (r c : ℕ)
    → i ≢ j
    → for_range n lo (clear_cell i j f) u r c
      ≡ (if r == i && (leb lo c && ltb c (lo + n)) then gsub (u i c) (gmul (u j c) f) else u r c)
unfolding for_range clear_cell
clear_cell_loop i j f zero lo u r c ne = ground arith
clear_cell_loop i j f (suc n) lo u r c ne =
    ground (arith, clear_cell_loop i j f n (suc lo) (clear_cell i j f lo u) r c ne)

fill_row :
    (v : ℕ → ℕ) (i n lo : ℕ) (u : Matrix) (r c : ℕ)
    → for_range n lo (λ j u. put u i j (v j)) u r c
      ≡ (if r == i && (leb lo c && ltb c (lo + n)) then v c else u r c)
unfolding for_range
fill_row v i zero lo u r c = ground arith
fill_row v i (suc n) lo u r c = ground (arith, fill_row v i n (suc lo) (put u i lo (v lo)) r c)

-- The two loops that fill a square.
pub fill_loop :
    (v : Matrix) (w n lo : ℕ) (u : Matrix) (r c : ℕ)
    → for_range n lo (λ i u. for_range w 0 (λ j u. put u i j (v i j)) u) u r c
      ≡ (if (leb lo r && ltb r (lo + n)) && ltb c w then v r c else u r c)
unfolding for_range
fill_loop v w zero lo u r c = ground arith
fill_loop v w (suc n) lo u r c = ground (
  arith,
  fill_loop v w n (suc lo) (for_range w 0 (λ j u. put u lo j (v lo j)) u) r c,
  fill_row (v lo) lo w 0 u r c,
)

pub find_change_lem :
    (left k : ℕ) (u : Matrix) (j n : ℕ)
    → k + left ≡ n
    → (k ≤ find_change left k u j)
      × (find_change left k u j ≤ n)
      × (find_change left k u j < n → u (find_change left k u j) j ≢ 0)
unfolding find_change
find_change_lem zero k u j n e = omega arith
find_change_lem (suc left) k u j n e = ground (arith, find_change_lem left (suc k) u j n)

pub find_change_none :
    (left k : ℕ) (u : Matrix) (j n r : ℕ)
    → k + left ≡ n
    → find_change left k u j ≡ n
    → k ≤ r
    → r < n
    → u r j ≡ 0
unfolding find_change
find_change_none zero k u j n r e f h p = absurd (omega arith)
find_change_none (suc left) k u j n r e f h p = elim (Bool-cases (r == k)) [
  | inl same ↦ ground (arith, ==→eq r k same, ap (λ t. u t j) (==→eq r k same))
  | inr other ↦ ground (arith, find_change_none left (suc k) u j n r)
]
