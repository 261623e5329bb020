-- ===== src/Base/Loops.antt =====
-- Counted loops, and two-dimensional arrays as functions of their two indices.
use Prim.Native.Nat.{ℕ, zero, suc, ◌+◌, ◌≤◌, ◌<◌}
use mathlib.Core.Path.{◌≡◌}
use mathlib.Core.Bool.{◌&&◌}
use native.Mathlib.Omega.{arith}
use mac.Base.Tests.{◌==◌, if◌then◌else◌}

-- for (k = i; k < i + n; k++) s = body k s
unfoldable pub for_range {ℓ} : {S : Type ℓ} → ℕ → ℕ → (ℕ → S → S) → S → S
for_range zero i body s = s
for_range (suc n) i body s = for_range n (suc i) body (body i s)

-- What each round carries from one index to the next holds at the end `j` of the loop.
pub for_range_inv {ℓ κ} :
    {S : Type ℓ} (P : ℕ → S → Type κ) (body : ℕ → S → S) (lo j : ℕ)
    → ((i : ℕ) (s : S) → lo ≤ i → i < j → P i s → P (suc i) (body i s))
    → (n i : ℕ) (s : S) → lo ≤ i
    → i + n ≡ j
    → P i s
    → P j (for_range n i body s)
unfolding for_range
for_range_inv P body lo j keep zero i s b e h = let e' : i ≡ j = omega arith in rw (← e') h
for_range_inv P body lo j keep (suc n) i s b e h =
    for_range_inv P body lo j keep n (suc i) (body i s) (omega arith) (omega arith)
      (keep i s b (omega arith) h)

abbrev pub Matrix : Type 0
Matrix = ℕ → ℕ → ℕ

-- M[i][j] = v
abbrev pub put : Matrix → ℕ → ℕ → ℕ → Matrix
put m i j v r c = if r == i && c == j then v else m r c
