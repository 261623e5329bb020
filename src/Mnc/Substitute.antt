-- ===== src/Mnc/Substitute.antt =====
-- mnc_rx.c, `skb_substi`: the packets are recovered block by block from the factorisation. A packet's
-- `data` is a function of the offset; `newskb[j]` is a copy that shares nothing with `skb[j]`.
pub mod Solve
pub mod Cells
pub mod Recover
use mac.Base.{
  ℕ, zero, suc, ◌-◌, ◌+◌, ◌*◌, ◌/◌, ◌<◌, ◌==◌, Bool, if◌then◌else◌, for_range, Matrix, put,
}
use mac.Gf.{gdiv, gsub, gmul}

abbrev pub Vector : Type 0
Vector = ℕ → ℕ

-- v[i] = e
abbrev pub store : Vector → ℕ → ℕ → Vector
store v i e r = if r == i then e else v r

-- `y[j][0] = b[j][0]`, and what the solved rows contribute is taken off.
unfoldable pub forward_step : Matrix → Vector → ℕ → Vector → Vector
forward_step l b j y =
    for_range j 0 (λ k y. store y j (gsub (y j) (gmul (l j k) (y k)))) (store y j (b j))

unfoldable pub forward : ℕ → Matrix → Vector → Vector → Vector
forward msize l b y = for_range msize 0 (forward_step l b) y

-- Row `n = msize - 1 - j` of the second system.
unfoldable pub backward_step : ℕ → Matrix → Vector → ℕ → Vector → Vector
backward_step msize u y j x =
    let n = msize - 1 - j in
    if u n n == 0
    then x
    else let x' =
        for_range (msize - suc n) (suc n) (λ l x. store x n (gsub (x n) (gmul (u n l) (x l))))
          (store x n (y n)) in
      store x' n (gdiv (x' n) (u n n))

unfoldable pub backward : ℕ → Matrix → Vector → Vector → Vector
backward msize u y x = for_range msize 0 (backward_step msize u y) x

-- The blocks of `t`, row after row.
unfoldable pub fill_block : ℕ → ℕ → (ℕ → Vector) → (ℕ → ℕ) → ℕ → Vector → Vector
fill_block k p skb start i t =
    for_range k 0 (λ j t. for_range p 0 (λ l t. store t (j * p + l) (skb j (start j + i + l))) t) t

-- `b[j][0] = t[pivot[j]][0]`
unfoldable pub permute : ℕ → Vector → Vector → Vector → Vector
permute msize pivot t b = for_range msize 0 (λ j b. store b j (t (pivot j))) b

unfoldable pub write_block : ℕ → ℕ → Vector → ℕ → (ℕ → Vector) → ℕ → Vector
write_block k p x i newskb =
    for_range k 0 (λ j new. for_range p 0 (λ l new. put new j (i + l) (x (j * p + l))) new) newskb

-- The four arrays that live across the blocks.
pub record Work : Type 0 where
  pub b : Vector
  pub t : Vector
  pub y : Vector
  pub x : Vector
  pub newskb : ℕ → Vector

-- The body of the outer loop, at offset `i`. `start j` is `is_sys[j] ? 3 : mncheadsize`.
unfoldable pub block_step :
    ℕ → ℕ → ℕ → Matrix → Matrix → Vector → (ℕ → Vector) → (ℕ → ℕ) → ℕ → Work → Work
block_step msize k p u l pivot skb start i w =
    let t = fill_block k p skb start i w.t in
    let b = permute msize pivot t (fill_block k p skb start i w.b) in
    let y = forward msize l b w.y in
    let x = backward msize u y w.x in
    record { b = b; t = t; y = y; x = x; newskb = write_block k p x i w.newskb }

-- `for(i = 0; i < len; i += p)`: the rounds are `len / p` rounded up.
unfoldable pub skb_substi :
    ℕ → ℕ → ℕ → Matrix → Matrix → Vector → (ℕ → Vector) → ℕ → ℕ → (ℕ → Bool) → Work → Work
skb_substi msize k p u l pivot skb len mncheadsize is_sys w =
    let start : ℕ → ℕ = λ j. if is_sys j then 3 else mncheadsize in
    for_range ((len + p - 1) / p) 0 (λ q. block_step msize k p u l pivot skb start (q * p)) w
