-- ===== src/Mnc/Encode.antt =====
-- mnc_tx.c: the coding of one block by a matrix of coefficients.
pub mod Blocks
pub mod Packet
pub mod Header
pub mod Sum
pub mod Frame
use mac.Base.{
  ℕ, zero, suc, ◌+◌, ◌-◌, ◌≤◌, ◌<◌, bit_xor, ◌≡◌, refl, sym, ap, ◌∙◌, arith, for_range, Matrix, ◌*◌,
  ◌/◌, ◌&&◌, ◌==◌, leb, ltb, if◌then◌else◌, bit_xor_assoc, bit_xor-zero, Bool-cases, inl, inr,
}
use mac.Gf.{gadd, gmul}
use mac.Gf.Sum.{xsum, xsum-zero, xsum_front, xsum_congr}
use mac.Mnc.Substitute.{Vector, store}

-- The inner loop: the byte at `o + i` of the new data.
unfoldable pub cal_row : ℕ → Vector → ℕ → Matrix → ℕ → ℕ → Vector → Vector
cal_row p old at coefficient o i new =
    for_range p 0
      (λ j new. store new (o + i) (gadd (new (o + i)) (gmul (old (at + j)) (coefficient i j)))) new

-- `data` is `old` from the offset `at`, and `data_new` is `new` from the offset `o`.
unfoldable pub cal_data : ℕ → Vector → ℕ → Matrix → ℕ → Vector → Vector
unfolding cal_row
cal_data p old at coefficient o new = for_range p 0 (cal_row p old at coefficient o) new

row_sum :
    (q : ℕ) (f : ℕ → ℕ) (n lo : ℕ) (new : Vector) (x : ℕ)
    → for_range n lo (λ j new. store new q (gadd (new q) (f j))) new x
      ≡ (if x == q then bit_xor (new q) (xsum n (λ k. f (lo + k))) else new x)
unfolding for_range gadd
row_sum q f zero lo new x =
    ground
      (arith, xsum-zero 0 (λ k. f (lo + k)) (λ k h. absurd (omega arith)), bit_xor-zero (new q))
row_sum q f (suc n) lo new x =
    let rest = row_sum q f n (suc lo) (store new q (bit_xor (new q) (f lo))) x in
    let front = xsum_front n lo f in
    ground (arith, rest, front, bit_xor_assoc (new q) (f lo) (xsum n (λ k. f (suc lo + k))))

rows_sum :
    (p : ℕ) (old : Vector) (at : ℕ) (coefficient : Matrix) (o n lo : ℕ) (new : Vector) (x : ℕ)
    → for_range n lo (cal_row p old at coefficient o) new x ≡ (
        if leb (o + lo) x && ltb x (o + lo + n)
        then bit_xor (new x) (xsum p (λ j. gmul (old (at + j)) (coefficient (x - o) j)))
        else new x)
unfolding for_range cal_row
rows_sum p old at coefficient o zero lo new x = ground arith
rows_sum p old at coefficient o (suc n) lo new x =
    let f : ℕ → ℕ → ℕ = λ i j. gmul (old (at + j)) (coefficient i j) in
    let rest =
      rows_sum p old at coefficient o n (suc lo) (cal_row p old at coefficient o lo new) x in
    let row : cal_row p old at coefficient o lo new x
        ≡ (if x == o + lo then bit_xor (new (o + lo)) (xsum p (f lo)) else new x) =
      row_sum (o + lo) (f lo) p 0 new x
      ∙ ap (λ v. if x == o + lo then bit_xor (new (o + lo)) v else new x)
          (xsum_congr p (λ k. f lo (0 + k)) (f lo)
            (λ k h. let z : 0 + k ≡ k = omega arith in ap (f lo) z)) in
    elim (Bool-cases (x == o + lo)) [
      | inl e ↦
          let here : x ≡ o + lo = ground arith in
          let i : x - o ≡ lo = omega arith in
          let sum : xsum p (f (x - o)) ≡ xsum p (f lo) = ap (λ i. xsum p (f i)) i in
          let value : new (o + lo) ≡ new x = ap new (sym here) in ground arith
      | inr e ↦ ground arith
    ]

-- `cal_data` adds to each of the `p` bytes of the new data the product of its row of coefficients with
-- the `p` bytes of the old data, and changes no other byte.
pub cal_data_lem :
    (p : ℕ) (old : Vector) (at : ℕ) (coefficient : Matrix) (o : ℕ) (new : Vector) (x : ℕ)
    → cal_data p old at coefficient o new x ≡ (
        if leb o x && ltb x (o + p)
        then bit_xor (new x) (xsum p (λ j. gmul (old (at + j)) (coefficient (x - o) j)))
        else new x)
unfolding cal_data
cal_data_lem p old at coefficient o new x =
    let e : o + 0 ≡ o = omega arith in
    rows_sum p old at coefficient o p 0 new x
    ∙ ap
        (λ b.
          if leb b x && ltb x (b + p)
          then bit_xor (new x) (xsum p (λ j. gmul (old (at + j)) (coefficient (x - o) j)))
          else new x)
        e

-- The loop of `make_skb_new` over the blocks of one packet, `coding_len` bytes from `old`; the new data
-- begins at `o`. The last block is a whole one.
unfoldable pub code_blocks : ℕ → ℕ → Vector → Matrix → ℕ → Vector → Vector
unfolding cal_data
code_blocks p coding_len old coefficient o new =
    for_range ((coding_len + p - 1) / p) 0
      (λ b new. cal_data p old (b * p) coefficient (o + b * p) new) new
