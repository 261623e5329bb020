-- ===== src/Mnc/Encode/Header.antt =====
-- mnc_tx.c: where the coefficients of one packet go, and what one packet changes.
use mac.Base.{
  ℕ, zero, suc, ◌+◌, ◌-◌, ◌*◌, ◌/◌, ◌≤◌, ◌<◌, bit_xor, ◌≡◌, refl, sym, ap, ◌∙◌, arith, for_range,
  ◌&&◌, leb, ltb, if◌then◌else◌, Matrix,
}
use native.Mathlib.Nat.{suc-mul}
use mac.Mnc.Substitute.{Vector, store}
use mac.Mnc.Encode.{cal_data, cal_data_lem, code_blocks}
use mac.Mnc.Encode.Blocks.{coded, code_blocks-coded}
use mac.Mnc.Encode.Packet.{fill_header, code_packet}

cells_from :
    (random : Vector) (b n lo : ℕ) (new : Vector) (x : ℕ)
    → for_range n lo (λ j new. store new (3 + b + j) (random (b + j))) new x
      ≡ (if leb (3 + b + lo) x && ltb x (3 + b + lo + n) then random (x - 3) else new x)
unfolding for_range
cells_from random b zero lo new x = ground arith
cells_from random b (suc n) lo new x =
    let rest = cells_from random b n (suc lo) (store new (3 + b + lo) (random (b + lo))) x in
    let back : 3 + b + lo - 3 ≡ b + lo = omega arith in ground (arith, rest, ap random back)

row_cells :
    (p : ℕ) (random : Vector) (l i : ℕ) (new : Vector) (x : ℕ)
    → for_range p 0 (λ j new. store new (3 + l + i * p + j) (random (l + i * p + j))) new x
      ≡ (if leb (3 + l + i * p) x && ltb x (3 + l + i * p + p) then random (x - 3) else new x)
row_cells p random l i new x =
    let e : 3 + (l + i * p) ≡ 3 + l + i * p = omega arith in
    let loop : for_range p 0 (λ j new. store new (3 + l + i * p + j) (random (l + i * p + j))) new x
        ≡ for_range p 0 (λ j new. store new (3 + (l + i * p) + j) (random (l + i * p + j))) new x =
      ap (λ b. for_range p 0 (λ j new. store new (b + j) (random (l + i * p + j))) new x) (sym e) in
    loop ∙ (ground (arith, cells_from random (l + i * p) p 0 new x))

rows_cells :
    (p : ℕ) (random : Vector) (l n lo : ℕ) (new : Vector) (x : ℕ)
    → for_range n lo
        (λ i new.
          for_range p 0 (λ j new. store new (3 + l + i * p + j) (random (l + i * p + j))) new)
        new
        x
      ≡ (if leb (3 + l + lo * p) x && ltb x (3 + l + lo * p + n * p) then random (x - 3) else new x)
unfolding for_range
rows_cells p random l zero lo new x = let z : 0 * p ≡ 0 = omega arith in ground arith
rows_cells p random l (suc n) lo new x =
    let row : Vector =
      for_range p 0 (λ j new. store new (3 + l + lo * p + j) (random (l + lo * p + j))) new in
    let rest = rows_cells p random l n (suc lo) row x in
    let first = row_cells p random l lo new x in
    let e = suc-mul lo p in let e' = suc-mul n p in ground (arith, rest, first)

-- The `p * p` coefficients stand behind the first three bytes and the coefficients that are there.
pub fill_header_lem :
    (p : ℕ) (random : Vector) (l : ℕ) (new : Vector) (x : ℕ)
    → fill_header p random l new x
      ≡ (if leb (3 + l) x && ltb x (3 + l + p * p) then random (x - 3) else new x)
unfolding fill_header
fill_header_lem p random l new x =
    let z : 0 * p ≡ 0 = omega arith in ground (arith, rows_cells p random l p 0 new x)

blocks_below :
    (p : ℕ) (old : Vector) (coefficient : Matrix) (o : ℕ) (n b : ℕ) (new : Vector) (x : ℕ)
    → x < o
    → for_range n b (λ b new. cal_data p old (b * p) coefficient (o + b * p) new) new x ≡ new x
unfolding for_range
blocks_below p old coefficient o zero b new x h = refl
blocks_below p old coefficient o (suc n) b new x h =
    let rest =
      blocks_below p old coefficient o n (suc b)
        (cal_data p old (b * p) coefficient (o + b * p) new) x h in
    ground (arith, rest, cal_data_lem p old (b * p) coefficient (o + b * p) new x)

-- The coding of a packet leaves the bytes before the new data alone.
pub code_blocks_below :
    (p coding_len : ℕ) (old : Vector) (coefficient : Matrix) (o : ℕ) (new : Vector) (x : ℕ)
    → x < o
    → code_blocks p coding_len old coefficient o new x ≡ new x
unfolding code_blocks
code_blocks_below p coding_len old coefficient o new x h =
    blocks_below p old coefficient o ((coding_len + p - 1) / p) 0 new x h

-- One packet puts its coefficients into the header, and nothing else before the new data.
pub code_packet_header :
    (p coding_len : ℕ) (old random : Vector) (l o : ℕ) (new : Vector) (x : ℕ)
    → x < o
    → code_packet p coding_len old random l o new x
      ≡ (if leb (3 + l) x && ltb x (3 + l + p * p) then random (x - 3) else new x)
unfolding code_packet
code_packet_header p coding_len old random l o new x h =
    code_blocks_below p coding_len old (λ i j. random (l + i * p + j)) o
      (fill_header p random l new) x h
    ∙ fill_header_lem p random l new x

-- One packet adds its product with its coefficients to the new data.
pub code_packet_data :
    (p coding_len : ℕ) (old random : Vector) (l o : ℕ) (new : Vector) (y : ℕ)
    → 0 < p
    → y < coding_len
    → 3 + l + p * p ≤ o
    → code_packet p coding_len old random l o new (o + y)
      ≡ bit_xor (new (o + y)) (coded p old (λ i j. random (l + i * p + j)) y)
unfolding code_packet
code_packet_data p coding_len old random l o new y h below room =
    let same : fill_header p random l new (o + y) ≡ new (o + y) =
      ground (arith, fill_header_lem p random l new (o + y)) in
    code_blocks-coded p coding_len old (λ i j. random (l + i * p + j)) o
      (fill_header p random l new) y h below
    ∙ ap (λ v. bit_xor v (coded p old (λ i j. random (l + i * p + j)) y)) same
