-- ===== src/Tl/Rates/Bounds.antt =====
-- tl_rx_list.c, `n_to_k` and `k_to_n`: bounds of the results where the products fit 64 bits.
use native.Mathlib.Nat.{
  mod-eq_of_lt, div-le_of_le-mul, le_trans, le_refl, mul-le-mul, div-le_self, div-add-mod, mod-lt,
}
use mac.Base.{
  ℕ, ◌+◌, ◌*◌, ◌/◌, ◌%◌, ◌^◌, ◌≤◌, ◌<◌, ◌≡◌, ◌⊎◌, refl, arith, some, ◌==◌, if◌then◌else◌, ltb,
  false,
}
use mac.Tl.Rates.{n_to_k, k_to_n, quotient, u64, u8}

le-mul : (x y : ℕ) → 0 < y → x ≤ x * y
le-mul x y h = grind arith

-- The product of the code, without wrap-around.
product_fits :
    (n a m c : ℕ)
    → 0 < m
    → a ≤ m
    → n * m * m * c * 1000000 < 2 ^ 64
    → 0 < c
    → u64 (u64 (u64 (u64 (n * a) * a) * c) * 1000000) ≡ n * a * a * c * 1000000
product_fits n a m c pos le fits cpos =
    let e1 : n * a ≤ n * m = mul-le-mul (le_refl n) le in
    let e2 : n * m ≤ n * m * m = le-mul (n * m) m pos in
    let e3 : n * a * a ≤ n * m * m = mul-le-mul e1 le in
    let e4 : n * a * a * c ≤ n * m * m * c = mul-le-mul e3 (le_refl c) in
    let e5 : n * m * m ≤ n * m * m * c = le-mul (n * m * m) c cpos in
    let f1 : n * a < 2 ^ 64 = omega (arith, e1, e2, e5) in
    let f2 : n * a * a < 2 ^ 64 = omega (arith, e3, e5) in
    let f3 : n * a * a * c < 2 ^ 64 = omega (arith, e4) in
    let f4 : n * a * a * c * 1000000 < 2 ^ 64 = omega (arith, e4) in
    rw (mod-eq_of_lt f1, mod-eq_of_lt f2, mod-eq_of_lt f3, mod-eq_of_lt f4)

div_le : (m n k : ℕ) → m ≤ k * n → m / k ≤ n
div_le m n k h = div-le_of_le-mul k h

-- Where `rcv` of `total` packets arrive, with `total` not zero and `rcv` at most `total`, `n` coded
-- packets with `n` below 256 bring at most eight tenths of `n` of rank, if the product of the
-- computation fits 64 bits with `total` in the place of `rcv`; the computation succeeds.
pub n_to_k_le :
    (n total rcv : ℕ)
    → 0 < total
    → rcv ≤ total
    → n < 256
    → n * total * total * 80 * 1000000 < 2 ^ 64
    → (k : ℕ) × (n_to_k n total rcv ≡ some k) × (100 * k ≤ 80 * n)
unfolding n_to_k quotient
n_to_k_le n total rcv pos le small fits =
    let whole = product_fits n rcv total 80 pos le fits (omega arith) in
    let p : ℕ = n * rcv * rcv * 80 * 1000000 in
    let a1 : n * rcv * rcv * 80 * 1000000 ≤ total * (n * rcv * 80 * 1000000) = grind arith in
    let b1 : p / total ≤ n * rcv * 80 * 1000000 = div_le p _ total a1 in
    let a2 : n * rcv * 80 * 1000000 ≤ total * (n * 80 * 1000000) = grind arith in
    let b2 : p / total / total ≤ n * 80 * 1000000 =
      div_le (p / total) _ total (omega (arith, b1, a2)) in
    let nonzero : (total == 0) ≡ false = ground arith in
    (u8 (p / total / total / 100 / 1000000), rw (nonzero, whole), omega (arith, b2))

le-div : (m n k : ℕ) → 0 < k → k * n ≤ m → n ≤ m / k
le-div m n k h p = let e = div-add-mod m k in let lt = mod-lt m h in grind arith

-- Rounding up to whole packets, and the cut at 255.
whole_packets : ℕ → ℕ
whole_packets result =
    let up = (if result % 1000000 == 0 then result else u64 (result + 1000000)) in
    let n = up / 1000000 in u8 (if ltb n 255 then n else 255)

whole_packets_enough :
    (result k : ℕ)
    → result * 80 < 2 ^ 64
    → k * 1250000 ≤ result
    → ((5 * k ≤ 4 * whole_packets result) ⊎ (whole_packets result ≡ 255))
      × (whole_packets result ≤ 255)
unfolding whole_packets
whole_packets_enough result k fits le = ground arith

-- Where `rcv` of `total` packets arrive, with `rcv` not zero and at most `total`, `k` of rank are sent
-- with at least five quarters of `k` packets, or with 255, never more than 255, if the product of the
-- computation fits 64 bits; the computation succeeds.
pub k_to_n_enough :
    (k total rcv : ℕ)
    → 0 < rcv
    → rcv ≤ total
    → k * total * total * 100 * 1000000 < 2 ^ 64
    → (n : ℕ) × (k_to_n k total rcv ≡ some n) × ((5 * k ≤ 4 * n) ⊎ (n ≡ 255)) × (n ≤ 255)
unfolding k_to_n quotient
k_to_n_enough k total rcv pos le fits =
    let p : ℕ = k * total * total * 100 * 1000000 in
    let whole = product_fits k total total 100 (omega arith) (le_refl total) fits (omega arith) in
    let a1 : rcv * (k * total * 100 * 1000000) ≤ p =
      let e : rcv * (k * total * 100 * 1000000) ≤ total * (k * total * 100 * 1000000) =
        mul-le-mul le (le_refl (k * total * 100 * 1000000)) in
      omega (arith, e) in
    let b1 : k * total * 100 * 1000000 ≤ p / rcv = le-div p _ rcv pos a1 in
    let a2 : rcv * (k * 100 * 1000000) ≤ k * total * 100 * 1000000 =
      let e : rcv * (k * 100 * 1000000) ≤ total * (k * 100 * 1000000) =
        mul-le-mul le (le_refl (k * 100 * 1000000)) in
      omega (arith, e) in
    let b2 : k * 100 * 1000000 ≤ p / rcv / rcv = le-div (p / rcv) _ rcv pos (le_trans a2 b1) in
    let up1 : p / rcv ≤ p = div-le_self p rcv in
    let up2 : p / rcv / rcv ≤ p / rcv = div-le_self (p / rcv) rcv in
    let nonzero : (rcv == 0) ≡ false = ground arith in
    let q : ℕ = p / rcv / rcv / 80 in
    let enough = whole_packets_enough q k (omega (arith, up1, up2)) (omega (arith, b2)) in
    (whole_packets q, (rw (nonzero, whole) (unfold whole_packets in refl)), enough.0, enough.1)
