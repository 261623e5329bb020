-- ===== src/Mnc/Decode/Rows.antt =====
-- mnc_rx.c: the cells of the matrix of coefficients.
use mac.Base.{
  ℕ, zero, suc, ◌+◌, ◌-◌, ◌*◌, ◌/◌, ◌%◌, ◌<◌, ◌≡◌, sym, ap, ap₂, ◌∙◌, arith, for_range, Bool, ◌&&◌,
  leb, ltb, ◌==◌, if◌then◌else◌, Matrix, put, Bool-cases, inl, inr, ==→eq,
}
use native.Mathlib.Nat.{div-lt_iff_lt-mul}
use mac.Mnc.Substitute.{Vector}
use mac.Mnc.Substitute.Cells.{put_loop, bounds_of_quotient, quotient_of_bounds}
use mac.Mnc.Decode.{systematic_rows, coded_rows, fill_coefficients}

rows_put :
    (top left p : ℕ) (f : ℕ → ℕ → ℕ) (n lo : ℕ) (a : Matrix) (r o : ℕ)
    → for_range n lo (λ m a. for_range p 0 (λ c a. put a (top + m) (left + c) (f m c)) a) a r o ≡ (
        if leb (top + lo) r && ltb r (top + lo + n) && (leb left o && ltb o (left + p))
        then f (r - top) (o - left)
        else a r o)
unfolding for_range
rows_put top left p f zero lo a r o = ground arith
rows_put top left p f (suc n) lo a r o =
    let row : Matrix = for_range p 0 (λ c a. put a (top + lo) (left + c) (f lo c)) a in
    let first = put_loop (top + lo) left (f lo) p 0 a r o in
    let rest = rows_put top left p f n (suc lo) row r o in
    let back : top + lo - top ≡ lo = omega arith in
    ground (arith, first, rest, ap (λ m. f m (o - left)) back)

blocks_put :
    (top p : ℕ) (f : ℕ → ℕ → ℕ → ℕ) (n lo : ℕ) (a : Matrix) (r o : ℕ)
    → 0 < p
    → for_range n lo
        (λ b a.
          for_range p 0 (λ m a. for_range p 0 (λ c a. put a (top + m) (b * p + c) (f b m c)) a) a)
        a
        r
        o
      ≡ (if leb top r && ltb r (top + p) && (leb lo (o / p) && ltb (o / p) (lo + n))
          then f (o / p) (r - top) (o % p)
          else a r o)
unfolding for_range
blocks_put top p f zero lo a r o h = ground arith
blocks_put top p f (suc n) lo a r o h =
    let block : Matrix =
      for_range p 0 (λ m a. for_range p 0 (λ c a. put a (top + m) (lo * p + c) (f lo m c)) a) a in
    let first = rows_put top (lo * p) p (f lo) p 0 a r o in
    let rest = blocks_put top p f n (suc lo) block r o h in
    elim (Bool-cases (o / p == lo)) [
      | inl e ↦
          let q = ==→eq (o / p) lo e in
          let bounds = bounds_of_quotient p o h in
          let at : o ≡ lo * p + o % p = bounds.0 ∙ ap (λ t. t * p + o % p) q in
          let off : o - lo * p ≡ o % p = omega (arith, at) in
          let value : f lo (r - top) (o - lo * p) ≡ f (o / p) (r - top) (o % p) =
            ap₂ (λ b c. f b (r - top) c) (sym q) off in
          ground (arith, first, rest, at, bounds.1, value)
      | inr e ↦ ground (arith, first, rest, quotient_of_bounds lo p o)
    ]

-- The coefficient of byte `o` of the original packets in byte `r` of the received ones.
abbrev pub coefficient_at : ℕ → (ℕ → Vector) → (ℕ → Bool) → ℕ → ℕ → ℕ
coefficient_at p skb is_sys r o =
    if is_sys (r / p)
    then (if o == r then 1 else 0)
    else skb (r / p) (3 + o / p * p * p + r % p * p + o % p)

systematic_cell :
    (k p i : ℕ) (a : Matrix) (r o : ℕ)
    → 0 < p
    → o < k * p
    → systematic_rows (k * p) p i a r o ≡ (if r / p == i then (if o == r then 1 else 0) else a r o)
unfolding systematic_rows
systematic_cell k p i a r o h below =
    let f : ℕ → ℕ → ℕ = λ m n. if n == i * p + m then 1 else 0 in
    let cells = rows_put (i * p) 0 (k * p) f p 0 a r o in
    elim (Bool-cases (r / p == i)) [
      | inl e ↦
          let q = ==→eq (r / p) i e in
          let bounds = bounds_of_quotient p r h in
          let at : r ≡ i * p + r % p = bounds.0 ∙ ap (λ t. t * p + r % p) q in
          let row : i * p + (r - i * p) ≡ r = omega (arith, at) in
          ground (arith, cells, at, bounds.1, row)
      | inr e ↦ ground (arith, cells, quotient_of_bounds i p r)
    ]

coded_cell :
    (k p : ℕ) (v : Vector) (i : ℕ) (a : Matrix) (r o : ℕ)
    → 0 < p
    → o < k * p
    → coded_rows k p v i a r o
      ≡ (if r / p == i then v (3 + o / p * p * p + r % p * p + o % p) else a r o)
unfolding coded_rows
coded_cell k p v i a r o h below =
    let cells = blocks_put (i * p) p (λ b m n. v (3 + b * p * p + m * p + n)) k 0 a r o h in
    let block : o / p < k = (div-lt_iff_lt-mul h).1 below in
    elim (Bool-cases (r / p == i)) [
      | inl e ↦
          let q = ==→eq (r / p) i e in
          let bounds = bounds_of_quotient p r h in
          let at : r ≡ i * p + r % p = bounds.0 ∙ ap (λ t. t * p + r % p) q in
          let off : r - i * p ≡ r % p = omega (arith, at) in
          let value : v (3 + o / p * p * p + (r - i * p) * p + o % p)
              ≡ v (3 + o / p * p * p + r % p * p + o % p) =
            ap (λ m. v (3 + o / p * p * p + m * p + o % p)) off in
          ground (arith, cells, at, bounds.1, value)
      | inr e ↦ ground (arith, cells, quotient_of_bounds i p r)
    ]

packet_cell :
    (k p : ℕ) (skb : ℕ → Vector) (is_sys : ℕ → Bool) (i : ℕ) (a : Matrix) (r o : ℕ)
    → 0 < p
    → o < k * p
    → (if is_sys i then systematic_rows (k * p) p i a else coded_rows k p (skb i) i a) r o
      ≡ (if r / p == i then coefficient_at p skb is_sys r o else a r o)
packet_cell k p skb is_sys i a r o h below =
    let one = systematic_cell k p i a r o h below in
    let other = coded_cell k p (skb i) i a r o h below in
    elim (Bool-cases (r / p == i)) [
      | inl e ↦
          let q = ==→eq (r / p) i e in
          let kind = ap is_sys q in
          let byte = ap (λ i. skb i (3 + o / p * p * p + r % p * p + o % p)) q in
          elim (Bool-cases (is_sys i)) [
            | inl s ↦ rw (s) (ground (arith, one, kind))
            | inr s ↦ rw (s) (ground (arith, other, kind, byte))
          ]
      | inr e ↦ elim (Bool-cases (is_sys i)) [
        | inl s ↦ rw (s) (ground (arith, one))
        | inr s ↦ rw (s) (ground (arith, other))
      ]
    ]

packets_cell :
    (k p : ℕ) (skb : ℕ → Vector) (is_sys : ℕ → Bool) (n lo : ℕ) (a : Matrix) (r o : ℕ)
    → 0 < p
    → o < k * p
    → for_range n lo
        (λ i a. if is_sys i then systematic_rows (k * p) p i a else coded_rows k p (skb i) i a)
        a
        r
        o
      ≡ (if leb lo (r / p) && ltb (r / p) (lo + n) then coefficient_at p skb is_sys r o else a r o)
unfolding for_range
packets_cell k p skb is_sys zero lo a r o h below = ground arith
packets_cell k p skb is_sys (suc n) lo a r o h below =
    let one : Matrix =
      if is_sys lo then systematic_rows (k * p) p lo a else coded_rows k p (skb lo) lo a in
    let rest = packets_cell k p skb is_sys n (suc lo) one r o h below in
    let cell : one r o ≡ (if r / p == lo then coefficient_at p skb is_sys r o else a r o) =
      packet_cell k p skb is_sys lo a r o h below in
    ground (arith, rest, cell)

-- Every coefficient among those of the `k` packets is set.
pub fill_coefficients_lem :
    (k p : ℕ) (skb : ℕ → Vector) (is_sys : ℕ → Bool) (a : Matrix) (r o : ℕ)
    → 0 < p
    → r < k * p
    → o < k * p
    → fill_coefficients k p skb is_sys a r o ≡ coefficient_at p skb is_sys r o
unfolding fill_coefficients
fill_coefficients_lem k p skb is_sys a r o h inside below =
    let packet : r / p < k = (div-lt_iff_lt-mul h).1 inside in
    ground (arith, packets_cell k p skb is_sys k 0 a r o h below)
